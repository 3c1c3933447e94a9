-- ===== src/Escrow/Settled.antt =====
-- `settle_bet` (app/services/settlement_service.py) in a consistent database.
use buddy_bet_v.Prelude.{ℕ-eq, ◌≡◌, some}
use buddy_bet_v.Exec.OnOk.{OnOk, OnOk-map}
use buddy_bet_v.Models.{Uuid, DateTime, Bet, Database}
use buddy_bet_v.Models.Enums.{BetStatus}
use buddy_bet_v.Bets.{bet_of}
use buddy_bet_v.Settlement.{settle_bet}
use buddy_bet_v.Settlement.Verdict.{Verdict}
use buddy_bet_v.Settlement.Laws.{SettledFrom, settle_bet-SettledFrom}
use buddy_bet_v.Escrow.{IsConsistent}
use buddy_bet_v.Escrow.BetMoves.{Conserved}

-- The stored bet is settled with the verdict.
abbrev pub Settles : Uuid → Database → Bet → Database → Type 0
Settles bet_id db bet' db' =
    Conserved db db'
    × (bet_of bet_id db' ≡ some bet')
    × (bet'.status ≡ BetStatus.settled)
    × Verdict bet_id db bet'

module _ (bet_id : Uuid) (now : DateTime) (db : Database) (c : IsConsistent db) where
  SettledFrom-Settles :
      (bet' : Bet) (db' : Database) → SettledFrom bet_id db bet' db' → Settles bet_id db bet' db'
  SettledFrom-Settles bet' db'
        (sound, funds, reconciled, escrowed, (w_same, d_same), stored, status, verdict) =
      (
        (
          record {
            sound = sound;
            reconciled = reconciled c.reconciled;
            escrowed = escrowed c.escrowed;
            withdrawals = rw w_same c.withdrawals;
            deposits = rw d_same c.deposits;
          },
          funds,
        ),
        stored,
        status,
        verdict,
      )

  -- From a consistent database, when `settle_bet` returns, the database it leaves is consistent, and
  -- the balances of the users and of the platform together are what they were. The stored bet is the
  -- one returned: settled, with the outcome that the result of its match decides, the winner that the
  -- outcome names, and an amount paid out.
  pub settle_bet-Settles : OnOk (Settles bet_id db) (settle_bet bet_id now db)
  settle_bet-Settles =
      OnOk-map (SettledFrom bet_id db) (Settles bet_id db) (settle_bet bet_id now db)
        SettledFrom-Settles (settle_bet-SettledFrom bet_id now db c.sound)
