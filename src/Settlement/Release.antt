-- ===== src/Settlement/Release.antt =====
-- What is held for a bet that is settled (app/services/settlement_service.py).
use buddy_bet_v.Prelude.{ℕ-eq, ◌≡◌, sym, some, Bool, true, false, ◌==◌, if◌then◌else◌}
use buddy_bet_v.Prelude.Int.{ℤ, pos, ◌+ℤ◌, ◌-ℤ◌, int_laws}
use buddy_bet_v.Models.{Uuid, DateTime, Bet, Database}
use buddy_bet_v.Models.Enums.{SettlementOutcome, BetStatus}
use buddy_bet_v.Bets.{bet_of, set_bet}
use buddy_bet_v.Settlement.{Settled, settled_bet}
use buddy_bet_v.Settlement.Locks.{gain, LocksMoved}
use buddy_bet_v.Escrow.{IsEscrowed, bet_hold}
use buddy_bet_v.Escrow.Holds.{held-set_bet}

both_leave :
    (b c : Bool) (s : ℤ)
    → pos 0 +ℤ pos 0
      ≡ ((if b then s else pos 0) +ℤ (if c then s else pos 0))
        +ℤ ((if b then pos 0 -ℤ s else pos 0) +ℤ (if c then pos 0 -ℤ s else pos 0))
both_leave true true s = omega int_laws
both_leave true false s = omega int_laws
both_leave false true s = omega int_laws
both_leave false false s = omega int_laws

module _ (bet : Bet) (opponent : Uuid) (pending : bet.status ≡ BetStatus.pending_settlement)
    (has_opponent : bet.opponent_id ≡ some opponent) where
  bet_hold-settled :
      (j : Uuid) (outcome : SettlementOutcome) (s : Settled) (now : DateTime)
      → bet_hold j (settled_bet outcome s now bet)
        ≡ bet_hold j bet
          +ℤ (gain j bet.creator_id (pos 0 -ℤ bet.stake_amount)
              +ℤ gain j opponent (pos 0 -ℤ bet.stake_amount))
  bet_hold-settled j outcome s now =
      rw (pending, has_opponent) (both_leave (j == bet.creator_id) (j == opponent) bet.stake_amount)

  pub settled-IsEscrowed :
      (outcome : SettlementOutcome) (s : Settled) (now : DateTime) (db db1 : Database)
      → bet_of bet.id db ≡ some bet
      → LocksMoved bet.creator_id opponent (pos 0 -ℤ bet.stake_amount) db db1
      → IsEscrowed db
      → IsEscrowed (record db {
        wallets = db1.wallets;
        bets = (set_bet (settled_bet outcome s now bet) db).bets;
      })
  settled-IsEscrowed outcome s now db db1 found moved escrowed j w' at_j =
      let change =
        gain j bet.creator_id (pos 0 -ℤ bet.stake_amount)
        +ℤ gain j opponent (pos 0 -ℤ bet.stake_amount) in
      let (w, before, locked) = moved j w' at_j in
      rw (locked, escrowed j w before)
        (sym (
          held-set_bet j db change bet (settled_bet outcome s now bet) found
            (bet_hold-settled j outcome s now)))
