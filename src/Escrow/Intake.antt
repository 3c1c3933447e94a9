-- ===== src/Escrow/Intake.antt =====
-- A withdrawal is requested (app/services/withdrawal_service.py) in a consistent database.
use buddy_bet_v.Prelude.{
  ℕ-eq, ◌≡◌, ◌∙◌, refl, ap, arith, some, Option, String, Bool, true, false, ◌==◌, beq_self,
  if◌then◌else◌,
}
use buddy_bet_v.Prelude.Int.{ℤ, pos, ◌+ℤ◌, ◌-ℤ◌, ◌<ℤ◌, leb_ℤ, int_laws}
use buddy_bet_v.Exec.{not_found, validation}
use buddy_bet_v.Exec.OnOk.{OnOk, OnOk-some, OnOk-raise_if}
use buddy_bet_v.Money.{Decimal}
use buddy_bet_v.Money.Cents.{IsCents}
use buddy_bet_v.Models.{Uuid, Wallet, WithdrawalRequest, Database}
use buddy_bet_v.Table.{total}
use buddy_bet_v.Withdrawals.{withdrawal_of, new_withdrawal, add_withdrawal, create_withdrawal}
use buddy_bet_v.Wallet.{wallet_of, get_by_user_id_or_404}
use buddy_bet_v.Wallet.Calls
use buddy_bet_v.Wallet.Calls.{perform}
use buddy_bet_v.Wallet.Reconcile.{total_holdings}
use buddy_bet_v.Platform.Laws.{platform_total}
use buddy_bet_v.Escrow.{IsConsistent, WithdrawalsGood, bet_hold, request_hold}
use buddy_bet_v.Escrow.Post.{Moved, OnOk-perform, post-IsConsistent, post-total}
use buddy_bet_v.Escrow.BetMoves.{Conserved}

-- The amount was positive, the request of the user's wallet is stored, pending, and the money is held.
abbrev pub Requested :
    Uuid
    → Decimal
    → String
    → String
    → Option String
    → Uuid
    → Database
    → WithdrawalRequest
    → Database
    → Type 0
Requested user amount account currency kind new_id db w db' =
    Conserved db db'
    × (pos 0 <ℤ amount)
    × (withdrawal_of new_id db' ≡ some w)
    × ((wallet : Wallet) × (wallet_of user db ≡ some wallet)
        × (w ≡ new_withdrawal new_id user wallet.id amount currency account kind))

above : (a : Decimal) → leb_ℤ a (pos 0) ≡ false → pos 0 <ℤ a
above a h = ground arith

hold_added :
    (b : Bool) (a bets requests : ℤ)
    → bets +ℤ ((if b then a else pos 0) +ℤ requests)
      ≡ (bets +ℤ requests) +ℤ (if b then a else pos 0)
hold_added true a bets requests = omega int_laws
hold_added false a bets requests = omega int_laws

moved_within : (t a : ℤ) → t +ℤ ((pos 0 -ℤ a) +ℤ a) ≡ t
moved_within t a = omega int_laws

added-WithdrawalsGood :
    (w : WithdrawalRequest) (db : Database)
    → IsCents w.amount
    → WithdrawalsGood db
    → WithdrawalsGood (add_withdrawal w db)
added-WithdrawalsGood w db cents all j x h = ground (arith, all j x)

module _ (numeric : Decimal → Decimal) (numeric-cents : (a : Decimal) → IsCents a → numeric a ≡ a)
    (user : Uuid) (amount : Decimal) (cents : IsCents amount) (account currency : String)
    (kind : Option String) (new_id : Uuid) (db : Database) (c : IsConsistent db) where
  -- From a consistent database, for an amount of whole cents that the database stores as it is, when
  -- `create_withdrawal` returns, the database it leaves is consistent and has as much money as before;
  -- the amount is positive, and the pending request for the user's wallet is stored under its id.
  pub create_withdrawal-Requested :
      OnOk
        (Requested user amount account currency kind new_id db)
        (create_withdrawal numeric user amount account currency kind new_id db)
  unfolding create_withdrawal get_by_user_id_or_404 perform
  create_withdrawal-Requested =
      let P = Requested user amount account currency kind new_id db in
      OnOk-raise_if P (leb_ℤ amount (pos 0)) validation _ db λ positive.
        OnOk-some P not_found (wallet_of user db) _ db λ wallet found.
          let w = new_withdrawal new_id user wallet.id amount currency account kind in
          rw (numeric-cents amount cents) (
            OnOk-perform Calls.hold_withdrawal user amount new_id (add_withdrawal w db) P _
              c.sound.wallets cents
              λ x x' m.
                let n : Moved Calls.hold_withdrawal user amount new_id db x x' = record {
                  found = m.found;
                  is_moved = m.is_moved;
                  is_good = m.is_good;
                } in
                (
                  (
                    post-IsConsistent Calls.hold_withdrawal user amount new_id db x x' n _ refl refl
                        refl refl c.sound.bets (added-WithdrawalsGood w db cents c.withdrawals)
                        c.deposits
                        (λ j.
                          hold_added (j == user) amount (total (bet_hold j) db.bets)
                            (total (request_hold j) db.withdrawal_requests))
                        c,
                    ap (λ t. t +ℤ platform_total db)
                        (post-total Calls.hold_withdrawal user amount new_id db x x' n
                          ∙ moved_within (total_holdings db) amount),
                  ),
                  above amount positive,
                  rw (beq_self new_id) refl,
                  (wallet, found, refl),
                ))
