-- ===== src/Escrow/Withdrawals.antt =====
-- A withdrawal is approved, completed, rejected and failed (app/services/withdrawal_service.py) in a
-- consistent database.
use buddy_bet_v.Prelude.{ℕ-eq, ◌≡◌, refl, arith, Option, String, Bool, true, false, not}
use buddy_bet_v.Prelude.Int.{ℤ, pos, ◌+ℤ◌, ◌-ℤ◌, int_laws}
use buddy_bet_v.Exec.{Exec, raise_if, not_found, conflict, ◌>>◌}
use buddy_bet_v.Exec.OnOk.{OnOk, OnOk-bind, OnOk-some}
use buddy_bet_v.Money.Cents.{IsCents}
use buddy_bet_v.Models.{Uuid, DateTime, Wallet, WithdrawalRequest, Database}
use buddy_bet_v.Models.Enums.{WithdrawalStatus}
use buddy_bet_v.Models.Statuses.{
  is_approvable, is_completable, is_rejectable, is_failable, is_terminal, is_hold_state,
}
use buddy_bet_v.Withdrawals.{
  withdrawal_of, get_withdrawal_or_404, assert_transition, approve_withdrawal, complete_withdrawal,
  reject_withdrawal, fail_withdrawal, release_if_held, approved, completed, rejected, failed,
}
use buddy_bet_v.Wallet.Posting.{AllGood}
use buddy_bet_v.Wallet.Calls
use buddy_bet_v.Wallet.Calls.{Method, perform}
use buddy_bet_v.Escrow.{IsConsistent}
use buddy_bet_v.Escrow.Holds.{request_hold-kept, request_hold-released}
use buddy_bet_v.Escrow.Post.{Moved, after, OnOk-perform}
use buddy_bet_v.Escrow.Requests.{Decided, wallet_call-Decided, no_call-Decided}

zero_add : (a : ℤ) → pos 0 +ℤ a ≡ a
zero_add a = omega int_laws

cancels : (a : ℤ) → a +ℤ (pos 0 -ℤ a) ≡ pos 0
cancels a = omega int_laws

OnOk-assert_transition :
    {B : Type 0} (P : B → Database → Type 0) (w : WithdrawalRequest)
    (valid_from : WithdrawalStatus → Bool) (k : Exec Database B) (db : Database)
    → (valid_from w.status ≡ true → OnOk P (k db))
    → OnOk P ((assert_transition w valid_from >> k) db)
unfolding assert_transition
OnOk-assert_transition P w valid_from k db rest =
    go (is_terminal w.status) (valid_from w.status) rest
  where
    go :
        (terminal valid : Bool)
        → (valid ≡ true → OnOk P (k db))
        → OnOk P (((raise_if terminal conflict >> raise_if (not valid) conflict) >> k) db)
    go true valid rest = tt
    go false true rest = rest refl
    go false false rest = tt

completable_is_held : (s : WithdrawalStatus) → is_completable s ≡ true → is_hold_state s ≡ true
completable_is_held s h = ground arith

rejectable_is_held : (s : WithdrawalStatus) → is_rejectable s ≡ true → is_hold_state s ≡ true
rejectable_is_held s h = ground arith

approvable_is_held : (s : WithdrawalStatus) → is_approvable s ≡ true → is_hold_state s ≡ true
approvable_is_held s h = ground arith

failable_is_held : (s : WithdrawalStatus) → is_failable s ≡ true → is_hold_state s ≡ true
failable_is_held s h = ground arith

-- The hold was released.
abbrev Released : WithdrawalRequest → Database → Unit {0} → Database → Type 0
Released w db _ db' =
    (x : Wallet) × (x' : Wallet) × Moved Calls.release_withdrawal_hold w.user_id w.amount w.id db x
      x'
    × (db' ≡ after Calls.release_withdrawal_hold w.user_id w.amount w.id db x')

release_if_held-Released :
    (w : WithdrawalRequest) (db : Database)
    → AllGood db
    → IsCents w.amount
    → is_hold_state w.status ≡ true
    → OnOk (Released w db) (release_if_held w db)
unfolding release_if_held perform
release_if_held-Released w db good cents is_held =
    rw (release_if_held, is_held)
      (OnOk-perform Calls.release_withdrawal_hold w.user_id w.amount w.id db (Released w db) _ good
        cents λ x x' m. (x, x', m, refl))

module _ (withdrawal_id : Uuid) (now : DateTime) (db : Database) (c : IsConsistent db) where
  -- From a consistent database, when `approve_withdrawal` returns, the request was pending, it is
  -- stored as approved, the money is what it was, and the database is consistent.
  pub approve_withdrawal-Decided :
      OnOk
        (Decided withdrawal_id is_approvable (approved now) (λ _. pos 0) db)
        (approve_withdrawal withdrawal_id now db)
  unfolding approve_withdrawal get_withdrawal_or_404
  approve_withdrawal-Decided =
      let P = Decided withdrawal_id is_approvable (approved now) (λ _. pos 0) db in
      OnOk-some P not_found (withdrawal_of withdrawal_id db) _ db λ w found.
        OnOk-assert_transition P w is_approvable _ db λ valid.
          no_call-Decided withdrawal_id db c w found (approved now w) refl refl is_approvable
            (approved now) refl valid
            (λ j.
              request_hold-kept j w (approved now w) refl refl (approvable_is_held w.status valid)
                refl)

  -- From a consistent database, when `complete_withdrawal` returns, the request was approved or in
  -- processing, it is stored as completed, its amount has left the money of the system, and the
  -- database is consistent.
  pub complete_withdrawal-Decided :
      OnOk
        (Decided withdrawal_id is_completable (completed now) (λ w. pos 0 -ℤ w.amount) db)
        (complete_withdrawal withdrawal_id now db)
  unfolding complete_withdrawal get_withdrawal_or_404 perform
  complete_withdrawal-Decided =
      let P = Decided withdrawal_id is_completable (completed now) (λ w. pos 0 -ℤ w.amount) db in
      OnOk-some P not_found (withdrawal_of withdrawal_id db) _ db λ w found.
        OnOk-assert_transition P w is_completable _ db λ valid.
          OnOk-perform Calls.finalize_withdrawal_debit w.user_id w.amount w.id db P _
            c.sound.wallets (c.withdrawals withdrawal_id w found)
            λ x x' m.
              wallet_call-Decided withdrawal_id db c w found (completed now w) refl refl
                Calls.finalize_withdrawal_debit x x' m is_completable (completed now)
                (λ v. pos 0 -ℤ v.amount) refl valid (zero_add (pos 0 -ℤ w.amount))
                (λ j.
                  request_hold-released j w (completed now w) refl refl
                    (completable_is_held w.status valid) refl)

  -- From a consistent database, when `reject_withdrawal` returns, the request was pending or approved,
  -- it is stored as rejected with the reason, the money is what it was, and the database is consistent.
  pub reject_withdrawal-Decided :
      (reason : Option String)
      → OnOk
          (Decided withdrawal_id is_rejectable (rejected reason) (λ _. pos 0) db)
          (reject_withdrawal withdrawal_id reason db)
  unfolding reject_withdrawal get_withdrawal_or_404 perform
  reject_withdrawal-Decided reason =
      let P = Decided withdrawal_id is_rejectable (rejected reason) (λ _. pos 0) db in
      OnOk-some P not_found (withdrawal_of withdrawal_id db) _ db λ w found.
        OnOk-assert_transition P w is_rejectable _ db λ valid.
          OnOk-perform Calls.release_withdrawal_hold w.user_id w.amount w.id db P _ c.sound.wallets
            (c.withdrawals withdrawal_id w found)
            λ x x' m.
              wallet_call-Decided withdrawal_id db c w found (rejected reason w) refl refl
                Calls.release_withdrawal_hold x x' m is_rejectable (rejected reason) (λ _. pos 0)
                refl valid (cancels w.amount)
                (λ j.
                  request_hold-released j w (rejected reason w) refl refl
                    (rejectable_is_held w.status valid) refl)

  -- From a consistent database, when `fail_withdrawal` returns, the request was pending, approved or in
  -- processing, it is stored as failed with the reason, the money is what it was, and the database is
  -- consistent.
  pub fail_withdrawal-Decided :
      (reason : Option String)
      → OnOk
          (Decided withdrawal_id is_failable (failed reason now) (λ _. pos 0) db)
          (fail_withdrawal withdrawal_id reason now db)
  unfolding fail_withdrawal get_withdrawal_or_404 perform
  fail_withdrawal-Decided reason =
      let P = Decided withdrawal_id is_failable (failed reason now) (λ _. pos 0) db in
      OnOk-some P not_found (withdrawal_of withdrawal_id db) _ db λ w found.
        OnOk-assert_transition P w is_failable _ db λ valid.
          OnOk-bind P (Released w db) (release_if_held w) _ db
            (release_if_held-Released w db c.sound.wallets (c.withdrawals withdrawal_id w found)
              (failable_is_held w.status valid))
            λ _ db' (x, x', m, db'_is). rw db'_is (
              wallet_call-Decided withdrawal_id db c w found (failed reason now w) refl refl
                Calls.release_withdrawal_hold x x' m is_failable (failed reason now) (λ _. pos 0)
                refl valid (cancels w.amount)
                (λ j.
                  request_hold-released j w (failed reason now w) refl refl
                    (failable_is_held w.status valid) refl))
