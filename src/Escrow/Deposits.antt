-- ===== src/Escrow/Deposits.antt =====
-- A deposit is requested, completed and failed (app/services/deposit_service.py) in a consistent
-- database.
use buddy_bet_v.Prelude.{
  ℕ-eq, ◌≡◌, ◌∙◌, refl, sym, ap, subst, arith, some, Option, String, Bool, true, false, not, ◌==◌,
  beq_self, if◌then◌else◌,
}
use buddy_bet_v.Prelude.Int.{ℤ, pos, ◌+ℤ◌, int_laws, add_zero}
use buddy_bet_v.Exec.{not_found, conflict, database_error, modify, pure, ◌>>◌}
use buddy_bet_v.Exec.OnOk.{OnOk, OnOk-some, OnOk-raise_if, OnOk-transaction}
use buddy_bet_v.Money.{Decimal}
use buddy_bet_v.Money.Cents.{IsCents}
use buddy_bet_v.Models.{Uuid, DateTime, DepositRequest, Database}
use buddy_bet_v.Models.Enums.{DepositStatus}
use buddy_bet_v.Models.Statuses.{is_terminal_deposit, is_completable_deposit}
use buddy_bet_v.Table.{find-key, find-set}
use buddy_bet_v.Deposits.{
  deposit_id_of, deposit_of, set_deposit, get_deposit_or_404, complete_deposit, fail_deposit,
  credit_and_complete, write_completed, provider_reference_taken, completed, failed,
}
use buddy_bet_v.Wallet.Calls
use buddy_bet_v.Wallet.Calls.{perform}
use buddy_bet_v.Wallet.Reconcile.{total_holdings}
use buddy_bet_v.Platform.Laws.{platform_total}
use buddy_bet_v.Settlement.Sound.{total_funds}
use buddy_bet_v.Escrow.{IsConsistent, DepositsGood, held}
use buddy_bet_v.Escrow.Post.{after, OnOk-perform, post-IsConsistent, post-total}

set_deposit-DepositsGood :
    (d d' : DepositRequest) (db : Database)
    → deposit_of d'.id db ≡ some d
    → IsCents d'.amount
    → DepositsGood db
    → DepositsGood (set_deposit d' db)
set_deposit-DepositsGood d d' db found good all j x h =
    ground (arith, find-set deposit_id_of j d'.id d' d db.deposit_requests found refl, all j x)

-- The database is consistent, the money in it changed by a known amount, and a deposit that was still
-- open was stored in its new state.
abbrev pub Answered :
    Uuid
    → (DepositRequest → DepositRequest)
    → (DepositRequest → Decimal)
    → Database
    → DepositRequest
    → Database
    → Type 0
Answered deposit_id answer change db d' db' =
    IsConsistent db'
    × ((d : DepositRequest) × (deposit_of deposit_id db ≡ some d)
        × (is_completable_deposit d.status ≡ true)
        × (d' ≡ answer d)
        × (deposit_of deposit_id db' ≡ some d')
        × (total_funds db' ≡ total_funds db +ℤ change d))

credited_total : (t p a : ℤ) → (t +ℤ (a +ℤ pos 0)) +ℤ p ≡ (t +ℤ p) +ℤ a
credited_total t p a = omega int_laws

at_zero : (b : Bool) (h : ℤ) → h ≡ h +ℤ (if b then pos 0 else pos 0)
at_zero true h = sym (add_zero h)
at_zero false h = sym (add_zero h)

still_open : (s : DepositStatus) → is_terminal_deposit s ≡ false → is_completable_deposit s ≡ true
still_open s h = ground arith

module _ (deposit_id : Uuid) (now : DateTime) (db : Database) (c : IsConsistent db) where
  module _ (d d' : DepositRequest) (found : deposit_of deposit_id db ≡ some d) (same : d'.id ≡ d.id)
      (amount : d'.amount ≡ d.amount) where
    key : d'.id ≡ deposit_id
    key = same ∙ find-key deposit_id_of deposit_id d db.deposit_requests found

    at_key : deposit_of d'.id db ≡ some d
    at_key = subst (λ k. deposit_of k db ≡ some d) (sym key) found

    good : DepositsGood (set_deposit d' db)
    good =
        set_deposit-DepositsGood d d' db at_key (rw amount (c.deposits deposit_id d found))
          c.deposits

    stored : deposit_of deposit_id (set_deposit d' db) ≡ some d'
    stored =
        rw
          (
            find-set deposit_id_of deposit_id d'.id d' d db.deposit_requests at_key refl,
            key,
            beq_self deposit_id,
          )
          refl

  -- From a consistent database, when `complete_deposit` returns, the deposit was pending or in
  -- processing, it is stored as completed, its amount has come into the money of the system, and the
  -- database is consistent.
  pub complete_deposit-Answered :
      (reference : Option String)
      → OnOk
          (Answered deposit_id (completed reference now) (λ d. d.amount) db)
          (complete_deposit deposit_id reference now db)
  unfolding complete_deposit credit_and_complete get_deposit_or_404 perform
  complete_deposit-Answered reference =
      let P = Answered deposit_id (completed reference now) (λ d. d.amount) db in
      OnOk-some P not_found (deposit_of deposit_id db) _ db λ d found.
        OnOk-raise_if P (is_terminal_deposit d.status) conflict _ db λ is_open.
          OnOk-raise_if P (not (is_completable_deposit d.status)) conflict _ db λ _.
            OnOk-transaction P
              (perform Calls.credit_deposit d.user_id d.amount d.id
                >> write_completed d reference now)
              db
              (OnOk-perform Calls.credit_deposit d.user_id d.amount d.id db P
                (λ _. write_completed d reference now) c.sound.wallets
                (c.deposits deposit_id d found)
                λ x x' m.
                  let db' = after Calls.credit_deposit d.user_id d.amount d.id db x' in
                  OnOk-raise_if P (provider_reference_taken d.id reference db') database_error
                    (modify (set_deposit (completed reference now d))
                      >> pure (completed reference now d))
                    db'
                    λ _.
                      let d' = completed reference now d in
                      (
                        post-IsConsistent Calls.credit_deposit d.user_id d.amount d.id db x x' m _
                            refl refl refl refl c.sound.bets c.withdrawals
                            (good d d' found refl refl) (λ j. at_zero (j == d.user_id) (held j db))
                            c,
                        (
                          d,
                          found,
                          still_open d.status is_open,
                          refl,
                          stored d d' found refl refl,
                          ap (λ t. t +ℤ platform_total db)
                                (post-total Calls.credit_deposit d.user_id d.amount d.id db x x' m)
                              ∙ credited_total (total_holdings db) (platform_total db) d.amount,
                        ),
                      ))

  -- From a consistent database, when `fail_deposit` returns, the deposit was pending or in processing,
  -- it is stored as failed, there is as much money as before, and the database is consistent.
  pub fail_deposit-Answered :
      OnOk (Answered deposit_id (failed now) (λ _. pos 0) db) (fail_deposit deposit_id now db)
  unfolding fail_deposit get_deposit_or_404
  fail_deposit-Answered =
      let P = Answered deposit_id (failed now) (λ _. pos 0) db in
      OnOk-some P not_found (deposit_of deposit_id db) _ db λ d found.
        OnOk-raise_if P (is_terminal_deposit d.status) conflict _ db λ is_open.
          let d' = failed now d in
          (
            record {
              sound = record {
                wallets = c.sound.wallets;
                accounts = c.sound.accounts;
                rates = c.sound.rates;
                bets = c.sound.bets;
              };
              reconciled = c.reconciled;
              escrowed = c.escrowed;
              withdrawals = c.withdrawals;
              deposits = good d d' found refl refl;
            },
            (
              d,
              found,
              still_open d.status is_open,
              refl,
              stored d d' found refl refl,
              sym (add_zero (total_funds db)),
            ),
          )
