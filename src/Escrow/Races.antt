-- ===== src/Escrow/Races.antt =====
-- Two sessions that complete the same deposit (app/services/deposit_service.py): the row is read without
-- a lock, so that both may have read it before either writes.
use buddy_bet_v.Prelude.{
  ℕ-eq, String-eq, List, ◌∷◌, ◌≡◌, ◌∙◌, refl, ap, arith, true, false, not, Option, none, some,
  String, [],
}
use buddy_bet_v.Prelude.Int.{ℤ, pos, ◌+ℤ◌, ◌<ℤ◌, int_laws}
use buddy_bet_v.Exec.{Result, ok, err, Exec, raise_if, transaction, conflict, ◌>>◌}
use buddy_bet_v.Money.Cents.{IsCents}
use buddy_bet_v.Models.{Uuid, DateTime, Wallet, DepositRequest, Database}
use buddy_bet_v.Models.Statuses.{is_terminal_deposit, is_completable_deposit}
use buddy_bet_v.Deposits.{
  deposit_id_of, credit_and_complete, provider_reference_taken, is_taken, deposit_of,
  get_deposit_or_404, complete_deposit, completed,
}
use buddy_bet_v.Table.{update}
use buddy_bet_v.Wallet.{wallet_of}
use buddy_bet_v.Wallet.Posting.{IsGood}
use buddy_bet_v.Wallet.Reconcile.{total_holdings}
use buddy_bet_v.Platform.Laws.{platform_total}
use buddy_bet_v.Settlement.Sound.{total_funds}
use buddy_bet_v.Escrow.{IsConsistent}
use buddy_bet_v.Escrow.Credited.{
  raised, raised-IsGood, credit_deposit-returns, with_credit-total, with_credit-found,
}

-- `complete_deposit` from the point on where the row has been read. The columns of the row that it leaves
-- alone are written as they were read.
unfoldable pub complete_after_read :
    DepositRequest → Option String → DateTime → Exec Database DepositRequest
complete_after_read deposit provider_reference now = do
  raise_if (is_terminal_deposit deposit.status) conflict
  raise_if (not (is_completable_deposit deposit.status)) conflict
  credit_and_complete deposit provider_reference now

-- A session that finds the row goes on with it.
complete_deposit-reads :
    (deposit_id : Uuid) (deposit : DepositRequest) (reference : Option String) (now : DateTime)
    (db : Database)
    → deposit_of deposit_id db ≡ some deposit
    → complete_deposit deposit_id reference now db ≡ complete_after_read deposit reference now db
unfolding complete_deposit complete_after_read get_deposit_or_404
complete_deposit-reads deposit_id deposit reference now db found = rw found refl

-- What one session finds that has read a deposit of the amount while it could be completed: the wallet
-- is there, and its balances are good.
abbrev CanCredit : DepositRequest → Database → Type 0
CanCredit deposit db =
    (wallet : Wallet) × (wallet_of deposit.user_id db ≡ some wallet) × IsGood wallet

-- No other row has the reference.
abbrev IsFree : DepositRequest → Option String → Database → Type 0
IsFree deposit reference db = provider_reference_taken deposit.id reference db ≡ false

taken_after :
    (deposit : DepositRequest) (reference : Option String) (new : DepositRequest)
    (rows : List DepositRequest)
    → new.id ≡ deposit.id
    → is_taken
        (λ row. row.provider_reference)
        deposit.id
        reference
        (update deposit_id_of deposit.id (λ _. new) rows)
      ≡ is_taken (λ row. row.provider_reference) deposit.id reference rows
taken_after deposit none new rows same = refl
taken_after deposit (some reference) new [] same = refl
taken_after deposit (some reference) new (row ∷ rows) same =
    ground (arith, taken_after deposit (some reference) new rows same)

-- A session has completed the deposit: its result, the money, and what a second one finds.
abbrev Completes :
    DepositRequest → Database → DepositRequest → Result DepositRequest × Database → Type 0
Completes deposit db d (err e, db') = ⊥
Completes deposit db d (ok d', db') =
    (d' ≡ d)
    × CanCredit deposit db'
    × ((reference : Option String) → IsFree deposit reference db → IsFree deposit reference db')
    × (total_funds db' ≡ total_funds db +ℤ deposit.amount)

total_swap : (t p a : ℤ) → (t +ℤ a) +ℤ p ≡ (t +ℤ p) +ℤ a
total_swap t p a = omega int_laws

module _ (deposit : DepositRequest) (is_open : is_completable_deposit deposit.status ≡ true)
    (cents : IsCents deposit.amount) (positive : pos 0 <ℤ deposit.amount) where
  not_decided : is_terminal_deposit deposit.status ≡ false
  not_decided = ground (arith, is_open)

  complete_after_read-Completes :
      (reference : Option String) (now : DateTime) (db : Database)
      → CanCredit deposit db
      → IsFree deposit reference db
      → Completes deposit db
          (completed reference now deposit)
          (complete_after_read deposit reference now db)
  unfolding complete_after_read credit_and_complete transaction
  complete_after_read-Completes reference now db (wallet, found, good) free =
      rw
        (
          not_decided,
          is_open,
          credit_deposit-returns deposit.user_id deposit.amount deposit.id wallet db found good
              cents positive,
          free,
        )
        (
          refl,
          (
            raised deposit.amount wallet,
            with_credit-found deposit.user_id deposit.amount deposit.id wallet db found,
            raised-IsGood deposit.amount wallet good cents positive,
          ),
          (λ other still.
              taken_after deposit other (completed reference now deposit) db.deposit_requests refl
              ∙ still),
          ap (λ t. t +ℤ platform_total db)
                (with_credit-total deposit.user_id deposit.amount deposit.id wallet db found)
              ∙ total_swap (total_holdings db) (platform_total db) deposit.amount,
        )

ok_only :
    (deposit d : DepositRequest) (db : Database) (out : Result DepositRequest × Database)
    → Completes deposit db d out
    → (out.0 ≡ ok d)
      × CanCredit deposit out.1
      × ((reference : Option String) → IsFree deposit reference db → IsFree deposit reference out.1)
      × (total_funds out.1 ≡ total_funds db +ℤ deposit.amount)
ok_only deposit d db (err e, db') none_such = elim none_such [ ]
ok_only deposit d db (ok d', db') (same, can, kept, total) = (ap ok same, can, kept, total)

-- In a consistent database, a deposit that can be completed, of a positive amount, whose user has a
-- wallet, is completed when `complete_deposit` is called with no reference of the provider or with
-- one that no other deposit has: it returns, and the money grows by the amount.
pub complete_deposit-returns :
    (deposit_id : Uuid) (deposit : DepositRequest) (wallet : Wallet) (reference : Option String)
    (now : DateTime) (db : Database)
    → IsConsistent db
    → deposit_of deposit_id db ≡ some deposit
    → is_completable_deposit deposit.status ≡ true
    → pos 0 <ℤ deposit.amount
    → wallet_of deposit.user_id db ≡ some wallet
    → provider_reference_taken deposit.id reference db ≡ false
    → let out = complete_deposit deposit_id reference now db in
      (out.0 ≡ ok (completed reference now deposit))
      × (total_funds out.1 ≡ total_funds db +ℤ deposit.amount)
complete_deposit-returns deposit_id deposit wallet reference now db c found is_open positive w_found
      free =
    let returned =
      ok_only deposit (completed reference now deposit) db
        (complete_after_read deposit reference now db)
        (complete_after_read-Completes deposit is_open (c.deposits deposit_id deposit found)
          positive reference now db
          (wallet, w_found, c.sound.wallets deposit.user_id wallet w_found) free) in
    rw (complete_deposit-reads deposit_id deposit reference now db found) (returned.0, returned.3)

-- Two sessions have read a deposit, with a positive amount, that can be completed, and the wallet of
-- its user is there. In a consistent database, when the first completes it and then the second,
-- which has a reference of the provider, goes on with the row that it read before, and no other
-- deposit has the reference of either, both return, and the money grows by twice the amount.
pub complete_deposit-raced :
    (deposit_id : Uuid) (deposit : DepositRequest) (wallet : Wallet) (first : Option String)
    (second : String) (now later : DateTime) (db : Database)
    → IsConsistent db
    → deposit_of deposit_id db ≡ some deposit
    → is_completable_deposit deposit.status ≡ true
    → pos 0 <ℤ deposit.amount
    → wallet_of deposit.user_id db ≡ some wallet
    → provider_reference_taken deposit.id first db ≡ false
    → provider_reference_taken deposit.id (some second) db ≡ false
    → let one = complete_deposit deposit_id first now db in
      let two = complete_after_read deposit (some second) later one.1 in
      (one.0 ≡ ok (completed first now deposit))
      × (two.0 ≡ ok (completed (some second) later deposit))
      × (total_funds two.1 ≡ (total_funds db +ℤ deposit.amount) +ℤ deposit.amount)
complete_deposit-raced deposit_id deposit wallet first second now later db c found is_open positive
      w_found free free' =
    let cents = c.deposits deposit_id deposit found in
    let one = complete_after_read deposit first now db in
    let one_ok = ok_only deposit (completed first now deposit) db one (
      complete_after_read-Completes deposit is_open cents positive first now db
        (wallet, w_found, c.sound.wallets deposit.user_id wallet w_found) free) in
    let two_ok = ok_only deposit (completed (some second) later deposit) one.1 _ (
      complete_after_read-Completes deposit is_open cents positive (some second) later one.1
        one_ok.1 (one_ok.2 (some second) free')) in
    rw (complete_deposit-reads deposit_id deposit first now db found)
      (one_ok.0, two_ok.0, two_ok.3 ∙ ap (λ t. t +ℤ deposit.amount) one_ok.3)
