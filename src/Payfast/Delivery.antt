-- ===== src/Payfast/Delivery.antt =====
-- The notifications of the payment provider (app/api/v1/endpoints/webhooks.py) and the money of the
-- system.
use buddy_bet_v.Prelude.{
  ◌≡◌, ◌≢◌, ◌⊎◌, inl, inr, refl, arith, subst, ◌∙◌, true, false, not, Option, none, some, List, [],
  String, String-eq, ℕ-eq,
}
use buddy_bet_v.Prelude.Int.{pos, ◌+ℤ◌, add_zero}
use buddy_bet_v.Exec.{
  Result, ok, err, Exec, transaction, settle, some_or_raise, conflict, not_found, ◌>>=◌,
}
use buddy_bet_v.Exec.OnOk.{OnOk}
use buddy_bet_v.Exec.Steps.{raise_if-step}
use buddy_bet_v.Money.{Decimal}
use buddy_bet_v.Models.{Uuid, DateTime, DepositRequest, Database}
use buddy_bet_v.Models.Statuses.{is_terminal_deposit, is_completable_deposit}
use buddy_bet_v.Config.{PayfastSettings}
use buddy_bet_v.Deposits.{
  deposit_of, get_deposit_or_404, complete_deposit, fail_deposit, credit_and_complete, completed,
  failed,
}
use buddy_bet_v.Settlement.Sound.{total_funds}
use buddy_bet_v.Escrow.{IsConsistent}
use buddy_bet_v.Escrow.Deposits.{Answered, complete_deposit-Answered, fail_deposit-Answered}
use buddy_bet_v.Payfast.{Libraries, Params, get, non_empty}
use buddy_bet_v.Payfast.Webhook.{dict_of, payfast_itn}
use buddy_bet_v.Payfast.Effects.{Authentic, Leads, payfast_itn-Justified}

-- A call that raises has written nothing.
abbrev Keeps : {A : Type 0} → Database → Result A × Database → Type 0
Keeps db (err e, db') = db' ≡ db
Keeps db (ok a, db') = Unit {0}

Keeps-get :
    {A B : Type 0} (o : Option A) (f : A → Exec Database B) (db : Database)
    → ((a : A) → o ≡ some a → Keeps db (f a db))
    → Keeps db ((some_or_raise not_found o >>= f) db)
Keeps-get none f db rest = refl
Keeps-get (some a) f db rest = rest a refl

Keeps-settle : {A : Type 0} (db : Database) (out : Result A × Database) → Keeps db (settle db out)
Keeps-settle db (err e, db') = refl
Keeps-settle db (ok a, db') = tt

module _ (deposit_id : Uuid) (now : DateTime) (db : Database) (c : IsConsistent db) where
  complete_deposit-Keeps :
      (reference : Option String) → Keeps db (complete_deposit deposit_id reference now db)
  unfolding complete_deposit credit_and_complete transaction get_deposit_or_404
  complete_deposit-Keeps reference = Keeps-get (deposit_of deposit_id db) _ db λ d found.
      raise_if-step (Keeps db) (is_terminal_deposit d.status) conflict _ db refl λ _.
        raise_if-step (Keeps db) (not (is_completable_deposit d.status)) conflict _ db refl
          λ _. Keeps-settle db _

  fail_deposit-Keeps : Keeps db (fail_deposit deposit_id now db)
  unfolding fail_deposit get_deposit_or_404
  fail_deposit-Keeps =
      Keeps-get (deposit_of deposit_id db) _ db λ d found.
        raise_if-step (Keeps db) (is_terminal_deposit d.status) conflict _ db refl λ _. tt

some_same : {A : Type 0} (o : Option A) (a b : A) → o ≡ some a → o ≡ some b → a ≡ b
some_same o a b h h' = ground arith

module _ (lib : Libraries) (settings : PayfastSettings) (items : List (String × String))
    (now : DateTime) (db : Database) (c : IsConsistent db) where
  abbrev itn : Params
  itn = dict_of [] items

  -- What is left, and for a change that it decided the deposit.
  abbrev Outcome : Uuid → Database → Type 0
  Outcome deposit_id db' =
      (db' ≡ db)
      ⊎ (IsConsistent db'
          × ((d' : DepositRequest) × (deposit_of deposit_id db' ≡ some d')
              × (is_terminal_deposit d'.status ≡ true))
          × ((total_funds db' ≡ total_funds db)
              ⊎ ((amount : Decimal) × (lib.parse_decimal (get "amount_gross" "0" itn) ≡ some amount)
                  × (total_funds db' ≡ total_funds db +ℤ amount))))

  module _ (deposit_id : Uuid) (deposit : DepositRequest)
      (found : deposit_of deposit_id db ≡ some deposit) where
    completed-Outcome :
        (reference : Option String) (out : Result DepositRequest × Database)
        → lib.parse_decimal (get "amount_gross" "0" itn) ≡ some deposit.amount
        → OnOk (Answered deposit_id (completed reference now) (λ d. d.amount) db) out
        → Keeps db out
        → Outcome deposit_id out.1
    completed-Outcome reference (err e, db') gross answered same = inl same
    completed-Outcome reference (ok d', db') gross (consistent, (d, found', _, is, stored, more))
          same =
        inr (
          consistent,
          (d', stored, rw is refl),
          inr (deposit.amount, gross, rw (some_same _ deposit d found found') more),
        )

    failed-Outcome :
        (out : Result DepositRequest × Database)
        → OnOk (Answered deposit_id (failed now) (λ _. pos 0) db) out
        → Keeps db out
        → Outcome deposit_id out.1
    failed-Outcome (err e, db') answered same = inl same
    failed-Outcome (ok d', db') (consistent, (d, found', _, is, stored, more)) same =
        inr (consistent, (d', stored, rw is refl), inl (more ∙ add_zero (total_funds db)))

    led-Outcome :
        (db' : Database)
        → Leads lib settings itn now deposit_id deposit db db'
        → Outcome deposit_id db'
    led-Outcome db' (inl ((_, gross), is)) =
        let reference = non_empty (get "pf_payment_id" "" itn) in
        rw is (
          completed-Outcome reference (complete_deposit deposit_id reference now db) gross
            (complete_deposit-Answered deposit_id now db c reference)
            (complete_deposit-Keeps deposit_id now db c reference))
    led-Outcome db' (inr is) = rw is (
        failed-Outcome (fail_deposit deposit_id now db) (fail_deposit-Answered deposit_id now db c)
          (fail_deposit-Keeps deposit_id now db c))

  still_waiting :
      (db' : Database) (i j : Uuid) (d d' : DepositRequest)
      → lib.parse_uuid (get "m_payment_id" "" itn) ≡ some i
      → lib.parse_uuid (get "m_payment_id" "" itn) ≡ some j
      → deposit_of i db' ≡ some d
      → is_terminal_deposit d.status ≡ true
      → deposit_of j db' ≡ some d'
      → is_terminal_deposit d'.status ≡ false
      → ⊥
  still_waiting db' i j d d' named named' stored decided found waiting =
      let same_id : i ≡ j = some_same _ i j named named' in
      let same : d ≡ d' =
        some_same _ d d' (subst (λ k. deposit_of k db' ≡ some d) same_id stored) found in
      ground (arith, same, decided, waiting)

  abbrev after : Database
  after = payfast_itn lib settings (some items) now db

  -- From a consistent database a notification leaves a consistent database, with as much money as before
  -- or with the amount more that an authentic notification names.
  pub payfast_itn-IsConsistent :
      IsConsistent after
      × ((total_funds after ≡ total_funds db)
          ⊎ (Authentic lib settings itn
              × ((amount : Decimal) × (lib.parse_decimal (get "amount_gross" "0" itn) ≡ some amount)
                  × (total_funds after ≡ total_funds db +ℤ amount))))
  payfast_itn-IsConsistent = elim (payfast_itn-Justified lib settings items now db) [
    | inl same ↦ rw same (c, inl refl)
    | inr (deposit_id, deposit, named, found, waiting, authentic, leads) ↦
        elim (led-Outcome deposit_id deposit found after leads) [
          | inl same ↦ rw same (c, inl refl)
          | inr (consistent, _, inl same) ↦ (consistent, inl same)
          | inr (consistent, _, inr more) ↦ (consistent, inr (authentic, more))
        ]
  ]

  -- When a notification has changed a consistent database, the same notification, delivered again at any
  -- time, changes nothing more.
  pub payfast_itn-again :
      (again : DateTime) → after ≢ db → payfast_itn lib settings (some items) again after ≡ after
  payfast_itn-again again changed = elim (payfast_itn-Justified lib settings items now db) [
    | inl same ↦ absurd (changed same)
    | inr (deposit_id, deposit, named, found, waiting, authentic, leads) ↦
        elim (led-Outcome deposit_id deposit found after leads) [
          | inl same ↦ absurd (changed same)
          | inr (consistent, (d', stored, decided), money) ↦
              elim (payfast_itn-Justified lib settings items again after) [
                | inl same ↦ same
                | inr (deposit_id', deposit', named', found', waiting', authentic', leads') ↦
                    absurd (
                      still_waiting after deposit_id deposit_id' d' deposit' named named' stored
                        decided found' waiting')
              ]
        ]
  ]
