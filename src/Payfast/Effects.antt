-- ===== src/Payfast/Effects.antt =====
-- What a notification of the payment provider (app/api/v1/endpoints/webhooks.py) may change.
use buddy_bet_v.Prelude.{
  ◌≡◌, ◌⊎◌, inl, inr, refl, arith, true, false, Bool-cases, Option, none, some, List, [], String,
  String-eq, ◌==◌,
}
use buddy_bet_v.Prelude.Int.{ℤ-eq}
use buddy_bet_v.Money.{Decimal}
use buddy_bet_v.Models.{Uuid, DateTime, DepositRequest, Database}
use buddy_bet_v.Models.Statuses.{is_terminal_deposit}
use buddy_bet_v.Config.{PayfastSettings}
use buddy_bet_v.Deposits.{deposit_of, complete_deposit, fail_deposit}
use buddy_bet_v.Payfast.{
  Libraries, Params, Reason, get, non_empty, is_merchant, verify_itn_signature, verify_itn,
  verify_amount, verify_itn_timestamp,
}
use buddy_bet_v.Payfast.Webhook.{
  dict_of, is_none, is_failure, is_verified, process_itn, check_itn, locate, payfast_itn,
}

module _ (lib : Libraries) (settings : PayfastSettings) where
  abbrev pub IsComplete : Params → DepositRequest → Type 0
  IsComplete itn deposit =
      ((get "payment_status" "" itn == "COMPLETE") ≡ true)
      × (lib.parse_decimal (get "amount_gross" "0" itn) ≡ some deposit.amount)

  verify_amount-none :
      (expected : Decimal) (status : String) (gross : Option Decimal)
      → verify_amount expected status gross ≡ none
      → gross ≡ some expected
  verify_amount-none expected status none h = ground arith
  verify_amount-none expected status (some gross) h = ground (arith, ℤ-eq.equal_iff gross expected)

  -- What the checks have established.
  abbrev pub Authentic : Params → Type 0
  Authentic itn =
      (verify_itn_signature lib itn (non_empty settings.passphrase) ≡ true)
      × (is_merchant settings itn ≡ true)

  none_of : (o : Option Reason) → is_none o ≡ true → o ≡ none
  none_of o h = ground arith

  verified :
      (itn : Params) (deposit : DepositRequest)
      → is_verified lib settings itn deposit ≡ true
      → Authentic itn
        × (((get "payment_status" "" itn == "COMPLETE") ≡ false) ⊎ IsComplete itn deposit)
  unfolding is_verified verify_itn
  verified itn deposit h =
      let status = get "payment_status" "" itn in
      let gross = lib.parse_decimal (get "amount_gross" "0" itn) in
      elim (Bool-cases (status == "COMPLETE")) [
        | inl complete ↦
            let passed =
              none_of (verify_itn lib settings itn deposit.amount) (ground (arith, h, complete)) in
            (
              (ground (arith, passed), ground (arith, passed)),
              inr (
                complete,
                verify_amount-none deposit.amount status gross (ground (arith, passed)),
              ),
            )
        | inr other ↦ ((ground (arith, h, other), ground (arith, h, other)), inl other)
      ]

  -- What a notification leads to.
  abbrev pub Leads : Params → DateTime → Uuid → DepositRequest → Database → Database → Type 0
  Leads itn now deposit_id deposit db db' =
      (IsComplete itn deposit
        × (db' ≡ (complete_deposit deposit_id (non_empty (get "pf_payment_id" "" itn)) now db).1))
      ⊎ (db' ≡ (fail_deposit deposit_id now db).1)

  abbrev pub Justified : Params → DateTime → Database → Database → Type 0
  Justified itn now db db' =
      (db' ≡ db)
      ⊎ ((deposit_id : Uuid) × (deposit : DepositRequest) × (lib.parse_uuid
              (get "m_payment_id" "" itn)
            ≡ some deposit_id)
          × (deposit_of deposit_id db ≡ some deposit)
          × (is_terminal_deposit deposit.status ≡ false)
          × Authentic itn
          × Leads itn now deposit_id deposit db db')

  both_idle :
      (itn : Params) (deposit : DepositRequest) (deposit_id : Uuid) (now : DateTime) (db : Database)
      → is_terminal_deposit deposit.status ≡ true
      → process_itn lib settings itn deposit deposit_id now db ≡ db
  unfolding process_itn
  both_idle itn deposit deposit_id now db terminal =
      elim (Bool-cases (get "payment_status" "" itn == "COMPLETE")) [
        | inl complete ↦ rw (complete, terminal) refl
        | inr other ↦ elim (Bool-cases (is_failure (get "payment_status" "" itn))) [
          | inl failure ↦ rw (other, failure, terminal) refl
          | inr rest ↦ rw (other, rest) refl
        ]
      ]

  both_known :
      (itn : Params) (deposit : DepositRequest)
      → (get "payment_status" "" itn == "COMPLETE") ≡ true
      → (((get "payment_status" "" itn == "COMPLETE") ≡ false) ⊎ IsComplete itn deposit)
      → IsComplete itn deposit
  both_known itn deposit complete (inl other) = absurd (ground (arith, complete, other))
  both_known itn deposit complete (inr both) = both

  process_itn-Leads :
      (itn : Params) (deposit : DepositRequest) (deposit_id : Uuid) (now : DateTime) (db : Database)
      → (((get "payment_status" "" itn == "COMPLETE") ≡ false) ⊎ IsComplete itn deposit)
      → (process_itn lib settings itn deposit deposit_id now db ≡ db)
        ⊎ ((is_terminal_deposit deposit.status ≡ false)
            × Leads itn now deposit_id deposit db
                (process_itn lib settings itn deposit deposit_id now db))
  unfolding process_itn
  process_itn-Leads itn deposit deposit_id now db checked =
      elim (Bool-cases (is_terminal_deposit deposit.status)) [
        | inl terminal ↦ inl (both_idle itn deposit deposit_id now db terminal)
        | inr waiting ↦ elim (Bool-cases (get "payment_status" "" itn == "COMPLETE")) [
          | inl complete ↦
              rw (complete, waiting)
                (inr (refl, inl ((refl, (both_known itn deposit complete checked).1), refl)))
          | inr other ↦ elim (Bool-cases (is_failure (get "payment_status" "" itn))) [
            | inl failure ↦ rw (other, failure, waiting) (inr (refl, inr refl))
            | inr rest ↦ rw (other, rest) (inl refl)
          ]
        ]
      ]

  justify :
      (itn : Params) (deposit_id : Uuid) (deposit : DepositRequest) (now : DateTime) (db : Database)
      → lib.parse_uuid (get "m_payment_id" "" itn) ≡ some deposit_id
      → deposit_of deposit_id db ≡ some deposit
      → Authentic itn
      → {db' : Database}
      → ((db' ≡ db)
          ⊎ ((is_terminal_deposit deposit.status ≡ false)
              × Leads itn now deposit_id deposit db db'))
      → Justified itn now db db'
  justify itn deposit_id deposit now db named found authentic (inl same) = inl same
  justify itn deposit_id deposit now db named found authentic (inr (waiting, leads)) =
      inr (deposit_id, deposit, named, found, waiting, authentic, leads)

  check_itn-Justified :
      (itn : Params) (deposit_id : Uuid) (now : DateTime) (db : Database)
      (o : Option DepositRequest)
      → lib.parse_uuid (get "m_payment_id" "" itn) ≡ some deposit_id
      → deposit_of deposit_id db ≡ o
      → Justified itn now db (check_itn lib settings itn deposit_id now o db)
  unfolding check_itn
  check_itn-Justified itn deposit_id now db none named found = inl refl
  check_itn-Justified itn deposit_id now db (some deposit) named found =
      elim (Bool-cases (verify_itn_timestamp lib settings itn now)) [
        | inr stale ↦ rw stale (inl refl)
        | inl recent ↦ elim (Bool-cases (is_verified lib settings itn deposit)) [
          | inr refused ↦ rw (recent, refused) (inl refl)
          | inl passed ↦
              let (authentic, checked) = verified itn deposit passed in
              rw (recent, passed)
                (justify itn deposit_id deposit now db named found authentic
                  (process_itn-Leads itn deposit deposit_id now db checked))
        ]
      ]

  locate-Justified :
      (itn : Params) (now : DateTime) (db : Database) (o : Option Uuid)
      → lib.parse_uuid (get "m_payment_id" "" itn) ≡ o
      → Justified itn now db (locate lib settings itn now o db)
  locate-Justified itn now db none named = inl refl
  locate-Justified itn now db (some deposit_id) named =
      check_itn-Justified itn deposit_id now db (deposit_of deposit_id db) named refl

  -- A notification leaves the database as it is, unless its signature and its merchant are right and it
  -- names a deposit that is not decided; then it is what `complete_deposit` leaves, if the notification
  -- reports a complete payment of just the stored amount, or what `fail_deposit` leaves.
  pub payfast_itn-Justified :
      (items : List (String × String)) (now : DateTime) (db : Database)
      → Justified (dict_of [] items) now db (payfast_itn lib settings (some items) now db)
  unfolding payfast_itn
  payfast_itn-Justified items now db =
      let itn = dict_of [] items in
      let m_payment_id = get "m_payment_id" "" itn in
      elim (Bool-cases (m_payment_id == "")) [
        | inl missing ↦ rw missing (inl refl)
        | inr given ↦ rw given (locate-Justified itn now db (lib.parse_uuid m_payment_id) refl)
      ]
