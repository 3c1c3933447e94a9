-- ===== src/Payfast/Signatures.antt =====
-- The signature of app/payments/payfast.py.
use buddy_bet_v.Prelude.{
  ◌≡◌, refl, arith, true, false, Bool-cases, inl, inr, Option, none, some, [], ◌∷◌, String,
  String-eq, ◌==◌, beq_self,
}
use buddy_bet_v.Money.{Decimal}
use buddy_bet_v.Config.{PayfastSettings}
use buddy_bet_v.Payfast.{
  Libraries, Params, get, get?, put, without, non_empty, parts, put_if_given, unsigned_params,
  build_signature_string, build_checkout_params, verify_itn_signature, is_merchant,
}

get-put :
    (key value default : String) (params : Params) → get key default (put key value params) ≡ value
get-put key value default [] = rw (beq_self key) refl
get-put key value default (entry ∷ params) = elim (Bool-cases (entry.0 == key)) [
  | inl same ↦ rw same (rw (beq_self key) refl)
  | inr other ↦ rw other (rw other (get-put key value default params))
]

get?-put :
    (j key value : String) (params : Params)
    → (key == j) ≡ false
    → get? j (put key value params) ≡ get? j params
get?-put j key value [] differ = rw differ refl
get?-put j key value (entry ∷ params) differ =
    ground (arith, get?-put j key value params differ, differ, String-eq.equal_iff entry.0 key)

module _ (lib : Libraries) where
  parts-without : (params : Params) → parts lib (without "signature" params) ≡ parts lib params
  parts-without [] = refl
  parts-without (entry ∷ params) = elim (Bool-cases (entry.0 == "signature")) [
    | inl same ↦ rw same (parts-without params)
    | inr other ↦ rw other (rw other (rw (parts-without params) refl))
  ]

  parts-put :
      (value : String) (params : Params)
      → parts lib (without "signature" (put "signature" value params)) ≡ parts lib params
  parts-put value [] = refl
  parts-put value (entry ∷ params) = elim (Bool-cases (entry.0 == "signature")) [
    | inl same ↦ rw same (parts-without params)
    | inr other ↦ rw other (rw other (rw other (rw (parts-put value params) refl)))
  ]

  signature_string-put :
      (value : String) (params : Params) (passphrase : Option String)
      → build_signature_string lib (without "signature" (put "signature" value params)) passphrase
        ≡ build_signature_string lib params passphrase
  unfolding build_signature_string
  signature_string-put value params none = rw (parts-put value params) refl
  signature_string-put value params (some passphrase) = rw (parts-put value params) refl

  merchant-put_if_given :
      (j key : String) (text : Option String) (params : Params)
      → (key == j) ≡ false
      → get? j (put_if_given lib key text params) ≡ get? j params
  merchant-put_if_given j key none params differ = refl
  merchant-put_if_given j key (some text) params differ = elim (Bool-cases (text == "")) [
    | inl empty ↦ rw empty refl
    | inr given ↦ rw given (get?-put j key text params differ)
  ]

  module _ (settings : PayfastSettings) (deposit_id : String) (amount : Decimal)
      (item_name : String) (email_address name_first name_last : Option String) where
    abbrev built : Params
    built =
        build_checkout_params lib settings deposit_id amount item_name email_address name_first
          name_last

    merchant-unsigned :
        get? "merchant_id" (
          unsigned_params lib settings deposit_id amount item_name email_address name_first
            name_last)
        ≡ some settings.merchant_id
    merchant-unsigned =
        rw
          (
            get?-put "merchant_id" "item_name" item_name _ refl,
            get?-put "merchant_id" "amount" (lib.format_amount amount) _ refl,
            get?-put "merchant_id" "m_payment_id" deposit_id _ refl,
            merchant-put_if_given "merchant_id" "email_address" email_address _ refl,
            merchant-put_if_given "merchant_id" "name_last" name_last _ refl,
            merchant-put_if_given "merchant_id" "name_first" name_first _ refl,
          )
          refl

    -- The parameters of a checkout, sent back as they are, pass the checks of the signature and of the
    -- merchant: the signature is not part of what is signed, and the passphrase is the same.
    pub build_checkout_params-verified :
        (verify_itn_signature lib built (non_empty settings.passphrase) ≡ true)
        × (is_merchant settings built ≡ true)
    unfolding build_checkout_params verify_itn_signature
    build_checkout_params-verified =
        let params =
          unsigned_params lib settings deposit_id amount item_name email_address name_first
            name_last in
        let passphrase = non_empty settings.passphrase in
        let signature = lib.md5 (build_signature_string lib params passphrase) in
        (
          rw
              (
                get-put "signature" signature "" params,
                signature_string-put signature params passphrase,
              )
              (beq_self signature),
          rw (get?-put "merchant_id" "signature" signature params refl, merchant-unsigned)
              (beq_self settings.merchant_id),
        )
