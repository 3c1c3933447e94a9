-- ===== src/Payfast.antt =====
-- app/payments/payfast.py: the signed parameters of a checkout, and the checks of a notification (ITN).
pub mod Webhook
pub mod Effects
pub mod Delivery
pub mod Signatures
use buddy_bet_v.Prelude.{
  ℕ, ℕ-eq, ◌+◌, ◌-◌, ◌*◌, ◌^◌, ◌&&◌, Bool, true, false, not, Option, none, some, List, [], ◌∷◌,
  String, String-eq, leb, ◌==◌, ◌!=◌, if◌then◌else◌,
}
use Prim.Native.String.{◌++◌ as append}
use buddy_bet_v.Prelude.Int.{ℤ-eq}
use buddy_bet_v.Money.{Decimal}
use buddy_bet_v.Models.{Uuid, DateTime}
use buddy_bet_v.Config.{PayfastSettings}

-- What the code calls of hashlib, urllib, uuid, decimal and datetime.
pub record Libraries : Type 0 where
  pub md5 : String → String
  pub quote_plus : String → String
  pub parse_uuid : String → Option Uuid
  pub parse_decimal : String → Option Decimal
  -- `strptime`, without a time zone
  pub parse_date : String → Option DateTime
  -- `f"{amount:.2f}"`
  pub format_amount : Decimal → String

-- A dictionary of texts in the order of insertion.
abbrev pub Params : Type 0
Params = List (String × String)

-- `params.get(key, default)`
abbrev pub get : String → String → Params → String
get key default [] = default
get key default (entry ∷ params) = if entry.0 == key then entry.1 else get key default params

-- `params.get(key)`
abbrev pub get? : String → Params → Option String
get? key [] = none
get? key (entry ∷ params) = if entry.0 == key then some entry.1 else get? key params

-- `params[key] = value`
abbrev pub put : String → String → Params → Params
put key value [] = (key, value) ∷ []
put key value (entry ∷ params) =
    if entry.0 == key then (key, value) ∷ params else entry ∷ put key value params

-- `{k: v for k, v in params.items() if k != key}`
abbrev pub without : String → Params → Params
without key [] = []
without key (entry ∷ params) =
    if entry.0 == key then without key params else entry ∷ without key params

-- `text or None`
abbrev pub non_empty : String → Option String
non_empty text = if text == "" then none else some text

module _ (lib : Libraries) where
  abbrev pub part : String × String → String
  part entry = append (append entry.0 "=") (lib.quote_plus entry.1)

  abbrev pub parts : Params → List String
  parts [] = []
  parts (entry ∷ params) =
      if entry.0 == "signature" then parts params else part entry ∷ parts params

  -- `separator.join(texts)`
  abbrev pub join : String → List String → String
  join separator [] = ""
  join separator (text ∷ []) = text
  join separator (text ∷ next ∷ texts) =
      append text (append separator (join separator (next ∷ texts)))

  unfoldable pub build_signature_string : Params → Option String → String
  build_signature_string params none = join "&" (parts params)
  build_signature_string params (some passphrase) =
      append (join "&" (parts params)) (append "&passphrase=" (lib.quote_plus passphrase))

  -- `if text: params[key] = text`
  abbrev pub put_if_given : String → Option String → Params → Params
  put_if_given key none params = params
  put_if_given key (some text) params = if text == "" then params else put key text params

  abbrev pub unsigned_params :
      PayfastSettings
      → String
      → Decimal
      → String
      → Option String
      → Option String
      → Option String
      → Params
  unsigned_params settings deposit_id amount item_name email_address name_first name_last =
      let query = append "?deposit_id=" deposit_id in
      let merchant =
        put "merchant_key" settings.merchant_key (put "merchant_id" settings.merchant_id []) in
      let urls = put "notify_url" settings.notify_url (
        put "cancel_url" (append settings.cancel_url query)
          (put "return_url" (append settings.return_url query) merchant)) in
      let buyer =
        put_if_given "email_address" email_address
          (put_if_given "name_last" name_last (put_if_given "name_first" name_first urls)) in
      put "item_name" item_name
        (put "amount" (lib.format_amount amount) (put "m_payment_id" deposit_id buyer))

  unfoldable pub build_checkout_params :
      PayfastSettings
      → String
      → Decimal
      → String
      → Option String
      → Option String
      → Option String
      → Params
  build_checkout_params settings deposit_id amount item_name email_address name_first name_last =
      let params =
        unsigned_params settings deposit_id amount item_name email_address name_first name_last in
      put "signature" (lib.md5 (build_signature_string params (non_empty settings.passphrase)))
        params

  unfoldable pub verify_itn_signature : Params → Option String → Bool
  verify_itn_signature itn_params passphrase =
      let params = without "signature" itn_params in
      get "signature" "" itn_params == lib.md5 (build_signature_string params passphrase)

-- The reasons for which a notification is refused.
pub data Reason : Type 0 where
  signature_mismatch merchant_id_mismatch invalid_amount_gross amount_mismatch : Reason
  payment_status_not_complete : Reason

-- `params.get("merchant_id") == settings.payfast_merchant_id`
abbrev pub is_text : String → Option String → Bool
is_text text none = false
is_text text (some value) = value == text

abbrev pub is_merchant : PayfastSettings → Params → Bool
is_merchant settings itn_params = is_text settings.merchant_id (get? "merchant_id" itn_params)

-- The last two checks.
abbrev pub verify_amount : Decimal → String → Option Decimal → Option Reason
verify_amount expected_amount payment_status none = some invalid_amount_gross
verify_amount expected_amount payment_status (some gross) =
    if gross != expected_amount
    then some amount_mismatch
    else if payment_status != "COMPLETE"
    then some payment_status_not_complete
    else none

module _ (lib : Libraries) (settings : PayfastSettings) where
  -- `none` stands for `(True, "")`.
  unfoldable pub verify_itn : Params → Decimal → Option Reason
  verify_itn itn_params expected_amount =
      if not (verify_itn_signature lib itn_params (non_empty settings.passphrase))
      then some signature_mismatch
      else if not (is_merchant settings itn_params)
      then some merchant_id_mismatch
      else verify_amount expected_amount (get "payment_status" "" itn_params)
          (lib.parse_decimal (get "amount_gross" "0" itn_params))

  -- `now` in the local time of the provider, two hours ahead; at most a day apart
  abbrev pub is_recent : DateTime → Option DateTime → Bool
  is_recent now none = true
  is_recent now (some payment_date) =
      let local = now + 2 * 3600 * 10 ^ 6 in
      leb ((local - payment_date) + (payment_date - local)) (86400 * 10 ^ 6)

  unfoldable pub verify_itn_timestamp : Params → DateTime → Bool
  verify_itn_timestamp itn_params now =
      let payment_date = get "payment_date" "" itn_params in
      if payment_date == "" then true else is_recent now (lib.parse_date payment_date)
