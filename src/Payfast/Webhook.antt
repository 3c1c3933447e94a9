-- ===== src/Payfast/Webhook.antt =====
-- app/api/v1/endpoints/webhooks.py: the handler of the notifications of the payment provider.
use buddy_bet_v.Prelude.{
  ◌&&◌, ◌||◌, Bool, true, false, not, Option, none, some, List, [], ◌∷◌, String, String-eq, ◌==◌,
  if◌then◌else◌,
}
use buddy_bet_v.Models.{Uuid, DateTime, DepositRequest, Database}
use buddy_bet_v.Models.Statuses.{is_terminal_deposit}
use buddy_bet_v.Config.{PayfastSettings}
use buddy_bet_v.Deposits.{deposit_of, complete_deposit, fail_deposit}
use buddy_bet_v.Payfast.{
  Libraries, Params, Reason, get, put, non_empty, is_merchant, verify_itn_signature, verify_itn,
  verify_itn_timestamp,
}

-- `{k: str(v) for k, v in form.multi_items()}`, with the items that were read already
abbrev pub dict_of : Params → List (String × String) → Params
dict_of params [] = params
dict_of params (item ∷ items) = dict_of (put item.0 item.1 params) items

abbrev pub is_none : Option Reason → Bool
is_none none = true
is_none (some _) = false

-- `payment_status in ("CANCELLED", "FAILED", "ERROR")`
abbrev pub is_failure : String → Bool
is_failure payment_status =
    payment_status == "CANCELLED" || payment_status == "FAILED" || payment_status == "ERROR"

module _ (lib : Libraries) (settings : PayfastSettings) where
  -- The checks of a notification that is recent.
  unfoldable pub is_verified : Params → DepositRequest → Bool
  is_verified itn deposit =
      if get "payment_status" "" itn == "COMPLETE"
      then is_none (verify_itn lib settings itn deposit.amount)
      else verify_itn_signature lib itn (non_empty settings.passphrase) && is_merchant settings itn

  -- What the notification does. Whatever is raised is caught and logged.
  unfoldable pub process_itn : Params → DepositRequest → Uuid → DateTime → Database → Database
  process_itn itn deposit deposit_id now db =
      let payment_status = get "payment_status" "" itn in
      if payment_status == "COMPLETE"
      then (if is_terminal_deposit deposit.status
          then db
          else (complete_deposit deposit_id (non_empty (get "pf_payment_id" "" itn)) now db).1)
      else if is_failure payment_status
      then (if is_terminal_deposit deposit.status then db else (fail_deposit deposit_id now db).1)
      else db

  unfoldable pub check_itn : Params → Uuid → DateTime → Option DepositRequest → Database → Database
  check_itn itn deposit_id now none db = db
  check_itn itn deposit_id now (some deposit) db =
      if not (verify_itn_timestamp lib settings itn now)
      then db
      else if not (is_verified itn deposit)
      then db
      else process_itn itn deposit deposit_id now db

  abbrev pub locate : Params → DateTime → Option Uuid → Database → Database
  locate itn now none db = db
  locate itn now (some deposit_id) db = check_itn itn deposit_id now (deposit_of deposit_id db) db

  -- The answer is always "OK", and what was written is committed. `none` is a body that does not parse.
  unfoldable pub payfast_itn : Option (List (String × String)) → DateTime → Database → Database
  payfast_itn none now db = db
  payfast_itn (some items) now db =
      let itn = dict_of [] items in
      let m_payment_id = get "m_payment_id" "" itn in
      if m_payment_id == "" then db else locate itn now (lib.parse_uuid m_payment_id) db
