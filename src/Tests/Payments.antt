-- ===== src/Tests/Payments.antt =====
-- Examples of the notifications of the payment provider, with simple functions for the libraries.
use buddy_bet_v.Payfast.{verify_itn, verify_itn_timestamp}
use buddy_bet_v.Payfast.Webhook.{check_itn, is_verified, process_itn}
use buddy_bet_v.Deposits.{credit_and_complete, complete_deposit, get_deposit_or_404}
use buddy_bet_v.Ledger.{create_entry, write_deposit_credit}
use buddy_bet_v.Wallet.Funds.{credit_deposit}
use buddy_bet_v.Wallet.{get_by_user_id_for_update, update_balances}
use buddy_bet_v.Money.{quantize, round_half_up, safe_add, verify_non_negative}
use buddy_bet_v.Prelude.Int.{◌*ℤ◌, ◌-ℤ◌}
use buddy_bet_v.Prelude.{
  ◌≡◌, ◌≢◌, ◌⊎◌, refl, arith, ap, Option, none, some, [], ◌∷◌, ◌++◌, String, String-eq, ◌==◌, true,
  false, if◌then◌else◌, Bool, ◌^◌, ℕ-eq,
}
use buddy_bet_v.Prelude.Int.{◌+ℤ◌}
use buddy_bet_v.Money.{Decimal}
use buddy_bet_v.Models.{Uuid, DateTime, DepositRequest, Database}
use buddy_bet_v.Models.Statuses.{is_terminal_deposit}
use buddy_bet_v.Config.{PayfastSettings}
use buddy_bet_v.Deposits.{deposit_of}
use buddy_bet_v.Settlement.Sound.{total_funds}
use buddy_bet_v.Escrow.{IsConsistent}
use buddy_bet_v.Payfast.{
  Libraries, Params, get, non_empty, build_checkout_params, build_signature_string, is_merchant,
  verify_itn_signature,
}
use buddy_bet_v.Payfast.Webhook.{dict_of, payfast_itn}
use buddy_bet_v.Payfast.Effects.{Authentic, Justified, payfast_itn-Justified}
use buddy_bet_v.Payfast.Delivery.{payfast_itn-IsConsistent, payfast_itn-again}
use buddy_bet_v.Payfast.Signatures.{build_checkout_params-verified}
use buddy_bet_v.Tests.Data.{demo, units}
use buddy_bet_v.Tests.Data.Facts.{demo-IsConsistent}

abbrev number_of : String → Option Uuid
number_of text = if text == "40" then some 40 else none

abbrev amount_of : String → Option Decimal
amount_of text = if text == "70.00" then some (units 70) else none

abbrev simple : Libraries
simple = record {
  md5 = λ text. text;
  quote_plus = λ text. text;
  parse_uuid = number_of;
  parse_decimal = amount_of;
  parse_date = λ _. none;
  format_amount = λ _. "70.00";
}

abbrev payfast : PayfastSettings
payfast = record {
  merchant_id = "10000100";
  merchant_key = "key";
  passphrase = "secret";
  return_url = "https://example.org/return";
  cancel_url = "https://example.org/cancel";
  notify_url = "https://example.org/notify";
  sandbox = true;
}

abbrev unsigned : Params
unsigned =
    ("m_payment_id", "40")
    ∷ ("pf_payment_id", "1089250")
    ∷ ("payment_status", "COMPLETE")
    ∷ ("amount_gross", "70.00")
    ∷ ("merchant_id", "10000100")
    ∷ []

abbrev itn : Params
itn =
    unsigned
    ++ ("signature", build_signature_string simple unsigned (non_empty payfast.passphrase)) ∷ []

abbrev t : DateTime
t = 10 ^ 13

abbrev after : Database
after = payfast_itn simple payfast (some itn) t demo

abbrev is_decided : Option DepositRequest → Bool
is_decided none = false
is_decided (some deposit) = is_terminal_deposit deposit.status

-- The deposit is completed.
decided_after : is_decided (deposit_of 40 after) ≡ true
unfolding payfast_itn check_itn verify_itn_timestamp is_verified verify_itn verify_itn_signature
    process_itn complete_deposit credit_and_complete build_signature_string credit_deposit
    get_deposit_or_404 get_by_user_id_for_update update_balances verify_non_negative
    write_deposit_credit create_entry safe_add round_half_up quantize ◌+ℤ◌ ◌-ℤ◌ ◌*ℤ◌
decided_after = refl

payfast_itn-Justified_example : Justified simple payfast (dict_of [] itn) t demo after
payfast_itn-Justified_example = payfast_itn-Justified simple payfast itn t demo

payfast_itn-IsConsistent_example :
    IsConsistent after
    × ((total_funds after ≡ total_funds demo)
        ⊎ (Authentic simple payfast (dict_of [] itn)
            × ((amount : Decimal) × (amount_of (get "amount_gross" "0" (dict_of [] itn))
                  ≡ some amount)
                × (total_funds after ≡ total_funds demo +ℤ amount))))
payfast_itn-IsConsistent_example =
    payfast_itn-IsConsistent simple payfast itn t demo demo-IsConsistent

after_differs : after ≢ demo
after_differs same =
    absurd (ground (arith, decided_after, ap (λ db. is_decided (deposit_of 40 db)) same))

payfast_itn-again_example : payfast_itn simple payfast (some itn) (10 ^ 14) after ≡ after
payfast_itn-again_example =
    payfast_itn-again simple payfast itn t demo demo-IsConsistent (10 ^ 14) after_differs

abbrev built : Params
built =
    build_checkout_params simple payfast "40" (units 70) "Deposit" (some "a@example.org") none none

build_checkout_params-verified_example :
    (verify_itn_signature simple built (non_empty payfast.passphrase) ≡ true)
    × (is_merchant payfast built ≡ true)
build_checkout_params-verified_example =
    build_checkout_params-verified simple payfast "40" (units 70) "Deposit" (some "a@example.org")
      none none
