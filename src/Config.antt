-- ===== src/Config.antt =====
-- app/core/config.py: the settings that the modelled services read.
use buddy_bet_v.Prelude.{ℕ, Bool, String, if◌then◌else◌}
use buddy_bet_v.Money.{Decimal}

pub record Settings : Type 0 where
  pub platform_currency : String
  pub min_stake_amount : Decimal
  pub max_stake_amount : Decimal
  pub bet_creation_cutoff_minutes : ℕ
  pub payfast_enabled : Bool

-- The settings of the tokens.
pub record AuthSettings : Type 0 where
  pub app_env : String
  pub platform_currency : String
  pub access_token_expire_minutes : ℕ
  pub password_reset_token_expire_minutes : ℕ

-- The settings of the payment provider.
pub record PayfastSettings : Type 0 where
  pub merchant_id : String
  pub merchant_key : String
  pub passphrase : String
  pub return_url : String
  pub cancel_url : String
  pub notify_url : String
  pub sandbox : Bool

abbrev pub payfast_checkout_url : PayfastSettings → String
payfast_checkout_url settings =
    if settings.sandbox
    then "https://sandbox.payfast.co.za/eng/process"
    else "https://www.payfast.co.za/eng/process"
