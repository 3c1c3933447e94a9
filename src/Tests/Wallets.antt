-- ===== src/Tests/Wallets.antt =====
-- The wallet service on the small database, and the rounding of amounts.
use buddy_bet_v.Prelude.{ℕ, true, some, none, List, [], ◌∷◌}
use buddy_bet_v.Prelude.{◌≡◌, refl, arith}
use buddy_bet_v.Prelude.Int.{pos, ◌+ℤ◌, ◌≤ℤ◌}
use buddy_bet_v.Exec.{ok}
use buddy_bet_v.Money.{round_half_up, cent}
use buddy_bet_v.Money.Cents.{IsCents}
use buddy_bet_v.Money.Rounding.{round_half_up-nearest, half_above}
use buddy_bet_v.Models.{Wallet, Database}
use buddy_bet_v.Wallet.Reconcile.{IsReconciled, holdings}
use buddy_bet_v.Wallet.Calls.{lock_stake, perform, perform-IsReconciled}
use buddy_bet_v.Wallet.Stakes
use buddy_bet_v.Wallet.HalfCents.{lock_stake-half_cent}
use buddy_bet_v.Models.{FeeConfig}
use buddy_bet_v.Models.Enums.{FeeType}
use buddy_bet_v.Platform.{applies, latest}
use buddy_bet_v.Platform.Latest.{none_later, latest-none_later}
use buddy_bet_v.Tests.Data.{demo, wallet_1}
use buddy_bet_v.Tests.Data.Facts.{demo-AllGood, demo-IsReconciled, wallet_1-IsGood}

perform-IsReconciled_example : IsReconciled (perform lock_stake 1 (pos 25500000) 77 demo).1
perform-IsReconciled_example =
    perform-IsReconciled lock_stake 1 (pos 25500000) 77 demo demo-AllGood (refl, refl)
      demo-IsReconciled

-- A stake of 10.005.
lock_stake-half_cent_example :
    (w' : Wallet) × (db' : Database) × (Stakes.lock_stake 1 (half_above 1000) 77 demo
      ≡ (ok w', db'))
    × (holdings w' ≡ holdings wallet_1 +ℤ pos cent)
lock_stake-half_cent_example =
    lock_stake-half_cent 1 1000 77 demo wallet_1 refl wallet_1-IsGood (omega arith)

round_half_up-nearest_example :
    IsCents (round_half_up (pos 10005000))
    × (pos 10005000 ≤ℤ round_half_up (pos 10005000) +ℤ pos 5000)
    × (round_half_up (pos 10005000) ≤ℤ pos 10005000 +ℤ pos 5000)
round_half_up-nearest_example = round_half_up-nearest (pos 10005000)

-- A second rate replaces the first, and a third is not in effect yet.
abbrev rate_from : ℕ → ℕ → FeeConfig
rate_from rate moment = record {
  fee_type = FeeType.winner_fee;
  rate = pos rate;
  currency = "ZAR";
  effective_from = moment;
}

abbrev rates : List FeeConfig
rates = rate_from 50000 10 ∷ rate_from 40000 20 ∷ rate_from 30000 90 ∷ []

second_found : latest FeeType.winner_fee "ZAR" 50 none rates ≡ some (rate_from 40000 20)
unfolding latest
second_found = refl

latest-none_later_example :
    (applies FeeType.winner_fee "ZAR" 50 (rate_from 40000 20) ≡ true)
    × (none_later FeeType.winner_fee "ZAR" 50 (rate_from 40000 20) rates ≡ true)
latest-none_later_example =
    latest-none_later FeeType.winner_fee "ZAR" 50 rates (rate_from 40000 20) second_found
