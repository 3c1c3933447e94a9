-- ===== src/Settlement/Sound.antt =====
-- What a sound database is, and what the steps of a settlement after the wallets do to it
-- (app/services/settlement_service.py).
use buddy_bet_v.Prelude.{ℕ-eq, ◌≡◌, ◌≢◌, refl, none, some, subst, arith, ◌!=◌}
use buddy_bet_v.Prelude.Int.{pos, ◌+ℤ◌, ◌≤ℤ◌}
use buddy_bet_v.Exec.{not_found, settlement_idempotency}
use buddy_bet_v.Exec.OnOk.{OnOk, OnOk-some, OnOk-raise_if}
use buddy_bet_v.Money.{Decimal}
use buddy_bet_v.Money.Cents.{IsCents}
use buddy_bet_v.Models.{Uuid, DateTime, Bet, Database}
use buddy_bet_v.Models.Enums.{FeeType, FootballOutcome, SettlementOutcome, BetStatus, BetStatus-eq}
use buddy_bet_v.Bets.{bet_id_of, bet_of, set_bet}
use buddy_bet_v.Table.{find-set}
use buddy_bet_v.Platform.{
  account_of, get_for_currency_for_update, get_active_rate, write_ledger_entry, latest,
}
use buddy_bet_v.Platform.Laws.{
  platform_total, AccountsGood, credit_fee-found, platform_total-credited, credited-AccountsGood,
  AllRates, RateOf, latest-RateOf,
}
use buddy_bet_v.Wallet.Posting.{AllGood}
use buddy_bet_v.Wallet.Reconcile.{total_holdings}
use buddy_bet_v.Settlement.{Settled, collect_fee, mark_settled, settled_bet, matched_with}
use buddy_bet_v.Settlement.AmountLaws.{IsRate}

-- All money: the balances of the users and of the platform.
abbrev pub total_funds : Database → Decimal
total_funds db = total_holdings db +ℤ platform_total db

-- What the columns and the checks of the database promise of a bet.
abbrev pub IsGoodBet : Bet → Type 0
IsGoodBet bet =
    IsCents bet.stake_amount
    × (pos 0 ≤ℤ bet.stake_amount)
    × ((opponent : Uuid) → bet.opponent_id ≡ some opponent → bet.creator_id ≢ opponent)

abbrev pub BetsGood : Database → Type 0
BetsGood db = (bet_id : Uuid) (bet : Bet) → bet_of bet_id db ≡ some bet → IsGoodBet bet

-- Balances are whole cents and not negative, fee rates lie between 0 and 1, and nobody bets with
-- himself.
pub record IsSound (db : Database) : Type 0 where
  pub wallets : AllGood db
  pub accounts : AccountsGood db
  pub rates : AllRates IsRate db.fee_config
  pub bets : BetsGood db

-- Only the platform's tables were written, and the fee is there.
abbrev pub FeeCollected : Decimal → Database → Database → Type 0
FeeCollected fee db db' =
    (platform_total db' ≡ platform_total db +ℤ fee)
    × AccountsGood db'
    × (db' ≡ record db {
      platform_accounts = db'.platform_accounts;
      platform_ledger_entries = db'.platform_ledger_entries;
    })

pub collect_fee-FeeCollected :
    (bet : Bet) (outcome : SettlementOutcome) (fee : Decimal) (db : Database)
    → AccountsGood db
    → IsCents fee
    → OnOk (λ _ db'. FeeCollected fee db db') (collect_fee bet outcome fee db)
unfolding collect_fee get_for_currency_for_update write_ledger_entry
collect_fee-FeeCollected bet outcome fee db good cents =
    OnOk-some (λ _ db'. FeeCollected fee db db') not_found (account_of bet.currency db) _ db
      λ account found. rw (credit_fee-found bet.currency account db found fee) (
        platform_total-credited bet.currency account db found fee (good _ _ found) cents,
        credited-AccountsGood bet.currency account db found fee good,
        refl,
      )

pub get_active_rate-IsRate :
    (fee_type : FeeType) (bet : Bet) (now : DateTime) (db : Database)
    → AllRates IsRate db.fee_config
    → OnOk (λ rate db'. IsRate rate × (db' ≡ db)) (get_active_rate fee_type bet.currency now db)
unfolding get_active_rate
get_active_rate-IsRate fee_type bet now db all =
    OnOk-some (λ rate db'. IsRate rate × (db' ≡ db)) not_found
      (latest fee_type bet.currency now none db.fee_config) _ db
      λ row found. (
        subst (RateOf IsRate) found
            (latest-RateOf IsRate fee_type bet.currency now none db.fee_config tt all),
        refl,
      )

pub mark_settled-lem :
    (bet : Bet) (outcome : SettlementOutcome) (s : Settled) (now : DateTime) (db : Database)
    → bet_of bet.id db ≡ some bet
    → OnOk
        (λ bet' db'. (bet' ≡ settled_bet outcome s now bet) × (db' ≡ set_bet bet' db))
        (mark_settled bet outcome s now db)
unfolding mark_settled
mark_settled-lem bet outcome s now db found = rw found (
    OnOk-raise_if (λ bet' db'. (bet' ≡ settled_bet outcome s now bet) × (db' ≡ set_bet bet' db))
      (bet.status != BetStatus.pending_settlement) settlement_idempotency _ db (λ _. (refl, refl)))

pub matched_with-opponent :
    (bet : Bet) (opponent : Uuid) (prediction : FootballOutcome)
    → matched_with bet ≡ some (opponent, prediction)
    → bet.opponent_id ≡ some opponent
matched_with-opponent bet opponent prediction h = ground arith

-- Writing a bet that has the same parties and stake keeps the bets good.
pub set_bet-BetsGood :
    (bet bet' : Bet) (db : Database)
    → bet_of bet'.id db ≡ some bet
    → IsGoodBet bet'
    → BetsGood db
    → BetsGood (set_bet bet' db)
set_bet-BetsGood bet bet' db found good all j x h =
    ground (arith, find-set bet_id_of j bet'.id bet' bet db.bets found refl, all j x)
