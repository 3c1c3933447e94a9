-- ===== src/Escrow/Payments.antt =====
-- A deposit is requested, and sent to PayFast (app/services/deposit_service.py), in a consistent
-- database.
use buddy_bet_v.Prelude.{
  ℕ-eq, ◌≡◌, refl, sym, subst, arith, some, none, false, Option, String, not, beq_self,
}
use buddy_bet_v.Prelude.Int.{pos, ◌≤ℤ◌, leb_ℤ, ltb_ℤ}
use buddy_bet_v.Exec.{modify, pure, ◌>>◌, not_found, validation, database_error}
use buddy_bet_v.Exec.OnOk.{OnOk, OnOk-bind, OnOk-some, OnOk-raise_if}
use buddy_bet_v.Config.{Settings}
use buddy_bet_v.Money.{Decimal}
use buddy_bet_v.Money.Cents.{IsCents}
use buddy_bet_v.Models.{Uuid, Wallet, DepositRequest, Database}
use buddy_bet_v.Deposits.{
  client_reference_taken, deposit_of, set_deposit, add_deposit, new_deposit, processing,
  create_deposit, initiate_payfast_deposit,
}
use buddy_bet_v.Wallet.{wallet_of, get_by_user_id_or_404}
use buddy_bet_v.Escrow.{IsConsistent, DepositsGood}
use buddy_bet_v.Escrow.BetMoves.{Conserved}

added-DepositsGood :
    (d d' : DepositRequest) (db : Database)
    → d'.id ≡ d.id
    → IsCents d'.amount
    → DepositsGood db
    → DepositsGood (set_deposit d' (add_deposit d db))
added-DepositsGood d d' db same cents all j x h = ground (arith, all j x)

-- The amount was within the limits, and the deposit of the user's wallet is stored, in processing,
-- with its checkout URL.
abbrev pub Initiated :
    Settings
    → (Uuid → Decimal → String)
    → Uuid
    → Decimal
    → Uuid
    → Database
    → DepositRequest
    → Database
    → Type 0
Initiated settings checkout_url user amount new_id db d db' =
    Conserved db db'
    × (settings.min_stake_amount ≤ℤ amount)
    × (amount ≤ℤ settings.max_stake_amount)
    × (deposit_of new_id db' ≡ some d)
    × ((wallet : Wallet) × (wallet_of user db ≡ some wallet)
        × (d
            ≡ processing (checkout_url new_id amount) (
                new_deposit new_id user wallet.id amount settings.platform_currency (some "payfast")
                  none)))

within : (a b : Decimal) → ltb_ℤ a b ≡ false → b ≤ℤ a
within a b h = ground arith

initiated-Conserved :
    (d : DepositRequest) (url : String) (db : Database)
    → IsCents d.amount
    → IsConsistent db
    → Conserved db (set_deposit (processing url d) (add_deposit d db))
initiated-Conserved d url db cents c = (
  record {
    sound = record {
      wallets = c.sound.wallets;
      accounts = c.sound.accounts;
      rates = c.sound.rates;
      bets = c.sound.bets;
    };
    reconciled = c.reconciled;
    escrowed = c.escrowed;
    withdrawals = c.withdrawals;
    deposits = added-DepositsGood d (processing url d) db refl cents c.deposits;
  },
  refl,
)

-- A pending deposit of the user's wallet is added, and nothing else.
abbrev Filed :
    Uuid
    → Decimal
    → String
    → Option String
    → Option String
    → Uuid
    → Database
    → DepositRequest
    → Database
    → Type 0
Filed user amount currency provider reference new_id db d db1 =
    (wallet : Wallet) × (wallet_of user db ≡ some wallet)
    × (d ≡ new_deposit new_id user wallet.id amount currency provider reference)
    × (db1 ≡ add_deposit d db)

create_deposit-Filed :
    (numeric : Decimal → Decimal)
    → ((a : Decimal) → IsCents a → numeric a ≡ a)
    → (user : Uuid) (amount : Decimal) → IsCents amount
    → (currency : String) (provider reference : Option String) (new_id : Uuid) (db : Database)
    → OnOk
        (Filed user amount currency provider reference new_id db)
        (create_deposit numeric user amount currency provider reference new_id db)
unfolding create_deposit get_by_user_id_or_404
create_deposit-Filed numeric numeric-cents user amount cents currency provider reference new_id db =
    let P = Filed user amount currency provider reference new_id db in
    OnOk-raise_if P (leb_ℤ amount (pos 0)) validation _ db λ _.
      OnOk-some P not_found (wallet_of user db) _ db λ wallet found.
        let deposit =
          new_deposit new_id user wallet.id (numeric amount) currency provider reference in
        OnOk-raise_if P (client_reference_taken new_id reference db) database_error
          (modify (add_deposit deposit) >> pure deposit) db
          λ _. rw (numeric-cents amount cents) (wallet, found, refl, refl)

module _ (settings : Settings) (numeric : Decimal → Decimal)
    (numeric-cents : (a : Decimal) → IsCents a → numeric a ≡ a)
    (checkout_url : Uuid → Decimal → String) (user : Uuid) (amount : Decimal)
    (cents : IsCents amount) (new_id : Uuid) (db : Database) (c : IsConsistent db) where
  -- From a consistent database, for an amount of whole cents that the database stores as it is, when
  -- `initiate_payfast_deposit` returns, the database is consistent and has as much money as before;
  -- the amount is within the limits, and the deposit for the user's wallet is stored under its id, in
  -- processing, with the checkout URL of its id and its amount.
  pub initiate_payfast_deposit-Initiated :
      OnOk
        (Initiated settings checkout_url user amount new_id db)
        (initiate_payfast_deposit settings numeric checkout_url user amount new_id db)
  unfolding initiate_payfast_deposit
  initiate_payfast_deposit-Initiated =
      let P = Initiated settings checkout_url user amount new_id db in
      OnOk-raise_if P (not settings.payfast_enabled) validation _ db λ _.
        OnOk-raise_if P (ltb_ℤ amount settings.min_stake_amount) validation _ db λ enough.
          OnOk-raise_if P (ltb_ℤ settings.max_stake_amount amount) validation _ db λ not_too_much.
            OnOk-bind P
              (Filed user amount settings.platform_currency (some "payfast") none new_id db)
              (create_deposit numeric user amount settings.platform_currency (some "payfast") none
                new_id)
              _ db
              (create_deposit-Filed numeric numeric-cents user amount cents
                settings.platform_currency (some "payfast") none new_id db)
              λ d db1 (wallet, found, d_is, db1_is). rw db1_is (
                subst
                  (λ x. OnOk P (
                    (modify (set_deposit (processing (checkout_url x.id amount) x))
                        >> pure (processing (checkout_url x.id amount) x))
                      (add_deposit x db)))
                  (sym d_is)
                  (
                    initiated-Conserved
                        (new_deposit new_id user wallet.id amount settings.platform_currency
                          (some "payfast") none)
                        (checkout_url new_id amount) db cents c,
                    within amount settings.min_stake_amount enough,
                    within settings.max_stake_amount amount not_too_much,
                    rw (beq_self new_id) (rw (beq_self new_id) refl),
                    (wallet, found, refl),
                  ))
