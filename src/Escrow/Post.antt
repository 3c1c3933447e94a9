-- ===== src/Escrow/Post.antt =====
-- One call of the wallet service within a larger operation, against the invariant.
use buddy_bet_v.Prelude.{ℕ-eq, ◌≡◌, refl, arith, some, ◌==◌, if◌then◌else◌}
use buddy_bet_v.Prelude.Int.{pos, ◌+ℤ◌, int_laws, add_zero, shift}
use buddy_bet_v.Exec.{Result, ok, err, Exec, continue, ◌>>=◌}
use buddy_bet_v.Exec.OnOk.{OnOk}
use buddy_bet_v.Money.{Decimal}
use buddy_bet_v.Money.Cents.{IsCents}
use buddy_bet_v.Models.{Uuid, Wallet, Database}
use buddy_bet_v.Wallet.{wallet_of}
use buddy_bet_v.Wallet.Rows.{user_of-found}
use buddy_bet_v.Wallet.Posting.{Posted, AllGood, IsGood, moved, post}
use buddy_bet_v.Wallet.Reconcile.{
  holdings, wallet_of-post, Posted-AllGood, Posted-IsReconciled, total-post, total_holdings,
}
use buddy_bet_v.Wallet.Calls.{
  Method, perform, to_available, to_locked, entries_of, entries_of-Nets, perform-Posted,
}
use buddy_bet_v.Settlement.Sound.{BetsGood}
use buddy_bet_v.Escrow.{IsConsistent, WithdrawalsGood, DepositsGood, held}

module _ (method : Method) (user : Uuid) (amount : Decimal) (reference_id : Uuid)
    (db : Database) where
  -- The wallet row that a call found, and the one that it wrote.
  pub record Moved (wallet wallet' : Wallet) : Type 0 where
    pub found : wallet_of user db ≡ some wallet
    pub is_moved : wallet' ≡ moved (to_available method amount) (to_locked method amount) wallet
    pub is_good : IsGood wallet'

  -- The database after the call.
  abbrev pub after : Wallet → Database
  after wallet' = post user wallet' (entries_of method amount reference_id wallet') db

  pub OnOk-perform :
      {B : Type 0} (P : B → Database → Type 0) (f : Wallet → Exec Database B)
      → AllGood db
      → IsCents amount
      → ((wallet wallet' : Wallet) → Moved wallet wallet' → OnOk P (f wallet' (after wallet')))
      → OnOk P ((perform method user amount reference_id >>= f) db)
  OnOk-perform P f good cents rest =
      go (perform method user amount reference_id db)
        (perform-Posted method user amount reference_id db good cents)
    where
      go :
          (out : Result Wallet × Database)
          → Posted user
              (to_available method amount)
              (to_locked method amount)
              (entries_of method amount reference_id)
              db
              out
          → OnOk P (continue out.0 f out.1)
      go (err e, db') h = tt
      go (ok w', db') (w, found, w'_is, w'_good, db'_is) =
          rw db'_is (rest w w' (record { found = found; is_moved = w'_is; is_good = w'_good }))

  module _ (wallet wallet' : Wallet) (m : Moved wallet wallet') where
    key : wallet'.user_id ≡ user
    key = rw m.is_moved (user_of-found user db wallet m.found)

    posted :
        Posted user
          (to_available method amount)
          (to_locked method amount)
          (entries_of method amount reference_id)
          db
          (ok wallet', after wallet')
    posted = (wallet, m.found, m.is_moved, m.is_good, refl)

    locked-after : wallet'.locked_balance ≡ wallet.locked_balance +ℤ to_locked method amount
    locked-after = rw m.is_moved refl

    escrowed-after :
        (j : Uuid) (w : Wallet) (before now : Decimal)
        → wallet_of j (after wallet') ≡ some w
        → now ≡ before +ℤ (if j == user then to_locked method amount else pos 0)
        → ((x : Wallet) → wallet_of j db ≡ some x → x.locked_balance ≡ before)
        → w.locked_balance ≡ now
    escrowed-after j w before now h change escrowed = ground (
      arith,
      wallet_of-post user wallet wallet' (entries_of method amount reference_id wallet') db m.found
          key j,
      escrowed w,
      escrowed wallet,
      m.found,
      locked-after,
      add_zero before,
    )

    -- A database that differs from the one after the call in the bets and the requests only.
    pub post-IsConsistent :
        (db' : Database)
        → db'.wallets ≡ (after wallet').wallets
        → db'.ledger_entries ≡ (after wallet').ledger_entries
        → db'.platform_accounts ≡ db.platform_accounts
        → db'.fee_config ≡ db.fee_config
        → BetsGood db'
        → WithdrawalsGood db'
        → DepositsGood db'
        → ((j : Uuid)
            → held j db' ≡ held j db +ℤ (if j == user then to_locked method amount else pos 0))
        → IsConsistent db
        → IsConsistent db'
    post-IsConsistent db' wallets entries accounts config bets withdrawals deposits holds c =
        record {
          sound = record {
            wallets = rw wallets (
                Posted-AllGood user (to_available method amount) (to_locked method amount)
                  (entries_of method amount reference_id) db (ok wallet', after wallet') posted
                  c.sound.wallets);
            accounts = rw accounts c.sound.accounts;
            rates = rw config c.sound.rates;
            bets = bets;
          };
          reconciled =
              rw (wallets, entries)
                (Posted-IsReconciled user (to_available method amount) (to_locked method amount)
                  (entries_of method amount reference_id) db (ok wallet', after wallet') posted
                  (entries_of-Nets method amount reference_id) c.reconciled);
          escrowed = λ j w h.
              escrowed-after j w (held j db) (held j db') (rw⁻¹ wallets h) (holds j) (c.escrowed j);
          withdrawals = withdrawals;
          deposits = deposits;
        }

    pub post-total :
        total_holdings (after wallet')
        ≡ total_holdings db +ℤ (to_available method amount +ℤ to_locked method amount)
    post-total =
        shift (total_holdings db) (total_holdings (after wallet')) (holdings wallet)
          (holdings wallet') (to_available method amount +ℤ to_locked method amount)
          (total-post user wallet wallet' (entries_of method amount reference_id wallet') db m.found
            key)
          (rw m.is_moved (omega int_laws))
