-- ===== src/Tests/Data/Facts.antt =====
-- The small database is consistent.
use buddy_bet_v.Prelude.{ℕ-eq, ◌≡◌, refl, arith, String-eq}
use buddy_bet_v.Prelude.Int.{◌+ℤ◌, ◌-ℤ◌}
use buddy_bet_v.Table.{find-all}
use buddy_bet_v.Money.Cents.{IsCents}
use buddy_bet_v.Models.Enums.{BalanceField, available, locked}
use buddy_bet_v.Ledger.{ledger_balance}
use buddy_bet_v.Bets.{bet_id_of}
use buddy_bet_v.Withdrawals.{withdrawal_id_of}
use buddy_bet_v.Deposits.{deposit_id_of}
use buddy_bet_v.Platform.{currency_of}
use buddy_bet_v.Wallet.{user_of}
use buddy_bet_v.Wallet.Posting.{IsGood, balance, AllGood}
use buddy_bet_v.Wallet.Reconcile.{IsReconciled}
use buddy_bet_v.Settlement.Sound.{IsSound, IsGoodBet}
use buddy_bet_v.Escrow.{IsConsistent, held}
use buddy_bet_v.Tests.Data.{demo, wallet_1, wallet_2, pending_one, open_one, matched_one}

pub wallet_1-IsGood : IsGood wallet_1
wallet_1-IsGood = ((refl, refl), (refl, refl), omega arith, omega arith)

wallet_2-IsGood : IsGood wallet_2
wallet_2-IsGood = ((refl, refl), (refl, refl), omega arith, omega arith)

pub demo-AllGood : AllGood demo
demo-AllGood =
    find-all user_of (λ _ w. IsGood w) demo.wallets (wallet_1-IsGood, (wallet_2-IsGood, tt))

booked_1 :
    (field : BalanceField) → balance field wallet_1 ≡ ledger_balance 1 field demo.ledger_entries
unfolding ◌+ℤ◌ ◌-ℤ◌
booked_1 available = refl
booked_1 locked = refl

booked_2 :
    (field : BalanceField) → balance field wallet_2 ≡ ledger_balance 2 field demo.ledger_entries
unfolding ◌+ℤ◌ ◌-ℤ◌
booked_2 available = refl
booked_2 locked = refl

pub demo-IsReconciled : IsReconciled demo
demo-IsReconciled user field w found =
    find-all user_of
      (λ j x. (f : BalanceField) → balance f x ≡ ledger_balance j f demo.ledger_entries)
      demo.wallets (booked_1, (booked_2, tt)) user w found field

held_1 : wallet_1.locked_balance ≡ held 1 demo
unfolding ◌+ℤ◌
held_1 = refl

held_2 : wallet_2.locked_balance ≡ held 2 demo
unfolding ◌+ℤ◌
held_2 = refl

pending-good : IsGoodBet pending_one
pending-good = ((refl, refl), omega arith, λ other is_other same. ground arith)

open-good : IsGoodBet open_one
open-good = ((refl, refl), omega arith, λ other is_other same. ground arith)

matched-good : IsGoodBet matched_one
matched-good = ((refl, refl), omega arith, λ other is_other same. ground arith)

pub demo-IsSound : IsSound demo
demo-IsSound = record {
  wallets = demo-AllGood;
  accounts =
      find-all currency_of (λ _ a. IsCents a.balance) demo.platform_accounts ((refl, refl), tt);
  rates = ((omega arith, omega arith), ((omega arith, omega arith), tt));
  bets =
      find-all bet_id_of (λ _ b. IsGoodBet b) demo.bets
        (pending-good, (open-good, (matched-good, tt)));
}

pub demo-IsConsistent : IsConsistent demo
demo-IsConsistent = record {
  sound = demo-IsSound;
  reconciled = demo-IsReconciled;
  escrowed =
      find-all user_of (λ j w. w.locked_balance ≡ held j demo) demo.wallets (held_1, (held_2, tt));
  withdrawals =
      find-all withdrawal_id_of (λ _ w. IsCents w.amount) demo.withdrawal_requests
        ((refl, refl), ((refl, refl), tt));
  deposits =
      find-all deposit_id_of (λ _ d. IsCents d.amount) demo.deposit_requests ((refl, refl), tt);
}
