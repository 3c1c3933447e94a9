-- ===== src/Wallet/TransferMoves.antt =====
-- The outcome of `transfer_locked_funds` (Wallet.Transfer).
use buddy_bet_v.Prelude.{ℕ-eq, ◌≡◌, ◌≢◌, refl, inl, inr, none, some, List, [], ◌∷◌, Option-cases}
use buddy_bet_v.Prelude.Int.{pos, ◌-ℤ◌, ltb_ℤ, leb_ℤ, int_laws}
use buddy_bet_v.Exec.{Result, insufficient_funds, validation, raise_if, pure, ◌>>=◌, ◌>>◌}
use buddy_bet_v.Exec.Steps.{raise_if-step}
use buddy_bet_v.Money.{Decimal, safe_add, safe_subtract, verify_non_negative}
use buddy_bet_v.Money.Cents.{IsCents, IsCents-safe_add, IsCents-safe_subtract}
use buddy_bet_v.Money.Steps.{verify_non_negative-step}
use buddy_bet_v.Models.{Uuid, Wallet, LedgerEntry, Database}
use buddy_bet_v.Models.Enums.{
  LedgerEntryType, LedgerReferenceType, available, locked, credit, debit,
}
use buddy_bet_v.Ledger.{entry_for, write_settlement_winner}
use buddy_bet_v.Wallet.{wallet_of, update_balances}
use buddy_bet_v.Wallet.Posting.{AllGood}
use buddy_bet_v.Wallet.Tails.{debit-moved, both-moved}
use buddy_bet_v.Wallet.Pair.{Changes, PairPosted, PairNets}
use buddy_bet_v.Wallet.PairRows.{
  get_both-found, get_both-missing_first, get_both-missing_second, pair-tail,
}
use buddy_bet_v.Wallet.Transfer.{transfer_locked_funds}

-- The pool of two stakes, less the fee.
abbrev pub payout : Decimal → Decimal → Decimal
payout amount fee = safe_subtract (safe_add amount amount) fee

abbrev pub winner_changes : Decimal → Decimal → Changes
winner_changes amount fee = record {
  first_available = payout amount fee;
  first_locked = pos 0 -ℤ amount;
  second_available = pos 0;
  second_locked = pos 0 -ℤ amount;
}

abbrev pub winner_entries : Decimal → Decimal → Uuid → Wallet → Wallet → List LedgerEntry
winner_entries amount payout bet_id winner loser =
    entry_for winner LedgerEntryType.payout_credit available credit payout
      LedgerReferenceType.settlement bet_id
    ∷ entry_for loser LedgerEntryType.settlement_deduct locked debit amount
        LedgerReferenceType.settlement bet_id
    ∷ entry_for winner LedgerEntryType.settlement_deduct locked debit amount
        LedgerReferenceType.settlement bet_id
    ∷ []

pub winner_entries-Nets :
    (amount fee : Decimal) (bet_id : Uuid)
    → PairNets (winner_changes amount fee) (winner_entries amount (payout amount fee) bet_id)
winner_entries-Nets amount fee bet_id a b user available rest distinct = grind int_laws
winner_entries-Nets amount fee bet_id a b user locked rest distinct = grind int_laws

module _ (winner loser : Uuid) (distinct : winner ≢ loser) (amount fee : Decimal) (bet_id : Uuid)
    (db : Database) (good : AllGood db) (cents : IsCents amount) where
  abbrev P : Result (Wallet × Wallet) × Database → Type 0
  P =
      PairPosted winner loser (winner_changes amount fee)
        (winner_entries amount (payout amount fee) bet_id) db

  -- Both wallets exist: check their locked balances and move the stakes.
  move :
      (w l : Wallet)
      → wallet_of winner db ≡ some w
      → wallet_of loser db ≡ some l
      → P (
          (raise_if (ltb_ℤ w.locked_balance amount) insufficient_funds
              >> (raise_if (ltb_ℤ l.locked_balance amount) insufficient_funds
                  >> (verify_non_negative (safe_subtract w.locked_balance amount)
                      >> (verify_non_negative (safe_add w.available_balance (payout amount fee))
                          >> (verify_non_negative (safe_subtract l.locked_balance amount)
                              >> (update_balances w
                                    (some (safe_add w.available_balance (payout amount fee)))
                                    (some (safe_subtract w.locked_balance amount))
                                  >>= λ w'.
                                      update_balances l none
                                        (some (safe_subtract l.locked_balance amount))
                                      >>= λ l'.
                                          write_settlement_winner w' l' amount
                                            (payout amount fee)
                                            bet_id
                                          >> pure (w', l')))))))
            db)
  unfolding write_settlement_winner
  move w l at_w at_l =
      let wg = good winner w at_w in
      let lg = good loser l at_l in
      raise_if-step P (ltb_ℤ w.locked_balance amount) insufficient_funds _ db refl λ _.
        raise_if-step P (ltb_ℤ l.locked_balance amount) insufficient_funds _ db refl λ _.
          verify_non_negative-step P (safe_subtract w.locked_balance amount) _ db refl λ h1.
            verify_non_negative-step P (safe_add w.available_balance (payout amount fee)) _ db refl
              λ h2.
                verify_non_negative-step P (safe_subtract l.locked_balance amount) _ db refl λ h3.
                  pair-tail
                    (λ w' l'. write_settlement_winner w' l' amount (payout amount fee) bet_id)
                    (λ w' l'. (w', l')) (winner_entries amount (payout amount fee) bet_id)
                    (λ _ _ _. refl) winner loser distinct (winner_changes amount fee) w l db
                    (some (safe_add w.available_balance (payout amount fee)))
                    (some (safe_subtract w.locked_balance amount)) none
                    (some (safe_subtract l.locked_balance amount)) at_w at_l
                    (both-moved w amount (payout amount fee) wg cents (IsCents-safe_subtract _ _))
                    (debit-moved l amount lg cents)
                    (IsCents-safe_add _ _, IsCents-safe_subtract _ _, h2, h1)
                    (lg.0, IsCents-safe_subtract _ _, lg.2, h3)

  pub transfer_locked_funds-Posted :
      PairPosted winner loser
        (winner_changes amount fee)
        (winner_entries amount (payout amount fee) bet_id)
        db
        (transfer_locked_funds winner loser amount fee bet_id db)
  unfolding transfer_locked_funds
  transfer_locked_funds-Posted = raise_if-step P (leb_ℤ amount (pos 0)) validation _ db refl λ _.
      raise_if-step P (ltb_ℤ fee (pos 0)) validation _ db refl λ _.
        raise_if-step P (leb_ℤ (payout amount fee) (pos 0)) validation _ db refl λ _.
          elim (Option-cases (wallet_of winner db)) [
            | inl missing ↦ rw (get_both-missing_first winner loser db missing)
            | inr (w, at_w) ↦ elim (Option-cases (wallet_of loser db)) [
              | inl missing ↦ rw (get_both-missing_second winner loser db w at_w missing)
              | inr (l, at_l) ↦
                  rw (get_both-found winner loser db w l at_w at_l) (move w l at_w at_l)
            ]
          ]
