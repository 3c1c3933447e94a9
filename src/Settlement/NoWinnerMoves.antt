-- ===== src/Settlement/NoWinnerMoves.antt =====
-- The outcome of `settle_no_winner`.
use buddy_bet_v.Prelude.{
  ℕ-eq, ◌≡◌, ◌≢◌, refl, inl, inr, some, List, [], ◌∷◌, arith, Option-cases, ap, Bool, true, false,
  ◌==◌, if◌then◌else◌,
}
use buddy_bet_v.Prelude.Int.{pos, ◌+ℤ◌, ◌-ℤ◌, ltb_ℤ, int_laws, add_zero}
use buddy_bet_v.Exec.{Result, insufficient_funds, raise_if, pure, ◌>>=◌, ◌>>◌}
use buddy_bet_v.Exec.Steps.{raise_if-step}
use buddy_bet_v.Money.{Decimal, safe_add, safe_subtract, verify_non_negative}
use buddy_bet_v.Money.Cents.{IsCents, IsCents-safe_add, IsCents-safe_subtract}
use buddy_bet_v.Money.Steps.{verify_non_negative-step}
use buddy_bet_v.Models.{Uuid, Wallet, LedgerEntry, Database}
use buddy_bet_v.Models.Enums.{
  LedgerEntryType, LedgerReferenceType, available, locked, credit, debit,
}
use buddy_bet_v.Ledger.{entry_for, ledger_balance, write_settlement_no_winner}
use buddy_bet_v.Wallet.{wallet_of, update_balances}
use buddy_bet_v.Wallet.Posting.{AllGood}
use buddy_bet_v.Wallet.Tails.{both-moved}
use buddy_bet_v.Wallet.Pair.{Changes, PairPosted, PairNets}
use buddy_bet_v.Wallet.PairRows.{
  get_both-found, get_both-missing_first, get_both-missing_second, pair-tail,
}
use buddy_bet_v.Settlement.NoWinner.{settle_no_winner}

abbrev pub refund_changes : Decimal → Decimal → Changes
refund_changes stake refund = record {
  first_available = refund;
  first_locked = pos 0 -ℤ stake;
  second_available = refund;
  second_locked = pos 0 -ℤ stake;
}

-- The three entries of one user, newest first.
abbrev pub refund_entries : Decimal → Decimal → Uuid → Wallet → List LedgerEntry → List LedgerEntry
refund_entries fee refund bet_id wallet rest =
    entry_for wallet LedgerEntryType.refund_credit available credit refund
      LedgerReferenceType.settlement bet_id
    ∷ entry_for wallet LedgerEntryType.settlement_deduct locked debit refund
        LedgerReferenceType.settlement bet_id
    ∷ entry_for wallet LedgerEntryType.fee_deduct locked debit fee LedgerReferenceType.settlement
        bet_id
    ∷ rest

abbrev pub no_winner_entries : Decimal → Decimal → Uuid → Wallet → Wallet → List LedgerEntry
no_winner_entries fee refund bet_id creator opponent =
    refund_entries fee refund bet_id opponent (refund_entries fee refund bet_id creator [])

-- The fee and the refund leave locked, and together they are the stake.
refund_entries-locked :
    (stake fee refund : Decimal) (bet_id : Uuid) (wallet : Wallet) (user : Uuid)
    → (rest : List LedgerEntry) → refund ≡ stake -ℤ fee
    → ledger_balance user locked (refund_entries fee refund bet_id wallet rest)
      ≡ ledger_balance user locked rest
        +ℤ (if user == wallet.user_id then pos 0 -ℤ stake else pos 0)
refund_entries-locked stake fee refund bet_id wallet user rest e = rw e (grind int_laws)

refund_entries-available :
    (fee refund : Decimal) (bet_id : Uuid) (wallet : Wallet) (user : Uuid)
    → (rest : List LedgerEntry)
    → ledger_balance user available (refund_entries fee refund bet_id wallet rest)
      ≡ ledger_balance user available rest +ℤ (if user == wallet.user_id then refund else pos 0)
refund_entries-available fee refund bet_id wallet user rest = grind int_laws

one_user : (user a b : Uuid) → a ≢ b → (user == a) ≡ true → (user == b) ≡ false
one_user user a b distinct h = ground arith

-- Two summands of which one is zero.
pick :
    (rest change : Decimal) (x y : Bool)
    → (x ≡ true → y ≡ false)
    → (rest +ℤ (if x then change else pos 0)) +ℤ (if y then change else pos 0)
      ≡ rest +ℤ (if x then change else if y then change else pos 0)
pick rest change true y h = rw (h refl) (omega int_laws)
pick rest change false y h =
    ap (λ (t : Decimal). t +ℤ (if y then change else pos 0)) (add_zero rest)

pub no_winner_entries-Nets :
    (stake fee refund : Decimal) (bet_id : Uuid)
    → refund ≡ stake -ℤ fee
    → PairNets (refund_changes stake refund) (no_winner_entries fee refund bet_id)
no_winner_entries-Nets stake fee refund bet_id e a b user available rest distinct =
    rw
      (
        refund_entries-available fee refund bet_id b user (refund_entries fee refund bet_id a rest),
        refund_entries-available fee refund bet_id a user rest,
      )
      (pick (ledger_balance user available rest) refund (user == a.user_id) (user == b.user_id)
        (one_user user a.user_id b.user_id distinct))
no_winner_entries-Nets stake fee refund bet_id e a b user locked rest distinct =
    rw
      (
        refund_entries-locked stake fee refund bet_id b user
            (refund_entries fee refund bet_id a rest) e,
        refund_entries-locked stake fee refund bet_id a user rest e,
      )
      (pick (ledger_balance user locked rest) (pos 0 -ℤ stake) (user == a.user_id)
        (user == b.user_id) (one_user user a.user_id b.user_id distinct))

module _ (creator opponent : Uuid) (distinct : creator ≢ opponent) (stake fee refund : Decimal)
    (bet_id : Uuid) (db : Database) (good : AllGood db) (cents : IsCents stake)
    (refund_cents : IsCents refund) where
  abbrev P : Result (Unit {0}) × Database → Type 0
  P =
      PairPosted creator opponent (refund_changes stake refund)
        (no_winner_entries fee refund bet_id) db

  -- Both wallets exist: check their locked balances, consume the stakes and refund.
  refund_both :
      (c o : Wallet)
      → wallet_of creator db ≡ some c
      → wallet_of opponent db ≡ some o
      → P (
          (raise_if (ltb_ℤ c.locked_balance stake) insufficient_funds
              >> (raise_if (ltb_ℤ o.locked_balance stake) insufficient_funds
                  >> (verify_non_negative (safe_subtract c.locked_balance stake)
                      >> (verify_non_negative (safe_add c.available_balance refund)
                          >> (verify_non_negative (safe_subtract o.locked_balance stake)
                              >> (verify_non_negative (safe_add o.available_balance refund)
                                  >> (update_balances c
                                        (some (safe_add c.available_balance refund))
                                        (some (safe_subtract c.locked_balance stake))
                                      >>= λ c'.
                                          update_balances o
                                            (some (safe_add o.available_balance refund))
                                            (some (safe_subtract o.locked_balance stake))
                                          >>= λ o'.
                                              write_settlement_no_winner c' o' fee refund bet_id
                                              >> pure tt)))))))
            db)
  unfolding write_settlement_no_winner
  refund_both c o at_c at_o =
      let cg = good creator c at_c in
      let og = good opponent o at_o in
      raise_if-step P (ltb_ℤ c.locked_balance stake) insufficient_funds _ db refl λ _.
        raise_if-step P (ltb_ℤ o.locked_balance stake) insufficient_funds _ db refl λ _.
          verify_non_negative-step P (safe_subtract c.locked_balance stake) _ db refl λ h1.
            verify_non_negative-step P (safe_add c.available_balance refund) _ db refl λ h2.
              verify_non_negative-step P (safe_subtract o.locked_balance stake) _ db refl λ h3.
                verify_non_negative-step P (safe_add o.available_balance refund) _ db refl λ h4.
                  pair-tail (λ c' o'. write_settlement_no_winner c' o' fee refund bet_id)
                    (λ c' o'. tt) (no_winner_entries fee refund bet_id) (λ _ _ _. refl) creator
                    opponent distinct (refund_changes stake refund) c o db
                    (some (safe_add c.available_balance refund))
                    (some (safe_subtract c.locked_balance stake))
                    (some (safe_add o.available_balance refund))
                    (some (safe_subtract o.locked_balance stake)) at_c at_o
                    (both-moved c stake refund cg cents refund_cents)
                    (both-moved o stake refund og cents refund_cents)
                    (IsCents-safe_add _ _, IsCents-safe_subtract _ _, h2, h1)
                    (IsCents-safe_add _ _, IsCents-safe_subtract _ _, h4, h3)

  pub settle_no_winner-Posted : P (settle_no_winner creator opponent stake fee refund bet_id db)
  unfolding settle_no_winner
  settle_no_winner-Posted = elim (Option-cases (wallet_of creator db)) [
    | inl missing ↦ rw (get_both-missing_first creator opponent db missing)
    | inr (c, at_c) ↦ elim (Option-cases (wallet_of opponent db)) [
      | inl missing ↦ rw (get_both-missing_second creator opponent db c at_c missing)
      | inr (o, at_o) ↦
          rw (get_both-found creator opponent db c o at_c at_o) (refund_both c o at_c at_o)
    ]
  ]
