-- ===== src/Settlement/Returns.antt =====
-- The steps of `settle_bet` that move the money do return (app/services/settlement_service.py,
-- app/services/wallet_service.py).
use buddy_bet_v.Prelude.{ℕ-eq, ◌≡◌, ◌≢◌, refl, false, Option, none, some, List, [], ◌++◌, arith}
use buddy_bet_v.Prelude.Int.{pos, ◌+ℤ◌, ◌-ℤ◌, ◌<ℤ◌, ◌≤ℤ◌, int_laws, ltb_ℤ, leb_ℤ}
use buddy_bet_v.Exec.{Result, ok, err, Exec, pure, ◌>>=◌, ◌>>◌, continue}
use buddy_bet_v.Exec.OnOk.{OnOk}
use buddy_bet_v.Money.{Decimal, verify_non_negative}
use buddy_bet_v.Money.Cents.{IsCents, safe_add-cents, safe_subtract-cents}
use buddy_bet_v.Models.{Uuid, Wallet, LedgerEntry, Database}
use buddy_bet_v.Ledger.{write_settlement_winner, write_settlement_no_winner}
use buddy_bet_v.Wallet.{wallet_of, with_balances, update_balances}
use buddy_bet_v.Wallet.Rows.{user_of-found, update_balances-found}
use buddy_bet_v.Wallet.Posting.{IsGood, post}
use buddy_bet_v.Wallet.Pair.{second-after_first}
use buddy_bet_v.Wallet.PairRows.{get_both-found}
use buddy_bet_v.Wallet.Transfer.{transfer_locked_funds}
use buddy_bet_v.Wallet.TransferMoves.{payout, winner_entries}
use buddy_bet_v.Settlement.NoWinner.{settle_no_winner}
use buddy_bet_v.Settlement.NoWinnerMoves.{no_winner_entries}

-- It does not raise.
abbrev pub Returns : {A S : Type 0} → Result A × S → Type 0
Returns (ok _, _) = Unit {0}
Returns (err _, _) = ⊥

pub Returns-bind :
    {A B S : Type 0} (Q : A → S → Type 0) (m : Exec S A) (f : A → Exec S B) (s : S)
    → Returns (m s)
    → OnOk Q (m s)
    → ((a : A) (s' : S) → Q a s' → Returns (f a s'))
    → Returns ((m >>= f) s)
Returns-bind {A} {B} {S} Q m f s returned known rest = go (m s) returned known
  where
    go : (out : Result A × S) → Returns out → OnOk Q out → Returns (continue out.0 f out.1)
    go (err e, s') none_such h = none_such
    go (ok a, s') _ h = rest a s' h

pub Returns-then :
    {A B S : Type 0} (m : Exec S A) (f : A → Exec S B) (s : S)
    → Returns (m s)
    → ((a : A) (s' : S) → Returns (f a s'))
    → Returns ((m >>= f) s)
Returns-then {A} {B} {S} m f s returned rest = go (m s) returned
  where
    go : (out : Result A × S) → Returns out → Returns (continue out.0 f out.1)
    go (err e, s') none_such = none_such
    go (ok a, s') _ = rest a s'

positive : (a : Decimal) → pos 0 <ℤ a → leb_ℤ a (pos 0) ≡ false
positive a h = ground (arith, h)

at_least : (a b : Decimal) → b ≤ℤ a → ltb_ℤ a b ≡ false
at_least a b h = ground (arith, h)

not_below : (a b : Decimal) → b ≤ℤ a → ltb_ℤ (a -ℤ b) (pos 0) ≡ false
not_below a b h = at_least (a -ℤ b) (pos 0) (omega int_laws)

sum_not_negative : (a b : Decimal) → pos 0 ≤ℤ a → pos 0 ≤ℤ b → ltb_ℤ (a +ℤ b) (pos 0) ≡ false
sum_not_negative a b h k = at_least (a +ℤ b) (pos 0) (omega int_laws)

less : (a : Decimal) → pos 0 <ℤ a → pos 0 ≤ℤ a
less a h = ground (arith, h)

-- Both rows are written, and the entries.
module _ {A : Type 0} (writer : Wallet → Wallet → Exec Database (Unit {0}))
    (result : Wallet → Wallet → A) (entries : Wallet → Wallet → List LedgerEntry)
    (inserts : (a b : Wallet) (db : Database)
      → writer a b db
        ≡ (ok tt, record db { ledger_entries = entries a b ++ db.ledger_entries })) where
  pair-Returns :
      (first second : Uuid)
      → first ≢ second
      → (a b : Wallet) (db : Database) (av lk av' lk' : Option Decimal)
      → wallet_of first db ≡ some a
      → wallet_of second db ≡ some b
      → Returns (
          (update_balances a av lk >>= λ a'.
          update_balances b av' lk' >>= λ b'. writer a' b' >> pure (result a' b'))
            db)
  pair-Returns first second distinct a b db av lk av' lk' at_a at_b =
      let a' = with_balances av lk a in
      let still =
        second-after_first first second distinct db a b a' at_a at_b
          (user_of-found first db a at_a) in
      rw
        (
          update_balances-found first av lk a db at_a,
          update_balances-found second av' lk' b (post first a' [] db) still,
          inserts,
        )
        tt

-- Two wallets whose locked balances cover the stake.
module _ (first second : Uuid) (distinct : first ≢ second) (stake : Decimal) (a b : Wallet)
    (db : Database) (at_a : wallet_of first db ≡ some a) (at_b : wallet_of second db ≡ some b)
    (a_good : IsGood a) (b_good : IsGood b) (cents : IsCents stake)
    (a_covers : stake ≤ℤ a.locked_balance) (b_covers : stake ≤ℤ b.locked_balance) where
  pub transfer_locked_funds-Returns :
      (fee : Decimal) (bet_id : Uuid)
      → pos 0 <ℤ stake
      → pos 0 ≤ℤ fee
      → pos 0 <ℤ payout stake fee
      → IsCents (payout stake fee)
      → Returns (transfer_locked_funds first second stake fee bet_id db)
  unfolding transfer_locked_funds verify_non_negative write_settlement_winner
  transfer_locked_funds-Returns fee bet_id h_stake h_fee h_pay pay_cents =
      rw
        (
          positive stake h_stake,
          at_least fee (pos 0) h_fee,
          positive (payout stake fee) h_pay,
          get_both-found first second db a b at_a at_b,
          at_least a.locked_balance stake a_covers,
          at_least b.locked_balance stake b_covers,
          safe_subtract-cents a.locked_balance stake a_good.1 cents,
          safe_subtract-cents b.locked_balance stake b_good.1 cents,
          safe_add-cents a.available_balance (payout stake fee) a_good.0 pay_cents,
          not_below a.locked_balance stake a_covers,
          not_below b.locked_balance stake b_covers,
          sum_not_negative a.available_balance (payout stake fee) a_good.2 (less _ h_pay),
        )
        (pair-Returns (λ w' l'. write_settlement_winner w' l' stake (payout stake fee) bet_id)
          (λ w' l'. (w', l')) (winner_entries stake (payout stake fee) bet_id) (λ _ _ _. refl) first
          second distinct a b db (some (a.available_balance +ℤ payout stake fee))
          (some (a.locked_balance -ℤ stake)) none (some (b.locked_balance -ℤ stake)) at_a at_b)

  pub settle_no_winner-Returns :
      (fee refund : Decimal) (bet_id : Uuid)
      → pos 0 ≤ℤ refund
      → IsCents refund
      → Returns (settle_no_winner first second stake fee refund bet_id db)
  unfolding settle_no_winner verify_non_negative write_settlement_no_winner
  settle_no_winner-Returns fee refund bet_id h_refund refund_cents =
      rw
        (
          get_both-found first second db a b at_a at_b,
          at_least a.locked_balance stake a_covers,
          at_least b.locked_balance stake b_covers,
          safe_subtract-cents a.locked_balance stake a_good.1 cents,
          safe_subtract-cents b.locked_balance stake b_good.1 cents,
          safe_add-cents a.available_balance refund a_good.0 refund_cents,
          safe_add-cents b.available_balance refund b_good.0 refund_cents,
          not_below a.locked_balance stake a_covers,
          not_below b.locked_balance stake b_covers,
          sum_not_negative a.available_balance refund a_good.2 h_refund,
          sum_not_negative b.available_balance refund b_good.2 h_refund,
        )
        (pair-Returns (λ c' o'. write_settlement_no_winner c' o' fee refund bet_id) (λ _ _. tt)
          (no_winner_entries fee refund bet_id) (λ _ _ _. refl) first second distinct a b db
          (some (a.available_balance +ℤ refund)) (some (a.locked_balance -ℤ stake))
          (some (b.available_balance +ℤ refund)) (some (b.locked_balance -ℤ stake)) at_a at_b)
