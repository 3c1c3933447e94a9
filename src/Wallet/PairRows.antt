-- ===== src/Wallet/PairRows.antt =====
-- Reading and writing the rows of two different wallets.
use buddy_bet_v.Prelude.{
  ℕ-eq, ◌≡◌, ◌≢◌, refl, inl, inr, Option, none, some, List, [], ◌++◌, leb, Bool-cases, Option-cases,
}
use buddy_bet_v.Exec.{ok, err, Exec, not_found, pure, ◌>>=◌, ◌>>◌}
use buddy_bet_v.Money.{Decimal}
use buddy_bet_v.Models.{Uuid, Wallet, LedgerEntry, Database}
use buddy_bet_v.Wallet.{wallet_of, with_balances, update_balances}
use buddy_bet_v.Wallet.Rows.{get-found, get-missing, user_of-found, update_balances-found}
use buddy_bet_v.Wallet.Posting.{IsGood, moved, post}
use buddy_bet_v.Wallet.Pair.{Changes, PairPosted, second-after_first}
use buddy_bet_v.Wallet.Transfer.{get_both_for_update}

module _ (first second : Uuid) (db : Database) where
  pub get_both-found :
      (a b : Wallet)
      → wallet_of first db ≡ some a
      → wallet_of second db ≡ some b
      → get_both_for_update first second db ≡ (ok (a, b), db)
  unfolding get_both_for_update
  get_both-found a b at_a at_b = elim (Bool-cases (leb first second)) [
    | inl e ↦ rw (e, get-found first db a at_a) (rw (get-found second db b at_b))
    | inr e ↦ rw (e, get-found second db b at_b) (rw (get-found first db a at_a))
  ]

  pub get_both-missing_first :
      wallet_of first db ≡ none → get_both_for_update first second db ≡ (err not_found, db)
  unfolding get_both_for_update
  get_both-missing_first missing = elim (Bool-cases (leb first second)) [
    | inl e ↦ rw (e, get-missing first db missing)
    | inr e ↦ rw e (elim (Option-cases (wallet_of second db)) [
      | inl other ↦ rw (get-missing second db other)
      | inr (b, at_b) ↦ rw (get-found second db b at_b) (rw (get-missing first db missing))
    ])
  ]

  pub get_both-missing_second :
      (a : Wallet)
      → wallet_of first db ≡ some a
      → wallet_of second db ≡ none
      → get_both_for_update first second db ≡ (err not_found, db)
  unfolding get_both_for_update
  get_both-missing_second a at_a missing = elim (Bool-cases (leb first second)) [
    | inl e ↦ rw (e, get-found first db a at_a) (rw (get-missing second db missing))
    | inr e ↦ rw (e, get-missing second db missing)
  ]

-- The end that both settlement paths share: write both rows, insert the entries, return.
module _ {A : Type 0} (writer : Wallet → Wallet → Exec Database (Unit {0}))
    (result : Wallet → Wallet → A) (entries : Wallet → Wallet → List LedgerEntry)
    (inserts : (a b : Wallet) (db : Database)
      → writer a b db
        ≡ (ok tt, record db { ledger_entries = entries a b ++ db.ledger_entries })) where
  pub pair-tail :
      (first second : Uuid)
      → first ≢ second
      → (c : Changes) (a b : Wallet) (db : Database) (av lk av' lk' : Option Decimal)
      → wallet_of first db ≡ some a
      → wallet_of second db ≡ some b
      → with_balances av lk a ≡ moved c.first_available c.first_locked a
      → with_balances av' lk' b ≡ moved c.second_available c.second_locked b
      → IsGood (with_balances av lk a)
      → IsGood (with_balances av' lk' b)
      → PairPosted first second c entries db (
          (update_balances a av lk >>= λ a'.
          update_balances b av' lk' >>= λ b'. writer a' b' >> pure (result a' b'))
            db)
  pair-tail first second distinct c a b db av lk av' lk' at_a at_b a_is b_is a_good b_good =
      let a' = with_balances av lk a in
      let b' = with_balances av' lk' b in
      let key : a'.user_id ≡ first = user_of-found first db a at_a in
      let still = second-after_first first second distinct db a b a' at_a at_b key in
      rw
        (
          update_balances-found first av lk a db at_a,
          update_balances-found second av' lk' b (post first a' [] db) still,
          inserts,
        )
        (a, b, a', b', at_a, at_b, a_is, b_is, a_good, b_good, refl)
