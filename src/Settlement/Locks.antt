-- ===== src/Settlement/Locks.antt =====
-- What a settlement does to the locked balances (app/services/settlement_service.py).
use buddy_bet_v.Prelude.{
  ℕ-eq, ◌≡◌, ◌≢◌, refl, sym, Option, Bool-cases, inl, inr, some, List, [], arith, ◌∙◌, ◌==◌,
  if◌then◌else◌,
}
use buddy_bet_v.Prelude.Int.{ℤ, pos, ◌+ℤ◌, ◌-ℤ◌, int_laws}
use buddy_bet_v.Exec.{Result, ok, err}
use buddy_bet_v.Exec.OnOk.{OnOk, OnOk-bind, OnOk-map}
use buddy_bet_v.Money.{Decimal}
use buddy_bet_v.Money.Cents.{IsCents, IsCents-safe_subtract}
use buddy_bet_v.Models.{Uuid, Wallet, LedgerEntry, Bet, Database}
use buddy_bet_v.Models.Enums.{SettlementOutcome, creator_wins, opponent_wins, no_winner, voided}
use buddy_bet_v.Wallet.{wallet_of}
use buddy_bet_v.Wallet.Rows.{user_of-found}
use buddy_bet_v.Wallet.Posting.{AllGood, post}
use buddy_bet_v.Wallet.Reconcile.{wallet_of-post}
use buddy_bet_v.Wallet.Pair.{Changes, PairPosted, second-after_first}
use buddy_bet_v.Wallet.TransferMoves.{
  winner_changes, winner_entries, payout, transfer_locked_funds-Posted,
}
use buddy_bet_v.Wallet.Transfer.{transfer_locked_funds}
use buddy_bet_v.Settlement.{settle_winner, settle_without_winner, settle_wallets}
use buddy_bet_v.Settlement.Amounts.{compute_winner_amounts, compute_no_winner_amounts}
use buddy_bet_v.Settlement.NoWinner.{settle_no_winner}
use buddy_bet_v.Settlement.NoWinnerMoves.{
  refund_changes, no_winner_entries, settle_no_winner-Posted,
}

-- What the locked balance of a user gains.
abbrev pub gain : Uuid → Uuid → Decimal → Decimal
gain j user amount = if j == user then amount else pos 0

abbrev pub LocksMoved : Uuid → Uuid → Decimal → Database → Database → Type 0
LocksMoved first second amount db db' =
    (j : Uuid) (w' : Wallet)
    → wallet_of j db' ≡ some w'
    → (w : Wallet) × (wallet_of j db ≡ some w)
      × (w'.locked_balance ≡ w.locked_balance +ℤ (gain j first amount +ℤ gain j second amount))

LocksMoved-swap :
    (first second : Uuid) (amount : Decimal) (db db' : Database)
    → LocksMoved first second amount db db'
    → LocksMoved second first amount db db'
LocksMoved-swap first second amount db db' moved j w' found =
    let (w, before, e) = moved j w' found in
    (w, before, e ∙ swap w.locked_balance (gain j first amount) (gain j second amount))
  where
    swap : (l x y : ℤ) → l +ℤ (x +ℤ y) ≡ l +ℤ (y +ℤ x)
    swap l x y = omega int_laws

at_first : (l x : ℤ) → l +ℤ x ≡ l +ℤ (x +ℤ pos 0)
at_first l x = omega int_laws

at_second : (l x : ℤ) → l +ℤ x ≡ l +ℤ (pos 0 +ℤ x)
at_second l x = omega int_laws

at_neither : (l : ℤ) → l ≡ l +ℤ (pos 0 +ℤ pos 0)
at_neither l = omega int_laws

-- One user, before and after: he is one of the two or neither.
module _ (first second : Uuid) (distinct : first ≢ second) where
  locks_at :
      (j : Uuid) (w' : Wallet) (amount : Decimal) (a b a' b' : Wallet)
      → (now then_ before : Option Wallet) → now ≡ (if j == second then some b' else then_)
      → then_ ≡ (if j == first then some a' else before)
      → (j ≡ first → before ≡ some a)
      → (j ≡ second → before ≡ some b)
      → a'.locked_balance ≡ a.locked_balance +ℤ amount
      → b'.locked_balance ≡ b.locked_balance +ℤ amount
      → now ≡ some w'
      → (w : Wallet) × (before ≡ some w)
        × (w'.locked_balance ≡ w.locked_balance +ℤ (gain j first amount +ℤ gain j second amount))
  locks_at j w' amount a b a' b' now then_ before e2 e1 was_a was_b la lb found =
      elim (Bool-cases (j == second)) [
        | inl h2 ↦ (b, ground (arith, was_b), ground (arith, at_second b.locked_balance amount))
        | inr h2 ↦ elim (Bool-cases (j == first)) [
          | inl h1 ↦ (a, ground (arith, was_a), ground (arith, at_first a.locked_balance amount))
          | inr h1 ↦ (w', ground arith, ground (arith, at_neither w'.locked_balance))
        ]
      ]

module _ {A : Type 0} (first second : Uuid) (distinct : first ≢ second) (c : Changes)
    (same : c.second_locked ≡ c.first_locked) (entries : Wallet → Wallet → List LedgerEntry)
    (db : Database) where
  PairPosted-LocksMoved :
      (out : Result A × Database)
      → PairPosted first second c entries db out
      → OnOk (λ _ db'. LocksMoved first second c.first_locked db db') out
  PairPosted-LocksMoved (err e, db') posted = tt
  PairPosted-LocksMoved (ok _, db')
        (a, b, a', b', at_a, at_b, a'_is, b'_is, a'_good, b'_good, db'_is) =
      let key_a : a'.user_id ≡ first = rw a'_is (user_of-found first db a at_a) in
      let key_b : b'.user_id ≡ second = rw b'_is (user_of-found second db b at_b) in
      let db1 = post first a' [] db in
      rw db'_is λ j w' found.
        locks_at first second distinct j w' c.first_locked a b a' b'
          (wallet_of j (post second b' (entries a' b') db1)) (wallet_of j db1) (wallet_of j db)
          (wallet_of-post second b b' (entries a' b') db1
            (second-after_first first second distinct db a b a' at_a at_b key_a) key_b j)
          (wallet_of-post first a a' [] db at_a key_a j) (λ is_first. ground (arith, at_a))
          (λ is_second. ground (arith, at_b)) (rw a'_is refl) (rw (b'_is, same) refl) found

module _ (bet : Bet) (db : Database) (good : AllGood db) (cents : IsCents bet.stake_amount) where
  abbrev left : Decimal
  left = pos 0 -ℤ bet.stake_amount

  settle_winner-LocksMoved :
      (winner loser : Uuid)
      → winner ≢ loser
      → (rate : Decimal)
      → OnOk (λ _ db'. LocksMoved winner loser left db db') (settle_winner bet winner loser rate db)
  unfolding settle_winner
  settle_winner-LocksMoved winner loser distinct rate =
      let fee = (compute_winner_amounts bet.stake_amount rate).1 in
      let P : Database → Type 0 = λ db'. LocksMoved winner loser left db db' in
      OnOk-bind (λ _ db'. P db') (λ _ db'. P db')
        (transfer_locked_funds winner loser bet.stake_amount fee bet.id) _ db
        (PairPosted-LocksMoved winner loser distinct (winner_changes bet.stake_amount fee) refl
          (winner_entries bet.stake_amount (payout bet.stake_amount fee) bet.id) db
          (transfer_locked_funds winner loser bet.stake_amount fee bet.id db)
          (transfer_locked_funds-Posted winner loser distinct bet.stake_amount fee bet.id db good
            cents))
        (λ _ db' moved. moved)

  settle_without_winner-LocksMoved :
      (opponent : Uuid)
      → bet.creator_id ≢ opponent
      → (rate : Decimal)
      → OnOk
          (λ _ db'. LocksMoved bet.creator_id opponent left db db')
          (settle_without_winner bet opponent rate db)
  unfolding settle_without_winner
  settle_without_winner-LocksMoved opponent distinct rate =
      let (refund, fee) = compute_no_winner_amounts bet.stake_amount rate in
      let P : Database → Type 0 = λ db'. LocksMoved bet.creator_id opponent left db db' in
      OnOk-bind (λ _ db'. P db') (λ _ db'. P db')
        (settle_no_winner bet.creator_id opponent bet.stake_amount fee refund bet.id) _ db
        (PairPosted-LocksMoved bet.creator_id opponent distinct
          (refund_changes bet.stake_amount refund) refl (no_winner_entries fee refund bet.id) db
          (settle_no_winner bet.creator_id opponent bet.stake_amount fee refund bet.id db)
          (settle_no_winner-Posted bet.creator_id opponent distinct bet.stake_amount fee refund
            bet.id db good cents (IsCents-safe_subtract _ _)))
        (λ _ db' moved. moved)

  pub settle_wallets-LocksMoved :
      (opponent : Uuid) (outcome : SettlementOutcome) (w n : Decimal)
      → bet.creator_id ≢ opponent
      → OnOk
          (λ _ db'. LocksMoved bet.creator_id opponent left db db')
          (settle_wallets bet opponent outcome w n db)
  unfolding settle_wallets
  settle_wallets-LocksMoved opponent creator_wins w n distinct =
      settle_winner-LocksMoved bet.creator_id opponent distinct w
  settle_wallets-LocksMoved opponent opponent_wins w n distinct =
      OnOk-map (λ _ db'. LocksMoved opponent bet.creator_id left db db')
        (λ _ db'. LocksMoved bet.creator_id opponent left db db')
        (settle_winner bet opponent bet.creator_id w db)
        (λ _ db' moved. LocksMoved-swap opponent bet.creator_id left db db' moved)
        (settle_winner-LocksMoved opponent bet.creator_id (λ e. distinct (sym e)) w)
  settle_wallets-LocksMoved opponent no_winner w n distinct =
      settle_without_winner-LocksMoved opponent distinct n
  settle_wallets-LocksMoved opponent voided w n distinct =
      settle_without_winner-LocksMoved opponent distinct n
