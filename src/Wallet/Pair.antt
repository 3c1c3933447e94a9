-- ===== src/Wallet/Pair.antt =====
-- What a settlement promises of the wallets: it raises and leaves the database alone, or it moves the
-- balances of two different wallets and inserts entries about both.
use buddy_bet_v.Prelude.{ℕ-eq, ◌≡◌, ◌≢◌, ap, ◌∙◌, some, List, [], ◌++◌, arith, ◌==◌, if◌then◌else◌}
use buddy_bet_v.Prelude.Int.{pos, ◌+ℤ◌, int_laws, add_zero, add_sub_cancel, shift}
use buddy_bet_v.Exec.{Result, ok, err}
use buddy_bet_v.Exec.OnOk.{OnOk}
use buddy_bet_v.Money.{Decimal}
use buddy_bet_v.Models.{Uuid, Wallet, LedgerEntry, Database}
use buddy_bet_v.Models.Enums.{BalanceField}
use buddy_bet_v.Ledger.{ledger_balance}
use buddy_bet_v.Wallet.{wallet_of}
use buddy_bet_v.Wallet.Rows.{user_of-found}
use buddy_bet_v.Wallet.Posting.{AllGood, IsGood, balance, moved, post}
use buddy_bet_v.Wallet.Reconcile.{
  IsReconciled, change, change-moved, holdings, total_holdings, wallet_of-post, post-AllGood,
  total-post,
}

-- The balance changes of a pair of wallets.
pub record Changes : Type 0 where
  pub first_available : Decimal
  pub first_locked : Decimal
  pub second_available : Decimal
  pub second_locked : Decimal

abbrev pub PairPosted :
    {A : Type 0}
    → Uuid
    → Uuid
    → Changes
    → (Wallet → Wallet → List LedgerEntry)
    → Database
    → Result A × Database
    → Type 0
PairPosted first second c entries db (err e, db') = db' ≡ db
PairPosted first second c entries db (ok _, db') =
    (a : Wallet) × (b : Wallet) × (a' : Wallet) × (b' : Wallet) × (wallet_of first db ≡ some a)
    × (wallet_of second db ≡ some b)
    × (a' ≡ moved c.first_available c.first_locked a)
    × (b' ≡ moved c.second_available c.second_locked b)
    × IsGood a'
    × IsGood b'
    × (db' ≡ post second b' (entries a' b') (post first a' [] db))

-- The entries add up to the changes of the two, and are about no one else.
abbrev pub PairNets : Changes → (Wallet → Wallet → List LedgerEntry) → Type 0
PairNets c entries =
    (a b : Wallet) (user : Uuid) (field : BalanceField) (rest : List LedgerEntry)
    → a.user_id ≢ b.user_id
    → ledger_balance user field (entries a b ++ rest)
      ≡ ledger_balance user field rest
        +ℤ (if user == a.user_id
            then change field c.first_available c.first_locked
            else if user == b.user_id
            then change field c.second_available c.second_locked
            else pos 0)

-- The second row is still there after the first was written.
pub second-after_first :
    (first second : Uuid)
    → first ≢ second
    → (db : Database) → (a b a' : Wallet) → wallet_of first db ≡ some a
    → wallet_of second db ≡ some b
    → a'.user_id ≡ first
    → wallet_of second (post first a' [] db) ≡ some b
second-after_first first second distinct db a b a' at_first at_second key =
    ground (arith, wallet_of-post first a a' [] db at_first key second)

module _ {A : Type 0} (first second : Uuid) (distinct : first ≢ second) (c : Changes)
    (entries : Wallet → Wallet → List LedgerEntry) (db : Database) where
  pub PairPosted-AllGood :
      (out : Result A × Database)
      → PairPosted first second c entries db out
      → AllGood db
      → AllGood out.1
  PairPosted-AllGood (err e, db') same good = rw same good
  PairPosted-AllGood (ok _, db') (a, b, a', b', at_a, at_b, a'_is, b'_is, a'_good, b'_good, db'_is)
        good =
      let key_a : a'.user_id ≡ first = rw a'_is (user_of-found first db a at_a) in
      let key_b : b'.user_id ≡ second = rw b'_is (user_of-found second db b at_b) in
      rw db'_is (
        post-AllGood second b b' (entries a' b') (post first a' [] db)
          (second-after_first first second distinct db a b a' at_a at_b key_a) key_b b'_good
          (post-AllGood first a a' [] db at_a key_a a'_good good))

  pub PairPosted-IsReconciled :
      (out : Result A × Database)
      → PairPosted first second c entries db out
      → PairNets c entries
      → IsReconciled db
      → IsReconciled out.1
  PairPosted-IsReconciled (err e, db') same nets h = rw same h
  PairPosted-IsReconciled (ok _, db')
        (a, b, a', b', at_a, at_b, a'_is, b'_is, a'_good, b'_good, db'_is) nets h =
      let key_a : a'.user_id ≡ first = rw a'_is (user_of-found first db a at_a) in
      let key_b : b'.user_id ≡ second = rw b'_is (user_of-found second db b at_b) in
      let db1 = post first a' [] db in
      rw db'_is λ j field x at_j. ground (
        arith,
        wallet_of-post second b b' (entries a' b') db1
            (second-after_first first second distinct db a b a' at_a at_b key_a) key_b j,
        wallet_of-post first a a' [] db at_a key_a j,
        nets a' b' j field db.ledger_entries,
        h first field a,
        h second field b,
        h j field x,
        change-moved field c.first_available c.first_locked a a',
        change-moved field c.second_available c.second_locked b b',
        add_sub_cancel (balance field a) (balance field a'),
        add_sub_cancel (balance field b) (balance field b'),
        add_zero (ledger_balance j field db.ledger_entries),
      )

  pub PairPosted-total :
      (result : A) (db' : Database)
      → PairPosted first second c entries db (ok result, db')
      → total_holdings db'
        ≡ total_holdings db
          +ℤ (c.first_available +ℤ c.first_locked)
          +ℤ (c.second_available +ℤ c.second_locked)
  PairPosted-total result db' (a, b, a', b', at_a, at_b, a'_is, b'_is, a'_good, b'_good, db'_is) =
      let key_a : a'.user_id ≡ first = rw a'_is (user_of-found first db a at_a) in
      let key_b : b'.user_id ≡ second = rw b'_is (user_of-found second db b at_b) in
      let db1 = post first a' [] db in
      rw db'_is (
        shift (total_holdings db1) _ (holdings b) (holdings b')
          (c.second_available +ℤ c.second_locked)
          (total-post second b b' (entries a' b') db1
            (second-after_first first second distinct db a b a' at_a at_b key_a) key_b)
          (rw b'_is (omega int_laws))
        ∙ ap (λ (t : Decimal). t +ℤ (c.second_available +ℤ c.second_locked))
            (shift (total_holdings db) _ (holdings a) (holdings a')
              (c.first_available +ℤ c.first_locked) (total-post first a a' [] db at_a key_a)
              (rw a'_is (omega int_laws))))

-- Nothing but wallets and ledger entries was written, and the fee has left the wallets.
abbrev pub FeeTaken : Decimal → Database → Database → Type 0
FeeTaken fee db db' =
    AllGood db'
    × (IsReconciled db → IsReconciled db')
    × (total_holdings db' +ℤ fee ≡ total_holdings db)
    × (db' ≡ record db { wallets = db'.wallets; ledger_entries = db'.ledger_entries })

module _ {A : Type 0} (first second : Uuid) (distinct : first ≢ second) (c : Changes)
    (entries : Wallet → Wallet → List LedgerEntry) (db : Database) where
  pub PairPosted-FeeTaken :
      (fee : Decimal) (result : A) (db' : Database)
      → PairPosted first second c entries db (ok result, db')
      → PairNets c entries
      → AllGood db
      → ((t : Decimal)
          → t
              +ℤ (c.first_available +ℤ c.first_locked)
              +ℤ (c.second_available +ℤ c.second_locked)
              +ℤ fee
            ≡ t)
      → FeeTaken fee db db'
  PairPosted-FeeTaken fee result db' posted nets good balanced = (
    PairPosted-AllGood first second distinct c entries db (ok result, db') posted good,
    PairPosted-IsReconciled first second distinct c entries db (ok result, db') posted nets,
    rw (PairPosted-total first second distinct c entries db result db' posted)
        (balanced (total_holdings db)),
    rw posted.10,
  )

  pub PairPosted-OnOk :
      (fee : Decimal) (out : Result A × Database)
      → PairPosted first second c entries db out
      → PairNets c entries
      → AllGood db
      → ((t : Decimal)
          → t
              +ℤ (c.first_available +ℤ c.first_locked)
              +ℤ (c.second_available +ℤ c.second_locked)
              +ℤ fee
            ≡ t)
      → OnOk (λ _ db'. FeeTaken fee db db') out
  PairPosted-OnOk fee (err e, db') posted nets good balanced = tt
  PairPosted-OnOk fee (ok result, db') posted nets good balanced =
      PairPosted-FeeTaken fee result db' posted nets good balanced
