-- ===== src/Table.antt =====
-- A database table as the list of its rows, found and updated by a column that is unique in it.
use buddy_bet_v.Prelude.{
  ◌≡◌, subst, inl, inr, Bool-cases, Option, none, some, List, [], ◌∷◌, arith, Eq, ◌==◌,
  if◌then◌else◌,
}
use buddy_bet_v.Prelude.Int.{ℤ, pos, ◌+ℤ◌, int_laws}
use mathlib.Core.Option

module _ {K R : Type 0} ⦃e : Eq K⦄ (key : R → K) where
  -- `select(R).where(R.key == k)`, `scalar_one_or_none`
  abbrev pub find : K → List R → Option R
  find k [] = none
  find k (r ∷ rows) = if key r == k then some r else find k rows

  -- The flush of changes to the row that has the key.
  abbrev pub update : K → (R → R) → List R → List R
  update k f [] = []
  update k f (r ∷ rows) = if key r == k then f r ∷ rows else r ∷ update k f rows

  pub find-key : (k : K) (r : R) (rows : List R) → find k rows ≡ some r → key r ≡ k
  find-key k r [] h = ground arith
  find-key k r (x ∷ rows) h = ground (arith, find-key k r rows, e.equal_iff (key x) k)

  pub find-update :
      (j k : K) (f : R → R) (rows : List R)
      → ((r : R) → key (f r) ≡ key r)
      → find j (update k f rows) ≡ (if j == k then Option.map f (find j rows) else find j rows)
  find-update j k f [] same = ground arith
  find-update j k f (x ∷ rows) same = ground (
    arith,
    find-update j k f rows same,
    same x,
    e.equal_iff (key x) k,
    e.equal_iff (key x) j,
    e.equal_iff j k,
  )

  -- An update writes the one row that was found.
  pub update-found :
      (k : K) (f : R → R) (r : R) (rows : List R)
      → find k rows ≡ some r
      → update k f rows ≡ update k (λ _. f r) rows
  update-found k f r [] h = ground arith
  update-found k f r (x ∷ rows) h = ground (arith, update-found k f r rows)

  -- Writing a row with the same key is seen at that key and at no other.
  pub find-set :
      (j k : K) (new r : R) (rows : List R)
      → find k rows ≡ some r
      → key new ≡ k
      → find j (update k (λ _. new) rows) ≡ (if j == k then some new else find j rows)
  find-set j k new r [] h same = ground arith
  find-set j k new r (x ∷ rows) h same = ground (
    arith,
    find-set j k new r rows,
    e.equal_iff (key new) j,
    e.equal_iff (key x) k,
    e.equal_iff (key x) j,
    e.equal_iff j k,
  )

-- What holds of every row holds of the row that is found.
abbrev pub AllRows : {K R : Type 0} → (R → K) → (K → R → Type 0) → List R → Type 0
AllRows key P [] = Unit {0}
AllRows key P (r ∷ rows) = P (key r) r × AllRows key P rows

module _ {K R : Type 0} ⦃e : Eq K⦄ (key : R → K) (P : K → R → Type 0) where
  pub find-all :
      (rows : List R) → AllRows key P rows → (k : K) (r : R) → find key k rows ≡ some r → P k r
  find-all [] all k r h = absurd (ground arith)
  find-all (x ∷ rows) all k r h = elim (Bool-cases (key x == k)) [
    | inl hit ↦
        let same : x ≡ r = ground arith in
        subst (λ j. P j r) ((e.equal_iff (key x) k).0 hit) (subst (λ y. P (key x) y) same all.0)
    | inr miss ↦ find-all rows all.1 k r (ground arith)
  ]

-- The sum of a column.
abbrev pub total : {R : Type 0} → (R → ℤ) → List R → ℤ
total v [] = pos 0
total v (r ∷ rows) = v r +ℤ total v rows

module _ {K R : Type 0} ⦃e : Eq K⦄ (key : R → K) where
  pub total-update :
      (v : R → ℤ) (k : K) (f : R → R) (r : R) (rows : List R)
      → find key k rows ≡ some r
      → total v (update key k f rows) +ℤ v r ≡ total v rows +ℤ v (f r)
  total-update v k f r [] h = ground arith
  total-update v k f r (x ∷ rows) h = grind (int_laws, total-update v k f r rows)
