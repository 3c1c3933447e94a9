-- ===== src/Platform/Latest.antt =====
-- Which fee rate the search finds (app/repositories/fee_config_repository.py).
use buddy_bet_v.Prelude.{
  ◌≡◌, refl, subst, arith, some, none, Option, List, [], ◌∷◌, Bool, true, false, not, ◌&&◌, ◌||◌,
  leb, ltb, String, if◌then◌else◌,
}
use buddy_bet_v.Models.{DateTime, FeeConfig}
use buddy_bet_v.Models.Enums.{FeeType}
use buddy_bet_v.Platform.{applies, later, latest}

-- No later than a row.
abbrev is_up_to : FeeConfig → Option FeeConfig → Bool
is_up_to row none = true
is_up_to row (some best) = leb best.effective_from row.effective_from

-- No row that applies is later than `found`.
abbrev pub none_later : FeeType → String → DateTime → FeeConfig → List FeeConfig → Bool
none_later fee_type currency as_of found [] = true
none_later fee_type currency as_of found (row ∷ rows) =
    (not (applies fee_type currency as_of row) || leb row.effective_from found.effective_from)
    && none_later fee_type currency as_of found rows

step-is_up_to :
    (found row : FeeConfig) (best : Option FeeConfig) (b : Bool)
    → is_up_to found (if b then later best row else best) ≡ true
    → ((not b || leb row.effective_from found.effective_from) ≡ true) × (is_up_to found best ≡ true)
step-is_up_to found row none true h = (h, refl)
step-is_up_to found row none false h = (refl, refl)
step-is_up_to found row (some best) true h = ground arith
step-is_up_to found row (some best) false h = (refl, h)

latest-is_up_to :
    (fee_type : FeeType) (currency : String) (as_of : DateTime) (found : FeeConfig)
    → (best : Option FeeConfig) (rows : List FeeConfig)
    → latest fee_type currency as_of best rows ≡ some found
    → (none_later fee_type currency as_of found rows ≡ true) × (is_up_to found best ≡ true)
unfolding latest
latest-is_up_to fee_type currency as_of found none [] h = (refl, refl)
latest-is_up_to fee_type currency as_of found (some best) [] h = (refl, ground arith)
latest-is_up_to fee_type currency as_of found best (row ∷ rows) h =
    let b = applies fee_type currency as_of row in
    let (rest, up_to) =
      latest-is_up_to fee_type currency as_of found (if b then later best row else best) rows h in
    let (here, before) = step-is_up_to found row best b up_to in (rw (here, rest) refl, before)

-- A row that applies, or none yet.
abbrev applies_if_some : FeeType → String → DateTime → Option FeeConfig → Bool
applies_if_some fee_type currency as_of none = true
applies_if_some fee_type currency as_of (some row) = applies fee_type currency as_of row

later-applies :
    (fee_type : FeeType) (currency : String) (as_of : DateTime) (best : Option FeeConfig)
    (row : FeeConfig)
    → applies_if_some fee_type currency as_of best ≡ true
    → (b : Bool) → applies fee_type currency as_of row ≡ b
    → applies_if_some fee_type currency as_of (if b then later best row else best) ≡ true
later-applies fee_type currency as_of best row h false e = h
later-applies fee_type currency as_of none row h true e = e
later-applies fee_type currency as_of (some best) row h true e =
    pick (ltb best.effective_from row.effective_from)
  where
    pick :
        (t : Bool)
        → applies_if_some fee_type currency as_of (if t then some row else some best) ≡ true
    pick true = e
    pick false = h

latest-applies :
    (fee_type : FeeType) (currency : String) (as_of : DateTime) (found : FeeConfig)
    → (best : Option FeeConfig) (rows : List FeeConfig)
    → latest fee_type currency as_of best rows ≡ some found
    → applies_if_some fee_type currency as_of best ≡ true
    → applies fee_type currency as_of found ≡ true
unfolding latest
latest-applies fee_type currency as_of found none [] h a = absurd (ground arith)
latest-applies fee_type currency as_of found (some best) [] h a =
    subst (λ o. applies_if_some fee_type currency as_of o ≡ true) h a
latest-applies fee_type currency as_of found best (row ∷ rows) h a =
    let b = applies fee_type currency as_of row in
    latest-applies fee_type currency as_of found (if b then later best row else best) rows h
      (later-applies fee_type currency as_of best row a b refl)

-- The row that the search finds applies (it is of the fee type and the currency, and in effect at the
-- moment asked for), and no row that applies is in effect from a later moment.
pub latest-none_later :
    (fee_type : FeeType) (currency : String) (as_of : DateTime) (rows : List FeeConfig)
    → (found : FeeConfig) → latest fee_type currency as_of none rows ≡ some found
    → (applies fee_type currency as_of found ≡ true)
      × (none_later fee_type currency as_of found rows ≡ true)
latest-none_later fee_type currency as_of rows found h = (
  latest-applies fee_type currency as_of found none rows h refl,
  (latest-is_up_to fee_type currency as_of found none rows h).0,
)
