-- ===== src/Prelude/Int.antt =====
-- Signed integers over the native numbers. Sums and orders go through the two parts of an integer,
-- which are numbers that `omega` reads.
use buddy_bet_v.Prelude.Tests.{ltb, leb, nat_eq, Eq, if◌then◌else◌}
use Prim.Native.Nat.{ℕ, suc, ◌+◌, ◌-◌, ◌*◌, ◌≤◌, ◌<◌}
use mathlib.Core.Path.{◌≡◌, ap}
use mathlib.Core.Bool.{Bool, true, false}
use mathlib.Core.Logic.{◌↔◌}
use native.Mathlib.Omega.{arith}

-- `negsuc n` is -(n + 1).
pub data ℤ : Type 0 where
  pos : ℕ → ℤ
  negsuc : ℕ → ℤ

abbrev pub pos_part : ℤ → ℕ
pos_part (pos n) = n
pos_part (negsuc n) = 0

abbrev pub neg_part : ℤ → ℕ
neg_part (pos n) = 0
neg_part (negsuc n) = suc n

-- a - b, as an integer.
abbrev pub sub_ℕ : ℕ → ℕ → ℤ
sub_ℕ a b = if leb b a then pos (a - b) else negsuc (b - a - 1)

infixl 65 ◌+ℤ◌ ◌-ℤ◌
infixl 70 ◌*ℤ◌
infix 50 ◌≤ℤ◌ ◌<ℤ◌
unfoldable pub ◌+ℤ◌ : ℤ → ℤ → ℤ
a +ℤ b = sub_ℕ (pos_part a + pos_part b) (neg_part a + neg_part b)

unfoldable pub ◌-ℤ◌ : ℤ → ℤ → ℤ
a -ℤ b = sub_ℕ (pos_part a + neg_part b) (neg_part a + pos_part b)

unfoldable pub ◌*ℤ◌ : ℤ → ℤ → ℤ
a *ℤ b =
    sub_ℕ (pos_part a * pos_part b + neg_part a * neg_part b)
      (pos_part a * neg_part b + neg_part a * pos_part b)

abbrev pub ◌≤ℤ◌ : ℤ → ℤ → Type 0
a ≤ℤ b = pos_part a + neg_part b ≤ pos_part b + neg_part a

abbrev pub ◌<ℤ◌ : ℤ → ℤ → Type 0
a <ℤ b = pos_part a + neg_part b < pos_part b + neg_part a

abbrev pub ltb_ℤ : ℤ → ℤ → Bool
ltb_ℤ a b = ltb (pos_part a + neg_part b) (pos_part b + neg_part a)

abbrev pub leb_ℤ : ℤ → ℤ → Bool
leb_ℤ a b = leb (pos_part a + neg_part b) (pos_part b + neg_part a)

abbrev pub ℤ-equal : ℤ → ℤ → Bool
ℤ-equal (pos m) (pos n) = nat_eq m n
ℤ-equal (negsuc m) (negsuc n) = nat_eq m n
ℤ-equal _ _ = false

pub ℤ-equal_iff : (a b : ℤ) → (ℤ-equal a b ≡ true) ↔ (a ≡ b)
ℤ-equal_iff a b = ground arith

instance abbrev pub ℤ-eq : Eq ℤ
ℤ-eq = record { equal = ℤ-equal; equal_iff = ℤ-equal_iff }

-- One lemma for each operation lets `omega` work with the operations shut, at any depth.
pub +ℤ_parts :
    (a b : ℤ)
    → pos_part (a +ℤ b) + neg_part a + neg_part b ≡ neg_part (a +ℤ b) + pos_part a + pos_part b
unfolding ◌+ℤ◌
+ℤ_parts a b = ground arith

pub -ℤ_parts :
    (a b : ℤ)
    → pos_part (a -ℤ b) + neg_part a + pos_part b ≡ neg_part (a -ℤ b) + pos_part a + neg_part b
unfolding ◌-ℤ◌
-ℤ_parts a b = ground arith

pub eq_of_parts : (a b : ℤ) → pos_part a + neg_part b ≡ pos_part b + neg_part a → a ≡ b
eq_of_parts a b h = ground arith

pub ruleset int_laws = (arith, +ℤ_parts, -ℤ_parts, eq_of_parts)

pub sub-as-add : (a b : ℤ) → a -ℤ b ≡ a +ℤ (pos 0 -ℤ b)
sub-as-add a b = omega int_laws

pub add_zero : (a : ℤ) → a +ℤ pos 0 ≡ a
add_zero a = omega int_laws

pub add_sub_cancel : (a b : ℤ) → a +ℤ (b -ℤ a) ≡ b
add_sub_cancel a b = omega int_laws

pub sub_add_cancel : (a b : ℤ) → (a +ℤ b) -ℤ a ≡ b
sub_add_cancel a b = omega int_laws

-- A sum changes as the one term that changes in it.
pub shift :
    (sum sum' term term' change : ℤ)
    → sum' +ℤ term ≡ sum +ℤ term'
    → term' ≡ term +ℤ change
    → sum' ≡ sum +ℤ change
shift sum sum' term term' change e k =
    omega (int_laws, ap pos_part e, ap neg_part e, ap pos_part k, ap neg_part k)
