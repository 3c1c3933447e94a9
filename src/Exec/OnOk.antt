-- ===== src/Exec/OnOk.antt =====
-- Postconditions of blocks that may raise: what holds when the block returns.
use buddy_bet_v.Prelude.{◌≡◌, refl, subst, Bool, true, false, Option, none, some}
use buddy_bet_v.Exec.{
  Error, Result, ok, err, Exec, raise_if, some_or_raise, continue, transaction, settle, ◌>>=◌, ◌>>◌,
}

abbrev pub OnOk : {A S : Type 0} → (A → S → Type 0) → Result A × S → Type 0
OnOk P (err e, s) = Unit {0}
OnOk P (ok a, s) = P a s

module _ {A B S : Type 0} (P : B → S → Type 0) where
  pub OnOk-bind :
      (Q : A → S → Type 0) (m : Exec S A) (f : A → Exec S B) (s : S)
      → OnOk Q (m s)
      → ((a : A) (s' : S) → Q a s' → OnOk P (f a s'))
      → OnOk P ((m >>= f) s)
  OnOk-bind Q m f s returned rest = go (m s) returned
    where
      go : (out : Result A × S) → OnOk Q out → OnOk P (continue out.0 f out.1)
      go (err e, s') h = tt
      go (ok a, s') h = rest a s' h

  -- When nothing about the first part matters.
  pub OnOk-after :
      (m : Exec S A) (f : A → Exec S B) (s : S)
      → ((a : A) (s' : S) → OnOk P (f a s'))
      → OnOk P ((m >>= f) s)
  OnOk-after m f s rest = go (m s)
    where
      go : (out : Result A × S) → OnOk P (continue out.0 f out.1)
      go (err e, s') = tt
      go (ok a, s') = rest a s'

  pub OnOk-some :
      (e : Error) (o : Option A) (f : A → Exec S B) (s : S)
      → ((a : A) → o ≡ some a → OnOk P (f a s))
      → OnOk P ((some_or_raise e o >>= f) s)
  OnOk-some e none f s rest = tt
  OnOk-some e (some a) f s rest = rest a refl

module _ {B S : Type 0} (P : B → S → Type 0) where
  pub OnOk-raise_if :
      (b : Bool) (e : Error) (k : Exec S B) (s : S)
      → (b ≡ false → OnOk P (k s))
      → OnOk P ((raise_if b e >> k) s)
  OnOk-raise_if true e k s rest = tt
  OnOk-raise_if false e k s rest = rest refl

module _ {A S : Type 0} (P Q : A → S → Type 0) where
  pub OnOk-and : (out : Result A × S) → OnOk P out → OnOk Q out → OnOk (λ a s. P a s × Q a s) out
  OnOk-and (err e, s) p q = tt
  OnOk-and (ok a, s) p q = (p, q)

module _ {A S : Type 0} (P : A → S → Type 0) where
  -- What is known of a block that did return.
  pub OnOk-elim : (out : Result A × S) (a : A) (s : S) → OnOk P out → out ≡ (ok a, s) → P a s
  OnOk-elim out a s h e = subst (OnOk P) e h

module _ {A S : Type 0} (P Q : A → S → Type 0) where
  pub OnOk-map : (out : Result A × S) → ((a : A) (s : S) → P a s → Q a s) → OnOk P out → OnOk Q out
  OnOk-map (err e, s) f p = tt
  OnOk-map (ok a, s) f p = f a s p

module _ {A S : Type 0} (P : A → S → Type 0) where
  pub OnOk-transaction : (m : Exec S A) (s : S) → OnOk P (m s) → OnOk P (transaction m s)
  unfolding transaction
  OnOk-transaction m s h = go (m s) h
    where
      go : (out : Result A × S) → OnOk P out → OnOk P (settle s out)
      go (err e, s') p = tt
      go (ok a, s') p = p

-- A transaction that rolls back leaves what there was.
module _ {A S : Type 0} (R : S → Type 0) where
  pub transaction-keeps :
      (m : Exec S A) (s : S) → R s → OnOk (λ _ s'. R s') (m s) → R (transaction m s).1
  unfolding transaction
  transaction-keeps m s before returned = go (m s) returned
    where
      go : (out : Result A × S) → OnOk (λ _ s'. R s') out → R (settle s out).1
      go (err e, s') h = before
      go (ok a, s') h = h
