-- ===== src/Prelude/Lists.antt =====
-- Lists measured by native numbers, predicates on their members, and the options that the source
-- reads as truth values.
use Prim.Native.Nat.{ℕ, suc, ◌+◌}
use mathlib.Core.Path.{◌≡◌, sym, subst}
use mathlib.Core.Logic.{◌⊎◌, inl, inr}
use mathlib.Core.Bool.{Bool, true, false}
use mathlib.Core.List.{List, [], ◌∷◌, ◌++◌}
use mathlib.Core.Option.{Option, none, some}
use native.Mathlib.Omega.{arith}
use fairlane.Prelude.Tests.{if◌then◌else◌}

module _ {ℓ} {A : Type ℓ} where
  abbrev pub length : List A → ℕ
  length [] = 0
  length (x ∷ xs) = suc (length xs)

  pub length-append : (xs ys : List A) → length (xs ++ ys) ≡ length xs + length ys
  length-append [] ys = omega arith
  length-append (x ∷ xs) ys = omega (arith, length-append xs ys)

  -- `a or b` on values that are never falsy when present.
  abbrev pub or_else : Option A → A → A
  or_else (some a) b = a
  or_else none b = b

  abbrev pub is_some : Option A → Bool
  is_some (some a) = true
  is_some none = false

  abbrev pub is_none : Option A → Bool
  is_none (some a) = false
  is_none none = true

module _ {ℓ} {A : Type ℓ} where
  abbrev pub All {κ} : (A → Type κ) → List A → Type κ
  All P [] = Unit
  All P (x ∷ xs) = P x × All P xs

  -- A query's `where` clause, a comprehension's `if`.
  pub select : (A → Bool) → List A → List A
  select p [] = []
  select p (x ∷ xs) = let rest = select p xs in if p x then x ∷ rest else rest

-- The value stands in the list.
abbrev pub In : {A : Type 0} → A → List A → Type 0
In a [] = ⊥
In a (x ∷ l) = (a ≡ x) ⊎ In a l

-- What holds of all holds of one.
pub All-In : {A : Type 0} (P : A → Type 0) {a : A} (l : List A) → All P l → In a l → P a
All-In P [] h i = absurd i
All-In P (x ∷ l) h (inl e) = subst P (sym e) h.0
All-In P (x ∷ l) h (inr i) = All-In P l h.1 i
