-- ===== src/Database/Group/Lookup.antt =====
-- What the groups of a query say of one key.
use mathlib.Core.Logic.{◌↔◌}
use mathlib.Core.Path.{subst}
use fairlane.Prelude.{
  ℕ, zero, suc, ◌≡◌, ◌≢◌, refl, sym, ap, ◌∙◌, Bool, true, false, Option, none, some, List, [], ◌∷◌,
  or_else, if◌then◌else◌, Bool-cases, inl, inr,
}
use fairlane.Database.Group.{count_into, group_by, tally}

-- The count, if there is a group.
abbrev pub nonzero : ℕ → Option ℕ
nonzero zero = none
nonzero (suc n) = some (suc n)

or_else-nonzero : (n : ℕ) → or_else (nonzero n) 0 ≡ n
or_else-nonzero zero = refl
or_else-nonzero (suc n) = refl

module _ {K : Type 0} (same : K → K → Bool) where
  abbrev pub assoc : K → List (K × ℕ) → Option ℕ
  assoc k [] = none
  assoc k ((j, n) ∷ gs) = let rest = assoc k gs in if same j k then some n else rest

  -- No key twice.
  abbrev pub Distinct : List (K × ℕ) → Type 0
  Distinct [] = Unit
  Distinct ((j, n) ∷ gs) = (assoc j gs ≡ none) × Distinct gs

  module _ (same_iff : (j k : K) → (same j k ≡ true) ↔ (j ≡ k)) where
    same_self : (k : K) → same k k ≡ true
    same_self k = (same_iff k k).1 refl

    pub same_ne : (j k : K) → j ≢ k → same j k ≡ false
    same_ne j k n = elim (Bool-cases (same j k)) [
      | inl e ↦ absurd (n ((same_iff j k).0 e))
      | inr e ↦ e
    ]

    assoc-count_into_self :
        (k : K) (gs : List (K × ℕ))
        → assoc k (count_into same k gs) ≡ some (suc (or_else (assoc k gs) 0))
    unfolding count_into
    assoc-count_into_self k [] = rw (same_self k) refl
    assoc-count_into_self k ((j, n) ∷ gs) = elim (Bool-cases (same j k)) [
      | inl e ↦ rw e (rw e refl)
      | inr e ↦ rw e (rw e (assoc-count_into_self k gs))
    ]

    assoc-count_into_ne :
        (k i : K) (gs : List (K × ℕ)) → k ≢ i → assoc i (count_into same k gs) ≡ assoc i gs
    unfolding count_into
    assoc-count_into_ne k i [] n = rw (same_ne k i n) refl
    assoc-count_into_ne k i ((j, m) ∷ gs) n = elim (Bool-cases (same j k)) [
      | inl e ↦ let f = same_ne j i (λ p. n (sym ((same_iff j k).0 e) ∙ p)) in rw e (rw f refl)
      | inr e ↦ rw e (elim (Bool-cases (same j i)) [
        | inl f ↦ rw f refl
        | inr f ↦ rw f (assoc-count_into_ne k i gs n)
      ])
    ]

    count_into-Distinct :
        (k : K) (gs : List (K × ℕ)) → Distinct gs → Distinct (count_into same k gs)
    unfolding count_into
    count_into-Distinct k [] d = (refl, tt)
    count_into-Distinct k ((j, n) ∷ gs) d = elim (Bool-cases (same j k)) [
      | inl e ↦ rw e d
      | inr e ↦
          let n : k ≢ j = λ p. absurd (cc ((same_iff j k).1 (sym p), e)) in
          rw e (assoc-count_into_ne k j gs n ∙ d.0, count_into-Distinct k gs d.1)
    ]

    module _ {V : Type 0} (key : V → K) where
      pub group_by-Distinct : (vs : List V) → Distinct (group_by same key vs)
      unfolding group_by
      group_by-Distinct [] = tt
      group_by-Distinct (v ∷ vs) = count_into-Distinct (key v) _ (group_by-Distinct vs)

      -- A key has a group exactly if a row has it, with the number of these rows.
      pub assoc-group_by :
          (k : K) (vs : List V)
          → assoc k (group_by same key vs) ≡ nonzero (tally (λ v. same (key v) k) vs)
      unfolding group_by
      assoc-group_by k [] = refl
      assoc-group_by k (v ∷ vs) = elim (Bool-cases (same (key v) k)) [
        | inl e ↦
            let own : assoc k (count_into same (key v) (group_by same key vs))
                ≡ some (suc (or_else (assoc k (group_by same key vs)) 0)) =
              let p = (same_iff (key v) k).0 e in
              subst
                (λ j.
                  assoc k (count_into same j (group_by same key vs))
                  ≡ some (suc (or_else (assoc k (group_by same key vs)) 0)))
                (sym p) (assoc-count_into_self k (group_by same key vs)) in
            rw e (
              own
              ∙ ap (λ o. some (suc (or_else o 0))) (assoc-group_by k vs)
              ∙ ap (λ n. some (suc n)) (or_else-nonzero (tally (λ x. same (key x) k) vs)))
        | inr e ↦ rw e (
            assoc-count_into_ne (key v) k _ (λ p. absurd (cc ((same_iff (key v) k).1 p, e)))
            ∙ assoc-group_by k vs)
      ]
