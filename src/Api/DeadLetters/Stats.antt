-- ===== src/Api/DeadLetters/Stats.antt =====
-- The statistics of the dead letters (src/fairlane/api/dlq_routes.py).
use fairlane.Prelude.{
  ℕ, suc, ◌+◌, String, ◌≡◌, refl, ap, ◌∙◌, Bool, true, List, [], ◌∷◌, length, str_eq, eq_iff, ltb,
  arith, Bool-cases, inl, inr, if◌then◌else◌, if-cases,
}
use fairlane.Models.{DeadLetter, FailureCategory}
use fairlane.Database.Group.{count_into, group_by, tally}
use fairlane.Database.{Schema, Db}
use fairlane.Api.DeadLetters.{
  category_text, same_category, CategoryStat, TenantStat, insert_group, order_groups,
  category_stats, tenant_stats, dead_letter_stats,
}

-- The sum of the counts of the groups whose key passes.
abbrev pub sum_where : {K : Type 0} → (K → Bool) → List (K × ℕ) → ℕ
sum_where p [] = 0
sum_where p ((k, n) ∷ gs) = let rest = sum_where p gs in if p k then n + rest else rest

module _ {K : Type 0} (p : K → Bool) where
  insert_group-sum :
      (g : K × ℕ) (gs : List (K × ℕ)) → sum_where p (insert_group g gs) ≡ sum_where p (g ∷ gs)
  unfolding insert_group
  insert_group-sum g [] = refl
  insert_group-sum g (h ∷ hs) = elim (Bool-cases (ltb g.1 h.1)) [
    | inl e ↦ let r = insert_group-sum g hs in rw e (ground (arith, r))
    | inr e ↦ rw e refl
  ]

  order_groups-sum : (gs : List (K × ℕ)) → sum_where p (order_groups gs) ≡ sum_where p gs
  unfolding order_groups
  order_groups-sum [] = refl
  order_groups-sum (g ∷ gs) =
      let r = order_groups-sum gs in insert_group-sum g (order_groups gs) ∙ ground (arith, r)

  module _ (same : K → K → Bool) (agree : (j k : K) → same j k ≡ true → p j ≡ p k) where
    count_into-sum :
        (k : K) (gs : List (K × ℕ))
        → sum_where p (count_into same k gs)
          ≡ (if p k then suc (sum_where p gs) else sum_where p gs)
    unfolding count_into
    count_into-sum k [] = ground arith
    count_into-sum k ((j, n) ∷ gs) =
        let rest = sum_where p ((j, n) ∷ gs) in
        if-cases (λ (x : List (K × ℕ)). sum_where p x ≡ (if p k then suc rest else rest)) (same j k)
          ((j, suc n) ∷ gs) ((j, n) ∷ count_into same k gs)
          (λ e. let q = agree j k e in ground (arith, q))
          (λ e. let r = count_into-sum k gs in ground (arith, r))

    group_by-sum :
        (key : DeadLetter → K) (ds : List DeadLetter)
        → sum_where p (group_by same key ds) ≡ tally (λ d. p (key d)) ds
    unfolding group_by
    group_by-sum key [] = refl
    group_by-sum key (d ∷ ds) =
        let r = group_by-sum key ds in
        count_into-sum (key d) (group_by same key ds) ∙ ground (arith, r)

-- The count that the statistics give to a category, and to a tenant.
abbrev pub category_count : (FailureCategory → Bool) → List CategoryStat → ℕ
category_count p [] = 0
category_count p (x ∷ xs) =
    let rest = category_count p xs in if p x.category then x.count + rest else rest

abbrev pub tenant_count : (String → Bool) → List TenantStat → ℕ
tenant_count p [] = 0
tenant_count p (x ∷ xs) =
    let rest = tenant_count p xs in if p x.tenant_id then x.count + rest else rest

category_stats-sum :
    (p : FailureCategory → Bool) (gs : List (FailureCategory × ℕ))
    → category_count p (category_stats gs) ≡ sum_where p gs
unfolding category_stats
category_stats-sum p [] = refl
category_stats-sum p (g ∷ gs) = let r = category_stats-sum p gs in ground (arith, r)

tenant_stats-sum :
    (p : String → Bool) (gs : List (String × ℕ)) → tenant_count p (tenant_stats gs) ≡ sum_where p gs
unfolding tenant_stats
tenant_stats-sum p [] = refl
tenant_stats-sum p (g ∷ gs) = let r = tenant_stats-sum p gs in ground (arith, r)

tally_all : (ds : List DeadLetter) → tally (λ d. true) ds ≡ length ds
tally_all [] = refl
tally_all (d ∷ ds) = ap suc (tally_all ds)

same_text : (k j : String) → str_eq k j ≡ true → k ≡ j
same_text k j h = (eq_iff k j).0 h

-- In the statistics, the counts of all categories and the counts of all tenants both add up to the
-- total; a category is counted as often as it has dead letters, and so is a tenant.
pub dead_letter_stats-counts :
    {S : Schema} (d : Db S)
    → (let r = dead_letter_stats d in
        let all = S.dead_letters.select (λ x. true) d.dead_letters in
        (category_count (λ c. true) r.by_category ≡ r.total)
        × (tenant_count (λ t. true) r.by_tenant ≡ r.total)
        × ((c : FailureCategory)
            → category_count (same_category c) r.by_category
              ≡ tally (λ x. same_category c x.failure_category) all)
        × ((t : String)
            → tenant_count (str_eq t) r.by_tenant ≡ tally (λ x. str_eq t x.tenant_id) all))
unfolding dead_letter_stats
dead_letter_stats-counts {S} d =
    let all = S.dead_letters.select (λ x. true) d.dead_letters in
    let by_category : (p : FailureCategory → Bool)
        → ((j k : FailureCategory) → same_category j k ≡ true → p j ≡ p k)
        → category_count p (dead_letter_stats d).by_category
          ≡ tally (λ x. p x.failure_category) all =
      λ p a.
        category_stats-sum p _
        ∙ order_groups-sum p _
        ∙ group_by-sum p same_category a (λ x. x.failure_category) all in
    let by_tenant : (p : String → Bool)
        → ((j k : String) → str_eq j k ≡ true → p j ≡ p k)
        → tenant_count p (dead_letter_stats d).by_tenant ≡ tally (λ x. p x.tenant_id) all =
      λ p a.
        tenant_stats-sum p _
        ∙ order_groups-sum p _
        ∙ group_by-sum p str_eq a (λ x. x.tenant_id) all in
    (
      by_category (λ c. true) (λ k j h. refl) ∙ tally_all all,
      by_tenant (λ t. true) (λ k j h. refl) ∙ tally_all all,
      λ c. by_category (same_category c) (λ j k h. ap (str_eq (category_text c)) (same_text _ _ h)),
      λ t. by_tenant (str_eq t) (λ j k h. ap (str_eq t) (same_text j k h)),
    )
