-- ===== src/Database/Group.antt =====
-- GROUP BY with the number of rows of each group, as the statistics of src/fairlane/api/dlq_routes.py
-- and src/fairlane/metrics_collector.py ask for it.
pub mod Lookup
use fairlane.Prelude.{ℕ, suc, Bool, List, [], ◌∷◌, if◌then◌else◌}

-- A row is counted into the group of its key.
module _ {K : Type 0} (same : K → K → Bool) where
  unfoldable pub count_into : K → List (K × ℕ) → List (K × ℕ)
  count_into k [] = (k, 1) ∷ []
  count_into k ((j, n) ∷ gs) =
      let rest = count_into k gs in if same j k then (j, suc n) ∷ gs else (j, n) ∷ rest

  unfoldable pub group_by : {V : Type 0} → (V → K) → List V → List (K × ℕ)
  unfolding count_into
  group_by key [] = []
  group_by key (v ∷ vs) = count_into (key v) (group_by key vs)

-- How many of the rows pass.
abbrev pub tally : {V : Type 0} → (V → Bool) → List V → ℕ
tally p [] = 0
tally p (v ∷ vs) = let rest = tally p vs in if p v then suc rest else rest
