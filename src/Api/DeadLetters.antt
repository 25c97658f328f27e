-- ===== src/Api/DeadLetters.antt =====
-- The reads of the dead letters in src/fairlane/api/dlq_routes.py: the list with its pages, the
-- statistics, and one letter.
pub mod Pages
pub mod Stats
use fairlane.Prelude.{
  ℕ, zero, suc, ◌+◌, ◌-◌, ◌*◌, String, Bool, true, false, ◌&&◌, not, Option, none, some, List, [],
  ◌∷◌, length, str_eq, ltb, if◌then◌else◌,
}
use fairlane.Models.{DeadLetter, FailureCategory, transient_exhausted, permanent, poison_pill}
use fairlane.Database.Group.{count_into, group_by}
use fairlane.Database.{Schema, Db}
use fairlane.Api.Service.{Reply, sent, http}

-- The text of a category.
abbrev pub category_text : FailureCategory → String
category_text transient_exhausted = "TRANSIENT_EXHAUSTED"
category_text permanent = "PERMANENT"
category_text poison_pill = "POISON_PILL"

-- `if tenant_id: query = query.where(... == tenant_id)`: no filter, or the empty text, passes all.
abbrev pub filtered : Option String → String → Bool
filtered none actual = true
filtered (some wanted) actual = if str_eq wanted "" then true else str_eq actual wanted

-- A category that is none of the three texts makes the query raise, which is not modelled: here it
-- finds nothing.
unfoldable pub wanted : Option String → Option String → DeadLetter → Bool
wanted tenant_id failure_category d =
    filtered tenant_id d.tenant_id && filtered failure_category (category_text d.failure_category)

-- ORDER BY dead_at DESC, by insertion. Letters of one moment stay in the order in which the table
-- lists them, which PostgreSQL leaves open.
unfoldable pub insert_letter : DeadLetter → List DeadLetter → List DeadLetter
insert_letter d [] = d ∷ []
insert_letter d (e ∷ es) =
    let rest = insert_letter d es in if ltb d.dead_at e.dead_at then e ∷ rest else d ∷ e ∷ es

unfoldable pub order_letters : List DeadLetter → List DeadLetter
unfolding insert_letter
order_letters [] = []
order_letters (d ∷ ds) = insert_letter d (order_letters ds)

-- OFFSET and LIMIT.
abbrev pub offset {ℓ} : {A : Type ℓ} → ℕ → List A → List A
offset zero l = l
offset (suc n) [] = []
offset (suc n) (x ∷ l) = offset n l

abbrev pub limit {ℓ} : {A : Type ℓ} → ℕ → List A → List A
limit zero l = []
limit (suc n) [] = []
limit (suc n) (x ∷ l) = x ∷ limit n l

pub record DeadLetterListResponse : Type 0 where
  pub items : List DeadLetter
  pub total : ℕ
  pub page : ℕ
  pub page_size : ℕ

pub record CategoryStat : Type 0 where
  pub category : FailureCategory
  pub count : ℕ

pub record TenantStat : Type 0 where
  pub tenant_id : String
  pub count : ℕ

pub record DeadLetterStatsResponse : Type 0 where
  pub total : ℕ
  pub by_category : List CategoryStat
  pub by_tenant : List TenantStat

module _ {S : Schema} where
  -- `scan` is the order in which the database meets the letters, which decides between those of one
  -- moment. A category that is none raises in the source; here it finds nothing.
  unfoldable pub list_dead_letters :
      (List DeadLetter → List DeadLetter)
      → Option String
      → Option String
      → ℕ
      → ℕ
      → Db S
      → DeadLetterListResponse
  unfolding order_letters wanted
  list_dead_letters scan tenant_id failure_category page page_size d =
      let found = S.dead_letters.select (wanted tenant_id failure_category) d.dead_letters in
      record {
        items = limit page_size (offset ((page - 1) * page_size) (order_letters (scan found)));
        total = length found;
        page = page;
        page_size = page_size;
      }

-- ORDER BY count DESC, by insertion.
unfoldable pub insert_group : {K : Type 0} → K × ℕ → List (K × ℕ) → List (K × ℕ)
insert_group g [] = g ∷ []
insert_group g (h ∷ hs) =
    let rest = insert_group g hs in if ltb g.1 h.1 then h ∷ rest else g ∷ h ∷ hs

unfoldable pub order_groups : {K : Type 0} → List (K × ℕ) → List (K × ℕ)
unfolding insert_group
order_groups [] = []
order_groups (g ∷ gs) = insert_group g (order_groups gs)

abbrev pub same_category : FailureCategory → FailureCategory → Bool
same_category a b = str_eq (category_text a) (category_text b)

unfoldable pub category_stats : List (FailureCategory × ℕ) → List CategoryStat
category_stats [] = []
category_stats ((k, n) ∷ gs) = record { category = k; count = n } ∷ category_stats gs

unfoldable pub tenant_stats : List (String × ℕ) → List TenantStat
tenant_stats [] = []
tenant_stats ((k, n) ∷ gs) = record { tenant_id = k; count = n } ∷ tenant_stats gs

module _ {S : Schema} where
  unfoldable pub dead_letter_stats : Db S → DeadLetterStatsResponse
  unfolding group_by order_groups category_stats tenant_stats
  dead_letter_stats d =
      let all = S.dead_letters.select (λ x. true) d.dead_letters in
      record {
        total = length all;
        by_category =
            category_stats (order_groups (group_by same_category (λ x. x.failure_category) all));
        by_tenant = tenant_stats (order_groups (group_by str_eq (λ x. x.tenant_id) all));
      }

  unfoldable pub get_dead_letter : ℕ → Db S → Reply DeadLetter
  get_dead_letter id d = elim (S.dead_letters.find id d.dead_letters) [
    | none ↦ http 404
    | some letter ↦ sent letter
  ]
