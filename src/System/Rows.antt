-- ===== src/System/Rows.antt =====
-- Tables all of whose rows have a property.
use mathlib.Core.Path.{subst}
use fairlane.Prelude.{
  ℕ, ◌≡◌, ◌≢◌, sym, ◌∙◌, ap, some, Option-cases, inl, inr, ◌==◌, Bool-cases, arith,
}
use fairlane.Models.{Task}
use fairlane.Database.{Schema, Db}

-- A row that is found by an id is found by its own.
pub found_self :
    (S : Schema) (id : ℕ) (t : Task) (d : Db S)
    → S.tasks.find id d.tasks ≡ some t
    → S.tasks.find t.id d.tasks ≡ some t
found_self S id t d h =
    subst (λ k. S.tasks.find k d.tasks ≡ some t) (sym (S.tasks.find_key id d.tasks t h)) h

-- Every row of the table has the property.
abbrev pub Holds : (S : Schema) → (Task → Type 0) → S.tasks.Rows → Type 0
Holds S P rows = (id : ℕ) (t : Task) → S.tasks.find id rows ≡ some t → P t

module _ (S : Schema) (P : Task → Type 0) (rows : S.tasks.Rows) (h : Holds S P rows) where
  same_row :
      (v : Task) (k : ℕ) (t : Task) (after : S.tasks.Rows)
      → P v
      → S.tasks.find v.id after ≡ some v
      → (v.id ≢ k → S.tasks.find k after ≡ S.tasks.find k rows)
      → S.tasks.find k after ≡ some t
      → P t
  same_row v k t after p self ne f = elim (Bool-cases (v.id == k)) [
    | inl e ↦
        let q : v.id ≡ k = ground arith in
        let g : S.tasks.find v.id after ≡ some t =
          subst (λ j. S.tasks.find j after ≡ some t) (sym q) f in
        let u : v ≡ t = cc in subst P u p
    | inr e ↦ let n : v.id ≢ k = λ q. ground arith in h k t (sym (ne n) ∙ f)
  ]

  pub Holds-update : (v : Task) → P v → Holds S P (S.tasks.update v rows)
  Holds-update v p k t f = elim (Option-cases (S.tasks.find v.id rows)) [
    | inl e ↦ h k t (ap (S.tasks.find k) (sym (S.tasks.update_missing v rows e)) ∙ f)
    | inr (u, e) ↦
        same_row v k t (S.tasks.update v rows) p (S.tasks.find_update_self v u rows e)
          (S.tasks.find_update_ne k v rows) f
  ]

  pub Holds-insert :
      (v : Task) (after : S.tasks.Rows) → S.tasks.insert v rows ≡ some after → P v → Holds S P after
  Holds-insert v after i p k t f =
      same_row v k t after p (S.tasks.find_insert_self v rows after i)
        (S.tasks.find_insert_ne k v rows after i) f
