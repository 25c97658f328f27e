-- ===== src/Scheduler/Poll/Rebuild.antt =====
-- The waiting rooms after `rebuild_from_postgres` of src/fairlane/scheduler/__init__.py.
use fairlane.Prelude.{
  All-In, ℕ, ◌≡◌, ◌≢◌, refl, ◌∙◌, Bool, true, ◌&&◌, some, List, [], ◌∷◌, All, length, arith, str_eq,
  eq_iff, ◌==◌, Bool-cases, inl, inr,
}
use mathlib.Core.Path.{subst}
use fairlane.Models.{Task, is_pending}
use fairlane.Database.{Schema}
use fairlane.Scheduler.Queue.{Rooms, Queue, score, enqueue}
use fairlane.Scheduler.Queue.Order.{enqueue-ready}
use fairlane.Scheduler.Poll.{unset_or_due, enqueue_all, rebuild_from_postgres}

module _ (S : Schema) (rows : S.tasks.Rows) where
  abbrev pub InTable : Task → Type 0
  InTable t = S.tasks.find t.id rows ≡ some t

  one_row : (t u : Task) → InTable t → InTable u → u.id ≡ t.id → u ≡ t
  one_row t u h k e =
      let p : S.tasks.find t.id rows ≡ some u = subst (λ i. S.tasks.find i rows ≡ some u) e k in cc

module _ {R : Rooms} where
  -- The task waits in its tenant's room with its own score.
  abbrev pub Waits : Queue R → Task → Type 0
  Waits q t = R.tasks.zscore t.id (q.ready t.tenant_id) ≡ some (score t)

  -- Another task does not disturb it: one with the same id is the same task.
  enqueue-Waits :
      (q : Queue R) (t u : Task) → (u.id ≡ t.id → u ≡ t) → Waits q t → Waits (enqueue u q) t
  enqueue-Waits q t u same h = elim (Bool-cases (u.id == t.id)) [
    | inl e ↦
        subst (λ x. R.tasks.zscore x.id ((enqueue u q).ready x.tenant_id) ≡ some (score x))
          (same (ground arith)) (enqueue-ready u q).0
    | inr e ↦
        let ne : u.id ≢ t.id = λ p. ground arith in
        elim (Bool-cases (str_eq t.tenant_id u.tenant_id)) [
          | inl k ↦
              let p : t.tenant_id ≡ u.tenant_id = (eq_iff t.tenant_id u.tenant_id).0 k in
              rw p ((enqueue-ready u q).1 t.id ne ∙ rw p at h)
          | inr k ↦ rw ((enqueue-ready u q).2 t.tenant_id k) h
        ]
  ]

module _ (S : Schema) {R : Rooms} (rows : S.tasks.Rows) where
  enqueue_all-keeps :
      (ts : List Task) (q : Queue R) (t : Task)
      → All (InTable S rows) ts
      → InTable S rows t
      → Waits q t
      → Waits (enqueue_all ts q) t
  unfolding enqueue_all
  enqueue_all-keeps [] q t a i h = h
  enqueue_all-keeps (u ∷ ts) q t a i h =
      enqueue_all-keeps ts (enqueue u q) t a.1 i (enqueue-Waits q t u (one_row S rows t u i a.0) h)

  pub enqueue_all-Waits :
      (ts : List Task) (q : Queue R) → All (InTable S rows) ts → All (Waits (enqueue_all ts q)) ts
  unfolding enqueue_all
  enqueue_all-Waits [] q a = tt
  enqueue_all-Waits (t ∷ ts) q a = (
    enqueue_all-keeps ts (enqueue t q) t a.1 a.0 (enqueue-ready t q).0,
    enqueue_all-Waits ts (enqueue t q) a.1,
  )

-- The selected rows are those of the table that pass the filter.
pub in_table :
    (S : Schema) (p : Task → Bool) (rows : S.tasks.Rows) (ts : List Task)
    → All (λ t. (p t ≡ true) × (S.tasks.find t.id rows ≡ some t)) ts
    → All (λ t. S.tasks.find t.id rows ≡ some t) ts
in_table S p rows [] a = tt
in_table S p rows (t ∷ ts) a = (a.0.1, in_table S p rows ts a.1)

-- After a rebuild every row of the table that is PENDING and has no time to retry at, or one that
-- has passed, waits in its tenant's room with its score, whatever was lost from the rooms before;
-- and the result is the number of rows that the query finds.
pub rebuild-Waits :
    (S : Schema) {R : Rooms} (now : ℕ) (rows : S.tasks.Rows) (q : Queue R)
    → (let pass : Task → Bool = λ t. is_pending t.status && unset_or_due now t.next_retry_at in
        let (count, after) = rebuild_from_postgres S now rows q in
        (count ≡ length (S.tasks.select pass rows))
        × ((t : Task) → S.tasks.find t.id rows ≡ some t → pass t ≡ true → Waits after t))
unfolding rebuild_from_postgres
rebuild-Waits S now rows q =
    let p : Task → Bool = λ t. is_pending t.status && unset_or_due now t.next_retry_at in
    let all = enqueue_all-Waits S rows _ q (in_table S p rows _ (S.tasks.select_sound p rows)) in
    (
      refl,
      λ t f e.
          All-In (Waits (enqueue_all (S.tasks.select p rows) q)) _ all
            (S.tasks.select_complete p rows t f e),
    )
