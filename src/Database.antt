-- ===== src/Database.antt =====
-- PostgreSQL as the source uses it through SQLAlchemy: a table is found, inserted into, updated
-- and filtered by key, and is not defined here. `Schema` names the tables of src/fairlane/models.py.
pub mod Group
use fairlane.Prelude.{In, ◌≡◌, ◌≢◌, Bool, true, Option, none, some, List, [], ◌∷◌, All}
use fairlane.Models.{Task, DeadLetter, SideEffect, Worker, TenantLimit, TaskEvent}

-- A table whose key is unique: an insert of a key that is there is refused, an update of a row
-- touches that row only, and a filter returns rows of the table that pass
-- it; after an insert it finds the new row too.
pub record Table {K V : Type 0} (key : V → K) : Type 1 where
  pub Rows : Type 0
  pub find : K → Rows → Option V
  pub insert : V → Rows → Option Rows
  pub update : V → Rows → Rows
  pub select : (V → Bool) → Rows → List V
  pub find_key : (k : K) (t : Rows) (v : V) → find k t ≡ some v → key v ≡ k
  pub insert_taken : (v u : V) (t : Rows) → find (key v) t ≡ some u → insert v t ≡ none
  pub insert_free :
      (v : V) (t : Rows) → find (key v) t ≡ none → (t' : Rows) × (insert v t ≡ some t')
  pub find_insert_self : (v : V) (t t' : Rows) → insert v t ≡ some t' → find (key v) t' ≡ some v
  pub find_insert_ne :
      (k : K) (v : V) (t t' : Rows) → insert v t ≡ some t' → key v ≢ k → find k t' ≡ find k t
  pub find_update_self :
      (v u : V) (t : Rows) → find (key v) t ≡ some u → find (key v) (update v t) ≡ some v
  pub find_update_ne : (k : K) (v : V) (t : Rows) → key v ≢ k → find k (update v t) ≡ find k t
  pub update_missing : (v : V) (t : Rows) → find (key v) t ≡ none → update v t ≡ t
  pub select_sound :
      (p : V → Bool) (t : Rows) → All (λ v. (p v ≡ true) × (find (key v) t ≡ some v)) (select p t)
  pub select_complete :
      (p : V → Bool) (t : Rows) (v : V) → find (key v) t ≡ some v → p v ≡ true → In v (select p t)
  pub select_insert :
      (p : V → Bool) (v : V) (t t' : Rows)
      → insert v t ≡ some t'
      → select p t ≡ []
      → p v ≡ true
      → select p t' ≡ v ∷ []

pub record Schema : Type 1 where
  pub tasks : Table {V = Task} (λ t. t.id)
  pub dead_letters : Table {V = DeadLetter} (λ d. d.task_id)
  pub side_effects : Table {V = SideEffect} (λ s. s.task_id)
  pub workers : Table {V = Worker} (λ w. w.worker_id)
  pub tenant_limits : Table {V = TenantLimit} (λ l. l.tenant_id)

-- What is committed. Events are only added; they stand in the order of their `created_at`.
pub record Db (S : Schema) : Type 0 where
  pub tasks : S.tasks.Rows
  pub dead_letters : S.dead_letters.Rows
  pub side_effects : S.side_effects.Rows
  pub workers : S.workers.Rows
  pub tenant_limits : S.tenant_limits.Rows
  pub events : List TaskEvent
