-- ===== src/Api/Tasks/Created.antt =====
-- What `create_task` (src/fairlane/api/routes.py) stores and answers.
use fairlane.Prelude.{
  ℕ, String, ◌≡◌, ◌<◌, inl, inr, refl, sym, ap, ◌∙◌, true, false, ◌++◌, Option, none, some, List,
  [], ◌∷◌, leb, arith, str_eq, Bool-cases,
}
use mathlib.Core.Path.{subst}
use text.Mathlib.TextPositions.{eq_refl}
use fairlane.Models.{TaskStatus, Task}
use fairlane.Config.{max_pending_per_tenant}
use fairlane.Retry.{Exception}
use fairlane.Answer.{Answer, ok, raise}
use fairlane.Database.{Schema, Db}
use fairlane.Scheduler.Queue.{Rooms, enqueue}
use fairlane.Api.Service.{Reply, sent, http, Service, same_id}
use fairlane.Api.Tasks.{
  TaskCreate, Request, has_key, one_or_none, new_task, created_event, submitted, store,
  pending_count, existing, check_quota, unless_existing, create_task,
}

-- The row that a request asks for: PENDING, never attempted, with the submitted columns.
abbrev pub submitted_row : Request → TaskCreate → Task
submitted_row r c = record {
  id = r.new_id;
  tenant_id = c.tenant_id;
  task_type = c.task_type;
  payload = c.payload;
  priority = c.priority;
  status = TaskStatus.pending;
  attempts = 0;
  max_attempts = 5;
  idempotency_key = c.idempotency_key;
  created_at = r.now;
  started_at = none;
  finished_at = none;
  next_retry_at = none;
  last_error = none;
  locked_by = none;
  locked_at = none;
  original_enqueue_at = none;
}

module _ {S : Schema} {R : Rooms} (r : Request) (c : TaskCreate) (s : Service S R) where
  -- A new row was stored, with its event, and the quota allowed it.
  abbrev pub Stored : ℕ → Service S R → Type 0
  Stored id after =
      (id ≡ r.new_id)
      × (S.tasks.insert (submitted_row r c) s.db.tasks ≡ some after.db.tasks)
      × (after.db.events ≡ s.db.events ++ created_event r ∷ [])
      × (r.redis ≡ none → after.queue ≡ enqueue (submitted_row r c) s.queue)

  submitted-sent :
      (t after : Service S R) (id : ℕ) (e : Option Exception)
      → submitted r c t e ≡ (sent id, after)
      → (id ≡ r.new_id)
        × (after.db ≡ t.db)
        × (r.redis ≡ none → after.queue ≡ enqueue (new_task r c) t.queue)
  unfolding submitted
  submitted-sent t after id (some e) h = absurd (cc)
  submitted-sent t after id none h =
      let db = ap (λ (x : Reply ℕ × Service S R). x.1.db) h in
      let q = ap (λ (x : Reply ℕ × Service S R). x.1.queue) h in
      (sym (same_id _ _ _ _ h), sym db, λ k. sym q ∙ rw k refl)

  store-sent :
      (after : Service S R) (id : ℕ) (flush commit : Option Exception) (rows : Option S.tasks.Rows)
      → S.tasks.insert (new_task r c) s.db.tasks ≡ rows
      → store r c s flush commit rows ≡ (sent id, after)
      → Stored id after
  unfolding store new_task
  store-sent after id (some e) commit rows i h = absurd (cc)
  store-sent after id none commit none i h = absurd (cc)
  store-sent after id none (some e) (some rows) i h = absurd (cc)
  store-sent after id none none (some rows) i h =
      let (a, b, q) = submitted-sent _ after id r.refresh h in
      (a, i ∙ ap (λ (d : Db S). some d.tasks) (sym b), ap (λ (d : Db S). d.events) b, q)

  check_quota-sent :
      (after : Service S R) (id : ℕ)
      → check_quota r c s ≡ (sent id, after)
      → Stored id after × (pending_count c.tenant_id s.db < max_pending_per_tenant)
  unfolding check_quota
  check_quota-sent after id h =
      elim (Bool-cases (leb max_pending_per_tenant (pending_count c.tenant_id s.db))) [
        | inl e ↦
            let p : ◌≡◌ {A = Reply ℕ × Service S R} (http 429, s) (sent id, after) = rw e at h in
            absurd (cc)
        | inr e ↦ (store-sent after id r.flush r.commit _ refl (rw e at h), ground (arith, e))
      ]

  -- A request that is answered with a task id, and for whose key no task was there, has stored the
  -- new PENDING row and its CREATED event, with fewer PENDING rows of the tenant before it than the
  -- quota; and it has enqueued the task, if Redis could be reached.
  pub create_task-stores :
      (after : Service S R) (id : ℕ)
      → existing c s.db ≡ ok none
      → create_task r c s ≡ (sent id, after)
      → Stored id after
        × (pending_count c.tenant_id s.db < max_pending_per_tenant)
        × (S.tasks.find id after.db.tasks ≡ some (submitted_row r c))
  unfolding create_task unless_existing new_task
  create_task-stores after id none_yet h =
      let (st, quota) = check_quota-sent after id (rw none_yet at h) in
      (
        st,
        quota,
        rw (st.0) (S.tasks.find_insert_self (new_task r c) s.db.tasks after.db.tasks st.1),
      )

-- The key of a request, if it is looked up.
abbrev pub Keyed : TaskCreate → String → Type 0
Keyed c key = (c.idempotency_key ≡ some key) × (str_eq key "" ≡ false)

existing-Keyed :
    {S : Schema} (c : TaskCreate) (key : String) (d : Db S)
    → Keyed c key
    → existing c d ≡ one_or_none (S.tasks.select (has_key key) d.tasks)
unfolding existing
existing-Keyed c key d k = rw (k.0) (rw (k.1) refl)

none_selected : (l : List Task) → one_or_none l ≡ ok none → l ≡ []
none_selected [] h = refl
none_selected (t ∷ []) h = absurd (cc)
none_selected (t ∷ u ∷ l) h = absurd (cc)

one_selected : (l : List Task) (t : Task) → one_or_none l ≡ ok (some t) → l ≡ t ∷ []
one_selected [] t h = absurd (cc)
one_selected (u ∷ []) t h = cc
one_selected (u ∷ v ∷ l) t h = absurd (cc)

abbrev pub ids : List Task → List ℕ
ids [] = []
ids (t ∷ l) = t.id ∷ ids l

one_id : (l : List Task) (i : ℕ) → ids l ≡ i ∷ [] → (u : Task) × (l ≡ u ∷ []) × (u.id ≡ i)
one_id [] i h = absurd (cc)
one_id (u ∷ []) i h = (u, refl, cc)
one_id (u ∷ v ∷ l) i h = absurd (cc)

has_key-Keyed :
    (r : Request) (c : TaskCreate) (key : String) → Keyed c key → has_key key (new_task r c) ≡ true
unfolding new_task
has_key-Keyed r c key k = rw (k.0) (eq_refl key)

module _ {S : Schema} {R : Rooms} where
  -- The answer to a request whose key is there.
  create_task-existing :
      (r : Request) (c : TaskCreate) (s : Service S R) (t : Task)
      → existing c s.db ≡ ok (some t)
      → create_task r c s ≡ (sent t.id, s)
  unfolding create_task unless_existing
  create_task-existing r c s t h = rw h refl

  -- Once a request with a key was answered with an id, that is the id of the one row with the key.
  sole_row :
      (r : Request) (c : TaskCreate) (s after : Service S R) (key : String) (id : ℕ)
      (a : Answer (Option Task))
      → Keyed c key
      → existing c s.db ≡ a
      → unless_existing r c s a ≡ (sent id, after)
      → create_task r c s ≡ (sent id, after)
      → (t : Task) × (S.tasks.select (has_key key) after.db.tasks ≡ t ∷ []) × (t.id ≡ id)
  unfolding unless_existing new_task
  sole_row r c s after key id (raise e) k p u h = absurd (cc)
  sole_row r c s after key id (ok (some t)) k p u h =
      let one = one_selected _ t (sym (existing-Keyed c key s.db k) ∙ p) in
      let same : s ≡ after = ap (λ (x : Reply ℕ × Service S R). x.1) u in
      (
        t,
        subst (λ (x : Service S R). S.tasks.select (has_key key) x.db.tasks ≡ t ∷ []) same one,
        same_id _ _ _ _ u,
      )
  sole_row r c s after key id (ok none) k p u h =
      let (st, _, _) = create_task-stores r c s after id p h in
      let before =
        none_selected (S.tasks.select (has_key key) s.db.tasks)
          (sym (existing-Keyed c key s.db k) ∙ p) in
      let now =
        S.tasks.select_insert (has_key key) (new_task r c) s.db.tasks after.db.tasks st.1 before
          (has_key-Keyed r c key k) in
      (new_task r c, now, sym st.0)

  -- Requests with the same key store one task: once a request with a key was answered with a task
  -- id, a request with that key, whatever else it says, gets the same id, and nothing is stored,
  -- enqueued or counted for it. Anything may have happened in between, to the task too, as long as
  -- the rows with the key have the ids that they had then.
  pub create_task-idempotent :
      (r r' : Request) (c c' : TaskCreate) (s after later : Service S R) (key : String) (id : ℕ)
      → Keyed c key
      → Keyed c' key
      → create_task r c s ≡ (sent id, after)
      → ids (S.tasks.select (has_key key) later.db.tasks)
        ≡ ids (S.tasks.select (has_key key) after.db.tasks)
      → create_task r' c' later ≡ (sent id, later)
  create_task-idempotent r r' c c' s after later key id k k' h same =
      let (t, one, i) =
        sole_row r c s after key id (existing c s.db) k refl (unfold create_task in h) h in
      let (u, l, j) = one_id _ t.id (same ∙ ap ids one) in
      let q : existing c' later.db ≡ ok (some u) =
        existing-Keyed c' key later.db k' ∙ ap one_or_none l in
      create_task-existing r' c' later u q ∙ ap (λ (n : ℕ). (sent n, later)) (j ∙ i)
