-- ===== src/Reaper/Cycle.antt =====
-- One cycle of `run_reaper` (src/fairlane/reaper.py), with the detection of dead workers and the
-- reconciliation of tasks that are missing from Redis. An exception of Redis is not modelled here.
use fairlane.Prelude.{
  In, All-In, if-cases, ap, sym, ◌∙◌, ◌≡◌, ℕ, zero, suc, ◌-◌, String, Bool, true, false, ◌&&◌, ◌++◌,
  Option, none, some, List, [], ◌∷◌, All, ltb, length, or_else, if◌then◌else◌, is_none, Bool-cases,
  inl, inr,
}
use fairlane.Models.{Task, Worker, WorkerStatus, is_pending}
use fairlane.Retry.{Exception}
use fairlane.Answer.{Answer, ok, raise}
use fairlane.Database.{Schema}
use fairlane.Metrics.{workers_declared_dead, tasks_reclaimed}
use fairlane.Scheduler.Queue.{Rooms, Queue}
use fairlane.Scheduler.Poll.{enqueue_all}
use fairlane.Scheduler.Poll.Rebuild.{Waits, enqueue_all-Waits, in_table}
use fairlane.Reaper.Reclaim.{Fleet, Circumstances, reclaim_tasks_from_dead_worker}

abbrev pub is_active : WorkerStatus → Bool
is_active WorkerStatus.active = true
is_active _ = false

abbrev pub dead_worker_row : Worker → Worker
dead_worker_row w = record w { status = WorkerStatus.dead }

module _ (S : Schema) where
  -- The workers without a heartbeat key are marked; their ids are returned in order.
  unfoldable pub mark_dead :
      (String → Bool) → List Worker → S.workers.Rows → List String × S.workers.Rows
  mark_dead alive [] rows = ([], rows)
  mark_dead alive (w ∷ ws) rows =
      let (ids, after) = mark_dead alive ws rows in
      if alive w.worker_id
      then (ids, after)
      else (w.worker_id ∷ ids, S.workers.update (dead_worker_row w) after)

module _ {S : Schema} {R : Rooms} where
  unfoldable pub commit_dead :
      Option Exception → List String × S.workers.Rows → Fleet S R → Answer (List String) × Fleet S R
  commit_dead c ([], rows) f = (ok [], f)
  commit_dead (some e) (id ∷ ids, rows) f = (raise e, f)
  commit_dead none (id ∷ ids, rows) f = (
    ok (id ∷ ids),
    record f {
      db = record (f.db) { workers = rows };
      metrics = f.metrics ++ workers_declared_dead (suc (length ids)) ∷ [];
    },
  )

  unfoldable pub detect_and_mark_dead_workers :
      (String → Bool) → Option Exception → Fleet S R → Answer (List String) × Fleet S R
  detect_and_mark_dead_workers alive c f =
      let active = S.workers.select (λ w. is_active w.status) f.db.workers in
      commit_dead c (mark_dead S alive active f.db.workers) f

-- `age > 10.0`
abbrev pub missing_long : ℕ → Task → Bool
missing_long now t = ltb 10_000_000 (now - or_else t.original_enqueue_at t.created_at)

abbrev pub aged : ℕ → List Task → List Task
aged now [] = []
aged now (t ∷ ts) = if missing_long now t then t ∷ aged now ts else aged now ts

module _ (S : Schema) {R : Rooms} where
  -- PENDING rows without a retry time that are old enough are enqueued again.
  unfoldable pub reconcile_missing_tasks : ℕ → S.tasks.Rows → Queue R → Queue R
  reconcile_missing_tasks now rows q =
      enqueue_all
        (aged now (S.tasks.select (λ t. is_pending t.status && is_none t.next_retry_at) rows)) q

  unfoldable pub reclaimed_metric : ℕ → Fleet S R → Fleet S R
  reclaimed_metric zero f = f
  reclaimed_metric (suc n) f = record f { metrics = f.metrics ++ tasks_reclaimed (suc n) ∷ [] }

  module _ (parse : String → Option ℕ) (show : ℕ → String)
      (circumstances : String → Circumstances S) where
    -- An exception leaves the loop, and with it the cycle.
    unfoldable pub reclaim_from : List String → Fleet S R → Answer ℕ × Fleet S R
    reclaim_from [] f = (ok 0, f)
    reclaim_from (w ∷ ws) f =
        let (answer, after) = reclaim_tasks_from_dead_worker S parse show (circumstances w) w f in
        elim answer [
          | raise e ↦ (raise e, after)
          | ok n ↦ reclaim_from ws (reclaimed_metric n after)
        ]

    unfoldable pub reconcile_after : ℕ → Answer ℕ × Fleet S R → Fleet S R
    reconcile_after now (raise e, f) = f
    reconcile_after now (ok n, f) = record f {
      queue = reconcile_missing_tasks now f.db.tasks f.queue;
    }

    unfoldable pub reclaim_after : ℕ → Answer (List String) × Fleet S R → Fleet S R
    reclaim_after now (raise e, f) = f
    reclaim_after now (ok ids, f) = reconcile_after now (reclaim_from ids f)

    -- One cycle; `acquired` is whether the reaper lock was free.
    unfoldable pub reaper_cycle :
        Bool → (String → Bool) → Option Exception → ℕ → Fleet S R → Fleet S R
    reaper_cycle acquired alive c now f =
        if acquired then reclaim_after now (detect_and_mark_dead_workers alive c f) else f

aged-All : (P : Task → Type 0) (now : ℕ) (ts : List Task) → All P ts → All P (aged now ts)
aged-All P now [] a = tt
aged-All P now (t ∷ ts) a = elim (Bool-cases (missing_long now t)) [
  | inl e ↦ rw e (a.0, aged-All P now ts a.1)
  | inr e ↦ rw e (aged-All P now ts a.1)
]

In-aged :
    (now : ℕ) (t : Task) (ts : List Task) → missing_long now t ≡ true → In t ts → In t (aged now ts)
In-aged now t [] h i = absurd i
In-aged now t (u ∷ us) h (inl e) = rw (ap (missing_long now) (sym e) ∙ h) (inl e)
In-aged now t (u ∷ us) h (inr i) =
    if-cases (λ (l : List Task). In t l) (missing_long now u) (u ∷ aged now us) (aged now us)
      (λ e. inr (In-aged now t us h i)) (λ e. In-aged now t us h i)

-- After a reconciliation every row of the table that is PENDING, has no time to retry at and was
-- first enqueued more than ten seconds ago waits in its tenant's room with its score.
pub reconcile-Waits :
    (S : Schema) {R : Rooms} (now : ℕ) (rows : S.tasks.Rows) (q : Queue R) (t : Task)
    → S.tasks.find t.id rows ≡ some t
    → (is_pending t.status && is_none t.next_retry_at) ≡ true
    → missing_long now t ≡ true
    → Waits (reconcile_missing_tasks S now rows q) t
unfolding reconcile_missing_tasks
reconcile-Waits S now rows q t f e old =
    let p : Task → Bool = λ t. is_pending t.status && is_none t.next_retry_at in
    let all =
      enqueue_all-Waits S rows _ q
        (aged-All _ now _ (in_table S p rows _ (S.tasks.select_sound p rows))) in
    All-In (Waits (enqueue_all (aged now (S.tasks.select p rows)) q)) _ all
      (In-aged now t _ old (S.tasks.select_complete p rows t f e))
