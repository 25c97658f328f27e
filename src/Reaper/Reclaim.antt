-- ===== src/Reaper/Reclaim.antt =====
-- `_reclaim_tasks_from_dead_worker` of src/fairlane/reaper.py.
pub mod Rows
pub mod Letters
pub mod Held
use fairlane.Prelude.{
  ℕ, suc, ◌+◌, String, Bool, true, false, ◌&&◌, Option, none, some, List, [], ◌∷◌, ◌++◌, leb,
  str_eq, if◌then◌else◌,
}
use fairlane.Models.{
  int, str, time, category, Task, TaskStatus, TaskEvent, EventType, DeadLetter, FailureCategory,
  is_pending, is_running, is_dead, is_succeeded,
}
use fairlane.Retry.{Exception, ExceptionType}
use fairlane.Answer.{Answer, ok, raise}
use fairlane.Database.{Schema, Db}
use fairlane.Metrics.{Metric, tasks_completed, dlq_total}
use fairlane.Scheduler.Queue.{Rooms, Queue, enqueue}
use fairlane.Worker.Process.{owned_by}
use fairlane.Reaper.Claim.{Page, Claimed, add, claim}

-- `task.status in (TaskStatus.SUCCEEDED, TaskStatus.DEAD)`
abbrev pub terminal : TaskStatus → Bool
terminal TaskStatus.succeeded = true
terminal TaskStatus.dead = true
terminal _ = false

-- The attempt that the worker did not survive is counted, and was the last one.
abbrev pub exhausted : Task → Bool
exhausted t = leb t.max_attempts (t.attempts + 1)

unfoldable pub reclaimed_row : ℕ → Task → Task
reclaimed_row now t =
    let u = record t { locked_by = none; locked_at = none; attempts = t.attempts + 1 } in
    if exhausted t
    then record u { status = TaskStatus.dead; finished_at = some now; next_retry_at = none }
    else record u { status = TaskStatus.pending; next_retry_at = none }

unfoldable pub poison_letter : ℕ → String → Task → DeadLetter
poison_letter now dead_worker t = record {
  task_id = t.id;
  tenant_id = t.tenant_id;
  task_type = t.task_type;
  failure_category = FailureCategory.poison_pill;
  last_error = some "Task crashed worker and exceeded max_attempts";
  error_history =
      (("attempt", int (t.attempts + 1))
        ∷ ("error", str "Worker died while running this task")
        ∷ ("timestamp", time now)
        ∷ [])
      ∷ [];
  attempts_made = t.attempts + 1;
  dead_at = now;
  replayed_at = none;
  replay_count = 0;
}

reclaim_event : ℕ → String → Task → TaskEvent
reclaim_event now dead_worker t = record {
  task_id = t.id;
  event_type = if exhausted t then EventType.dead_lettered else EventType.reclaimed;
  details =
      ("dead_worker_id", str dead_worker)
      ∷ ("attempt", int (t.attempts + 1))
      ∷ (if exhausted t
          then ("failure_category", category FailureCategory.poison_pill)
            ∷ ("reason", str "exceeded max_attempts after worker death")
            ∷ []
          else ("reason", str "worker died") ∷ []);
  created_at = now;
}

-- The session of step 3: its rows, what it has added and counted.
pub record Session (S : Schema) : Type 0 where
  pub tasks : S.tasks.Rows
  pub letters : List DeadLetter
  pub events : List TaskEvent
  pub metrics : List Metric
  pub count : ℕ

module _ {S : Schema} (now : ℕ) (dead_worker : String) where
  -- One task that is not finished.
  unfoldable pub reclaim_task : Task → Session S → Session S
  unfolding reclaim_event
  reclaim_task t s = record {
    tasks = S.tasks.update (reclaimed_row now t) s.tasks;
    letters = if exhausted t then s.letters ++ poison_letter now dead_worker t ∷ [] else s.letters;
    events = s.events ++ reclaim_event now dead_worker t ∷ [];
    metrics =
        if exhausted t
        then s.metrics
          ++ tasks_completed t.tenant_id t.task_type "dead"
            ∷ dlq_total t.tenant_id FailureCategory.poison_pill
            ∷ []
        else s.metrics;
    count = suc s.count;
  }

  unfoldable pub reclaim_row : Option Task → Session S → Session S
  reclaim_row none s = s
  reclaim_row (some t) s = if terminal t.status then s else reclaim_task t s

  -- One text: no UUID in it is an error that is logged, and no row is skipped.
  unfoldable pub reclaim_id : Option ℕ → Session S → Session S
  reclaim_id none s = s
  reclaim_id (some id) s = reclaim_row (S.tasks.find id s.tasks) s

  unfoldable pub reclaim_ids : (String → Option ℕ) → List String → Session S → Session S
  reclaim_ids parse [] s = s
  reclaim_ids parse (x ∷ xs) s = reclaim_ids parse xs (reclaim_id (parse x) s)

-- The commit inserts the dead letters one by one; a task id that is taken makes it fail.
unfoldable pub insert_all :
    (S : Schema) → List DeadLetter → S.dead_letters.Rows → Option S.dead_letters.Rows
insert_all S [] rows = some rows
insert_all S (d ∷ ds) rows = elim (S.dead_letters.insert d rows) [
  | none ↦ none
  | some after ↦ insert_all S ds after
]

unfoldable pub commit_session :
    {S : Schema} → Option Exception → Db S → Session S → Option S.dead_letters.Rows → Answer (Db S)
commit_session c db s none =
    raise (record { type = ExceptionType.integrity_error; message = "duplicate key value" })
commit_session (some e) db s (some rows) = raise e
commit_session none db s (some rows) =
    ok (record db { tasks = s.tasks; dead_letters = rows; events = db.events ++ s.events })

-- The database, the waiting rooms, the messages acknowledged and deleted (latest first), the
-- consumers that were deleted, and the metrics counted.
pub record Fleet (S : Schema) (R : Rooms) : Type 0 where
  pub db : Db S
  pub queue : Queue R
  pub acked : List String
  pub deleted : List String
  pub metrics : List Metric

-- The session before its first statement.
abbrev pub opened_on : {S : Schema} → Db S → Session S
opened_on d = record { tasks = d.tasks; letters = []; events = []; metrics = []; count = 0 }

abbrev pub opened : {S : Schema} {R : Rooms} → Fleet S R → Session S
opened f = opened_on f.db

-- What the world answers: the pages of XAUTOCLAIM, the commit, what the other processes commit
-- after it, for which tasks Redis takes the enqueue, and the clock.
pub record Circumstances (S : Schema) : Type 0 where
  pub pages : List (Answer Page)
  pub commit : Option Exception
  pub others : Db S → Db S
  pub reachable : ℕ → Bool
  pub now : ℕ

-- The ids of the RUNNING rows that the dead worker has locked.
unfoldable pub add_orphans : (ℕ → String) → List Task → List String → List String
unfolding add
add_orphans show [] ids = ids
add_orphans show (t ∷ ts) ids = add_orphans show ts (add (show t.id) ids)

module _ (S : Schema) {R : Rooms} (parse : String → Option ℕ) where
  -- Step 4 for one text: a row that is PENDING is enqueued.
  unfoldable pub redeliver_row : (ℕ → Bool) → Option Task → Queue R → Queue R
  redeliver_row reachable none q = q
  redeliver_row reachable (some t) q =
      if is_pending t.status && reachable t.id then enqueue t q else q

  unfoldable pub redeliver : (ℕ → Bool) → S.tasks.Rows → List String → Queue R → Queue R
  redeliver reachable rows [] q = q
  redeliver reachable rows (x ∷ xs) q =
      redeliver reachable rows xs
        (elim (parse x) [ none ↦ q | some id ↦ redeliver_row reachable (S.tasks.find id rows) q ])

  -- Steps 4 and 5, if the commit went through. The rows are read after it.
  unfoldable pub after_commit :
      Circumstances S
      → String
      → List String
      → Session S
      → Fleet S R
      → Answer (Db S)
      → Answer ℕ × Fleet S R
  after_commit C dead_worker ids s f (raise e) = (raise e, f)
  after_commit C dead_worker ids s f (ok db) =
      let db' = C.others db in
      (
        ok s.count,
        record f {
          db = db';
          queue = redeliver C.reachable db'.tasks ids f.queue;
          deleted = f.deleted ++ dead_worker ∷ "reaper" ∷ [];
        },
      )

  -- The ids of step 1 and step 2; `show` is `str` of a UUID.
  unfoldable pub collected : (ℕ → String) → Circumstances S → String → Fleet S R → Claimed
  unfolding claim
  collected show C dead_worker f =
      let c = claim "0-0" C.pages (record { ids = []; acked = [] }) in
      record c {
        ids =
            add_orphans show
              (S.tasks.select (λ t. is_running t.status && owned_by dead_worker t) f.db.tasks)
              c.ids;
      }

  unfoldable pub processed : Circumstances S → String → List String → Fleet S R → Session S
  processed C dead_worker ids f = reclaim_ids C.now dead_worker parse ids (opened f)

  unfoldable pub reclaim_tasks_from_dead_worker :
      (ℕ → String) → Circumstances S → String → Fleet S R → Answer ℕ × Fleet S R
  reclaim_tasks_from_dead_worker show C dead_worker f =
      let c = collected show C dead_worker f in
      let s = processed C dead_worker c.ids f in
      after_commit C dead_worker c.ids s
        (record f { acked = c.acked ++ f.acked; metrics = f.metrics ++ s.metrics })
        (commit_session C.commit f.db s (insert_all S s.letters f.db.dead_letters))
