-- ===== src/System/Run.antt =====
-- Runs of the whole system: the operations of src/fairlane on one database, in any order, with any
-- answers of the services, and with the operations of other processes while a worker is at
-- work and before a reclamation ends, but not between a reading and the first commit after it.
use fairlane.Prelude.{ℕ, String, ◌≡◌, Bool, Option, some, List, ◌++◌, sym, ap, ◌∙◌}
use fairlane.Models.{Task}
use fairlane.Retry.{Exception}
use fairlane.Answer.{ok}
use fairlane.Database.{Schema, Db}
use fairlane.Scheduler.Queue.{Rooms, Queue}
use fairlane.Scheduler.Poll.{poll_and_requeue}
use fairlane.Scheduler.Poll.Held.{poll_and_requeue-Held}
use fairlane.Worker.State.{World, Answers}
use fairlane.Worker.Process.{process_task}
use fairlane.Worker.Process.Held.{process_task-Held}
use fairlane.Reaper.Reclaim.{Fleet, Circumstances, reclaim_tasks_from_dead_worker}
use fairlane.Reaper.Reclaim.Held.{reclaim-Held}
use fairlane.Reaper.Cycle.{detect_and_mark_dead_workers}
use fairlane.Reaper.Held.{detect-Held}
use fairlane.Scheduler.Dispatch.{dispatch_events}
use fairlane.Worker.Daemon.{Daemon, Beat, register, heartbeat_loop, cleanup}
use fairlane.Worker.Daemon.Held.{register-Held, heartbeat_loop-Held, cleanup-Held}
use fairlane.Api.Tenants.{TenantLimitsConfig, set_tenant_limits}
use fairlane.Api.Tenants.Held.{set_tenant_limits-Held}
use fairlane.Api.Service.{Service}
use fairlane.Api.Tasks.{TaskCreate, Request, create_task}
use fairlane.Api.Tasks.Held.{create_task-Held}
use fairlane.Api.Replay.{ReplayRequest, replay_dead_letter}
use fairlane.Api.Replay.Held.{replay_dead_letter-Held}
use fairlane.Api.Bulk.{Moments, BulkReplayRequest, replay_bulk}
use fairlane.Api.Bulk.Held.{replay_bulk-Held}
use fairlane.System.Closed.{Closed, polling, polled_db}
use fairlane.System.Persists.{Identity, identity, Persists, Persists-refl, Persists-Closed}
use fairlane.System.Rowwise.{Grows}
use fairlane.System.Rowwise.Record.{Grows-refl, Grows-Closed}

-- Each operation takes the database that the run has reached; what others do while it runs is a
-- run too. A worker's reading of a row and its first commit for it are one step: what others commit
-- between the two, while it waits for the limiter, is not in a run.
pub data Run (S : Schema) (R : Rooms) : Db S → Db S → Type 0 where
  here : {d : Db S} → Run S R d d
  create :
      {d : Db S} (r : Request) (c : TaskCreate) (s : Service S R)
      → Run S R d s.db
      → Run S R d (create_task r c s).1.db
  process :
      {d : Db S} (worker : String) (A : Answers S) (parse : String → Option ℕ) (m : String)
      (task_id : Option String) (w : World S)
      → ((e : Db S) → Run S R e (A.others e))
      → Run S R d w.db
      → Run S R d (process_task worker A parse m task_id w).db
  poll :
      {d e : Db S} (locked : ℕ → Bool) (now : ℕ) (c : Option Exception) (q : Queue R)
      → Run S R d e
      → Run S R d (polled_db e (poll_and_requeue locked now c (polling e q)).1)
  reclaim :
      {d : Db S} (parse : String → Option ℕ) (show : ℕ → String) (C : Circumstances S)
      (dead_worker : String) (f : Fleet S R)
      → ((e : Db S) → Run S R e (C.others e))
      → Run S R d f.db
      → Run S R d (reclaim_tasks_from_dead_worker S parse show C dead_worker f).1.db
  replay :
      {d : Db S} (id : ℕ) (body : Option ReplayRequest) (now : ℕ) (commit redis : Option Exception)
      (s : Service S R)
      → Run S R d s.db
      → Run S R d (replay_dead_letter id body now commit redis s).1.db
  replay_all :
      {d : Db S} (M : Moments) (b : BulkReplayRequest) (s : Service S R)
      → Run S R d s.db
      → Run S R d (replay_bulk M b s).1.db
  dispatch :
      {d e : Db S} (now : ℕ) (ts : List Task)
      → Run S R d e
      → Run S R d (record e { events = e.events ++ dispatch_events now ts })
  detect :
      {d : Db S} (alive : String → Bool) (c : Option Exception) (f : Fleet S R)
      → Run S R d f.db
      → Run S R d (detect_and_mark_dead_workers alive c f).1.db
  set_limits :
      {d : Db S} (tenant : String) (c : TenantLimitsConfig) (commit redis : Option Exception)
      (s : Service S R)
      → Run S R d s.db
      → Run S R d (set_tenant_limits tenant c commit redis s).1.db
  enlist :
      {d : Db S} (worker hostname : String) (now : ℕ) (c : Option Exception) (x y : Daemon S)
      → register worker hostname now c x ≡ ok y
      → Run S R d x.db
      → Run S R d y.db
  beat :
      {d : Db S} (worker : String) (bs : List Beat) (x : Daemon S)
      → Run S R d x.db
      → Run S R d (heartbeat_loop worker bs x).db
  stop :
      {d : Db S} (worker : String) (delete c : Option Exception) (x : Daemon S)
      → Run S R d x.db
      → Run S R d (cleanup worker delete c x).db

same_type :
    (S : Schema) (id : ℕ) (t u : Task) (d : Db S)
    → (v : Task) × (S.tasks.find id d.tasks ≡ some v) × (identity v ≡ identity t)
    → S.tasks.find id d.tasks ≡ some u
    → t.task_type ≡ u.task_type
same_type S id t u d k g =
    let (v, f, i) = k in
    let w : v ≡ u = cc in
    sym (ap (λ (x : Identity). x.task_type) i) ∙ ap (λ (x : Task). x.task_type) w

-- A property of the database that every transaction keeps holds throughout every run.
pub Run-Held :
    {S : Schema} {R : Rooms} (I : Db S → Type 0) {d e : Db S} → Closed S I → Run S R d e → I d → I e
Run-Held I closed here h = h
Run-Held I closed (create r c s run) h = create_task-Held I closed r c s (Run-Held I closed run h)
Run-Held {S} I closed (process worker A parse m task_id w others run) h =
    process_task-Held worker A m I closed (λ d g. Run-Held I closed (others d) g)
      (λ d id t u f g.
        let kept =
          Run-Held (λ x. Persists S d.tasks x.tasks) (Persists-Closed d.tasks) (others d)
            (Persists-refl S d.tasks) in
        same_type S id t u (A.others d) (kept id t f) g)
      parse task_id w (Run-Held I closed run h)
Run-Held I closed (poll {e} locked now c q run) h =
    poll_and_requeue-Held I closed locked now e c (polling e q) (Run-Held I closed run h)
Run-Held {S} I closed (reclaim parse show C dead_worker f others run) h =
    reclaim-Held S parse C I closed (λ d g. Run-Held I closed (others d) g) show dead_worker f
      (Run-Held I closed run h)
Run-Held I closed (replay id body now commit redis s run) h =
    replay_dead_letter-Held I closed id body now commit redis s (Run-Held I closed run h)
Run-Held I closed (replay_all M b s run) h =
    replay_bulk-Held I closed M b s (Run-Held I closed run h)
Run-Held I closed (dispatch {e} now ts run) h = closed.dispatched e now ts (Run-Held I closed run h)
Run-Held I closed (detect alive c f run) h =
    detect-Held I closed alive c f (Run-Held I closed run h)
Run-Held I closed (set_limits tenant c commit redis s run) h =
    set_tenant_limits-Held I closed tenant c commit redis s (Run-Held I closed run h)
Run-Held I closed (enlist worker hostname now c x y q run) h =
    register-Held I closed worker hostname now c x y q (Run-Held I closed run h)
Run-Held I closed (beat worker bs x run) h =
    heartbeat_loop-Held I closed worker bs x (Run-Held I closed run h)
Run-Held I closed (stop worker delete c x run) h =
    cleanup-Held I closed worker delete c x (Run-Held I closed run h)

-- In every run, whatever the services answer, no task is lost: a row that is there at the start is
-- there at the end, with the same tenant, type, priority, number of attempts allowed, time of
-- creation and idempotency key.
pub Run-Persists : {S : Schema} {R : Rooms} {d e : Db S} → Run S R d e → Persists S d.tasks e.tasks
Run-Persists {S} {d = d} run =
    Run-Held (λ x. Persists S d.tasks x.tasks) (Persists-Closed d.tasks) run
      (Persists-refl S d.tasks)

-- In every run, whatever the services answer, the log only grows: the events at the end are those at
-- the start with more behind them, and every dead letter and every side effect is still there.
pub Run-Grows : {S : Schema} {R : Rooms} {d e : Db S} → Run S R d e → Grows S d e
Run-Grows {S} {d = d} run = Run-Held (Grows S d) (Grows-Closed d) run (Grows-refl d)
