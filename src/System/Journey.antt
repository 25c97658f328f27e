-- ===== src/System/Journey.antt =====
-- One task from its submission (src/fairlane/api/routes.py) to the end of its first attempt
-- (src/fairlane/worker/main.py).
use mathlib.Core.Path.{subst}
use fairlane.Prelude.{ℕ, String, ◌≡◌, sym, ap, ◌∙◌, Option, none, some}
use fairlane.Models.{Task, TaskStatus}
use fairlane.Answer.{ok}
use fairlane.Database.{Schema}
use fairlane.Scheduler.Queue.{Rooms}
use fairlane.Worker.State.{World, Answers}
use fairlane.Worker.Inject.{injected, sleep_time}
use fairlane.Worker.Process.{process_task}
use fairlane.Worker.Process.Delivery.{named}
use fairlane.Worker.Process.Outcome.{error_of}
use fairlane.Worker.Process.Attempt.{Undisturbed}
use fairlane.Worker.Process.Lifecycle.{attempted, process_task-outcome}
use fairlane.Api.Service.{sent, Service}
use fairlane.Api.Tasks.{TaskCreate, Request, new_task, existing, create_task}
use fairlane.Api.Tasks.Created.{create_task-stores}

-- The row of the task that a request asked for after a successful first attempt.
abbrev pub done_row : {S : Schema} → Request → TaskCreate → Answers S → Task
done_row r c A = record {
  id = r.new_id;
  tenant_id = c.tenant_id;
  task_type = c.task_type;
  payload = c.payload;
  priority = c.priority;
  status = TaskStatus.succeeded;
  attempts = 1;
  max_attempts = 5;
  idempotency_key = c.idempotency_key;
  created_at = r.now;
  started_at = some A.start_now;
  finished_at = some A.finish_now;
  next_retry_at = none;
  original_enqueue_at = none;
  last_error = none;
  locked_by = none;
  locked_at = none;
}

-- A task that a request has stored, and whose message a worker then processes undisturbed, has
-- SUCCEEDED if its first attempt raises nothing: the row has the tenant, type, payload, priority and
-- key that were submitted, one attempt counted, its creation, start and end, and no lock.
pub create_task-process_task :
    {S : Schema} {R : Rooms} (r : Request) (c : TaskCreate) (s after : Service S R) (id : ℕ)
    (worker : String) (A : Answers S) (parse_uuid : String → Option ℕ) (m : String)
    (task_id : Option String) (w : World S)
    → existing c s.db ≡ ok none
    → create_task r c s ≡ (sent id, after)
    → w.db ≡ after.db
    → named S parse_uuid task_id w.db ≡ S.tasks.find id w.db.tasks
    → S.dead_letters.find id w.db.dead_letters ≡ none
    → Undisturbed S A id
    → error_of
        (injected A.read_float A.read_int A.roll 1 c.payload)
        (sleep_time A.read_float c.payload)
        A.work
      ≡ none
    → S.tasks.find id (process_task worker A parse_uuid m task_id w).db.tasks
      ≡ some (done_row r c A)
unfolding new_task
create_task-process_task {S} r c s after id worker A parse_uuid m task_id w e h d n free u q =
    let (st, quota, f) = create_task-stores r c s after id e h in
    let found : S.tasks.find id w.db.tasks ≡ some (new_task r c) = rw d f in
    let k : id ≡ r.new_id = st.0 in
    ap (λ j. S.tasks.find j (process_task worker A parse_uuid m task_id w).db.tasks) k
    ∙ process_task-outcome worker A parse_uuid m task_id w (new_task r c) (n ∙ found)
        (subst (Undisturbed S A) k u)
        (ap (λ j. S.dead_letters.find j w.db.dead_letters) (sym k) ∙ free)
    ∙ ap (λ x. some (attempted worker A (new_task r c) x)) q
