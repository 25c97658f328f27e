-- ===== src/System/Retries.antt =====
-- The attempts on one task until it is settled: a worker (src/fairlane/worker/main.py) processes
-- its message, and while the task is PENDING again the retry scheduler
-- (src/fairlane/scheduler/__init__.py) puts it back and a worker takes it up once more.
pub mod Settles
use fairlane.Prelude.{
  ℕ, zero, suc, ◌+◌, ◌-◌, ◌≤◌, ◌<◌, String, ◌≡◌, ◌≢◌, ◌⊎◌, refl, sym, ap, ◌∙◌, inl, inr, Bool, true,
  false, Option, none, some, List, [], ◌∷◌, All, length, arith, if◌then◌else◌, Bool-cases,
  Option-cases,
}
use mathlib.Core.Path.{subst}
use fairlane.Models.{Task, TaskStatus, DeadLetter, is_pending}
use fairlane.Retry.{Exception}
use fairlane.Database.{Schema, Db}
use fairlane.Scheduler.Queue.{Rooms, Queue}
use fairlane.Scheduler.Poll.{requeued_row, poll_and_requeue}
use fairlane.Scheduler.Poll.Requeue.{poll_and_requeue-Requeued}
use fairlane.Worker.State.{World, Answers}
use fairlane.Worker.Failure.{may_retry, retry_row, dead_row}
use fairlane.Worker.Process.{started_row, succeeded_row, process_task}
use fairlane.Worker.Process.Delivery.{named}
use fairlane.Worker.Process.Outcome.{attempt_error}
use fairlane.Worker.Process.Attempt.{outcome, Undisturbed}
use fairlane.Worker.Process.Lifecycle.{process_task-row, process_task-dead_row, process_task-free}
use fairlane.System.Closed.{polling, polled_db}

-- A delivery to some worker, with what the world answers, and the poll before the next one.
pub record Attempt (S : Schema) (R : Rooms) : Type 0 where
  pub worker : String
  pub answers : Answers S
  pub message : String
  pub task_id : Option String
  pub polled_at : ℕ
  -- the rows that other transactions have locked then
  pub locked : ℕ → Bool
  pub queue : Queue R

abbrev pub row_is_pending : Option Task → Bool
row_is_pending none = false
row_is_pending (some t) = is_pending t.status

module _ {S : Schema} {R : Rooms} (parse_uuid : String → Option ℕ) where
  unfoldable pub deliver : Attempt S R → World S → World S
  deliver a w = process_task a.worker a.answers parse_uuid a.message a.task_id w

  unfoldable pub polled : Attempt S R → World S → World S
  polled a w = record w {
    db = polled_db w.db (poll_and_requeue a.locked a.polled_at none (polling w.db a.queue)).1;
  }

  unfoldable pub attempts : ℕ → List (Attempt S R) → World S → World S
  unfolding deliver polled
  attempts id [] w = w
  attempts id (a ∷ l) w =
      let done = deliver a w in
      let rest = attempts id l (polled a done) in
      if row_is_pending (S.tasks.find id done.db.tasks) then rest else done

  -- The messages name the task, and nothing disturbs the attempts on it.
  abbrev pub IsCalm : ℕ → Attempt S R → Type 0
  IsCalm id a =
      ((d : Db S) → named S parse_uuid a.task_id d ≡ S.tasks.find id d.tasks)
      × Undisturbed S a.answers id

module _ {S : Schema} where
  -- The task has succeeded, or it is dead and its dead letter is there.
  abbrev pub Settled : ℕ → ℕ → World S → Type 0
  Settled id max_attempts w =
      (r : Task) × (S.tasks.find id w.db.tasks ≡ some r)
      × (r.attempts ≤ max_attempts)
      × ((r.status ≡ TaskStatus.succeeded)
          ⊎ ((r.status ≡ TaskStatus.dead)
              × ((l : DeadLetter) × (S.dead_letters.find id w.db.dead_letters ≡ some l))))

  -- The task may be tried again, with one attempt more behind it.
  abbrev pub Again : ℕ → Task → World S → Type 0
  Again id t w =
      (r : Task) × (S.tasks.find id w.db.tasks ≡ some r)
      × (S.dead_letters.find id w.db.dead_letters ≡ none)
      × (r.attempts ≡ t.attempts + 1)
      × (r.attempts < r.max_attempts)
      × (r.max_attempts ≡ t.max_attempts)

  abbrev pub Decided : ℕ → Task → World S → Type 0
  Decided id t w =
      ((row_is_pending (S.tasks.find id w.db.tasks) ≡ false) × Settled id t.max_attempts w)
      ⊎ ((row_is_pending (S.tasks.find id w.db.tasks) ≡ true) × Again id t w)
