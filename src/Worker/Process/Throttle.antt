-- ===== src/Worker/Process/Throttle.antt =====
-- The task that the limiter turns away (`process_task` of src/fairlane/worker/main.py).
use fairlane.Prelude.{if◌then◌else◌, Bool-cases, inl, inr}
use fairlane.Prelude.{
  ℕ, ◌+◌, ◌*◌, String, ◌≡◌, refl, ap, ◌∙◌, Bool, true, false, Option, none, some,
}
use fairlane.Models.{Task, TaskStatus}
use fairlane.Database.{Schema, Db}
use fairlane.Worker.State.{World, Answers, Answer, ok, raise, RateLimitResult, Ending, left}
use fairlane.Worker.Failure.{log, ack}
use fairlane.Worker.Failure.Outcome.{find-update}
use fairlane.Worker.Process.{
  throttle_row, throttle_commit, throttle, slot_gate, rate_gate, run_task, process_task,
}
use fairlane.Worker.Process.Delivery.{named}
use fairlane.Worker.Process.Outcome.{end_task-db}
use fairlane.Worker.Process.Named.{named-run}

abbrev pub slot_wait : (ℕ → ℕ → ℕ) → Answer Bool → Option ℕ
slot_wait uniform (raise e) = none
slot_wait uniform (ok true) = none
slot_wait uniform (ok false) = some (5_000_000 + uniform 100_000 1_000_000)

abbrev pub rate_wait : (ℕ → ℕ → ℕ) → Answer RateLimitResult → Answer Bool → Option ℕ
rate_wait uniform (raise e) slot = none
rate_wait uniform (ok r) slot =
    if r.allowed
    then slot_wait uniform slot
    else some (r.retry_after_ms * 1000 + uniform 100_000 500_000)

-- The time that the limiter makes the task wait for, if it turns it away.
abbrev pub turned_away : {S : Schema} → Answers S → Option ℕ
turned_away A = rate_wait A.uniform A.allow A.slot

module _ {S : Schema} (worker : String) (A : Answers S) (m : String) (id : ℕ) (w : World S)
    (t : Task) (commit : A.throttle_commit ≡ none) where
  throttle-left :
      (reason : String) (delay : ℕ)
      → (v : World S) × (throttle worker A reason delay m t w ≡ (left, v))
        × (v.db.tasks ≡ S.tasks.update (throttle_row (A.start_now + delay) t) w.db.tasks)
  unfolding throttle throttle_commit log ack
  throttle-left reason delay = rw commit (_, refl, refl)

  abbrev Left : Bool × (Ending × World S) → ℕ → Type 0
  Left g delay =
      (v : World S) × (g ≡ (false, (left, v)))
      × (v.db.tasks ≡ S.tasks.update (throttle_row (A.start_now + delay) t) w.db.tasks)

  throttle-Left :
      (reason : String) (n delay : ℕ)
      → ◌≡◌ {A = Option ℕ} (some n) (some delay)
      → Left (false, throttle worker A reason n m t w) delay
  throttle-Left reason n delay h =
      let e : n ≡ delay = cc in
      let (v, p, q) = throttle-left reason n in
      (v, ap (λ (x : Ending × World S). (false, x)) p, rw (← e) q)

  slot_gate-Left :
      (delay : ℕ) (a : Answer Bool)
      → slot_wait A.uniform a ≡ some delay
      → Left (slot_gate worker A t m w a) delay
  unfolding slot_gate
  slot_gate-Left delay (raise e) h = absurd (cc)
  slot_gate-Left delay (ok true) h = absurd (cc)
  slot_gate-Left delay (ok false) h = throttle-Left _ _ delay h

  rate_gate-Left :
      (delay : ℕ) (a : Answer RateLimitResult)
      → rate_wait A.uniform a A.slot ≡ some delay
      → Left (rate_gate worker A t m w a) delay
  unfolding rate_gate
  rate_gate-Left delay (raise e) h = absurd (cc)
  rate_gate-Left delay (ok r) h = elim (Bool-cases r.allowed) [
    | inl e ↦ rw e (slot_gate-Left delay A.slot (rw e at h))
    | inr e ↦ rw e (throttle-Left _ _ delay (rw e at h))
  ]

  run_task-left :
      (delay : ℕ)
      → turned_away A ≡ some delay
      → (run_task worker A id m w (some t)).db.tasks
        ≡ S.tasks.update (throttle_row (A.start_now + delay) t) w.db.tasks
  unfolding run_task
  run_task-left delay h =
      let (v, p, q) = rate_gate-Left delay A.allow h in
      rw p (ap (λ (d : Db S). d.tasks) (end_task-db worker A m id t false v).1 ∙ q)

-- A task that the limiter turns away is PENDING with a time to retry at once the commit went
-- through, the wait that the limiter asked for from now; whatever its status was, so that a task
-- that had SUCCEEDED or was DEAD is PENDING again. Its attempts and its other fields stay.
pub process_task-throttles :
    {S : Schema} (worker : String) (A : Answers S) (parse_uuid : String → Option ℕ) (m : String)
    (task_id : Option String) (w : World S) (t : Task) (delay : ℕ)
    → named S parse_uuid task_id w.db ≡ some t
    → turned_away A ≡ some delay
    → A.throttle_commit ≡ none
    → S.tasks.find t.id (process_task worker A parse_uuid m task_id w).db.tasks
      ≡ some (record t { status = TaskStatus.pending; next_retry_at = some (A.start_now + delay) })
process_task-throttles {S} worker A parse_uuid m task_id w t delay h away commit =
    let (found, run) = named-run worker A parse_uuid m task_id w t h in
    rw (run, run_task-left worker A m t.id w t commit delay away)
      (find-update S t.id w.db.tasks t _ found refl)
