-- ===== src/Worker/Process/Outcome.antt =====
-- What `process_task` (src/fairlane/worker/main.py) leaves in the row of its task.
use fairlane.Prelude.{
  ℕ, ◌-◌, String, ◌≡◌, refl, ap, ◌∙◌, Bool, ◌&&◌, true, false, Option, none, some, [], ◌∷◌, ◌++◌,
  arith, or_else,
}
use fairlane.Models.{Task}
use fairlane.Retry.{Exception}
use fairlane.Database.{Schema, Db}
use fairlane.Metrics.{worker_info, task_wait}
use fairlane.Worker.State.{
  World, Answer, ok, raise, Answers, RateLimitResult, finished, left, raised, committed, measured,
}
use fairlane.Worker.Inject.{Number, number, bad, injected, sleep_time}
use fairlane.Worker.Failure.{log, ack, handle_failure}
use fairlane.Worker.Process.{
  end_failed, started_row, started_event, succeeded_row, owned_by, run_side_effect, finish_commit,
  complete_row, complete, work, execute, start_commit, start, slot_gate, rate_gate, release,
  end_task,
}
use fairlane.Worker.Process.Delivery.{passes, granted}

-- The exception of an attempt: of the hooks, of the sleep time, or of the work.
abbrev pub error_of : Option Exception → Number → Option Exception → Option Exception
error_of (some e) k a = some e
error_of none (bad e) a = some e
error_of none (number s) a = a

module _ {S : Schema} (worker : String) (A : Answers S) (m : String) where
  -- The exception that ends the attempt on the started row `r`, if any.
  abbrev pub attempt_error : Task → Option Exception
  attempt_error r =
      error_of (injected A.read_float A.read_int A.roll r.attempts r.payload)
        (sleep_time A.read_float r.payload) A.work

  work-raises :
      (t : Task) (w : World S) (k : Number) (a : Option Exception) (e : Exception)
      → error_of none k a ≡ some e
      → work worker A t m w k a ≡ (raised e, w)
  unfolding work
  work-raises t w (bad x) a e h = cc
  work-raises t w (number s) (some x) e h = cc
  work-raises t w (number s) none e h = cc

  pub execute-raises :
      (t : Task) (w : World S) (i : Option Exception) (e : Exception)
      → error_of i (sleep_time A.read_float t.payload) A.work ≡ some e
      → execute worker A t m w i ≡ (raised e, w)
  unfolding execute
  execute-raises t w (some x) e h = cc
  execute-raises t w none e h = work-raises t w _ A.work e h

  work-completes :
      (t : Task) (w : World S) (k : Number) (a : Option Exception)
      → error_of none k a ≡ none
      → (slept : ℕ) × (work worker A t m w k a ≡ complete worker A t slept m w)
  unfolding work
  work-completes t w (bad x) a h = absurd (cc)
  work-completes t w (number s) (some x) h = absurd (cc)
  work-completes t w (number s) none h = (s, refl)

  pub execute-completes :
      (t : Task) (w : World S) (i : Option Exception)
      → error_of i (sleep_time A.read_float t.payload) A.work ≡ none
      → (slept : ℕ) × (execute worker A t m w i ≡ complete worker A t slept m w)
  unfolding execute
  execute-completes t w (some x) h = absurd (cc)
  execute-completes t w none h = work-completes t w _ A.work h

  pub run_side_effect-tasks : (t : Task) (d : Db S) → (run_side_effect t d).tasks ≡ d.tasks
  unfolding run_side_effect
  run_side_effect-tasks t d = ground arith

  finish_commit-none :
      (t : Task) (slept : ℕ) (d : Db S) (w : World S) (c : Option Exception)
      → c ≡ none
      → ((finish_commit worker A t slept d m w c).0 ≡ finished)
        × ((finish_commit worker A t slept d m w c).1.db.tasks ≡ d.tasks)
  unfolding finish_commit log ack
  finish_commit-none t slept d w none h = (refl, refl)
  finish_commit-none t slept d w (some e) h = absurd (cc)

  complete_row-owned :
      (t r : Task) (slept : ℕ) (w : World S) (d : Db S)
      → owned_by worker r ≡ true
      → A.finish_commit ≡ none
      → ((complete_row worker A t slept m w d (some r)).0 ≡ finished)
        × ((complete_row worker A t slept m w d (some r)).1.db.tasks
            ≡ S.tasks.update (succeeded_row A.finish_now r) d.tasks)
  unfolding complete_row log ack
  complete_row-owned t r slept w d owned c =
      rw owned (finish_commit-none t slept _ w A.finish_commit c)

  -- The final update of a row that this worker still owns.
  pub complete-owned :
      (t r : Task) (slept : ℕ) (w : World S)
      → S.tasks.find t.id w.db.tasks ≡ some r
      → owned_by worker r ≡ true
      → A.finish_commit ≡ none
      → ((complete worker A t slept m w).0 ≡ finished)
        × ((complete worker A t slept m w).1.db.tasks
            ≡ S.tasks.update (succeeded_row A.finish_now r) w.db.tasks)
  unfolding complete
  complete-owned t r slept w found owned c =
      let d = run_side_effect t w.db in
      let f : S.tasks.find t.id d.tasks ≡ some r = rw (run_side_effect-tasks t w.db) found in
      let (p, q) = complete_row-owned t r slept w d owned c in
      rw f
        (p, q ∙ ap (S.tasks.update (succeeded_row A.finish_now r)) (run_side_effect-tasks t w.db))

  -- The row is gone or has another owner: the worker changes nothing.
  pub complete-lost :
      (t r : Task) (slept : ℕ) (w : World S)
      → S.tasks.find t.id w.db.tasks ≡ some r
      → owned_by worker r ≡ false
      → ((complete worker A t slept m w).0 ≡ left) × ((complete worker A t slept m w).1.db ≡ w.db)
  unfolding complete complete_row log ack
  complete-lost t r slept w found lost =
      let f : S.tasks.find t.id (run_side_effect t w.db).tasks ≡ some r =
        rw (run_side_effect-tasks t w.db) found in
      rw f (rw lost (refl, refl))

  -- The world in which the work begins.
  abbrev pub begun : Task → World S → World S
  begun t w =
      let r = started_row A.start_now worker t in
      log (committed ∷ measured (worker_info worker "RUNNING" t.task_type) ∷ [])
        (record (log
          (measured (
              task_wait t.tenant_id t.priority
                (A.start_now - or_else t.original_enqueue_at t.created_at))
            ∷ [])
          w) {
            db = A.others (record (w.db) {
              tasks = S.tasks.update r w.db.tasks;
              events = w.db.events ++ started_event A.start_now worker r ∷ [];
            });
            current_task_id = some t.id;
          })

  slot_gate-start :
      (t : Task) (w : World S) (a : Answer Bool)
      → granted a ≡ true
      → slot_gate worker A t m w a ≡ (true, start worker A t m w)
  unfolding slot_gate
  slot_gate-start t w (ok true) h = refl
  slot_gate-start t w (ok false) h = cc
  slot_gate-start t w (raise e) h = cc

  pub rate_gate-start :
      (t : Task) (w : World S) (a : Answer RateLimitResult)
      → (passes a && granted A.slot) ≡ true
      → rate_gate worker A t m w a ≡ (true, start worker A t m w)
  unfolding rate_gate
  rate_gate-start t w (raise e) h = cc
  rate_gate-start t w (ok r) h =
      let p : r.allowed ≡ true = ground arith in
      let g : granted A.slot ≡ true = ground arith in rw p (slot_gate-start t w A.slot g)

  start_commit-goes_on :
      (t r : Task) (d : Db S) (w : World S) (c : Option Exception)
      → c ≡ none
      → start_commit worker A t r d m w c ≡ start_commit worker A t r d m w none
  start_commit-goes_on t r d w none h = refl
  start_commit-goes_on t r d w (some e) h = cc

  pub start-begun :
      (t : Task) (w : World S)
      → A.start_commit ≡ none
      → start worker A t m w ≡ (
          let r = started_row A.start_now worker t in
          execute worker A r m
            (begun t w)
            (injected A.read_float A.read_int A.roll r.attempts r.payload))
  unfolding start start_commit log
  start-begun t w c =
      start_commit-goes_on t _ _
        (log
          (measured (
              task_wait t.tenant_id t.priority
                (A.start_now - or_else t.original_enqueue_at t.created_at))
            ∷ [])
          w)
        A.start_commit c

  end_failed-db :
      (kept : Bool) (t : Task) (slot : Bool) (w : World S)
      → (end_failed worker A kept slot t w).db ≡ w.db
  unfolding end_failed release log
  end_failed-db true t slot w = refl
  end_failed-db false t slot w = refl

  pub end_task-db :
      (id : ℕ) (t : Task) (slot : Bool) (w : World S)
      → ((end_task worker A id m t slot finished w).db ≡ w.db)
        × ((end_task worker A id m t slot left w).db ≡ w.db)
        × ((e : Exception)
            → (end_task worker A id m t slot (raised e) w).db
              ≡ (handle_failure worker A id m e w).db)
  unfolding end_task release log
  end_task-db id t slot w = (refl, refl, λ e. end_failed-db _ t slot _)
