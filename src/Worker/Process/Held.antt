-- ===== src/Worker/Process/Held.antt =====
-- What `process_task` (src/fairlane/worker/main.py) keeps true of the database, whatever the
-- limiter, the work and the commits answer.
use fairlane.Prelude.{
  ℕ, String, ◌≡◌, refl, Bool, true, false, Option, none, some, Bool-cases, inl, inr, str_eq, sym,
  ap,
}
use fairlane.Models.{Task}
use fairlane.Retry.{Exception}
use fairlane.Database.{Schema, Db}
use fairlane.Worker.State.{
  World, Answers, Answer, ok, raise, RateLimitResult, Ending, finished, left, raised,
}
use fairlane.Worker.Inject.{Number, number, bad}
use fairlane.Worker.Failure.{log, ack}
use fairlane.Worker.Failure.Held.{handle_failure-Held}
use fairlane.Worker.Process.{
  end_failed, started_row, owned_by, run_side_effect, throttle_commit, throttle, finish_commit,
  complete_row, complete, work, execute, start_commit, start, slot_gate, rate_gate, release,
  end_task, run_task, with_uuid, process_task,
}
use fairlane.Worker.Process.Outcome.{run_side_effect-tasks}
use fairlane.System.Closed.{Closed, Found}
use fairlane.System.Rows.{found_self}

module _ {S : Schema} (worker : String) (A : Answers S) (m : String) (I : Db S → Type 0)
    (closed : Closed S I) (others : (d : Db S) → I d → I (A.others d))
    (typed : (d : Db S) (id : ℕ) (t u : Task)
      → S.tasks.find id d.tasks ≡ some t
      → S.tasks.find id (A.others d).tasks ≡ some u
      → t.task_type ≡ u.task_type) where
  abbrev Held : World S → Type 0
  Held w = I w.db

  -- The row of the task, if there is one, has the type of the task at hand.
  abbrev Typed : Task → World S → Type 0
  Typed t w = (u : Task) → S.tasks.find t.id w.db.tasks ≡ some u → t.task_type ≡ u.task_type

  finish_commit-Held :
      (t : Task) (slept : ℕ) (d : Db S) (w : World S) (c : Option Exception)
      → I d
      → Held w
      → Held (finish_commit worker A t slept d m w c).1
  unfolding finish_commit ack log
  finish_commit-Held t slept d w (some e) n h = h
  finish_commit-Held t slept d w none n h = n

  complete_row-Held :
      (t : Task) (slept : ℕ) (w : World S) (o : Option Task)
      → S.tasks.find t.id w.db.tasks ≡ o
      → Typed t w
      → Held w
      → Held (complete_row worker A t slept m w (run_side_effect t w.db) o).1
  unfolding complete_row ack log
  complete_row-Held t slept w none f y h = h
  complete_row-Held t slept w (some r) f y h = elim (Bool-cases (owned_by worker r)) [
    | inl o ↦ rw o (
        finish_commit-Held t slept _ w A.finish_commit
          (closed.succeeded w.db t r A.finish_now worker _ f o (y r f) h) h)
    | inr o ↦ rw o h
  ]

  complete-Held :
      (t : Task) (slept : ℕ) (w : World S)
      → Typed t w
      → Held w
      → Held (complete worker A t slept m w).1
  unfolding complete
  complete-Held t slept w y h =
      complete_row-Held t slept w _
        (sym (ap (S.tasks.find t.id) (run_side_effect-tasks worker A m t w.db))) y h

  work-Held :
      (t : Task) (w : World S) (k : Number) (a : Option Exception)
      → Typed t w
      → Held w
      → Held (work worker A t m w k a).1
  unfolding work
  work-Held t w (bad e) a y h = h
  work-Held t w (number k) (some e) y h = h
  work-Held t w (number k) none y h = complete-Held t k w y h

  execute-Held :
      (t : Task) (w : World S) (a : Option Exception)
      → Typed t w
      → Held w
      → Held (execute worker A t m w a).1
  unfolding execute
  execute-Held t w (some e) y h = h
  execute-Held t w none y h = work-Held t w _ _ y h

  start_commit-Held :
      (t r : Task) (d : Db S) (w : World S) (c : Option Exception)
      → Found S r d
      → I d
      → Held w
      → Held (start_commit worker A t r d m w c).1
  unfolding start_commit log
  start_commit-Held t r d w (some e) f n h = h
  start_commit-Held t r d w none f n h =
      execute-Held r _ _ (λ u g. typed d r.id r u f g) (others d n)

  start-Held : (t : Task) (w : World S) → Found S t w.db → Held w → Held (start worker A t m w).1
  unfolding start log started_row
  start-Held t w p h =
      start_commit-Held t _ _ _ A.start_commit (S.tasks.find_update_self _ t w.db.tasks p)
        (closed.started w.db t A.start_now worker _ p h) h

  throttle_commit-Held :
      (t : Task) (d : Db S) (w : World S) (c : Option Exception)
      → I d
      → Held w
      → Held (throttle_commit worker A t d m w c).1
  unfolding throttle_commit log ack
  throttle_commit-Held t d w (some e) n h = h
  throttle_commit-Held t d w none n h = n

  throttle-Held :
      (reason : String) (delay : ℕ) (t : Task) (w : World S)
      → Found S t w.db
      → Held w
      → Held (throttle worker A reason delay m t w).1
  unfolding throttle
  throttle-Held reason delay t w p h =
      throttle_commit-Held t _ w A.throttle_commit (closed.throttled w.db t _ _ p h) h

  slot_gate-Held :
      (t : Task) (w : World S) (a : Answer Bool)
      → Found S t w.db
      → Held w
      → Held (slot_gate worker A t m w a).1.1
  unfolding slot_gate
  slot_gate-Held t w (raise e) p h = h
  slot_gate-Held t w (ok false) p h = throttle-Held _ _ t w p h
  slot_gate-Held t w (ok true) p h = start-Held t w p h

  rate_gate-Held :
      (t : Task) (w : World S) (a : Answer RateLimitResult)
      → Found S t w.db
      → Held w
      → Held (rate_gate worker A t m w a).1.1
  unfolding rate_gate
  rate_gate-Held t w (raise e) p h = h
  rate_gate-Held t w (ok r) p h = elim (Bool-cases r.allowed) [
    | inl e ↦ rw e (slot_gate-Held t w A.slot p h)
    | inr e ↦ rw e (throttle-Held _ _ t w p h)
  ]

  end_failed-Held :
      (kept slot : Bool) (t : Task) (w : World S)
      → Held w
      → Held (end_failed worker A kept slot t w)
  unfolding end_failed release log
  end_failed-Held true slot t w h = h
  end_failed-Held false slot t w h = h

  end_task-Held :
      (id : ℕ) (t : Task) (slot : Bool) (e : Ending) (w : World S)
      → Held w
      → Held (end_task worker A id m t slot e w)
  unfolding end_task release log
  end_task-Held id t slot finished w h = h
  end_task-Held id t slot left w h = h
  end_task-Held id t slot (raised e) w h =
      end_failed-Held _ slot t _ (handle_failure-Held worker A I closed id m e w h)

  run_task-Held :
      (id : ℕ) (w : World S) (o : Option Task)
      → ((t : Task) → o ≡ some t → Found S t w.db)
      → Held w
      → Held (run_task worker A id m w o)
  unfolding run_task ack log
  run_task-Held id w none p h = h
  run_task-Held id w (some t) p h =
      end_task-Held id t _ _ _ (rate_gate-Held t w A.allow (p t refl) h)

  with_uuid-Held : (w : World S) (id : Option ℕ) → Held w → Held (with_uuid worker A m w id)
  unfolding with_uuid ack log
  with_uuid-Held w none h = h
  with_uuid-Held w (some id) h = run_task-Held id w _ (λ t f. found_self S id t w.db f) h

  -- A property of the database that every transaction keeps, and that the other processes keep,
  -- holds after the message is processed.
  pub process_task-Held :
      (parse_uuid : String → Option ℕ) (task_id : Option String) (w : World S)
      → Held w
      → Held (process_task worker A parse_uuid m task_id w)
  unfolding process_task ack log
  process_task-Held parse_uuid none w h = h
  process_task-Held parse_uuid (some s) w h = elim (Bool-cases (str_eq s "")) [
    | inl e ↦ rw e h
    | inr e ↦ rw e (with_uuid-Held w (parse_uuid s) h)
  ]
