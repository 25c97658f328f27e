-- ===== src/Worker/Process/Body.antt =====
-- What the body of the `try` of `process_task` (src/fairlane/worker/main.py) sends to Redis.
use fairlane.Prelude.{
  ℕ, suc, String, ◌≡◌, Bool, true, false, Option, none, some, List, arith, if-cases,
}
use text.Mathlib.TextPositions.{eq_refl}
use fairlane.Models.{Task}
use fairlane.Retry.{Exception}
use fairlane.Database.{Schema, Db}
use fairlane.Worker.State.{
  Action, World, Answer, ok, raise, Answers, RateLimitResult, Ending, raised,
}
use fairlane.Worker.Inject.{Number, number, bad}
use fairlane.Worker.Failure.{log, ack}
use fairlane.Worker.Trace.{acks, commits_since_ack, SameCounts}
use fairlane.Worker.Process.{
  owned_by, throttle_commit, throttle, finish_commit, complete_row, complete, work, execute,
  start_commit, start, slot_gate, rate_gate,
}

-- An ending by an exception leaves the message to the handler; any other has acknowledged it last.
abbrev pub Acked : String → ℕ → Ending → List Action → Type 0
Acked m n (raised e) l = acks m l ≡ n
Acked m n _ l = (acks m l ≡ suc n) × (commits_since_ack m l ≡ 0)

module _ {S : Schema} (worker : String) (A : Answers S) (m : String) (n : ℕ) (l : List Action) where
  -- A world of the `try` body: `n` acknowledgements, and the counts of the trace `l`.
  abbrev pub Before : World S → Type 0
  Before w = (acks m w.trace ≡ n) × SameCounts l w.trace

  abbrev pub Keeps : Ending × World S → Type 0
  Keeps e = Acked m n e.0 e.1.trace × SameCounts l e.1.trace

  finish_commit-Acked :
      (t : Task) (slept : ℕ) (d : Db S) (w : World S) (c : Option Exception)
      → Before w
      → Keeps (finish_commit worker A t slept d m w c)
  unfolding finish_commit ack log
  finish_commit-Acked t slept d w (some e) h = h
  finish_commit-Acked t slept d w none h = (ground (arith, h.0, eq_refl m), h.1)

  complete_row-Acked :
      (t : Task) (slept : ℕ) (w : World S) (d : Db S) (r : Option Task)
      → Before w
      → Keeps (complete_row worker A t slept m w d r)
  unfolding complete_row ack log
  complete_row-Acked t slept w d none h = (ground (arith, h.0, eq_refl m), h.1)
  complete_row-Acked t slept w d (some r) h =
      if-cases Keeps (owned_by worker r) _ _
        (λ _. finish_commit-Acked t slept _ w A.finish_commit h)
        (λ _. (ground (arith, h.0, eq_refl m), h.1))

  work-Acked :
      (t : Task) (w : World S) (k : Number) (a : Option Exception)
      → Before w
      → Keeps (work worker A t m w k a)
  unfolding work complete
  work-Acked t w (bad e) a h = h
  work-Acked t w (number k) (some e) h = h
  work-Acked t w (number k) none h = complete_row-Acked t k w _ _ h

  execute-Acked :
      (t : Task) (w : World S) (a : Option Exception) → Before w → Keeps (execute worker A t m w a)
  unfolding execute
  execute-Acked t w (some e) h = h
  execute-Acked t w none h = work-Acked t w _ _ h

  start_commit-Acked :
      (t r : Task) (d : Db S) (w : World S) (c : Option Exception)
      → Before w
      → Keeps (start_commit worker A t r d m w c)
  unfolding start_commit log
  start_commit-Acked t r d w (some e) h = h
  start_commit-Acked t r d w none h = execute-Acked r _ _ h

  start-Acked : (t : Task) (w : World S) → Before w → Keeps (start worker A t m w)
  unfolding start log
  start-Acked t w h = start_commit-Acked t _ _ _ _ h

  throttle_commit-Acked :
      (t : Task) (d : Db S) (w : World S) (c : Option Exception)
      → Before w
      → Keeps (throttle_commit worker A t d m w c)
  unfolding throttle_commit log ack
  throttle_commit-Acked t d w (some e) h = h
  throttle_commit-Acked t d w none h = (ground (arith, h.0, eq_refl m), h.1)

  throttle-Acked :
      (reason : String) (delay : ℕ) (t : Task) (w : World S)
      → Before w
      → Keeps (throttle worker A reason delay m t w)
  unfolding throttle
  throttle-Acked reason delay t w h = throttle_commit-Acked t _ w _ h

  slot_gate-Acked :
      (t : Task) (w : World S) (a : Answer Bool) → Before w → Keeps (slot_gate worker A t m w a).1
  unfolding slot_gate
  slot_gate-Acked t w (raise e) h = h
  slot_gate-Acked t w (ok false) h = throttle-Acked _ _ t w h
  slot_gate-Acked t w (ok true) h = start-Acked t w h

  pub rate_gate-Acked :
      (t : Task) (w : World S) (a : Answer RateLimitResult)
      → Before w
      → Keeps (rate_gate worker A t m w a).1
  unfolding rate_gate
  rate_gate-Acked t w (raise e) h = h
  rate_gate-Acked t w (ok r) h =
      elim r.allowed as (λ b. Keeps (rate_gate worker A t m w (ok (record r { allowed = b }))).1) [
        | true ↦ slot_gate-Acked t w A.slot h
        | false ↦ throttle-Acked _ _ t w h
      ]
