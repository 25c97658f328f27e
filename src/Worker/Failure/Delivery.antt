-- ===== src/Worker/Failure/Delivery.antt =====
-- The failure handler of src/fairlane/worker/main.py touches Redis only to acknowledge the message.
use fairlane.Prelude.{ℕ, suc, String, ◌≡◌, refl, Option, none, some, arith, if-cases}
use text.Mathlib.TextPositions.{eq_refl}
use fairlane.Models.{Task}
use fairlane.Retry.{Exception}
use fairlane.Database.{Schema}
use fairlane.Worker.State.{World, Answers}
use fairlane.Worker.Trace.{acks, commits_since_ack, SameCounts, SameCounts-refl}
use fairlane.Worker.Failure.{
  log, ack, may_retry, commit_failure, schedule_retry, dead_lettered_as, dead_letter,
  record_failure, handle_failure,
}

module _ {S : Schema} (worker : String) (A : Answers S) (m : String) where
  -- Recording a failure adds commits and metrics to the trace, and nothing else.
  abbrev Quiet : World S → World S → Type 0
  Quiet w v = (acks m v.trace ≡ acks m w.trace) × SameCounts w.trace v.trace

  Quiet-refl : (w : World S) → Quiet w w
  Quiet-refl w = (refl, SameCounts-refl w.trace)

  schedule_retry-Quiet :
      (e : Exception) (t : Task) (w : World S) → Quiet w (schedule_retry worker A e t w)
  unfolding schedule_retry commit_failure log
  schedule_retry-Quiet e t w =
      elim A.failure_commit
        as (λ c. Quiet w (schedule_retry worker (record A { failure_commit = c }) e t w)) [
          | none ↦ Quiet-refl w
          | some x ↦ Quiet-refl w
        ]

  dead_lettered_as-Quiet :
      (e : Exception) (t : Task) (w : World S) (r : Option S.dead_letters.Rows)
      → Quiet w (dead_lettered_as worker A e t w r)
  unfolding dead_lettered_as commit_failure log
  dead_lettered_as-Quiet e t w none = Quiet-refl w
  dead_lettered_as-Quiet e t w (some r) =
      elim A.failure_commit
        as (λ c.
          Quiet w (dead_lettered_as worker (record A { failure_commit = c }) e t w (some r))) [
            | none ↦ Quiet-refl w
            | some x ↦ Quiet-refl w
          ]

  record_failure-Quiet :
      (e : Exception) (t : Option Task) (w : World S) → Quiet w (record_failure worker A e t w)
  unfolding record_failure dead_letter
  record_failure-Quiet e none w = Quiet-refl w
  record_failure-Quiet e (some t) w =
      if-cases (Quiet w) (may_retry e t) _ _ (λ _. schedule_retry-Quiet e t w)
        (λ _. dead_lettered_as-Quiet e t w _)

  pub handle_failure-acks :
      (id : ℕ) (e : Exception) (w : World S)
      → let l = (handle_failure worker A id m e w).trace in
        (acks m l ≡ suc (acks m w.trace)) × (commits_since_ack m l ≡ 0)
  unfolding handle_failure ack log
  handle_failure-acks id e w =
      let q = record_failure-Quiet e (S.tasks.find id w.db.tasks) w in
      ground (arith, q.0, eq_refl m)

  pub handle_failure-SameCounts :
      (id : ℕ) (e : Exception) (w : World S)
      → SameCounts w.trace (handle_failure worker A id m e w).trace
  unfolding handle_failure ack log
  handle_failure-SameCounts id e w = (record_failure-Quiet e (S.tasks.find id w.db.tasks) w).1
