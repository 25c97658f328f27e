-- ===== src/System/Retries/Settles.antt =====
-- That the attempts on one task settle it: process_task (src/fairlane/worker/main.py) and the retry
-- scheduler (src/fairlane/scheduler/__init__.py) together.
use fairlane.Prelude.{
  ℕ, ◌+◌, ◌≤◌, ◌<◌, String, ◌≡◌, refl, ap, ◌∙◌, inl, inr, true, false, Option, none, some, List, [],
  ◌∷◌, All, length, arith, Bool-cases,
}
use mathlib.Core.Path.{subst}
use fairlane.Models.{Task, TaskStatus}
use fairlane.Retry.{Exception}
use fairlane.Database.{Schema}
use fairlane.Scheduler.Queue.{Rooms}
use fairlane.Scheduler.Poll.{requeued_row}
use fairlane.Scheduler.Poll.Requeue.{poll_and_requeue-Requeued}
use fairlane.Worker.State.{World, Answers}
use fairlane.Worker.Failure.{may_retry}
use fairlane.Worker.Process.{started_row}
use fairlane.Worker.Process.Outcome.{attempt_error}
use fairlane.Worker.Process.Attempt.{outcome}
use fairlane.Worker.Process.Lifecycle.{process_task-row, process_task-dead_row, process_task-free}
use fairlane.System.Closed.{polling}
use fairlane.System.Retries.{Attempt, deliver, polled, attempts, IsCalm, Settled, Decided}

-- The three ways in which an attempt leaves its row.
module _ {S : Schema} (A : Answers S) (r : Task) where
  outcome-none :
      let o = outcome A r none in (o.status ≡ TaskStatus.succeeded) × (o.attempts ≡ r.attempts)
  unfolding outcome
  outcome-none = (refl, refl)

  module _ (e : Exception) where
    outcome-again :
        may_retry e r ≡ true
        → (let o = outcome A r (some e) in
            (o.status ≡ TaskStatus.pending)
            × (o.attempts ≡ r.attempts)
            × (o.attempts < o.max_attempts)
            × (o.max_attempts ≡ r.max_attempts))
    unfolding outcome
    outcome-again h = rw h (refl, refl, (unfold may_retry in ground arith), refl)

    outcome-last :
        may_retry e r ≡ false
        → (let o = outcome A r (some e) in (o.status ≡ TaskStatus.dead) × (o.attempts ≡ r.attempts))
    unfolding outcome
    outcome-last h = rw h (refl, refl)

module _ {S : Schema} {R : Rooms} (parse_uuid : String → Option ℕ) (a : Attempt S R) (w : World S)
    (t : Task) where
  abbrev started : Task
  started = started_row a.answers.start_now a.worker t

  abbrev raised : Option Exception
  raised = attempt_error a.worker a.answers a.message started

  -- How the attempt goes, at the task's own id.
  module _ (found : S.tasks.find t.id w.db.tasks ≡ some t)
      (free : S.dead_letters.find t.id w.db.dead_letters ≡ none)
      (left : t.attempts < t.max_attempts) (calm : IsCalm parse_uuid t.id a) where
    row :
        (x : Option Exception)
        → raised ≡ x
        → S.tasks.find t.id (deliver parse_uuid a w).db.tasks ≡ some (outcome a.answers started x)
    unfolding deliver
    row x h =
        process_task-row a.worker a.answers parse_uuid a.message a.task_id w t (calm.0 w.db ∙ found)
          calm.1 free
        ∙ ap (λ y. some (outcome a.answers started y)) h

    decided : (x : Option Exception) → raised ≡ x → Decided t.id t (deliver parse_uuid a w)
    unfolding deliver
    decided none h =
        let r = row none h in
        let (st, n) = outcome-none a.answers started in
        inl (
          rw r (rw st refl),
          (
            outcome a.answers started none,
            r,
            (unfold started_row in omega (arith, n, left)),
            inl st,
          ),
        )
    decided (some e) h = elim (Bool-cases (may_retry e started)) [
      | inl again ↦
          let r = row (some e) h in
          let (st, n, lt, m) = outcome-again a.answers started e again in
          inr (
            rw r (rw st refl),
            (
              outcome a.answers started (some e),
              r,
              (unfold deliver in
                  process_task-free a.worker a.answers parse_uuid a.message a.task_id w t
                    (calm.0 w.db ∙ found) e calm.1 free h again),
              n ∙ (unfold started_row in refl),
              lt,
              m ∙ (unfold started_row in refl),
            ),
          )
      | inr last ↦
          let r = row (some e) h in
          let (st, n) = outcome-last a.answers started e last in
          inl (
            rw r (rw st refl),
            (
              outcome a.answers started (some e),
              r,
              (unfold started_row in omega (arith, n, left)),
              inr (
                st,
                (
                  _,
                  (unfold deliver in
                      (process_task-dead_row a.worker a.answers parse_uuid a.message a.task_id w t
                        (calm.0 w.db ∙ found) e calm.1 free h last).1),
                ),
              ),
            ),
          )
    ]

module _ {S : Schema} {R : Rooms} (parse_uuid : String → Option ℕ) (id : ℕ) where
  -- The same at the id of the message.
  deliver-Decided :
      (a : Attempt S R) (w : World S) (t : Task)
      → S.tasks.find id w.db.tasks ≡ some t
      → S.dead_letters.find id w.db.dead_letters ≡ none
      → t.attempts < t.max_attempts
      → IsCalm parse_uuid id a
      → Decided id t (deliver parse_uuid a w)
  deliver-Decided a w t found =
      subst
        (λ i.
          S.tasks.find i w.db.tasks ≡ some t
          → S.dead_letters.find i w.db.dead_letters ≡ none
          → t.attempts < t.max_attempts
          → IsCalm parse_uuid i a
          → Decided i t (deliver parse_uuid a w))
        (S.tasks.find_key id w.db.tasks t found)
        (λ f g h k. decided parse_uuid a w t f g h k _ refl) found

  -- The poll does not touch what an attempt looks at.
  polled-find :
      (a : Attempt S R) (w : World S) (t : Task)
      → S.tasks.find id w.db.tasks ≡ some t
      → (r : Task) × (S.tasks.find id (polled parse_uuid a w).db.tasks ≡ some r)
        × (r.attempts ≡ t.attempts)
        × (r.max_attempts ≡ t.max_attempts)
  unfolding polled
  polled-find a w t found =
      elim ((poll_and_requeue-Requeued a.locked a.polled_at (polling w.db a.queue)).0 id) [
        | inl e ↦ (t, e ∙ found, refl, refl)
        | inr (u, f, due, e) ↦
            let p : u ≡ t = cc in
            (
              requeued_row u,
              e,
              (unfold requeued_row in ap (λ (x : Task). x.attempts) p),
              (unfold requeued_row in ap (λ (x : Task). x.max_attempts) p),
            )
      ]

  -- A task without a dead letter that has attempts left is settled by the attempts that are left,
  -- if nothing disturbs them, whatever each of them raises: then it has SUCCEEDED, or it is DEAD
  -- with its dead letter, and the attempts counted are at most the maximum.
  pub attempts-Settled :
      (l : List (Attempt S R)) (w : World S) (t : Task)
      → S.tasks.find id w.db.tasks ≡ some t
      → S.dead_letters.find id w.db.dead_letters ≡ none
      → t.attempts < t.max_attempts
      → All (IsCalm parse_uuid id) l
      → t.max_attempts ≤ t.attempts + length l
      → Settled id t.max_attempts (attempts parse_uuid id l w)
  unfolding attempts
  attempts-Settled [] w t found free left calm n = absurd (omega arith)
  attempts-Settled (a ∷ l) w t found free left calm n =
      elim (deliver-Decided a w t found free left calm.0) [
        | inl (e, settled) ↦ rw e settled
        | inr (e, (r, f, g, one, lt, same)) ↦
            let (u, k, i, j) = polled-find a (deliver parse_uuid a w) r f in
            rw e (
              subst
                (λ m.
                  Settled id m
                    (attempts parse_uuid id l (polled parse_uuid a (deliver parse_uuid a w))))
                (j ∙ same)
                (attempts-Settled l (polled parse_uuid a (deliver parse_uuid a w)) u k
                  (unfold polled in g) (omega arith) calm.1 (omega arith)))
      ]
