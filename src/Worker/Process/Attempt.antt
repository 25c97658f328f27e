-- ===== src/Worker/Process/Attempt.antt =====
-- One attempt of `process_task` (src/fairlane/worker/main.py) on a task that the limiter lets run,
-- and the row that it leaves.
use fairlane.Prelude.{
  ℕ, ◌+◌, ◌<◌, ltb, String, ◌≡◌, refl, sym, ap, ◌∙◌, ◌≢◌, ◌⊎◌, inl, inr, true, false, ◌&&◌, Option,
  none, some, arith, if◌then◌else◌, Bool-cases, Option-cases,
}
use text.Mathlib.TextPositions.{eq_refl}
use mathlib.Core.Path.{subst}
use fairlane.Models.{Task, TaskStatus, DeadLetter}
use fairlane.Retry.{Exception, is_retryable, calculate_backoff, default_base, default_max}
use fairlane.Database.{Schema, Db}
use fairlane.Worker.State.{World, Answers, Ending, finished, left, raised}
use fairlane.Worker.Failure.{log, handle_failure, may_retry, retry_row, dead_row, dead_letter_of}
use fairlane.Worker.Failure.Outcome.{
  find-update, handle_failure-retry, handle_failure-letters, handle_failure-dead,
  handle_failure-refused,
}
use fairlane.Worker.Process.{
  started_row, succeeded_row, owned_by, complete, start, end_task, run_task,
}
use fairlane.Worker.Process.Delivery.{acquired}
use fairlane.Worker.Process.Outcome.{
  attempt_error, begun, execute-raises, execute-completes, complete-owned, complete-lost,
  start-begun, end_task-db, rate_gate-start,
}

-- The row that the attempt on the started row `r` leaves, given its exception.
unfoldable pub outcome : {S : Schema} → Answers S → Task → Option Exception → Task
unfolding succeeded_row retry_row dead_row
outcome A r none = succeeded_row A.finish_now r
outcome A r (some e) =
    if may_retry e r
    then retry_row e
        (A.finish_now + calculate_backoff A.uniform r.attempts default_base default_max true) r
    else dead_row e A.finish_now r

pub outcome-settled :
    {S : Schema} (A : Answers S) (r : Task) (e : Option Exception)
    → ((outcome A r e).status ≢ TaskStatus.running)
      × ((outcome A r e).locked_by ≡ none)
      × ((outcome A r e).attempts ≡ r.attempts)
      × ((outcome A r e).status ≡ TaskStatus.pending
          → ((outcome A r e).attempts < (outcome A r e).max_attempts)
            × ((at : ℕ) × ((outcome A r e).next_retry_at ≡ some at)))
unfolding outcome may_retry
outcome-settled A r none = (λ h. cc, refl, refl, λ h. absurd (cc))
outcome-settled A r (some e) = elim (Bool-cases (is_retryable e && ltb r.attempts r.max_attempts)) [
  | inl h ↦ rw h (λ x. cc, refl, refl, λ _. (ground arith, (_, refl)))
  | inr h ↦ rw h (λ x. cc, refl, refl, λ x. absurd (cc))
]

-- The limiter lets the task run, the commits go through, and other processes leave the task and
-- its dead letter alone meanwhile.
pub record Undisturbed (S : Schema) (A : Answers S) (id : ℕ) : Type 0 where
  pub gate : acquired A ≡ true
  pub start_commit : A.start_commit ≡ none
  pub finish_commit : A.finish_commit ≡ none
  pub failure_commit : A.failure_commit ≡ none
  pub task_kept : (d : Db S) → S.tasks.find id (A.others d).tasks ≡ S.tasks.find id d.tasks
  pub letter_kept :
      (d : Db S)
      → S.dead_letters.find id (A.others d).dead_letters ≡ S.dead_letters.find id d.dead_letters

module _ {S : Schema} (worker : String) (A : Answers S) (m : String) (id : ℕ) (w : World S)
    (t : Task) (found : S.tasks.find id w.db.tasks ≡ some t) where
  abbrev row : Task
  row = started_row A.start_now worker t

  same : t.id ≡ id
  same = S.tasks.find_key id w.db.tasks t found

  -- What `run_task` does once the task has started.
  run_task-begun :
      acquired A ≡ true
      → A.start_commit ≡ none
      → (e : Ending × World S) → start worker A t m w ≡ e
      → run_task worker A id m w (some t) ≡ end_task worker A id m t true e.0 e.1
  unfolding run_task
  run_task-begun g c e h = rw (rate_gate-start worker A m t w A.allow g, ← h)

  begun-find :
      ((d : Db S) → S.tasks.find id (A.others d).tasks ≡ S.tasks.find id d.tasks)
      → S.tasks.find id (begun worker A m t w).db.tasks ≡ some row
  unfolding log
  begun-find kept = kept _ ∙ (unfold started_row in find-update S id w.db.tasks t _ found refl)

  -- The attempt fails: the failure handler decides on the row as the others left it.
  run_task-fails :
      (e : Exception)
      → acquired A ≡ true
      → A.start_commit ≡ none
      → attempt_error worker A m row ≡ some e
      → (run_task worker A id m w (some t)).db
        ≡ (handle_failure worker A id m e (begun worker A m t w)).db
  run_task-fails e g c h =
      ap (λ v. v.db)
        (run_task-begun g c (raised e, begun worker A m t w)
          (start-begun worker A m t w c ∙ execute-raises worker A m row _ _ e h))
      ∙ (end_task-db worker A m id t true (begun worker A m t w)).2 e

  quiet_end :
      (x : Ending) (v : World S)
      → (x ≡ finished) ⊎ (x ≡ left)
      → (end_task worker A id m t true x v).db ≡ v.db
  quiet_end finished v h = (end_task-db worker A m id t true v).0
  quiet_end left v h = (end_task-db worker A m id t true v).1
  quiet_end (raised e) v h = absurd (ground arith)

  -- The attempt completes.
  run_task-completes :
      acquired A ≡ true
      → A.start_commit ≡ none
      → attempt_error worker A m row ≡ none
      → (slept : ℕ) × (let e = complete worker A row slept m (begun worker A m t w) in
          ((e.0 ≡ finished) ⊎ (e.0 ≡ left)) → (run_task worker A id m w (some t)).db ≡ e.1.db)
  run_task-completes g c h =
      let (slept, p) = execute-completes worker A m row (begun worker A m t w) _ h in
      let e = complete worker A row slept m (begun worker A m t w) in
      (
        slept,
        λ ends.
            ap (λ v. v.db) (run_task-begun g c e (start-begun worker A m t w c ∙ p))
            ∙ quiet_end e.0 e.1 ends,
      )

  failed-row :
      Undisturbed S A id
      → S.dead_letters.find id w.db.dead_letters ≡ none
      → (e : Exception)
      → S.tasks.find id (handle_failure worker A id m e (begun worker A m t w)).db.tasks
        ≡ some (outcome A row (some e))
  unfolding outcome log
  failed-row u free e =
      let b = begun worker A m t w in
      let f = begun-find u.task_kept in
      elim (Bool-cases (may_retry e row)) [
        | inl r ↦ rw r (handle_failure-retry worker A id m e b row f r u.failure_commit)
        | inr r ↦
            rw r
              (handle_failure-dead worker A id m e b row f r u.failure_commit
                (u.letter_kept _ ∙ free)).0
      ]

  completed-row :
      Undisturbed S A id
      → attempt_error worker A m row ≡ none
      → S.tasks.find id (run_task worker A id m w (some t)).db.tasks ≡ some (outcome A row none)
  unfolding outcome started_row owned_by succeeded_row
  completed-row u h =
      let (slept, p) = run_task-completes u.gate u.start_commit h in
      let b = begun worker A m t w in
      let f : S.tasks.find row.id b.db.tasks ≡ some row =
        subst (λ k. S.tasks.find k b.db.tasks ≡ some row) (sym same) (begun-find u.task_kept) in
      let (ends, q) =
        complete-owned worker A m row row slept b f (eq_refl worker) u.finish_commit in
      rw (p (inl ends), q) (find-update S id b.db.tasks row _ (begun-find u.task_kept) refl)

  pub row-outcome :
      Undisturbed S A id
      → S.dead_letters.find id w.db.dead_letters ≡ none
      → S.tasks.find id (run_task worker A id m w (some t)).db.tasks
        ≡ some (outcome A row (attempt_error worker A m row))
  row-outcome u free = elim (Option-cases (attempt_error worker A m row)) [
    | inl h ↦ rw h (completed-row u h)
    | inr (e, h) ↦ rw h (rw (run_task-fails e u.gate u.start_commit h) (failed-row u free e))
  ]

  pub letter-outcome :
      (e : Exception)
      → Undisturbed S A id
      → S.dead_letters.find id w.db.dead_letters ≡ none
      → attempt_error worker A m row ≡ some e
      → may_retry e row ≡ false
      → S.dead_letters.find id (run_task worker A id m w (some t)).db.dead_letters
        ≡ some (dead_letter_of e A.finish_now worker (begun worker A m t w).db.events row)
  unfolding log
  letter-outcome e u free h r = rw (run_task-fails e u.gate u.start_commit h) (
      (handle_failure-dead worker A id m e (begun worker A m t w) row (begun-find u.task_kept) r
        u.failure_commit (u.letter_kept _ ∙ free)).1)

  -- An attempt that is scheduled again gives the task no dead letter.
  pub free-outcome :
      (e : Exception)
      → Undisturbed S A id
      → S.dead_letters.find id w.db.dead_letters ≡ none
      → attempt_error worker A m row ≡ some e
      → may_retry e row ≡ true
      → S.dead_letters.find id (run_task worker A id m w (some t)).db.dead_letters ≡ none
  unfolding log
  free-outcome e u free h r =
      let k =
        handle_failure-letters worker A id m e (begun worker A m t w) row (begun-find u.task_kept) r
          u.failure_commit in
      rw (run_task-fails e u.gate u.start_commit h, k) (u.letter_kept _ ∙ free)

  pub stuck-outcome :
      (e : Exception) (d : DeadLetter)
      → Undisturbed S A id
      → S.dead_letters.find id w.db.dead_letters ≡ some d
      → attempt_error worker A m row ≡ some e
      → may_retry e row ≡ false
      → S.tasks.find id (run_task worker A id m w (some t)).db.tasks ≡ some row
  unfolding log
  stuck-outcome e d u taken h r =
      let p =
        handle_failure-refused worker A id m e (begun worker A m t w) row (begun-find u.task_kept) d
          r (u.letter_kept _ ∙ taken) in
      rw (run_task-fails e u.gate u.start_commit h, p) (begun-find u.task_kept)

  pub lost-outcome :
      (r : Task)
      → acquired A ≡ true
      → A.start_commit ≡ none
      → attempt_error worker A m row ≡ none
      → S.tasks.find id (begun worker A m t w).db.tasks ≡ some r
      → owned_by worker r ≡ false
      → (run_task worker A id m w (some t)).db ≡ (begun worker A m t w).db
  unfolding started_row
  lost-outcome r g c h f lost =
      let (slept, p) = run_task-completes g c h in
      let f' : S.tasks.find row.id (begun worker A m t w).db.tasks ≡ some r =
        subst (λ k. S.tasks.find k (begun worker A m t w).db.tasks ≡ some r) (sym same) f in
      let (ends, q) = complete-lost worker A m row r slept (begun worker A m t w) f' lost in
      p (inr ends) ∙ q
