-- ===== src/Worker/Failure/Held.antt =====
-- What the `except` branch of `process_task` (src/fairlane/worker/main.py) keeps true of the database.
use fairlane.Prelude.{ℕ, String, ◌≡◌, refl, false, Option, none, some, Bool-cases, inl, inr, List}
use fairlane.Models.{Task}
use fairlane.Retry.{Exception}
use fairlane.Database.{Schema, Db}
use fairlane.Worker.State.{World, Answers, Action}
use fairlane.Worker.Failure.{
  log, ack, may_retry, commit_failure, schedule_retry, dead_lettered_as, dead_letter,
  dead_letter_of, record_failure, handle_failure,
}
use fairlane.System.Closed.{Closed, Found}
use fairlane.System.Rows.{found_self}

module _ {S : Schema} (worker : String) (A : Answers S) (I : Db S → Type 0)
    (closed : Closed S I) where
  abbrev Held : World S → Type 0
  Held w = I w.db

  commit_failure-Held :
      (d : Db S) (l : List Action) (w : World S) (c : Option Exception)
      → A.failure_commit ≡ c
      → I d
      → Held w
      → Held (commit_failure worker A d l w)
  unfolding commit_failure log
  commit_failure-Held d l w none e n h = rw (e, commit_failure) n
  commit_failure-Held d l w (some x) e n h = rw (e, commit_failure) h

  dead_lettered_as-Held :
      (e : Exception) (t : Task) (w : World S) (rows : Option S.dead_letters.Rows)
      → Found S t w.db
      → may_retry e t ≡ false
      → S.dead_letters.insert (dead_letter_of e A.finish_now worker w.db.events t) w.db.dead_letters
        ≡ rows
      → Held w
      → Held (dead_lettered_as worker A e t w rows)
  unfolding dead_lettered_as dead_letter_of
  dead_lettered_as-Held e t w none f m i h = h
  dead_lettered_as-Held e t w (some rows) f m i h =
      commit_failure-Held _ _ w A.failure_commit refl
        (closed.died w.db t e A.finish_now _ _ rows f m refl i h) h

  record_failure-Held :
      (e : Exception) (o : Option Task) (w : World S)
      → ((t : Task) → o ≡ some t → Found S t w.db)
      → Held w
      → Held (record_failure worker A e o w)
  unfolding record_failure schedule_retry dead_letter
  record_failure-Held e none w p h = h
  record_failure-Held e (some t) w p h = elim (Bool-cases (may_retry e t)) [
    | inl m ↦ rw m (
        commit_failure-Held _ _ w A.failure_commit refl (closed.retried w.db t e _ _ (p t refl) m h)
          h)
    | inr m ↦ rw m (dead_lettered_as-Held e t w _ (p t refl) m refl h)
  ]

  pub handle_failure-Held :
      (id : ℕ) (m : String) (e : Exception) (w : World S)
      → Held w
      → Held (handle_failure worker A id m e w)
  unfolding handle_failure ack log
  handle_failure-Held id m e w h = record_failure-Held e _ w (λ t f. found_self S id t w.db f) h
