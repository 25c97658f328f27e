-- ===== src/Scheduler/Loop.antt =====
-- `run_scheduler` of src/fairlane/scheduler/__init__.py: a poll every second, whose exceptions are
-- logged and forgotten.
use fairlane.Prelude.{
  Bool, ◌⊎◌, inl, inr, ℕ, ◌≡◌, refl, ap, ◌∙◌, Option, none, some, List, [], ◌∷◌, ◌++◌, All,
}
use fairlane.Retry.{Exception}
use fairlane.Database.{Schema}
use fairlane.Scheduler.Queue.{Rooms}
use fairlane.Scheduler.Poll.{Polling, poll_and_requeue}
use fairlane.Scheduler.Poll.Requeue.Exact.{polled_row, poll_and_requeue-exact}
use fairlane.Scheduler.Poll.Requeue.{poll_and_requeue-fails}

-- What other processes do before a poll, the rows that they have locked, its moment, and what
-- raises: the query, or the commit.
pub record Turn (S : Schema) (R : Rooms) : Type 0 where
  pub others : Polling S R → Polling S R
  pub locked : ℕ → Bool
  pub now : ℕ
  pub query : Option Exception
  pub commit : Option Exception

module _ {S : Schema} {R : Rooms} where
  abbrev polled : Turn S R → Option Exception → Polling S R → Polling S R
  polled t none p = (poll_and_requeue t.locked t.now t.commit p).1
  polled t (some e) p = p

  -- One element of the list for each time around the loop, until the worker stops.
  pub run_scheduler : List (Turn S R) → Polling S R → Polling S R
  run_scheduler [] p = p
  run_scheduler (t ∷ ts) p = run_scheduler ts (polled t t.query (t.others p))

  -- The others leave the table of tasks alone.
  abbrev pub IsQuiet : Turn S R → Type 0
  IsQuiet t = (p : Polling S R) → (t.others p).tasks ≡ p.tasks

  -- The query or the commit raises.
  abbrev pub IsFailing : Turn S R → Type 0
  IsFailing t = IsQuiet t × ((e : Exception) × ((t.query ≡ some e) ⊎ (t.commit ≡ some e)))

  polled-fails :
      (t : Turn S R) (p : Polling S R) (q c : Option Exception)
      → t.query ≡ q
      → t.commit ≡ c
      → IsFailing t
      → (polled t q (t.others p)).tasks ≡ p.tasks
  polled-fails t p (some e) c h k f = f.0 p
  polled-fails t p none (some e) h k f =
      ap (λ x. (poll_and_requeue t.locked t.now x (t.others p)).1.tasks) k
      ∙ poll_and_requeue-fails t.locked t.now e (t.others p)
      ∙ f.0 p
  polled-fails t p none none h k (quiet, (e, inl x)) = absurd (cc)
  polled-fails t p none none h k (quiet, (e, inr x)) = absurd (cc)

  run_scheduler-fails :
      (ts : List (Turn S R)) (t : Turn S R) (p : Polling S R)
      → All IsFailing ts
      → IsQuiet t
      → t.query ≡ none
      → t.commit ≡ none
      → (before : Polling S R) × (before.tasks ≡ p.tasks)
        × (run_scheduler (ts ++ t ∷ []) p ≡ (poll_and_requeue t.locked t.now none before).1)
  unfolding run_scheduler
  run_scheduler-fails [] t p f quiet q c = (
    t.others p,
    quiet p,
    ap (λ x. polled t x (t.others p)) q
        ∙ ap (λ x. (poll_and_requeue t.locked t.now x (t.others p)).1) c,
  )
  run_scheduler-fails (u ∷ us) t p f quiet q c =
      let next = polled u u.query (u.others p) in
      let (before, same, run) = run_scheduler-fails us t next f.1 quiet q c in
      (before, same ∙ polled-fails u p u.query u.commit refl refl f.0, run)

  -- The scheduler survives failing polls: however many of its turns fail, in the query or in the
  -- commit, the first turn that does not fail puts back every row that is PENDING with a retry time
  -- that has passed by then and that no other transaction has locked, and leaves the others alone, if
  -- no one else changes the table meanwhile.
  pub run_scheduler-recovers :
      (ts : List (Turn S R)) (t : Turn S R) (p : Polling S R)
      → All IsFailing ts
      → IsQuiet t
      → t.query ≡ none
      → t.commit ≡ none
      → (id : ℕ)
      → S.tasks.find id (run_scheduler (ts ++ t ∷ []) p).tasks
        ≡ polled_row t.locked t.now (S.tasks.find id p.tasks)
  run_scheduler-recovers ts t p f quiet q c id =
      let (before, same, run) = run_scheduler-fails ts t p f quiet q c in
      ap (λ (x : Polling S R). S.tasks.find id x.tasks) run
      ∙ (poll_and_requeue-exact t.locked t.now before).0 id
      ∙ ap (λ rows. polled_row t.locked t.now (S.tasks.find id rows)) same
