-- ===== src/Api/Bulk/Held.antt =====
-- What a bulk replay (src/fairlane/api/dlq_routes.py) keeps true of the database.
use fairlane.Prelude.{
  ℕ, ◌≡◌, refl, sym, ◌&&◌, Option, none, some, List, [], ◌∷◌, Bool-cases, inl, inr,
}
use fairlane.Models.{Task, DeadLetter, is_dead}
use fairlane.Retry.{Exception}
use fairlane.Answer.{Answer, ok, raise}
use fairlane.Database.{Schema, Db}
use fairlane.Scheduler.Queue.{Rooms}
use fairlane.System.Closed.{Closed}
use fairlane.System.Rows.{found_self}
use fairlane.Api.Service.{Service}
use fairlane.Api.Replay.Held.{replay_task-Held}
use fairlane.Api.Bulk.{
  Moments, BulkReplayRequest, missing, plain, replay_one, go_on, replay_letters, bulk_reply,
  replay_bulk,
}

module _ {S : Schema} {R : Rooms} (I : Db S → Type 0) (closed : Closed S I) (M : Moments) where
  abbrev Held : Service S R → Type 0
  Held s = I s.db

  replay_one-Held :
      (o : Option Task) (d : DeadLetter) (s : Service S R)
      → S.tasks.find d.task_id s.db.tasks ≡ o
      → Held s
      → Held (replay_one M o d s).1
  unfolding replay_one
  replay_one-Held none d s f h = h
  replay_one-Held (some t) d s f h = elim (Bool-cases (is_dead t.status)) [
    | inl e ↦ rw e (
        replay_task-Held I closed plain (M.now t.id) (M.commit t.id) (M.redis t.id) t d s e
          (found_self S d.task_id t s.db f) (sym (S.tasks.find_key d.task_id s.db.tasks t f)) h)
    | inr e ↦ rw e h
  ]

  go_on-Held :
      (o : Option Task) (rest : Answer (List ℕ) × Service S R)
      (step : Option Exception × Service S R)
      → Held step.1
      → Held rest.1
      → Held (go_on M o rest step).1
  unfolding go_on
  go_on-Held o rest (some e, s) h k = h
  go_on-Held o rest (none, s) h k = k

  replay_letters-Held :
      (ds : List DeadLetter) (s : Service S R) → Held s → Held (replay_letters M ds s).1
  unfolding replay_letters
  replay_letters-Held [] s h = h
  replay_letters-Held (d ∷ ds) s h =
      let o = S.tasks.find d.task_id s.db.tasks in
      let step = replay_one-Held o d s refl h in
      go_on-Held o _ (replay_one M o d s) step (replay_letters-Held ds _ step)

  bulk_reply-Held : (r : Answer (List ℕ) × Service S R) → Held r.1 → Held (bulk_reply r).1
  unfolding bulk_reply
  bulk_reply-Held (ok ids, s) h = h
  bulk_reply-Held (raise e, s) h = h

  -- A property of the database that every transaction keeps holds after a bulk replay, however it
  -- is answered.
  pub replay_bulk-Held :
      (b : BulkReplayRequest) (s : Service S R) → Held s → Held (replay_bulk M b s).1
  unfolding replay_bulk
  replay_bulk-Held b s h = elim (Bool-cases (missing b.tenant_id && missing b.failure_category)) [
    | inl e ↦ rw e h
    | inr e ↦ rw e (bulk_reply-Held _ (replay_letters-Held _ s h))
  ]
