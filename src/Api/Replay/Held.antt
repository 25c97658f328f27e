-- ===== src/Api/Replay/Held.antt =====
-- What a replay (src/fairlane/api/dlq_routes.py) keeps true of the database.
use fairlane.Prelude.{
  ℕ, ◌≡◌, refl, true, false, Option, none, some, Bool-cases, inl, inr, or_else, ap,
}
use fairlane.Models.{Task, DeadLetter, is_dead}
use fairlane.Retry.{Exception}
use fairlane.Database.{Schema, Db}
use fairlane.Scheduler.Queue.{Rooms}
use fairlane.System.Closed.{Closed, Found}
use fairlane.System.Rows.{found_self}
use fairlane.Api.Service.{Service}
use fairlane.Api.Replay.{
  ReplayRequest, push, replay_commit, replay_task, answered, replay_letter, replay_row,
  replay_dead_letter,
}

module _ {S : Schema} {R : Rooms} (I : Db S → Type 0) (closed : Closed S I) (b : ReplayRequest)
    (now : ℕ) where
  abbrev Held : Service S R → Type 0
  Held s = I s.db

  push-Held :
      (redis : Option Exception) (t : Task) (s : Service S R) → Held s → Held (push redis t s).1
  unfolding push
  push-Held (some e) t s h = h
  push-Held none t s h = h

  pub replay_task-Held :
      (commit redis : Option Exception) (t : Task) (d : DeadLetter) (s : Service S R)
      → is_dead t.status ≡ true
      → Found S t s.db
      → d.task_id ≡ t.id
      → Held s
      → Held (replay_task b now commit redis t d s).1
  unfolding replay_task replay_commit
  replay_task-Held (some e) redis t d s a p l h = h
  replay_task-Held none redis t d s a p l h =
      push-Held redis _ _ (closed.replayed s.db t b now _ d p a l h)

  answered-Held : (id : ℕ) (r : Option Exception × Service S R) → Held r.1 → Held (answered id r).1
  unfolding answered
  answered-Held id (none, s) h = h
  answered-Held id (some e, s) h = h

  replay_letter-Held :
      (commit redis : Option Exception) (t : Task) (o : Option DeadLetter) (s : Service S R)
      → is_dead t.status ≡ true
      → Found S t s.db
      → S.dead_letters.find t.id s.db.dead_letters ≡ o
      → Held s
      → Held (replay_letter b now commit redis t o s).1
  unfolding replay_letter
  replay_letter-Held commit redis t none s a p l h = h
  replay_letter-Held commit redis t (some d) s a p l h = answered-Held t.id _ (
      replay_task-Held commit redis t d s a p (S.dead_letters.find_key t.id s.db.dead_letters d l)
        h)

  replay_row-Held :
      (commit redis : Option Exception) (id : ℕ) (o : Option Task) (s : Service S R)
      → S.tasks.find id s.db.tasks ≡ o
      → Held s
      → Held (replay_row b now commit redis id o s).1
  unfolding replay_row
  replay_row-Held commit redis id none s f h = h
  replay_row-Held commit redis id (some t) s f h = elim (Bool-cases (is_dead t.status)) [
    | inl e ↦
        let i : t.id ≡ id = S.tasks.find_key id s.db.tasks t f in
        rw e (
          replay_letter-Held commit redis t _ s e (found_self S id t s.db f)
            (ap (λ k. S.dead_letters.find k s.db.dead_letters) i) h)
    | inr e ↦ rw e h
  ]

-- A property of the database that every transaction keeps holds after a replay, however it is
-- answered.
pub replay_dead_letter-Held :
    {S : Schema} {R : Rooms} (I : Db S → Type 0)
    → Closed S I
    → (id : ℕ) (body : Option ReplayRequest) (now : ℕ) (commit redis : Option Exception)
      (s : Service S R)
    → I s.db
    → I (replay_dead_letter id body now commit redis s).1.db
unfolding replay_dead_letter
replay_dead_letter-Held I closed id body now commit redis s h =
    replay_row-Held I closed
      (or_else body (record { payload_patch = none; reset_attempts = false })) now commit redis id _
      s refl h
