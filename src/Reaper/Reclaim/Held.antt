-- ===== src/Reaper/Reclaim/Held.antt =====
-- What a reclamation (src/fairlane/reaper.py) keeps true of the database.
use fairlane.Prelude.{ℕ, String, ◌≡◌, refl, Option, none, some, List}
use fairlane.Retry.{Exception}
use fairlane.Database.{Schema, Db}
use fairlane.Scheduler.Queue.{Rooms}
use fairlane.System.Closed.{Closed}
use fairlane.Reaper.Reclaim.{
  opened_on, reclaim_ids, Fleet, Circumstances, processed, commit_session, after_commit, insert_all,
  reclaim_tasks_from_dead_worker,
}

module _ (S : Schema) {R : Rooms} (parse : String → Option ℕ) (C : Circumstances S)
    (I : Db S → Type 0) (closed : Closed S I) (others : (d : Db S) → I d → I (C.others d)) where
  after_commit-Held :
      (dead_worker : String) (ids : List String) (f g : Fleet S R) (c : Option Exception)
      (letters : Option S.dead_letters.Rows)
      → (let s = reclaim_ids C.now dead_worker parse ids (opened_on f.db) in
          insert_all S s.letters f.db.dead_letters ≡ letters
          → I f.db
          → I g.db
          → I (after_commit S parse C dead_worker ids s g (commit_session c f.db s letters)).1.db)
  unfolding after_commit commit_session
  after_commit-Held dead_worker ids f g c none i h k = k
  after_commit-Held dead_worker ids f g (some e) (some rows) i h k = k
  after_commit-Held dead_worker ids f g none (some rows) i h k =
      others _ (closed.reclaimed f.db parse C.now dead_worker ids rows i h)

  -- A property of the database that every transaction keeps, and that the other processes keep,
  -- holds after a reclamation, whether its commit goes through or not.
  pub reclaim-Held :
      (show : ℕ → String) (dead_worker : String) (f : Fleet S R)
      → I f.db
      → I (reclaim_tasks_from_dead_worker S parse show C dead_worker f).1.db
  unfolding reclaim_tasks_from_dead_worker processed
  reclaim-Held show dead_worker f h = after_commit-Held dead_worker _ f _ C.commit _ refl h h
