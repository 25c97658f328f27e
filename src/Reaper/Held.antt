-- ===== src/Reaper/Held.antt =====
-- What a detection (src/fairlane/reaper.py) keeps true of the database.
use fairlane.Prelude.{String, Bool, Option, none, some, List, [], ◌∷◌}
use fairlane.Retry.{Exception}
use fairlane.Database.{Schema, Db}
use fairlane.Scheduler.Queue.{Rooms}
use fairlane.System.Closed.{Closed}
use fairlane.Reaper.Reclaim.{Fleet}
use fairlane.Reaper.Cycle.{commit_dead, detect_and_mark_dead_workers}

module _ {S : Schema} {R : Rooms} (I : Db S → Type 0) (closed : Closed S I) where
  commit_dead-Held :
      (c : Option Exception) (ids : List String) (rows : S.workers.Rows) (f : Fleet S R)
      → I f.db
      → I (commit_dead c (ids, rows) f).1.db
  unfolding commit_dead
  commit_dead-Held c [] rows f h = h
  commit_dead-Held (some e) (id ∷ ids) rows f h = h
  commit_dead-Held none (id ∷ ids) rows f h = closed.aside f.db rows f.db.tenant_limits h

  -- A property of the database that every transaction keeps holds after a detection.
  pub detect-Held :
      (alive : String → Bool) (c : Option Exception) (f : Fleet S R)
      → I f.db
      → I (detect_and_mark_dead_workers alive c f).1.db
  unfolding detect_and_mark_dead_workers
  detect-Held alive c f h = commit_dead-Held c _ _ f h
