-- ===== src/Worker/Daemon/Held.antt =====
-- What the registration, the heartbeat and the shutdown (src/fairlane/worker/main.py) keep true of the database.
use mathlib.Core.Path.{subst}
use fairlane.Prelude.{ℕ, String, ◌≡◌, Option, none, some, Option-cases, inl, inr, List, [], ◌∷◌}
use fairlane.Models.{Worker}
use fairlane.Retry.{Exception}
use fairlane.Database.{Schema, Db}
use fairlane.Answer.{Answer, ok, raise}
use fairlane.System.Closed.{Closed}
use fairlane.Worker.Daemon.{
  commit_workers, register, Daemon, Beat, save, beat_row, heartbeat, heartbeat_loop, stop_row,
  cleanup,
}

module _ {S : Schema} (I : Db S → Type 0) (closed : Closed S I) (worker : String) where
  save-Held : (c : Option Exception) (v : Worker) (d : Daemon S) → I d.db → I (save c v d).db
  unfolding save
  save-Held (some e) v d h = h
  save-Held none v d h = closed.aside d.db _ d.db.tenant_limits h

  beat_row-Held : (b : Beat) (o : Option Worker) (d : Daemon S) → I d.db → I (beat_row b o d).db
  unfolding beat_row
  beat_row-Held b none d h = h
  beat_row-Held b (some w) d h = save-Held b.commit _ d h

  heartbeat-Held : (b : Beat) (d : Daemon S) → I d.db → I (heartbeat worker b d).db
  unfolding heartbeat
  heartbeat-Held b d h = elim (Option-cases b.set) [
    | inl e ↦ rw e (beat_row-Held b _ _ h)
    | inr (x, e) ↦ rw e h
  ]

  -- A property of the database that every transaction keeps holds after any rounds of the
  -- heartbeat, and after the shutdown.
  pub heartbeat_loop-Held :
      (bs : List Beat) (d : Daemon S) → I d.db → I (heartbeat_loop worker bs d).db
  unfolding heartbeat_loop
  heartbeat_loop-Held [] d h = h
  heartbeat_loop-Held (b ∷ bs) d h = heartbeat_loop-Held bs _ (heartbeat-Held b d h)

  stop_row-Held :
      (c : Option Exception) (o : Option Worker) (d : Daemon S) → I d.db → I (stop_row c o d).db
  unfolding stop_row
  stop_row-Held c none d h = h
  stop_row-Held c (some w) d h = save-Held c _ d h

  pub cleanup-Held :
      (delete c : Option Exception) (d : Daemon S) → I d.db → I (cleanup worker delete c d).db
  unfolding cleanup
  cleanup-Held delete c d h = elim (Option-cases delete) [
    | inl e ↦ rw e (stop_row-Held c _ _ h)
    | inr (x, e) ↦ rw e h
  ]

  -- What a commit that goes through leaves.
  abbrev AfterCommit : Answer (Daemon S) → Type 0
  AfterCommit (ok x) = I x.db
  AfterCommit (raise e) = Unit

  commit_workers-Held :
      (c : Option Exception) (rows : Option S.workers.Rows) (d e : Daemon S)
      → commit_workers c rows d ≡ ok e
      → I d.db
      → I e.db
  unfolding commit_workers
  commit_workers-Held (some x) rows d e q h = absurd (cc)
  commit_workers-Held none none d e q h = absurd (cc)
  commit_workers-Held none (some rows) d e q h =
      subst AfterCommit q (closed.aside d.db rows d.db.tenant_limits h)

  pub register-Held :
      (hostname : String) (now : ℕ) (c : Option Exception) (d e : Daemon S)
      → register worker hostname now c d ≡ ok e
      → I d.db
      → I e.db
  unfolding register
  register-Held hostname now c d e q h = commit_workers-Held c _ d e q h
