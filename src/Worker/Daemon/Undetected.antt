-- ===== src/Worker/Daemon/Undetected.antt =====
-- A worker that was declared dead and goes on (src/fairlane/worker/main.py, src/fairlane/reaper.py).
use fairlane.Prelude.{
  In, String, ◌≡◌, refl, sym, ap, ◌∙◌, Bool, Option, none, some, List, [], ◌∷◌, inr, Option-cases,
  inl,
}
use mathlib.Core.Path.{subst}
use fairlane.Models.{Worker, WorkerStatus}
use fairlane.Retry.{Exception}
use fairlane.Answer.{ok}
use fairlane.Database.{Schema, Db}
use fairlane.Scheduler.Queue.{Rooms}
use fairlane.Reaper.Reclaim.{Fleet}
use fairlane.Reaper.Cycle.{is_active, detect_and_mark_dead_workers}
use fairlane.Reaper.Spares.{detect-spares}
use fairlane.Worker.Daemon.{Daemon, Beat, beaten_row, save, beat_row, heartbeat, heartbeat_loop}

module _ {S : Schema} (worker : String) where
  -- The worker's row is there, with the status.
  abbrev pub HasStatus : WorkerStatus → Db S → Type 0
  HasStatus x d = (w : Worker) × (S.workers.find worker d.workers ≡ some w) × (w.status ≡ x)

  save-HasStatus :
      (x : WorkerStatus) (b : Beat) (c : Option Exception) (w : Worker) (d : Daemon S)
      → S.workers.find worker d.db.workers ≡ some w
      → w.status ≡ x
      → HasStatus x (save c (beaten_row b.now b.current_task_id w) d).db
  unfolding save beaten_row
  save-HasStatus x b (some e) w d f h = (w, f, h)
  save-HasStatus x b none w d f h =
      let k = S.workers.find_key worker d.db.workers w f in
      let v = beaten_row b.now b.current_task_id w in
      let self : S.workers.find v.worker_id (S.workers.update v d.db.workers) ≡ some v =
        S.workers.find_update_self v w d.db.workers
          (ap (λ j. S.workers.find j d.db.workers) k ∙ f) in
      (v, ap (λ j. S.workers.find j (S.workers.update v d.db.workers)) (sym k) ∙ self, h)

  beat_row-HasStatus :
      (x : WorkerStatus) (b : Beat) (o : Option Worker) (d : Daemon S)
      → S.workers.find worker d.db.workers ≡ o
      → HasStatus x d.db
      → HasStatus x (beat_row b o d).db
  unfolding beat_row
  beat_row-HasStatus x b none d f h = h
  beat_row-HasStatus x b (some w) d f h =
      let (u, g, s) = h in
      let e : w ≡ u = cc in save-HasStatus x b b.commit w d f (ap (λ (y : Worker). y.status) e ∙ s)

  heartbeat-HasStatus :
      (x : WorkerStatus) (b : Beat) (d : Daemon S)
      → HasStatus x d.db
      → HasStatus x (heartbeat worker b d).db
  unfolding heartbeat
  heartbeat-HasStatus x b d h = elim (Option-cases b.set) [
    | inl e ↦ rw e (beat_row-HasStatus x b _ _ refl h)
    | inr (y, e) ↦ rw e h
  ]

  heartbeat_loop-HasStatus :
      (x : WorkerStatus) (bs : List Beat) (d : Daemon S)
      → HasStatus x d.db
      → HasStatus x (heartbeat_loop worker bs d).db
  unfolding heartbeat_loop
  heartbeat_loop-HasStatus x [] d h = h
  heartbeat_loop-HasStatus x (b ∷ bs) d h =
      heartbeat_loop-HasStatus x bs _ (heartbeat-HasStatus x b d h)

-- A worker that was marked DEAD once, because its heartbeat key had expired, and goes on: however
-- often its heartbeat succeeds, its row stays DEAD, and no detection on the database then finds the
-- worker, with its key or without it.
pub heartbeat_loop-undetected :
    {S : Schema} {R : Rooms} (worker : String) (bs : List Beat) (d : Daemon S)
    (alive : String → Bool) (c : Option Exception) (f : Fleet S R)
    → HasStatus worker WorkerStatus.dead d.db
    → f.db ≡ (heartbeat_loop worker bs d).db
    → (let (answer, after) = detect_and_mark_dead_workers alive c f in
        HasStatus worker WorkerStatus.dead f.db
        × (S.workers.find worker after.db.workers ≡ S.workers.find worker f.db.workers)
        × ((found : List String) → answer ≡ ok found → ¬ (In worker found)))
heartbeat_loop-undetected {S} worker bs d alive c f h e =
    let k : HasStatus worker WorkerStatus.dead f.db =
      subst (HasStatus worker WorkerStatus.dead) (sym e)
        (heartbeat_loop-HasStatus worker WorkerStatus.dead bs d h) in
    let (w, g, s) = k in
    let (p, q) = detect-spares alive worker f c (
      inr (λ u i.
        let m : u ≡ w = cc in ap (λ (y : Worker). is_active y.status) m ∙ ap is_active s)) in
    (k, p, q)
