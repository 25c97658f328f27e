-- ===== src/Reaper/Spares.antt =====
-- The workers that a detection (src/fairlane/reaper.py) leaves alone.
use mathlib.Core.Path.{subst}
use fairlane.Prelude.{
  In, String, ◌≡◌, ◌≢◌, ◌⊎◌, refl, sym, ap, ◌∙◌, Bool, true, false, Option, none, some, List, [],
  ◌∷◌, All, Bool-cases, inl, inr,
}
use fairlane.Models.{Worker}
use fairlane.Retry.{Exception}
use fairlane.Answer.{ok}
use fairlane.Database.{Schema}
use fairlane.Scheduler.Queue.{Rooms}
use fairlane.Reaper.Reclaim.{Fleet}
use fairlane.Reaper.Cycle.{
  is_active, dead_worker_row, mark_dead, commit_dead, detect_and_mark_dead_workers,
}

module _ (S : Schema) (alive : String → Bool) (k : String) (before : S.workers.Rows) where
  -- The worker has its heartbeat key, or its row is not ACTIVE.
  abbrev pub Safe : Type 0
  Safe =
      (alive k ≡ true)
      ⊎ ((w : Worker) → S.workers.find k before ≡ some w → is_active w.status ≡ false)

  -- What the query for ACTIVE rows has found.
  abbrev Found : Worker → Type 0
  Found w = (is_active w.status ≡ true) × (S.workers.find w.worker_id before ≡ some w)

  other : (w : Worker) → Safe → Found w → alive w.worker_id ≡ false → w.worker_id ≢ k
  other w (inl a) f d q = let b : alive w.worker_id ≡ true = ap alive q ∙ a in cc
  other w (inr n) f d q =
      let g : S.workers.find k before ≡ some w =
        subst (λ j. S.workers.find j before ≡ some w) q f.1 in
      absurd (cc (n w g, f.0))

  mark_dead-other :
      (ws : List Worker) (rows : S.workers.Rows)
      → Safe
      → All Found ws
      → (S.workers.find k (mark_dead S alive ws rows).1 ≡ S.workers.find k rows)
        × ¬ (In k (mark_dead S alive ws rows).0)
  unfolding mark_dead
  mark_dead-other [] rows s a = (refl, λ i. absurd i)
  mark_dead-other (w ∷ ws) rows s a =
      let (p, q) = mark_dead-other ws rows s a.1 in
      elim (Bool-cases (alive w.worker_id)) [
        | inl e ↦ rw e (p, q)
        | inr e ↦
            let n = other w s a.0 e in
            rw e (
              S.workers.find_update_ne k (dead_worker_row w) _ n ∙ p,
              λ i. elim i [ inl j ↦ absurd (n (sym j)) | inr j ↦ q j ],
            )
      ]

module _ {S : Schema} {R : Rooms} (alive : String → Bool) (k : String) (f : Fleet S R) where
  commit_dead-other :
      (c : Option Exception) (ids : List String) (rows : S.workers.Rows)
      → S.workers.find k rows ≡ S.workers.find k f.db.workers
      → ¬ (In k ids)
      → (S.workers.find k (commit_dead c (ids, rows) f).1.db.workers
          ≡ S.workers.find k f.db.workers)
        × ((found : List String) → (commit_dead c (ids, rows) f).0 ≡ ok found → ¬ (In k found))
  unfolding commit_dead
  commit_dead-other c [] rows p q =
      (refl, λ l h i. let e : l ≡ [] = cc in absurd (subst (In k) e i))
  commit_dead-other (some x) (id ∷ ids) rows p q = (refl, λ l h i. absurd (cc))
  commit_dead-other none (id ∷ ids) rows p q =
      (p, λ l h i. let e : l ≡ id ∷ ids = cc in q (subst (In k) e i))

  -- A detection leaves a worker alone that has its heartbeat key, or whose row is not ACTIVE: the
  -- row stays as it is, and the worker is not among those whose tasks are then reclaimed.
  pub detect-spares :
      (c : Option Exception)
      → Safe S alive k f.db.workers
      → (let (answer, after) = detect_and_mark_dead_workers alive c f in
          (S.workers.find k after.db.workers ≡ S.workers.find k f.db.workers)
          × ((found : List String) → answer ≡ ok found → ¬ (In k found)))
  unfolding detect_and_mark_dead_workers
  detect-spares c s =
      let active = S.workers.select (λ w. is_active w.status) f.db.workers in
      let (p, q) =
        mark_dead-other S alive k f.db.workers active f.db.workers s
          (S.workers.select_sound (λ w. is_active w.status) f.db.workers) in
      commit_dead-other c _ _ p q
