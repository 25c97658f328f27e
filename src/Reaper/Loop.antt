-- ===== src/Reaper/Loop.antt =====
-- `run_reaper` of src/fairlane/reaper.py: every worker runs this loop, and a lock in Redis decides
-- whose turn has a cycle. Moments of the lock are milliseconds.
use fairlane.Prelude.{ℕ, ◌+◌, ◌*◌, ◌≤◌, String, ◌≡◌, Bool, Option, List, [], ◌∷◌, length}
use fairlane.Retry.{Exception}
use fairlane.Database.{Schema}
use fairlane.Redis.{ExpiringKey}
use fairlane.Redis.Lease.{Lease, Apart, length-Apart, IsLeased, acquire, acquire-IsLeased}
use fairlane.Scheduler.Queue.{Rooms}
use fairlane.Reaper.Reclaim.{Fleet, Circumstances}
use fairlane.Reaper.Cycle.{reaper_cycle}

-- `REAPER_LOCK_TTL`
abbrev pub reaper_lock_ttl : ℕ
reaper_lock_ttl = 10_000

-- The moment at which a worker asks for the lock, and what its cycle meets.
pub record Turn (S : Schema) : Type 0 where
  pub asked : ℕ
  pub alive : String → Bool
  pub commit : Option Exception
  pub now : ℕ
  pub circumstances : String → Circumstances S

module _ (L : ExpiringKey) (S : Schema) {R : Rooms} (parse : String → Option ℕ)
    (show : ℕ → String) where
  unfoldable pub turn : Turn S → Lease L × Fleet S R → Lease L × Fleet S R
  turn t (lease, f) =
      let (acquired, after) = acquire L reaper_lock_ttl t.asked lease in
      (after, reaper_cycle S parse show t.circumstances acquired t.alive t.commit t.now f)

  -- The turns of all workers, in their order.
  unfoldable pub run_reapers : List (Turn S) → Lease L × Fleet S R → Lease L × Fleet S R
  unfolding turn
  run_reapers [] s = s
  run_reapers (t ∷ ts) s = run_reapers ts (turn t s)

-- No turn asks before the moment, or before the turn that it follows.
abbrev pub InOrder : {S : Schema} → ℕ → List (Turn S) → Type 0
InOrder now [] = Unit
InOrder now (t ∷ ts) = (now ≤ t.asked) × InOrder t.asked ts

module _ (L : ExpiringKey) (S : Schema) {R : Rooms} (parse : String → Option ℕ)
    (show : ℕ → String) where
  run_reapers-IsLeased :
      (ts : List (Turn S)) (s : Lease L × Fleet S R)
      → InOrder s.0.clock ts
      → IsLeased L reaper_lock_ttl s.0
      → IsLeased L reaper_lock_ttl (run_reapers L S parse show ts s).0
  unfolding run_reapers
  run_reapers-IsLeased [] s o h = h
  run_reapers-IsLeased (t ∷ ts) (lease, f) o h =
      run_reapers-IsLeased ts (turn L S parse show t (lease, f)) (unfold acquire in o.1)
        (acquire-IsLeased L reaper_lock_ttl t.asked lease o.0 h)

  -- However many workers run the loop, and whatever their cycles meet, the reaper's cycles begin at
  -- least ten seconds after one another: there is at most one more of them than ten-second periods
  -- on the clock.
  pub run_reapers-Apart :
      (ts : List (Turn S)) (s : Lease L × Fleet S R)
      → InOrder s.0.clock ts
      → s.0.starts ≡ []
      → (let after = (run_reapers L S parse show ts s).0 in
          Apart 10_000 after.starts × (length after.starts * 10_000 ≤ after.clock + 10_000))
  run_reapers-Apart ts s o e =
      let h =
        run_reapers-IsLeased ts s o (record { apart = rw e tt; kept = rw e tt; past = rw e tt }) in
      (h.apart, length-Apart 10_000 _ _ h.apart h.past)
