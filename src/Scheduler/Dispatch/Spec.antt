-- ===== src/Scheduler/Dispatch/Spec.antt =====
-- Weighted fair queuing as the dispatcher (src/fairlane/scheduler/dispatch.lua) promises it, on a
-- view of the waiting rooms that forgets how Redis keeps them.
use fairlane.Prelude.{
  ◌+◌, ◌/◌, or_else, ℕ, zero, suc, ◌≤◌, String, ◌≡◌, ◌≢◌, ◌⊎◌, true, false, Option, none, some,
  List, [], ◌∷◌, ◌++◌, ℤ, incr, below,
}
use fairlane.Scheduler.Queue.{Rooms, Queue}

-- The score of each task that waits, the virtual time of each tenant that waits, and what has been
-- sent.
pub record View : Type 0 where
  pub waiting : String → ℕ → Option ℕ
  pub clock : String → Option ℕ
  pub instream : String → ℤ
  pub weight : String → Option ℕ
  pub stream : List ℕ

abbrev pub view : {R : Rooms} → Queue R → View
view {R} q = record {
  waiting = λ tenant id. R.tasks.zscore id (q.ready tenant);
  clock = λ tenant. R.tenants.zscore tenant q.vtime;
  instream = q.instream;
  weight = q.weight;
  stream = q.stream;
}

abbrev pub Vacant : View → String → Type 0
Vacant v tenant = (id : ℕ) → v.waiting tenant id ≡ none

-- The tenant waits with the virtual time `at` and has room in the stream, and no tenant that waits
-- and has room has a smaller one.
pub record Chosen (cap : ℕ) (v : View) (tenant : String) (at : ℕ) : Type 0 where
  pub waits : v.clock tenant ≡ some at
  pub room : below (v.instream tenant) cap ≡ true
  pub least : (m : String) (s : ℕ) → v.clock m ≡ some s → below (v.instream m) cap ≡ true → at ≤ s

-- No other tenant notices, and no weight changes.
pub record Apart (v after : View) (tenant : String) : Type 0 where
  pub waiting : (m : String) → m ≢ tenant → (id : ℕ) → after.waiting m id ≡ v.waiting m id
  pub clock : (m : String) → m ≢ tenant → after.clock m ≡ v.clock m
  pub instream : (m : String) → m ≢ tenant → after.instream m ≡ v.instream m
  pub weight : after.weight ≡ v.weight

-- The chosen tenant's task with the least score leaves its room for the end of the stream, and
-- the tenant pays the inverse of its weight, or leaves the order with its last task.
pub record Served (unit cap : ℕ) (v after : View) (tenant : String) (id : ℕ) : Type 0 where
  pub at : ℕ
  pub score : ℕ
  pub chosen : Chosen cap v tenant at
  pub first : v.waiting tenant id ≡ some score
  pub best : (j r : ℕ) → v.waiting tenant j ≡ some r → score ≤ r
  pub taken : after.waiting tenant id ≡ none
  pub kept : (j : ℕ) → id ≢ j → after.waiting tenant j ≡ v.waiting tenant j
  pub charged :
      (Vacant after tenant × (after.clock tenant ≡ none))
      ⊎ (((j : ℕ) × (r : ℕ) × (after.waiting tenant j ≡ some r))
          × (after.clock tenant ≡ some (at + unit / or_else (v.weight tenant) 1)))
  pub counted : after.instream tenant ≡ incr (v.instream tenant)
  pub sent : after.stream ≡ v.stream ++ id ∷ []
  pub apart : Apart v after tenant

-- The chosen tenant has no task and leaves the order.
pub record Retired (cap : ℕ) (v after : View) (tenant : String) : Type 0 where
  pub at : ℕ
  pub chosen : Chosen cap v tenant at
  pub vacant : Vacant v tenant
  pub waiting : (id : ℕ) → after.waiting tenant id ≡ none
  pub clock : after.clock tenant ≡ none
  pub instream : after.instream tenant ≡ v.instream tenant
  pub stream : after.stream ≡ v.stream
  pub apart : Apart v after tenant

-- What at most so many rounds do: they end early only if no tenant that waits has room.
pub data Dispatched (unit cap : ℕ) : ℕ → View → List ℕ → View → Type 0 where
  spent : {v : View} → Dispatched unit cap zero v [] v
  blocked :
      {n : ℕ} {v : View}
      → ((m : String) (s : ℕ) → v.clock m ≡ some s → below (v.instream m) cap ≡ false)
      → Dispatched unit cap n v [] v
  served :
      {n : ℕ} {v w after : View} {ids : List ℕ} (tenant : String) (id : ℕ)
      → Served unit cap v w tenant id
      → Dispatched unit cap n w ids after
      → Dispatched unit cap (suc n) v (id ∷ ids) after
  retired :
      {n : ℕ} {v w after : View} {ids : List ℕ} (tenant : String)
      → Retired cap v w tenant
      → Dispatched unit cap n w ids after
      → Dispatched unit cap (suc n) v ids after
