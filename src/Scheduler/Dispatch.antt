-- ===== src/Scheduler/Dispatch.antt =====
-- src/fairlane/scheduler/dispatch.lua and src/fairlane/scheduler/dispatcher.py: weighted fair
-- queuing from the waiting rooms into the stream.
pub mod Fairness
pub mod Bounds
pub mod Loop
pub mod Spec
pub mod Refines
use fairlane.Prelude.{
  ℕ, zero, suc, ◌+◌, ◌-◌, ◌*◌, ◌/◌, min, max, String, ◌≡◌, Bool, true, false, Option, none, some,
  List, [], ◌∷◌, ◌++◌, ℤ, incr, below, leb, ◌==◌, length, or_else, if◌then◌else◌,
}
use fairlane.Models.{Task, TaskEvent, EventType, str, int}
use fairlane.Config.{dispatch_batch_size, stream_target_depth, max_in_stream_per_tenant}
use fairlane.Redis.{SortedSet}
use fairlane.Scheduler.Queue.{Rooms, Queue, update}

-- The first tenant by virtual time whose count of tasks in the stream is below the cap.
unfoldable pub first_with_room : (String → ℤ) → ℕ → List (String × ℕ) → Option (String × ℕ)
first_with_room instream cap [] = none
first_with_room instream cap ((tenant, vtime) ∷ l) =
    if below (instream tenant) cap then some (tenant, vtime) else first_with_room instream cap l

abbrev pub first_task : List (ℕ × ℕ) → Option ℕ
first_task [] = none
first_task ((id, _) ∷ l) = some id

-- `unit` is the number of virtual-time units in 1.0; 1.0 / weight is exact where it divides.
unfoldable pub advance : ℕ → Option ℕ → ℕ → ℕ
advance unit weight vtime = vtime + unit / or_else weight 1

abbrev pub collect : Option ℕ → List ℕ → List ℕ
collect none ids = ids
collect (some id) ids = id ∷ ids

module _ {R : Rooms} (unit : ℕ) where
  -- The tenant's first task goes to the stream; a tenant with an empty room leaves the order.
  unfoldable pub pop : String → ℕ → Queue R → Option ℕ → Queue R × Option ℕ
  pop tenant vtime q none = (record q { vtime = R.tenants.zrem tenant q.vtime }, none)
  pop tenant vtime q (some id) =
      let room = R.tasks.zrem id (q.ready tenant) in
      (
        record q {
          ready = update q.ready tenant room;
          vtime =
              if R.tasks.zcard room == 0
              then R.tenants.zrem tenant q.vtime
              else R.tenants.zadd tenant (advance unit (q.weight tenant) vtime) q.vtime;
          instream = update q.instream tenant (incr (q.instream tenant));
          stream = q.stream ++ id ∷ [];
        },
        some id,
      )

  unfoldable pub pop_from : Queue R → String × ℕ → Queue R × Option ℕ
  pop_from q (tenant, vtime) = pop tenant vtime q (first_task (R.tasks.zrange (q.ready tenant)))

  -- The script's loop, with the number of rounds left.
  unfoldable pub dispatch : ℕ → ℕ → Queue R → Queue R × List ℕ
  dispatch cap zero q = (q, [])
  dispatch cap (suc rounds) q = elim (first_with_room q.instream cap (R.tenants.zrange q.vtime)) [
    | none ↦ (q, [])
    | some best ↦
        let (q', id) = pop_from q best in
        let (q'', ids) = dispatch cap rounds q' in (q'', collect id ids)
  ]

-- Twice the number of workers that are alive, or the configured depth if there are none.
unfoldable pub target_depth : ℕ → ℕ
target_depth active_workers =
    if active_workers == 0 then stream_target_depth else max 1 (active_workers * 2)

unfoldable pub batch_size : ℕ → ℕ → ℕ
unfolding target_depth
batch_size stream_len active_workers =
    let target = target_depth active_workers in
    if leb target stream_len then 0 else min dispatch_batch_size (target - stream_len)

unfoldable pub dispatch_cycle : {R : Rooms} → ℕ → ℕ → Queue R → Queue R × List ℕ
dispatch_cycle unit active_workers q =
    dispatch unit max_in_stream_per_tenant (batch_size (length q.stream) active_workers) q

-- `_record_dispatch_events`, on the rows that the query finds for the dispatched ids.
unfoldable pub dispatch_events : ℕ → List Task → List TaskEvent
dispatch_events now [] = []
dispatch_events now (t ∷ ts) =
    record {
      task_id = t.id;
      event_type = EventType.dispatched;
      details =
          ("tenant_id", str t.tenant_id)
          ∷ ("priority", int t.priority)
          ∷ ("wait_time_ms", int ((now - or_else t.original_enqueue_at t.created_at) / 1000))
          ∷ [];
      created_at = now;
    }
    ∷ dispatch_events now ts
