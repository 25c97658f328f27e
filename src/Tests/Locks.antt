-- ===== src/Tests/Locks.antt =====
-- The lock of the dispatchers, as the moment that it expires at.
use fairlane.Prelude.{
  ℕ, ◌+◌, ◌*◌, ◌≤◌, ◌≡◌, refl, true, false, none, [], length, arith, ltb, if◌then◌else◌,
}
use fairlane.Models.{TaskStatus}
use fairlane.Redis.{ExpiringKey}
use fairlane.Redis.Lease.{Apart, acquire, renew}
use fairlane.Scheduler.Dispatch.{
  dispatch_cycle, dispatch, pop_from, pop, advance, first_with_room, batch_size,
}
use fairlane.Scheduler.Dispatch.Loop.{
  Phase, Cluster, Step, Reach, ask, cycle, after_cycle, extend, record_dispatch_events,
}
use fairlane.Scheduler.Dispatch.Loop.Rate.{Reach-Apart}
use fairlane.Reaper.Reclaim.{Fleet}
use fairlane.Tests.Fixtures.{schema, rooms, two_tenants, db_of, task_of, no_letters}

abbrev pub expiring : ExpiringKey
expiring = record {
  Key = ℕ;
  until = λ k. k;
  set_nx_px = λ now ttl k. if ltb now k then (false, k) else (true, now + ttl);
  pexpire = λ now ttl k. if ltb now k then now + ttl else k;
  del = λ k. 0;
  set_nx_px_taken = λ now ttl k h. ground arith;
  set_nx_px_free = λ now ttl k h. ground arith;
  pexpire_there = λ now ttl k h. ground arith;
  pexpire_gone = λ now ttl k h. ground arith;
  until_del = λ k. refl;
}

-- Nobody holds the lock, and every dispatcher is about to ask for it.
abbrev idle : Cluster expiring schema rooms
idle = record {
  lease = record { clock = 0; key = 0; starts = [] };
  phase = λ i. Phase.waiting;
  db = db_of (task_of 7 "" TaskStatus.pending) no_letters;
  queue = two_tenants;
}

-- The first dispatcher runs a cycle, asks again too early, and the second one runs the next.
abbrev first : Cluster expiring schema rooms
first = ask 0 5 idle

abbrev second : Cluster expiring schema rooms
second = after_cycle 0 (cycle 1 2 1_000 none first)

abbrev third : Cluster expiring schema rooms
third = extend 0 6 second

abbrev fourth : Cluster expiring schema rooms
fourth = ask 1 3_006 (ask 0 106 third)

two_dispatchers : Reach 1 idle fourth
unfolding ask acquire cycle after_cycle extend renew record_dispatch_events dispatch_cycle dispatch
    pop_from pop advance first_with_room batch_size
two_dispatchers =
    Reach.next
      (Reach.next
        (Reach.next
          (Reach.next (Reach.next Reach.here (Step.asks 0 5 (omega arith) refl))
            (Step.cycles 0 2 1_000 none refl))
          (Step.extends 0 6 (omega arith) refl))
        (Step.asks 0 106 (omega arith) refl))
      (Step.asks 1 3_006 (omega arith) refl)

taken_twice : length fourth.lease.starts ≡ 2
unfolding ask acquire cycle after_cycle extend renew record_dispatch_events dispatch_cycle dispatch
    pop_from pop advance first_with_room batch_size
taken_twice = refl

Reach-Apart_example :
    Apart 3000 fourth.lease.starts × (length fourth.lease.starts * 3000 ≤ fourth.lease.clock + 3000)
Reach-Apart_example = Reach-Apart 1 two_dispatchers refl

-- Two workers run the reaper's loop on a database without rows of workers.
abbrev nobody : Fleet schema rooms
nobody = record { db = idle.db; queue = two_tenants; acked = []; deleted = []; metrics = [] }
