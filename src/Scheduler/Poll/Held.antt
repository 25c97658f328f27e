-- ===== src/Scheduler/Poll/Held.antt =====
-- What a poll (src/fairlane/scheduler/__init__.py) keeps true of the database.
use fairlane.Prelude.{Bool, ℕ, zero, suc, Option, none, some}
use fairlane.Retry.{Exception}
use fairlane.Database.{Schema, Db}
use fairlane.Scheduler.Queue.{Rooms}
use fairlane.System.Closed.{Closed, polled_db}
use fairlane.Scheduler.Poll.{Polling, poll_and_requeue, end_poll}

module _ {S : Schema} {R : Rooms} (I : Db S → Type 0) (closed : Closed S I) (locked : ℕ → Bool)
    (now : ℕ) where
  end_poll-Held :
      (d : Db S) (c : Option Exception) (before after : Polling S R) (n : ℕ)
      → I (polled_db d before)
      → I (polled_db d after)
      → I (polled_db d (end_poll c before after n).1)
  unfolding end_poll
  end_poll-Held d c before after zero h k = k
  end_poll-Held d none before after (suc n) h k = k
  end_poll-Held d (some e) before after (suc n) h k = h

  -- A property of the database that every transaction keeps holds after a poll, whether its commit
  -- goes through or not.
  pub poll_and_requeue-Held :
      (d : Db S) (c : Option Exception) (before : Polling S R)
      → I (polled_db d before)
      → I (polled_db d (poll_and_requeue locked now c before).1)
  unfolding poll_and_requeue
  poll_and_requeue-Held d c before h =
      end_poll-Held d c before _ _ h (closed.polled (polled_db d before) locked now before.queue h)
