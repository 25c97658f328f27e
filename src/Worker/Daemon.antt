-- ===== src/Worker/Daemon.antt =====
-- The worker's own row and heartbeat key (src/fairlane/worker/main.py): the registration in `run`,
-- the rounds of `heartbeat_loop`, and `cleanup`. The tasks that cleanup cancels are not modelled.
pub mod Undetected
pub mod Held
use fairlane.Prelude.{
  ℕ, String, Bool, true, false, Option, none, some, List, [], ◌∷◌, str_eq, if◌then◌else◌,
}
use fairlane.Models.{Worker, WorkerStatus}
use fairlane.Retry.{Exception, ExceptionType}
use fairlane.Answer.{Answer, ok, raise}
use fairlane.Database.{Schema, Db}

-- What is committed, and the keys `worker:<id>:alive` that have not expired.
pub record Daemon (S : Schema) : Type 0 where
  pub db : Db S
  pub alive : String → Bool

unfoldable pub registered_row : String → String → ℕ → Option Worker → Worker
registered_row worker hostname now none = record {
  worker_id = worker;
  hostname = hostname;
  status = WorkerStatus.active;
  started_at = now;
  last_heartbeat_at = now;
  current_task_id = none;
}
registered_row worker hostname now (some w) = record w {
  hostname = hostname;
  status = WorkerStatus.active;
  started_at = now;
  last_heartbeat_at = now;
}

unfoldable pub beaten_row : ℕ → Option ℕ → Worker → Worker
beaten_row now task w = record w { last_heartbeat_at = now; current_task_id = task }

abbrev pub stopped_row : Worker → Worker
stopped_row w = record w { status = WorkerStatus.stopped }

-- The answers in one round of the heartbeat: of SET, of the commit, the clock, and the task at hand.
pub record Beat : Type 0 where
  pub set : Option Exception
  pub commit : Option Exception
  pub now : ℕ
  pub current_task_id : Option ℕ

-- `db.merge(worker)`: an insert, or an update of the row that is there.
unfoldable pub merged_rows :
    (S : Schema) → Worker → Option Worker → S.workers.Rows → Option S.workers.Rows
merged_rows S v none rows = S.workers.insert v rows
merged_rows S v (some w) rows = some (S.workers.update v rows)

module _ {S : Schema} where
  unfoldable pub commit_workers :
      Option Exception → Option S.workers.Rows → Daemon S → Answer (Daemon S)
  commit_workers (some e) rows d = raise e
  commit_workers none none d =
      raise (record { type = ExceptionType.integrity_error; message = "duplicate key value" })
  commit_workers none (some rows) d = ok (record d { db = record (d.db) { workers = rows } })

  -- An exception leaves `run` before any message is read.
  unfoldable pub register : String → String → ℕ → Option Exception → Daemon S → Answer (Daemon S)
  unfolding registered_row
  register worker hostname now commit d =
      let o = S.workers.find worker d.db.workers in
      commit_workers commit (merged_rows S (registered_row worker hostname now o) o d.db.workers) d

  -- A commit of one worker's row that is logged if it raises.
  unfoldable pub save : Option Exception → Worker → Daemon S → Daemon S
  save (some e) v d = d
  save none v d = record d { db = record (d.db) { workers = S.workers.update v d.db.workers } }

  unfoldable pub beat_row : Beat → Option Worker → Daemon S → Daemon S
  unfolding save beaten_row
  beat_row b none d = d
  beat_row b (some w) d = save b.commit (beaten_row b.now b.current_task_id w) d

  abbrev pub with_key : String → Bool → Daemon S → Daemon S
  with_key worker b d = record d { alive = λ k. if str_eq worker k then b else d.alive k }

  -- One round: SET with its time to live, then the row.
  unfoldable pub heartbeat : String → Beat → Daemon S → Daemon S
  unfolding beat_row
  heartbeat worker b d = elim b.set [
    | some e ↦ d
    | none ↦ beat_row b (S.workers.find worker d.db.workers) (with_key worker true d)
  ]

  unfoldable pub heartbeat_loop : String → List Beat → Daemon S → Daemon S
  unfolding heartbeat
  heartbeat_loop worker [] d = d
  heartbeat_loop worker (b ∷ bs) d = heartbeat_loop worker bs (heartbeat worker b d)

  unfoldable pub stop_row : Option Exception → Option Worker → Daemon S → Daemon S
  unfolding save
  stop_row commit none d = d
  stop_row commit (some w) d = save commit (stopped_row w) d

  -- The key is deleted, and the row is STOPPED, if it is there and nothing raises.
  unfoldable pub cleanup : String → Option Exception → Option Exception → Daemon S → Daemon S
  unfolding stop_row
  cleanup worker delete commit d = elim delete [
    | some e ↦ d
    | none ↦ stop_row commit (S.workers.find worker d.db.workers) (with_key worker false d)
  ]
