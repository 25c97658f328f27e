-- ===== src/Api/Tasks/Held.antt =====
-- What `create_task` (src/fairlane/api/routes.py) keeps true of the database.
use fairlane.Prelude.{◌≡◌, refl, Option, none, some, Bool-cases, inl, inr, leb}
use fairlane.Models.{Task}
use fairlane.Config.{max_pending_per_tenant}
use fairlane.Retry.{Exception}
use fairlane.Answer.{Answer, ok, raise}
use fairlane.Database.{Schema, Db}
use fairlane.Scheduler.Queue.{Rooms}
use fairlane.System.Closed.{Closed}
use fairlane.Api.Service.{Service}
use fairlane.Api.Tasks.{
  TaskCreate, Request, new_task, submitted, store, pending_count, check_quota, unless_existing,
  create_task,
}

module _ {S : Schema} {R : Rooms} (I : Db S → Type 0) (closed : Closed S I) (r : Request)
    (c : TaskCreate) where
  abbrev Held : Service S R → Type 0
  Held s = I s.db

  submitted-Held : (s : Service S R) (e : Option Exception) → Held s → Held (submitted r c s e).1
  unfolding submitted
  submitted-Held s (some e) h = h
  submitted-Held s none h = h

  store-Held :
      (s : Service S R) (flush commit : Option Exception) (rows : Option S.tasks.Rows)
      → S.tasks.insert (new_task r c) s.db.tasks ≡ rows
      → Held s
      → Held (store r c s flush commit rows).1
  unfolding store
  store-Held s (some e) commit rows i h = h
  store-Held s none commit none i h = h
  store-Held s none (some e) (some rows) i h = h
  store-Held s none none (some rows) i h =
      submitted-Held _ r.refresh (closed.created s.db r c rows i h)

  check_quota-Held : (s : Service S R) → Held s → Held (check_quota r c s).1
  unfolding check_quota
  check_quota-Held s h =
      elim (Bool-cases (leb max_pending_per_tenant (pending_count c.tenant_id s.db))) [
        | inl e ↦ rw e h
        | inr e ↦ rw e (store-Held s r.flush r.commit _ refl h)
      ]

  unless_existing-Held :
      (s : Service S R) (a : Answer (Option Task)) → Held s → Held (unless_existing r c s a).1
  unfolding unless_existing
  unless_existing-Held s (raise e) h = h
  unless_existing-Held s (ok (some t)) h = h
  unless_existing-Held s (ok none) h = check_quota-Held s h

  -- A property of the database that every transaction keeps holds after the request.
  pub create_task-Held : (s : Service S R) → Held s → Held (create_task r c s).1
  unfolding create_task
  create_task-Held s h = unless_existing-Held s _ h
