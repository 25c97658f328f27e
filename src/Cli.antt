-- ===== src/Cli.antt =====
-- src/fairlane/cli.py: the commands that change something, and two that show. A command asks the HTTP
-- interface, or Redis and PostgreSQL directly, and ends with an exit code. The layout of what it
-- prints is not modelled.
pub mod Exits
use fairlane.Prelude.{
  ℕ, ◌-◌, String, Bool, true, false, ◌&&◌, ◌||◌, Option, none, some, List, [], ◌∷◌, ℤ, pos, ltb,
  leb, ◌==◌, str_eq, or_else, if◌then◌else◌,
}
use fairlane.Models.{Dict}
use fairlane.Retry.{Exception}
use fairlane.Database.{Schema}
use fairlane.Scheduler.Queue.{Rooms, Queue}
use fairlane.Scheduler.Poll.{rebuild_from_postgres}
use fairlane.Api.Service.{Reply, sent, http, unhandled, Service}
use fairlane.Api.Tasks.{TaskCreate, Request, create_task}
use fairlane.Api.Replay.{ReplayRequest, replay_dead_letter}
use fairlane.Api.Bulk.{BulkReplayRequest, BulkReplayResponse, Moments, replay_bulk}
use fairlane.Answer.{Answer}
use fairlane.Ratelimit.Limiter.{RateLimitResult}
use fairlane.Api.Tenants.{
  TenantUsage, TenantLimitsConfig, set_tenant_limits, get_tenant_limits, get_tenant_usage,
}

-- What becomes of a request: it is answered, it does not arrive, or its answer is lost.
pub data Network : Type 0 where
  reached refused lost : Network

-- What httpx gives: a status with the body of a success, or a RequestError.
pub data Response (A : Type 0) : Type 0 where
  answered : ℕ → Option A → Response A
  request_error : Response A

-- The framework's answer for a handler that succeeds with the status `ok`.
abbrev pub respond : {A : Type 0} → ℕ → Reply A → Response A
respond ok (sent a) = answered ok (some a)
respond ok (http n) = answered n none
respond ok (unhandled e) = answered 500 none

abbrev pub call : {A B : Type 0} → Network → ℕ → Reply A × B → B → Response A × B
call reached ok (r, after) s = (respond ok r, after)
call refused ok (r, after) s = (request_error, s)
call lost ok (r, after) s = (request_error, after)

-- Exit code 0 with what is shown, or `typer.Exit(code=1)`.
pub data Ending (A : Type 0) : Type 0 where
  shown : A → Ending A
  exit_one : Ending A

-- `if resp.status_code == ok: ... else: raise typer.Exit(code=1)`, a RequestError included.
abbrev pub ended : {A : Type 0} → ℕ → Response A → Ending A
ended ok request_error = exit_one
ended ok (answered n none) = exit_one
ended ok (answered n (some a)) = if n == ok then shown a else exit_one

-- `loads` is json.loads with the check of the request body that it is an object: none if either
-- refuses the text. An empty text counts as no option.
abbrev pub parsed : (String → Option Dict) → Option String → Option Dict
parsed loads none = some []
parsed loads (some s) = if str_eq s "" then some [] else loads s

-- As `parsed`, for a patch, for which null is accepted too. `payload_patch` is left out without the
-- option.
abbrev pub patch_of :
    (String → Option (Option Dict)) → Option String → Option (Option (Option Dict))
patch_of loads none = some none
patch_of loads (some s) =
    if str_eq s "" then some none else elim (loads s) [ none ↦ none | some d ↦ some (some d) ]

-- `if body else None`
abbrev pub replay_body : Option (Option Dict) → Bool → Option ReplayRequest
replay_body none false = none
replay_body none true = some (record { payload_patch = none; reset_attempts = true })
replay_body (some p) r = some (record { payload_patch = p; reset_attempts = r })

-- An option that is missing or empty.
abbrev pub unset : Option String → Bool
unset none = true
unset (some s) = str_eq s ""

abbrev pub option : Option String → Option String
option o = if unset o then none else o

-- `Field(..., gt=0)` and `Field(1, ge=1)`
abbrev pub acceptable : TenantLimitsConfig → Bool
acceptable c =
    ltb 0 c.rate_per_second
    && (ltb 0 c.burst_capacity && (ltb 0 c.max_concurrent && leb 1 c.weight))

module _ {S : Schema} {R : Rooms} (net : Network) where
  unfoldable pub submitted_as :
      Option Dict → Request → TaskCreate → Service S R → Ending ℕ × Service S R
  submitted_as none r c s = (exit_one, s)
  submitted_as (some d) r c s =
      let (answer, after) = call net 201 (create_task r (record c { payload = d }) s) s in
      (ended 201 answer, after)

  unfoldable pub submit :
      (String → Option Dict)
      → String
      → String
      → ℕ
      → Option String
      → Request
      → Service S R
      → Ending ℕ × Service S R
  unfolding submitted_as
  submit loads tenant task_type priority payload r s =
      submitted_as (parsed loads payload) r
        (record {
          tenant_id = tenant;
          task_type = task_type;
          payload = [];
          priority = priority;
          idempotency_key = none;
        })
        s

  replayed_as :
      Option (Option (Option Dict))
      → Bool
      → ℕ
      → ℕ
      → Option Exception
      → Option Exception
      → Service S R
      → Ending ℕ × Service S R
  replayed_as none reset id now commit redis s = (exit_one, s)
  replayed_as (some p) reset id now commit redis s =
      let (answer, after) =
        call net 200 (replay_dead_letter id (replay_body p reset) now commit redis s) s in
      (ended 200 answer, after)

  unfoldable pub dlq_replay :
      (String → Option (Option Dict))
      → Option String
      → Bool
      → ℕ
      → ℕ
      → Option Exception
      → Option Exception
      → Service S R
      → Ending ℕ × Service S R
  unfolding replayed_as
  dlq_replay loads patch reset id now commit redis s =
      replayed_as (patch_of loads patch) reset id now commit redis s

  unfoldable pub dlq_replay_bulk :
      Moments
      → Option String
      → Option String
      → Service S R
      → Ending BulkReplayResponse × Service S R
  dlq_replay_bulk M tenant category s =
      if unset tenant && unset category
      then (exit_one, s)
      else (let (answer, after) =
            call net 200
              (replay_bulk M
                (record { tenant_id = option tenant; failure_category = option category }) s)
              s in
          (ended 200 answer, after))

  unfoldable pub tenant_set_limit :
      String
      → TenantLimitsConfig
      → Option Exception
      → Option Exception
      → Service S R
      → Ending TenantLimitsConfig × Service S R
  tenant_set_limit tenant c commit redis s =
      let (answer, after) =
        call net 200
          (if acceptable c then set_tenant_limits tenant c commit redis s else (http 422, s)) s in
      (ended 200 answer, after)

abbrev pub both : {A B : Type 0} → Ending A → Ending B → Ending (A × B)
both (shown a) (shown b) = shown (a, b)
both e f = exit_one

-- Two requests, each with its own fate.
unfoldable pub tenant_show :
    {S : Schema} {R : Rooms}
    → Network
    → Network
    → Answer RateLimitResult
    → String
    → Service S R
    → Ending (TenantLimitsConfig × TenantUsage)
tenant_show first second allow tenant s =
    both (ended 200 (call first 200 (get_tenant_limits tenant s.db, s) s).0)
      (ended 200 (call second 200 (get_tenant_usage allow tenant s.db, s) s).0)

-- The number of tasks that were put back, for the action "rebuild".
unfoldable pub scheduler_cmd :
    (S : Schema) {R : Rooms} → String → ℕ → S.tasks.Rows → Queue R → Ending ℕ × Queue R
scheduler_cmd S action now rows q =
    if str_eq action "rebuild"
    then (let (n, after) = rebuild_from_postgres S now rows q in (shown n, after))
    else (exit_one, q)

-- One line of `fairlane queue`. The age is in milliseconds, and none for an empty room.
pub record Line : Type 0 where
  pub tenant : String
  pub waiting_count : ℕ
  pub oldest_age : Option ℕ
  pub vtime : ℕ
  pub weight : ℕ
  pub instream : ℤ

abbrev pub age_of : ℕ → List (ℕ × ℕ) → Option ℕ
age_of now [] = none
age_of now ((id, score) ∷ l) = some (now - score)

unfoldable pub queue_lines : {R : Rooms} → ℕ → Queue R → List (String × ℕ) → List Line
queue_lines now q [] = []
queue_lines {R} now q ((tenant, vtime) ∷ l) =
    record {
      tenant = tenant;
      waiting_count = R.tasks.zcard (q.ready tenant);
      oldest_age = age_of now (R.tasks.zrange (q.ready tenant));
      vtime = vtime;
      weight = or_else (q.weight tenant) 1;
      instream = q.instream tenant;
    }
    ∷ queue_lines now q l

unfoldable pub queue_cmd : {R : Rooms} → ℕ → Queue R → List Line
unfolding queue_lines
queue_cmd {R} now q = queue_lines now q (R.tenants.zrange q.vtime)
