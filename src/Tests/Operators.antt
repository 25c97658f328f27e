-- ===== src/Tests/Operators.antt =====
-- The theorems on what an operator does over HTTP, at concrete inputs: limits, and dead letters.
use fairlane.Prelude.{ℕ, ◌≡◌, ◌≢◌, refl, none, some, [], ◌∷◌, length, arith, String, true, str_eq}
use fairlane.Models.{TaskStatus, FailureCategory}
use fairlane.Ratelimit.Limiter.{config_of}
use fairlane.Api.Service.{Service, sent, http}
use fairlane.Api.Tenants.{
  TenantLimitsConfig, set_tenant_limits, get_tenant_limits, commit_limits, limit_rows, set_weight,
}
use fairlane.Api.Tenants.Limits.{limits_of, set_tenant_limits-get}
use fairlane.Api.DeadLetters.{list_dead_letters, dead_letter_stats, same_category}
use fairlane.Database.Group.{tally}
use fairlane.Api.DeadLetters.Stats.{category_count, tenant_count, dead_letter_stats-counts}
use fairlane.Api.DeadLetters.Pages.{Same, Descending, pages, matching, list_dead_letters-pages}
use fairlane.Api.Bulk.{Moments, BulkReplayRequest, BulkReplayResponse, replay_bulk}
use fairlane.Api.Bulk.Replays.{Unset, Replays, replay_bulk-Replays}
use fairlane.Tests.Fixtures.{schema, rooms, task_of, db_of, letters_with, letter, empty_rooms}

abbrev service : Service schema rooms
service = record {
  db = db_of (task_of 7 "" TaskStatus.dead) (letters_with letter);
  queue = empty_rooms;
  metrics = [];
}

abbrev strict : TenantLimitsConfig
strict = record { rate_per_second = 500; burst_capacity = 2; max_concurrent = 1; weight = 3 }

abbrev limited : Service schema rooms
limited = (set_tenant_limits "a" strict none none service).1

set_tenant_limits-get_example :
    (strict ≡ strict)
    × (get_tenant_limits "a" limited.db ≡ sent strict)
    × ((other : String)
        → "a" ≢ other
        → get_tenant_limits other limited.db ≡ get_tenant_limits other service.db)
    × (config_of (schema.tenant_limits.find "a" limited.db.tenant_limits) ≡ limits_of strict)
    × (limited.queue.weight "a" ≡ some 3)
unfolding set_tenant_limits commit_limits limit_rows set_weight
set_tenant_limits-get_example =
    set_tenant_limits-get "a" strict strict none none service limited refl

list_dead_letters-pages_example :
    Same
      (pages (λ l. l) (some "a") none 2 service.db 1)
      (matching (λ l. l) (some "a") none 2 service.db)
    × Descending (pages (λ l. l) (some "a") none 2 service.db 1)
    × (length (pages (λ l. l) (some "a") none 2 service.db 1)
        ≡ (list_dead_letters (λ l. l) (some "a") none 1 2 service.db).total)
unfolding list_dead_letters
list_dead_letters-pages_example =
    list_dead_letters-pages (λ l. l) (some "a") none 2 service.db 1 (λ d. (λ i. i, λ i. i)) refl
      (omega arith)

dead_letter_stats-counts_example :
    (let r = dead_letter_stats service.db in
      let all = letter ∷ [] in
      (category_count (λ c. true) r.by_category ≡ r.total)
      × (tenant_count (λ t. true) r.by_tenant ≡ r.total)
      × ((c : FailureCategory)
          → category_count (same_category c) r.by_category
            ≡ tally (λ x. same_category c x.failure_category) all)
      × ((t : String)
          → tenant_count (str_eq t) r.by_tenant ≡ tally (λ x. str_eq t x.tenant_id) all))
dead_letter_stats-counts_example = dead_letter_stats-counts service.db

abbrev smooth : Moments
smooth = record { now = λ id. 4_000_000; commit = λ id. none; redis = λ id. none }

abbrev of_tenant : BulkReplayRequest
of_tenant = record { tenant_id = some "a"; failure_category = none }

abbrev again : Service schema rooms
again = (replay_bulk smooth of_tenant service).1

replay_bulk-Replays_example :
    ((r : BulkReplayResponse)
      → replay_bulk smooth of_tenant service ≡ (sent r, again)
      → (r.replayed ≡ length r.task_ids)
        × ((id : ℕ) → Replays schema service.db.tasks again.db.tasks r.task_ids id))
    × ((code : ℕ)
        → replay_bulk smooth of_tenant service ≡ (http code, again)
        → (code ≡ 400) × (again ≡ service))
    × (Unset of_tenant.tenant_id
        → Unset of_tenant.failure_category
        → replay_bulk smooth of_tenant service ≡ (http 400, service))
replay_bulk-Replays_example = replay_bulk-Replays smooth of_tenant service again
