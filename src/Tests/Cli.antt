-- ===== src/Tests/Cli.antt =====
-- The commands of src/fairlane/cli.py on a small service.
use fairlane.Prelude.{◌<◌, String, ◌≡◌, refl, Option, none, some, [], ◌∷◌, str_eq, if◌then◌else◌}
use fairlane.Models.{Dict, str}
use fairlane.Config.{max_pending_per_tenant}
use fairlane.Api.Service.{Service}
use fairlane.Api.Tasks.{
  new_task, existing, pending_count, create_task, unless_existing, check_quota, store, submitted,
}
use fairlane.Cli.{reached, parsed, submitted_as, submit}
use fairlane.Cli.Exits.{body_of, submit-stores}
use fairlane.Tests.Fixtures.{schema, rooms}
use fairlane.Api.Tasks.Created.{submitted_row}
use fairlane.Tests.Requests.{request, idle}

-- Reads one text only.
abbrev loads : String → Option Dict
loads s = if str_eq s "{\"n\": \"1\"}" then some (("n", str "1") ∷ []) else none

abbrev after_submit : Service schema rooms
after_submit = (submit reached loads "a" "demo" 5 (some "{\"n\": \"1\"}") (request 8) idle).1

submit-stores_example :
    (d : Dict) × (parsed loads (some "{\"n\": \"1\"}") ≡ some d)
    × (schema.tasks.find 8 after_submit.db.tasks
        ≡ some (submitted_row (request 8) (body_of "a" "demo" 5 d)))
    × (pending_count "a" idle.db < max_pending_per_tenant)
unfolding submit submitted_as create_task existing unless_existing check_quota pending_count store
    submitted new_task
submit-stores_example =
    submit-stores reached loads "a" "demo" 5 (some "{\"n\": \"1\"}") (request 8) idle after_submit 8
      refl
