-- ===== src/Cli/Exits.antt =====
-- What the exit codes of src/fairlane/cli.py say.
use fairlane.Prelude.{ℕ, ◌<◌, String, ◌≡◌, refl, sym, ap, ◌∙◌, ==_iff, Option, none, some, []}
use fairlane.Models.{Dict}
use fairlane.Retry.{Exception}
use fairlane.Config.{max_pending_per_tenant}
use fairlane.Database.{Schema}
use fairlane.Scheduler.Queue.{Rooms}
use fairlane.Api.Service.{Reply, sent, http, unhandled, Service}
use fairlane.Api.Tasks.{TaskCreate, Request, pending_count, existing, create_task}
use fairlane.Api.Tasks.Created.{submitted_row, create_task-stores}
use fairlane.Api.Tenants.{get_tenant_limits, get_tenant_usage}
use fairlane.Answer.{Answer}
use fairlane.Ratelimit.Limiter.{RateLimitResult}
use fairlane.Cli.{
  Network, reached, refused, lost, answered, call, Ending, shown, exit_one, ended, parsed, both,
  submitted_as, submit, tenant_show,
}

shown-injective : {A : Type 0} {a b : A} → (shown a ≡ shown b) → a ≡ b
shown-injective h = cc

same_status : {A : Type 0} (n : ℕ) (a : A) → ended n (answered n (some a)) ≡ shown a
same_status n a = rw ((==_iff n n).1 refl) refl

-- An exit with code 0 comes from an answer of the handler that has arrived.
called :
    {A B : Type 0} (net : Network) (n : ℕ) (o : Reply A × B) (s : B) (a : A) (after : B)
    → (ended n (call net n o s).0 ≡ shown a)
    → ((call net n o s).1 ≡ after)
    → o ≡ (sent a, after)
called reached n (sent b, after') s a after h k =
    let e : b ≡ a = shown-injective (sym (same_status n b) ∙ h) in rw e (ap (λ x. (sent a, x)) k)
called reached n (http i, after') s a after h k = absurd (cc)
called reached n (unhandled e, after') s a after h k = absurd (cc)
called refused n o s a after h k = absurd (cc)
called lost n o s a after h k = absurd (cc)

both_none : {A B : Type 0} (e : Ending A) → ◌≡◌ {A = Ending (A × B)} (both e exit_one) exit_one
both_none (shown a) = refl
both_none exit_one = refl

both-exit_one : {A B : Type 0} (e : Ending A) (f : Ending B) → f ≡ exit_one → both e f ≡ exit_one
both-exit_one e f h = rw h (both_none e)

failed :
    {A B : Type 0} (net : Network) (e : Exception) (t s : B)
    → ended 200 (call {A = A} net 200 (unhandled e, t) s).0 ≡ exit_one
failed reached e t s = refl
failed refused e t s = refl
failed lost e t s = refl

second_failed :
    {A B D : Type 0} (o : Ending A) (net : Network) (e : Exception) (t s : B)
    → both o (ended 200 (call {A = D} net 200 (unhandled e, t) s).0) ≡ exit_one
second_failed o net e t s = both-exit_one o _ (failed net e t s)

-- `fairlane tenant show` exits with code 1, whatever the tenant and the network.
pub tenant_show-fails :
    {S : Schema} {R : Rooms} (first second : Network) (allow : Answer RateLimitResult)
    (tenant : String) (s : Service S R)
    → tenant_show first second allow tenant s ≡ exit_one
unfolding tenant_show get_tenant_usage
tenant_show-fails first second allow tenant s =
    second_failed (ended 200 (call first 200 (get_tenant_limits tenant s.db, s) s).0) second _ s s

-- The body that `submit` sends.
abbrev pub body_of : String → String → ℕ → Dict → TaskCreate
body_of tenant task_type priority d = record {
  tenant_id = tenant;
  task_type = task_type;
  payload = d;
  priority = priority;
  idempotency_key = none;
}

module _ {S : Schema} {R : Rooms} (net : Network) where
  -- What holds after `submit` has shown the task id `id`.
  abbrev pub Submitted :
      String → String → ℕ → Request → Service S R → ℕ → Service S R → Dict → Type 0
  Submitted tenant task_type priority r s id after d =
      (S.tasks.find id after.db.tasks
        ≡ some (submitted_row r (body_of tenant task_type priority d)))
      × (pending_count tenant s.db < max_pending_per_tenant)

  submitted_as-Submitted :
      (tenant task_type : String) (priority : ℕ) (r : Request) (s after : Service S R) (id : ℕ)
      (d : Dict)
      → submitted_as net (some d) r (body_of tenant task_type priority []) s ≡ (shown id, after)
      → Submitted tenant task_type priority r s id after d
  unfolding submitted_as existing
  submitted_as-Submitted tenant task_type priority r s after id d h =
      let c = body_of tenant task_type priority d in
      let answer =
        called net 201 (create_task r c s) s id after (ap (λ x. x.0) h) (ap (λ x. x.1) h) in
      let (_, quota, found) = create_task-stores r c s after id refl answer in (found, quota)

  submitted :
      (tenant task_type : String) (priority : ℕ) (r : Request) (s after : Service S R) (id : ℕ)
      (o : Option Dict)
      → submitted_as net o r (body_of tenant task_type priority []) s ≡ (shown id, after)
      → (d : Dict) × (o ≡ some d)
        × (S.tasks.find id after.db.tasks
            ≡ some (submitted_row r (body_of tenant task_type priority d)))
        × (pending_count tenant s.db < max_pending_per_tenant)
  unfolding submitted_as
  submitted tenant task_type priority r s after id none h = absurd (cc)
  submitted tenant task_type priority r s after id (some d) h =
      let (found, quota) = submitted_as-Submitted tenant task_type priority r s after id d h in
      (d, refl, found, quota)

  -- `fairlane submit` exits with code 0 only after the text of the payload was read as an object,
  -- and the row with that payload, the given tenant, type and priority and no idempotency key was
  -- stored under the shown id, with fewer PENDING rows of the tenant before it than the quota.
  pub submit-stores :
      (loads : String → Option Dict) (tenant task_type : String) (priority : ℕ)
      (payload : Option String) (r : Request) (s after : Service S R) (id : ℕ)
      → submit net loads tenant task_type priority payload r s ≡ (shown id, after)
      → (d : Dict) × (parsed loads payload ≡ some d)
        × (S.tasks.find id after.db.tasks
            ≡ some (submitted_row r (body_of tenant task_type priority d)))
        × (pending_count tenant s.db < max_pending_per_tenant)
  unfolding submit
  submit-stores loads tenant task_type priority payload r s after id h =
      submitted tenant task_type priority r s after id (parsed loads payload) h
