-- ===== src/Api/Replay/Replayed.antt =====
-- What `replay_dead_letter` (src/fairlane/api/dlq_routes.py) leaves.
use mathlib.Core.Path.{subst}
use fairlane.Prelude.{
  ◌⊎◌, ◌+◌, if◌then◌else◌, ℕ, ◌≡◌, refl, sym, ap, ◌∙◌, true, false, Option, none, some, or_else,
  Bool-cases, inl, inr,
}
use fairlane.Models.{Task, TaskStatus, DeadLetter, is_dead}
use fairlane.Retry.{Exception}
use fairlane.Database.{Schema, Db}
use fairlane.Scheduler.Queue.{Rooms, enqueue}
use fairlane.Worker.Failure.Outcome.{find-update}
use fairlane.Api.Service.{Reply, sent, http, Service, same_id}
use fairlane.Api.Replay.{
  ReplayRequest, patched, replayed_row, replayed_letter, push, replay_commit, replay_task, answered,
  replay_letter, replay_row, replay_dead_letter,
}

-- The body of a request, with its defaults.
abbrev pub body_of : Option ReplayRequest → ReplayRequest
body_of body = or_else body (record { payload_patch = none; reset_attempts = false })

module _ {S : Schema} {R : Rooms} (b : ReplayRequest) (now id : ℕ) (s : Service S R) where
  -- PENDING with the patched payload, and as if it had not failed; its attempts start again on demand.
  abbrev pub pending_row : Task → Task
  pending_row t = record t {
    status = TaskStatus.pending;
    payload = patched b.payload_patch t.payload;
    attempts = if b.reset_attempts then 0 else t.attempts;
    finished_at = none;
    next_retry_at = none;
    last_error = none;
  }

  -- The row was DEAD and is PENDING, the dead letter is kept and counts the replay, and the task
  -- waits again.
  abbrev pub Replayed : ℕ → Service S R → Task → DeadLetter → Type 0
  Replayed i after t d =
      (i ≡ t.id)
      × (S.tasks.find id s.db.tasks ≡ some t)
      × (is_dead t.status ≡ true)
      × (S.dead_letters.find id s.db.dead_letters ≡ some d)
      × (S.tasks.find id after.db.tasks ≡ some (pending_row t))
      × (S.dead_letters.find id after.db.dead_letters
          ≡ some (record d { replayed_at = some now; replay_count = d.replay_count + 1 }))
      × (after.queue ≡ enqueue (pending_row t) s.queue)

  letter-update :
      (d v : DeadLetter)
      → S.dead_letters.find id s.db.dead_letters ≡ some d
      → v.task_id ≡ d.task_id
      → S.dead_letters.find id (S.dead_letters.update v s.db.dead_letters) ≡ some v
  letter-update d v h e =
      let k = S.dead_letters.find_key id s.db.dead_letters d h in
      subst (λ j. S.dead_letters.find j (S.dead_letters.update v s.db.dead_letters) ≡ some v)
        (e ∙ k)
        (S.dead_letters.find_update_self v d s.db.dead_letters
          (subst (λ j. S.dead_letters.find j s.db.dead_letters ≡ some d) (sym (e ∙ k)) h))

  commit-sent :
      (commit redis : Option Exception) (i : ℕ) (after : Service S R) (t : Task) (d : DeadLetter)
      → S.tasks.find id s.db.tasks ≡ some t
      → is_dead t.status ≡ true
      → S.dead_letters.find id s.db.dead_letters ≡ some d
      → answered t.id (replay_commit b now t d redis s commit) ≡ (sent i, after)
      → Replayed i after t d
  unfolding answered replay_commit push replayed_row replayed_letter
  commit-sent (some e) redis i after t d f a g h = absurd (cc)
  commit-sent none (some e) i after t d f a g h = absurd (cc)
  commit-sent none none i after t d f a g h =
      let db = ap (λ (x : Reply ℕ × Service S R). x.1.db) (sym h) in
      (
        sym (same_id _ _ _ _ h),
        f,
        a,
        g,
        ap (λ (e : Db S). S.tasks.find id e.tasks) db ∙ find-update S id s.db.tasks t _ f refl,
        ap (λ (e : Db S). S.dead_letters.find id e.dead_letters) db ∙ letter-update d _ g refl,
        ap (λ (x : Reply ℕ × Service S R). x.1.queue) (sym h),
      )

  letter-sent :
      (commit redis : Option Exception) (i : ℕ) (after : Service S R) (t : Task)
      (o : Option DeadLetter)
      → S.tasks.find id s.db.tasks ≡ some t
      → is_dead t.status ≡ true
      → S.dead_letters.find id s.db.dead_letters ≡ o
      → replay_letter b now commit redis t o s ≡ (sent i, after)
      → (d : DeadLetter) × Replayed i after t d
  unfolding replay_letter replay_task
  letter-sent commit redis i after t none f a g h = absurd (cc)
  letter-sent commit redis i after t (some d) f a g h =
      (d, commit-sent commit redis i after t d f a g h)

  row-sent :
      (commit redis : Option Exception) (i : ℕ) (after : Service S R) (o : Option Task)
      → S.tasks.find id s.db.tasks ≡ o
      → replay_row b now commit redis id o s ≡ (sent i, after)
      → (t : Task) × ((d : DeadLetter) × Replayed i after t d)
  unfolding replay_row
  row-sent commit redis i after none f h = absurd (cc)
  row-sent commit redis i after (some t) f h = elim (Bool-cases (is_dead t.status)) [
    | inl e ↦ (t, letter-sent commit redis i after t _ f e refl (rw e at h))
    | inr e ↦
        let p : ◌≡◌ {A = Reply ℕ × Service S R} (http 409, s) (sent i, after) = rw e at h in
        absurd (cc)
  ]

  abbrev Refused : ℕ → Service S R → Type 0
  Refused code after = ((code ≡ 404) ⊎ (code ≡ 409)) × (after ≡ s)

  http-Refused :
      (n code : ℕ) (after : Service S R)
      → ((n ≡ 404) ⊎ (n ≡ 409))
      → ◌≡◌ {A = Reply ℕ × Service S R} (http n, s) (http code, after)
      → Refused code after
  http-Refused n code after k h =
      (subst (λ x. (x ≡ 404) ⊎ (x ≡ 409)) (cc) k, ap (λ (x : Reply ℕ × Service S R). x.1) (sym h))

  commit-http :
      (commit redis : Option Exception) (code : ℕ) (after : Service S R) (t : Task) (d : DeadLetter)
      → answered t.id (replay_commit b now t d redis s commit) ≡ (http code, after)
      → Refused code after
  unfolding answered replay_commit push
  commit-http (some e) redis code after t d h = absurd (cc)
  commit-http none (some e) code after t d h = absurd (cc)
  commit-http none none code after t d h = absurd (cc)

  letter-http :
      (commit redis : Option Exception) (code : ℕ) (after : Service S R) (t : Task)
      (o : Option DeadLetter)
      → replay_letter b now commit redis t o s ≡ (http code, after)
      → Refused code after
  unfolding replay_letter replay_task
  letter-http commit redis code after t none h = http-Refused 404 code after (inl refl) h
  letter-http commit redis code after t (some d) h = commit-http commit redis code after t d h

  row-http :
      (commit redis : Option Exception) (code : ℕ) (after : Service S R) (o : Option Task)
      → replay_row b now commit redis id o s ≡ (http code, after)
      → Refused code after
  unfolding replay_row
  row-http commit redis code after none h = http-Refused 404 code after (inl refl) h
  row-http commit redis code after (some t) h = elim (Bool-cases (is_dead t.status)) [
    | inl e ↦ letter-http commit redis code after t _ (rw e at h)
    | inr e ↦
        let p : ◌≡◌ {A = Reply ℕ × Service S R} (http 409, s) (http code, after) = rw e at h in
        http-Refused 409 code after (inr refl) p
  ]

-- A replay that is answered with a task id found a DEAD row with a dead letter, and has made the
-- row PENDING with the patched payload, without its error, its end and its retry time, and with no
-- attempts if the request asks for that and its attempts otherwise, counted the replay in the dead letter, which it keeps, and
-- enqueued the task. A replay that is refused, which the code does with a 404 or a 409, has changed
-- nothing; a request that raises, and is answered with a 500, is not among these.
pub replay_dead_letter-exact :
    {S : Schema} {R : Rooms} (id : ℕ) (body : Option ReplayRequest) (now : ℕ)
    (commit redis : Option Exception) (s after : Service S R)
    → ((i : ℕ)
        → replay_dead_letter id body now commit redis s ≡ (sent i, after)
        → (t : Task) × ((d : DeadLetter) × Replayed (body_of body) now id s i after t d))
      × ((code : ℕ)
          → replay_dead_letter id body now commit redis s ≡ (http code, after)
          → ((code ≡ 404) ⊎ (code ≡ 409)) × (after ≡ s))
unfolding replay_dead_letter
replay_dead_letter-exact id body now commit redis s after = (
  λ i h. row-sent (body_of body) now id s commit redis i after _ refl h,
  λ code h. row-http (body_of body) now id s commit redis code after _ h,
)
