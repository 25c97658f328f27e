-- ===== src/Api/Bulk/Replays.antt =====
-- What a bulk replay (src/fairlane/api/dlq_routes.py) leaves in the rows of `tasks`.
use mathlib.Core.Path.{subst}
use fairlane.Prelude.{
  String, In, ℕ, ◌≡◌, ◌≢◌, ◌⊎◌, refl, sym, ap, ◌∙◌, true, ◌&&◌, Option, none, some, List, [], ◌∷◌,
  length, Bool-cases, inl, inr, ◌==◌, arith,
}
use fairlane.Models.{Task, DeadLetter, is_dead}
use fairlane.Retry.{Exception}
use fairlane.Answer.{Answer, ok, raise}
use fairlane.Database.{Schema}
use fairlane.Scheduler.Queue.{Rooms}
use fairlane.System.Rows.{found_self}
use fairlane.Api.Service.{Reply, sent, http, Service}
use fairlane.Api.Replay.{replayed_row, replay_task, replay_commit, push}
use fairlane.Api.Bulk.{
  Moments, BulkReplayRequest, BulkReplayResponse, missing, plain, prepend, replay_one, counted,
  go_on, replay_letters, bulk_reply, replay_bulk,
}

-- A row is as it was, or it was DEAD, is PENDING now, and its id is in the answer.
abbrev pub Replays : (S : Schema) → S.tasks.Rows → S.tasks.Rows → List ℕ → ℕ → Type 0
Replays S rows after ids id =
    (S.tasks.find id after ≡ S.tasks.find id rows)
    ⊎ ((t : Task) × (S.tasks.find id rows ≡ some t)
        × (is_dead t.status ≡ true)
        × (S.tasks.find id after ≡ some (replayed_row plain t))
        × In id ids)

Replays-changed :
    (S : Schema) (rows after : S.tasks.Rows) (ids : List ℕ) (t : Task) (id : ℕ)
    → S.tasks.find t.id rows ≡ some t
    → is_dead t.status ≡ true
    → Replays S (S.tasks.update (replayed_row plain t) rows) after ids id
    → Replays S rows after (t.id ∷ ids) id
unfolding replayed_row
Replays-changed S rows after ids t id f e r = elim (Bool-cases (t.id == id)) [
  | inl q ↦
      let k : t.id ≡ id = ground arith in
      let self = S.tasks.find_update_self (replayed_row plain t) t rows f in
      let here = subst (λ j. S.tasks.find j rows ≡ some t) k f in
      let mid =
        subst
          (λ j.
            S.tasks.find j (S.tasks.update (replayed_row plain t) rows)
            ≡ some (replayed_row plain t))
          k self in
      elim r [
        | inl a ↦ inr (t, here, e, a ∙ mid, inl (sym k))
        | inr (u, g, a, b, i) ↦ let w : u ≡ replayed_row plain t = cc in absurd (cc (w, a))
      ]
  | inr q ↦
      let n : t.id ≢ id = λ k. ground arith in
      let mid = S.tasks.find_update_ne id (replayed_row plain t) rows n in
      elim r [ inl a ↦ inl (a ∙ mid) | inr (u, g, a, b, i) ↦ inr (u, sym mid ∙ g, a, b, inr i) ]
]

prepend-ok :
    (id : ℕ) (r : Answer (List ℕ)) (ids : List ℕ)
    → prepend id r ≡ ok ids
    → (rest : List ℕ) × (r ≡ ok rest) × (ids ≡ id ∷ rest)
prepend-ok id (ok rest) ids h = (rest, refl, cc)
prepend-ok id (raise e) ids h = absurd (cc)

module _ {S : Schema} {R : Rooms} (M : Moments) where
  replay_task-committed :
      (now : ℕ) (commit redis : Option Exception) (t : Task) (d : DeadLetter) (s : Service S R)
      → (replay_task plain now commit redis t d s).0 ≡ none
      → (replay_task plain now commit redis t d s).1.db.tasks
        ≡ S.tasks.update (replayed_row plain t) s.db.tasks
  unfolding replay_task replay_commit push
  replay_task-committed now (some e) redis t d s h = absurd (cc)
  replay_task-committed now none (some e) t d s h = absurd (cc)
  replay_task-committed now none none t d s h = refl

  -- A step that does not raise has skipped the letter, or has made its DEAD task PENDING.
  replay_one-cases :
      (o : Option Task) (d : DeadLetter) (s : Service S R)
      → (replay_one M o d s).0 ≡ none
      → (((replay_one M o d s).1 ≡ s) × ((r : Answer (List ℕ)) → counted o r ≡ r))
        ⊎ ((t : Task) × (o ≡ some t)
            × (is_dead t.status ≡ true)
            × ((replay_one M o d s).1.db.tasks ≡ S.tasks.update (replayed_row plain t) s.db.tasks)
            × ((r : Answer (List ℕ)) → counted o r ≡ prepend t.id r))
  unfolding replay_one counted
  replay_one-cases none d s h = inl (refl, λ r. refl)
  replay_one-cases (some t) d s h = elim (Bool-cases (is_dead t.status)) [
    | inl e ↦
        let k : (replay_task plain (M.now t.id) (M.commit t.id) (M.redis t.id) t d s).0 ≡ none =
          rw e at h in
        inr (t, refl, e, rw e (replay_task-committed _ _ _ t d s k), λ r. rw e refl)
    | inr e ↦ inl (rw e refl, λ r. rw e refl)
  ]

  go_on-ok :
      (o : Option Task) (rest : Answer (List ℕ) × Service S R)
      (step : Option Exception × Service S R) (ids : List ℕ) (after : Service S R)
      → (go_on M o rest step).0 ≡ ok ids
      → (go_on M o rest step).1 ≡ after
      → (step.0 ≡ none) × (counted o rest.0 ≡ ok ids) × (rest.1 ≡ after)
  unfolding go_on
  go_on-ok o rest (some e, s) ids after h k = absurd (cc)
  go_on-ok o rest (none, s) ids after h k = (refl, h, k)

  pub replay_letters-Replays :
      (ds : List DeadLetter) (s after : Service S R) (ids : List ℕ)
      → (replay_letters M ds s).0 ≡ ok ids
      → (replay_letters M ds s).1 ≡ after
      → (id : ℕ) → Replays S s.db.tasks after.db.tasks ids id
  unfolding replay_letters
  replay_letters-Replays [] s after ids h k id =
      inl (ap (λ (x : Service S R). S.tasks.find id x.db.tasks) (sym k))
  replay_letters-Replays (d ∷ ds) s after ids h k id =
      let o = S.tasks.find d.task_id s.db.tasks in
      let step = replay_one M o d s in
      let rest = replay_letters M ds step.1 in
      let (a, b, c) = go_on-ok o rest step ids after h k in
      elim (replay_one-cases o d s a) [
        | inl (same, q) ↦
            subst (λ (x : Service S R). Replays S x.db.tasks after.db.tasks ids id) same
              (replay_letters-Replays ds step.1 after ids (sym (q rest.0) ∙ b) c id)
        | inr (t, f, e, u, q) ↦
            let (more, r, i) = prepend-ok t.id rest.0 ids (sym (q rest.0) ∙ b) in
            let here = found_self S d.task_id t s.db f in
            subst (λ x. Replays S s.db.tasks after.db.tasks x id) (sym i)
              (Replays-changed S s.db.tasks after.db.tasks more t id here e (
                subst (λ x. Replays S x after.db.tasks more id) u
                  (replay_letters-Replays ds step.1 after more r c id)))
      ]

module _ {S : Schema} {R : Rooms} where
  bulk_reply-sent :
      (x : Answer (List ℕ) × Service S R) (r : BulkReplayResponse) (after : Service S R)
      → bulk_reply x ≡ (sent r, after)
      → (x.0 ≡ ok r.task_ids) × (x.1 ≡ after) × (r.replayed ≡ length r.task_ids)
  unfolding bulk_reply
  bulk_reply-sent (raise e, s) r after h = absurd (cc)
  bulk_reply-sent (ok ids, s) r after h =
      let q : r ≡ record { replayed = length ids; task_ids = ids } = cc in
      let k : r.task_ids ≡ ids = ap (λ (y : BulkReplayResponse). y.task_ids) q in
      (
        ap ok (sym k),
        ap (λ (y : Reply BulkReplayResponse × Service S R). y.1) h,
        ap (λ (y : BulkReplayResponse). y.replayed) q ∙ ap (λ (l : List ℕ). length l) (sym k),
      )

  bulk_reply-http :
      (x : Answer (List ℕ) × Service S R) (code : ℕ) (after : Service S R)
      → bulk_reply x ≢ (http code, after)
  unfolding bulk_reply
  bulk_reply-http (raise e, s) code after h = cc
  bulk_reply-http (ok ids, s) code after h = cc

-- A filter that is not there, or empty.
abbrev pub Unset : Option String → Type 0
Unset f = (f ≡ none) ⊎ (f ≡ some "")

Unset-missing : (f : Option String) → Unset f → missing f ≡ true
Unset-missing f (inl h) = rw h refl
Unset-missing f (inr h) = rw h refl

-- A bulk replay that is answered leaves every row as it was, or makes it PENDING as a replay does:
-- the row was DEAD then, and its id is among those that the answer lists and counts. A request
-- without a filter, or with empty ones, is refused with a 400 and changes nothing, and an answer with
-- an error code comes only with a 400 and changes nothing.
pub replay_bulk-Replays :
    {S : Schema} {R : Rooms} (M : Moments) (b : BulkReplayRequest) (s after : Service S R)
    → ((r : BulkReplayResponse)
        → replay_bulk M b s ≡ (sent r, after)
        → (r.replayed ≡ length r.task_ids)
          × ((id : ℕ) → Replays S s.db.tasks after.db.tasks r.task_ids id))
      × ((code : ℕ) → replay_bulk M b s ≡ (http code, after) → (code ≡ 400) × (after ≡ s))
      × (Unset b.tenant_id → Unset b.failure_category → replay_bulk M b s ≡ (http 400, s))
unfolding replay_bulk
replay_bulk-Replays {S} {R} M b s after =
    elim (Bool-cases (missing b.tenant_id && missing b.failure_category)) [
      | inl e ↦ (
        λ r h.
            let p : ◌≡◌ {A = Reply BulkReplayResponse × Service S R} (http 400, s) (sent r, after) =
              rw e at h in
            absurd (cc),
        λ code h.
            let p : ◌≡◌ {A = Reply BulkReplayResponse × Service S R} (http 400, s)
                (http code, after) =
              rw e at h in
            (cc, ap (λ (y : Reply BulkReplayResponse × Service S R). y.1) (sym p)),
        λ i j. rw e refl,
      )
      | inr e ↦ (
        λ r h.
            let (p, q, n) = bulk_reply-sent _ r after (rw e at h) in
            (n, replay_letters-Replays M _ s after r.task_ids p q),
        λ code h. absurd (bulk_reply-http _ code after (rw e at h)),
        λ i j.
            let p = Unset-missing b.tenant_id i in
            let q = Unset-missing b.failure_category j in absurd (cc (rw (p, q) at e)),
      )
    ]
