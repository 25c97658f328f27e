-- ===== src/System/Rowwise/Transactions.antt =====
-- What a property of rows gives of the transactions of src/fairlane.
use mathlib.Core.Path.{subst}
use fairlane.Prelude.{
  not, ◌≡◌, refl, sym, [], ◌∷◌, ◌++◌, some, true, str_eq, inl, inr, Bool-cases, ◌&&◌,
}
use fairlane.Models.{Task, TaskEvent, is_pending}
use fairlane.Database.{Schema, Db}
use fairlane.Scheduler.Poll.{due, Polling, requeue_all}
use fairlane.Scheduler.Dispatch.{dispatch_events}
use fairlane.Worker.Process.{run_side_effect}
use fairlane.Reaper.Reclaim.{opened_on, reclaim_ids}
use fairlane.Api.Tasks.{created_event}
use fairlane.Api.Replay.{replayed_letter}
use fairlane.System.Closed.{Closed, Found, polled_db}
use fairlane.System.Rows.{found_self, Holds, Holds-update, Holds-insert}
use fairlane.System.Rowwise.{Effected, Grows, RowProperty, Rowwise, Everywhere}
use fairlane.System.Rowwise.Keeps.{
  Has, Keeps, Keeps-insert, Keeps-update, Has-insert, insert_all-Keeps, upserted-Keeps,
  requeue_all-events,
}
use fairlane.System.Rowwise.Record.{Grows-rows, Grows-letters, side-Grows, aside-Grows}
use fairlane.System.Rowwise.Session.{reclaim_ids-Holds, poll-Holds}

module _ {S : Schema} (P : RowProperty S) (closed : Rowwise S P) where
  grown : (d after : Db S) → Grows S d after → Everywhere S P d → Holds S (P after) d.tasks
  grown d after g h id t f = closed.grows d after t g (h id t f)

  -- One row is changed to `v`, and an event added.
  put :
      (d : Db S) (v t : Task) (e : TaskEvent)
      → ((after : Db S) → P after t → P after v)
      → S.tasks.find t.id d.tasks ≡ some t
      → Everywhere S P d
      → Everywhere S P (record d { tasks = S.tasks.update v d.tasks; events = d.events ++ e ∷ [] })
  put d v t e c f h =
      let after : Db S = record d {
        tasks = S.tasks.update v d.tasks;
        events = d.events ++ e ∷ [];
      } in
      let k = grown d after (Grows-rows d _ _ (e ∷ []) refl) h in
      Holds-update S (P after) d.tasks k v (c after (k t.id t f))

  -- The same, and no dead letter is lost.
  put_letter :
      (d : Db S) (v t : Task) (e : TaskEvent) (l : S.dead_letters.Rows)
      → Keeps _ S.dead_letters d.dead_letters l
      → (let after : Db S = record d {
        tasks = S.tasks.update v d.tasks;
        dead_letters = l;
        events = d.events ++ e ∷ [];
      } in
          (P after t → P after v)
          → S.tasks.find t.id d.tasks ≡ some t
          → Everywhere S P d
          → Everywhere S P after)
  put_letter d v t e l keeps c f h =
      let k = grown d _ (Grows-letters d (S.tasks.update v d.tasks) (e ∷ []) l keeps) h in
      Holds-update S _ d.tasks k v (c (k t.id t f))

  -- The side effect of the demo task: no row changes, and the task has one afterwards.
  side :
      (t r : Task) (d : Db S)
      → Found S r d
      → t.id ≡ r.id
      → t.task_type ≡ r.task_type
      → Everywhere S P d
      → Everywhere S P (run_side_effect t d)
        × Found S r (run_side_effect t d)
        × (str_eq r.task_type "demo" ≡ true → Effected S (run_side_effect t d) r.id)
  unfolding run_side_effect
  side t r d f i y h = elim (Bool-cases (str_eq t.task_type "demo")) [
    | inl e ↦
        let k : Holds S (P (run_side_effect t d)) d.tasks = grown d _ (side-Grows t d) h in
        rw e (
          rw e at k,
          f,
          λ x. subst (Has _ S.side_effects _) i (upserted-Keeps S t.id d.side_effects).1,
        )
    | inr e ↦ rw e (h, f, λ x. absurd (cc))
  ]

  pub Rowwise-Closed : Closed S (Everywhere S P)
  Rowwise-Closed = record {
    created = λ d r c rows i h.
        let vs = created_event r ∷ [] in
        let after : Db S = record d { tasks = rows; events = d.events ++ vs } in
        Holds-insert S (P after) d.tasks (grown d after (Grows-rows d rows _ vs refl) h) _ rows i
          (closed.created after d.events r c refl);
    throttled = λ d t at e f h. put d _ t e (λ a. closed.throttled a t at) f h;
    started = λ d t now worker e f h. put d _ t e (λ a. closed.started a t now worker) f h;
    succeeded = λ d t r now worker e f o y h.
        let g = found_self S t.id r d f in
        let s = side t r d g (sym (S.tasks.find_key t.id d.tasks r f)) y h in
        put_letter (run_side_effect t d) _ r e (run_side_effect t d).dead_letters (λ id k. k)
          (closed.succeeded _ r now worker o s.2) s.1 s.0;
    retried = λ d t x at e f m h. put d _ t e (λ a. closed.retried a t x at m) f h;
    died = λ d t x now e v l f m q i h.
        put_letter d _ t e l (Keeps-insert _ S.dead_letters v d.dead_letters l i)
          (closed.died _ t x now m (Has-insert _ S.dead_letters v t.id d.dead_letters l q i)) f h;
    reclaimed = λ d parse now dead_worker ids l i h.
        let r = insert_all-Keeps S _ d.dead_letters l i in
        let s = reclaim_ids now dead_worker parse ids (opened_on d) in
        reclaim_ids-Holds P closed _ now dead_worker parse ids (opened_on d) r.1
          (grown d _ (Grows-letters d s.tasks s.events l r.0) h);
    polled = λ d locked now q h.
        let start : Polling S _ = record {
          tasks = d.tasks;
          events = d.events;
          queue = q;
          requeued = 0;
        } in
        let ts =
          S.tasks.select
            (λ t. is_pending t.status && (due now t.next_retry_at && not (locked t.id))) d.tasks in
        let r = requeue_all-events now ts start in
        poll-Holds P closed _ locked now start
          (grown d (polled_db d (requeue_all now ts start)) (Grows-rows d _ _ r.0 r.1) h);
    replayed = λ d t b now e v f m g h.
        put_letter d _ t e _ (Keeps-update _ S.dead_letters (replayed_letter now v) d.dead_letters)
          (closed.replayed _ t b m) f h;
    dispatched = λ d now ts h.
        grown d _
          (Grows-rows d d.tasks (d.events ++ dispatch_events now ts) (dispatch_events now ts) refl)
          h;
    aside = λ d workers limits h. grown d _ (aside-Grows d workers limits) h;
  }
