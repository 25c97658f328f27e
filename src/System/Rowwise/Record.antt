-- ===== src/System/Rowwise/Record.antt =====
-- What src/fairlane only adds to: the events, the dead letters and the side effects.
use mathlib.Core.List.{append_assoc, append-nil}
use fairlane.Prelude.{
  not, ◌≡◌, refl, sym, ap, ◌∙◌, List, [], ◌∷◌, ◌++◌, str_eq, Bool-cases, inl, inr, ◌&&◌,
}
use fairlane.Models.{Task, TaskEvent, is_pending}
use fairlane.Database.{Schema, Db}
use fairlane.Scheduler.Poll.{due}
use fairlane.Scheduler.Dispatch.{dispatch_events}
use fairlane.Worker.Process.{run_side_effect}
use fairlane.Reaper.Reclaim.{opened_on, reclaim_ids}
use fairlane.Api.Tasks.{created_event}
use fairlane.Api.Replay.{replayed_letter}
use fairlane.System.Closed.{Closed, polling}
use fairlane.System.Rowwise.{Grows}
use fairlane.System.Rowwise.Keeps.{
  Keeps, Keeps-insert, Keeps-update, insert_all-Keeps, upserted-Keeps, requeue_all-events,
}

-- The rows change, and perhaps events are added; no other table does.
pub Grows-rows :
    {S : Schema} (d : Db S) (rows : S.tasks.Rows) (events vs : List TaskEvent)
    → events ≡ d.events ++ vs
    → Grows S d (record d { tasks = rows; events = events })
Grows-rows d rows events vs e = record {
  letters = λ id h. h;
  effects = λ id h. h;
  more = vs;
  events = e;
}

-- The dead letters change, and none is lost.
pub Grows-letters :
    {S : Schema} (d : Db S) (rows : S.tasks.Rows) (vs : List TaskEvent) (l : S.dead_letters.Rows)
    → Keeps _ S.dead_letters d.dead_letters l
    → Grows S d (record d { tasks = rows; dead_letters = l; events = d.events ++ vs })
Grows-letters d rows vs l k = record { letters = k; effects = λ id h. h; more = vs; events = refl }

pub Grows-refl : {S : Schema} (d : Db S) → Grows S d d
Grows-refl d = record {
  letters = λ id h. h;
  effects = λ id h. h;
  more = [];
  events = sym (append-nil d.events);
}

Grows-trans : {S : Schema} (a b c : Db S) → Grows S a b → Grows S b c → Grows S a c
Grows-trans a b c g h = record {
  letters = λ id k. h.letters id (g.letters id k);
  effects = λ id k. h.effects id (g.effects id k);
  more = g.more ++ h.more;
  events = h.events ∙ ap (λ es. es ++ h.more) g.events ∙ append_assoc a.events g.more h.more;
}

pub side-Grows : {S : Schema} (t : Task) (d : Db S) → Grows S d (run_side_effect t d)
unfolding run_side_effect
side-Grows {S} t d = elim (Bool-cases (str_eq t.task_type "demo")) [
  | inl e ↦
      let u = upserted-Keeps S t.id d.side_effects in
      rw e (record {
        letters = λ id k. k;
        effects = u.0;
        more = [];
        events = sym (append-nil d.events);
      })
  | inr e ↦ rw e (Grows-refl d)
]

pub aside-Grows :
    {S : Schema} (d : Db S) (workers : S.workers.Rows) (limits : S.tenant_limits.Rows)
    → Grows S d (record d { workers = workers; tenant_limits = limits })
aside-Grows d workers limits = record {
  letters = λ id h. h;
  effects = λ id h. h;
  more = [];
  events = sym (append-nil d.events);
}

-- Every transaction only adds to them.
pub Grows-Closed : {S : Schema} (start : Db S) → Closed S (Grows S start)
Grows-Closed {S} start = record {
  created =
      λ d r c rows i h. Grows-trans start d _ h (Grows-rows d rows _ (created_event r ∷ []) refl);
  throttled = λ d t at e f h. Grows-trans start d _ h (Grows-rows d _ _ (e ∷ []) refl);
  started = λ d t now worker e f h. Grows-trans start d _ h (Grows-rows d _ _ (e ∷ []) refl);
  succeeded = λ d t r now worker e f o y h.
      let after = run_side_effect t d in
      Grows-trans start after _ (Grows-trans start d after h (side-Grows t d))
        (Grows-rows after _ _ (e ∷ []) refl);
  retried = λ d t x at e f m h. Grows-trans start d _ h (Grows-rows d _ _ (e ∷ []) refl);
  died = λ d t x now e v l f m q i h.
      Grows-trans start d _ h
        (Grows-letters d _ (e ∷ []) l (Keeps-insert _ S.dead_letters v d.dead_letters l i));
  reclaimed = λ d parse now dead_worker ids l i h.
      let s = reclaim_ids now dead_worker parse ids (opened_on d) in
      Grows-trans start d _ h
        (Grows-letters d s.tasks s.events l (insert_all-Keeps S s.letters d.dead_letters l i).0);
  polled = λ d locked now q h.
      let ts =
        S.tasks.select (λ t. is_pending t.status && (due now t.next_retry_at && not (locked t.id)))
          d.tasks in
      let r = requeue_all-events now ts (polling d q) in
      Grows-trans start d _ h (Grows-rows d _ _ r.0 r.1);
  replayed = λ d t b now e v f m g h. Grows-trans start d _ h (
      Grows-letters d _ (e ∷ []) _
        (Keeps-update _ S.dead_letters (replayed_letter now v) d.dead_letters));
  dispatched = λ d now ts h.
      Grows-trans start d _ h
        (Grows-rows d d.tasks (d.events ++ dispatch_events now ts) (dispatch_events now ts) refl);
  aside = λ d workers limits h. Grows-trans start d _ h (aside-Grows d workers limits);
}
