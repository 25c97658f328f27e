-- ===== src/Worker/Loop/Exhausts.antt =====
-- A task that fails every attempt (src/fairlane/worker/main.py) is dead after the attempts allowed.
use fairlane.Prelude.{
  ℕ, ◌+◌, ◌<◌, String, ◌≡◌, refl, sym, ap, ◌∙◌, true, false, Option, none, some, List, [], ◌∷◌, All,
  length, arith, ltb,
}
use mathlib.Core.Path.{subst}
use fairlane.Models.{Task, TaskStatus, DeadLetter, FailureCategory, get}
use fairlane.Retry.{calculate_backoff, default_base, default_max, is_retryable-runtime_error}
use fairlane.Database.{Schema, Db}
use fairlane.Worker.State.{World, Answers}
use fairlane.Worker.Inject.{is_true, always_fails, injected-fail}
use fairlane.Worker.Failure.{may_retry, retry_row, dead_row, dead_letter_of, terminal_category}
use fairlane.Worker.Process.{started_row, process_task}
use fairlane.Worker.Process.Delivery.{named}
use fairlane.Worker.Process.Outcome.{attempt_error, begun}
use fairlane.Worker.Process.Attempt.{outcome, Undisturbed}
use fairlane.Worker.Process.Lifecycle.{process_task-row, process_task-dead_row, process_task-free}
use fairlane.Worker.Loop.{Message, process_messages}

-- The payload asks for a failure of every attempt.
abbrev pub AlwaysFails : Task → Type 0
AlwaysFails t = is_true (get "fail" t.payload) ≡ true

module _ {S : Schema} (worker : String) (parse_uuid : String → Option ℕ) (id : ℕ) where
  -- A message for the task, whose attempt nothing disturbs.
  pub record IsAttempt (x : Message S) : Type 0 where
    pub goes_on : x.stopping ≡ false
    pub undisturbed : Undisturbed S x.answers id
    pub names : (d : Db S) → named S parse_uuid x.task_id d ≡ S.tasks.find id d.tasks

  attempt_error-always_fails :
      (A : Answers S) (m : String) (t : Task)
      → AlwaysFails t
      → attempt_error worker A m (started_row A.start_now worker t) ≡ some always_fails
  unfolding started_row
  attempt_error-always_fails A m t h =
      rw (injected-fail A.read_float A.read_int A.roll (t.attempts + 1) t.payload h) refl

  may_retry-always_fails :
      (A : Answers S) (t : Task)
      → may_retry always_fails (started_row A.start_now worker t)
        ≡ ltb (t.attempts + 1) t.max_attempts
  unfolding may_retry started_row
  may_retry-always_fails A t = rw (is_retryable-runtime_error always_fails.message) refl

  -- What one attempt that is not the last leaves: the task pending with its attempt counted.
  pub record IsRetried (t r : Task) (d : Db S) : Type 0 where
    pub row : S.tasks.find id d.tasks ≡ some r
    pub free : S.dead_letters.find id d.dead_letters ≡ none
    pub counted : r.attempts ≡ t.attempts + 1
    pub allowed : r.max_attempts ≡ t.max_attempts
    pub again : AlwaysFails r

  -- What the last one leaves: the row dead, and a dead letter that counts every attempt.
  pub record IsExhausted (t : Task) (d : Db S) : Type 0 where
    pub row : Task
    pub letter : DeadLetter
    pub found : S.tasks.find id d.tasks ≡ some row
    pub dead : row.status ≡ TaskStatus.dead
    pub all : row.attempts ≡ t.max_attempts
    pub lettered : S.dead_letters.find id d.dead_letters ≡ some letter
    pub category : letter.failure_category ≡ FailureCategory.transient_exhausted
    pub made : letter.attempts_made ≡ t.max_attempts

  IsExhausted-same :
      (r t : Task) (d : Db S) → r.max_attempts ≡ t.max_attempts → IsExhausted r d → IsExhausted t d
  IsExhausted-same r t d e x = record {
    row = x.row;
    letter = x.letter;
    found = x.found;
    dead = x.dead;
    all = x.all ∙ e;
    lettered = x.lettered;
    category = x.category;
    made = x.made ∙ e;
  }

  module _ (A : Answers S) (m : String) (task_id : Option String) (w : World S) (t : Task)
      (found : S.tasks.find id w.db.tasks ≡ some t)
      (names : named S parse_uuid task_id w.db ≡ some t)
      (free : S.dead_letters.find id w.db.dead_letters ≡ none) (u : Undisturbed S A id)
      (f : AlwaysFails t) where
    same : t.id ≡ id
    same = S.tasks.find_key id w.db.tasks t found

    undisturbed_here : Undisturbed S A t.id
    undisturbed_here = subst (Undisturbed S A) (sym same) u

    free_here : S.dead_letters.find t.id w.db.dead_letters ≡ none
    free_here = ap (λ k. S.dead_letters.find k w.db.dead_letters) same ∙ free

    abbrev started : Task
    started = started_row A.start_now worker t

    abbrev after : Db S
    after = (process_task worker A parse_uuid m task_id w).db

    attempt-IsRetried : t.attempts + 1 < t.max_attempts → (r : Task) × IsRetried t r after
    unfolding outcome retry_row started_row
    attempt-IsRetried l =
        let e : attempt_error worker A m started ≡ some always_fails =
          attempt_error-always_fails A m t f in
        let r : may_retry always_fails started ≡ true =
          may_retry-always_fails A t ∙ ground (arith, l) in
        let row =
          process_task-row worker A parse_uuid m task_id w t names undisturbed_here free_here
          ∙ ap (λ x. some (outcome A started x)) e
          ∙ rw r refl in
        let none_yet =
          process_task-free worker A parse_uuid m task_id w t names always_fails undisturbed_here
            free_here e r in
        (
          retry_row always_fails
              (A.finish_now
                + calculate_backoff A.uniform started.attempts default_base default_max true)
              started,
          record {
            row = ap (λ k. S.tasks.find k after.tasks) (sym same) ∙ row;
            free = ap (λ k. S.dead_letters.find k after.dead_letters) (sym same) ∙ none_yet;
            counted = refl;
            allowed = refl;
            again = f;
          },
        )

    attempt-IsExhausted : t.attempts + 1 ≡ t.max_attempts → IsExhausted t after
    unfolding dead_row started_row dead_letter_of terminal_category
    attempt-IsExhausted l =
        let e : attempt_error worker A m started ≡ some always_fails =
          attempt_error-always_fails A m t f in
        let r : may_retry always_fails started ≡ false =
          may_retry-always_fails A t ∙ ground (arith, l) in
        let (p, q) =
          process_task-dead_row worker A parse_uuid m task_id w t names always_fails
            undisturbed_here free_here e r in
        record {
          row = dead_row always_fails A.finish_now started;
          letter =
              dead_letter_of always_fails A.finish_now worker (begun worker A m t w).db.events
                started;
          found = ap (λ k. S.tasks.find k after.tasks) (sym same) ∙ p;
          lettered = ap (λ k. S.dead_letters.find k after.dead_letters) (sym same) ∙ q;
          dead = refl;
          all = l;
          category = rw (is_retryable-runtime_error always_fails.message) refl;
          made = l;
        }

process_messages-first :
    {S : Schema} (worker : String) (parse_uuid : String → Option ℕ) (x : Message S)
    (xs : List (Message S)) (w : World S)
    → x.stopping ≡ false
    → process_messages worker parse_uuid (x ∷ xs) w
      ≡ process_messages worker parse_uuid xs
          (process_task worker x.answers parse_uuid x.message_id x.task_id w)
unfolding process_messages
process_messages-first worker parse_uuid x xs w h = rw (h, process_messages) refl

-- A task whose payload has a true `fail`, and that has no dead letter, is DEAD once as many
-- undisturbed attempts have been made as it is allowed: it has counted them all, and has the dead
-- letter of a failure that retries did not cure.
pub process_messages-exhausts :
    {S : Schema} (worker : String) (parse_uuid : String → Option ℕ) (id : ℕ) (x : Message S)
    (xs : List (Message S)) (w : World S) (t : Task)
    → All (IsAttempt worker parse_uuid id) (x ∷ xs)
    → S.tasks.find id w.db.tasks ≡ some t
    → S.dead_letters.find id w.db.dead_letters ≡ none
    → AlwaysFails t
    → t.attempts + length (x ∷ xs) ≡ t.max_attempts
    → IsExhausted worker parse_uuid id t (process_messages worker parse_uuid (x ∷ xs) w).db
unfolding process_messages
process_messages-exhausts worker parse_uuid id x [] w t a found free f n =
    rw (process_messages-first worker parse_uuid x [] w a.0.goes_on) (
      attempt-IsExhausted worker parse_uuid id x.answers x.message_id x.task_id w t found
        (a.0.names w.db ∙ found) free a.0.undisturbed f n)
process_messages-exhausts worker parse_uuid id x (y ∷ ys) w t a found free f n =
    let (r, k) =
      attempt-IsRetried worker parse_uuid id x.answers x.message_id x.task_id w t found
        (a.0.names w.db ∙ found) free a.0.undisturbed f (ground (arith, n)) in
    let rest =
      process_messages-exhausts worker parse_uuid id y ys
        (process_task worker x.answers parse_uuid x.message_id x.task_id w) r a.1 k.row k.free
        k.again (ground (arith, n, k.counted, k.allowed)) in
    rw (process_messages-first worker parse_uuid x (y ∷ ys) w a.0.goes_on)
      (IsExhausted-same worker parse_uuid id r t _ k.allowed rest)
