-- ===== src/Worker/Inject.antt =====
-- The failure-injection hooks of `process_task` (src/fairlane/worker/main.py): the exception that
-- the payload asks for, if any. `float(...)` and `int(...)` of a text are arguments.
use fairlane.Prelude.{
  ℕ, ◌*◌, ◌/◌, String, ◌≡◌, refl, Bool, true, false, Option, none, some, [], ◌∷◌, str_eq, ltb, not,
  ◌==◌, if◌then◌else◌,
}
use fairlane.Models.{Value, null, bool, int, float, str, time, other, category, Dict, get}
use fairlane.Retry.{Exception, ExceptionType, value_error, type_error, runtime_error, timeout_error}

abbrev error : ExceptionType → String → Exception
error c m = record { type = c; message = m }

abbrev pub million : ℕ
million = 1_000_000

pub data Number : Type 0 where
  number : ℕ → Number
  bad : Exception → Number

from_text : Option ℕ → Number
from_text (some n) = number n
from_text none = bad (error value_error "could not convert")

-- `float(v)`, in millionths.
unfoldable pub to_float : (String → Option ℕ) → Value → Number
unfolding from_text
to_float read (int n) = number (n * million)
to_float read (float m) = number m
to_float read (bool true) = number million
to_float read (bool false) = number 0
to_float read (str s) = from_text (read s)
to_float read _ = bad (error type_error "float() argument")

-- `int(v)`, which truncates a float.
unfoldable pub to_int : (String → Option ℕ) → Value → Number
unfolding from_text
to_int read (int n) = number n
to_int read (float m) = number (m / million)
to_int read (bool true) = number 1
to_int read (bool false) = number 0
to_int read (str s) = from_text (read s)
to_int read _ = bad (error type_error "int() argument")

-- `key in payload`
unfoldable pub has_key : String → Dict → Bool
has_key k [] = false
has_key k ((j, v) ∷ d) = if str_eq j k then true else has_key k d

-- `v is True`
unfoldable pub is_true : Value → Bool
is_true (bool b) = b
is_true _ = false

-- `v == "..."`
unfoldable pub is_text : String → Value → Bool
is_text s (str t) = str_eq t s
is_text s _ = false

-- The truth value of a JSON value; `other 0` is the empty array or object.
unfoldable pub truthy : Value → Bool
truthy null = false
truthy (bool b) = b
truthy (int n) = not (n == 0)
truthy (float n) = not (n == 0)
truthy (str s) = not (str_eq s "")
truthy (time n) = true
truthy (other n) = not (n == 0)
truthy (category c) = true

abbrev pub always_fails : Exception
always_fails = error runtime_error "Injected failure: payload 'fail' is True"

fail_hook : Dict → Option Exception
unfolding get is_true
fail_hook p = if is_true (get "fail" p) then some always_fails else none

roll_against : ℕ → Number → Option Exception
roll_against roll (bad e) = some e
roll_against roll (number rate) =
    if ltb roll rate
    then some (error runtime_error "Injected failure: triggered by fail_rate")
    else none

fail_rate_hook : (String → Option ℕ) → ℕ → Dict → Option Exception
unfolding roll_against has_key get to_float
fail_rate_hook read roll p =
    if has_key "fail_rate" p then roll_against roll (to_float read (get "fail_rate" p)) else none

attempt_against : ℕ → Number → Option Exception
attempt_against attempts (bad e) = some e
attempt_against attempts (number until) =
    if ltb attempts until
    then some (error runtime_error "Injected failure: current attempt < fail_until_attempt")
    else none

fail_until_hook : (String → Option ℕ) → ℕ → Dict → Option Exception
unfolding attempt_against has_key get to_int
fail_until_hook read attempts p =
    if has_key "fail_until_attempt" p
    then attempt_against attempts (to_int read (get "fail_until_attempt" p))
    else none

fail_type_hook : Dict → Option Exception
unfolding get is_text
fail_type_hook p =
    if is_text "permanent" (get "fail_type" p)
    then some (error value_error "Injected permanent failure: payload 'fail_type' is 'permanent'")
    else if is_text "transient" (get "fail_type" p)
    then some (error timeout_error "Injected transient failure: payload 'fail_type' is 'transient'")
    else none

-- A sleep of N seconds: `float(sleep)` may raise; `some` number is the time slept.
unfoldable pub sleep_time : (String → Option ℕ) → Dict → Number
unfolding get truthy to_float
sleep_time read p = let v = get "sleep" p in if truthy v then to_float read v else number 500_000

abbrev first : Option Exception → Option Exception → Option Exception
first (some e) b = some e
first none b = b

-- The first hook that raises, in the order of the source.
unfoldable pub injected :
    (String → Option ℕ) → (String → Option ℕ) → ℕ → ℕ → Dict → Option Exception
unfolding fail_hook fail_rate_hook fail_until_hook fail_type_hook
injected read_float read_int roll attempts p = first (fail_hook p) (
    first (fail_rate_hook read_float roll p)
      (first (fail_until_hook read_int attempts p) (fail_type_hook p)))

-- A payload whose `fail` is true fails every attempt, whatever else it asks for.
pub injected-fail :
    (read_float read_int : String → Option ℕ) (roll attempts : ℕ) (p : Dict)
    → is_true (get "fail" p) ≡ true
    → injected read_float read_int roll attempts p ≡ some always_fails
unfolding injected fail_hook
injected-fail read_float read_int roll attempts p h = rw h refl
