-- ===== src/Retry/Errors.antt =====
-- `is_retryable` and `classify_failure` of src/fairlane/retry.py. An exception is its class and its
-- message; the classes are those that the source names and their ancestors in Python.
use fairlane.Prelude.{
  ℕ, String, ◌≡◌, refl, Bool, true, false, ◌||◌, not, List, [], ◌∷◌, leb, if◌then◌else◌,
}
use fairlane.Models.{FailureCategory, transient_exhausted, permanent, poison_pill}

pub data ExceptionType : Type 0 where
  exception name_error value_error unicode_error type_error lookup_error key_error index_error :
      ExceptionType
  attribute_error runtime_error not_implemented_error : ExceptionType
  os_error permission_error connection_error timeout_error integrity_error : ExceptionType

pub record Exception : Type 0 where
  pub type : ExceptionType
  pub message : String

-- `type(e).__name__`
abbrev pub class_name : ExceptionType → String
class_name exception = "Exception"
class_name name_error = "NameError"
class_name value_error = "ValueError"
class_name unicode_error = "UnicodeError"
class_name type_error = "TypeError"
class_name lookup_error = "LookupError"
class_name key_error = "KeyError"
class_name index_error = "IndexError"
class_name attribute_error = "AttributeError"
class_name runtime_error = "RuntimeError"
class_name not_implemented_error = "NotImplementedError"
class_name os_error = "OSError"
class_name permission_error = "PermissionError"
class_name connection_error = "ConnectionError"
class_name timeout_error = "TimeoutError"
class_name integrity_error = "IntegrityError"

-- A class and its ancestors below BaseException.
abbrev pub mro : ExceptionType → List ExceptionType
mro exception = exception ∷ []
mro name_error = name_error ∷ exception ∷ []
mro value_error = value_error ∷ exception ∷ []
mro unicode_error = unicode_error ∷ value_error ∷ exception ∷ []
mro type_error = type_error ∷ exception ∷ []
mro lookup_error = lookup_error ∷ exception ∷ []
mro key_error = key_error ∷ lookup_error ∷ exception ∷ []
mro index_error = index_error ∷ lookup_error ∷ exception ∷ []
mro attribute_error = attribute_error ∷ exception ∷ []
mro runtime_error = runtime_error ∷ exception ∷ []
mro not_implemented_error = not_implemented_error ∷ runtime_error ∷ exception ∷ []
mro os_error = os_error ∷ exception ∷ []
mro permission_error = permission_error ∷ os_error ∷ exception ∷ []
mro connection_error = connection_error ∷ os_error ∷ exception ∷ []
mro timeout_error = timeout_error ∷ os_error ∷ exception ∷ []
mro integrity_error = integrity_error ∷ exception ∷ []

-- Membership in `_PERMANENT_ERRORS`.
abbrev pub permanent_errors : ExceptionType → Bool
permanent_errors value_error = true
permanent_errors type_error = true
permanent_errors key_error = true
permanent_errors attribute_error = true
permanent_errors not_implemented_error = true
permanent_errors permission_error = true
permanent_errors _ = false

abbrev pub any_permanent : List ExceptionType → Bool
any_permanent [] = false
any_permanent (c ∷ cs) = permanent_errors c || any_permanent cs

-- `isinstance(exception, _PERMANENT_ERRORS)` looks at the class and at its ancestors.
unfoldable pub is_retryable : Exception → Bool
is_retryable e = not (any_permanent (mro e.type))

pub is_retryable-runtime_error :
    (m : String) → is_retryable (record { type = ExceptionType.runtime_error; message = m }) ≡ true
unfolding is_retryable
is_retryable-runtime_error m = refl

abbrev pub poison_pill_threshold : ℕ
poison_pill_threshold = 3

unfoldable pub classify_failure : Exception → ℕ → ℕ → ℕ → FailureCategory
classify_failure e attempts max_attempts consecutive_crashes =
    if leb poison_pill_threshold consecutive_crashes
    then poison_pill
    else if not (is_retryable e)
    then permanent
    else if leb max_attempts attempts
    then transient_exhausted
    else transient_exhausted
