-- ===== src/Worker/Failure/Category.antt =====
-- The two places that name the category of a failure: the handler of src/fairlane/worker/main.py
-- and `classify_failure` of src/fairlane/retry.py.
use fairlane.Prelude.{ℕ, ◌≡◌, ◌<◌, arith}
use fairlane.Retry.{Exception, classify_failure, poison_pill_threshold}
use fairlane.Worker.Failure.{terminal_category}

-- The category that the worker's handler writes into a dead letter is the one that
-- `classify_failure` returns for a task that crashed fewer workers in a row than the threshold,
-- whatever its attempts and their limit are.
pub terminal_category-classify :
    (e : Exception) (attempts max_attempts consecutive_crashes : ℕ)
    → consecutive_crashes < poison_pill_threshold
    → terminal_category e ≡ classify_failure e attempts max_attempts consecutive_crashes
unfolding terminal_category classify_failure
terminal_category-classify e attempts max_attempts consecutive_crashes few = ground arith
