-- ===== src/Retry.antt =====
-- src/fairlane/retry.py: back-off delays in microseconds, and the classification of errors.
mod Backoff
mod Errors
unfoldable pub use Backoff.*
unfoldable pub use Errors.*
