-- ===== src/Ratelimit.antt =====
-- src/fairlane/ratelimit: the token bucket script, and the limiter around it.
pub mod Bucket
pub mod Limiter
