-- ===== src/Reaper.antt =====
-- src/fairlane/reaper.py: workers that have died, and the tasks that they leave behind.
pub mod Claim
pub mod Reclaim
pub mod Cycle
pub mod Loop
pub mod Spares
pub mod Held
