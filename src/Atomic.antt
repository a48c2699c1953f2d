-- ===== src/Atomic.antt =====
-- The atomic mutation capability (packages/store/src/atomic.ts).
pub mod Encode
pub mod Limits
pub mod Normal
pub mod Normalize
pub mod Shape
pub mod Target
pub mod Validate
