-- ===== src/Fixtures.antt =====
-- The loader of fixtures (packages/fixtures/src).
pub mod Refs
pub mod Shape
pub mod Layering
pub mod Sources
pub mod Documents
pub mod Validation
pub mod Loading
pub mod Registry
pub mod Calls
pub mod Keys
pub mod Candidates
pub mod Merge
pub mod Reading
pub mod Fresh
