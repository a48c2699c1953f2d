-- ===== src/Memory.antt =====
-- `InMemoryStore` (packages/store/src/backends/memory.ts): the reference store.
pub mod State
pub mod Values
pub mod Receipts
pub mod Listing
pub mod Queries
pub mod Found
pub mod Looks
pub mod Mutate
pub mod View
pub mod Collections
pub mod Update
pub mod Operations
pub mod Apply
pub mod Batch
pub mod Conditions
pub mod Holds
pub mod Outcome
pub mod Atomicity
pub mod Reach
pub mod Replay
