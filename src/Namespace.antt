-- ===== src/Namespace.antt =====
-- Stores under a namespace (packages/store/src/namespace.ts).
pub mod Binding
pub mod Store
pub mod Names
pub mod Isolation
pub mod Apart
pub mod Foreign
