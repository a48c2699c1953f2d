-- ===== src/Sql.antt =====
-- SQL text for stores of JSON documents (packages/store/src/sql.ts).
pub mod Paths
pub mod Clauses
pub mod Closed
pub mod Placeholders
pub mod Queries
pub mod Balance
pub mod Literal
pub mod Tables
pub mod Candidates
pub mod Resolution
