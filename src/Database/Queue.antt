-- ===== src/Database/Queue.antt =====
-- The queue of internal/database as one component: its operations, its invariants and its laws.
pub mod Outcomes
pub mod Invariant
pub mod Atomic
pub mod Run
pub mod Claim
pub mod Laws
pub mod Letters
pub mod Kept
pub mod Loss
pub mod Duplicates
