-- ===== src/Review.antt =====
-- local_first_orchestrator/review.py: the packet that a reviewer sees, and what its verdict does.
pub mod Length
pub mod Packet
pub mod Bounded
pub mod Normalize
pub mod Scoped
pub mod Normal
pub mod Sorted
pub mod Records
pub mod Repair
pub mod Outcome
pub mod Applied
mod Examples
