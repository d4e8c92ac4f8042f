-- ===== src/Comments.antt =====
-- local_first_orchestrator/ledger.py and comment_delivery.py: evidence comments, which are queued in
-- the ledger and delivered to the board.
pub mod Outbox
pub mod Delivery
pub mod Settled
pub mod Turns
pub mod Runs
pub mod Once
pub mod Claim
mod Examples
