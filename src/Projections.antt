-- ===== src/Projections.antt =====
-- local_first_orchestrator/ledger.py and state_projection.py: the outbox of state projections, by
-- which the board is told the state of each ticket.
pub mod Outbox
pub mod Bundle
pub mod Complete
pub mod Fresh
pub mod Delivery
pub mod Told
mod Examples
