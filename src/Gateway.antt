-- ===== src/Gateway.antt =====
-- local_first_orchestrator/gateway_notification.py and ledger.py: notifications of terminal failures,
-- which are sent once, or left for an operator to decide.
pub mod Outbox
pub mod Worker
pub mod Settled
pub mod Claim
pub mod Apart
mod Examples
