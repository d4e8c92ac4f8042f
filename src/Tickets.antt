-- ===== src/Tickets.antt =====
-- local_first_orchestrator/ledger.py: the operations on tickets and on the controller's switch.
pub mod Lifecycle
pub mod Attempts
pub mod Leases
pub mod Numbers
pub mod Transitions
mod Examples
