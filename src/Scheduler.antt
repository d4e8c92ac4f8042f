-- ===== src/Scheduler.antt =====
-- local_first_orchestrator/ledger.py: what keeps two schedulers apart.
pub mod Tick
pub mod Exclusive
mod Examples
