-- ===== src/Stages.antt =====
-- local_first_orchestrator/ledger.py: the claims on the stages of a ticket, which let a scheduler's effects
-- happen once.
pub mod Claims
pub mod Readiness
pub mod Effect
pub mod Reconciliation
pub mod Decide
pub mod Release
pub mod Retire
pub mod Phases
pub mod Refined
pub mod Moves
pub mod Leases
pub mod Retired
pub mod Refinement
pub mod Safety
pub mod Policies
mod Examples
