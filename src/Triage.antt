-- ===== src/Triage.antt =====
-- local_first_orchestrator/triage.py, and the children of a ticket in ledger.py: a ticket that failed is
-- classified, and an oversized one is split.
pub mod Proposal
pub mod Enqueue
pub mod Children
pub mod Create
pub mod Coordinator
pub mod Kept
pub mod Made
pub mod Split
pub mod Matched
pub mod Repeated
pub mod Resolved
pub mod Checked
mod Examples
