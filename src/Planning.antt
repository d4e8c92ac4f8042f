-- ===== src/Planning.antt =====
-- local_first_orchestrator/decomposition.py: the check of a plan before its tickets are created.
pub mod Graph
pub mod Acyclic
pub mod Search
pub mod Nodes
pub mod Cycles
pub mod Plan
pub mod Validate
pub mod Reasons
pub mod Valid
pub mod Passed
mod Examples
