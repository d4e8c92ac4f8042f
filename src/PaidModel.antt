-- ===== src/PaidModel.antt =====
-- local_first_orchestrator/paid_model.py: a paid model call, which is authorized, made and recorded.
pub mod Invoke
pub mod Guard
pub mod Lost
mod Examples
