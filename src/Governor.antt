-- ===== src/Governor.antt =====
-- local_first_orchestrator/usage_governor.py: authorization of paid calls against a budget.
pub mod Alerts
pub mod Requests
pub mod Authorize
pub mod Settle
pub mod Approve
pub mod Budget
pub mod Settling
pub mod Ended
pub mod Replay
pub mod New
pub mod Runs
mod Examples
