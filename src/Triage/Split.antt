-- ===== src/Triage/Split.antt =====
-- local_first_orchestrator/ledger.py: what `create_triaged_children` leaves in the ledger.
use local_first_orchestrator.Base.{
  ℕ, ◌<◌, ◌≤◌, String, ◌≡◌, true, some, List, count, find_where, Every, Host,
}
use local_first_orchestrator.States.{state_eq, needs_triage}
use local_first_orchestrator.Ledger.{Ledger, Ticket}
use local_first_orchestrator.Tickets.Lifecycle.{has_id}
use local_first_orchestrator.Triage.Children.{NewChild, is_fingerprinted, all_where, unresolved}
use local_first_orchestrator.Triage.Create.{child_ids}
use local_first_orchestrator.Triage.Kept.{Keeps}
use local_first_orchestrator.Triage.Made.{IsMade}

-- A ticket that is split: it waits for triage and is not too deep, its children are three at most, each has the
-- fingerprint of its own contract, and each is made.
pub record IsSplit (host : Host) (parent : String) (children : List NewChild) (now : ℕ)
    (old new : Ledger) : Type 0 where
  pub row : Ticket
  pub found : find_where (has_id parent) old.tickets ≡ some row
  pub waits : state_eq row.state needs_triage ≡ true
  pub depth : row.depth < 2
  pub few : count children ≤ 3
  pub fingerprinted : all_where (is_fingerprinted host) children ≡ true
  pub made : Every (IsMade row (unresolved row old) now new) children
  pub others : Keeps old new

abbrev pub Split : Host → String → List NewChild → ℕ → Ledger → List String → Ledger → Type 0
Split host parent children now db ids s =
    (ids ≡ child_ids children) × IsSplit host parent children now db s
