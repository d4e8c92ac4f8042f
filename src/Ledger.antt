-- ===== src/Ledger.antt =====
-- local_first_orchestrator/ledger.py: the durable state, a record with a field for each SQLite table
-- that the modelled operations touch, and the event log.
mod Rows
mod StageRows
pub mod Identity
pub mod Order
pub mod Calls
pub use Rows.*
pub use StageRows.*
use local_first_orchestrator.Base.{ℕ, ◌+◌, String, false, Option, none, some, List, [], ◌∷◌, Tx, ok}

pub record Ledger : Type 0 where
  pub controller : Option Controller
  pub tick_lease : Option TickLease
  pub tickets : List Ticket
  pub attempts : List Attempt
  pub stage_runs : List StageRun
  pub runtime_stages : List RuntimeStage
  pub stage_claims : List StageClaim
  pub reconciliations : List HermesReconciliation
  pub events : List Event  -- the newest first
  pub projections : List Projection
  pub comments : List Comment
  pub notifications : List Notification
  pub budgets : List Budget
  pub reservations : List PaidReservation
  pub approvals : List PaidApproval
  pub model_calls : List ModelCall
  pub reviews : List Review
  pub findings : List Finding
  pub criterion_statuses : List CriterionStatus
  pub bindings : List RuntimeBinding
  pub accepted : List AcceptedEvidence
  pub invocations : List ModelInvocation
  pub retry_authorizations : List RetryAuthorization
  pub git_intents : List GitIntent
  pub git_commits : List GitCommit
  pub stage_evidence : List StageEvidence
  pub retired_attempts : List RetiredAttempt
  pub triage_children : List TriageChild
  pub ticket_criteria : List TicketCriterion

-- A migrated database: the controller row is there, and not paused.
abbrev pub empty_ledger : Ledger
empty_ledger = record {
  controller = some (record { paused = false; updated_at = 0 });
  tick_lease = none;
  tickets = [];
  attempts = [];
  stage_runs = [];
  runtime_stages = [];
  stage_claims = [];
  reconciliations = [];
  events = [];
  projections = [];
  comments = [];
  notifications = [];
  budgets = [];
  reservations = [];
  approvals = [];
  model_calls = [];
  reviews = [];
  findings = [];
  criterion_statuses = [];
  bindings = [];
  accepted = [];
  invocations = [];
  retry_authorizations = [];
  git_intents = [];
  git_commits = [];
  stage_evidence = [];
  retired_attempts = [];
  triage_children = [];
  ticket_criteria = [];
}

-- The AUTOINCREMENT key of the newest event. No event is ever deleted.
abbrev pub last_event_id : List Event → ℕ
last_event_id [] = 0
last_event_id (e ∷ es) = e.id

-- The row that an event is written as.
abbrev pub event_of : NewEvent → ℕ → ℕ → Event
event_of n id now = record {
  id = id;
  entity_type = n.entity_type;
  entity_id = n.entity_id;
  event_type = n.event_type;
  from_state = n.from_state;
  to_state = n.to_state;
  actor_id = n.actor_id;
  payload = n.payload;
  created_at = now;
}

-- `_append_event`, with `lastrowid` as its result
unfoldable pub append_event : NewEvent → ℕ → Tx Ledger ℕ
append_event n now db =
    let id = last_event_id db.events + 1 in
    ok (id, record db { events = event_of n id now ∷ db.events })
