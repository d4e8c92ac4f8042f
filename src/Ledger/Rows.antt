-- ===== src/Ledger/Rows.antt =====
-- The rows of the tables that `ledger.py` creates (SCHEMA and `migrate`). A column that may be NULL
-- is an `Option`; a text column that holds a member of an enumeration has the enumeration's type.
use local_first_orchestrator.Base.{ℕ, String, Bool, Option, none, List, Fields}
use local_first_orchestrator.Contract.Serial.{BudgetContract, VerificationContract}
use local_first_orchestrator.States.{CanonicalState}

-- What `json.dumps` writes into `payload_json`: the fields of one object, whose values are plain or lists
-- of texts.
pub data Value : Type 0 where
  null : Value
  flag : Bool → Value
  num : ℕ → Value
  text : String → Value
  texts : List String → Value

abbrev pub Payload : Type 0
Payload = List (String × Value)

pub record Event : Type 0 where
  pub id : ℕ
  pub entity_type : String
  pub entity_id : String
  pub event_type : String
  pub from_state : Option CanonicalState
  pub to_state : Option CanonicalState
  pub actor_id : String
  pub payload : Payload
  pub created_at : ℕ

-- The arguments of `_append_event`.
pub record NewEvent : Type 0 where
  pub entity_type : String
  pub entity_id : String
  pub event_type : String
  pub from_state : Option CanonicalState
  pub to_state : Option CanonicalState
  pub actor_id : String
  pub payload : Payload

pub record Controller : Type 0 where
  pub paused : Bool
  pub updated_at : ℕ

pub record TickLease : Type 0 where
  pub lease_owner : String
  pub lease_token : String
  pub lease_expires_at : ℕ
  pub updated_at : ℕ

-- A column that holds a JSON text is given by the value that it decodes to.
pub record Ticket : Type 0 where
  pub id : String
  pub external_id : Option String
  pub parent_ticket_id : Option String
  pub tranche_id : Option String
  pub feature_id : Option String
  pub depth : ℕ
  pub title : String
  pub objective : Option String
  pub criterion_ids : List String
  pub primary_symbol : Option String
  pub allowed_files : List String
  pub create_files : List String
  pub new_test_files : List String
  pub forbidden_changes : List String
  pub patch_budget : BudgetContract
  pub verification : VerificationContract
  pub risk : Option String
  pub review_required : Bool
  pub max_attempts : ℕ
  pub dependencies : List String
  pub state : CanonicalState
  pub lease_owner : Option String
  pub lease_expires_at : Option ℕ
  pub created_at : ℕ
  pub updated_at : ℕ

pub record Attempt : Type 0 where
  pub ticket_id : String
  pub attempt_number : ℕ
  pub created_at : ℕ

pub record StageRun : Type 0 where
  pub ticket_id : String
  pub attempt_number : ℕ
  pub stage : String
  pub idempotency_key : String
  pub created_at : ℕ

-- `detail` is a text that the code reads as JSON: `none` where it is not a valid object.
pub record RuntimeStage : Type 0 where
  pub ticket_id : String
  pub stage : String
  pub detail : Option Payload
  pub attempt_number : Option ℕ
  pub created_at : ℕ

-- hermes_execution_reconciliations, the columns that are read here
pub record HermesReconciliation : Type 0 where
  pub ticket_id : String
  pub external_task_id : String
  pub run_status : String
  pub run_outcome : Option String

-- board_projection_outbox
pub record Projection : Type 0 where
  pub ticket_id : String
  pub event_id : ℕ
  pub operation : String
  pub state : CanonicalState
  pub payload : Payload
  pub idempotency_key : String
  pub external_task_id : Option String
  pub queued_at : ℕ
  pub attempt_count : ℕ
  pub lease_owner : Option String
  pub lease_expires_at : Option ℕ
  pub next_attempt_at : Option ℕ
  pub last_error : Option String
  pub terminal_error : Option String
  pub acknowledged_at : Option ℕ
  pub superseded_at : Option ℕ
  pub superseded_by_event_id : Option ℕ
  pub supersession_reason : Option String

pub data DeliveryState : Type 0 where
  pending delivering retryable delivered permanently_failed delivery_unknown : DeliveryState

-- evidence_comment_outbox
pub record Comment : Type 0 where
  pub operation_id : String
  pub ticket_id : String
  pub event_id : ℕ
  pub external_task_id : String
  pub idempotency_key : String
  pub payload : String
  pub status : DeliveryState
  pub attempt_count : ℕ
  pub lease_owner : Option String
  pub lease_expires_at : Option ℕ
  pub next_attempt_at : Option ℕ
  pub last_error : Option String
  pub created_at : ℕ
  pub updated_at : ℕ
  pub delivered_at : Option ℕ
  pub terminal_owner : Option String

-- gateway_notification_outbox
pub record Notification : Type 0 where
  pub operation_id : String
  pub ticket_id : String
  pub failure_fingerprint : String
  pub terminal_generation : ℕ
  pub target : String
  pub idempotency_key : String
  pub payload : String
  pub status : DeliveryState
  pub attempt_count : ℕ
  pub lease_owner : Option String
  pub lease_expires_at : Option ℕ
  pub next_attempt_at : Option ℕ
  pub last_error : Option String
  pub created_at : ℕ
  pub updated_at : ℕ
  pub delivered_at : Option ℕ
  pub terminal_owner : Option String
  pub superseded_at : Option ℕ

pub data PaidPurpose : Type 0 where
  architecture integration_checkpoint escalation : PaidPurpose

pub record Budget : Type 0 where
  pub feature_id : String
  pub architecture_limit : ℕ
  pub checkpoint_limit : ℕ
  pub escalation_limit : ℕ
  pub created_at : ℕ
  pub updated_at : ℕ

pub data ReservationStatus : Type 0 where
  in_flight completed released unknown_outcome provider_rejected : ReservationStatus

pub record PaidReservation : Type 0 where
  pub id : String
  pub feature_id : String
  pub purpose : PaidPurpose
  pub request_key : String
  pub status : ReservationStatus
  pub reason : Option String
  pub provider_failure_count : ℕ
  pub provider_first_failure_at : Option ℕ
  pub provider_last_failure_at : Option ℕ
  pub provider_retry_after_at : Option ℕ
  pub provider_error_kind : Option String
  pub provider_error_detail : Option String
  pub provider_retryable : Option Bool
  pub provider_alerted_at : Option ℕ
  pub created_at : ℕ
  pub updated_at : ℕ

pub record PaidApproval : Type 0 where
  pub id : String
  pub feature_id : String
  pub purpose : PaidPurpose
  pub calls : ℕ
  pub actor_id : String
  pub reason : String
  pub idempotency_key : String
  pub created_at : ℕ

pub record ModelCall : Type 0 where
  pub id : String
  pub feature_id : String
  pub purpose : PaidPurpose
  pub reservation_id : String
  pub status : ReservationStatus
  pub request_artifact : String
  pub response_artifact : Option String
  pub provider_attempt_count : ℕ
  pub last_provider_error_kind : Option String
  pub last_provider_error_detail : Option String
  pub last_provider_rejected_at : Option ℕ
  pub created_at : ℕ
  pub updated_at : ℕ

-- review_results
pub record Review : Type 0 where
  pub ticket_id : String
  pub attempt_number : ℕ
  pub verdict : String
  pub payload : Fields
  pub created_at : ℕ

-- review_findings
pub record Finding : Type 0 where
  pub ticket_id : String
  pub attempt_number : ℕ
  pub fingerprint : String
  pub payload : Payload
  pub created_at : ℕ

pub record CriterionStatus : Type 0 where
  pub ticket_id : String
  pub criterion_id : String
  pub status : String
  pub evidence : String
  pub updated_at : ℕ

-- What `append_event` writes for an entity that is no ticket.
abbrev pub plain_event : String → String → String → String → Payload → NewEvent
plain_event entity_type entity_id event_type actor_id payload = record {
  entity_type = entity_type;
  entity_id = entity_id;
  event_type = event_type;
  from_state = none;
  to_state = none;
  actor_id = actor_id;
  payload = payload;
}
