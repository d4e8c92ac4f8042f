-- ===== src/Governor/Requests.antt =====
-- local_first_orchestrator/usage_governor.py: the rows of a request and what it has used of its budget.
use local_first_orchestrator.Base.{
  ℕ, ◌+◌, String, Bool, true, false, ◌&&◌, Option, List, Tx, ◌>>=◌, pure, str_eq, leb, update_where,
  count_where, find_where, sum_where,
}
use local_first_orchestrator.Ledger.{
  Ledger, Value, Budget, PaidPurpose, architecture, integration_checkpoint, escalation,
  ReservationStatus, in_flight, completed, unknown_outcome, provider_rejected, PaidReservation,
  PaidApproval, append_event, plain_event,
}

-- `Reservation`, as `authorize` returns it
pub record Reservation : Type 0 where
  pub reservation_id : String
  pub feature_id : String
  pub purpose : PaidPurpose
  pub request_key : String

pub record Approval : Type 0 where
  pub approval_id : String
  pub feature_id : String
  pub purpose : PaidPurpose
  pub calls : ℕ

-- `PaidPurpose.value`
abbrev pub purpose_text : PaidPurpose → String
purpose_text architecture = "architecture"
purpose_text integration_checkpoint = "integration_checkpoint"
purpose_text escalation = "escalation"

abbrev pub purpose_eq : PaidPurpose → PaidPurpose → Bool
purpose_eq architecture architecture = true
purpose_eq integration_checkpoint integration_checkpoint = true
purpose_eq escalation escalation = true
purpose_eq _ _ = false

-- `_column`, applied to a budget row
abbrev pub limit_for : PaidPurpose → Budget → ℕ
limit_for architecture b = b.architecture_limit
limit_for integration_checkpoint b = b.checkpoint_limit
limit_for escalation b = b.escalation_limit

abbrev pub holds_budget : ReservationStatus → Bool
holds_budget in_flight = true
holds_budget completed = true
holds_budget unknown_outcome = true
holds_budget _ = false

abbrev pub is_in_flight : ReservationStatus → Bool
is_in_flight in_flight = true
is_in_flight _ = false

abbrev pub is_provider_rejected : ReservationStatus → Bool
is_provider_rejected provider_rejected = true
is_provider_rejected _ = false

abbrev pub for_purpose : String → PaidPurpose → PaidReservation → Bool
for_purpose feature purpose r = str_eq r.feature_id feature && purpose_eq r.purpose purpose

abbrev pub is_request : String → PaidPurpose → String → PaidReservation → Bool
is_request feature purpose key r = for_purpose feature purpose r && str_eq r.request_key key

abbrev pub has_id : String → PaidReservation → Bool
has_id id r = str_eq r.id id

abbrev pub spends : String → PaidPurpose → PaidReservation → Bool
spends feature purpose r = for_purpose feature purpose r && holds_budget r.status

-- SELECT COUNT(*) ... status IN ('in_flight', 'completed', 'unknown_outcome')
unfoldable pub used : String → PaidPurpose → Ledger → ℕ
used feature purpose db = count_where (spends feature purpose) db.reservations

abbrev pub approves : String → PaidPurpose → PaidApproval → Bool
approves feature purpose a = str_eq a.feature_id feature && purpose_eq a.purpose purpose

-- SELECT COALESCE(SUM(calls), 0) FROM paid_approvals
unfoldable pub approved_calls : String → PaidPurpose → Ledger → ℕ
approved_calls feature purpose db = sum_where (approves feature purpose) (λ a. a.calls) db.approvals

abbrev pub budget_of : String → Ledger → Option Budget
budget_of feature db = find_where (λ b. str_eq b.feature_id feature) db.budgets

-- `used >= limit + approvals`
abbrev pub is_exhausted : String → PaidPurpose → Budget → Ledger → Bool
is_exhausted feature purpose b db =
    leb (limit_for purpose b + approved_calls feature purpose db) (used feature purpose db)

abbrev pub set_status : ReservationStatus → Option String → ℕ → PaidReservation → PaidReservation
set_status status reason now r = record r { status = status; reason = reason; updated_at = now }

abbrev pub update_reservation :
    (PaidReservation → Bool) → (PaidReservation → PaidReservation) → Ledger → Ledger
update_reservation q g db = record db { reservations = update_where q g db.reservations }

abbrev pub feature_event :
    String → String → String → List (String × Value) → ℕ → Tx Ledger (Unit {0})
feature_event feature event_type actor payload now =
    append_event (plain_event "feature" feature event_type actor payload) now >>= λ _. pure tt
