-- ===== src/Governor/Authorize.antt =====
-- local_first_orchestrator/usage_governor.py: `configure` and `authorize`.
use local_first_orchestrator.Base.{
  ℕ, String, false, not, ◌&&◌, none, some, List, [], ◌∷◌, Tx, Result, value_error, permission_error,
  integrity_error, ◌>>=◌, ◌>>◌, pure, raise, gets, modify, require, transaction, str_eq, is_blank,
  is_null, coalesce, if◌then◌else◌, update_where, find_where, due, ℤ, pos,
}
use local_first_orchestrator.Ledger.{
  Ledger, num, text, Budget, PaidPurpose, ReservationStatus, in_flight, completed, released,
  unknown_outcome, provider_rejected, PaidReservation, append_event,
}
use local_first_orchestrator.Governor.Requests.{
  Reservation, purpose_text, is_provider_rejected, is_request, has_id, used, approved_calls,
  budget_of, is_exhausted, set_status, update_reservation, feature_event,
}

-- The four numbers are SQL's INTEGER; a negative limit is refused before anything is written.
abbrev pub upsert_budget : Budget → List Budget → List Budget
upsert_budget b bs = elim (find_where (λ (c : Budget). str_eq c.feature_id b.feature_id) bs) [
  | none ↦ b ∷ bs
  | some _ ↦
      update_where (λ (c : Budget). str_eq c.feature_id b.feature_id)
        (λ (c : Budget). record c {
          architecture_limit = b.architecture_limit;
          checkpoint_limit = b.checkpoint_limit;
          escalation_limit = b.escalation_limit;
          updated_at = b.updated_at;
        })
        bs
]

unfoldable pub configure_body : String → ℤ → ℤ → ℤ → ℕ → Tx Ledger (Unit {0})
configure_body feature (pos a) (pos c) (pos e) now = do
  modify (λ db. record db {
    budgets =
        upsert_budget
          (record {
            feature_id = feature;
            architecture_limit = a;
            checkpoint_limit = c;
            escalation_limit = e;
            created_at = now;
            updated_at = now;
          })
          db.budgets;
  })
  feature_event feature "paid_budget_configured" "controller"
      (("architecture", num a) ∷ ("checkpoint", num c) ∷ ("escalation", num e) ∷ []) now
configure_body feature _ _ _ now = raise (value_error "budget limits must be non-negative")

unfoldable pub configure : String → ℤ → ℤ → ℤ → ℕ → Ledger → Result (Unit {0}) × Ledger
unfolding transaction configure_body append_event
configure feature a c e now = transaction (configure_body feature a c e now)

abbrev pub reservation_of : String → String → PaidPurpose → String → Reservation
reservation_of id feature purpose key = record {
  reservation_id = id;
  feature_id = feature;
  purpose = purpose;
  request_key = key;
}

-- The branch for a request that the provider rejected before.
unfoldable pub retry_rejected :
    PaidReservation → String → PaidPurpose → String → ℕ → Tx Ledger Reservation
retry_rejected existing feature purpose key now = do
  require (coalesce existing.provider_retryable false)
      (permission_error "paid provider rejected request")
  require (due existing.provider_retry_after_at now)
      (permission_error "paid provider retry not due")
  budget ← gets (budget_of feature)
  elim budget [
    | none ↦ raise (permission_error "no paid budget configured")
    | some b ↦ do
      exhausted ← gets (is_exhausted feature purpose b)
      spent ← gets (used feature purpose)
      if exhausted
          then (do
            feature_event feature "paid_provider_retry_budget_blocked" "governor"
                (("reservation_id", text existing.id)
                  ∷ ("purpose", text (purpose_text purpose))
                  ∷ ("request_key", text key)
                  ∷ ("used", num spent)
                  ∷ [])
                now
            raise (permission_error "paid budget exhausted while provider retry was waiting"))
          else (do
            modify (
                update_reservation (λ r. has_id existing.id r && is_provider_rejected r.status)
                  (set_status in_flight none now))
            feature_event feature "paid_provider_retry_started" "governor"
                (("reservation_id", text existing.id)
                  ∷ ("purpose", text (purpose_text purpose))
                  ∷ ("request_key", text key)
                  ∷ ("failure_count", num existing.provider_failure_count)
                  ∷ [])
                now
            pure (reservation_of existing.id feature purpose key))
  ]

-- The branch for a request that has a reservation.
unfoldable pub authorize_existing :
    ReservationStatus → PaidReservation → String → PaidPurpose → String → ℕ → Tx Ledger Reservation
unfolding retry_rejected
authorize_existing unknown_outcome existing feature purpose key now =
    raise (permission_error "paid invocation has unknown outcome and must not be repeated")
authorize_existing in_flight existing feature purpose key now =
    pure (reservation_of existing.id feature purpose key)
authorize_existing completed existing feature purpose key now =
    pure (reservation_of existing.id feature purpose key)
authorize_existing provider_rejected existing feature purpose key now =
    retry_rejected existing feature purpose key now
authorize_existing released existing feature purpose key now =
    raise (permission_error "reservation was released; use an explicit new request key")

abbrev pub new_reservation : String → String → PaidPurpose → String → ℕ → PaidReservation
new_reservation id feature purpose key now = record {
  id = id;
  feature_id = feature;
  purpose = purpose;
  request_key = key;
  status = in_flight;
  reason = none;
  provider_failure_count = 0;
  provider_first_failure_at = none;
  provider_last_failure_at = none;
  provider_retry_after_at = none;
  provider_error_kind = none;
  provider_error_detail = none;
  provider_retryable = none;
  provider_alerted_at = none;
  created_at = now;
  updated_at = now;
}

-- INSERT under PRIMARY KEY(id); UNIQUE(feature_id, purpose, request_key) holds where it is called.
abbrev pub insert_reservation : PaidReservation → Tx Ledger (Unit {0})
insert_reservation row = do
  taken ← gets (λ db. find_where (has_id row.id) db.reservations)
  require (is_null taken) integrity_error
  modify (λ db. record db { reservations = row ∷ db.reservations })

-- The branch for a request that has none; `fresh` is `uuid.uuid4().hex`.
unfoldable pub authorize_new : String → PaidPurpose → String → String → ℕ → Tx Ledger Reservation
authorize_new feature purpose key fresh now = do
  budget ← gets (budget_of feature)
  elim budget [
    | none ↦ raise (permission_error "no paid budget configured")
    | some b ↦ do
      exhausted ← gets (is_exhausted feature purpose b)
      if exhausted
          then (do
            feature_event feature "paid_budget_exhausted" "governor"
                (("purpose", text (purpose_text purpose)) ∷ ("request_key", text key) ∷ []) now
            raise (permission_error "paid budget exhausted; needs_checkpoint"))
          else (do
            insert_reservation (new_reservation fresh feature purpose key now)
            feature_event feature "paid_reserved" "governor"
                (("reservation_id", text fresh)
                  ∷ ("purpose", text (purpose_text purpose))
                  ∷ ("request_key", text key)
                  ∷ [])
                now
            pure (reservation_of fresh feature purpose key))
  ]

unfoldable pub authorize_body : String → PaidPurpose → String → String → ℕ → Tx Ledger Reservation
unfolding authorize_existing authorize_new
authorize_body feature purpose key fresh now = do
  require (not (is_blank key)) (value_error "request key is required")
  existing ← gets (λ db. find_where (is_request feature purpose key) db.reservations)
  elim existing [
    | some r ↦ authorize_existing r.status r feature purpose key now
    | none ↦ authorize_new feature purpose key fresh now
  ]

unfoldable pub authorize :
    String → PaidPurpose → String → String → ℕ → Ledger → Result Reservation × Ledger
unfolding transaction authorize_body used approved_calls append_event
authorize feature purpose key fresh now = transaction (authorize_body feature purpose key fresh now)
