-- ===== src/Governor/Settle.antt =====
-- local_first_orchestrator/usage_governor.py: `_finish` and `provider_rejected`, which end a reservation in flight.
use Prim.Native.String.{◌++◌}
use local_first_orchestrator.Base.{
  ℕ, ◌+◌, String, Bool, false, not, ◌&&◌, ◌||◌, Option, none, some, [], ◌∷◌, Tx, Result,
  value_error, ◌>>=◌, ◌>>◌, pure, raise, gets, modify, require, transaction, str_eq, leb, is_null,
  coalesce, if◌then◌else◌, update_where, find_where, Host, zero, take_chars,
}
use local_first_orchestrator.Ledger.{
  Ledger, Value, null, flag, num, text, ReservationStatus, completed, released, unknown_outcome,
  provider_rejected, PaidReservation, ModelCall, append_event,
}
use local_first_orchestrator.Governor.Requests.{
  Reservation, purpose_text, is_in_flight, has_id, set_status, update_reservation, feature_event,
}
use local_first_orchestrator.Governor.Alerts.{Alert, enqueue_alert}

-- The status that `_finish` is called with.
pub data Finish : Type 0 where
  complete release unknown : Finish

abbrev pub finish_status : Finish → ReservationStatus
finish_status complete = completed
finish_status release = released
finish_status unknown = unknown_outcome

abbrev pub finish_event : Finish → String
finish_event complete = "paid_completed"
finish_event release = "paid_released"
finish_event unknown = "paid_unknown_outcome"

abbrev pub opt_text : Option String → Value
opt_text none = null
opt_text (some s) = text s

unfoldable pub finish_body : Finish → Reservation → Option String → ℕ → Tx Ledger (Unit {0})
finish_body f reservation reason now = do
  row ← gets (λ db. find_where (has_id reservation.reservation_id) db.reservations)
  elim row [
    | none ↦ raise (value_error "reservation is not in flight")
    | some r ↦ do
      require (is_in_flight r.status) (value_error "reservation is not in flight")
      modify (
          update_reservation (has_id reservation.reservation_id)
            (set_status (finish_status f) reason now))
      feature_event reservation.feature_id (finish_event f) "governor"
          (("reservation_id", text reservation.reservation_id)
            ∷ ("purpose", text (purpose_text reservation.purpose))
            ∷ ("reason", opt_text reason)
            ∷ [])
          now
  ]

-- `complete`, `release` and `unknown`, by way of `_finish`
unfoldable pub finish :
    Finish → Reservation → Option String → ℕ → Ledger → Result (Unit {0}) × Ledger
unfolding transaction finish_body append_event
finish f reservation reason now = transaction (finish_body f reservation reason now)

abbrev pub call_of : String → String → ModelCall → Bool
call_of id reservation_id c = str_eq c.id id && str_eq c.reservation_id reservation_id

-- The keyword arguments of `provider_rejected`.
pub record Rejection : Type 0 where
  pub model_call_id : String
  pub kind : String
  pub detail : String
  pub retryable : Bool
  pub retry_after_at : Option ℕ
  pub alert_ticket_id : Option String
  pub alert_target : Option String
  pub alert_provider : Option String
  pub alert_model : Option String
  pub alert_failure_threshold : ℕ

abbrev pub filled : Option String → Bool
filled none = false
filled (some s) = not (str_eq s "")

abbrev pub wants_alert : Rejection → PaidReservation → ℕ → Bool
wants_alert x row failure_count =
    filled x.alert_ticket_id
    && filled x.alert_target
    && filled x.alert_provider
    && filled x.alert_model
    && is_null row.provider_alerted_at
    && (not x.retryable || leb x.alert_failure_threshold failure_count)

abbrev pub alert_of : Rejection → Reservation → ℕ → Alert
alert_of x reservation failure_count = record {
  reservation_id = reservation.reservation_id;
  ticket_id = coalesce x.alert_ticket_id "";
  target = coalesce x.alert_target "";
  provider = coalesce x.alert_provider "";
  model = coalesce x.alert_model "";
  purpose = purpose_text reservation.purpose;
  error_kind = x.kind;
  error_detail = x.detail;
  failure_count = failure_count;
  retry_after_at = x.retry_after_at;
}

abbrev pub opt_num : Option ℕ → Value
opt_num none = null
opt_num (some n) = num n

abbrev pub rejected_reservation : Rejection → String → ℕ → ℕ → ℕ → PaidReservation → PaidReservation
rejected_reservation x safe_detail failure_count first_failure_at now r = record r {
  status = provider_rejected;
  reason = some ("provider_rejected:" ++ x.kind);
  provider_failure_count = failure_count;
  provider_first_failure_at = some first_failure_at;
  provider_last_failure_at = some now;
  provider_retry_after_at = x.retry_after_at;
  provider_error_kind = some x.kind;
  provider_error_detail = some safe_detail;
  provider_retryable = some x.retryable;
  updated_at = now;
}

-- `int(column or now)`: a NULL column and a zero both fall back.
abbrev pub or_now : Option ℕ → ℕ → ℕ
or_now none now = now
or_now (some zero) now = now
or_now (some t) now = t

-- What `provider_rejected` writes once its checks have passed; its result is the failure count.
unfoldable pub record_rejection : Host → PaidReservation → Reservation → Rejection → ℕ → Tx Ledger ℕ
record_rejection host row reservation x now = do
  let safe_detail = take_chars 2000 (host.redact_error x.detail)
  let failure_count = row.provider_failure_count + 1
  modify (
      update_reservation (has_id reservation.reservation_id) (
        rejected_reservation x safe_detail failure_count (or_now row.provider_first_failure_at now)
          now))
  modify (λ db. record db {
    model_calls =
        update_where (λ (c : ModelCall). str_eq c.id x.model_call_id)
          (λ (c : ModelCall). record c {
            status = provider_rejected;
            last_provider_error_kind = some x.kind;
            last_provider_error_detail = some safe_detail;
            last_provider_rejected_at = some now;
            updated_at = now;
          })
          db.model_calls;
  })
  feature_event reservation.feature_id "paid_provider_rejected" "governor"
      (("reservation_id", text reservation.reservation_id)
        ∷ ("purpose", text (purpose_text reservation.purpose))
        ∷ ("kind", text x.kind)
        ∷ ("detail", text (take_chars 1000 safe_detail))
        ∷ ("retryable", flag x.retryable)
        ∷ ("retry_after_at", opt_num x.retry_after_at)
        ∷ ("failure_count", num failure_count)
        ∷ [])
      now
  if wants_alert x row failure_count
      then enqueue_alert host (alert_of x reservation failure_count) now
      else pure tt
  pure failure_count

unfoldable pub reject_body : Host → Reservation → Rejection → ℕ → Tx Ledger ℕ
unfolding record_rejection
reject_body host reservation x now = do
  row ← gets (λ db. find_where (has_id reservation.reservation_id) db.reservations)
  elim row [
    | none ↦ raise (value_error "reservation is not in flight")
    | some r ↦ do
      require (is_in_flight r.status) (value_error "reservation is not in flight")
      call ←
          gets
            (λ db. find_where (call_of x.model_call_id reservation.reservation_id) db.model_calls)
      elim call [
        | none ↦ raise (value_error "model call is not in flight")
        | some c ↦ do
          require (is_in_flight c.status) (value_error "model call is not in flight")
          record_rejection host r reservation x now
      ]
  ]

-- `UsageGovernor.provider_rejected`
unfoldable pub reject : Host → Reservation → Rejection → ℕ → Ledger → Result ℕ × Ledger
unfolding transaction reject_body append_event enqueue_alert
reject host reservation x now = transaction (reject_body host reservation x now)
