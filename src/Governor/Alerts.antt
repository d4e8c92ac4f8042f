-- ===== src/Governor/Alerts.antt =====
-- ledger.py: the alert that a paid provider is unavailable, queued for the gateway.
use Prim.Native.String.{◌++◌}
use local_first_orchestrator.Base.{
  ℕ, String, Bool, not, ◌&&◌, ◌||◌, Option, none, some, [], ◌∷◌, Tx, value_error, ◌>>=◌, ◌>>◌, pure,
  gets, modify, require, str_eq, ◌==◌, is_blank, is_null, coalesce, update_where, find_where, Host,
  take_chars, decimal,
}
use local_first_orchestrator.Ledger.{
  Ledger, null, num, text, Ticket, PaidReservation, Notification, pending, append_event,
  plain_event,
}

-- The keyword arguments of `_enqueue_paid_provider_incident_alert_in_transaction`.
pub record Alert : Type 0 where
  pub reservation_id : String
  pub ticket_id : String
  pub target : String
  pub provider : String
  pub model : String
  pub purpose : String
  pub error_kind : String
  pub error_detail : String
  pub failure_count : ℕ
  pub retry_after_at : Option ℕ

abbrev retry_text : Option ℕ → String
retry_text none = "manual recovery required"
retry_text (some t) = decimal t

unfoldable pub alert_payload : Host → Alert → String
alert_payload host a = take_chars 12000 (
    "Local First paid provider unavailable\nTicket: "
    ++ a.ticket_id
    ++ "\nProvider/model: "
    ++ a.provider
    ++ "/"
    ++ a.model
    ++ "\nPurpose: "
    ++ a.purpose
    ++ "\nFailure kind: "
    ++ a.error_kind
    ++ "\nConfirmed rejections: "
    ++ decimal a.failure_count
    ++ "\nRetry after: "
    ++ retry_text a.retry_after_at
    ++ "\nDetail: "
    ++ take_chars 2000 (host.redact_error a.error_detail))

abbrev pub alert_key : Alert → String
alert_key a = "paid-provider-incident:" ++ a.reservation_id

abbrev pub alert_row : Host → Alert → ℕ → Notification
alert_row host a now = record {
  operation_id = take_chars 32 (host.digest (alert_key a));
  ticket_id = a.ticket_id;
  failure_fingerprint = host.digest (alert_key a);
  terminal_generation = 0;
  target = a.target;
  idempotency_key = alert_key a;
  payload = alert_payload host a;
  status = pending;
  attempt_count = 0;
  lease_owner = none;
  lease_expires_at = none;
  next_attempt_at = none;
  last_error = none;
  created_at = now;
  updated_at = now;
  delivered_at = none;
  terminal_owner = none;
  superseded_at = none;
}

-- Whether a durable alert is the one to be queued.
unfoldable pub same_alert : Notification → Notification → Bool
same_alert old new =
    str_eq old.ticket_id new.ticket_id
    && str_eq old.target new.target
    && str_eq old.payload new.payload
    && old.terminal_generation == 0

abbrev pub queue_alert : Option Notification → Notification → Tx Ledger (Unit {0})
queue_alert none row = modify (λ db. record db { notifications = row ∷ db.notifications })
queue_alert (some old) row =
    require (same_alert old row)
      (value_error "provider incident alert conflicts with durable notification")

-- `all(... value.strip() for value in ...)`
abbrev pub is_complete : Alert → Bool
is_complete a = not (
    is_blank a.reservation_id
    || is_blank a.ticket_id
    || is_blank a.target
    || is_blank a.provider
    || is_blank a.model
    || is_blank a.purpose
    || is_blank a.error_kind)

-- Both the ticket and the reservation are there.
abbrev pub has_authority : Alert → Ledger → Bool
has_authority a db = not (
    is_null (find_where (λ (t : Ticket). str_eq t.id a.ticket_id) db.tickets)
    || is_null (find_where (λ (r : PaidReservation). str_eq r.id a.reservation_id) db.reservations))

abbrev pub mark_alerted : ℕ → PaidReservation → PaidReservation
mark_alerted now r = record r {
  provider_alerted_at = some (coalesce r.provider_alerted_at now);
  updated_at = now;
}

unfoldable pub enqueue_alert : Host → Alert → ℕ → Tx Ledger (Unit {0})
unfolding alert_payload same_alert
enqueue_alert host a now = do
  require (is_complete a) (
      value_error
        "provider incident alert requires reservation, ticket, target, route, purpose, and error kind")
  let row = alert_row host a now
  authority ← gets (has_authority a)
  require authority (value_error "provider incident alert authority is missing")
  old ← gets (λ db.
      find_where (λ (n : Notification). str_eq n.operation_id row.operation_id) db.notifications)
  queue_alert old row
  modify (λ db. record db {
    reservations =
        update_where (λ (r : PaidReservation). str_eq r.id a.reservation_id) (mark_alerted now)
          db.reservations;
  })
  _ ←
      append_event
        (plain_event "ticket" a.ticket_id "paid_provider_incident_alert_queued" "paid-model-adapter"
          (("reservation_id", text a.reservation_id)
            ∷ ("operation_id", text row.operation_id)
            ∷ ("provider", text a.provider)
            ∷ ("model", text a.model)
            ∷ ("purpose", text a.purpose)
            ∷ ("error_kind", text a.error_kind)
            ∷ ("failure_count", num a.failure_count)
            ∷ ("retry_after_at", elim a.retry_after_at [ none ↦ null | some t ↦ num t ])
            ∷ []))
        now
  pure tt
