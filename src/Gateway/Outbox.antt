-- ===== src/Gateway/Outbox.antt =====
-- local_first_orchestrator/ledger.py: the outbox of gateway notifications.
use Prim.Native.String.{◌++◌}
use local_first_orchestrator.Base.{
  ℕ, ◌+◌, String, Bool, true, false, ◌&&◌, ◌||◌, not, Option, none, some, List, [], ◌∷◌, Result, ok,
  err, Tx, ◌>>=◌, ◌>>◌, pure, raise, gets, modify, transaction, require, key_error,
  permission_error, value_error, ◌==◌, str_eq, str_lt, ltb, leb, opt_eq, due, at_most, after,
  coalesce, is_blank, if◌then◌else◌, find_where, count_where, select_where, update_where, first_by,
  map, Host, take_chars,
}
use local_first_orchestrator.Ledger.{
  Ledger, Notification, DeliveryState, pending, delivering, retryable, delivered,
  permanently_failed, delivery_unknown, append_event, plain_event, Controller, text,
}
use local_first_orchestrator.Comments.Outbox.{is_delivering, is_waiting, safe_comment_error}

abbrev pub has_operation : String → Notification → Bool
has_operation id n = str_eq n.operation_id id

abbrev pub is_due : ℕ → Notification → Bool
is_due now n = is_waiting n.status && due n.next_attempt_at now

-- status='delivering' AND lease_owner=? of the operation
abbrev pub is_sending : String → String → Notification → Bool
is_sending id owner n = has_operation id n && is_delivering n.status && opt_eq n.lease_owner owner

-- The same under a lease that runs
abbrev pub is_owned : String → String → ℕ → Notification → Bool
is_owned id owner now n = is_sending id owner n && after n.lease_expires_at now

-- The rows that an UPDATE meets, and the table after it.
abbrev pub update : (Notification → Bool) → (Notification → Notification) → Ledger → Bool × Ledger
update q g db = (
  count_where q db.notifications == 1,
  record db { notifications = update_where q g db.notifications },
)

abbrev pub claim : String → ℕ → ℕ → Notification → Notification
claim owner lease_seconds now n = record n {
  status = delivering;
  lease_owner = some owner;
  lease_expires_at = some (now + lease_seconds);
  attempt_count = n.attempt_count + 1;
  updated_at = now;
}

-- ORDER BY created_at, operation_id
abbrev pub older : Notification → Notification → Bool
older a b =
    ltb a.created_at b.created_at
    || a.created_at == b.created_at && str_lt a.operation_id b.operation_id

-- The row that is read back after the claim.
abbrev pub is_latest_claim : String → ℕ → Notification → Bool
is_latest_claim owner now n =
    opt_eq n.lease_owner owner && is_delivering n.status && n.updated_at == now

abbrev pub lower_id : Notification → Notification → Bool
lower_id a b = str_lt a.operation_id b.operation_id

abbrev pub is_named : String → Notification → Bool
is_named id n = has_operation id n && is_waiting n.status

unfoldable pub claim_oldest : String → ℕ → ℕ → Ledger → Option Notification × Ledger
claim_oldest owner lease_seconds now db = elim (first_by older (is_due now) db.notifications) [
  | none ↦ (none, db)
  | some next ↦
      let db' = (update (is_named next.operation_id) (claim owner lease_seconds now) db).1 in
      (first_by lower_id (is_latest_claim owner now) db'.notifications, db')
]

-- `lease_seconds` is not negative here.
unfoldable pub claim_next_gateway_notification :
    String → ℕ → ℕ → Ledger → Result (Option Notification) × Ledger
unfolding claim_oldest
claim_next_gateway_notification owner lease_seconds now db =
    if str_eq owner "" || leb lease_seconds 0
    then (err (value_error "gateway notification claim requires owner and positive lease"), db)
    else (
      ok (claim_oldest owner lease_seconds now db).0,
      (claim_oldest owner lease_seconds now db).1,
    )

abbrev pub deliver : String → ℕ → Notification → Notification
deliver owner now n = record n {
  status = delivered;
  delivered_at = some now;
  updated_at = now;
  lease_owner = none;
  lease_expires_at = none;
  next_attempt_at = none;
  last_error = none;
  terminal_owner = some owner;
}

unfoldable pub mark_delivered : String → String → ℕ → Ledger → Bool × Ledger
mark_delivered id owner now db = elim (find_where (has_operation id) db.notifications) [
  | none ↦ (false, db)
  | some n ↦
      let updated = update (is_owned id owner now) (deliver owner now) db in
      elim n.status [ delivered ↦ (opt_eq n.terminal_owner owner, db) | _ ↦ updated ]
]

abbrev pub retry : String → Option ℕ → ℕ → Notification → Notification
retry error next_attempt_at now n = record n {
  status = retryable;
  last_error = some error;
  lease_owner = none;
  lease_expires_at = none;
  next_attempt_at = some (coalesce next_attempt_at now);
  updated_at = now;
}

unfoldable pub mark_retryable :
    Host → String → String → String → Option ℕ → ℕ → Ledger → Bool × Ledger
unfolding safe_comment_error
mark_retryable host id owner error next_attempt_at now =
    update (is_owned id owner now) (retry (safe_comment_error host error 500) next_attempt_at now)

abbrev pub finish : DeliveryState → String → Option String → ℕ → Notification → Notification
finish status error owner now n = record n {
  status = status;
  last_error = some error;
  lease_owner = none;
  lease_expires_at = none;
  next_attempt_at = none;
  updated_at = now;
  terminal_owner = elim owner [ none ↦ n.terminal_owner | some o ↦ some o ];
}

-- A lease that has ended does not keep a delivery from being marked as ambiguous.
unfoldable pub mark_delivery_unknown : Host → String → String → String → ℕ → Ledger → Bool × Ledger
unfolding safe_comment_error
mark_delivery_unknown host id owner error now =
    update (is_sending id owner)
      (finish delivery_unknown (safe_comment_error host error 500) (some owner) now)

unfoldable pub mark_permanently_failed :
    Host → String → String → String → ℕ → Ledger → Bool × Ledger
unfolding safe_comment_error
mark_permanently_failed host id owner error now =
    update (is_owned id owner now)
      (finish permanently_failed (safe_comment_error host error 500) (some owner) now)

abbrev pub is_expired : ℕ → Notification → Bool
is_expired now n = is_delivering n.status && at_most n.lease_expires_at now

unfoldable pub recover_expired_leases : ℕ → Ledger → List String × Ledger
recover_expired_leases now db = (
  map (λ n. n.operation_id) (select_where (is_expired now) db.notifications),
  record db {
    notifications =
        update_where (is_expired now)
          (finish delivery_unknown "delivery lease expired after send may have started" none now)
          db.notifications;
  },
)

-- The `action` of an operator; any other is refused.
pub data Action : Type 0 where
  confirm_delivered retry_delivery : Action

abbrev is_unknown : DeliveryState → Bool
is_unknown delivery_unknown = true
is_unknown _ = false

abbrev is_failed : DeliveryState → Bool
is_failed permanently_failed = true
is_failed _ = false

abbrev is_retry : Action → Bool
is_retry confirm_delivered = false
is_retry retry_delivery = true

abbrev action_text : Action → String
action_text confirm_delivered = "confirm_delivered"
action_text retry_delivery = "retry"

abbrev state_text : DeliveryState → String
state_text pending = "pending"
state_text delivering = "delivering"
state_text retryable = "retryable"
state_text delivered = "delivered"
state_text permanently_failed = "permanently_failed"
state_text delivery_unknown = "delivery_unknown"

-- `controller is None or not paused`
abbrev is_running : Option Controller → Bool
is_running none = true
is_running (some c) = not c.paused

abbrev pub resolved : Action → String → String → ℕ → Notification → Notification
resolved confirm_delivered operator reason now n = record n {
  status = delivered;
  delivered_at = some now;
  updated_at = now;
  last_error = none;
  terminal_owner = some operator;
}
resolved retry_delivery operator reason now n = record n {
  status = retryable;
  updated_at = now;
  next_attempt_at = some now;
  last_error = some (
      "operator-authorized retry after "
      ++ (if is_unknown n.status then "ambiguous delivery" else "permanent delivery failure")
      ++ ": "
      ++ take_chars 1000 reason);
  terminal_owner = none;
}

unfoldable pub resolve_row : Notification → Action → String → String → ℕ → Tx Ledger (Unit {0})
unfolding append_event
resolve_row n action operator reason now = do
  require (is_unknown n.status || is_failed n.status)
      (value_error "gateway notification is not awaiting operator reconciliation")
  require (is_unknown n.status || is_retry action)
      (value_error "permanently failed gateway notifications may only be retried")
  modify (λ db. (update (has_operation n.operation_id) (resolved action operator reason now) db).1)
  _ ←
      append_event
        (plain_event "gateway_notification" n.operation_id
          (if is_unknown n.status
            then "gateway_notification_unknown_resolved"
            else "gateway_notification_failure_retried")
          operator
          (("action", text (action_text action))
            ∷ ("prior_status", text (state_text n.status))
            ∷ ("reason", text reason)
            ∷ ("ticket_id", text n.ticket_id)
            ∷ []))
        now
  pure tt

unfoldable pub resolve_gateway_notification :
    String → String → String → Action → ℕ → Ledger → Result (Unit {0}) × Ledger
unfolding transaction resolve_row
resolve_gateway_notification id operator reason action now = transaction (do
  require (not (is_blank operator || is_blank reason)) (
      value_error
        "gateway notification reconciliation requires operator, reason, and supported action")
  running ← gets (λ db. is_running db.controller)
  require (not running)
      (permission_error "gateway notification reconciliation requires paused controller")
  row ← gets (λ db. find_where (has_operation id) db.notifications)
  elim row [ none ↦ raise (key_error id) | some n ↦ resolve_row n action operator reason now ])
