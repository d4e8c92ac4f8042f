-- ===== src/PaidModel/Invoke.antt =====
-- local_first_orchestrator/paid_model.py: `InjectedPaidModelAdapter.invoke`, over any runner.
use Prim.Native.String.{◌++◌}
use local_first_orchestrator.Base.{
  ℕ, ◌+◌, String, Bool, true, false, ◌&&◌, ◌||◌, Option, none, some, List, ◌∷◌, Result, ok, err,
  Error, value_error, permission_error, runtime_error, str_eq, str_lt, ltb, ◌==◌, is_null,
  if◌then◌else◌, find_where, count_where, update_where, first_by, Host, opt_eq,
}
use local_first_orchestrator.Ledger.{
  Ledger, Ticket, StageClaim, PaidPurpose, ModelCall, ReservationStatus, in_flight, completed,
  released, unknown_outcome, provider_rejected,
}
use local_first_orchestrator.Governor.Requests.{Reservation}
use local_first_orchestrator.Governor.Authorize.{authorize}
use local_first_orchestrator.Governor.Settle.{finish, complete, unknown, Rejection, reject}

-- The packet: the two members that are read here, and its JSON text.
pub record Packet : Type 0 where
  pub ticket_id : Option String
  pub tranche_id : Option String
  pub body : String

-- How the runner ends: with a proposal (its JSON text), with `_ConfirmedProviderRejection`, or with
-- another exception, or a value that is no object (`TypeError`), of the type named.
pub data RunnerOutcome : Type 0 where
  proposed : String → RunnerOutcome
  rejection : String → String → ℕ → Bool → RunnerOutcome
  ambiguous : String → RunnerOutcome

-- The adapter's own fields
pub record Route : Type 0 where
  pub provider_alert_target : Option String
  pub provider_alert_failure_threshold : ℕ
  pub provider : String
  pub model : String

abbrev pub for_reservation : String → ModelCall → Bool
for_reservation id c = str_eq c.reservation_id id

abbrev pub has_call_id : String → ModelCall → Bool
has_call_id id c = str_eq c.id id

abbrev pub update_calls : (ModelCall → Bool) → (ModelCall → ModelCall) → Ledger → Ledger
update_calls q g db = record db { model_calls = update_where q g db.model_calls }

abbrev pub mark_unknown : ℕ → ModelCall → ModelCall
mark_unknown now c = record c { status = unknown_outcome; updated_at = now }

abbrev latest : Ticket → Ticket → Bool
latest a b = ltb b.created_at a.created_at || a.created_at == b.created_at && str_lt b.id a.id

in_tranche : Option String → List Ticket → Option String
in_tranche none tickets = none
in_tranche (some tranche) tickets =
    elim (first_by latest (λ (t : Ticket). opt_eq t.tranche_id tranche) tickets) [
      | none ↦ none
      | some t ↦ some t.id
    ]

known_ticket : Option String → List Ticket → Option String
known_ticket none tickets = none
known_ticket (some id) tickets =
    if is_null (find_where (λ (t : Ticket). str_eq t.id id) tickets) then none else some id

-- `_provider_alert_ticket_id`
unfoldable pub provider_alert_ticket_id : String → Packet → Ledger → Option String
unfolding in_tranche known_ticket
provider_alert_ticket_id key packet db = elim (known_ticket packet.ticket_id db.tickets) [
  | some id ↦ some id
  | none ↦ elim (find_where (λ (c : StageClaim). str_eq c.claim_id key) db.stage_claims) [
    | some c ↦ some c.ticket_id
    | none ↦ in_tranche packet.tranche_id db.tickets
  ]
]

-- What a call returns or raises, and the ledger and the provider's state after it.
abbrev pub Outcome : Type 0 → Type 0
Outcome B = Result String × Ledger × B

abbrev pub not_retried : Error
not_retried = runtime_error "paid invocation outcome is unknown and will not be retried"

-- `governor.unknown` and the update of the call's row; then `PaidInvocationError`
unfoldable pub give_up :
    {B : Type 0} → Reservation → String → (ModelCall → Bool) → ℕ → Ledger → B → Outcome B
give_up v reason which now db board =
    let (marked, db') = finish unknown v (some reason) now db in
    elim marked [
      | err e ↦ (err e, db', board)
      | ok _ ↦ (err not_retried, update_calls which (mark_unknown now) db', board)
    ]

abbrev pub new_call : String → String → PaidPurpose → String → Packet → ℕ → ModelCall
new_call id feature purpose reservation_id packet now = record {
  id = id;
  feature_id = feature;
  purpose = purpose;
  reservation_id = reservation_id;
  status = in_flight;
  request_artifact = packet.body;
  response_artifact = none;
  provider_attempt_count = 1;
  last_provider_error_kind = none;
  last_provider_error_detail = none;
  last_provider_rejected_at = none;
  created_at = now;
  updated_at = now;
}

abbrev pub collides : String → String → ModelCall → Bool
collides id reservation_id c = has_call_id id c || for_reservation reservation_id c

abbrev pub is_retryable_call : String → ModelCall → Bool
is_retryable_call id c = has_call_id id c && is_rejected c.status
  where
    is_rejected : ReservationStatus → Bool
    is_rejected provider_rejected = true
    is_rejected _ = false

module _ {B : Type 0} (host : Host) (route : Route) (runner : Packet → B → RunnerOutcome × B)
    (key : String) (packet : Packet) (now : ℕ) where
  -- `exc.retryable`: `now + retry_after_seconds`, or None
  abbrev retry_at : ℕ → Bool → Option ℕ
  retry_at seconds true = some (now + seconds)
  retry_at seconds false = none

  rejection_of : String → String → String → ℕ → Bool → Ledger → Rejection
  unfolding provider_alert_ticket_id
  rejection_of call_id kind detail seconds retryable db = record {
    model_call_id = call_id;
    kind = kind;
    detail = detail;
    retryable = retryable;
    retry_after_at = retry_at seconds retryable;
    alert_ticket_id =
        if is_null route.provider_alert_target
        then none
        else provider_alert_ticket_id key packet db;
    alert_target = route.provider_alert_target;
    alert_provider = some route.provider;
    alert_model = some route.model;
    alert_failure_threshold = route.provider_alert_failure_threshold;
  }

  abbrev complete_call : String → ModelCall → ModelCall
  complete_call response c = record c {
    status = completed;
    response_artifact = some response;
    updated_at = now;
  }

  -- After the runner has ended.
  unfoldable pub conclude : Reservation → String → RunnerOutcome → Ledger → B → Outcome B
  unfolding give_up rejection_of
  conclude v call_id (proposed response) db board =
      let (done, db') = finish complete v none now db in
      elim done [
        | err e ↦ (err e, db', board)
        | ok _ ↦
            (ok response, update_calls (has_call_id call_id) (complete_call response) db', board)
      ]
  conclude v call_id (rejection kind detail seconds retryable) db board =
      let (counted, db') =
        reject host v (rejection_of call_id kind detail seconds retryable db) now db in
      elim counted [
        | err e ↦ (err e, db', board)
        | ok _ ↦ (err (runtime_error ("paid provider rejected request: " ++ kind)), db', board)
      ]
  conclude v call_id (ambiguous name) db board =
      give_up v ("runner outcome ambiguous: " ++ name) (has_call_id call_id) now db board

  unfoldable pub run : Reservation → String → Ledger → B → Outcome B
  unfolding conclude
  run v call_id db board =
      let (outcome, board') = runner packet board in conclude v call_id outcome db board'

  -- A call is recorded already; `meanwhile` is what other processes commit before a rejected call is claimed again.
  unfoldable pub resume :
      Reservation → ModelCall → ReservationStatus → (Ledger → Ledger) → Ledger → B → Outcome B
  unfolding run give_up
  resume v c completed meanwhile db board = elim c.response_artifact [
    | none ↦ (err not_retried, db, board)
    | some response ↦
        if str_eq response "" then (err not_retried, db, board) else (ok response, db, board)
  ]
  resume v c provider_rejected meanwhile db board =
      let db' = meanwhile db in
      if count_where (is_retryable_call c.id) db'.model_calls == 1
      then run v c.id
          (update_calls (is_retryable_call c.id)
            (λ d. record d {
              status = in_flight;
              provider_attempt_count = d.provider_attempt_count + 1;
              updated_at = now;
            })
            db')
          board
      else (err (runtime_error "paid provider retry claim changed concurrently"), db', board)
  resume v c in_flight meanwhile db board =
      give_up v "recovered in-flight model call" (for_reservation v.reservation_id) now db board
  resume v c unknown_outcome meanwhile db board = (err not_retried, db, board)
  resume v c released meanwhile db board = (err not_retried, db, board)

  -- No call was recorded when the row was read; `call_id` is drawn at random, and `meanwhile` is what
  -- other processes commit before the call is inserted.
  unfoldable pub begin :
      String → PaidPurpose → Reservation → String → (Ledger → Ledger) → Ledger → B → Outcome B
  unfolding run give_up
  begin feature purpose v call_id meanwhile db board =
      let db' = meanwhile db in
      if is_null (find_where (collides call_id v.reservation_id) db'.model_calls)
      then run v call_id
          (record db' {
            model_calls =
                new_call call_id feature purpose v.reservation_id packet now ∷ db'.model_calls;
          })
          board
      else give_up v "concurrent model-call claim" (for_reservation v.reservation_id) now db' board

  abbrev invocation_error : Error → Error
  invocation_error (permission_error s) = runtime_error s
  invocation_error (value_error s) = runtime_error s
  invocation_error e = e

  -- After the authorization.
  unfoldable pub dispatch :
      String
      → PaidPurpose
      → String
      → (Ledger → Ledger)
      → Result Reservation
      → Ledger
      → B
      → Outcome B
  unfolding begin resume
  dispatch feature purpose call_id meanwhile (err e) db board =
      (err (invocation_error e), db, board)
  dispatch feature purpose call_id meanwhile (ok v) db board =
      elim (find_where (for_reservation v.reservation_id) db.model_calls) [
        | none ↦ begin feature purpose v call_id meanwhile db board
        | some c ↦ resume v c c.status meanwhile db board
      ]

  unfoldable pub invoke :
      String → PaidPurpose → String → String → (Ledger → Ledger) → Ledger → B → Outcome B
  unfolding dispatch authorize
  invoke feature purpose reservation_id call_id meanwhile db board =
      let (v, db') = authorize feature purpose key reservation_id now db in
      dispatch feature purpose call_id meanwhile v db' board
