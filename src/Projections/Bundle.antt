-- ===== src/Projections/Bundle.antt =====
-- local_first_orchestrator/ledger.py: `_enqueue_projection_bundle_in_transaction`, by which a state
-- event queues what the board is to be told, the state and a comment, in the event's transaction.
use Prim.Native.String.{◌++◌}
use local_first_orchestrator.Base.{
  ℕ, String, Bool, true, false, ◌&&◌, ◌||◌, ◌||◌, Option, none, some, List, [], ◌∷◌, Result, ok,
  err, Tx, ◌>>=◌, ◌>>◌, raise, gets, modify, transaction, require, Error, key_error, value_error,
  integrity_error, ◌==◌, str_eq, ltb, is_null, not, decimal, Host, if◌then◌else◌, find_where,
  take_chars,
}
use local_first_orchestrator.States.{
  CanonicalState, state_eq, state_text, blocked, repairing, is_projectable,
}
use local_first_orchestrator.Ledger.{
  Ledger, Ticket, Projection, Event, Comment, Payload, Value, null, flag, num, text, texts, pending,
}
use local_first_orchestrator.Ledger.Identity.{resolve_external_task_id, member}
use local_first_orchestrator.Projections.Outbox.{is_intent, is_other, supersede_older}

abbrev texts_eq : List String → List String → Bool
texts_eq [] [] = true
texts_eq (s ∷ ss) (t ∷ ts) = str_eq s t && texts_eq ss ts
texts_eq _ _ = false

abbrev value_eq : Value → Value → Bool
value_eq null null = true
value_eq (flag true) (flag b) = b
value_eq (flag false) (flag b) = not b
value_eq (num m) (num n) = m == n
value_eq (text s) (text t) = str_eq s t
value_eq (texts ss) (texts ts) = texts_eq ss ts
value_eq _ _ = false

abbrev has_member : String → Value → Payload → Bool
has_member k v [] = false
has_member k v ((j, w) ∷ m) = str_eq j k && value_eq w v || has_member k v m

abbrev has_members : Payload → Payload → Bool
has_members [] n = true
has_members ((k, v) ∷ m) n = has_member k v n && has_members m n

-- Whether two payloads, whose names are distinct, are written as the same JSON text: the text has the names in
-- their sorted order.
unfoldable pub payload_eq : Payload → Payload → Bool
payload_eq m n = has_members m n && has_members n m

-- `isinstance(value, int) and value > 0`, which True is too
abbrev is_positive : Value → Bool
is_positive (num n) = ltb 0 n
is_positive (flag b) = b
is_positive _ = false

has_positive : String → Payload → Bool
has_positive k [] = false
has_positive k ((j, v) ∷ m) = if str_eq j k then is_positive v else has_positive k m

abbrev is_text : Option String → String → Bool
is_text none s = false
is_text (some t) s = str_eq t s

abbrev is_state : Option CanonicalState → CanonicalState → Bool
is_state none s = false
is_state (some t) s = state_eq t s

-- `_is_terminal_retry_projection_event`
unfoldable pub is_terminal_retry : Event → Bool
unfolding has_positive
is_terminal_retry e =
    str_eq e.entity_type "ticket"
    && str_eq e.event_type "state_transition"
    && is_state e.from_state blocked
    && is_state e.to_state repairing
    && is_text (member "mode" e.payload) "retry_local"
    && has_positive "additional_local_attempts" e.payload

abbrev to_projectable : Option CanonicalState → Bool
to_projectable none = false
to_projectable (some s) = is_projectable s

-- `_is_projectable_state_event`
unfoldable pub is_projectable_event : Event → Bool
unfolding is_terminal_retry is_projectable
is_projectable_event e =
    str_eq e.entity_type "ticket"
      && (str_eq e.event_type "state_transition"
          || str_eq e.event_type "review_reconciliation_authorized")
      && to_projectable e.to_state
    || is_terminal_retry e

abbrev pub state_key : ℕ → String
state_key event = "ticket-event:" ++ decimal event

abbrev pub comment_key : String → ℕ → String
comment_key ticket event = "evidence-comment:" ++ ticket ++ ":" ++ decimal event

abbrev pub comment_id : Host → String → ℕ → String
comment_id host ticket event = take_chars 32 (host.digest (comment_key ticket event))

-- `_comment_payload`
unfoldable pub comment_payload : Host → String → CanonicalState → String → String → String
comment_payload host ticket state operation_id evidence = take_chars 1000 (
    "Local-first ticket "
    ++ ticket
    ++ " | state="
    ++ state_text state
    ++ " | "
    ++ take_chars 800 (host.redact_evidence evidence)
    ++ "\n<!-- local-first-comment:"
    ++ operation_id
    ++ " -->")

abbrev pub new_intent : String → ℕ → CanonicalState → Payload → String → ℕ → Projection
new_intent ticket event state payload target now = record {
  ticket_id = ticket;
  event_id = event;
  operation = "set_state";
  state = state;
  payload = payload;
  idempotency_key = state_key event;
  external_task_id = some target;
  queued_at = now;
  attempt_count = 0;
  lease_owner = none;
  lease_expires_at = none;
  next_attempt_at = none;
  last_error = none;
  terminal_error = none;
  acknowledged_at = none;
  superseded_at = none;
  superseded_by_event_id = none;
  supersession_reason = none;
}

-- `existing_state is not None`: whether the durable intent is the one to be queued.
unfoldable pub same_intent : Projection → Projection → Bool
unfolding payload_eq
same_intent old new =
    state_eq old.state new.state
    && str_eq old.idempotency_key new.idempotency_key
    && payload_eq old.payload new.payload

abbrev pub has_key : String → Projection → Bool
has_key key p = str_eq p.idempotency_key key

abbrev pub queue_intent : Option Projection → Projection → String → Tx Ledger (Unit {0})
unfolding same_intent
queue_intent none new target = do
  taken ← gets (λ db. find_where (has_key new.idempotency_key) db.projections)
  require (is_null taken) integrity_error
  modify (λ db. record db { projections = new ∷ db.projections })
queue_intent (some old) new target = do
  require (same_intent old new)
      (value_error "projection state intent conflicts with persisted intent")
  require (not (is_other old.external_task_id target))
      (value_error "external_projection_identity_conflict")

abbrev pub has_operation : String → Comment → Bool
has_operation id c = str_eq c.operation_id id

abbrev pub has_ticket_id : String → Ticket → Bool
has_ticket_id id t = str_eq t.id id

abbrev pub has_event_id : ℕ → Event → Bool
has_event_id id e = e.id == id

abbrev pub new_comment : Host → String → ℕ → CanonicalState → String → String → ℕ → Comment
new_comment host ticket event state target evidence now = record {
  operation_id = comment_id host ticket event;
  ticket_id = ticket;
  event_id = event;
  external_task_id = target;
  idempotency_key = comment_key ticket event;
  payload = comment_payload host ticket state (comment_id host ticket event) evidence;
  status = pending;
  attempt_count = 0;
  lease_owner = none;
  lease_expires_at = none;
  next_attempt_at = none;
  last_error = none;
  created_at = now;
  updated_at = now;
  delivered_at = none;
  terminal_owner = none;
}

-- Whether the durable comment is the one to be queued.
unfoldable pub same_comment : Comment → Comment → Bool
same_comment old new =
    str_eq old.ticket_id new.ticket_id
    && old.event_id == new.event_id
    && str_eq old.external_task_id new.external_task_id
    && str_eq old.idempotency_key new.idempotency_key
    && str_eq old.payload new.payload

abbrev pub collides : Comment → Comment → Bool
collides new old =
    str_eq old.idempotency_key new.idempotency_key
    || str_eq old.ticket_id new.ticket_id && old.event_id == new.event_id

abbrev pub queue_comment : Option Comment → Comment → Tx Ledger (Unit {0})
queue_comment none new = do
  taken ← gets (λ db. find_where (collides new) db.comments)
  require (is_null taken) integrity_error
  modify (λ db. record db { comments = new ∷ db.comments })
queue_comment (some old) new =
    require (same_comment old new)
      (value_error "evidence comment intent conflicts with persisted intent")

-- After the event and its state were looked up.
unfoldable pub enqueue_for :
    Host
    → String
    → ℕ
    → CanonicalState
    → String
    → Payload
    → Option String
    → Result String
    → ℕ
    → Tx Ledger (Unit {0})
unfolding same_intent same_comment comment_payload
enqueue_for host ticket event state evidence payload expected (err e) now = raise e
enqueue_for host ticket event state evidence payload expected (ok target) now = do
  require (not (is_other expected target)) (value_error "external_projection_identity_conflict")
  old ← gets (λ db. find_where (is_intent ticket event) db.projections)
  queue_intent old (new_intent ticket event state payload target now) target
  modify (λ db. (supersede_older ticket event now db).1)
  said ← gets (λ db. find_where (has_operation (comment_id host ticket event)) db.comments)
  queue_comment said (new_comment host ticket event state target evidence now)

abbrev missing_event : ℕ → Error
missing_event event = key_error ("event " ++ decimal event)

abbrev pub state_of : String → Event → Option CanonicalState
state_of ticket e = if str_eq e.entity_id ticket && is_projectable_event e then e.to_state else none

unfoldable pub enqueue_bundle :
    Host → String → ℕ → String → Payload → Option String → ℕ → Tx Ledger (Unit {0})
unfolding enqueue_for is_projectable_event
enqueue_bundle host ticket event evidence payload expected now = do
  known ← gets (λ db. find_where (has_ticket_id ticket) db.tickets)
  require (not (is_null known)) (key_error ticket)
  found ← gets (λ db. find_where (has_event_id event) db.events)
  elim found [
    | none ↦ raise (missing_event event)
    | some e ↦ elim (state_of ticket e) [
      | none ↦ raise (value_error "event is not a projectable ticket state transition")
      | some state ↦ do
        target ← gets (λ db.
            resolve_external_task_id db.tickets db.events db.runtime_stages db.projections ticket)
        enqueue_for host ticket event state evidence payload expected target now
    ]
  ]

-- `enqueue_projection_bundle`
unfoldable pub enqueue_projection_bundle :
    Host → String → ℕ → String → Payload → Option String → ℕ → Ledger → Result (Unit {0}) × Ledger
unfolding transaction enqueue_bundle
enqueue_projection_bundle host ticket event evidence payload expected now =
    transaction (enqueue_bundle host ticket event evidence payload expected now)
