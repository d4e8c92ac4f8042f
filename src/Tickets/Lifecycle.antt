-- ===== src/Tickets/Lifecycle.antt =====
-- local_first_orchestrator/ledger.py: how a ticket changes its state, and the lease of the worker that
-- implements it.
use local_first_orchestrator.Base.{
  ℕ, ◌+◌, String, Bool, true, false, ◌&&◌, ◌||◌, Option, none, some, List, [], ◌∷◌, Result, ok, err,
  Tx, ◌>>=◌, ◌>>◌, pure, raise, gets, modify, transaction, require, key_error, runtime_error, ◌==◌,
  str_eq, str_lt, ltb, due, at_most, Host, if◌then◌else◌, find_where, count_where, update_where,
  select_where, first_by,
}
use Prim.Native.String.{◌++◌ as append}
use local_first_orchestrator.States.{
  CanonicalState, state_eq, state_text, ready_local, implementing, validate_transition,
  is_projectable,
}
use local_first_orchestrator.Ledger.{
  Ledger, Ticket, NewEvent, Payload, Value, null, flag, num, text, append_event, plain_event,
  Controller,
}
use local_first_orchestrator.Projections.Bundle.{enqueue_bundle}

abbrev pub has_id : String → Ticket → Bool
has_id id t = str_eq t.id id

abbrev pub ticket_event :
    String → String → Option CanonicalState → Option CanonicalState → String → Payload → NewEvent
ticket_event ticket event_type from_state to_state actor payload = record {
  entity_type = "ticket";
  entity_id = ticket;
  event_type = event_type;
  from_state = from_state;
  to_state = to_state;
  actor_id = actor;
  payload = payload;
}

abbrev pub update : (Ticket → Bool) → (Ticket → Ticket) → Ledger → Ledger
update q g db = record db { tickets = update_where q g db.tickets }

-- `UPDATE tickets ... WHERE id=? AND state=?`
abbrev pub is_in : String → CanonicalState → Ticket → Bool
is_in ticket state t = has_id ticket t && state_eq t.state state

abbrev pub enter : CanonicalState → ℕ → Ticket → Ticket
enter target now t = record t { state = target; updated_at = now }

-- `transition` after the ticket's row was read
unfoldable pub transition_from :
    Host → CanonicalState → String → CanonicalState → String → Payload → ℕ → Tx Ledger (Unit {0})
unfolding validate_transition append_event enqueue_bundle is_projectable
transition_from host current ticket target actor payload now = do
  validate_transition current target
  changed ← gets (λ db. count_where (is_in ticket current) db.tickets)
  modify (update (is_in ticket current) (enter target now))
  require (changed == 1) (runtime_error "ticket changed concurrently")
  event ←
      append_event
        (ticket_event ticket "state_transition" (some current) (some target) actor payload) now
  (if is_projectable target
      then enqueue_bundle host ticket event (append "state=" (state_text target)) payload none now
      else pure tt)

unfoldable pub transition_body :
    Host → String → CanonicalState → String → Payload → ℕ → Tx Ledger (Unit {0})
unfolding transition_from
transition_body host ticket target actor payload now = do
  row ← gets (λ db. find_where (has_id ticket) db.tickets)
  elim row [
    | none ↦ raise (key_error ticket)
    | some t ↦ transition_from host t.state ticket target actor payload now
  ]

unfoldable pub transition :
    Host → String → CanonicalState → String → Payload → ℕ → Ledger → Result (Unit {0}) × Ledger
unfolding transaction transition_body
transition host ticket target actor payload now =
    transaction (transition_body host ticket target actor payload now)

-- `paused is None or paused["paused"]`
abbrev pub is_paused : Option Controller → Bool
is_paused none = true
is_paused (some c) = c.paused

-- A ticket that is ready and under no lease that runs.
abbrev pub is_claimable : ℕ → Ticket → Bool
is_claimable now t = state_eq t.state ready_local && due t.lease_expires_at now

abbrev pub start : String → ℕ → ℕ → Ticket → Ticket
start owner lease_seconds now t = record t {
  state = implementing;
  lease_owner = some owner;
  lease_expires_at = some (now + lease_seconds);
  updated_at = now;
}

abbrev pub claimed_event : String → String → ℕ → Payload → NewEvent
claimed_event ticket owner expires extra =
    ticket_event ticket "lease_claimed" (some ready_local) (some implementing) owner
      (("lease_expires_at", num expires) ∷ extra)

abbrev pub is_named : ℕ → String → Ticket → Bool
is_named now ticket t = has_id ticket t && is_claimable now t

-- The claim of the ticket named, with the event that records it: whether it was made.
unfoldable pub claim_named : String → String → ℕ → ℕ → Payload → Ledger → Bool × Ledger
unfolding append_event
claim_named ticket owner lease_seconds now extra db =
    let db' = update (is_named now ticket) (start owner lease_seconds now) db in
    if count_where (is_named now ticket) db.tickets == 1
    then elim (append_event (claimed_event ticket owner (now + lease_seconds) extra) now db') [
      | ok (_, db'') ↦ (true, db'')
      | err _ ↦ (false, db')
    ]
    else (false, db')

-- ORDER BY created_at, id
abbrev pub older : Ticket → Ticket → Bool
older a b = ltb a.created_at b.created_at || a.created_at == b.created_at && str_lt a.id b.id

abbrev when : String → Bool × Ledger → Option String × Ledger
when ticket (claimed, db) = (if claimed then some ticket else none, db)

unfoldable pub claim_ticket : String → ℕ → ℕ → Ledger → Option String × Ledger
unfolding claim_named
claim_ticket owner lease_seconds now db =
    if is_paused db.controller
    then (none, db)
    else elim (first_by older (is_claimable now) db.tickets) [
      | none ↦ (none, db)
      | some t ↦ when t.id (claim_named t.id owner lease_seconds now [] db)
    ]

unfoldable pub claim_specific : String → String → ℕ → ℕ → Ledger → Bool × Ledger
unfolding claim_named
claim_specific ticket owner lease_seconds now db =
    if is_paused db.controller
    then (false, db)
    else claim_named ticket owner lease_seconds now [] db

unfoldable pub claim_specific_operator : String → String → ℕ → ℕ → Ledger → Bool × Ledger
unfolding claim_named
claim_specific_operator ticket owner lease_seconds now =
    claim_named ticket owner lease_seconds now (("operator_authorized", flag true) ∷ [])

abbrev pub is_expired : ℕ → Ticket → Bool
is_expired now t = state_eq t.state implementing && at_most t.lease_expires_at now

abbrev pub reopen : ℕ → Ticket → Ticket
reopen now t = record t {
  state = ready_local;
  lease_owner = none;
  lease_expires_at = none;
  updated_at = now;
}

-- ORDER BY id
unfoldable pub insert_by_id : Ticket → List Ticket → List Ticket
insert_by_id t [] = t ∷ []
insert_by_id t (u ∷ us) =
    let rest = insert_by_id t us in if str_lt u.id t.id then u ∷ rest else t ∷ u ∷ us

unfoldable pub sort_by_id : List Ticket → List Ticket
unfolding insert_by_id
sort_by_id [] = []
sort_by_id (t ∷ ts) = insert_by_id t (sort_by_id ts)

abbrev opt_text : Option String → Value
opt_text none = null
opt_text (some s) = text s

-- The tickets whose leases have expired, one after the other.
unfoldable pub recover_each : ℕ → List Ticket → Tx Ledger (List String)
unfolding append_event
recover_each now [] = pure []
recover_each now (t ∷ ts) = do
  modify (update (has_id t.id) (reopen now))
  _ ←
      append_event
        (ticket_event t.id "lease_recovered" (some implementing) (some ready_local) "recovery"
          (("expired_owner", opt_text t.lease_owner) ∷ []))
        now
  ids ← recover_each now ts
  pure (t.id ∷ ids)

unfoldable pub recover_expired_leases : ℕ → Ledger → Result (List String) × Ledger
unfolding transaction sort_by_id recover_each
recover_expired_leases now db =
    transaction (recover_each now (sort_by_id (select_where (is_expired now) db.tickets))) db

-- `_set_pause`: `pause` and `resume`
unfoldable pub set_pause : Bool → String → String → ℕ → Ledger → Result (Unit {0}) × Ledger
unfolding transaction append_event
set_pause paused actor reason now = transaction (do
  modify (λ db. record db {
    controller = elim db.controller [
      | none ↦ none
      | some c ↦ some (record { paused = paused; updated_at = now })
    ];
  })
  _ ←
      append_event
        (plain_event "controller" "controller" (if paused then "paused" else "resumed") actor
          (("reason", text reason) ∷ []))
        now
  pure tt)
