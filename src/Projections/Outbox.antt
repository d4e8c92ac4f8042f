-- ===== src/Projections/Outbox.antt =====
-- local_first_orchestrator/ledger.py: the operations on board_projection_outbox, where an intent to
-- set a ticket's state on the board waits for its delivery.
use local_first_orchestrator.Base.{
  ℕ, ◌+◌, String, Bool, true, false, ◌&&◌, ◌||◌, Option, none, some, Result, ok, err, Tx, ◌>>=◌,
  ◌>>◌, pure, raise, gets, modify, transaction, require, permission_error, value_error, ◌==◌,
  str_eq, ltb, opt_eq, due, after, coalesce, is_null, not, if◌then◌else◌, find_where, count_where,
  update_where, first_by, take_chars,
}
use local_first_orchestrator.Ledger.{Ledger, Projection, Event}
use local_first_orchestrator.Ledger.Identity.{resolve_external_task_id}

abbrev pub is_intent : String → ℕ → Projection → Bool
is_intent ticket event p = str_eq p.ticket_id ticket && p.event_id == event

abbrev pub is_set_state : Projection → Bool
is_set_state p = str_eq p.operation "set_state"

-- Neither acknowledged nor superseded
abbrev pub is_open : Projection → Bool
is_open p = is_null p.acknowledged_at && is_null p.superseded_at

abbrev pub is_claimable : ℕ → Projection → Bool
is_claimable now p =
    is_set_state p
    && is_open p
    && is_null p.terminal_error
    && due p.next_attempt_at now
    && due p.lease_expires_at now

-- `lease_owner=? AND lease_expires_at>?`
abbrev pub is_leased : String → ℕ → Projection → Bool
is_leased owner now p = opt_eq p.lease_owner owner && after p.lease_expires_at now

-- The rows that an UPDATE meets, and the table after it.
abbrev pub update : (Projection → Bool) → (Projection → Projection) → Ledger → ℕ × Ledger
update q g db =
    (count_where q db.projections, record db { projections = update_where q g db.projections })

abbrev one_row : ℕ × Ledger → Bool × Ledger
one_row r = (r.0 == 1, r.1)

abbrev pub lease : String → ℕ → ℕ → Projection → Projection
lease owner lease_seconds now p = record p {
  lease_owner = some owner;
  lease_expires_at = some (now + lease_seconds);
  attempt_count = p.attempt_count + 1;
}

unfoldable pub claim_state_projection : String → ℕ → String → ℕ → ℕ → Ledger → Bool × Ledger
claim_state_projection ticket event owner lease_seconds now db = one_row (
    update (λ p. is_intent ticket event p && is_claimable now p) (lease owner lease_seconds now) db)

-- ORDER BY queued_at, event_id
abbrev pub sooner : Projection → Projection → Bool
sooner a b = ltb a.queued_at b.queued_at || a.queued_at == b.queued_at && ltb a.event_id b.event_id

-- `? IS NULL OR ticket_id=?`
abbrev pub for_ticket : Option String → Projection → Bool
for_ticket none p = true
for_ticket (some t) p = str_eq p.ticket_id t

abbrev reread : String → ℕ → Bool × Ledger → Option Projection × Ledger
reread ticket event (claimed, db) =
    (if claimed then find_where (is_intent ticket event) db.projections else none, db)

unfoldable pub claim_next_state_projection :
    String → ℕ → ℕ → Option String → Ledger → Option Projection × Ledger
unfolding claim_state_projection
claim_next_state_projection owner lease_seconds now ticket db =
    elim (first_by sooner (λ p. is_claimable now p && for_ticket ticket p) db.projections) [
      | none ↦ (none, db)
      | some p ↦
          reread p.ticket_id p.event_id
            (claim_state_projection p.ticket_id p.event_id owner lease_seconds now db)
    ]

abbrev pub acknowledge : ℕ → Projection → Projection
acknowledge now p = record p {
  acknowledged_at = some now;
  lease_owner = none;
  lease_expires_at = none;
  next_attempt_at = none;
  last_error = none;
}

unfoldable pub acknowledge_state_projection : String → ℕ → String → ℕ → Ledger → Bool × Ledger
acknowledge_state_projection ticket event owner now db = one_row (
    update
      (λ p.
        is_intent ticket event p
        && is_set_state p
        && is_null p.acknowledged_at
        && is_leased owner now p)
      (acknowledge now) db)

abbrev pub release : String → ℕ → Projection → Projection
release error now p = record p {
  lease_owner = none;
  lease_expires_at = none;
  next_attempt_at = some now;
  last_error = some (take_chars 2000 error);
}

unfoldable pub release_state_projection : String → ℕ → String → String → ℕ → Ledger → Bool × Ledger
release_state_projection ticket event owner error now db = one_row (
    update (λ p. is_intent ticket event p && is_set_state p && is_open p && is_leased owner now p)
      (release error now) db)

abbrev pub supersede : ℕ → ℕ → Projection → Projection
supersede event now p = record p {
  superseded_at = some now;
  superseded_by_event_id = some event;
  supersession_reason = some "newer_authoritative_state_event";
  lease_owner = none;
  lease_expires_at = none;
}

-- An open intent of the ticket that is older than the event.
abbrev pub is_stale : String → ℕ → Projection → Bool
is_stale ticket event p =
    str_eq p.ticket_id ticket && is_set_state p && is_open p && ltb p.event_id event

-- `_supersede_older_state_projections_in_transaction`
unfoldable pub supersede_older : String → ℕ → ℕ → Ledger → ℕ × Ledger
supersede_older ticket event now db = update (is_stale ticket event) (supersede event now) db

-- event_type IN ('state_transition', 'review_reconciliation_authorized'), of the ticket
abbrev pub is_state_event : String → Event → Bool
is_state_event ticket e =
    str_eq e.entity_type "ticket"
    && str_eq e.entity_id ticket
    && (str_eq e.event_type "state_transition"
        || str_eq e.event_type "review_reconciliation_authorized")

-- What the freshness gate writes when a newer event is there.
abbrev pub outdate : ℕ → ℕ → Projection → Projection
outdate event now p = record p {
  superseded_at = some (coalesce p.superseded_at now);
  superseded_by_event_id = some (coalesce p.superseded_by_event_id event);
  supersession_reason = some (coalesce p.supersession_reason "newer_authoritative_state_event");
  lease_owner = none;
  lease_expires_at = none;
}

abbrev pub is_newer : Option Event → ℕ → Bool
is_newer none event = false
is_newer (some e) event = ltb event e.id

abbrev pub id_or : Option Event → ℕ → ℕ
id_or none event = event
id_or (some e) event = e.id

-- `external_task_id not in {None, target}`
abbrev pub is_other : Option String → String → Bool
is_other none target = false
is_other (some t) target = not (str_eq t target)

-- UPDATE ... SET external_task_id=?, where the row has none
abbrev pub bind : String → ℕ → String → Projection → Ledger → Ledger
bind ticket event target p db =
    if is_null p.external_task_id
    then (update (is_intent ticket event) (λ q. record q { external_task_id = some target }) db).1
    else db

unfoldable pub bind_target : Projection → Result String → String → ℕ → Tx Ledger (Option Projection)
bind_target p (err e) ticket event = raise e
bind_target p (ok target) ticket event = do
  require (not (is_other p.external_task_id target))
      (value_error "external_projection_identity_conflict")
  modify (bind ticket event target p)
  gets (λ db. find_where (is_intent ticket event) db.projections)

unfoldable pub outdated : String → ℕ → ℕ → ℕ → Tx Ledger (Option Projection)
outdated ticket event newer now = do
  modify (λ db. (update (is_intent ticket event) (outdate newer now) db).1)
  pure none

unfoldable pub fresh : Projection → String → ℕ → Tx Ledger (Option Projection)
unfolding bind_target
fresh p ticket event = do
  target ←
      gets (λ db.
        resolve_external_task_id db.tickets db.events db.runtime_stages db.projections ticket)
  bind_target p target ticket event

-- The row of a claimed intent, after the test that it is still to be delivered.
unfoldable pub check_fresh : Projection → String → ℕ → String → ℕ → Tx Ledger (Option Projection)
unfolding outdated fresh
check_fresh p ticket event owner now = do
  require (is_leased owner now p) (permission_error "state projection lease is not owned")
  current ← gets (λ db. find_where (is_state_event ticket) db.events)
  (if is_newer current event
      then outdated ticket event (id_or current event) now
      else fresh p ticket event)

unfoldable pub prepare_body : String → ℕ → String → ℕ → Tx Ledger (Option Projection)
unfolding check_fresh
prepare_body ticket event owner now = do
  row ← gets (λ db. find_where (is_intent ticket event) db.projections)
  elim row [
    | none ↦ pure none
    | some p ↦
        if is_set_state p && is_open p then check_fresh p ticket event owner now else pure none
  ]

-- `prepare_claimed_state_projection`, the gate immediately before the board is told
unfoldable pub prepare_claimed_state_projection :
    String → ℕ → String → ℕ → Ledger → Result (Option Projection) × Ledger
unfolding transaction prepare_body
prepare_claimed_state_projection ticket event owner now =
    transaction (prepare_body ticket event owner now)
