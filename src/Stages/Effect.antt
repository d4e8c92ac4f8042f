-- ===== src/Stages/Effect.antt =====
-- local_first_orchestrator/ledger.py: the claim on the readiness stage of a ticket and its effect.
use Prim.Native.String.{◌++◌}
use local_first_orchestrator.Base.{
  sorted_set, ℕ, ◌+◌, String, Bool, true, false, not, ◌&&◌, ◌||◌, Option, none, some, [], ◌∷◌,
  Result, err, Error, value_error, key_error, runtime_error, integrity_error, Tx, ◌>>=◌, ◌>>◌, pure,
  raise, gets, modify, require, transaction, ◌==◌, ltb, str_eq, str_lt, at_most, is_null, is_nil,
  contains, if◌then◌else◌, find_where, count_where, first_by, take_chars, Host,
}
use local_first_orchestrator.States.{state_eq, draft, ready_local}
use local_first_orchestrator.Ledger.{
  Ledger, Ticket, StageClaim, claimed, RuntimeBinding, append_event, num, text, Payload,
}
use local_first_orchestrator.Tickets.Lifecycle.{
  ticket_event, has_id, older, is_paused, transition_from,
}
use local_first_orchestrator.Stages.Claims.{
  is_claim, is_claimed, is_finalized, holds_lease, update_claims, update_one, get_claim, read_back,
  not_owned, holds_running_lease,
}
use local_first_orchestrator.Stages.Readiness.{is_valid, binding_of, is_bound, satisfied}

abbrev pub readiness_stage : String
readiness_stage = "dependency_readiness"

-- `? IS NULL OR ticket_id=?`
abbrev pub only_for : Option String → String → Bool
only_for none ticket = true
only_for (some t) ticket = str_eq ticket t

abbrev pub is_expired : ℕ → StageClaim → Bool
is_expired now c = is_claimed c.status && at_most c.lease_expires_at now

-- ORDER BY created_at, claim_id
abbrev pub older_claim : StageClaim → StageClaim → Bool
older_claim a b =
    ltb a.created_at b.created_at || a.created_at == b.created_at && str_lt a.claim_id b.claim_id

abbrev pub to_replay : Option String → ℕ → StageClaim → Bool
to_replay only now c =
    str_eq c.stage readiness_stage && is_expired now c && only_for only c.ticket_id

abbrev pub reclaim : String → ℕ → ℕ → StageClaim → StageClaim
reclaim owner lease_seconds now c = record c {
  lease_owner = some owner;
  lease_expires_at = some (now + lease_seconds);
  attempt_count = c.attempt_count + 1;
  updated_at = now;
}

abbrev claim_payload : String → String → ℕ → Payload
claim_payload id stage expires =
    ("claim_id", text id) ∷ ("stage", text stage) ∷ ("lease_expires_at", num expires) ∷ []

abbrev pub is_expired_claim : String → ℕ → StageClaim → Bool
is_expired_claim id now c = is_claim id c && is_expired now c

unfoldable pub replay_claim : StageClaim → String → ℕ → ℕ → Tx Ledger (Option StageClaim)
unfolding append_event
replay_claim c owner lease_seconds now = do
  changed ← gets (λ db. count_where (is_expired_claim c.claim_id now) db.stage_claims)
  modify (update_claims (is_expired_claim c.claim_id now) (reclaim owner lease_seconds now))
  (if not (changed == 1) then pure none else (do
    _ ←
        append_event
          (ticket_event c.ticket_id "scheduler_stage_reclaimed" none none owner
            (claim_payload c.claim_id c.stage (now + lease_seconds)))
          now
    row ← read_back c.claim_id
    pure (some row)))

abbrev has_claim : String → Ledger → Bool
has_claim ticket db = not (
    is_null (
      find_where (λ (c : StageClaim). str_eq c.ticket_id ticket && str_eq c.stage readiness_stage)
        db.stage_claims))

-- A draft that is bound and depends on nothing: the conditions on its dependencies hold then. `db` is the
-- ledger that the row is read from.
abbrev pub is_candidate : Option String → Ledger → Ticket → Bool
is_candidate only db t =
    state_eq t.state draft
    && not (is_null (binding_of t.id db))
    && is_nil t.dependencies
    && not (has_claim t.id db)
    && only_for only t.id

abbrev pub new_claim : String → String → String → ℕ → ℕ → StageClaim
new_claim id ticket owner lease_seconds now = record {
  claim_id = id;
  ticket_id = ticket;
  stage = readiness_stage;
  status = claimed;
  lease_owner = some owner;
  lease_expires_at = some (now + lease_seconds);
  attempt_count = 1;
  result = none;
  last_error = none;
  side_effect_started_at = none;
  side_effect_completed_at = none;
  finalized_at = none;
  identity = none;
  created_at = now;
  updated_at = now;
}

abbrev pub readiness_claim_id : Host → String → String
readiness_claim_id host ticket = take_chars 32 (host.digest ("dependency_readiness:" ++ ticket))

unfoldable pub insert_claim : String → String → String → ℕ → ℕ → Tx Ledger (Option StageClaim)
unfolding append_event
insert_claim id ticket owner lease_seconds now = do
  taken ← gets (get_claim id)
  require (is_null taken) integrity_error
  modify (λ db. record db {
    stage_claims = new_claim id ticket owner lease_seconds now ∷ db.stage_claims;
  })
  _ ←
      append_event
        (ticket_event ticket "scheduler_stage_claimed" none none owner
          (claim_payload id readiness_stage (now + lease_seconds)))
        now
  row ← read_back id
  pure (some row)

unfoldable pub claim_readiness_body :
    Host → String → ℕ → ℕ → Option String → Tx Ledger (Option StageClaim)
unfolding replay_claim insert_claim
claim_readiness_body host owner lease_seconds now only = do
  controller ← gets (λ db. db.controller)
  replay ← gets (λ db. first_by older_claim (to_replay only now) db.stage_claims)
  candidate ← gets (λ db. first_by older (is_candidate only db) db.tickets)
  (if is_paused controller then pure none else elim replay [
    | some c ↦ replay_claim c owner lease_seconds now
    | none ↦ elim candidate [
      | none ↦ pure none
      | some t ↦ insert_claim (readiness_claim_id host t.id) t.id owner lease_seconds now
    ]
  ])

unfoldable pub claim_next_scheduler_readiness :
    Host → String → ℕ → ℕ → Option String → Ledger → Result (Option StageClaim) × Ledger
unfolding transaction claim_readiness_body
claim_next_scheduler_readiness host owner lease_seconds now only db =
    if str_eq owner "" || ltb lease_seconds 1
    then (err (value_error "scheduler claim requires an owner and positive lease"), db)
    else transaction (claim_readiness_body host owner lease_seconds now only) db

-- The JSON text of the result
abbrev pub ready_result : String
ready_result = "{\"status\":\"ready\",\"unresolved_dependency_ids\":[]}"

abbrev pub end_effect : String → ℕ → StageClaim → StageClaim
end_effect encoded now c = record c {
  side_effect_completed_at = some now;
  result = some encoded;
  updated_at = now;
}

abbrev pub may_end_effect : String → String → ℕ → StageClaim → Bool
may_end_effect id owner now c =
    is_claim id c && holds_lease owner now c && is_null c.side_effect_completed_at

abbrev ineligible : String → Error
ineligible why = runtime_error ("claimed readiness stage became ineligible: " ++ why)

abbrev pub has_binding : Option RuntimeBinding → Bool
has_binding none = false
has_binding (some b) = is_bound b

-- The checks of a draft. A draft that depends on something is refused, so that the loop over the
-- dependencies, which follows, has none to look at.
unfoldable pub require_draft : Ticket → Tx Ledger (Unit {0})
unfolding is_valid
require_draft t = do
  require (state_eq t.state draft) (ineligible "wrong_state")
  binding ← gets (binding_of t.id)
  require (has_binding binding) (ineligible "invalid_runtime_binding")
  require (is_valid t) (ineligible "invalid_ticket")
  require (not (contains t.id (sorted_set t.dependencies))) (ineligible "invalid_ticket")
  require (is_nil (sorted_set t.dependencies)) (ineligible "native_dependency_release_required")

-- The transition of the ticket, by the steps of `transition`
unfoldable pub make_ready : Host → Ticket → ℕ → Tx Ledger (Unit {0})
unfolding require_draft transition_from
make_ready host t now = if state_eq t.state ready_local then pure tt else (do
  require_draft t
  transition_from host t.state t.id ready_local "readiness" satisfied now)

-- The claim's row, from which the effect may be made
unfoldable pub apply_claimed : Host → StageClaim → String → String → ℕ → Tx Ledger StageClaim
unfolding make_ready append_event
apply_claimed host c id owner now = do
  require (not (is_null c.side_effect_started_at))
      (runtime_error "scheduler claim effect was not durably started")
  require (holds_running_lease owner now c) not_owned
  ticket ← gets (λ db. find_where (has_id c.ticket_id) db.tickets)
  elim ticket [
    | none ↦ raise (key_error c.ticket_id)
    | some t ↦ (do
      make_ready host t now
      update_one (may_end_effect id owner now) (end_effect ready_result now) not_owned
      _ ←
          append_event
            (ticket_event c.ticket_id "scheduler_stage_effect_completed" none none owner (
              ("claim_id", text id)
              ∷ ("stage", text readiness_stage)
              ∷ ("result", text ready_result)
              ∷ []))
            now
      read_back id)
  ]

unfoldable pub apply_body : Host → String → String → ℕ → Tx Ledger StageClaim
unfolding apply_claimed
apply_body host id owner now = do
  row ← gets (get_claim id)
  elim row [
    | none ↦ raise (key_error id)
    | some c ↦ (do
      require (str_eq c.stage readiness_stage)
          (value_error "scheduler claim is not dependency readiness")
      (if is_finalized c.status || not (is_null c.side_effect_completed_at)
          then pure c
          else apply_claimed host c id owner now))
  ]

unfoldable pub apply_scheduler_readiness_effect :
    Host → String → String → ℕ → Ledger → Result StageClaim × Ledger
unfolding transaction apply_body
apply_scheduler_readiness_effect host id owner now = transaction (apply_body host id owner now)
