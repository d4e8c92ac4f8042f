-- ===== src/Stages/Claims.antt =====
-- local_first_orchestrator/ledger.py: a claim's way from its lease to its end: `begin_scheduler_claim_effect`,
-- `complete_scheduler_claim` and the deferral of a paid claim.
use package.text.Mathlib.Text.{starts_with}
use local_first_orchestrator.Base.{
  ℕ, String, Bool, true, false, not, ◌&&◌, ◌||◌, Option, none, some, List, [], ◌∷◌, Result, ok, err,
  Error, key_error, permission_error, runtime_error, Tx, ◌>>=◌, ◌>>◌, pure, raise, gets, modify,
  require, transaction, ◌==◌, str_eq, opt_eq, after, is_null, contains, any_where, if◌then◌else◌,
  find_where, count_where, update_where,
}
use local_first_orchestrator.Ledger.{
  Ledger, Ticket, StageClaim, ClaimStatus, claimed, finalized, append_event, text,
}
use local_first_orchestrator.Tickets.Lifecycle.{ticket_event, has_id}

abbrev pub is_claim : String → StageClaim → Bool
is_claim id c = str_eq c.claim_id id

abbrev pub is_claimed : ClaimStatus → Bool
is_claimed claimed = true
is_claimed _ = false

abbrev pub is_finalized : ClaimStatus → Bool
is_finalized finalized = true
is_finalized _ = false

-- `status='claimed' AND lease_owner=? AND lease_expires_at>?`
abbrev pub holds_lease : String → ℕ → StageClaim → Bool
holds_lease owner now c =
    is_claimed c.status && opt_eq c.lease_owner owner && after c.lease_expires_at now

-- `lease_owner == owner` with a lease that runs, whatever the status
abbrev pub holds_running_lease : String → ℕ → StageClaim → Bool
holds_running_lease owner now c = opt_eq c.lease_owner owner && after c.lease_expires_at now

abbrev pub update_claims : (StageClaim → Bool) → (StageClaim → StageClaim) → Ledger → Ledger
update_claims q g db = record db { stage_claims = update_where q g db.stage_claims }

abbrev pub get_claim : String → Ledger → Option StageClaim
get_claim id db = find_where (is_claim id) db.stage_claims

-- `SELECT * FROM scheduler_stage_claims WHERE claim_id=?`, of a row that is there
abbrev pub read_back : String → Tx Ledger StageClaim
read_back id db = elim (get_claim id db) [ none ↦ err (key_error id) | some c ↦ ok (c, db) ]

-- The UPDATE of the row of one claim, which must change one row
abbrev pub update_one :
    (StageClaim → Bool) → (StageClaim → StageClaim) → Error → Tx Ledger (Unit {0})
update_one q g e = do
  changed ← gets (λ db. count_where q db.stage_claims)
  modify (update_claims q g)
  require (changed == 1) e

abbrev pub not_owned : Error
not_owned = permission_error "scheduler claim lease is not owned"

abbrev pub start_effect : ℕ → StageClaim → StageClaim
start_effect now c = record c { side_effect_started_at = some now; updated_at = now }

abbrev pub may_start : String → String → ℕ → StageClaim → Bool
may_start id owner now c =
    is_claim id c && holds_lease owner now c && is_null c.side_effect_started_at

-- A claim whose effect needs no start: it is finalized, or the effect has been started.
abbrev pub has_begun : StageClaim → Bool
has_begun c =
    is_finalized c.status
    || not (is_null c.side_effect_completed_at)
    || not (is_null c.side_effect_started_at)

unfoldable pub begin_body : String → String → ℕ → Tx Ledger StageClaim
unfolding append_event
begin_body id owner now = do
  row ← gets (get_claim id)
  elim row [
    | none ↦ raise (key_error id)
    | some c ↦ if has_begun c then pure c else (do
      update_one (may_start id owner now) (start_effect now) not_owned
      _ ←
          append_event
            (ticket_event c.ticket_id "scheduler_stage_effect_started" none none owner
              (("claim_id", text id) ∷ ("stage", text c.stage) ∷ []))
            now
      read_back id)
  ]

unfoldable pub begin_scheduler_claim_effect :
    String → String → ℕ → Ledger → Result StageClaim × Ledger
unfolding transaction begin_body
begin_scheduler_claim_effect id owner now = transaction (begin_body id owner now)

abbrev pub finalize : String → ℕ → StageClaim → StageClaim
finalize encoded now c = record c {
  status = finalized;
  lease_owner = none;
  lease_expires_at = none;
  result = some encoded;
  finalized_at = some now;
  updated_at = now;
}

abbrev pub may_finalize : String → String → ℕ → StageClaim → Bool
may_finalize id owner now c =
    is_claim id c && holds_lease owner now c && not (is_null c.side_effect_completed_at)

-- `row["result_json"] is not None and row["result_json"] != encoded`
abbrev pub conflicts : Option String → String → Bool
conflicts none encoded = false
conflicts (some old) encoded = not (str_eq old encoded)

abbrev stage_prefixes : List String
stage_prefixes =
    "implementation:" ∷ "validation:" ∷ "review:" ∷ "repair_routing:" ∷ "triage:" ∷ "acceptance:"
    ∷ "git_integration:" ∷ "completion:" ∷ []

-- The stages whose claim comes with the ticket's lease
abbrev pub holds_ticket : String → Bool
holds_ticket stage =
    any_where (λ p. starts_with stage p) stage_prefixes
    || contains stage (
        "implementation" ∷ "tranche_checkpoint" ∷ "paid_checkpoint" ∷ "paid_escalation"
        ∷ "next_tranche_materialize" ∷ "next_tranche_activation" ∷ [])

abbrev free : ℕ → Ticket → Ticket
free now t = record t { lease_owner = none; lease_expires_at = none; updated_at = now }

abbrev free_ticket : String → String → ℕ → Ledger → Ledger
free_ticket ticket owner now db = record db {
  tickets =
      update_where (λ (t : Ticket). has_id ticket t && opt_eq t.lease_owner owner) (free now)
        db.tickets;
}

abbrev conflict : Error
conflict = runtime_error "scheduler claim result conflicts"

-- `encoded` is the JSON text of the result.
unfoldable pub finalize_claim : StageClaim → String → String → String → ℕ → Tx Ledger StageClaim
unfolding append_event
finalize_claim c id owner encoded now = do
  require (not (is_null c.side_effect_completed_at))
      (runtime_error "scheduler claim side effect is not durably completed")
  require (not (conflicts c.result encoded)) conflict
  update_one (may_finalize id owner now) (finalize encoded now) not_owned
  _ ←
      append_event
        (ticket_event c.ticket_id "scheduler_stage_completed" none none owner
          (("claim_id", text id) ∷ ("stage", text c.stage) ∷ ("result", text encoded) ∷ []))
        now
  modify (λ db. if holds_ticket c.stage then free_ticket c.ticket_id owner now db else db)
  read_back id

-- A finalized claim has its result: NULL would differ from the text.
unfoldable pub complete_body : String → String → String → ℕ → Tx Ledger StageClaim
unfolding finalize_claim
complete_body id owner encoded now = do
  row ← gets (get_claim id)
  elim row [
    | none ↦ raise (key_error id)
    | some c ↦
        if is_finalized c.status
        then (do require (opt_eq c.result encoded) conflict; pure c)
        else finalize_claim c id owner encoded now
  ]

unfoldable pub complete_scheduler_claim :
    String → String → String → ℕ → Ledger → Result StageClaim × Ledger
unfolding transaction complete_body
complete_scheduler_claim id owner encoded now = transaction (complete_body id owner encoded now)
