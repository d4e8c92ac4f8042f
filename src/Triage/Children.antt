-- ===== src/Triage/Children.antt =====
-- local_first_orchestrator/ledger.py: `create_triaged_children`, which splits a ticket.
use local_first_orchestrator.Base.{
  ℕ, ◌+◌, String, Bool, true, not, ◌&&◌, ◌||◌, none, some, List, [], ◌∷◌, Result, ok, err,
  value_error, integrity_error, Tx, ◌>>=◌, ◌>>◌, pure, raise, gets, modify, require, str_eq,
  is_null, is_nil, contains, is_within, if◌then◌else◌, find_where, select_where, map, Host,
}
use local_first_orchestrator.States.{ready_local}
use local_first_orchestrator.Contract.{MicroTicket, patch_budget_policy}
use local_first_orchestrator.Contract.Readiness.{validate_ticket}
use local_first_orchestrator.Contract.Serial.{budget_contract, verification_contract}
use local_first_orchestrator.Ledger.{
  Ledger, Ticket, RuntimeBinding, TriageChild, TicketCriterion, CriterionStatus, text, texts,
  append_event,
}
use local_first_orchestrator.Tickets.Lifecycle.{ticket_event, has_id}
use local_first_orchestrator.Stages.Readiness.{binding_of}
use local_first_orchestrator.Triage.Proposal.{fingerprint_of, as_not_ready}
use local_first_orchestrator.Triage.Enqueue.{
  triage_child_payload, triage_projection_key, enqueue_create,
}

-- A child to be made, with the id that is drawn for it
pub record NewChild : Type 0 where
  pub child_id : String
  pub title : String
  pub ticket : MicroTicket
  pub fingerprint : String

-- `fingerprint != self._triage_child_fingerprint(child_ticket)`
abbrev pub is_fingerprinted : Host → NewChild → Bool
is_fingerprinted host c = str_eq c.fingerprint (fingerprint_of host c.ticket c.ticket.criterion_ids)

abbrev pub all_where : {A : Type 0} → (A → Bool) → List A → Bool
all_where p [] = true
all_where p (x ∷ xs) = p x && all_where p xs

abbrev pub is_child_of : String → TriageChild → Bool
is_child_of parent c = str_eq c.parent_ticket_id parent

abbrev pub is_accepted : String → CriterionStatus → Bool
is_accepted ticket s = str_eq s.ticket_id ticket && str_eq s.status "accepted"

abbrev without_all : List String → List String → List String
without_all taken [] = []
without_all taken (c ∷ cs) =
    let rest = without_all taken cs in if contains c taken then rest else c ∷ rest

-- The criteria of a ticket that are not accepted: of `unresolved_criteria`, and read in the transaction too
unfoldable pub unresolved : Ticket → Ledger → List String
unresolved t db =
    without_all
      (map (λ (s : CriterionStatus). s.criterion_id)
        (select_where (is_accepted t.id) db.criterion_statuses))
      t.criterion_ids

-- The row of a child: the contract's columns, `create_files_json` left to its default
abbrev pub child_row : Ticket → NewChild → ℕ → Ticket
child_row parent c now = record {
  id = c.child_id;
  external_id = none;
  parent_ticket_id = some parent.id;
  tranche_id = parent.tranche_id;
  feature_id = parent.feature_id;
  depth = parent.depth + 1;
  title = c.title;
  objective = some c.ticket.objective;
  criterion_ids = c.ticket.criterion_ids;
  primary_symbol = some c.ticket.primary_symbol;
  allowed_files = c.ticket.allowed_files;
  create_files = [];
  new_test_files = c.ticket.new_test_files;
  forbidden_changes = c.ticket.forbidden_changes;
  patch_budget = budget_contract c.ticket.patch_budget;
  verification = verification_contract c.ticket.verification;
  risk = some c.ticket.risk;
  review_required = c.ticket.review_required;
  max_attempts = c.ticket.max_attempts;
  dependencies = c.ticket.dependencies;
  state = ready_local;
  lease_owner = none;
  lease_expires_at = none;
  created_at = now;
  updated_at = now;
}

unfoldable pub insert_ticket : Ticket → Tx Ledger (Unit {0})
insert_ticket row = do
  taken ← gets (λ db. find_where (has_id row.id) db.tickets)
  require (is_null taken) integrity_error
  modify (λ db. record db { tickets = row ∷ db.tickets })

abbrev pub copied : String → ℕ → RuntimeBinding → RuntimeBinding
copied child now b = record b { ticket_id = child; created_at = now }

-- The parent's binding, which the child gets if its card is made too
unfoldable pub copy_binding : Ticket → String → ℕ → Tx Ledger (Unit {0})
copy_binding parent child now = do
  binding ← gets (binding_of parent.id)
  elim binding [
    | none ↦ raise (value_error "triage parent runtime binding is missing")
    | some b ↦ (do
      taken ← gets (binding_of child)
      require (is_null taken) integrity_error
      modify (λ db. record db { bindings = copied child now b ∷ db.bindings }))
  ]

abbrev pub is_criterion : String → String → TicketCriterion → Bool
is_criterion ticket criterion c = str_eq c.ticket_id ticket && str_eq c.criterion_id criterion

unfoldable pub insert_criteria : String → List String → Tx Ledger (Unit {0})
insert_criteria child [] = pure tt
insert_criteria child (criterion ∷ more) = do
  taken ← gets (λ db. find_where (is_criterion child criterion) db.ticket_criteria)
  require (is_null taken) integrity_error
  modify (λ db. record db {
    ticket_criteria = record { ticket_id = child; criterion_id = criterion } ∷ db.ticket_criteria;
  })
  insert_criteria child more

-- PRIMARY KEY(parent_ticket_id, child_ticket_id), UNIQUE(parent_ticket_id, fingerprint)
abbrev pub clashes : TriageChild → TriageChild → Bool
clashes new c =
    str_eq c.parent_ticket_id new.parent_ticket_id
    && (str_eq c.child_ticket_id new.child_ticket_id || str_eq c.fingerprint new.fingerprint)

unfoldable pub insert_child : TriageChild → Tx Ledger (Unit {0})
insert_child new = do
  taken ← gets (λ db. find_where (clashes new) db.triage_children)
  require (is_null taken) integrity_error
  modify (λ db. record db { triage_children = new ∷ db.triage_children })

abbrev pub when : Bool → Tx Ledger (Unit {0}) → Tx Ledger (Unit {0})
when b m = if b then m else pure tt

abbrev pub maps_criteria : MicroTicket → List String → Bool
maps_criteria ticket open_criteria =
    not (is_nil ticket.criterion_ids) && is_within ticket.criterion_ids open_criteria

abbrev pub lift : {A : Type 0} → Result A → Tx Ledger A
lift (ok a) = pure a
lift (err e) = raise e

unfoldable pub create_child :
    Host → Ticket → List String → Bool → ℕ → NewChild → Tx Ledger (Unit {0})
unfolding insert_ticket copy_binding insert_criteria insert_child enqueue_create append_event
    triage_child_payload
create_child host parent open_criteria project now c = do
  _ ←
      lift
        (as_not_ready "triage child is not ready: " (validate_ticket patch_budget_policy c.ticket))
  require (maps_criteria c.ticket open_criteria)
      (value_error "triage child must map only unresolved parent criteria")
  insert_ticket (child_row parent c now)
  when project (copy_binding parent c.child_id now)
  insert_criteria c.child_id c.ticket.criterion_ids
  insert_child (record {
    parent_ticket_id = parent.id;
    child_ticket_id = c.child_id;
    fingerprint = c.fingerprint;
    created_at = now;
  })
  event ←
      append_event
        (ticket_event c.child_id "triage_child_created" none (some ready_local) "controller" (
          ("parent_ticket_id", text parent.id)
          ∷ ("fingerprint", text c.fingerprint)
          ∷ ("resolves_criteria", texts c.ticket.criterion_ids)
          ∷ []))
        now
  when project (
      enqueue_create c.child_id event (triage_child_payload parent.id c.child_id c.title c.ticket)
        (triage_projection_key c.child_id) now)

unfoldable pub create_each :
    Host → Ticket → List String → Bool → ℕ → List NewChild → Tx Ledger (Unit {0})
unfolding create_child
create_each host parent open_criteria project now [] = pure tt
create_each host parent open_criteria project now (c ∷ cs) = do
  create_child host parent open_criteria project now c
  create_each host parent open_criteria project now cs
