-- ===== src/Triage/Create.antt =====
-- local_first_orchestrator/ledger.py: `create_triaged_children`, the first time and when it is repeated.
use local_first_orchestrator.Base.{
  ℕ, String, Bool, true, false, not, ◌&&◌, Option, none, some, List, [], ◌∷◌, Result, ok, err,
  value_error, key_error, Tx, ◌>>=◌, ◌>>◌, pure, raise, gets, require, transaction, ◌==◌, ltb, leb,
  str_eq, is_null, is_nil, is_within, count, if◌then◌else◌, find_where, select_where, map, Host,
}
use local_first_orchestrator.States.{state_eq, needs_triage}
use local_first_orchestrator.Ledger.{
  Ledger, Ticket, Event, Projection, RuntimeBinding, TriageChild, text, texts, append_event,
}
use local_first_orchestrator.Tickets.Lifecycle.{ticket_event, has_id}
use local_first_orchestrator.Stages.Readiness.{binding_of}
use local_first_orchestrator.Triage.Children.{
  NewChild, is_fingerprinted, all_where, is_child_of, unresolved, create_each, lift,
}

abbrev pub fingerprints : List TriageChild → List String
fingerprints = map (λ (c : TriageChild). c.fingerprint)

abbrev pub new_fingerprints : List NewChild → List String
new_fingerprints = map (λ (c : NewChild). c.fingerprint)

-- The same set of fingerprints, and as many rows as children
abbrev pub is_same_split : List NewChild → List TriageChild → Bool
is_same_split children existing =
    is_within (new_fingerprints children) (fingerprints existing)
    && is_within (fingerprints existing) (new_fingerprints children)
    && count children == count existing

abbrev opt_text_eq : Option String → Option String → Bool
opt_text_eq none none = true
opt_text_eq (some s) (some t) = str_eq s t
opt_text_eq _ _ = false

abbrev bool_eq : Bool → Bool → Bool
bool_eq true b = b
bool_eq false b = not b

abbrev is_same_binding : RuntimeBinding → RuntimeBinding → Bool
is_same_binding a b =
    str_eq a.repository_path b.repository_path
    && str_eq a.starting_sha b.starting_sha
    && opt_text_eq a.canonical_sha b.canonical_sha
    && bool_eq a.ownership_verified b.ownership_verified

abbrev pub has_same_binding : RuntimeBinding → Option RuntimeBinding → Bool
has_same_binding parent none = false
has_same_binding parent (some child) = is_same_binding child parent

-- Events are listed newest first.
abbrev creation_event : String → Ledger → Option Event
creation_event child db =
    find_where
      (λ (e : Event).
        str_eq e.entity_type "ticket"
        && str_eq e.entity_id child
        && str_eq e.event_type "triage_child_created")
      db.events

abbrev is_creation_of : String → ℕ → Projection → Bool
is_creation_of child event p =
    str_eq p.ticket_id child && p.event_id == event && str_eq p.operation "create_microticket"

abbrev pub has_creation : String → Ledger → Bool
has_creation child db = elim (creation_event child db) [
  | none ↦ false
  | some e ↦ not (is_null (find_where (is_creation_of child e.id) db.projections))
]

unfoldable pub check_provenance : RuntimeBinding → List TriageChild → Tx Ledger (Unit {0})
check_provenance parent [] = pure tt
check_provenance parent (c ∷ cs) = do
  binding ← gets (binding_of c.child_ticket_id)
  require (has_same_binding parent binding)
      (value_error "triage decomposition exists without matching scheduler runtime provenance")
  queued ← gets (has_creation c.child_ticket_id)
  require queued (value_error "triage decomposition exists without scheduler projection provenance")
  check_provenance parent cs

abbrev pub has_fingerprint : String → TriageChild → Bool
has_fingerprint fingerprint c = str_eq c.fingerprint fingerprint

-- `[by_fingerprint[fingerprint] for _, _, fingerprint in children]`
unfoldable pub ids_of : List TriageChild → List NewChild → Result (List String)
ids_of existing [] = ok []
ids_of existing (c ∷ cs) = elim (find_where (has_fingerprint c.fingerprint) existing) [
  | none ↦ err (key_error c.fingerprint)
  | some row ↦ elim (ids_of existing cs) [ err e ↦ err e | ok ids ↦ ok (row.child_ticket_id ∷ ids) ]
]

unfoldable pub repeat_children :
    String → List NewChild → List TriageChild → Bool → Tx Ledger (List String)
unfolding check_provenance ids_of
repeat_children parent children existing project = do
  require (is_same_split children existing)
      (value_error "triage decomposition already exists with different children")
  binding ← gets (binding_of parent)
  (if project
      then elim binding [
        | none ↦ raise (value_error "triage parent runtime binding is missing")
        | some b ↦ check_provenance b existing
      ]
      else pure tt)
  lift (ids_of existing children)

abbrev pub child_ids : List NewChild → List String
child_ids = map (λ (c : NewChild). c.child_id)

unfoldable pub first_children :
    Host → Ticket → List NewChild → String → String → Bool → ℕ → Tx Ledger (List String)
unfolding create_each append_event unresolved
first_children host parent children classification evidence project now = do
  open_criteria ← gets (unresolved parent)
  create_each host parent open_criteria project now children
  _ ←
      append_event
        (ticket_event parent.id "triage_children_created" none none "controller" (
          ("classification", text classification)
          ∷ ("root_cause_evidence", text evidence)
          ∷ ("child_ids", texts (child_ids children))
          ∷ []))
        now
  pure (child_ids children)

unfoldable pub create_body :
    Host → String → List NewChild → String → String → Bool → ℕ → Tx Ledger (List String)
unfolding first_children repeat_children
create_body host parent children classification evidence project now = do
  row ← gets (λ db. find_where (has_id parent) db.tickets)
  elim row [
    | none ↦ raise (key_error parent)
    | some p ↦ (do
      require (state_eq p.state needs_triage)
          (value_error "triage children require a needs_triage parent")
      require (ltb p.depth 2) (value_error "maximum decomposition depth reached")
      require (leb (count children) 3) (value_error "triage children exceed maximum")
      require (all_where (is_fingerprinted host) children)
          (value_error "triage child fingerprint does not match its contract")
      existing ← gets (λ db. select_where (is_child_of parent) db.triage_children)
      (if is_nil existing
          then first_children host p children classification evidence project now
          else repeat_children parent children existing project))
  ]

unfoldable pub create_triaged_children :
    Host
    → String
    → List NewChild
    → String
    → String
    → Bool
    → ℕ
    → Ledger
    → Result (List String) × Ledger
unfolding transaction create_body
create_triaged_children host parent children classification evidence project now =
    transaction (create_body host parent children classification evidence project now)
