-- ===== src/Triage/Coordinator.antt =====
-- local_first_orchestrator/triage.py, `TriageCoordinator`: the split of a ticket and what becomes of it.
use local_first_orchestrator.Base.{
  ℕ, String, Bool, true, false, not, ◌&&◌, ◌||◌, none, some, List, [], ◌∷◌, Result, ok, err,
  key_error, ltb, leb, str_eq, opt_eq, is_nil, is_null, contains, is_within, count, if◌then◌else◌,
  find_where, select_where, any_where, Host,
}
use local_first_orchestrator.States.{
  CanonicalState, state_eq, needs_triage, accepted, done, rejected, blocked, ready_local,
}
use local_first_orchestrator.Contract.{patch_budget_policy}
use local_first_orchestrator.Contract.Readiness.{validate_ticket}
use local_first_orchestrator.Ledger.{Ledger, Ticket, text, flag}
use local_first_orchestrator.Ledger.Calls.{after_call}
use local_first_orchestrator.Tickets.Lifecycle.{has_id, transition}
use local_first_orchestrator.Triage.Proposal.{
  TriagedChild, TriageResult, classifications_with_children, guard, and_then, as_not_ready,
}
use local_first_orchestrator.Triage.Children.{NewChild, unresolved, all_where}
use local_first_orchestrator.Triage.Create.{create_triaged_children}

-- The checks of one child, beside the fingerprints of those before it
unfoldable pub check_children : List String → List String → List TriagedChild → Result (Unit {0})
check_children open_criteria seen [] = ok tt
check_children open_criteria seen (c ∷ cs) =
    guard (is_within c.resolves_criteria open_criteria)
      "child must map only unresolved parent criteria"
      (guard (is_within c.ticket.criterion_ids c.resolves_criteria)
        "child contract expands parent criterion scope"
        (and_then
          (as_not_ready "child is not ready: " (validate_ticket patch_budget_policy c.ticket))
          (λ _.
            guard (not (contains c.fingerprint seen)) "duplicate child fingerprint"
              (check_children open_criteria (c.fingerprint ∷ seen) cs))))

-- What `apply` checks before it writes
unfoldable pub check_proposal : String → TriageResult → Ledger → Result (Unit {0})
unfolding check_children unresolved
check_proposal parent result db =
    guard
      (str_eq result.recommended_action "decompose"
        && contains result.classification classifications_with_children)
      "only validated decompositions can create children"
      (elim (find_where (has_id parent) db.tickets) [
        | none ↦ err (key_error parent)
        | some p ↦ guard (ltb p.depth 2) "maximum decomposition depth reached" (
            guard (not (is_nil result.children) && leb (count result.children) 3)
              "children exceed maximum" (check_children (unresolved p db) [] result.children))
      ])

-- The children with the ids that are drawn for them
abbrev pub drawn : List String → List TriagedChild → List NewChild
drawn (id ∷ ids) (c ∷ cs) =
    record { child_id = id; title = c.title; ticket = c.ticket; fingerprint = c.fingerprint }
    ∷ drawn ids cs
drawn _ _ = []

-- `TriageCoordinator.apply`; `ids` holds an id for each child.
unfoldable pub apply :
    Host → List String → String → TriageResult → Bool → ℕ → Ledger → Result (List String) × Ledger
unfolding check_proposal
apply host ids parent result project now db = elim (check_proposal parent result db) [
  | err e ↦ (err e, db)
  | ok _ ↦
      create_triaged_children host parent (drawn ids result.children) result.classification
        result.root_cause_evidence project now db
]

abbrev pub is_child : String → Ticket → Bool
is_child parent t = opt_eq t.parent_ticket_id parent

abbrev pub is_over : CanonicalState → Bool
is_over s = state_eq s accepted || state_eq s done || state_eq s rejected

unfoldable pub parent_is_paused : String → Ledger → Bool
parent_is_paused parent db =
    not
      (is_null (find_where (λ (t : Ticket). is_child parent t && not (is_over t.state)) db.tickets))

abbrev pub is_rejected : Ticket → Bool
is_rejected t = state_eq t.state rejected

abbrev pub is_settled : Ticket → Bool
is_settled t = state_eq t.state accepted || state_eq t.state done

-- The parent moves, or the transition raises.
abbrev pub moved : Result (Unit {0}) × Ledger → Result Bool × Ledger
moved r = after_call r (λ _ db. (ok true, db))

-- `TriageCoordinator.resolve_parent`
unfoldable pub resolve_parent : Host → String → ℕ → Ledger → Result Bool × Ledger
unfolding parent_is_paused transition
resolve_parent host parent now db = elim (find_where (has_id parent) db.tickets) [
  | none ↦ (err (key_error parent), db)
  | some p ↦
      let children = select_where (is_child parent) db.tickets in
      if not (state_eq p.state needs_triage) || parent_is_paused parent db
      then (ok false, db)
      else (if is_nil children
          then (ok false, db)
          else (if any_where is_rejected children
              then moved (
                  transition host parent blocked "controller"
                    (("reason", text "triage_child_rejected") ∷ []) now db)
              else (if all_where is_settled children
                  then moved (
                      transition host parent ready_local "controller"
                        (("reason", text "triage_children_accepted")
                          ∷ ("requires_integration_revalidation", flag true)
                          ∷ [])
                        now db)
                  else (ok false, db))))
]
