-- ===== src/Triage/Proposal.antt =====
-- local_first_orchestrator/triage.py: the check of a proposal before it may reach the ledger.
use Prim.Native.String.{◌++◌}
use local_first_orchestrator.Base.{
  ℕ, String, Bool, not, ◌&&◌, ◌||◌, Option, none, some, List, [], ◌∷◌, Result, ok, err, Error,
  value_error, key_error, permission_error, runtime_error, type_error, integrity_error, ltb, leb,
  str_eq, is_nil, contains, is_within, strip, count, coalesce, if◌then◌else◌, Host, dumps,
  json_object, field, no_fields,
}
use local_first_orchestrator.Contract.{MicroTicket, patch_budget_policy}
use local_first_orchestrator.Contract.Readiness.{validate_ticket}
use local_first_orchestrator.Contract.Serial.{TicketContract, contract, ticket_from_contract}
use local_first_orchestrator.Contract.Encoded.{contract_fields, texts_json}

-- The payload, an object whose members have the types that the planner asks for: the tests that a value is
-- an object or a list, and `str`, are not written out. A name that is missing is `none`.
pub record ChildPayload : Type 0 where
  pub id : Option String
  pub resolves_criteria : Option (List String)
  pub ticket : Option TicketContract

pub record TriagePayload : Type 0 where
  pub classification : Option String
  pub root_cause_evidence : Option String
  pub recommended_action : Option String
  pub children : Option (List ChildPayload)

pub record TriagedChild : Type 0 where
  pub title : String
  pub resolves_criteria : List String
  pub ticket : MicroTicket
  pub fingerprint : String

pub record TriageResult : Type 0 where
  pub classification : String
  pub root_cause_evidence : String
  pub recommended_action : String
  pub children : List TriagedChild

-- `_CLASSIFICATIONS_WITH_CHILDREN`
abbrev pub classifications_with_children : List String
classifications_with_children = "oversized_ticket" ∷ []

-- `_CLASSIFICATIONS`
abbrev pub classifications : List String
classifications =
    "oversized_ticket" ∷ "missing_context" ∷ "architecture_gap" ∷ "environment_failure"
    ∷ "invalid_ticket_contract" ∷ "credential_or_service_failure" ∷ "flaky_test" ∷ "merge_conflict"
    ∷ "model_failure" ∷ "non_convergent_defect" ∷ []

-- `_fingerprint`
unfoldable pub fingerprint_of : Host → MicroTicket → List String → String
unfolding dumps contract_fields contract
fingerprint_of host ticket resolves = host.digest (
    dumps (
      json_object (
        field "contract" (json_object (contract_fields (contract ticket)))
          (field "resolves_criteria" (texts_json resolves) no_fields))))

-- A `TriageError`, which is a `ValueError`
abbrev pub refuse : {A : Type 0} → String → Result A
refuse why = err (value_error why)

abbrev pub guard : {A : Type 0} → Bool → String → Result A → Result A
guard ok_so_far why rest = if ok_so_far then rest else refuse why

abbrev pub and_then : {A B : Type 0} → Result A → (A → Result B) → Result B
and_then (ok a) k = k a
and_then (err e) k = err e

-- Whether the child's criteria are unresolved ones of the parent
abbrev pub maps_unresolved : List String → List String → Bool
maps_unresolved unresolved resolves = not (is_nil resolves) && is_within resolves unresolved

-- `str(exc)`
abbrev message : Error → String
message (value_error s) = s
message (key_error s) = s
message (permission_error s) = s
message (runtime_error s) = s
message (type_error s) = s
message integrity_error = ""

abbrev pub as_not_ready : {A : Type 0} → String → Result A → Result A
as_not_ready prefix (ok a) = ok a
as_not_ready prefix (err e) = refuse (prefix ++ message e)

-- `str(raw.get("id") or ticket.ticket_id)`
abbrev title_of : Option String → String → String
title_of none ticket_id = ticket_id
title_of (some id) ticket_id = if str_eq id "" then ticket_id else id

-- The checks of a child's contract
unfoldable pub check_child :
    Host → List String → List String → Option String → MicroTicket → Result TriagedChild
unfolding fingerprint_of
check_child host resolves seen id ticket =
    guard (is_within ticket.criterion_ids resolves) "child contract expands parent criterion scope"
      (and_then (as_not_ready "child is not ready: " (validate_ticket patch_budget_policy ticket))
        (λ _.
          guard (not (contains (fingerprint_of host ticket resolves) seen))
            "duplicate child fingerprint"
            (ok (record {
              title = title_of id ticket.ticket_id;
              resolves_criteria = resolves;
              ticket = ticket;
              fingerprint = fingerprint_of host ticket resolves;
            }))))

abbrev pub read_ticket : Option TicketContract → Result MicroTicket
read_ticket none = refuse "child ticket must be an object"
read_ticket (some fields) = ticket_from_contract fields

-- One child, beside the fingerprints of those before it
unfoldable pub normalize_child :
    Host → List String → List String → ChildPayload → Result TriagedChild
unfolding check_child
normalize_child host unresolved seen raw =
    let resolves = coalesce raw.resolves_criteria [] in
    guard (maps_unresolved unresolved resolves) "child must map only unresolved parent criteria"
      (and_then (read_ticket raw.ticket) (check_child host resolves seen raw.id))

unfoldable pub normalize_children :
    Host → List String → List String → List ChildPayload → Result (List TriagedChild)
unfolding normalize_child
normalize_children host unresolved seen [] = ok []
normalize_children host unresolved seen (raw ∷ raws) =
    and_then (normalize_child host unresolved seen raw) (λ child.
      and_then (normalize_children host unresolved (child.fingerprint ∷ seen) raws)
        (λ children. ok (child ∷ children)))

-- `unresolved` is the argument `unresolved_criteria`, the parent's criteria where it is not given.
unfoldable pub normalize_triage :
    Host → TriagePayload → MicroTicket → ℕ → ℕ → ℕ → Option (List String) → Result TriageResult
unfolding normalize_children
normalize_triage host payload parent parent_depth max_children max_depth unresolved =
    let classification = strip (coalesce payload.classification "") in
    let evidence = strip (coalesce payload.root_cause_evidence "") in
    let action = strip (coalesce payload.recommended_action "") in
    let raws = coalesce payload.children [] in
    guard (contains classification classifications && not (str_eq evidence ""))
      "classification and root cause evidence are required"
      (guard (contains action ("decompose" ∷ "block" ∷ "checkpoint" ∷ []))
        "recommended action is invalid"
        (guard (leb (count raws) max_children) "children exceed maximum" (
          guard
            (is_nil raws
              || contains classification classifications_with_children && str_eq action "decompose")
            "classification must not create children"
            (guard (not (str_eq action "decompose" && is_nil raws))
              "decomposition requires children"
              (guard (is_nil raws || ltb parent_depth max_depth)
                "maximum decomposition depth reached"
                (and_then
                  (normalize_children host (coalesce unresolved parent.criterion_ids) [] raws)
                  (λ children. ok (record {
                    classification = classification;
                    root_cause_evidence = evidence;
                    recommended_action = action;
                    children = children;
                  }))))))))
