-- ===== src/Stages/Examples.antt =====
-- The theorems on claims at concrete inputs.
use local_first_orchestrator.Base.{
  String, ◌≡◌, refl, true, none, some, List, [], ◌∷◌, ok, Host, find_where, count_where,
  update_where, first_by, has_text, select_where, strip, is_blank, lower,
}
use local_first_orchestrator.States.{draft}
use local_first_orchestrator.Ledger.{Ledger, Ticket, StageClaim, claimed, empty_ledger}
use local_first_orchestrator.Ledger.Identity.{resolve_external_task_id}
use local_first_orchestrator.Projections.Outbox.{supersede_older}
use local_first_orchestrator.Contract.Paths.{split, normalized_repository_path}
use local_first_orchestrator.Contract.Languages.{language_for, is_test_path, at_last_dot}
use local_first_orchestrator.Contract.Readiness.{validate_ticket}
use local_first_orchestrator.Stages.Readiness.{ticket_from_ledger}
use local_first_orchestrator.Stages.Effect.{
  ready_result, apply_scheduler_readiness_effect, claim_next_scheduler_readiness,
}
use local_first_orchestrator.Stages.Claims.{
  get_claim, begin_scheduler_claim_effect, complete_scheduler_claim,
}
use local_first_orchestrator.Stages.Reconciliation.{
  no_identity, replay, stop, Decision, retry, not_started, reservation_for, stage_family,
}
use local_first_orchestrator.Stages.Decide.{
  scheduler_reconciliation, decide_claim, decide_started, decide_paid,
}
use local_first_orchestrator.Stages.Phases.{Steps, view, ended}
use local_first_orchestrator.Stages.Refinement.{
  ClaimCall, claim_next, begin_effect, apply_effect, complete, has_run, after_claim_calls,
  claims_refined, started_once,
}
use local_first_orchestrator.Stages.Decide.{decide_started, decide_other}
use local_first_orchestrator.Stages.Reconciliation.{replay, stop, stage_family}
use local_first_orchestrator.Stages.Policies.{started_action, decided}
use local_first_orchestrator.Stages.Safety.{IsRepeatable, redo_permitted}

abbrev host : Host
host = record {
  digest = λ s. s;
  redact_error = λ s. s;
  redact_evidence = λ s. s;
  stable_error = λ s. s;
}

abbrev claim : StageClaim
claim = record {
  claim_id = "claim";
  ticket_id = "t1";
  stage = "paid_checkpoint";
  status = claimed;
  lease_owner = some "worker";
  lease_expires_at = some 100;
  attempt_count = 1;
  result = none;
  last_error = none;
  side_effect_started_at = none;
  side_effect_completed_at = none;
  finalized_at = none;
  identity = none;
  created_at = 1;
  updated_at = 1;
}

abbrev leased : Ledger
leased = record empty_ledger { stage_claims = claim ∷ [] }

abbrev begun_claim : StageClaim
begun_claim = record claim { side_effect_started_at = some 5 }

abbrev begun : Ledger
begun = record empty_ledger { stage_claims = begun_claim ∷ [] }

-- A draft that is bound, whose contract can be executed
abbrev ticket : Ticket
ticket = record {
  id = "t1";
  external_id = some "card";
  parent_ticket_id = none;
  tranche_id = none;
  title = "a ticket";
  feature_id = none;
  depth = 0;
  objective = some "Return the sum of two numbers";
  criterion_ids = "c1" ∷ [];
  primary_symbol = some "a.py::add";
  allowed_files = "a.py" ∷ [];
  create_files = [];
  new_test_files = "tests/test_a.py" ∷ [];
  forbidden_changes = "b.py" ∷ [];
  patch_budget = record { max_files = none; max_changed_lines = none; exception_reason = none };
  verification = record {
    commands = some (("pytest" ∷ []) ∷ []);
    working_directory = none;
    timeout_seconds = none;
    output_limit = none;
  };
  risk = some "low";
  review_required = true;
  max_attempts = 2;
  dependencies = [];
  state = draft;
  lease_owner = none;
  lease_expires_at = none;
  created_at = 1;
  updated_at = 1;
}

abbrev drafted : Ledger
drafted = record empty_ledger {
  tickets = ticket ∷ [];
  bindings =
      record {
        ticket_id = "t1";
        repository_path = "/repository";
        starting_sha = "abc";
        canonical_sha = none;
        ownership_verified = true;
        created_at = 1;
      }
      ∷ [];
}

abbrev made_claim : String
made_claim = "dependency_readiness:t1"

-- The whole life of a claim, with a second worker that comes too early.
abbrev calls : List ClaimCall
calls =
    claim_next "worker" 60 5 none
    ∷ begin_effect made_claim "other" 6
    ∷ begin_effect made_claim "worker" 7
    ∷ apply_effect made_claim "worker" 8
    ∷ complete made_claim "worker" ready_result 9
    ∷ []

claims_refined_example :
    Steps (view made_claim drafted) (view made_claim (after_claim_calls host calls drafted))
claims_refined_example = claims_refined host calls made_claim drafted

ended_test : view made_claim (after_claim_calls host calls drafted) ≡ ended
unfolding view after_claim_calls begin_scheduler_claim_effect complete_scheduler_claim
    apply_scheduler_readiness_effect claim_next_scheduler_readiness find_where count_where
    update_where first_by resolve_external_task_id supersede_older ticket_from_ledger
    validate_ticket normalized_repository_path split has_text select_where strip is_blank lower
    language_for is_test_path at_last_dot
ended_test = refl

has_run_test : has_run (view "claim" begun) ≡ true
unfolding view find_where
has_run_test = refl

started_once_example :
    (let later = after_claim_calls host calls begun in
      (has_run (view "claim" later) ≡ true)
      × ((c : StageClaim) × (get_claim "claim" later ≡ some c)
          × (begin_scheduler_claim_effect "claim" "other" 9 later ≡ (ok c, later))))
started_once_example = started_once host calls "claim" "other" 9 begun has_run_test

abbrev retry_decision : Decision
retry_decision = record {
  claim_id = "claim";
  ticket_id = "t1";
  stage = "paid_checkpoint";
  state = not_started;
  action = retry;
  evidence_kind = "paid_reservations";
  reason = "no paid reservation exists, so no provider side effect was authorized";
  evidence = [];
}

found_test : get_claim "claim" begun ≡ some begun_claim
unfolding find_where
found_test = refl

decision_test : scheduler_reconciliation "claim" begun ≡ ok retry_decision
unfolding scheduler_reconciliation find_where decide_claim decide_started decide_paid
    reservation_for first_by stage_family
decision_test = refl

redo_permitted_example : IsRepeatable begun begun_claim
redo_permitted_example =
    redo_permitted "claim" begun begun_claim retry_decision found_test decision_test refl

-- A stage that its policy lets be replayed, and that the reconciliation stops
readiness_policy_test :
    (started_action "dependency_readiness" ≡ some replay)
    × (decided "dependency_readiness" begun_claim no_identity begun ≡ stop)
unfolding started_action find_where decide_started decide_other stage_family
readiness_policy_test = (refl, refl)
