-- ===== src/Stages/Policies.antt =====
-- local_first_orchestrator/reconciliation.py: the registered crash policies, and what
-- `scheduler_reconciliation` of ledger.py decides of a started effect.
use local_first_orchestrator.Base.{String, Option, none, some, List, [], ◌∷◌, str_eq, find_where}
use local_first_orchestrator.Ledger.{Ledger, StageClaim, ClaimIdentity}
use local_first_orchestrator.Stages.Reconciliation.{ReconciliationAction, replay, stop}
use local_first_orchestrator.Stages.Decide.{decide_started}

-- `SchedulerCrashPolicy`; its other actions have their defaults, reconcile and resume, in each entry.
pub record SchedulerCrashPolicy : Type 0 where
  pub stage : String
  pub started_action : ReconciliationAction
  pub authority : String

-- `_policy`
abbrev policy : String → ReconciliationAction → String → SchedulerCrashPolicy
policy stage action authority = record {
  stage = stage;
  started_action = action;
  authority = authority;
}

abbrev claims_table : String
claims_table = "scheduler_stage_claims"

-- `SCHEDULER_CRASH_POLICIES`
abbrev pub scheduler_crash_policies : List SchedulerCrashPolicy
scheduler_crash_policies =
    policy "generated_projection" replay "board_projection_outbox"
    ∷ policy "state_projection" replay "board_projection_outbox"
    ∷ policy "evidence_comment" replay "evidence_comment_outbox"
    ∷ policy "implementation" stop "model_invocations"
    ∷ policy "validation" replay claims_table
    ∷ policy "review" stop "model_invocations"
    ∷ policy "repair_routing" replay claims_table
    ∷ policy "ticket_paid_escalation" stop "paid_reservations"
    ∷ policy "triage" stop "model_invocations"
    ∷ policy "acceptance" replay claims_table
    ∷ policy "git_integration" replay "git_commit_intents"
    ∷ policy "completion" replay claims_table
    ∷ policy "worktree_cleanup" replay "runtime_stages"
    ∷ policy "native_dependency_graph" replay "native_dependency_graphs"
    ∷ policy "native_dependency_release" replay "native_dependency_releases"
    ∷ policy "tranche_checkpoint" replay "tranche_checkpoint_evidence"
    ∷ policy "paid_checkpoint" stop "paid_reservations"
    ∷ policy "paid_escalation" stop "paid_reservations"
    ∷ policy "tranche_landing" replay "tranche_landing_evidence"
    ∷ policy "next_tranche_materialize" replay "next_tranche_materializations"
    ∷ policy "next_tranche_activation" replay "next_tranche_activation_evidence"
    ∷ policy "dependency_readiness" replay claims_table
    ∷ []

abbrev action_of : Option SchedulerCrashPolicy → Option ReconciliationAction
action_of none = none
action_of (some p) = some p.started_action

unfoldable pub started_action : String → Option ReconciliationAction
started_action stage =
    action_of
      (find_where (λ (p : SchedulerCrashPolicy). str_eq p.stage stage) scheduler_crash_policies)

-- A ledger without evidence of any stage
abbrev pub bare : Ledger → Ledger
bare db = record db {
  invocations = [];
  reservations = [];
  git_commits = [];
  git_intents = [];
  stage_evidence = [];
}

abbrev pub decided : String → StageClaim → ClaimIdentity → Ledger → ReconciliationAction
decided stage c identity db =
    (decide_started (record c { stage = stage }) identity (bare db)).action
