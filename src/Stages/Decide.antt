-- ===== src/Stages/Decide.antt =====
-- local_first_orchestrator/ledger.py: `scheduler_reconciliation`, from a claim's row and the evidence of its
-- stage.
use local_first_orchestrator.Base.{
  String, Bool, not, ◌&&◌, ◌||◌, Option, none, some, [], ◌∷◌, Result, ok, err, key_error, str_eq,
  is_null, contains, if◌then◌else◌, find_where,
}
use local_first_orchestrator.Ledger.{
  Ledger, StageClaim, ClaimIdentity, CandidateIdentity, malformed, identified, GitIntent, GitCommit,
  StageEvidence, flag, text,
}
use local_first_orchestrator.Stages.Claims.{is_finalized, get_claim}
use local_first_orchestrator.Stages.Readiness.{is_set}
use local_first_orchestrator.Stages.Reconciliation.{
  Decision, not_started, started_external_outcome_unknown,
  external_effect_completed_local_incomplete, local_stage_completion_recorded_downstream_incomplete,
  fully_finalized, resume, replay, reconcile, retry, stop, decide, stage_family, board_pending,
  comment_pending, last_invocation, decide_invocation, reservation_for, decide_reservation,
  no_identity, or_null,
}

abbrev git_intent : String → Ledger → Option GitIntent
git_intent ticket db = find_where (λ (i : GitIntent). str_eq i.ticket_id ticket) db.git_intents

abbrev git_commit : String → Ledger → Option GitCommit
git_commit ticket db = find_where (λ (i : GitCommit). str_eq i.ticket_id ticket) db.git_commits

unfoldable pub decide_git : StageClaim → Ledger → Decision
decide_git c db = elim (git_commit c.ticket_id db) [
  | some commit ↦
      decide c external_effect_completed_local_incomplete reconcile "git_commit_evidence"
        "accepted commit evidence already exists; finalize/reconcile without another commit"
        (("commit_sha", text commit.commit_sha) ∷ [])
  | none ↦ elim (git_intent c.ticket_id db) [
    | some intent ↦
        decide c started_external_outcome_unknown replay "git_commit_intents"
          "Git mutation may have occurred; replay exact commit reconciliation from durable intent"
          (("intent_status", text intent.status)
            ∷ ("commit_sha", or_null text intent.commit_sha)
            ∷ [])
    | none ↦
        decide c started_external_outcome_unknown replay "git_commit_intents"
          "no durable Git mutation intent exists; replay pre-mutation verification safely" []
  ]
]

-- The table of a stage with evidence of its own, and the key of its row
abbrev pub evidence_table : StageClaim → ClaimIdentity → String → Option (String × Option String)
evidence_table c identity family =
    if str_eq family "tranche_checkpoint"
    then some ("tranche_checkpoint_evidence", identity.tranche_id)
    else (if str_eq family "next_tranche_materialize"
        then some ("next_tranche_materializations", identity.predecessor_tranche_id)
        else (if str_eq family "next_tranche_activation"
            then some ("next_tranche_activation_evidence", identity.successor_tranche_id)
            else (if str_eq family "native_dependency_graph"
                then some ("native_dependency_graphs", some c.ticket_id)
                else (if str_eq family "native_dependency_release"
                    then some ("native_dependency_releases", some c.ticket_id)
                    else none))))

-- The table with a key that is set
abbrev pub with_key : Option (String × Option String) → Option (String × String)
with_key none = none
with_key (some (table, none)) = none
with_key (some (table, some key)) = if is_set (some key) then some (table, key) else none

abbrev is_evidence : String → String → StageEvidence → Bool
is_evidence table key e = str_eq e.table table && str_eq e.key key

abbrev pub decide_evidence : StageClaim → String → String → Ledger → Decision
decide_evidence c table key db =
    if is_null (find_where (is_evidence table key) db.stage_evidence)
    then decide c started_external_outcome_unknown replay table
        "stage uses exact/idempotent reconciliation; replay against authoritative external/local evidence"
        (("identity", text key) ∷ [])
    else decide c external_effect_completed_local_incomplete reconcile table
        "authoritative stage evidence exists; reconcile scheduler completion from durable evidence"
        (("identity", text key) ∷ [])

-- A stage without model, provider or git
unfoldable pub decide_other : StageClaim → ClaimIdentity → String → Ledger → Decision
decide_other c identity family db = elim (with_key (evidence_table c identity family)) [
  | some (table, key) ↦ decide_evidence c table key db
  | none ↦
      if contains family ("validation" ∷ "repair_routing" ∷ "acceptance" ∷ "completion" ∷ [])
      then decide c started_external_outcome_unknown replay "scheduler_stage_claims"
          "stage is deterministic/local and can safely replay from frozen claim identity" []
      else decide c started_external_outcome_unknown stop "scheduler_stage_claims"
          "stage outcome cannot be classified safely from registered durable evidence" []
]

abbrev pub is_model_family : String → Bool
is_model_family family = contains family ("implementation" ∷ "review" ∷ "triage" ∷ [])

abbrev pub is_paid_family : String → Bool
is_paid_family family = contains family ("paid_checkpoint" ∷ "paid_escalation" ∷ [])

unfoldable pub decide_paid : StageClaim → Ledger → Decision
decide_paid c db = elim (reservation_for c.claim_id db) [
  | some r ↦ decide_reservation c r r.status
  | none ↦
      decide c not_started retry "paid_reservations"
        "no paid reservation exists, so no provider side effect was authorized" []
]

abbrev pub after_model : StageClaim → ClaimIdentity → String → Ledger → Decision
after_model c identity family db =
    if is_paid_family family
    then decide_paid c db
    else (if str_eq family "git_integration"
        then decide_git c db
        else decide_other c identity family db)

-- An effect that was started, and is not known to have completed. A stage of a model without an invocation
-- goes on to the evidence of the other stages.
unfoldable pub decide_started : StageClaim → ClaimIdentity → Ledger → Decision
unfolding decide_other decide_paid decide_git
decide_started c identity db =
    let family = stage_family c.stage in
    if is_model_family family
    then elim (last_invocation c.ticket_id identity.attempt_number family db) [
      | some i ↦ decide_invocation c identity family i i.status db
      | none ↦ after_model c identity family db
    ]
    else after_model c identity family db

abbrev pub decide_identity : StageClaim → Option CandidateIdentity → Ledger → Decision
decide_identity c none db = decide_started c no_identity db
decide_identity c (some (identified identity)) db = decide_started c identity db
decide_identity c (some malformed) db =
    decide c started_external_outcome_unknown stop "scheduler_stage_claims"
      "claim identity is malformed and cannot be reconciled automatically" []

unfoldable pub decide_claim : StageClaim → Ledger → Decision
unfolding decide_started
decide_claim c db =
    if is_finalized c.status
    then (if board_pending c.ticket_id db || comment_pending c.ticket_id db
        then decide c local_stage_completion_recorded_downstream_incomplete resume "outbox"
            "local stage is finalized; downstream projection remains durable and independently retryable"
            (("board_pending", flag (board_pending c.ticket_id db))
              ∷ ("comment_pending", flag (comment_pending c.ticket_id db))
              ∷ [])
        else decide c fully_finalized resume "scheduler_stage_claims"
            "scheduler claim is fully finalized" [])
    else (if not (is_null c.side_effect_completed_at)
        then decide c external_effect_completed_local_incomplete reconcile "scheduler_stage_claims"
            "stage effect is durably completed but scheduler finalization is incomplete"
            (("result_json", or_null text c.result) ∷ [])
        else (if is_null c.side_effect_started_at
            then decide c not_started retry "scheduler_stage_claims"
                "claim exists but no side effect was durably started" []
            else decide_identity c c.identity db))

unfoldable pub scheduler_reconciliation : String → Ledger → Result Decision
unfolding decide_claim
scheduler_reconciliation id db = elim (get_claim id db) [
  | none ↦ err (key_error id)
  | some c ↦ ok (decide_claim c db)
]
