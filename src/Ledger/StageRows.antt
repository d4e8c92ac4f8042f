-- ===== src/Ledger/StageRows.antt =====
-- The rows of the tables of `ledger.py` that the stages of a ticket, their evidence and triage are kept in.
use local_first_orchestrator.Base.{ℕ, String, Bool, Option}

-- `finalized` is the status that is spelled completed.
pub data ClaimStatus : Type 0 where
  claimed finalized failed : ClaimStatus

-- The members of `candidate_identity_json` that are read here. The attempt number is `none` unless it is an
-- integer, and the other ones where they are missing, or null.
pub record ClaimIdentity : Type 0 where
  pub attempt_number : Option ℕ
  pub implementation_diff_hash : Option String
  pub tranche_id : Option String
  pub predecessor_tranche_id : Option String
  pub successor_tranche_id : Option String

-- A text that is no JSON, or an object
pub data CandidateIdentity : Type 0 where
  malformed : CandidateIdentity
  identified : ClaimIdentity → CandidateIdentity

-- scheduler_stage_claims. `result` and `identity` hold JSON texts: the identity is `none` where it is NULL
-- or empty.
pub record StageClaim : Type 0 where
  pub claim_id : String
  pub ticket_id : String
  pub stage : String
  pub status : ClaimStatus
  pub lease_owner : Option String
  pub lease_expires_at : Option ℕ
  pub attempt_count : ℕ
  pub result : Option String
  pub last_error : Option String
  pub side_effect_started_at : Option ℕ
  pub side_effect_completed_at : Option ℕ
  pub finalized_at : Option ℕ
  pub identity : Option CandidateIdentity
  pub created_at : ℕ
  pub updated_at : ℕ

-- runtime_bindings, the columns that are read here
pub record RuntimeBinding : Type 0 where
  pub ticket_id : String
  pub repository_path : String
  pub starting_sha : String
  pub canonical_sha : Option String
  pub ownership_verified : Bool
  pub created_at : ℕ

-- accepted_evidence, the columns that are read here
pub record AcceptedEvidence : Type 0 where
  pub ticket_id : String
  pub accepted_commit_sha : String

pub data InvocationStatus : Type 0 where
  started finished timed_out process_error malformed_output : InvocationStatus

-- model_invocations, the columns that are read here
pub record ModelInvocation : Type 0 where
  pub invocation_id : String
  pub ticket_id : String
  pub attempt_number : ℕ
  pub stage : String
  pub started_at : ℕ
  pub status : InvocationStatus

-- review_retry_authorizations, the columns that are read here
pub record RetryAuthorization : Type 0 where
  pub authorization_id : String
  pub ticket_id : String
  pub attempt_number : ℕ
  pub candidate_fingerprint : String
  pub failed_invocation_id : String
  pub authorized_at : ℕ
  pub consumed_invocation_id : Option String

-- git_commit_intents, the columns that are read here
pub record GitIntent : Type 0 where
  pub ticket_id : String
  pub status : String
  pub commit_sha : Option String

-- git_commit_evidence, the columns that are read here
pub record GitCommit : Type 0 where
  pub ticket_id : String
  pub commit_sha : String

-- The stages' own tables of evidence (tranche_checkpoint_evidence, next_tranche_materializations,
-- next_tranche_activation_evidence, native_dependency_graphs and native_dependency_releases): a row by its
-- table and the key that it is found by
pub record StageEvidence : Type 0 where
  pub table : String
  pub key : String

-- failed_attempt_reconciliations, the columns that are read here
pub record RetiredAttempt : Type 0 where
  pub ticket_id : String
  pub retired_attempt_number : ℕ

pub record TriageChild : Type 0 where
  pub parent_ticket_id : String
  pub child_ticket_id : String
  pub fingerprint : String
  pub created_at : ℕ

pub record TicketCriterion : Type 0 where
  pub ticket_id : String
  pub criterion_id : String
