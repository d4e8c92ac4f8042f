-- ===== src/Governor/Approve.antt =====
-- local_first_orchestrator/usage_governor.py: `approve`.
use local_first_orchestrator.Base.{
  ℕ, String, Bool, not, ◌&&◌, none, some, [], ◌∷◌, Tx, Result, value_error, integrity_error, ◌>>=◌,
  ◌>>◌, pure, gets, modify, require, transaction, str_eq, is_blank, is_null, find_where, ◌==◌,
}
use local_first_orchestrator.Ledger.{Ledger, num, text, PaidPurpose, PaidApproval, append_event}
use local_first_orchestrator.Governor.Requests.{Approval, purpose_text, approves, feature_event}

abbrev pub approval_key : String → PaidApproval → Bool
approval_key key a = str_eq a.idempotency_key key

abbrev pub new_approval :
    String → String → PaidPurpose → String → String → String → ℕ → ℕ → PaidApproval
new_approval id feature purpose actor reason key calls now = record {
  id = id;
  feature_id = feature;
  purpose = purpose;
  calls = calls;
  actor_id = actor;
  reason = reason;
  idempotency_key = key;
  created_at = now;
}

abbrev pub approval_of : PaidApproval → Approval
approval_of a = record {
  approval_id = a.id;
  feature_id = a.feature_id;
  purpose = a.purpose;
  calls = a.calls;
}

-- INSERT under PRIMARY KEY(id); UNIQUE(idempotency_key) holds where it is called.
abbrev pub insert_approval : PaidApproval → Tx Ledger (Unit {0})
insert_approval row = do
  taken ← gets (λ db. find_where (λ (a : PaidApproval). str_eq a.id row.id) db.approvals)
  require (is_null taken) integrity_error
  modify (λ db. record db { approvals = row ∷ db.approvals })

unfoldable pub approve_body :
    String → PaidPurpose → String → String → String → ℕ → String → ℕ → Tx Ledger Approval
approve_body feature purpose actor reason key calls fresh now = do
  require (calls == 1 && not (is_blank reason) && not (is_blank key))
      (value_error "approval must grant exactly one purpose-specific call")
  existing ← gets (λ db. find_where (approval_key key) db.approvals)
  elim existing [
    | some a ↦ do
      require (approves feature purpose a) (value_error "approval idempotency key conflicts")
      pure (record { approval_id = a.id; feature_id = feature; purpose = purpose; calls = a.calls })
    | none ↦ do
      insert_approval (new_approval fresh feature purpose actor reason key calls now)
      feature_event feature "paid_approved" actor
          (("approval_id", text fresh)
            ∷ ("purpose", text (purpose_text purpose))
            ∷ ("calls", num calls)
            ∷ ("reason", text reason)
            ∷ [])
          now
      pure (approval_of (new_approval fresh feature purpose actor reason key calls now))
  ]

unfoldable pub approve :
    String
    → PaidPurpose
    → String
    → String
    → String
    → ℕ
    → String
    → ℕ
    → Ledger
    → Result Approval × Ledger
unfolding transaction approve_body append_event
approve feature purpose actor reason key calls fresh now =
    transaction (approve_body feature purpose actor reason key calls fresh now)
