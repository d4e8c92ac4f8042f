-- ===== src/Comments/Examples.antt =====
-- The theorems on comments at concrete inputs: a board that stores the comments it is given.
use text.Mathlib.TextLemmas.{append_cancel_left, append_cancel_right}
use local_first_orchestrator.Comments.Outbox.{claim_next_comment}
use local_first_orchestrator.Comments.Claim.{IsDue, Handed, claim_next_hands_out_oldest}
use local_first_orchestrator.Base.{
  Every, ◌⊎◌, ℕ, ◌*◌, ◌≤◌, min, String, ◌≡◌, refl, true, ◌&&◌, none, some, List, [], ◌∷◌, Host,
  arith, str_eq, Every, eq_iff, count_where, find_where, zero, suc,
}
use local_first_orchestrator.Ledger.{Ledger, Comment, empty_ledger, pending, delivered}
use local_first_orchestrator.Comments.Delivery.{
  CommentAdapter, CommentDeliveryPolicy, returned, MarkerLookup, found, not_found, marker,
  retry_delay,
}
use local_first_orchestrator.Comments.Settled.{Holds}
use local_first_orchestrator.Comments.Runs.{Call, turns, settled_comment_stays, retry_backoff}
use local_first_orchestrator.Comments.Once.{IsTruthful, IsMarked, posted_once}

abbrev host : Host
host = record {
  digest = λ s. s;
  redact_error = λ s. s;
  redact_evidence = λ s. s;
  stable_error = λ s. s;
}

abbrev policy : CommentDeliveryPolicy
policy = record {
  lease_seconds = 60;
  max_attempts = 3;
  base_retry_delay = 10;
  max_retry_delay = 300;
  error_length_limit = 500;
  writes_enabled = true;
}

abbrev Board : Type 0
Board = List (String × String)

abbrev posts : String → String → Board → ℕ
posts task m b = count_where (λ c. str_eq c.0 task && str_eq c.1 m) b

abbrev answer : ℕ → MarkerLookup
answer zero = not_found
answer (suc n) = found

abbrev adapter : CommentAdapter Board
adapter = record {
  writes_enabled = true;
  find_comment_marker = λ task m b. answer (posts task m b);
  deliver_comment = λ task comment key b. (returned, (task, comment) ∷ b);
}

answer_zero : (n : ℕ) → answer n ≡ not_found → n ≡ 0
answer_zero zero h = refl
answer_zero (suc n) h = absurd (cc)

adapter-IsTruthful : IsTruthful adapter str_eq posts
unfolding count_where
adapter-IsTruthful = record {
  lookup = λ task m b h. answer_zero _ h;
  deliver = λ task payload key task' m b. omega arith;
}

marker_inj : (a b : String) → marker a ≡ marker b → a ≡ b
marker_inj a b h =
    append_cancel_right a b " -->" (append_cancel_left "<!-- local-first-comment:" _ _ h)

abbrev queued : Comment
queued = record {
  operation_id = "op";
  ticket_id = "ticket";
  event_id = 1;
  external_task_id = "ticket";
  idempotency_key = "evidence-comment:ticket:1";
  payload = marker "op";
  status = pending;
  attempt_count = 0;
  lease_owner = none;
  lease_expires_at = none;
  next_attempt_at = none;
  last_error = none;
  created_at = 3;
  updated_at = 3;
  delivered_at = none;
  terminal_owner = none;
}

abbrev waiting : Ledger
waiting = record empty_ledger { comments = queued ∷ [] }

abbrev call : ℕ → Call
call now = record { worker_id = "worker"; now = now; ticket = none; policy = policy }

queued-IsMarked : Every (IsMarked str_eq) waiting.comments
queued-IsMarked = (λ id h. marker_inj "op" id ((eq_iff (marker "op") (marker id)).0 h), tt)

posted_once_example :
    posts "ticket" (marker "op") (turns host adapter (call 5 ∷ call 6 ∷ []) (waiting, [])).1 ≤ 1
unfolding count_where
posted_once_example =
    posted_once host adapter str_eq posts adapter-IsTruthful (call 5 ∷ call 6 ∷ []) waiting []
      queued-IsMarked (λ task id. omega arith) "ticket" "op"

abbrev done_comment : Comment
done_comment = record queued {
  status = delivered;
  delivered_at = some 4;
  terminal_owner = some "worker";
}

abbrev finished : Ledger
finished = record empty_ledger { comments = done_comment ∷ [] }

finished-Holds : Holds "op" done_comment finished
unfolding find_where
finished-Holds = record { there = refl; settled = refl }

settled_comment_stays_example :
    Holds "op" done_comment (turns host adapter (call 5 ∷ []) (finished, [])).0
settled_comment_stays_example =
    settled_comment_stays host adapter (call 5 ∷ []) finished [] "op" done_comment finished-Holds

retry_backoff_example :
    (retry_delay policy 1 ≡ 10)
    × (retry_delay policy 4 ≡ min 300 (2 * retry_delay policy 3))
    × (10 ≤ retry_delay policy 3)
    × (retry_delay policy 3 ≤ 300)
retry_backoff_example = retry_backoff policy 2 refl

claim_next_hands_out_oldest_example :
    ((claim_next_comment "worker" 60 5 none waiting ≡ (none, waiting))
      × Every (λ c. ¬ IsDue 5 none c) waiting.comments)
    ⊎ ((c : Comment) × Handed "worker" 60 5 none waiting c)
unfolding count_where
claim_next_hands_out_oldest_example =
    claim_next_hands_out_oldest "worker" 60 5 none waiting (λ id. ground arith) refl
