-- ===== src/Comments/Runs.antt =====
-- local_first_orchestrator/comment_delivery.py: any sequence of turns of delivery workers, each with
-- its own arguments. A turn that a crash ends leaves what it has written.
use native.Mathlib.Nat.{mul-le-mul_left, mul_left_comm}
use local_first_orchestrator.Base.{
  ℕ, ◌+◌, ◌*◌, ◌^◌, ◌≤◌, zero, suc, min, ◌-◌, String, ◌≡◌, Option, List, [], ◌∷◌, Host, true, arith,
}
use local_first_orchestrator.Ledger.{Ledger, Comment}
use local_first_orchestrator.Comments.Delivery.{
  CommentAdapter, CommentDeliveryPolicy, is_accepted, retry_delay, deliver_one,
}
use local_first_orchestrator.Comments.Settled.{
  Holds, claim_next_comment-Holds, mark_comment_delivered-Holds, mark_comment_retryable-Holds,
  mark_comment_permanently_failed-Holds, recover-Holds, resolve-Holds,
}
use local_first_orchestrator.Comments.Turns.{IsKept, deliver_one-kept}

pub record Call : Type 0 where
  pub worker_id : String
  pub now : ℕ
  pub ticket : Option String
  pub policy : CommentDeliveryPolicy

module _ {B : Type 0} (host : Host) (adapter : CommentAdapter B) where
  -- The ledger and the board after the turn.
  abbrev pub turn : Call → Ledger × B → Ledger × B
  turn c s =
      let t = deliver_one host adapter c.policy c.worker_id c.now c.ticket s.0 s.1 in (t.1, t.2)

  unfoldable pub turns : List Call → Ledger × B → Ledger × B
  turns [] s = s
  turns (c ∷ cs) s = turns cs (turn c s)

  pub turns-kept :
      (P : Ledger → Type 0) (k : IsKept P) (cs : List Call) (s : Ledger × B)
      → P s.0
      → P (turns cs s).0
  unfolding turns
  turns-kept P k [] s p = p
  turns-kept P k (c ∷ cs) s p =
      turns-kept P k cs (turn c s)
        (deliver_one-kept P k host adapter c.policy c.worker_id c.now c.ticket s.0 s.1 p)

settled-IsKept : (id : String) (c : Comment) → IsKept (Holds id c)
settled-IsKept id c = record {
  claim = claim_next_comment-Holds id c;
  delivered = mark_comment_delivered-Holds id c;
  retryable = mark_comment_retryable-Holds id c;
  failed_for_good = mark_comment_permanently_failed-Holds id c;
  recovered = recover-Holds id c;
  retargeted = resolve-Holds id c;
}

-- Whatever the board answers, a comment that was delivered or has failed for good keeps its row, with
-- every column as it is, through any turns of any workers.
pub settled_comment_stays :
    {B : Type 0} (host : Host) (adapter : CommentAdapter B) (cs : List Call) (db : Ledger)
    (board : B) (id : String) (c : Comment)
    → Holds id c db
    → Holds id c (turns host adapter cs (db, board)).0
settled_comment_stays host adapter cs db board id c h =
    turns-kept host adapter (Holds id c) (settled-IsKept id c) cs (db, board) h

pow_pos : (n : ℕ) → 1 ≤ 2 ^ n
pow_pos zero = omega arith
pow_pos (suc n) = omega (arith, pow_pos n)

grows : (a b : ℕ) → 1 ≤ b → a ≤ a * b
grows a b h = let k : a * 1 ≤ a * b = mul-le-mul_left a h in omega arith

doubles : (m b e : ℕ) → min m (b * (2 * e)) ≡ min m (2 * min m (b * e))
doubles m b e =
    let twice : b * (2 * e) ≡ 2 * (b * e) = mul_left_comm b 2 e in rw twice (omega arith)

capped : (m b e : ℕ) → b ≤ m → 1 ≤ e → (b ≤ min m (b * e)) × (min m (b * e) ≤ m)
capped m b e fits pos = let k = grows b e pos in (omega arith, omega arith)

exponent : (n : ℕ) → n + 1 - 1 ≡ n
exponent n = omega arith

next_exponent : (n : ℕ) → 2 ^ (n + 2 - 1) ≡ 2 * 2 ^ n
next_exponent n = let e : n + 2 - 1 ≡ suc n = omega arith in rw e (omega arith)

-- The delay before the next attempt: after the first one it is the base delay, each further attempt
-- doubles it up to the maximum, and it stays between the two; for an accepted policy.
pub retry_backoff :
    (p : CommentDeliveryPolicy) (n : ℕ)
    → is_accepted p ≡ true
    → (retry_delay p 1 ≡ p.base_retry_delay)
      × (retry_delay p (n + 2) ≡ min p.max_retry_delay (2 * retry_delay p (n + 1)))
      × (p.base_retry_delay ≤ retry_delay p (n + 1))
      × (retry_delay p (n + 1) ≤ p.max_retry_delay)
unfolding retry_delay
retry_backoff p n h =
    let fits : p.base_retry_delay ≤ p.max_retry_delay = ground arith in
    let c = capped p.max_retry_delay p.base_retry_delay (2 ^ n) fits (pow_pos n) in
    (
      omega arith,
      rw (next_exponent n, exponent n) (doubles p.max_retry_delay p.base_retry_delay (2 ^ n)),
      rw (exponent n) c.0,
      rw (exponent n) c.1,
    )
