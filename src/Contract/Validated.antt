-- ===== src/Contract/Validated.antt =====
-- local_first_orchestrator/readiness.py: `validate_ticket` accepts the contracts that are ready, and no other.
use local_first_orchestrator.Base.{◌≡◌, ◌↔◌, refl, false, ok, ltb, count, arith, ◌≤◌}
use local_first_orchestrator.Contract.{MicroTicket, patch_budget_policy, declared_ticket_paths}
use local_first_orchestrator.Contract.Readiness.{is_unsafe, is_no_test, validate_ticket}
use local_first_orchestrator.Contract.Ready.{IsReady}
use local_first_orchestrator.Contract.Checks.{
  refuse_if-ok, refuse_if-pass, any_where-Every, Every-iff, is_unsafe_iff, is_no_test_iff,
  is_vague_iff, is_unbounded_iff, overlaps_iff, is_unchecked_iff, is_bad_risk_iff, budget_iff,
  is_nil-ne,
}

within_budget :
    (t : MicroTicket)
    → ltb t.patch_budget.max_files (count (declared_ticket_paths t)) ≡ false
    → count (declared_ticket_paths t) ≤ t.patch_budget.max_files
within_budget t h = ground arith

-- Whatever is returned, the contract is ready.
pub validated-IsReady :
    (t u : MicroTicket) → validate_ticket patch_budget_policy t ≡ ok u → IsReady t
unfolding validate_ticket
validated-IsReady t u h =
    let paths = declared_ticket_paths t in
    let a = refuse_if-ok _ _ _ h in
    let b = refuse_if-ok _ _ _ a.1 in
    let c = refuse_if-ok _ _ _ b.1 in
    let d = refuse_if-ok _ _ _ c.1 in
    let e = refuse_if-ok (ltb t.patch_budget.max_files (count paths)) _ _ d.1 in
    let f = refuse_if-ok _ _ _ e.1 in
    let g = refuse_if-ok _ _ _ f.1 in
    let i = refuse_if-ok _ _ _ g.1 in
    let j = refuse_if-ok _ _ _ i.1 in
    let k = refuse_if-ok _ _ _ j.1 in
    let clear = (is_vague_iff t).0 a.0 in
    let bounded = (is_unbounded_iff t).0 b.0 in
    let unchanged = (is_unchecked_iff t).0 i.0 in
    let risks = (is_bad_risk_iff t).0 j.0 in
    record {
      objective = clear.0;
      concrete = clear.1;
      criteria = bounded.0;
      symbol = bounded.1;
      declares = (is_nil-ne paths).0 c.0;
      disjoint = (overlaps_iff paths).0 d.0;
      few = within_budget t e.0;
      safe = (Every-iff paths is_unsafe_iff).0 ((any_where-Every is_unsafe paths).0 f.0);
      tests =
          (Every-iff t.new_test_files is_no_test_iff).0
            ((any_where-Every is_no_test t.new_test_files).0 g.0);
      forbidden = unchanged.0;
      commands = unchanged.1;
      risk = risks.0;
      attempts = risks.1;
      budget = (budget_iff t.patch_budget).0 k.0;
    }

ready-validated : (t : MicroTicket) → IsReady t → validate_ticket patch_budget_policy t ≡ ok t
unfolding validate_ticket
ready-validated t r =
    let paths = declared_ticket_paths t in
    let few : ltb t.patch_budget.max_files (count paths) ≡ false = ground (arith, r.few) in
    refuse_if-pass _ _ _ ((is_vague_iff t).1 (r.objective, r.concrete)) (
      refuse_if-pass _ _ _ ((is_unbounded_iff t).1 (r.criteria, r.symbol)) (
        refuse_if-pass _ _ _ ((is_nil-ne paths).1 r.declares) (
          refuse_if-pass _ _ _ ((overlaps_iff paths).1 r.disjoint) (
            refuse_if-pass _ _ _ few (
              refuse_if-pass _ _ _
                ((any_where-Every is_unsafe paths).1 ((Every-iff paths is_unsafe_iff).1 r.safe))
                (refuse_if-pass _ _ _
                  ((any_where-Every is_no_test t.new_test_files).1
                    ((Every-iff t.new_test_files is_no_test_iff).1 r.tests))
                  (refuse_if-pass _ _ _ ((is_unchecked_iff t).1 (r.forbidden, r.commands)) (
                    refuse_if-pass _ _ _ ((is_bad_risk_iff t).1 (r.risk, r.attempts))
                      (refuse_if-pass _ _ _ ((budget_iff t.patch_budget).1 r.budget) refl)))))))))

-- Under the repository's budget policy, `validate_ticket` returns a contract exactly if it is ready: its
-- objective has at least twelve characters and no vague word; it names criteria and a symbol of a file;
-- its declared files are there, distinct, no more than its budget allows, and normalized; its new tests
-- are test files; it forbids something and has a command that verifies it; its risk is one of three, it
-- allows one or two attempts, and its budget is the normal one or has a reason of twelve characters.
pub validate_ticket_iff :
    (t : MicroTicket) → (validate_ticket patch_budget_policy t ≡ ok t) ↔ IsReady t
validate_ticket_iff t = (validated-IsReady t t, ready-validated t)
