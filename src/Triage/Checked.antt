-- ===== src/Triage/Checked.antt =====
-- local_first_orchestrator/triage.py: a proposal that is normalized passes the coordinator's checks.
use mathlib.Core.Path.{subst}
use local_first_orchestrator.Base.{
  ◌+◌, String, ◌≡◌, ◌∙◌, refl, sym, ap, Bool, true, false, not, ◌&&◌, ◌||◌, &&-true, Option, some,
  List, [], ◌∷◌, Result, ok, err, ok_injective, is_nil, is_within, contains, eq_iff, count,
  coalesce, strip, str_eq, leb, ltb, find_where, Host, arith,
}
use local_first_orchestrator.Contract.{MicroTicket, patch_budget_policy}
use local_first_orchestrator.Contract.Readiness.{validate_ticket}
use local_first_orchestrator.Ledger.{Ledger, Ticket}
use local_first_orchestrator.Tickets.Lifecycle.{has_id}
use local_first_orchestrator.Triage.Proposal.{
  ChildPayload, TriagePayload, TriagedChild, TriageResult, fingerprint_of, guard, and_then,
  as_not_ready, maps_unresolved, read_ticket, check_child, normalize_child, normalize_children,
  normalize_triage, classifications, classifications_with_children,
}
use local_first_orchestrator.Triage.Children.{unresolved}
use local_first_orchestrator.Triage.Coordinator.{check_children, check_proposal}

guard-ok :
    {A : Type 0} (b : Bool) (why : String) (r : Result A) {a : A}
    → guard b why r ≡ ok a
    → (b ≡ true) × (r ≡ ok a)
guard-ok true why r h = (refl, h)
guard-ok false why r h = absurd (cc)

guard-pass :
    {A : Type 0} (b : Bool) (why : String) (r : Result A) {a : A}
    → b ≡ true
    → r ≡ ok a
    → guard b why r ≡ ok a
guard-pass true why r t h = h
guard-pass false why r t h = absurd (cc)

and_then-ok :
    {A B : Type 0} (r : Result A) (k : A → Result B) {b : B}
    → and_then r k ≡ ok b
    → (a : A) × (r ≡ ok a) × (k a ≡ ok b)
and_then-ok (ok a) k h = (a, refl, h)
and_then-ok (err e) k h = absurd (cc)

-- What the coordinator checks of one child, beside the fingerprints of those before it
record IsChecked (open_criteria seen : List String) (c : TriagedChild) : Type 0 where
  maps : is_within c.resolves_criteria open_criteria ≡ true
  within : is_within c.ticket.criterion_ids c.resolves_criteria ≡ true
  ready :
      (u : MicroTicket) × (as_not_ready "child is not ready: "
          (validate_ticket patch_budget_policy c.ticket)
        ≡ ok u)
  new : not (contains c.fingerprint seen) ≡ true

check_child-IsChecked :
    (host : Host) (open_criteria resolves seen : List String) (id : Option String)
    (ticket : MicroTicket) (c : TriagedChild)
    → is_within resolves open_criteria ≡ true
    → check_child host resolves seen id ticket ≡ ok c
    → IsChecked open_criteria seen c
unfolding check_child
check_child-IsChecked host open_criteria resolves seen id ticket c maps h =
    let a = guard-ok (is_within ticket.criterion_ids resolves) _ _ h in
    let (u, valid, rest) =
      and_then-ok (as_not_ready "child is not ready: " (validate_ticket patch_budget_policy ticket))
        _ a.1 in
    let b = guard-ok (not (contains (fingerprint_of host ticket resolves) seen)) _ _ rest in
    subst (IsChecked open_criteria seen) (ok_injective b.1)
      (record { maps = maps; within = a.0; ready = (u, valid); new = b.0 })

normalize_child-IsChecked :
    (host : Host) (open_criteria seen : List String) (raw : ChildPayload) (c : TriagedChild)
    → normalize_child host open_criteria seen raw ≡ ok c
    → IsChecked open_criteria seen c
unfolding normalize_child
normalize_child-IsChecked host open_criteria seen raw c h =
    let resolves = coalesce raw.resolves_criteria [] in
    let a = guard-ok (maps_unresolved open_criteria resolves) _ _ h in
    let maps = &&-true (not (is_nil resolves)) (is_within resolves open_criteria) a.0 in
    let (ticket, is_read, rest) = and_then-ok (read_ticket raw.ticket) _ a.1 in
    check_child-IsChecked host open_criteria resolves seen raw.id ticket c maps.1 rest

and_then-pass :
    {A B : Type 0} (r : Result A) (k : A → Result B) {a : A} {b : B}
    → r ≡ ok a
    → k a ≡ ok b
    → and_then r k ≡ ok b
and_then-pass r k e h = rw e h

-- The children that are normalized, as many as there were, pass.
normalize_children-checked :
    (host : Host) (open_criteria seen : List String) (raws : List ChildPayload)
    (cs : List TriagedChild)
    → normalize_children host open_criteria seen raws ≡ ok cs
    → (check_children open_criteria seen cs ≡ ok tt) × (count cs ≡ count raws)
unfolding normalize_children check_children
normalize_children-checked host open_criteria seen [] cs h =
    subst (λ xs. (check_children open_criteria seen xs ≡ ok tt) × (count xs ≡ 0)) (ok_injective h)
      (refl, refl)
normalize_children-checked host open_criteria seen (raw ∷ raws) cs h =
    let (c, one, rest) = and_then-ok (normalize_child host open_criteria seen raw) _ h in
    let (more, many, last) =
      and_then-ok (normalize_children host open_criteria (c.fingerprint ∷ seen) raws) _ rest in
    let k = normalize_child-IsChecked host open_criteria seen raw c one in
    let below =
      normalize_children-checked host open_criteria (c.fingerprint ∷ seen) raws more many in
    subst (λ xs. (check_children open_criteria seen xs ≡ ok tt) × (count xs ≡ count (raw ∷ raws)))
      (ok_injective last)
      (
        guard-pass (is_within c.resolves_criteria open_criteria) _ _ k.maps (
            guard-pass (is_within c.ticket.criterion_ids c.resolves_criteria) _ _ k.within (
              and_then-pass _ _ k.ready.1
                (guard-pass (not (contains c.fingerprint seen)) _ _ k.new below.0))),
        ap (λ n. 1 + n) below.1,
      )

as_many :
    (raws : List ChildPayload) (cs : List TriagedChild)
    → count cs ≡ count raws
    → is_nil raws ≡ false
    → is_nil cs ≡ false
as_many [] cs e h = absurd (cc)
as_many (r ∷ rs) [] e h = absurd (omega arith)
as_many (r ∷ rs) (c ∷ cs) e h = refl

-- A decomposition that `normalize_triage` lets through, checked against the depth and the unresolved criteria
-- of a ticket of the ledger, passes all the checks of `TriageCoordinator.apply` on this ticket and ledger.
pub normalized_passes :
    (host : Host) (payload : TriagePayload) (parent : MicroTicket) (id : String) (p : Ticket)
    (db : Ledger) (result : TriageResult)
    → find_where (has_id id) db.tickets ≡ some p
    → normalize_triage host payload parent p.depth 3 2 (some (unresolved p db)) ≡ ok result
    → result.recommended_action ≡ "decompose"
    → check_proposal id result db ≡ ok tt
unfolding normalize_triage check_proposal
normalized_passes host payload parent id p db result f h act =
    let classification = strip (coalesce payload.classification "") in
    let evidence = strip (coalesce payload.root_cause_evidence "") in
    let action = strip (coalesce payload.recommended_action "") in
    let raws = coalesce payload.children [] in
    let a = guard-ok (contains classification classifications && not (str_eq evidence "")) _ _ h in
    let b = guard-ok (contains action ("decompose" ∷ "block" ∷ "checkpoint" ∷ [])) _ _ a.1 in
    let c = guard-ok (leb (count raws) 3) _ _ b.1 in
    let d =
      guard-ok
        (is_nil raws
          || contains classification classifications_with_children && str_eq action "decompose")
        _ _ c.1 in
    let e = guard-ok (not (str_eq action "decompose" && is_nil raws)) _ _ d.1 in
    let g = guard-ok (is_nil raws || ltb p.depth 2) _ _ e.1 in
    let (children, all, last) =
      and_then-ok (normalize_children host (unresolved p db) [] raws) _ g.1 in
    let same : record {
      classification = classification;
      root_cause_evidence = evidence;
      recommended_action = action;
      children = children;
    }
        ≡ result =
      ok_injective last in
    let checked = normalize_children-checked host (unresolved p db) [] raws children all in
    let acts : str_eq action "decompose" ≡ true =
      (eq_iff action "decompose").1 (ap (λ (r : TriageResult). r.recommended_action) same ∙ act) in
    let some_raw : is_nil raws ≡ false = ground arith in
    let some_child = as_many raws children checked.1 some_raw in
    let few : leb (count children) 3 ≡ true = subst (λ n. leb n 3 ≡ true) (sym checked.1) c.0 in
    subst (λ r. check_proposal id r db ≡ ok tt) same
      (guard-pass
        (str_eq action "decompose" && contains classification classifications_with_children) _ _
        (ground arith)
        (rw f (
          guard-pass (ltb p.depth 2) _ _ (ground arith) (
            guard-pass (not (is_nil children) && leb (count children) 3) _ _ (rw some_child few)
              checked.0))))
