-- ===== src/Stages/Moves.antt =====
-- local_first_orchestrator/ledger.py: the readiness effect, the claims and the releases are refined too.
use mathlib.Core.Path.{subst}
use local_first_orchestrator.Base.{
  sorted_set, ℕ, String, ◌≡◌, ◌∙◌, refl, sym, ap, true, false, not, ◌&&◌, ◌||◌, &&-true, Option,
  none, some, str_eq, eq_iff, is_null, is_null→none, arith, find_where, find_where-some,
  count_where, Ensures, Ensures-ok, Ensures-err, Ensures-require, Ensures-row, is_nil, contains,
  Ensures-if, Ensures-weaken, Ensures-bind, Ensures-check, ◌==◌, Host,
}
use local_first_orchestrator.States.{state_eq, ready_local, draft}
use local_first_orchestrator.Ledger.{Ledger, Ticket, StageClaim, append_event}
use local_first_orchestrator.Tickets.Lifecycle.{has_id}
use local_first_orchestrator.Tickets.Transitions.{transition_from-IsMoved}
use local_first_orchestrator.Stages.Claims.{
  is_claim, is_finalized, holds_lease, holds_running_lease, get_claim,
}
use local_first_orchestrator.Stages.Readiness.{is_valid, binding_of, satisfied}
use local_first_orchestrator.Stages.Effect.{
  readiness_stage, end_effect, may_end_effect, ready_result, require_draft, make_ready,
  apply_claimed, has_binding, apply_body,
}
use local_first_orchestrator.Stages.Phases.{
  effected, phase, open_phase, Step, effect, IsRefined, IsRefined-refl, update-IsRefined, own_claim,
}
use local_first_orchestrator.Stages.Refined.{
  IsRefined-after, IsRefined-before, read_back-Ensures, open-Step, holds-claimed,
}

own_id :
    (ticket : String) (t : Ticket) (db : Ledger)
    → find_where (has_id ticket) db.tickets ≡ some t
    → find_where (has_id t.id) db.tickets ≡ some t
own_id ticket t db f =
    let own = (eq_iff t.id ticket).0 (find_where-some (has_id ticket) db.tickets f) in
    subst (λ i. find_where (has_id i) db.tickets ≡ some t) (sym own) f

require_draft-same :
    (t : Ticket) (db : Ledger)
    → Ensures (λ (_ : Unit {0}) (s : Ledger). s ≡ db) (require_draft t db)
unfolding require_draft
require_draft-same t db = Ensures-require (state_eq t.state draft) _ _ db (λ _.
    Ensures-require (has_binding (binding_of t.id db)) _ _ db (λ _.
      Ensures-require (is_valid t) _ _ db (λ _.
        Ensures-require (not (contains t.id (sorted_set t.dependencies))) _ _ db
          (λ _. Ensures-check (is_nil (sorted_set t.dependencies)) _ db (λ _. refl)))))

-- A ticket that is made ready leaves the claims alone.
pub make_ready-claims :
    (host : Host) (ticket : String) (t : Ticket) (now : ℕ) (db : Ledger)
    → find_where (has_id ticket) db.tickets ≡ some t
    → Ensures
        (λ (_ : Unit {0}) (s : Ledger). s.stage_claims ≡ db.stage_claims)
        (make_ready host t now db)
unfolding make_ready
make_ready-claims host ticket t now db f =
    Ensures-if (state_eq t.state ready_local) _ _ db (λ _. Ensures-ok refl)
      (λ _. Ensures-bind (require_draft t db) _ (require_draft-same t db) (λ _ s same.
        let f' =
          subst (λ (d : Ledger). find_where (has_id t.id) d.tickets ≡ some t) (sym same)
            (own_id ticket t db f) in
        Ensures-weaken _ (λ _ s' moved. moved.claims ∙ ap (λ (d : Ledger). d.stage_claims) same)
          (transition_from-IsMoved host t.id ready_local "readiness" satisfied now t s f')))

module _ (host : Host) (id owner : String) (now : ℕ) (db : Ledger) where
  effect-Step :
      (mid : Ledger) (row : StageClaim)
      → mid.stage_claims ≡ db.stage_claims
      → get_claim id db ≡ some row
      → is_null row.side_effect_started_at ≡ false
      → (c : StageClaim) (other : String) → get_claim other mid ≡ some c
      → may_end_effect id owner now c ≡ true
      → Step (phase c) (phase (end_effect ready_result now c))
  effect-Step mid row same found has_started c other f h =
      let a = is_claim id c in
      let b = holds_lease owner now c in
      let first = &&-true (a && b) (is_null c.side_effect_completed_at) h in
      let second = &&-true a b first.0 in
      let found' = subst (λ cs. find_where (is_claim id) cs ≡ some row) (sym same) found in
      let own = own_claim mid c row other id f second.0 found' in
      let no_end = is_null→none c.side_effect_completed_at first.1 in
      let begun : is_null c.side_effect_started_at ≡ false =
        subst (λ (r : StageClaim). is_null r.side_effect_started_at ≡ false) (sym own)
          has_started in
      open-Step c (end_effect ready_result now c) (holds-claimed owner now c second.1) refl
        (rw no_end (running_step c.side_effect_started_at begun))
    where
      running_step : (o : Option ℕ) → is_null o ≡ false → Step (open_phase o none) effected
      running_step none h = absurd (cc)
      running_step (some t) h = effect

  apply_claimed-IsRefined :
      (row : StageClaim)
      → get_claim id db ≡ some row
      → Ensures (λ (c : StageClaim). IsRefined db) (apply_claimed host row id owner now db)
  unfolding apply_claimed append_event
  apply_claimed-IsRefined row found =
      Ensures-require (not (is_null row.side_effect_started_at)) _ _ db (λ has_started.
        Ensures-require (holds_running_lease owner now row) _ _ db (λ leased.
          Ensures-row (find_where (has_id row.ticket_id) db.tickets) _ _ db (λ _. Ensures-err _)
            (λ t f.
              Ensures-bind (make_ready host t now db) _
                (make_ready-claims host row.ticket_id t now db f)
                (λ _ mid same.
                  Ensures-require (count_where (may_end_effect id owner now) mid.stage_claims == 1)
                    _ _ _
                    (λ one. read_back-Ensures (IsRefined db) id _ (
                      IsRefined-before same (
                        IsRefined-after refl (
                          update-IsRefined (may_end_effect id owner now)
                            (end_effect ready_result now) mid (λ c. refl)
                            (effect-Step mid row same found (ground arith))))))))))

  pub apply_body-IsRefined :
      Ensures (λ (c : StageClaim). IsRefined db) (apply_body host id owner now db)
  unfolding apply_body
  apply_body-IsRefined =
      Ensures-row (get_claim id db) _ _ db (λ _. Ensures-err _)
        (λ c f. Ensures-require (str_eq c.stage readiness_stage) _ _ db (λ _.
          Ensures-if (is_finalized c.status || not (is_null c.side_effect_completed_at)) _ _ db
            (λ _. Ensures-ok (IsRefined-refl db)) (λ _. apply_claimed-IsRefined c f)))
