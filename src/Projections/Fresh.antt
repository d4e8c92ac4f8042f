-- ===== src/Projections/Fresh.antt =====
-- local_first_orchestrator/ledger.py: the gate in front of the board, which only a current intent passes.
use mathlib.Core.Path.{subst}
use local_first_orchestrator.Base.{
  ℕ, ◌≤◌, String, ◌≡◌, refl, sym, ap, ◌∙◌, true, false, ◌&&◌, Option, Option-cases, none, some,
  Result, ok, err, Error, arith, str_eq, eq_iff, if◌then◌else◌, Bool-cases, inl, inr, find_where,
  find_where-update_where, find_where-some, Every, Ensures, Ensures-ok, Ensures-err,
  Ensures-require, Ensures-row, Ensures-if, transaction-ensures, transaction_rollback, is_null, not,
  &&-true,
}
use local_first_orchestrator.Ledger.{Ledger, Projection, Event}
use local_first_orchestrator.Ledger.Order.{IsDescending, newest_first}
use local_first_orchestrator.Ledger.Identity.{resolve_external_task_id}
use local_first_orchestrator.Projections.Outbox.{
  is_intent, is_open, is_set_state, is_leased, is_state_event, is_newer, id_or, is_other, outdate,
  outdated, fresh, bind, bind_target, check_fresh, prepare_body, prepare_claimed_state_projection,
}

module _ (ticket : String) (event : ℕ) (owner : String) (now : ℕ) where
  -- What is known of a row that the gate has let pass, and of the ledger then.
  pub record IsCurrent (db : Ledger) (p : Projection) (db' : Ledger) : Type 0 where
    pub there : find_where (is_intent ticket event) db'.projections ≡ some p
    pub live : is_open p ≡ true
    pub leased : is_leased owner now p ≡ true
    pub newest : Every (λ (e : Event). is_state_event ticket e ≡ true → e.id ≤ event) db.events
    pub target : String
    pub resolved :
        resolve_external_task_id db.tickets db.events db.runtime_stages db.projections ticket
        ≡ ok target
    pub addressed : p.external_task_id ≡ some target

  abbrev pub Gate : Ledger → Option Projection → Ledger → Type 0
  Gate db (some p) db' = IsCurrent db p db'
  Gate db none db' =
      (q : Projection)
      → find_where (is_intent ticket event) db'.projections ≡ some q
      → (is_set_state q && is_open q) ≡ false

  -- The row with its target filled in
  abbrev addressed_to : String → Projection → Projection
  addressed_to target p =
      if is_null p.external_task_id then record p { external_task_id = some target } else p

  address-is_open : (target : String) (p : Projection) → is_open (addressed_to target p) ≡ is_open p
  address-is_open target p = ground arith

  address-is_leased :
      (target : String) (p : Projection)
      → is_leased owner now (addressed_to target p) ≡ is_leased owner now p
  address-is_leased target p = ground arith

  address-target :
      (target : String) (p : Projection)
      → not (is_other p.external_task_id target) ≡ true
      → (addressed_to target p).external_task_id ≡ some target
  address-target target p h = elim (Option-cases p.external_task_id) [
    | inl e ↦ rw e refl
    | inr (t, e) ↦
        let same : not (not (str_eq t target)) ≡ true = rw e at h in
        let both : str_eq t target ≡ true = ground arith in
        rw e (ap some ((eq_iff t target).0 both))
  ]

  address-find :
      (target : String) (p : Projection) (db : Ledger)
      → find_where (is_intent ticket event) db.projections ≡ some p
      → find_where (is_intent ticket event) (bind ticket event target p db).projections
        ≡ some (addressed_to target p)
  address-find target p db f = elim (Bool-cases (is_null p.external_task_id)) [
    | inl e ↦
        let own = find_where-some (is_intent ticket event) db.projections f in
        rw e (
          rw
            (find_where-update_where (is_intent ticket event)
              (λ q. record q { external_task_id = some target }) (is_intent ticket event)
              db.projections (λ x. refl))
            (rw (f) (rw own refl)))
    | inr e ↦ rw e f
  ]

  bind_target-Gate :
      (p : Projection) (target : Result String) (db : Ledger)
      → find_where (is_intent ticket event) db.projections ≡ some p
      → is_open p ≡ true
      → is_leased owner now p ≡ true
      → Every (λ (e : Event). is_state_event ticket e ≡ true → e.id ≤ event) db.events
      → resolve_external_task_id db.tickets db.events db.runtime_stages db.projections ticket
        ≡ target
      → Ensures (Gate db) (bind_target p target ticket event db)
  unfolding bind_target
  bind_target-Gate p (err e) db f o l n r = Ensures-err e
  bind_target-Gate p (ok target) db f o l n r =
      Ensures-require (not (is_other p.external_task_id target)) _ _ db (λ same.
        let there = address-find target p db f in
        subst (λ found. Ensures (Gate db) (ok (found, bind ticket event target p db))) (sym there)
          (Ensures-ok (record {
            there = there;
            live = address-is_open target p ∙ o;
            leased = address-is_leased target p ∙ l;
            newest = n;
            target = target;
            resolved = r;
            addressed = address-target target p same;
          })))

  outdated-Gate :
      (p : Projection) (newer : ℕ) (db : Ledger)
      → find_where (is_intent ticket event) db.projections ≡ some p
      → Ensures (Gate db) (outdated ticket event newer now db)
  unfolding outdated
  outdated-Gate p newer db f = Ensures-ok λ q g.
      let own = find_where-some (is_intent ticket event) db.projections f in
      let written =
        find_where-update_where (is_intent ticket event) (outdate newer now)
          (is_intent ticket event) db.projections (λ x. refl) in
      let closed : some (outdate newer now p) ≡ some q = sym (written ∙ rw f (rw own refl)) ∙ g in
      ground arith

  not_newer :
      (o : Option Event) → is_newer o event ≡ false → (e : Event) → o ≡ some e → e.id ≤ event
  not_newer o h e f = let k = rw f at h in ground arith

  check_fresh-Gate :
      (p : Projection) (db : Ledger)
      → IsDescending db.events
      → find_where (is_intent ticket event) db.projections ≡ some p
      → is_open p ≡ true
      → Ensures (Gate db) (check_fresh p ticket event owner now db)
  unfolding check_fresh fresh
  check_fresh-Gate p db d f o =
      let current = find_where (is_state_event ticket) db.events in
      let target =
        resolve_external_task_id db.tickets db.events db.runtime_stages db.projections ticket in
      Ensures-require (is_leased owner now p) _ _ db (λ l.
        Ensures-if (is_newer current event) _ _ db (λ _. outdated-Gate p (id_or current event) db f)
          (λ still.
            bind_target-Gate p target db f o l
              (newest_first (is_state_event ticket) db.events event d (not_newer current still))
              refl))

  prepare_body-Gate :
      (db : Ledger)
      → IsDescending db.events
      → Ensures (Gate db) (prepare_body ticket event owner now db)
  unfolding prepare_body
  prepare_body-Gate db d =
      Ensures-row (find_where (is_intent ticket event) db.projections) _ _ db
        (λ none_there. Ensures-ok λ q g. absurd (cc))
        (λ p f.
          Ensures-if (is_set_state p && is_open p) _ _ db
            (λ o. check_fresh-Gate p db d f (&&-true _ _ o).1)
            (λ closed. Ensures-ok λ q g. let same : some p ≡ some q = sym f ∙ g in ground arith))

-- Where the event log is in order, a call of `prepare_claimed_state_projection` does one of three things.
-- It raises, and the ledger is as before. Or it returns the intent's row, and then the row is neither
-- acknowledged nor superseded, the caller's lease on it runs, no state event of the ticket is newer than
-- the intent's, and the row is addressed to the ticket's board identity. Or it returns nothing, and then
-- the intent is not there, or is no longer one to be delivered.
pub gate_outcome :
    (ticket : String) (event : ℕ) (owner : String) (now : ℕ) (db : Ledger)
    → IsDescending db.events
    → (let r = prepare_claimed_state_projection ticket event owner now db in
        ((x : Error) → r.0 ≡ err x → r.1 ≡ db)
        × ((p : Projection) → r.0 ≡ ok (some p) → IsCurrent ticket event owner now db p r.1)
        × (r.0 ≡ ok none
            → (q : Projection) → find_where (is_intent ticket event) r.1.projections ≡ some q
            → (is_set_state q && is_open q) ≡ false))
unfolding prepare_claimed_state_projection
gate_outcome ticket event owner now db d =
    let body = prepare_body ticket event owner now in
    let gate = prepare_body-Gate ticket event owner now db d in
    (
      λ x h. transaction_rollback body db h,
      λ p h. transaction-ensures (Gate ticket event owner now db) body db gate h,
      λ h. transaction-ensures (Gate ticket event owner now db) body db gate h,
    )
