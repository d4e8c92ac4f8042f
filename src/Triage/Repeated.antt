-- ===== src/Triage/Repeated.antt =====
-- local_first_orchestrator/ledger.py and triage.py: a split that is repeated, and the depth of splits.
use local_first_orchestrator.Base.{
  ℕ, ◌==◌, ◌&&◌, &&-true, is_within, String, ◌≡◌, ◌∙◌, refl, Bool, true, false, List, [], ◌∷◌,
  Result, ok, err, ltb, leb, is_nil, count, find_where, select_where, Every, Ensures, Ensures-ok,
  Ensures-err, Ensures-require, Ensures-row, Ensures-weaken, Ensures-bind, Ensures-if,
  transaction-ensures, transaction-keeps, Host, arith,
}
use local_first_orchestrator.States.{state_eq, needs_triage}
use local_first_orchestrator.Ledger.{Ledger, TriageChild, RuntimeBinding}
use local_first_orchestrator.Tickets.Lifecycle.{has_id}
use local_first_orchestrator.Stages.Readiness.{binding_of}
use local_first_orchestrator.Triage.Children.{
  NewChild, is_fingerprinted, all_where, is_child_of, lift,
}
use local_first_orchestrator.Triage.Create.{
  is_same_split, fingerprints, new_fingerprints, has_same_binding, has_creation, check_provenance,
  ids_of, repeat_children, create_body, create_triaged_children,
}
use local_first_orchestrator.Triage.Matched.{Matched, HasChild, ids_of-Matched, rows_have_children}

check_provenance-same :
    (b : RuntimeBinding) (existing : List TriageChild) (db : Ledger)
    → Ensures (λ (_ : Unit {0}) (s : Ledger). s ≡ db) (check_provenance b existing db)
unfolding check_provenance
check_provenance-same b [] db = Ensures-ok refl
check_provenance-same b (c ∷ cs) db =
    Ensures-require (has_same_binding b (binding_of c.child_ticket_id db)) _ _ db (λ _.
      Ensures-require (has_creation c.child_ticket_id db) _ _ db
        (λ _. check_provenance-same b cs db))

lift-outcome :
    {A : Type 0} (r : Result A) (db : Ledger)
    → Ensures (λ (a : A) (s : Ledger). (r ≡ ok a) × (s ≡ db)) (lift r db)
lift-outcome (ok a) db = Ensures-ok (refl, refl)
lift-outcome (err e) db = Ensures-err e

-- What a repeated split returns, of the children that are there
abbrev pub Repeats : List NewChild → List TriageChild → Ledger → List String → Ledger → Type 0
Repeats children existing db ids s =
    (is_same_split children existing ≡ true) × ((ids_of existing children ≡ ok ids) × (s ≡ db))

repeat-Repeats :
    (parent : String) (children : List NewChild) (existing : List TriageChild) (project : Bool)
    (db : Ledger)
    → Ensures (Repeats children existing db) (repeat_children parent children existing project db)
unfolding repeat_children
repeat-Repeats parent children existing project db =
    Ensures-require (is_same_split children existing) _ _ db (λ same.
      Ensures-bind _ _
        (Ensures-if project _ _ db
          (λ _.
            Ensures-row (binding_of parent db) _ _ db (λ _. Ensures-err _)
              (λ b f. check_provenance-same b existing db))
          (λ _. Ensures-ok refl))
        (λ _ s unchanged.
          Ensures-weaken _ (λ ids s' out. (same, (out.0, out.1 ∙ unchanged)))
            (lift-outcome (ids_of existing children) s)))

module _ (host : Host) (parent : String) (children : List NewChild)
    (classification evidence : String) (project : Bool) (now : ℕ) (db : Ledger) where
  body-Repeats :
      is_nil (select_where (is_child_of parent) db.triage_children) ≡ false
      → Ensures
          (Repeats children (select_where (is_child_of parent) db.triage_children) db)
          (create_body host parent children classification evidence project now db)
  unfolding create_body
  body-Repeats there =
      let existing = select_where (is_child_of parent) db.triage_children in
      Ensures-row (find_where (has_id parent) db.tickets) _ _ db (λ _. Ensures-err _)
        (λ p f. Ensures-require (state_eq p.state needs_triage) _ _ db (λ _.
          Ensures-require (ltb p.depth 2) _ _ db (λ _.
            Ensures-require (leb (count children) 3) _ _ db (λ _.
              Ensures-require (all_where (is_fingerprinted host) children) _ _ db (λ _.
                Ensures-if (is_nil existing) _ _ db (λ e. absurd (cc))
                  (λ _. repeat-Repeats parent children existing project db))))))

  -- Where a ticket has children, `create_triaged_children` changes nothing in the ledger. If it returns, there are as
  -- many rows of the parent as children given, each of the rows has the fingerprint of one of the children, and it returns
  -- one id for each child, in their order: the id that is stored in a row of the parent with the child's fingerprint,
  -- whatever id the child was given.
  pub children_repeated :
      {ids : List String}
      → is_nil (select_where (is_child_of parent) db.triage_children) ≡ false
      → (let r =
            create_triaged_children host parent children classification evidence project now db in
          (r.1 ≡ db)
          × (r.0 ≡ ok ids
              → Matched parent db.triage_children children ids
                × Every
                    (λ (row : TriageChild).
                      row.parent_ticket_id ≡ parent → HasChild children row.fingerprint)
                    db.triage_children
                × (count children ≡ count (select_where (is_child_of parent) db.triage_children))))
  unfolding create_triaged_children
  children_repeated there =
      let body = create_body host parent children classification evidence project now in
      let table = db.triage_children in
      let existing = select_where (is_child_of parent) table in
      (
        transaction-keeps (λ s. s ≡ db) body db refl
            (Ensures-weaken _ (λ ids s out. out.1.1) (body-Repeats there)),
        λ h.
            let out =
              transaction-ensures (Repeats children existing db) body db (body-Repeats there) h in
            let both =
              &&-true
                (is_within (new_fingerprints children) (fingerprints existing)
                  && is_within (fingerprints existing) (new_fingerprints children))
                (count children == count existing) out.0 in
            let within =
              &&-true (is_within (new_fingerprints children) (fingerprints existing))
                (is_within (fingerprints existing) (new_fingerprints children)) both.0 in
            let many : (count children == count existing) ≡ true = both.1 in
            (
              ids_of-Matched parent table children out.1.0,
              rows_have_children parent children table within.1,
              ground arith,
            ),
      )
