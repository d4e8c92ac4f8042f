-- ===== src/Triage/Matched.antt =====
-- local_first_orchestrator/ledger.py: the ids that a repeated split returns, and the rows that they are of.
use mathlib.Core.Path.{subst}
use mathlib.Core.Option.{some-injective}
use mathlib.Core.List.{Mem, mem-cons_self, mem-cons_of_mem}
use local_first_orchestrator.Base.{
  String, ◌≡◌, refl, Bool, Bool-cases, Option-cases, inl, inr, true, List, [], ◌∷◌, some, ok,
  str_eq, eq_iff, contains, is_within, find_where, select_where, Every, &&-true, ok_injective,
  Result-cases,
}
use local_first_orchestrator.Ledger.{TriageChild}
use local_first_orchestrator.Triage.Children.{NewChild, is_child_of}
use local_first_orchestrator.Triage.Create.{ids_of, has_fingerprint, fingerprints, new_fingerprints}

-- A row of the table for a child of the parent, with the given fingerprint and id
pub record IsRow (parent : String) (table : List TriageChild) (fingerprint id : String)
    : Type 0 where
  pub row : TriageChild
  pub stored : Mem row table
  pub parent_is : row.parent_ticket_id ≡ parent
  pub fingerprint_is : row.fingerprint ≡ fingerprint
  pub id_is : row.child_ticket_id ≡ id

-- One id for each child, in their order: that of a row with the child's fingerprint
pub data Matched (parent : String) (table : List TriageChild)
    : List NewChild → List String → Type 0 where
  none_left : Matched parent table [] []
  one_more :
      {c : NewChild} {id : String} {cs : List NewChild} {ids : List String}
      → IsRow parent table c.fingerprint id
      → Matched parent table cs ids
      → Matched parent table (c ∷ cs) (id ∷ ids)

module _ {A : Type 0} (p q : A → Bool) where
  found_among :
      (rows : List A) {r : A}
      → find_where q (select_where p rows) ≡ some r
      → Mem r rows × (p r ≡ true) × (q r ≡ true)
  unfolding find_where select_where
  found_among [] h = absurd (cc)
  found_among (x ∷ xs) {r} h = elim (Bool-cases (p x)) [
    | inr e ↦ let (m, px, qx) = found_among xs (rw e at h) in (mem-cons_of_mem x m, px, qx)
    | inl e ↦ elim (Bool-cases (q x)) [
      | inl f ↦
          let same : x ≡ r = some-injective _ _ (rw (e, f) at h) in
          subst (λ y. Mem y (x ∷ xs) × (p y ≡ true) × (q y ≡ true)) same (mem-cons_self, e, f)
      | inr f ↦ let (m, px, qx) = found_among xs (rw (e, f) at h) in (mem-cons_of_mem x m, px, qx)
    ]
  ]

module _ (parent : String) (table : List TriageChild) where
  pub ids_of-Matched :
      (children : List NewChild) {ids : List String}
      → ids_of (select_where (is_child_of parent) table) children ≡ ok ids
      → Matched parent table children ids
  unfolding ids_of
  ids_of-Matched [] h = subst (Matched parent table []) (ok_injective h) none_left
  ids_of-Matched (c ∷ cs) {ids} h =
      let existing = select_where (is_child_of parent) table in
      elim (Option-cases (find_where (has_fingerprint c.fingerprint) existing)) [
        | inl e ↦ absurd (let h' = rw (ids_of, e) at h in cc)
        | inr (row, e) ↦ elim (Result-cases (ids_of existing cs)) [
          | inl (x, f) ↦ absurd (let h' = rw (ids_of, e, f) at h in cc)
          | inr (rest, f) ↦
              let (m, child, same) =
                found_among (is_child_of parent) (has_fingerprint c.fingerprint) table e in
              subst (Matched parent table (c ∷ cs)) (ok_injective (rw (ids_of, e, f) at h)) (
                one_more
                  (record {
                    row = row;
                    stored = m;
                    parent_is = (eq_iff row.parent_ticket_id parent).0 child;
                    fingerprint_is = (eq_iff row.fingerprint c.fingerprint).0 same;
                    id_is = refl;
                  })
                  (ids_of-Matched cs f))
        ]
      ]

-- A child with the given fingerprint
abbrev pub HasChild : List NewChild → String → Type 0
HasChild children fingerprint = (c : NewChild) × Mem c children × (c.fingerprint ≡ fingerprint)

contains-HasChild :
    (children : List NewChild) (s : String)
    → contains s (new_fingerprints children) ≡ true
    → HasChild children s
contains-HasChild [] s h = absurd (cc)
contains-HasChild (c ∷ cs) s h = elim (Bool-cases (str_eq c.fingerprint s)) [
  | inl e ↦ (c, mem-cons_self, (eq_iff c.fingerprint s).0 e)
  | inr e ↦ let (d, m, same) = contains-HasChild cs s (rw e at h) in (d, mem-cons_of_mem c m, same)
]

-- Each row of the parent has a child of the split.
pub rows_have_children :
    (parent : String) (children : List NewChild) (rows : List TriageChild)
    → is_within (fingerprints (select_where (is_child_of parent) rows)) (new_fingerprints children)
      ≡ true
    → Every
        (λ (row : TriageChild). row.parent_ticket_id ≡ parent → HasChild children row.fingerprint)
        rows
unfolding select_where
rows_have_children parent children [] h = tt
rows_have_children parent children (x ∷ xs) h = elim (Bool-cases (is_child_of parent x)) [
  | inl e ↦
      let both = &&-true (contains x.fingerprint (new_fingerprints children)) _ (rw e at h) in
      (
        λ _. contains-HasChild children x.fingerprint both.0,
        rows_have_children parent children xs both.1,
      )
  | inr e ↦ (
    λ same. absurd (let yes = (eq_iff x.parent_ticket_id parent).1 same in cc),
    rows_have_children parent children xs (rw e at h),
  )
]
