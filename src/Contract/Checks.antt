-- ===== src/Contract/Checks.antt =====
-- local_first_orchestrator/readiness.py: what each check of `validate_ticket` lets through.
use mathlib.Core.Path.{subst}
use mathlib.Core.Option.{some-injective}
use local_first_orchestrator.Base.{
  ◌≤◌, String, ◌≡◌, ◌≢◌, ◌⊎◌, ◌↔◌, ◌∙◌, refl, sym, ap, Bool, Bool-cases, Option-cases, inl, inr,
  true, false, not, ◌&&◌, ◌||◌, ||-false, Option, none, some, List, [], ◌∷◌, Result, ok, str_eq,
  eq_iff, ltb, leb, contains, has_text, strip, lower, len, any_where, is_nil, count, Every, arith,
}
use local_first_orchestrator.Contract.{MicroTicket, PatchBudget, patch_budget_policy}
use local_first_orchestrator.Contract.Paths.{normalized_repository_path}
use local_first_orchestrator.Contract.Plain.{normalized_repository_path-IsPlain}
use local_first_orchestrator.Contract.Languages.{is_test_path, language_for}
use local_first_orchestrator.Contract.Readiness.{
  refuse_if, vague_words, has_any, distinct, is_vague, is_unbounded, overlaps, is_unsafe,
  is_no_test, is_unchecked, is_bad_risk, is_broad, has_no_reason,
}
use local_first_orchestrator.Contract.Ready.{Distinct, IsBudgeted, normal, excepted}

pub refuse_if-ok :
    {A : Type 0} (c : Bool) (message : String) (rest : Result A) {a : A}
    → refuse_if c message rest ≡ ok a
    → (c ≡ false) × (rest ≡ ok a)
refuse_if-ok true message rest h = absurd (cc)
refuse_if-ok false message rest h = (refl, h)

pub refuse_if-pass :
    {A : Type 0} (c : Bool) (message : String) (rest : Result A) {a : A}
    → c ≡ false
    → rest ≡ ok a
    → refuse_if c message rest ≡ ok a
refuse_if-pass true message rest e h = absurd (cc)
refuse_if-pass false message rest e h = h

not_true : (b : Bool) → b ≢ true → b ≡ false
not_true true h = absurd (h refl)
not_true false h = refl

pub is_nil-ne : {A : Type 0} (xs : List A) → (is_nil xs ≡ false) ↔ (xs ≢ [])
is_nil-ne [] = (λ h e. cc, λ h. absurd (h refl))
is_nil-ne (x ∷ xs) = (λ h e. cc, λ h. refl)

pub any_where-Every :
    {A : Type 0} (p : A → Bool) (xs : List A)
    → (any_where p xs ≡ false) ↔ Every (λ x. p x ≡ false) xs
any_where-Every p [] = (λ h. tt, λ h. refl)
any_where-Every p (x ∷ xs) =
    let rest = any_where-Every p xs in
    (
      λ h. let both = ||-false (p x) (any_where p xs) h in (both.0, rest.0 both.1),
      λ h. let a = h.0 in let b = rest.1 h.1 in rw (a, b) refl,
    )

pub Every-iff :
    {A : Type 0} {P Q : A → Type 0} (xs : List A) → ((x : A) → P x ↔ Q x) → Every P xs ↔ Every Q xs
Every-iff [] f = (λ h. tt, λ h. tt)
Every-iff (x ∷ xs) f =
    let rest = Every-iff xs f in (λ h. ((f x).0 h.0, rest.0 h.1), λ h. ((f x).1 h.0, rest.1 h.1))

count-distinct : (ss : List String) → count (distinct ss) ≤ count ss
count-distinct [] = omega arith
count-distinct (s ∷ ss) =
    let rest = count-distinct ss in
    elim (Bool-cases (contains s ss)) [ inl e ↦ rw e (omega arith) | inr e ↦ rw e (omega arith) ]

distinct-Distinct : (ss : List String) → (count (distinct ss) ≡ count ss) ↔ Distinct ss
distinct-Distinct [] = (λ h. tt, λ h. refl)
distinct-Distinct (s ∷ ss) =
    let less = count-distinct ss in
    let rest = distinct-Distinct ss in
    elim (Bool-cases (contains s ss)) [
      | inl e ↦ (λ h. absurd (let h' = rw e at h in omega arith), λ h. absurd (let n = h.0 in cc))
      | inr e ↦ (
        λ h. (e, rest.0 (let h' = rw e at h in omega arith)),
        λ h. let r = rest.1 h.1 in rw e (omega arith),
      )
    ]

pub is_unsafe_iff : (p : String) → (is_unsafe p ≡ false) ↔ (normalized_repository_path p ≡ some p)
is_unsafe_iff p = elim (Option-cases (normalized_repository_path p)) [
  | inl e ↦ (λ h. absurd (let h' = rw e at h in cc), λ h. absurd (cc))
  | inr (q, e) ↦
      let same = (normalized_repository_path-IsPlain p q e).0 in
      (λ h. e ∙ ap some same, λ h. rw e refl)
]

pub is_no_test_iff : (p : String) → (is_no_test p ≡ false) ↔ (is_test_path p ≡ true)
unfolding is_test_path
is_no_test_iff p = elim (Option-cases (language_for p)) [
  | inl e ↦ rw e (λ h. absurd (cc), λ h. absurd (cc))
  | inr (l, e) ↦ rw e (λ h. ground arith, λ h. ground arith)
]

pub is_vague_iff :
    (t : MicroTicket)
    → (is_vague t ≡ false) ↔ (
        (12 ≤ len (strip t.objective))
        × Every (λ w. has_text w (lower (strip t.objective)) ≡ false) vague_words)
is_vague_iff t =
    let short = ltb (len (strip t.objective)) 12 in
    let text = lower (strip t.objective) in
    let words = any_where-Every (λ w. has_text w text) vague_words in
    (
      λ h. let both = ||-false short (has_any vague_words text) h in (ground arith, words.0 both.1),
      λ h. let a : short ≡ false = ground (arith, h.0) in let b = words.1 h.1 in rw (a, b) refl,
    )

empty_symbol : (s : String) → s ≡ "" → has_text "::" s ≡ true → ⊥
unfolding has_text
empty_symbol s e h =
    let h' : has_text "::" "" ≡ true = subst (λ x. has_text "::" x ≡ true) e h in cc

pub is_unbounded_iff :
    (t : MicroTicket)
    → (is_unbounded t ≡ false) ↔ ((t.criterion_ids ≢ []) × (has_text "::" t.primary_symbol ≡ true))
is_unbounded_iff t =
    let none_listed = is_nil t.criterion_ids in
    let no_symbol = str_eq t.primary_symbol "" in
    let no_colons = not (has_text "::" t.primary_symbol) in
    (
      λ h.
          let outer = ||-false (none_listed || no_symbol) no_colons h in
          let inner = ||-false none_listed no_symbol outer.0 in
          ((is_nil-ne t.criterion_ids).0 inner.0, ground arith),
      λ h.
          let a : none_listed ≡ false = (is_nil-ne t.criterion_ids).1 h.0 in
          let b : no_symbol ≡ false =
            not_true no_symbol
              (λ e. empty_symbol t.primary_symbol ((eq_iff t.primary_symbol "").0 e) h.1) in
          let c = h.1 in rw (a, b, c) refl,
    )

pub overlaps_iff : (paths : List String) → (overlaps paths ≡ false) ↔ Distinct paths
overlaps_iff paths =
    let d = distinct-Distinct paths in (λ h. d.0 (ground arith), λ h. let e = d.1 h in ground arith)

pub is_unchecked_iff :
    (t : MicroTicket)
    → (is_unchecked t ≡ false) ↔ ((t.forbidden_changes ≢ []) × (t.verification.commands ≢ []))
is_unchecked_iff t =
    let a = is_nil t.forbidden_changes in
    let b = is_nil t.verification.commands in
    (
      λ h.
          let both = ||-false a b h in
          ((is_nil-ne t.forbidden_changes).0 both.0, (is_nil-ne t.verification.commands).0 both.1),
      λ h.
          let x = (is_nil-ne t.forbidden_changes).1 h.0 in
          let y = (is_nil-ne t.verification.commands).1 h.1 in rw (x, y) refl,
    )

abbrev pub IsRisk : String → Type 0
IsRisk r = (r ≡ "low") ⊎ ((r ≡ "medium") ⊎ (r ≡ "high"))

level_iff : (r : String) → (contains r ("low" ∷ "medium" ∷ "high" ∷ []) ≡ true) ↔ IsRisk r
level_iff r =
    let l = eq_iff "low" r in
    let m = eq_iff "medium" r in
    let g = eq_iff "high" r in
    (
      λ h. elim (Bool-cases (str_eq "low" r)) [
        | inl e ↦ inl (sym (l.0 e))
        | inr e ↦ elim (Bool-cases (str_eq "medium" r)) [
          | inl f ↦ inr (inl (sym (m.0 f)))
          | inr f ↦ inr (inr (sym (g.0 (ground arith))))
        ]
      ],
      λ h. elim h [
        | inl e ↦ let x : str_eq "low" r ≡ true = l.1 (sym e) in rw x refl
        | inr (inl e) ↦ let x : str_eq "medium" r ≡ true = m.1 (sym e) in ground arith
        | inr (inr e) ↦ let x : str_eq "high" r ≡ true = g.1 (sym e) in ground arith
      ],
    )

pub is_bad_risk_iff :
    (t : MicroTicket)
    → (is_bad_risk t ≡ false) ↔ (IsRisk t.risk × ((1 ≤ t.max_attempts) × (t.max_attempts ≤ 2)))
is_bad_risk_iff t =
    let known = contains t.risk ("low" ∷ "medium" ∷ "high" ∷ []) in
    let within = leb 1 t.max_attempts && leb t.max_attempts 2 in
    (
      λ h.
          let both = ||-false (not known) (not within) h in
          ((level_iff t.risk).0 (ground arith), (ground arith, ground arith)),
      λ h.
          let a : known ≡ true = (level_iff t.risk).1 h.0 in
          let b : within ≡ true = let x = h.1.0 in let y = h.1.1 in ground arith in rw (a, b) refl,
    )

reason_iff :
    (o : Option String)
    → (has_no_reason patch_budget_policy o ≡ false)
      ↔ ((reason : String) × (o ≡ some reason) × (12 ≤ len (strip reason)))
unfolding strip
reason_iff none = (λ h. absurd (cc), λ h. absurd (let e = h.1 in cc))
reason_iff (some reason) = (
  λ h.
      let both = ||-false (str_eq reason "") (ltb (len (strip reason)) 12) h in
      (reason, refl, ground arith),
  λ h.
      let same = some-injective _ _ h.1 in
      let long : 12 ≤ len (strip reason) = subst (λ r. 12 ≤ len (strip r)) (sym same) h.2 in
      let filled : str_eq reason "" ≡ false = not_true (str_eq reason "") (λ e.
        let empty : 12 ≤ len (strip "") =
          subst (λ r. 12 ≤ len (strip r)) ((eq_iff reason "").0 e) long in
        omega arith) in
      let not_short : ltb (len (strip reason)) 12 ≡ false = ground arith in
      rw (filled, not_short) refl,
)

pub budget_iff :
    (b : PatchBudget)
    → ((is_broad patch_budget_policy b && has_no_reason patch_budget_policy b.exception_reason)
        ≡ false)
      ↔ IsBudgeted b
budget_iff b =
    let broad = is_broad patch_budget_policy b in
    let bare = has_no_reason patch_budget_policy b.exception_reason in
    let reason = reason_iff b.exception_reason in
    (
      λ h. elim (Bool-cases broad) [
        | inr e ↦
            let both = ||-false (ltb 2 b.max_files) (ltb 180 b.max_changed_lines) e in
            normal (ground arith) (ground arith)
        | inl e ↦ let given = reason.0 (ground arith) in excepted given.0 given.1 given.2
      ],
      λ h. elim h [
        | normal f l ↦
            let x : ltb 2 b.max_files ≡ false = ground arith in
            let y : ltb 180 b.max_changed_lines ≡ false = ground arith in rw (x, y) refl
        | excepted r e l ↦ let x : bare ≡ false = reason.1 (r, e, l) in ground arith
      ],
    )
