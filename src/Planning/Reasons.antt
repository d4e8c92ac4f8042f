-- ===== src/Planning/Reasons.antt =====
-- local_first_orchestrator/decomposition.py: when a list of reasons is empty.
use mathlib.Core.Path.{subst}
use local_first_orchestrator.Base.{
  String, ◌≡◌, ◌↔◌, refl, sym, Bool, Bool-cases, inl, inr, true, false, not, List, [], ◌∷◌, ◌++◌,
  is_nil, contains, is_within, Every, sorted_set, insert_text, str_eq, eq_iff, str_lt, arith,
}
use local_first_orchestrator.Planning.Validate.{reason_if, for_each, gather, common}

-- No reason is given.
abbrev pub Clean : List String → Type 0
Clean reasons = is_nil reasons ≡ true

pub append-Clean : (a b : List String) → Clean (a ++ b) ↔ (Clean a × Clean b)
append-Clean [] b = (λ h. (refl, h), λ h. h.1)
append-Clean (x ∷ a) b = (λ h. absurd (cc), λ h. let e = h.0 in absurd (cc))

pub gather-Clean : (rs : List (List String)) → Clean (gather rs) ↔ Every Clean rs
gather-Clean [] = (λ h. tt, λ h. refl)
gather-Clean (r ∷ rs) =
    let first = append-Clean r (gather rs) in
    let rest = gather-Clean rs in
    (λ h. let both = first.0 h in (both.0, rest.0 both.1), λ h. first.1 (h.0, rest.1 h.1))

pub reason_if-Clean : (b : Bool) (reason : String) → Clean (reason_if b reason) ↔ (b ≡ false)
reason_if-Clean true reason = (λ h. absurd (cc), λ h. absurd (cc))
reason_if-Clean false reason = (λ h. refl, λ h. refl)

pub not_if-Clean : (b : Bool) (reason : String) → Clean (reason_if (not b) reason) ↔ (b ≡ true)
not_if-Clean true reason = (λ h. refl, λ h. refl)
not_if-Clean false reason = (λ h. absurd (cc), λ h. absurd (cc))

pub for_each-Clean :
    {A : Type 0} (f : A → List String) (xs : List A)
    → Clean (for_each f xs) ↔ Every (λ x. Clean (f x)) xs
for_each-Clean f [] = (λ h. tt, λ h. refl)
for_each-Clean f (x ∷ xs) =
    let first = append-Clean (f x) (for_each f xs) in
    let rest = for_each-Clean f xs in
    (λ h. let both = first.0 h in (both.0, rest.0 both.1), λ h. first.1 (h.0, rest.1 h.1))

module _ (P : String → Type 0) where
  insert_text-Every :
      (s : String) (ss : List String) → Every P (insert_text s ss) ↔ (P s × Every P ss)
  insert_text-Every s [] = (λ h. h, λ h. h)
  insert_text-Every s (t ∷ ts) = elim (Bool-cases (str_lt s t)) [
    | inl e ↦ rw e (λ h. h, λ h. h)
    | inr e ↦ rw e (elim (Bool-cases (str_eq s t)) [
      | inl same ↦
          let eq = (eq_iff s t).0 same in rw same (λ h. (subst P (sym eq) h.0, h), λ h. h.1)
      | inr other ↦
          let rest = insert_text-Every s ts in
          rw other (
            λ h. let below = rest.0 h.1 in (below.0, (h.0, below.1)),
            λ h. (h.1.0, rest.1 (h.0, h.1.1)),
          )
    ])
  ]

  sorted_set-Every : (ss : List String) → Every P (sorted_set ss) ↔ Every P ss
  sorted_set-Every [] = (λ h. tt, λ h. tt)
  sorted_set-Every (s ∷ ss) =
      let first = insert_text-Every s (sorted_set ss) in
      let rest = sorted_set-Every ss in
      (λ h. let both = first.0 h in (both.0, rest.0 both.1), λ h. first.1 (h.0, rest.1 h.1))

  common-Every :
      (ss others : List String)
      → is_within ss others ≡ true
      → Every P (common ss others) ↔ Every P ss
  common-Every [] others h = (λ p. tt, λ p. tt)
  common-Every (s ∷ ss) others h =
      let first : contains s others ≡ true = ground arith in
      let rest = common-Every ss others (ground arith) in
      rw first (λ p. (p.0, rest.0 p.1), λ p. (p.0, rest.1 p.1))

  pub covered-Every :
      (ss others : List String)
      → is_within ss others ≡ true
      → Every P (sorted_set (common ss others)) ↔ Every P ss
  covered-Every ss others h =
      let a = sorted_set-Every (common ss others) in
      let b = common-Every ss others h in (λ p. b.0 (a.0 p), λ p. a.1 (b.1 p))
