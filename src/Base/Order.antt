-- ===== src/Base/Order.antt =====
-- SQLite's ORDER BY: the order of texts, and the first row in an order.
use Prim.Native.Nat.{ℕ, Ordering, compare as compare_ℕ}
use Prim.Native.Char.{Char, code}
use Prim.Native.String.compare
use Prim.Native.String.{String, [], ◌∷◌, then, compare}
use mathlib.Core.Path.{◌≡◌, sym, ◌∙◌, ap, subst}
use mathlib.Core.Bool.{Bool, true, false}
use mathlib.Core.Logic.{inl, inr}
use mathlib.Core.Option.{none, some, some-injective}
use mathlib.Core.List.{List, [], ◌∷◌}
use native.Mathlib.Omega.{arith}
use text.Mathlib.Text.{is_lt}
use local_first_orchestrator.Base.Tests.{str_lt, Bool-cases, Option-cases}
use local_first_orchestrator.Base.Tables.{Every, first_by}

-- The order of two texts, from that of their first characters and of the rest
then_trans :
    (m n k : ℕ) (a b c : Ordering)
    → (is_lt a ≡ false → is_lt b ≡ false → is_lt c ≡ false)
    → is_lt (then (compare_ℕ m n) a) ≡ false
    → is_lt (then (compare_ℕ n k) b) ≡ false
    → is_lt (then (compare_ℕ m k) c) ≡ false
then_trans m n k a b c h p q = ground arith

then_asym :
    (m n : ℕ) (a b : Ordering)
    → (is_lt a ≡ true → is_lt b ≡ false)
    → is_lt (then (compare_ℕ m n) a) ≡ true
    → is_lt (then (compare_ℕ n m) b) ≡ false
then_asym m n a b h p = ground arith

lt-nil-cons : (d : Char) (t : String) → str_lt [] (d ∷ t) ≡ true
lt-nil-cons d t = ap is_lt (compare.nil-cons d t)

lt-cons-nil : (c : Char) (s : String) → str_lt (c ∷ s) [] ≡ false
lt-cons-nil c s = ap is_lt (compare.cons-nil c s)

lt-cons-cons :
    (c d : Char) (s t : String)
    → str_lt (c ∷ s) (d ∷ t) ≡ is_lt (then (compare_ℕ (code c) (code d)) (compare s t))
lt-cons-cons c d s t = ap is_lt (compare.cons-cons c d s t)

pub str_lt_trans : (s t u : String) → str_lt s t ≡ false → str_lt t u ≡ false → str_lt s u ≡ false
str_lt_trans [] [] u p q = q
str_lt_trans [] (d ∷ t) u p q = absurd (let e = lt-nil-cons d t in cc)
str_lt_trans (c ∷ s) t [] p q = lt-cons-nil c s
str_lt_trans (c ∷ s) [] (e ∷ u) p q = absurd (let f = lt-nil-cons e u in cc)
str_lt_trans (c ∷ s) (d ∷ t) (e ∷ u) p q =
    lt-cons-cons c e s u
    ∙ then_trans (code c) (code d) (code e) (compare s t) (compare t u) (compare s u)
        (str_lt_trans s t u) (sym (lt-cons-cons c d s t) ∙ p) (sym (lt-cons-cons d e t u) ∙ q)

pub str_lt_asym : (s t : String) → str_lt s t ≡ true → str_lt t s ≡ false
str_lt_asym [] [] p = absurd (cc)
str_lt_asym [] (d ∷ t) p = lt-cons-nil d t
str_lt_asym (c ∷ s) [] p = absurd (let e = lt-cons-nil c s in cc)
str_lt_asym (c ∷ s) (d ∷ t) p =
    lt-cons-cons d c t s
    ∙ then_asym (code c) (code d) (compare s t) (compare t s) (str_lt_asym s t)
        (sym (lt-cons-cons c d s t) ∙ p)

-- No row of a table that meets a condition comes before a given one.
module _ {ℓ} {A : Type ℓ} (before : A → A → Bool) (p : A → Bool) where
  abbrev pub IsFirst : A → List A → Type 0
  IsFirst r xs = Every (λ m. p m ≡ true → before m r ≡ false) xs

  pub first_by-none : (xs : List A) → first_by before p xs ≡ none → Every (λ m. p m ≡ false) xs
  unfolding first_by
  first_by-none [] e = tt
  first_by-none (x ∷ xs) e = elim (Bool-cases (p x)) [
    | inl px ↦ elim (Option-cases (first_by before p xs)) [
      | inl f ↦ absurd (let e' = rw (px, f) at e in cc)
      | inr (y, f) ↦ elim (Bool-cases (before y x)) [
        | inl b ↦ absurd (let e' = rw (px, f, b) at e in cc)
        | inr b ↦ absurd (let e' = rw (px, f, b) at e in cc)
      ]
    ]
    | inr px ↦ (px, first_by-none xs (rw px at e))
  ]

  module _ (trans : (a b c : A) → before a b ≡ false → before b c ≡ false → before a c ≡ false)
      (asym : (a b : A) → before a b ≡ true → before b a ≡ false) where
    irrefl : (a : A) → before a a ≡ false
    irrefl a = elim (Bool-cases (before a a)) [ inl e ↦ asym a a e | inr e ↦ e ]

    IsFirst-weaken : (r r' : A) (xs : List A) → before r r' ≡ false → IsFirst r xs → IsFirst r' xs
    IsFirst-weaken r r' [] h f = tt
    IsFirst-weaken r r' (x ∷ xs) h f = (λ px. trans x r r' (f.0 px) h, IsFirst-weaken r r' xs h f.1)

    -- A row that is not before any row is first, where none meets the condition
    vacuous : (r : A) (xs : List A) → Every (λ m. p m ≡ false) xs → IsFirst r xs
    vacuous r [] h = tt
    vacuous r (x ∷ xs) h = (λ px. absurd (let o = h.0 in cc), vacuous r xs h.1)

    pub first_by-IsFirst : (xs : List A) {r : A} → first_by before p xs ≡ some r → IsFirst r xs
    unfolding first_by
    first_by-IsFirst [] e = absurd (cc)
    first_by-IsFirst (x ∷ xs) {r} e = elim (Bool-cases (p x)) [
      | inl px ↦ elim (Option-cases (first_by before p xs)) [
        | inl f ↦
            let same : x ≡ r = some-injective _ _ (rw (px, f) at e) in
            subst (λ r. IsFirst r (x ∷ xs)) same (λ _. irrefl x, vacuous x xs (first_by-none xs f))
        | inr (y, f) ↦ elim (Bool-cases (before y x)) [
          | inl b ↦
              let same : y ≡ r = some-injective _ _ (rw (px, f, b) at e) in
              subst (λ r. IsFirst r (x ∷ xs)) same (λ _. asym y x b, first_by-IsFirst xs f)
          | inr b ↦
              let same : x ≡ r = some-injective _ _ (rw (px, f, b) at e) in
              subst (λ r. IsFirst r (x ∷ xs)) same
                (λ _. irrefl x, IsFirst-weaken y x xs b (first_by-IsFirst xs f))
        ]
      ]
      | inr px ↦ (λ t. absurd (cc), first_by-IsFirst xs (rw px at e))
    ]
