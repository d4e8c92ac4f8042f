-- ===== src/Base/Tests.antt =====
-- Boolean tests on native numbers, texts and options, and the conditional.
use Prim.Native.Nat.{ℕ, ◌≤◌, ◌<◌, ◌+◌, compare, Ordering}
use Prim.Native.String.{String}
use mathlib.Core.Path.{◌≡◌, refl}
use mathlib.Core.Logic.{◌⊎◌, inl, inr}
use mathlib.Core.Bool.{Bool, true, false, ◌&&◌, ◌||◌}
use mathlib.Core.Option.{Option, none, some}
use mathlib.Core.List.{List, [], ◌∷◌}
use native.Mathlib.Omega.{arith}
use Prim.Native.String.{compare as compare_text}
use text.Mathlib.Text.{◌==◌ as text_eq, is_lt}

abbrev pub ltb : ℕ → ℕ → Bool
ltb a b = elim (compare a b) [ Ordering.lt ↦ true | _ ↦ false ]

abbrev pub leb : ℕ → ℕ → Bool
leb a b = elim (compare a b) [ Ordering.gt ↦ false | _ ↦ true ]

infix 50 ◌==◌
abbrev pub ◌==◌ : ℕ → ℕ → Bool
a == b = elim (compare a b) [ Ordering.eq ↦ true | _ ↦ false ]

abbrev pub str_eq : String → String → Bool
str_eq s t = text_eq s t

-- SQLite's order of texts: by their UTF-8 bytes, which is the order of their code points.
abbrev pub str_lt : String → String → Bool
str_lt s t = is_lt (compare_text s t)

infix 1 if◌then◌else◌
abbrev pub if◌then◌else◌ {ℓ} : {A : Type ℓ} → Bool → A → A → A
if true then x else y = x
if false then x else y = y

pub leb→le : (a b : ℕ) → leb a b ≡ true → a ≤ b
leb→le a b h = ground arith

pub leb→lt : (a b : ℕ) → leb a b ≡ false → b < a
leb→lt a b h = ground arith

pub lt→leb : (a b : ℕ) → b < a → leb a b ≡ false
lt→leb a b h = ground arith

-- To split on a computed value and keep the equation.
pub Bool-cases : (b : Bool) → (b ≡ true) ⊎ (b ≡ false)
Bool-cases true = inl refl
Bool-cases false = inr refl

pub Option-cases {ℓ} : {A : Type ℓ} (o : Option A) → (o ≡ none) ⊎ ((a : A) × (o ≡ some a))
Option-cases none = inl refl
Option-cases (some a) = inr (a, refl)

-- `x IS NULL`
abbrev pub is_null {ℓ} : {A : Type ℓ} → Option A → Bool
is_null none = true
is_null (some _) = false

-- `column IS NULL OR column <= now`
abbrev pub due : Option ℕ → ℕ → Bool
due none now = true
due (some t) now = leb t now

-- `column <= now` and `column > now`, which a NULL column meets in neither case
abbrev pub at_most : Option ℕ → ℕ → Bool
at_most none now = false
at_most (some t) now = leb t now

abbrev pub after : Option ℕ → ℕ → Bool
after none now = false
after (some t) now = ltb now t

-- `column = text`, false for NULL
abbrev pub opt_eq : Option String → String → Bool
opt_eq none s = false
opt_eq (some t) s = str_eq t s

-- `COALESCE(column, value)`
abbrev pub coalesce {ℓ} : {A : Type ℓ} → Option A → A → A
coalesce none d = d
coalesce (some a) d = a

pub &&-true : (a b : Bool) → (a && b) ≡ true → (a ≡ true) × (b ≡ true)
&&-true a b h = ground arith

pub is_null→none {ℓ} : {A : Type ℓ} (o : Option A) → is_null o ≡ true → o ≡ none
is_null→none none h = refl
is_null→none (some a) h = cc

-- `value in values`
abbrev pub contains : String → List String → Bool
contains s [] = false
contains s (t ∷ ts) = str_eq t s || contains s ts

-- `set(values) <= set(others)`
abbrev pub is_within : List String → List String → Bool
is_within [] others = true
is_within (s ∷ ss) others = contains s others && is_within ss others

-- `any(p(x) for x in values)`
abbrev pub any_where {ℓ} : {A : Type ℓ} → (A → Bool) → List A → Bool
any_where p [] = false
any_where p (x ∷ xs) = p x || any_where p xs

-- `not values`
abbrev pub is_nil {ℓ} : {A : Type ℓ} → List A → Bool
is_nil [] = true
is_nil (_ ∷ _) = false

-- `len(values)`
abbrev pub count {ℓ} : {A : Type ℓ} → List A → ℕ
count [] = 0
count (x ∷ xs) = 1 + count xs

pub ||-false : (a b : Bool) → (a || b) ≡ false → (a ≡ false) × (b ≡ false)
||-false a b h = ground arith

-- One element more in the sorted list of a set's elements
abbrev pub insert_text : String → List String → List String
insert_text s [] = s ∷ []
insert_text s (t ∷ ts) =
    let rest = insert_text s ts in
    if str_lt s t then s ∷ t ∷ ts else (if str_eq s t then t ∷ ts else t ∷ rest)

-- `sorted(set(values))`
abbrev pub sorted_set : List String → List String
sorted_set [] = []
sorted_set (s ∷ ss) = insert_text s (sorted_set ss)
