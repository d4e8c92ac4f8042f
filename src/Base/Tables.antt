-- ===== src/Base/Tables.antt =====
-- SQL tables as lists of rows: UPDATE, COUNT, SELECT, and the laws that the components share.
use Prim.Native.Nat.{ℕ, ◌+◌, ◌≤◌}
use mathlib.Core.Path.{◌≡◌, refl, ap, subst}
use mathlib.Core.Bool.{Bool, true, false, ◌&&◌}
use mathlib.Core.Logic.{inl, inr}
use mathlib.Core.Option.{Option, none, some, some-injective}
use mathlib.Core.List.{List, [], ◌∷◌}
use native.Mathlib.Omega.{arith}
use local_first_orchestrator.Base.Tests.{if◌then◌else◌, Bool-cases}

abbrev pub to_nat : Bool → ℕ
to_nat true = 1
to_nat false = 0

module _ {ℓ} {A : Type ℓ} where
  -- UPDATE table SET g WHERE q
  unfoldable pub update_where : (A → Bool) → (A → A) → List A → List A
  update_where q g [] = []
  update_where q g (x ∷ xs) = (if q x then g x else x) ∷ update_where q g xs

  -- SELECT COUNT(*) FROM table WHERE p, and the row count of an UPDATE
  unfoldable pub count_where : (A → Bool) → List A → ℕ
  count_where p [] = 0
  count_where p (x ∷ xs) = to_nat (p x) + count_where p xs

  -- SELECT * FROM table WHERE p, its first row
  unfoldable pub find_where : (A → Bool) → List A → Option A
  find_where p [] = none
  find_where p (x ∷ xs) = if p x then some x else find_where p xs

  -- SELECT * FROM table WHERE p
  unfoldable pub select_where : (A → Bool) → List A → List A
  select_where p [] = []
  select_where p (x ∷ xs) = let rest = select_where p xs in if p x then x ∷ rest else rest

  -- SELECT SUM(f) FROM table WHERE p
  unfoldable pub sum_where : (A → Bool) → (A → ℕ) → List A → ℕ
  sum_where p f [] = 0
  sum_where p f (x ∷ xs) = (if p x then f x else 0) + sum_where p f xs

  -- One row more at the head of a search for the first row in an order.
  abbrev pub better : (A → A → Bool) → Bool → A → Option A → Option A
  better before false x rest = rest
  better before true x none = some x
  better before true x (some y) = if before y x then some y else some x

  -- SELECT * FROM table WHERE p ORDER BY (before) LIMIT 1
  unfoldable pub first_by : (A → A → Bool) → (A → Bool) → List A → Option A
  first_by before p [] = none
  first_by before p (x ∷ xs) = better before (p x) x (first_by before p xs)

  abbrev pub Every {κ} : (A → Type κ) → List A → Type κ
  Every P [] = Unit
  Every P (x ∷ xs) = P x × Every P xs

module _ {ℓ} {A : Type ℓ} (q : A → Bool) where
  pub find_where-some : (xs : List A) {r : A} → find_where q xs ≡ some r → q r ≡ true
  unfolding find_where
  find_where-some [] h = ground arith
  find_where-some (x ∷ xs) {r} h = elim (Bool-cases (q x)) [
    | inl e ↦ let h' : some x ≡ some r = rw e at h in ground arith
    | inr e ↦ find_where-some xs (rw e at h)
  ]

  pub count_where-find_none : (xs : List A) → find_where q xs ≡ none → count_where q xs ≡ 0
  unfolding find_where count_where
  count_where-find_none [] h = refl
  count_where-find_none (x ∷ xs) h = elim (Bool-cases (q x)) [
    | inl e ↦ let h' : Path (Option A) (some x) none = rw e at h in ground arith
    | inr e ↦ let rest = count_where-find_none xs (rw e at h) in rw e (omega arith)
  ]

  pub find_where-count_zero : (xs : List A) → count_where q xs ≡ 0 → find_where q xs ≡ none
  unfolding find_where count_where
  find_where-count_zero [] h = refl
  find_where-count_zero (x ∷ xs) h = ground (arith, find_where-count_zero xs)

module _ {ℓ} {A : Type ℓ} (q : A → Bool) (g : A → A) where
  pub update_where-none : (xs : List A) → count_where q xs ≡ 0 → update_where q g xs ≡ xs
  unfolding update_where count_where
  update_where-none [] h = refl
  update_where-none (x ∷ xs) h = ground (arith, update_where-none xs)

  -- Where one row at most meets the condition, the update moves each count by that row alone.
  pub count_where-update_where :
      (p : A → Bool) (xs : List A) {r : A}
      → count_where q xs ≤ 1
      → find_where q xs ≡ some r
      → count_where p (update_where q g xs) + to_nat (p r) ≡ count_where p xs + to_nat (p (g r))
  unfolding update_where count_where find_where
  count_where-update_where p [] u h = ground arith
  count_where-update_where p (x ∷ xs) {r} u h = elim (Bool-cases (q x)) [
    | inl e ↦
        let same : some x ≡ some r = rw e at h in
        let rest : count_where q xs ≡ 0 = ground arith in
        rw (e, update_where-none xs rest) (ground arith)
    | inr e ↦ rw e (
        let u' : count_where q xs ≤ 1 = ground arith in
        omega (arith, count_where-update_where p xs u' (rw e at h)))
  ]

  -- An update that keeps a test keeps its count.
  pub count_where-keep :
      (p : A → Bool) (xs : List A)
      → ((x : A) → p (g x) ≡ p x)
      → count_where p (update_where q g xs) ≡ count_where p xs
  unfolding update_where count_where
  count_where-keep p [] k = refl
  count_where-keep p (x ∷ xs) k = elim (Bool-cases (q x)) [
    | inl e ↦ rw (e, k x, count_where-keep p xs k)
    | inr e ↦ rw (e, count_where-keep p xs k)
  ]

  -- An update that keeps the search condition of a row finds the updated row.
  pub find_where-update_where :
      (p : A → Bool) (xs : List A)
      → ((x : A) → p (g x) ≡ p x)
      → find_where p (update_where q g xs)
        ≡ elim (find_where p xs) [ none ↦ none | some r ↦ some (if q r then g r else r) ]
  unfolding update_where find_where
  find_where-update_where p [] k = refl
  find_where-update_where p (x ∷ xs) k = elim (Bool-cases (q x)) [
    | inl e ↦ elim (Bool-cases (p x)) [
      | inl f ↦ rw (e, k x, f) (rw e)
      | inr f ↦ rw (e, k x, f) (find_where-update_where p xs k)
    ]
    | inr e ↦ elim (Bool-cases (p x)) [
      | inl f ↦ rw (e, f) (rw e)
      | inr f ↦ rw (e, f) (find_where-update_where p xs k)
    ]
  ]

  -- No row meets the condition of an update again, where what it writes does not.
  pub count_where_self :
      (xs : List A) → ((x : A) → q (g x) ≡ false) → count_where q (update_where q g xs) ≡ 0
  unfolding update_where count_where
  count_where_self [] k = refl
  count_where_self (x ∷ xs) k = elim (Bool-cases (q x)) [
    | inl e ↦ rw (e, k x, count_where_self xs k) refl
    | inr e ↦ rw e (rw (e, count_where_self xs k) refl)
  ]

module _ {ℓ} {A : Type ℓ} (p q : A → Bool) where
  pub count_where-pos :
      (xs : List A) {r : A} → find_where p xs ≡ some r → q r ≡ true → 1 ≤ count_where q xs
  unfolding find_where count_where
  count_where-pos [] h t = ground arith
  count_where-pos (x ∷ xs) {r} h t = elim (Bool-cases (p x)) [
    | inl e ↦ let same : some x ≡ some r = rw e at h in ground arith
    | inr e ↦ let rest = count_where-pos xs (rw e at h) t in omega arith
  ]

  -- Where one row at most meets `q`, a row that meets it is the one that a search by `q` finds.
  pub find_where_unique :
      (xs : List A) {r : A}
      → find_where p xs ≡ some r
      → q r ≡ true
      → count_where q xs ≤ 1
      → find_where q xs ≡ some r
  unfolding find_where count_where
  find_where_unique [] h t u = ground arith
  find_where_unique (x ∷ xs) {r} h t u = elim (Bool-cases (p x)) [
    | inl e ↦ let same : some x ≡ some r = rw e at h in ground arith
    | inr e ↦
        let h' = rw e at h in
        let u' : count_where q xs ≤ 1 = omega arith in
        ground (arith, count_where-pos xs h' t, find_where_unique xs h' t u')
  ]

  pub count_where-and : (xs : List A) → count_where (λ x. p x && q x) xs ≤ count_where p xs
  unfolding count_where
  count_where-and [] = omega arith
  count_where-and (x ∷ xs) = ground (arith, count_where-and xs)

module _ {ℓ κ} {A : Type ℓ} (P : A → Type κ) where
  pub Every-update_where :
      (q : A → Bool) (g : A → A) (xs : List A)
      → ((x : A) → P x → P (g x))
      → Every P xs
      → Every P (update_where q g xs)
  unfolding update_where
  Every-update_where q g [] keep h = tt
  Every-update_where q g (x ∷ xs) keep h = elim (Bool-cases (q x)) [
    | inl e ↦ rw e (keep x h.0, Every-update_where q g xs keep h.1)
    | inr e ↦ rw e (h.0, Every-update_where q g xs keep h.1)
  ]

  pub better-cases :
      (before : A → A → Bool) (b : Bool) (x : A) (o : Option A) {r : A}
      → (b ≡ true → P x)
      → ((y : A) → o ≡ some y → P y)
      → better before b x o ≡ some r
      → P r
  better-cases before false x o {r} px po e = po r e
  better-cases before true x none px po e = subst P (some-injective _ _ e) (px refl)
  better-cases before true x (some y) {r} px po e = elim (Bool-cases (before y x)) [
    | inl t ↦ po r (ap some (some-injective _ _ (rw t at e)))
    | inr t ↦ subst P (some-injective _ _ (rw t at e)) (px refl)
  ]

  pub Every-first_by :
      (before : A → A → Bool) (p : A → Bool) (xs : List A) {r : A}
      → Every P xs
      → first_by before p xs ≡ some r
      → P r
  unfolding first_by
  Every-first_by before p [] h e = absurd (cc)
  Every-first_by before p (x ∷ xs) h e =
      better-cases before (p x) x (first_by before p xs) (λ _. h.0)
        (λ y f. Every-first_by before p xs h.1 f) e

  pub first_by-satisfies :
      (before : A → A → Bool) (p : A → Bool) (xs : List A) {r : A}
      → ((x : A) → p x ≡ true → P x)
      → first_by before p xs ≡ some r
      → P r
  unfolding first_by
  first_by-satisfies before p [] h e = absurd (cc)
  first_by-satisfies before p (x ∷ xs) h e =
      better-cases before (p x) x (first_by before p xs) (h x)
        (λ y f. first_by-satisfies before p xs h f) e

-- Of the rows that a condition selects, none meets a test that no row meets, or that one row at most
-- meets, where that row is not selected.
module _ {ℓ} {A : Type ℓ} (p q : A → Bool) where
  pub select_where_none :
      (xs : List A) → count_where p xs ≡ 0 → Every (λ x. p x ≡ false) (select_where q xs)
  unfolding select_where count_where
  select_where_none [] h = tt
  select_where_none (x ∷ xs) h =
      let rest = select_where_none xs (omega arith) in
      elim (Bool-cases (q x)) [ inl e ↦ rw e (ground arith, rest) | inr e ↦ rw e rest ]

  pub select_where_other :
      (xs : List A) {r : A}
      → count_where p xs ≤ 1
      → find_where p xs ≡ some r
      → q r ≡ false
      → Every (λ x. p x ≡ false) (select_where q xs)
  unfolding select_where count_where find_where
  select_where_other [] u h n = tt
  select_where_other (x ∷ xs) {r} u h n = elim (Bool-cases (p x)) [
    | inl e ↦
        let same : some x ≡ some r = rw e at h in
        let rest : count_where p xs ≡ 0 = ground arith in
        let not_selected : q x ≡ false = ground arith in rw not_selected (select_where_none xs rest)
    | inr e ↦
        let rest = select_where_other xs (omega arith) (rw e at h) n in
        elim (Bool-cases (q x)) [ inl f ↦ rw f (e, rest) | inr f ↦ rw f rest ]
  ]

pub Every-weaken {ℓ κ μ} :
    {A : Type ℓ} {P : A → Type κ} {Q : A → Type μ} (xs : List A)
    → ((x : A) → P x → Q x)
    → Every P xs
    → Every Q xs
Every-weaken [] w h = tt
Every-weaken (x ∷ xs) w h = (w x h.0, Every-weaken xs w h.1)
