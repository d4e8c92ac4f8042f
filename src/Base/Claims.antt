-- ===== src/Base/Claims.antt =====
-- The read-back of a row that was just written: SELECT after UPDATE in the outboxes' claims.
use Prim.Native.Nat.{◌≤◌}
use mathlib.Core.Path.{◌≡◌, refl}
use mathlib.Core.Bool.{Bool, true, false}
use mathlib.Core.Logic.{inl, inr}
use mathlib.Core.Option.{none, some, some-injective}
use mathlib.Core.List.{List, [], ◌∷◌}
use native.Mathlib.Omega.{arith}
use local_first_orchestrator.Base.Tests.{Bool-cases}
use local_first_orchestrator.Base.Tables.{
  update_where, count_where, find_where, first_by, better-cases, count_where-update_where,
  count_where-pos,
}

module _ {ℓ} {A : Type ℓ} (before : A → A → Bool) (p q : A → Bool) where
  none_first : (xs : List A) → count_where p xs ≡ 0 → first_by before p xs ≡ none
  unfolding count_where first_by
  none_first [] h = refl
  none_first (x ∷ xs) h = elim (Bool-cases (p x)) [
    | inl e ↦ absurd (ground arith)
    | inr e ↦ rw e (none_first xs (ground arith))
  ]

  -- Where one row at most meets the condition, the order does not matter.
  only_first :
      (xs : List A) {r : A}
      → count_where p xs ≤ 1
      → find_where p xs ≡ some r
      → first_by before p xs ≡ some r
  unfolding count_where find_where first_by
  only_first [] u h = absurd (cc)
  only_first (x ∷ xs) u h = elim (Bool-cases (p x)) [
    | inl e ↦
        let rest : count_where p xs ≡ 0 = ground arith in rw (e, none_first xs rest) (rw e at h)
    | inr e ↦ rw e (only_first xs (ground arith) (rw e at h))
  ]

  found_later :
      (x : A) (xs : List A) (y : A)
      → find_where q xs ≡ some y
      → q y ≡ true
      → count_where q (x ∷ xs) ≤ 1
      → find_where q (x ∷ xs) ≡ some y
  unfolding count_where find_where
  found_later x xs y f t u =
      let pos = count_where-pos q q xs f t in let other : q x ≡ false = ground arith in rw other f

  -- The first row in an order is the one that a condition finds, where it alone meets it.
  pub first_by_unique :
      (xs : List A) {r : A}
      → first_by before p xs ≡ some r
      → q r ≡ true
      → count_where q xs ≤ 1
      → find_where q xs ≡ some r
  unfolding count_where find_where first_by
  first_by_unique [] h t u = absurd (cc)
  first_by_unique (x ∷ xs) {r} h t u =
      better-cases (λ r. q r ≡ true → find_where q (x ∷ xs) ≡ some r) before (p x) x
        (first_by before p xs) (λ _ tx. rw tx refl)
        (λ y f ty. found_later x xs y (first_by_unique xs f ty (ground arith)) ty u) h t

module _ {ℓ} {A : Type ℓ} (before : A → A → Bool) (p q : A → Bool) (g : A → A) where
  written :
      (xs : List A) {r : A}
      → count_where p xs ≡ 0
      → find_where q xs ≡ some r
      → p (g r) ≡ true
      → find_where p (update_where q g xs) ≡ some (g r)
  unfolding count_where find_where update_where
  written [] z h t = absurd (cc)
  written (x ∷ xs) {r} z h t = elim (Bool-cases (q x)) [
    | inl e ↦ let same : x ≡ r = some-injective _ _ (rw e at h) in rw (e, same) (rw t refl)
    | inr e ↦
        let other : p x ≡ false = ground arith in
        rw e (rw other (written xs (ground arith) (rw e at h) t))
  ]

  -- Where no row met the condition before the update, which writes one row, what the search finds after
  -- it is that row.
  pub read_back :
      (xs : List A) {r : A}
      → count_where p xs ≡ 0
      → count_where q xs ≤ 1
      → find_where q xs ≡ some r
      → p (g r) ≡ true
      → p r ≡ false
      → first_by before p (update_where q g xs) ≡ some (g r)
  read_back xs {r} z u h t f =
      let moved = count_where-update_where q g p xs u h in
      only_first before p q (update_where q g xs) (let m = rw (z, t, f) at moved in omega arith)
        (written xs z h t)
