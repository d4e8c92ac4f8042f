-- ===== src/Base/Postconditions.antt =====
-- Postconditions of transaction bodies: what holds of the state if the body does not raise.
use mathlib.Core.Path.{◌≡◌, refl, subst}
use mathlib.Core.Bool.{Bool, true, false}
use mathlib.Core.Logic.{◌⊎◌, inl, inr}
use mathlib.Core.Option.{Option, none, some}
use local_first_orchestrator.Base.Tests.{if◌then◌else◌}
use local_first_orchestrator.Base.Transaction.{
  Error, Result, ok, err, Tx, ◌>>◌, require, transaction, commit_or_rollback,
}

pub ok_injective {ℓ} : {A : Type ℓ} {a b : A} → Path (Result A) (ok a) (ok b) → a ≡ b
ok_injective p = cc

pub Result-cases {ℓ} :
    {A : Type ℓ} (r : Result A) → ((e : Error) × (r ≡ err e)) ⊎ ((a : A) × (r ≡ ok a))
Result-cases (ok a) = inr (a, refl)
Result-cases (err e) = inl (e, refl)

-- Where a body raises nothing is claimed: the transaction is rolled back.
abbrev pub Holds {ℓ κ μ} : {S : Type ℓ} {A : Type κ} → (A → S → Type μ) → Result (A × S) → Type μ
Holds Q (ok (a, s)) = Q a s
Holds Q (err e) = Unit

pub record Ensures {ℓ κ μ} {S : Type ℓ} {A : Type κ} (Q : A → S → Type μ) (r : Result (A × S))
    : Type μ where
  pub holds : Holds Q r

module _ {ℓ κ μ} {S : Type ℓ} {A : Type κ} {Q : A → S → Type μ} where
  pub Ensures-ok : {a : A} {s : S} → Q a s → Ensures Q (ok (a, s))
  Ensures-ok q = record { holds = q }

  pub Ensures-err : (e : Error) → Ensures Q (err e)
  Ensures-err e = record { holds = tt }

  pub Ensures-require :
      (b : Bool) (e : Error) (k : Tx S A) (s : S)
      → (b ≡ true → Ensures Q (k s))
      → Ensures Q ((require b e >> k) s)
  Ensures-require true e k s h = record { holds = (h refl).holds }
  Ensures-require false e k s h = record { holds = tt }

  -- The same for a check at the head of the first of two statements.
  pub Ensures-require_first :
      (b : Bool) (e : Error) (m : Tx S (Unit {0})) (k : Tx S A) (s : S)
      → (b ≡ true → Ensures Q ((m >> k) s))
      → Ensures Q (((require b e >> m) >> k) s)
  Ensures-require_first true e m k s h = record { holds = (h refl).holds }
  Ensures-require_first false e m k s h = record { holds = tt }

  pub Ensures-if :
      (b : Bool) (m n : Tx S A) (s : S)
      → (b ≡ true → Ensures Q (m s))
      → (b ≡ false → Ensures Q (n s))
      → Ensures Q ((if b then m else n) s)
  Ensures-if true m n s hm hn = hm refl
  Ensures-if false m n s hm hn = hn refl

  pub Ensures-row {ν} :
      {R : Type ν} (o : Option R) (n : Tx S A) (m : R → Tx S A) (s : S)
      → (o ≡ none → Ensures Q (n s))
      → ((r : R) → o ≡ some r → Ensures Q (m r s))
      → Ensures Q ((elim o as (λ _. Tx S A) [ none ↦ n | some r ↦ m r ]) s)
  Ensures-row none n m s hn hm = hn refl
  Ensures-row (some r) n m s hn hm = hm r refl

  pub Ensures-result {ν} :
      {R : Type ν} (r : Result R) (n : Error → Tx S A) (m : R → Tx S A) (s : S)
      → ((e : Error) → r ≡ err e → Ensures Q (n e s))
      → ((a : R) → r ≡ ok a → Ensures Q (m a s))
      → Ensures Q ((elim r as (λ _. Tx S A) [ err e ↦ n e | ok a ↦ m a ]) s)
  Ensures-result (ok a) n m s hn hm = hm a refl
  Ensures-result (err e) n m s hn hm = hn e refl

pub Ensures-weaken {ℓ κ μ ν} :
    {S : Type ℓ} {A : Type κ} {Q : A → S → Type μ} {R : A → S → Type ν} (r : Result (A × S))
    → ((a : A) (s : S) → Q a s → R a s)
    → Ensures Q r
    → Ensures R r
Ensures-weaken (ok (a, s)) w h = record { holds = w a s h.holds }
Ensures-weaken (err e) w h = record { holds = tt }

-- A check as the last statement.
pub Ensures-check {ℓ μ} :
    {S : Type ℓ} {Q : Unit {0} → S → Type μ} (b : Bool) (e : Error) (s : S)
    → (b ≡ true → Q tt s)
    → Ensures Q (require b e s)
Ensures-check true e s h = record { holds = h refl }
Ensures-check false e s h = record { holds = tt }

module _ {ℓ κ μ ν ξ} {S : Type ℓ} {A : Type κ} {B : Type ν} {R : A → S → Type ξ}
    {Q : B → S → Type μ} where
  pub Ensures-bind :
      (r : Result (A × S)) (f : A → Tx S B)
      → Ensures R r
      → ((a : A) (s : S) → R a s → Ensures Q (f a s))
      → Ensures Q (elim r as (λ _. Result (B × S)) [ ok (a, s) ↦ f a s | err e ↦ err e ])
  Ensures-bind (ok (a, s)) f h k = k a s h.holds
  Ensures-bind (err e) f h k = record { holds = tt }

-- A property of the state that a body ensures holds after the transaction, committed or not.
pub transaction-keeps {ℓ κ μ} :
    {S : Type ℓ} {A : Type κ} (P : S → Type μ) (m : Tx S A) (s : S)
    → P s
    → Ensures (λ (a : A). P) (m s)
    → P (transaction m s).1
unfolding transaction
transaction-keeps {S = S} {A} P m s p h = kept (m s) h.holds
  where
    kept : (r : Result (A × S)) → Holds (λ (a : A). P) r → P (commit_or_rollback s r).1
    kept (ok (a, s')) q = q
    kept (err e) q = p

-- What holds of the state on both branches of a function that returns its result with the state.
module _ {ℓ κ μ} {S : Type ℓ} {A : Type κ} (P : S → Type μ) where
  pub keeps-row {ν} :
      {R : Type ν} (o : Option R) (n : A × S) (m : R → A × S)
      → P n.1
      → ((r : R) → o ≡ some r → P (m r).1)
      → P (elim o as (λ _. A × S) [ none ↦ n | some r ↦ m r ]).1
  keeps-row none n m hn hm = hn
  keeps-row (some r) n m hn hm = hm r refl

  pub keeps-if :
      (b : Bool) (x y : A × S) → (b ≡ true → P x.1) → (b ≡ false → P y.1) → P (if b then x else y).1
  keeps-if true x y hx hy = hx refl
  keeps-if false x y hx hy = hy refl

  pub keeps-result {ν} :
      {R : Type ν} (r : Result R) (n : Error → A × S) (m : R → A × S)
      → ((e : Error) → P (n e).1)
      → ((a : R) → P (m a).1)
      → P (elim r as (λ _. A × S) [ err e ↦ n e | ok a ↦ m a ]).1
  keeps-result (ok a) n m hn hm = hm a
  keeps-result (err e) n m hn hm = hn e

-- What a body ensures holds of a transaction that has returned.
pub transaction-ensures {ℓ κ μ} :
    {S : Type ℓ} {A : Type κ} (Q : A → S → Type μ) (m : Tx S A) (s : S) {a : A}
    → Ensures Q (m s)
    → (transaction m s).0 ≡ ok a
    → Q a (transaction m s).1
unfolding transaction
transaction-ensures {S = S} {A} Q m s {a} h e = kept (m s) h.holds e
  where
    kept :
        (r : Result (A × S))
        → Holds Q r
        → (commit_or_rollback s r).0 ≡ ok a
        → Q a (commit_or_rollback s r).1
    kept (ok (b, s')) q p = subst (λ c. Q c s') (ok_injective p) q
    kept (err x) q p = absurd (cc)

-- What holds of a value that is computed by a test or from a row.
module _ {ℓ κ} {A : Type ℓ} (P : A → Type κ) where
  pub on_if : (b : Bool) (x y : A) → (b ≡ true → P x) → (b ≡ false → P y) → P (if b then x else y)
  on_if true x y hx hy = hx refl
  on_if false x y hx hy = hy refl

  pub on_row {ν} :
      {R : Type ν} (o : Option R) (n : A) (m : R → A)
      → (o ≡ none → P n)
      → ((r : R) → o ≡ some r → P (m r))
      → P (elim o as (λ _. A) [ none ↦ n | some r ↦ m r ])
  on_row none n m hn hm = hn refl
  on_row (some r) n m hn hm = hm r refl
