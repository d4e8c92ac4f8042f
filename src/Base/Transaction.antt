-- ===== src/Base/Transaction.antt =====
-- Python's exceptions as values, and `Ledger._transaction`: a body that raises is rolled back.
use Prim.Native.String.{String}
use mathlib.Core.Path.{◌≡◌, refl}
use mathlib.Core.Bool.{Bool, true, false}

pub data Error : Type 0 where
  value_error key_error permission_error runtime_error type_error : String → Error
  integrity_error : Error

pub data Result {ℓ} (A : Type ℓ) : Type ℓ where
  ok : A → Result A
  err : Error → Result A

-- A statement that runs inside a transaction over the state `S`.
abbrev pub Tx {ℓ κ} : Type ℓ → Type κ → Type (ℓ ⊔ κ)
Tx S A = S → Result (A × S)

infixl 5 ◌>>=◌ ◌>>◌
abbrev pub ◌>>=◌ {ℓ κ μ} : {S : Type ℓ} {A : Type κ} {B : Type μ} → Tx S A → (A → Tx S B) → Tx S B
◌>>=◌ m f s = elim (m s) [ ok (a, s') ↦ f a s' | err e ↦ err e ]

abbrev pub ◌>>◌ {ℓ κ} : {S : Type ℓ} {B : Type κ} → Tx S (Unit {0}) → Tx S B → Tx S B
m >> k = m >>= λ _. k

abbrev pub pure {ℓ κ} : {S : Type ℓ} {A : Type κ} → A → Tx S A
pure a s = ok (a, s)

abbrev pub raise {ℓ κ} : {S : Type ℓ} {A : Type κ} → Error → Tx S A
raise e s = err e

abbrev pub gets {ℓ κ} : {S : Type ℓ} {A : Type κ} → (S → A) → Tx S A
gets f s = ok (f s, s)

abbrev pub modify {ℓ} : {S : Type ℓ} → (S → S) → Tx S (Unit {0})
modify f s = ok (tt, f s)

abbrev pub require {ℓ} : {S : Type ℓ} → Bool → Error → Tx S (Unit {0})
require true e s = ok (tt, s)
require false e s = err e

-- COMMIT, or ROLLBACK to the state that the transaction began in.
abbrev pub commit_or_rollback {ℓ κ} : {S : Type ℓ} {A : Type κ} → S → Result (A × S) → Result A × S
commit_or_rollback s (ok (a, s')) = (ok a, s')
commit_or_rollback s (err e) = (err e, s)

unfoldable pub transaction {ℓ κ} : {S : Type ℓ} {A : Type κ} → Tx S A → S → Result A × S
transaction body s = commit_or_rollback s (body s)

-- A call that raises has changed nothing.
pub transaction_rollback {ℓ κ} :
    {S : Type ℓ} {A : Type κ} (body : Tx S A) (s : S) {e : Error}
    → (transaction body s).0 ≡ err e
    → (transaction body s).1 ≡ s
unfolding transaction
transaction_rollback {S = S} {A} body s {e} h = kept (body s) h
  where
    kept :
        (r : Result (A × S)) → (commit_or_rollback s r).0 ≡ err e → (commit_or_rollback s r).1 ≡ s
    kept (ok (a, s')) p = cc
    kept (err e') p = refl
