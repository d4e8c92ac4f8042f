-- ===== src/Ledger/Calls.antt =====
-- local_first_orchestrator/ledger.py: calls of the ledger, one after the other, of which each may raise.
use local_first_orchestrator.Base.{◌≡◌, refl, ap, Result, ok, err, ok_injective}
use local_first_orchestrator.Ledger.{Ledger}

-- A call of the ledger, and what follows it unless it raises.
abbrev pub after_call :
    {A B : Type 0} → Result A × Ledger → (A → Ledger → Result B × Ledger) → Result B × Ledger
after_call (ok a, db) k = k a db
after_call (err e, db) k = (err e, db)

pub pair_ok :
    {A : Type 0} {a b : A} {s t : Ledger}
    → Path (Result A × Ledger) (ok a, s) (ok b, t)
    → (a ≡ b) × (s ≡ t)
pair_ok p = (ok_injective (ap (λ x. x.0) p), ap (λ x. x.1) p)

pub after_call-ok :
    {A B : Type 0} (r : Result A × Ledger) (k : A → Ledger → Result B × Ledger) {b : B} {s : Ledger}
    → after_call r k ≡ (ok b, s)
    → (a : A) × (t : Ledger) × (r ≡ (ok a, t)) × (k a t ≡ (ok b, s))
after_call-ok (ok a, t) k h = (a, t, refl, h)
after_call-ok (err e, t) k h = absurd (let e' = ap (λ x. x.0) h in cc)
