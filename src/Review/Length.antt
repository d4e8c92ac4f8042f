-- ===== src/Review/Length.antt =====
-- `len` of a text, in characters, and the lengths of its parts.
use Prim.Native.Nat.{ℕ, zero, suc, ◌+◌, ◌-◌, min}
use Prim.Native.String.{String, [], ◌∷◌, ◌++◌}
use mathlib.Core.Path.{◌≡◌, ap}
use text.Mathlib.TextLemmas.{nil-append, cons-append}
use native.Mathlib.Omega.{arith}
use local_first_orchestrator.Base.{take_chars, len}

-- `text[n:]`
abbrev pub drop_chars : ℕ → String → String
drop_chars zero s = s
drop_chars (suc n) [] = []
drop_chars (suc n) (c ∷ s) = drop_chars n s

pub len-append : (s t : String) → len (s ++ t) ≡ len s + len t
len-append [] t = let e = ap len (nil-append t) in omega arith
len-append (c ∷ s) t = let e = ap len (cons-append c s t) in let k = len-append s t in omega arith

pub len-take : (n : ℕ) (s : String) → len (take_chars n s) ≡ min n (len s)
len-take zero s = omega arith
len-take (suc n) [] = omega arith
len-take (suc n) (c ∷ s) = let k = len-take n s in omega arith

pub len-drop : (n : ℕ) (s : String) → len (drop_chars n s) ≡ len s - n
len-drop zero s = omega arith
len-drop (suc n) [] = omega arith
len-drop (suc n) (c ∷ s) = let k = len-drop n s in omega arith
