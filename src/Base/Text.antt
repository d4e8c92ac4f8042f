-- ===== src/Base/Text.antt =====
-- `str.strip()` as the code uses it: whether anything is left.
use Prim.Native.Nat.{ℕ, zero, suc, ◌/◌, ◌%◌, ◌-◌}
use Prim.Native.Char.{Char, code}
use Prim.Native.String.{String, [], ◌∷◌, ◌++◌}
use mathlib.Core.Bool.{Bool, true, ◌&&◌, ◌||◌}
use mathlib.Core.Path.{◌≡◌, refl}
use package.text.Mathlib.Text.{starts_with}
use local_first_orchestrator.Base.Tests.{◌==◌, leb, ltb, if◌then◌else◌}

-- `len(text)`
abbrev pub len : String → ℕ
len [] = 0
len (c ∷ s) = suc (len s)

-- The characters for which Python's `str.isspace` holds.
is_space : ℕ → Bool
is_space c =
    leb 9 c && leb c 13
    || leb 28 c && leb c 32
    || c == 133
    || c == 160
    || c == 5760
    || leb 8192 c && leb c 8202
    || c == 8232
    || c == 8233
    || c == 8239
    || c == 8287
    || c == 12288

-- `not text.strip()`
unfoldable pub is_blank : String → Bool
unfolding is_space
is_blank [] = true
is_blank (c ∷ s) = is_space (code c) && is_blank s

-- `text.strip()`: the part between the first and the last character that is no space
abbrev strip_end : String → String
strip_end [] = []
strip_end (c ∷ s) = let rest = strip_end s in if is_blank (c ∷ s) then [] else c ∷ rest

unfoldable pub strip : String → String
unfolding is_space
strip [] = []
strip (c ∷ s) = let rest = strip s in if is_space (code c) then rest else strip_end (c ∷ s)

strip_test : strip " a b\n" ≡ "a b"
unfolding strip is_blank is_space
strip_test = refl

-- The character at an index, or a default
abbrev pub nth_char : ℕ → Char → String → Char
nth_char n d [] = d
nth_char zero d (c ∷ s) = c
nth_char (suc n) d (c ∷ s) = nth_char n d s

-- `text.lower()`, of the letters from A to Z. Of the other letters, only the Kelvin sign and the dotted
-- capital I have one of a to z in their lower case, "k" and "i" with a combining dot.
abbrev lower_char : Char → Char
lower_char c =
    if leb 65 (code c) && leb (code c) 90
    then nth_char (code c - 65) c "abcdefghijklmnopqrstuvwxyz"
    else c

unfoldable pub lower : String → String
lower [] = []
lower (c ∷ s) = lower_char c ∷ lower s

lower_test : lower "A.Py" ≡ "a.py"
unfolding lower
lower_test = refl

-- `text[:n]`
abbrev pub take_chars : ℕ → String → String
take_chars zero s = []
take_chars (suc n) [] = []
take_chars (suc n) (c ∷ s) = c ∷ take_chars n s

abbrev digit : ℕ → String
digit zero = "0"
digit (suc zero) = "1"
digit (suc (suc zero)) = "2"
digit (suc (suc (suc zero))) = "3"
digit (suc (suc (suc (suc zero)))) = "4"
digit (suc (suc (suc (suc (suc zero))))) = "5"
digit (suc (suc (suc (suc (suc (suc zero)))))) = "6"
digit (suc (suc (suc (suc (suc (suc (suc zero))))))) = "7"
digit (suc (suc (suc (suc (suc (suc (suc (suc zero)))))))) = "8"
digit _ = "9"

-- The decimal digits of `n`, on as much fuel as `n` has digits at most.
digits : ℕ → ℕ → String
digits zero n = []
digits (suc f) n =
    let front = digits f (n / 10) in if ltb n 10 then digit n else front ++ digit (n % 10)

-- `str(n)`, for a number that is not negative
unfoldable pub decimal : ℕ → String
unfolding digits
decimal n = digits (suc n) n

decimal_test : decimal 1205 ≡ "1205"
unfolding decimal
decimal_test = refl

-- What the code takes from the host: SHA-256 as hex digits, and the regular expressions that
-- `_safe_comment_error` and `_comment_payload` replace secrets by, and those by which
-- `failure_fingerprint` takes line numbers, dates, paths and spaces out of an error's lower-case text.
pub record Host : Type 0 where
  pub digest : String → String
  pub redact_error : String → String
  pub redact_evidence : String → String
  pub stable_error : String → String

-- `needle in text`
unfoldable pub has_text : String → String → Bool
has_text needle [] = starts_with [] needle
has_text needle (c ∷ s) = starts_with (c ∷ s) needle || has_text needle s

has_text_test : has_text "cd" "abcde" ≡ true
unfolding has_text
has_text_test = refl
