-- ===== src/Contract/Plain.antt =====
-- local_first_orchestrator/source_languages.py: what is known of a path that is let through.
use Prim.Native.Char.{Char}
use Prim.Native.String.{[] as empty, ◌∷◌ as char, ◌++◌ as append}
use mathlib.Core.Path.{subst}
use mathlib.Core.Option.{some-injective}
use local_first_orchestrator.Base.{
  ℕ, ◌+◌, ◌≤◌, String, ◌≡◌, ◌≢◌, ◌⊎◌, ◌∙◌, refl, sym, ap, Bool-cases, inl, inr, true, false, not,
  ◌&&◌, &&-true, some, List, [], ◌∷◌, str_eq, eq_iff, select_where, Every, arith, len,
}
use local_first_orchestrator.Review.Length.{len-append}
use local_first_orchestrator.Contract.Paths.{
  is_slash, extend, split, is_kept, parts_of, join_parts, as_posix, any_special, is_refused,
  normalized_repository_path, ends_with_slash,
}

-- The length of the parts, with a separator after each
total : List String → ℕ
total [] = 0
total (s ∷ ss) = len s + 1 + total ss

total-extend : (c : Char) (ss : List String) → ss ≢ [] → total (extend c ss) ≡ total ss + 1
unfolding total
total-extend c [] h = absurd (h refl)
total-extend c (s ∷ ss) h = omega arith

split_nonempty : (s : String) → split s ≢ []
unfolding split
split_nonempty empty h = cc
split_nonempty (char c s) h = elim (Bool-cases (is_slash c)) [
  | inl e ↦ let h' = rw e at h in cc
  | inr e ↦ extend_nonempty (split s) (rw e at h)
]
  where
    extend_nonempty : (ss : List String) → extend c ss ≡ [] → ⊥
    extend_nonempty [] h = cc
    extend_nonempty (t ∷ ts) h = cc

total-split : (s : String) → total (split s) ≡ len s + 1
unfolding split total
total-split empty = omega arith
total-split (char c s) =
    let rest = total-split s in
    let longer = total-extend c (split s) (split_nonempty s) in
    elim (Bool-cases (is_slash c)) [ inl e ↦ rw e (omega arith) | inr e ↦ rw e (omega arith) ]

total-join : (s : String) (ss : List String) → len (join_parts (s ∷ ss)) + 1 ≡ total (s ∷ ss)
unfolding total
total-join s [] = omega arith
total-join s (t ∷ ss) =
    let rest = total-join t ss in
    let a = len-append s (append "/" (join_parts (t ∷ ss))) in
    let b = len-append "/" (join_parts (t ∷ ss)) in omega arith

total-select : (ss : List String) → total (select_where is_kept ss) ≤ total ss
unfolding total select_where
total-select [] = omega arith
total-select (s ∷ ss) =
    let rest = total-select ss in
    elim (Bool-cases (is_kept s)) [ inl e ↦ rw e (omega arith) | inr e ↦ rw e (omega arith) ]

all_kept :
    (ss : List String) → total (select_where is_kept ss) ≡ total ss → select_where is_kept ss ≡ ss
unfolding total select_where
all_kept [] h = refl
all_kept (s ∷ ss) h = elim (Bool-cases (is_kept s)) [
  | inl e ↦
      let h' = rw e at h in
      let rest : total (select_where is_kept ss) ≡ total ss = omega arith in
      rw (e, all_kept ss rest) refl
  | inr e ↦ let h' = rw e at h in let less = total-select ss in absurd (omega arith)
]

-- A part of a path that names a file or a directory below the one before it.
pub record IsPlain (part : String) : Type 0 where
  pub nonempty : part ≢ ""
  pub not_here : part ≢ "."
  pub not_above : part ≢ ".."

not_special : (part text : String) → str_eq part text ≡ false → part ≢ text
not_special part text h e = let t : str_eq part text ≡ true = (eq_iff part text).1 e in cc

any_special-IsPlain : (ss : List String) → any_special ss ≡ false → Every IsPlain ss
any_special-IsPlain [] h = tt
any_special-IsPlain (s ∷ ss) h = (
  record {
    nonempty = not_special s "" (ground arith);
    not_here = not_special s "." (ground arith);
    not_above = not_special s ".." (ground arith);
  },
  any_special-IsPlain ss (ground arith),
)

posix_total :
    (path : String) (parts : List String)
    → as_posix parts ≡ path
    → (path ≡ ".") ⊎ (total parts ≡ len path + 1)
posix_total path [] h = inl (sym h)
posix_total path (s ∷ ss) h = inr (sym (total-join s ss) ∙ ap (λ p. len p + 1) h)

-- A path that is let through is returned as it is, and is either "." or has no part that is empty, "." or
-- "..".
pub normalized_repository_path-IsPlain :
    (path p : String)
    → normalized_repository_path path ≡ some p
    → (p ≡ path) × ((path ≡ ".") ⊎ Every IsPlain (split path))
unfolding normalized_repository_path
normalized_repository_path-IsPlain path p h = elim (Bool-cases (is_refused path)) [
  | inl e ↦ absurd (let h' = rw e at h in cc)
  | inr e ↦
      let normalized = as_posix (parts_of path) in
      elim (Bool-cases (str_eq normalized path && not (ends_with_slash normalized))) [
        | inr f ↦ absurd (let h' = rw (e, f) at h in cc)
        | inl f ↦
            let same : normalized ≡ path =
              (eq_iff normalized path).0
                (&&-true (str_eq normalized path) (not (ends_with_slash normalized)) f).0 in
            let returned : normalized ≡ p = some-injective _ _ (rw (e, f) at h) in
            let clean : any_special (parts_of path) ≡ false = ground arith in
            (
              sym returned ∙ same,
              elim (posix_total path (parts_of path) same) [
                | inl dot ↦ inl dot
                | inr t ↦
                    let kept = all_kept (split path) (t ∙ sym (total-split path)) in
                    inr (
                      any_special-IsPlain (split path)
                        (subst (λ ss. any_special ss ≡ false) kept clean))
              ],
            )
      ]
]
