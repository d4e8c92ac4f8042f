-- ===== src/Contract/Paths.antt =====
-- local_first_orchestrator/source_languages.py: which paths a contract may name.
use Prim.Native.Char.{Char, code}
use Prim.Native.String.{[] as empty, ◌∷◌ as char, ◌++◌ as append}
use local_first_orchestrator.Base.{
  String, Bool, false, not, ◌&&◌, ◌||◌, Option, none, some, List, [], ◌∷◌, ◌==◌, str_eq, has_text,
  if◌then◌else◌, select_where,
}

abbrev pub is_slash : Char → Bool
is_slash c = code c == 47

abbrev pub extend : Char → List String → List String
extend c [] = char c empty ∷ []
extend c (s ∷ ss) = char c s ∷ ss

-- `path.split("/")`
unfoldable pub split : String → List String
split empty = empty ∷ []
split (char c s) = let rest = split s in if is_slash c then empty ∷ rest else extend c rest

-- What `PurePosixPath` leaves out of its parts
abbrev pub is_kept : String → Bool
is_kept part = not (str_eq part "" || str_eq part ".")

-- `candidate.parts`, of a path that is not absolute
abbrev pub parts_of : String → List String
parts_of path = select_where is_kept (split path)

abbrev pub join_parts : List String → String
join_parts [] = empty
join_parts (s ∷ []) = s
join_parts (s ∷ t ∷ rest) = append s (append "/" (join_parts (t ∷ rest)))

-- `candidate.as_posix()`
abbrev pub as_posix : List String → String
as_posix [] = "."
as_posix (s ∷ ss) = join_parts (s ∷ ss)

abbrev pub is_absolute : String → Bool
is_absolute empty = false
is_absolute (char c s) = is_slash c

abbrev pub ends_with_slash : String → Bool
ends_with_slash empty = false
ends_with_slash (char c empty) = is_slash c
ends_with_slash (char c (char d s)) = ends_with_slash (char d s)

-- `any(part in {"", ".", ".."} for part in parts)`
abbrev pub any_special : List String → Bool
any_special [] = false
any_special (s ∷ ss) = str_eq s "" || str_eq s "." || str_eq s ".." || any_special ss

abbrev pub is_refused : String → Bool
is_refused path =
    str_eq path "" || has_text "\\" path || is_absolute path || any_special (parts_of path)

unfoldable pub normalized_repository_path : String → Option String
unfolding split has_text
normalized_repository_path path =
    let normalized = as_posix (parts_of path) in
    if is_refused path
    then none
    else (if str_eq normalized path && not (ends_with_slash normalized)
        then some normalized
        else none)
