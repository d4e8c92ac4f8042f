-- ===== src/Contract/Languages.antt =====
-- local_first_orchestrator/source_languages.py: which files are sources and tests, by their names.
use Prim.Native.Char.{Char, code}
use Prim.Native.String.{[] as empty, ◌∷◌ as char, ◌++◌ as append}
use package.text.Mathlib.Text.{starts_with}
use local_first_orchestrator.Base.{
  String, Bool, false, not, ◌&&◌, ◌||◌, Option, none, some, List, [], ◌∷◌, ◌==◌, str_eq, has_text,
  is_null, lower, if◌then◌else◌, contains,
}
use local_first_orchestrator.Contract.Paths.{parts_of, is_absolute}

-- The root that `PurePosixPath` keeps: two leading slashes are not one.
abbrev root_of : String → List String
root_of path =
    if not (is_absolute path)
    then []
    else (if starts_with path "//" && not (starts_with path "///") then "//" ∷ [] else "/" ∷ [])

-- `PurePosixPath(path).parts`
abbrev pub all_parts : String → List String
all_parts path = elim (root_of path) [ [] ↦ parts_of path | r ∷ _ ↦ r ∷ parts_of path ]

abbrev last_part : List String → String
last_part [] = ""
last_part (s ∷ []) = s
last_part (s ∷ t ∷ rest) = last_part (t ∷ rest)

-- `PurePosixPath(path).name`
abbrev pub name_of : String → String
name_of path = last_part (parts_of path)

abbrev is_dot : Char → Bool
is_dot c = code c == 46

-- A text at its last dot: what stands before it and after it, `none` without a dot
unfoldable pub at_last_dot : String → Option (String × String)
at_last_dot empty = none
at_last_dot (char c s) = elim (at_last_dot s) [
  | some (stem, ext) ↦ some (char c stem, ext)
  | none ↦ if is_dot c then some (empty, s) else none
]

-- `PurePosixPath(path).suffix`: neither a leading nor a trailing dot begins one
abbrev pub suffix_of : String → String
suffix_of path = elim (at_last_dot (name_of path)) [
  | none ↦ ""
  | some (stem, ext) ↦ if str_eq stem "" || str_eq ext "" then "" else append "." ext
]

abbrev ends_with : String → String → Bool
ends_with empty t = str_eq empty t
ends_with (char c s) t = str_eq (char c s) t || ends_with s t

-- A name that `\.test\.[^.]+$` matches, for "test" and any other word. A name with a suffix that a
-- language has does not end with a line break.
abbrev has_infix : String → String → Bool
has_infix word name = elim (at_last_dot name) [
  | none ↦ false
  | some (stem, ext) ↦ not (str_eq ext "") && ends_with stem word
]

pub data Pattern : Type 0 where
  prefix_pattern : String → Pattern  -- `^word`
  ending_pattern : String → Pattern  -- `word$`
  infix_pattern : String → Pattern  -- `word\.[^.]+$`

abbrev pub finds : Pattern → String → Bool
finds (prefix_pattern word) name = starts_with name word
finds (ending_pattern word) name = ends_with name word
finds (infix_pattern word) name = has_infix word name

abbrev finds_any : List Pattern → String → Bool
finds_any [] name = false
finds_any (p ∷ ps) name = finds p name || finds_any ps name

pub record SourceLanguage : Type 0 where
  pub name : String
  pub extensions : List String
  pub test_patterns : List Pattern

-- `_LANGUAGES`
abbrev pub languages : List SourceLanguage
languages =
    (record {
      name = "python";
      extensions = ".py" ∷ [];
      test_patterns = prefix_pattern "test_" ∷ ending_pattern "_test.py" ∷ [];
    })
    ∷ (record {
      name = "javascript";
      extensions = ".js" ∷ ".jsx" ∷ ".mjs" ∷ [];
      test_patterns = prefix_pattern "test-" ∷ infix_pattern ".test" ∷ infix_pattern ".spec" ∷ [];
    })
    ∷ (record {
      name = "typescript";
      extensions = ".ts" ∷ ".tsx" ∷ [];
      test_patterns = infix_pattern ".test" ∷ infix_pattern ".spec" ∷ [];
    })
    ∷ []

-- `SourceLanguage.matches`
abbrev pub matches : String → SourceLanguage → Bool
matches path l = contains (lower (suffix_of path)) l.extensions

-- `SourceLanguage.is_test`
abbrev pub is_test : String → SourceLanguage → Bool
is_test path l = finds_any l.test_patterns (name_of path) || has_text "/tests/" (append "/" path)

abbrev first_match : String → List SourceLanguage → Option SourceLanguage
first_match path [] = none
first_match path (l ∷ ls) = if matches path l then some l else first_match path ls

unfoldable pub language_for : String → Option SourceLanguage
language_for path = first_match path languages

abbrev pub is_supported_source : String → Bool
is_supported_source path = not (is_null (language_for path))

abbrev is_script : List String → Bool
is_script [] = false
is_script (s ∷ []) = false
is_script (s ∷ t ∷ rest) = str_eq s "scripts"

unfoldable pub is_test_path : String → Bool
is_test_path path = elim (language_for path) [
  | none ↦ false
  | some l ↦ is_script (all_parts path) && starts_with (name_of path) "verify-" || is_test path l
]
