-- ===== src/Review/Packet.antt =====
-- local_first_orchestrator/review.py: `ReviewPacketBuilder`, which fits a review into a bounded text.
use Prim.Native.Nat.{◌/◌}
use Prim.Native.String.{◌++◌}
use local_first_orchestrator.Base.{
  ℕ, ◌+◌, ◌-◌, ◌*◌, min, String, ◌||◌, List, [], ◌∷◌, Result, ok, err, value_error, Error, ltb, leb,
  if◌then◌else◌, is_blank, take_chars, decimal, Host, len, count, is_nil,
}
use local_first_orchestrator.Review.Length.{drop_chars}

abbrev pub max_packet_chars : ℕ
max_packet_chars = 90000

abbrev pub max_selected_file_chars : ℕ
max_selected_file_chars = 24000

abbrev pub min_selected_file_chars : ℕ
min_selected_file_chars = 1024

abbrev pub section : String → String → String
section name value = "## " ++ name ++ "\n" ++ value

-- `"\n\n".join(...)`
abbrev pub join : List String → String
join [] = ""
join (s ∷ []) = s
join (s ∷ t ∷ rest) = s ++ "\n\n" ++ join (t ∷ rest)

-- `text[:head] + omission + text[-tail:]` after the marker
abbrev pub excerpt : String → String → String → ℕ → String
excerpt marker omission text remaining =
    let head = remaining / 2 in
    let tail = remaining - head in
    marker ++ take_chars head text ++ omission ++ drop_chars (len text - tail) text

abbrev pub omission : String
omission = "\n...<middle omitted; full validated diff is included above>...\n"

abbrev pub marker : Host → String → String → String
marker host name text =
    "[selected file excerpt: "
    ++ name
    ++ "; original_chars="
    ++ decimal (len text)
    ++ "; sha256="
    ++ host.digest text
    ++ "]\n"

-- The part of the budget that is left for the text itself; what would be negative is 0 here.
abbrev pub left_for_text : Host → String → String → ℕ → ℕ
left_for_text host name text budget = budget - len (marker host name text) - len omission

-- `_compact_selected_file`
unfoldable pub compact_selected_file : Host → String → String → ℕ → Result String
compact_selected_file host name text budget =
    if leb (len text) budget
    then ok text
    else (if ltb (left_for_text host name text budget) 2
        then err (value_error "review packet selected-file budget is too small")
        else ok
            (excerpt (marker host name text) omission text (left_for_text host name text budget)))

-- The budget of the next file: the rest of the files keep their minimum.
abbrev pub budget_for : ℕ → ℕ → ℕ
budget_for remaining others =
    min max_selected_file_chars (remaining - min_selected_file_chars * others)

abbrev pub prepend :
    String → String → Result (List (String × String)) → Result (List (String × String))
prepend name text (err e) = err e
prepend name text (ok rest) = ok ((name, text) ∷ rest)

-- The loop over the selected files, in the order of their names.
unfoldable pub render : Host → List (String × String) → ℕ → Result (List (String × String))
unfolding compact_selected_file
render host [] remaining = ok []
render host ((name, text) ∷ files) remaining =
    elim (compact_selected_file host name text (budget_for remaining (count files))) [
      | err e ↦ err e
      | ok compacted ↦ prepend name compacted (render host files (remaining - len compacted))
    ]

abbrev pub headers : List (String × String) → ℕ
headers [] = 0
headers ((name, text) ∷ files) = len ("\n\n## selected_file:" ++ name ++ "\n") + headers files

abbrev pub file_sections : List (String × String) → List String → List String
file_sections [] rest = rest
file_sections ((name, text) ∷ files) rest =
    section ("selected_file:" ++ name) text ∷ file_sections files rest

abbrev pub instruction : String
instruction =
    "Return one JSON object matching verdict, criterion_results, findings, and suggestions. Review only existing criteria and allowed files. The complete validated diff is authoritative; large selected-file snapshots may be bounded excerpts with SHA-256 metadata."

abbrev pub prefix_of : String → String → String
prefix_of contract diff =
    join (section "ticket_contract" contract ∷ section "current_diff" diff ∷ [])

abbrev pub suffix_of : String → String
suffix_of evidence = join (
    section "validation_evidence" (take_chars 4000 evidence)
    ∷ section "review_instruction" instruction
    ∷ [])

abbrev pub packet_of : String → String → List (String × String) → String → String
packet_of contract diff rendered evidence = join (
    section "ticket_contract" contract
    ∷ section "current_diff" diff
    ∷ file_sections rendered (
        section "validation_evidence" (take_chars 4000 evidence)
        ∷ section "review_instruction" instruction
        ∷ []))

abbrev pub fixed : String → String → List (String × String) → String → ℕ
fixed contract diff files evidence =
    len (prefix_of contract diff) + len (suffix_of evidence) + 2 + headers files

abbrev pub too_long : Error
too_long = value_error "review packet exceeds bounded context budget"

-- `build`, with the JSON text of the ticket's contract and the items of `selected_files` in the order of
-- their names. There is a file, so a negative number of available characters is below the minimum, as 0
-- is here.
unfoldable pub build : Host → String → String → List (String × String) → String → Result String
unfolding render
build host contract diff files evidence =
    if is_blank diff || is_nil files || is_blank evidence
    then err (value_error "diff, selected files, and validation evidence are mandatory")
    else (let available = max_packet_chars - fixed contract diff files evidence in
        if ltb available (min_selected_file_chars * count files)
        then err (
            value_error
              "review packet fixed inputs leave insufficient selected-file context budget")
        else elim (render host files available) [
          | err e ↦ err e
          | ok rendered ↦
              if ltb max_packet_chars (len (packet_of contract diff rendered evidence))
              then err too_long
              else ok (packet_of contract diff rendered evidence)
        ])
