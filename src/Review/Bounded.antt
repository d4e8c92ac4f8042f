-- ===== src/Review/Bounded.antt =====
-- local_first_orchestrator/review.py: the budgets of the selected files keep the packet within its bound.
use Prim.Native.Nat.{◌/◌}
use Prim.Native.String.{◌++◌}
use mathlib.Core.Path.{subst}
use local_first_orchestrator.Base.{
  ok_injective, ℕ, ◌+◌, ◌-◌, ◌*◌, ◌≤◌, String, ◌≡◌, ◌≢◌, refl, sym, ap, ◌∙◌, Bool, false, ◌||◌,
  List, [], ◌∷◌, Result, ok, err, Error, value_error, str_eq, ltb, leb, if◌then◌else◌, is_blank,
  take_chars, Host, arith, Bool-cases, inl, inr, len, count, is_nil,
}
use local_first_orchestrator.Review.Length.{drop_chars, len-append, len-take, len-drop}
use local_first_orchestrator.Review.Packet.{
  section, join, excerpt, omission, marker, left_for_text, compact_selected_file, budget_for,
  prepend, render, headers, file_sections, packet_of, fixed, too_long, build, max_packet_chars,
  min_selected_file_chars, instruction,
}

abbrev total : List (String × String) → ℕ
total [] = 0
total ((name, text) ∷ files) = len text + total files

excerpt-len : (m o text : String) (n : ℕ) → len (excerpt m o text n) ≤ len m + len o + n
excerpt-len m o text n =
    let head = n / 2 in
    let rest = drop_chars (len text - (n - head)) text in
    let k1 = len-append m (take_chars head text ++ o ++ rest) in
    let k2 = len-append (take_chars head text) (o ++ rest) in
    let k3 = len-append o rest in
    let k4 = len-take head text in let k5 = len-drop (len text - (n - head)) text in omega arith

compact-len :
    (host : Host) (name text : String) (budget : ℕ) {c : String}
    → compact_selected_file host name text budget ≡ ok c
    → len c ≤ budget
unfolding compact_selected_file
compact-len host name text budget {c} h = elim (Bool-cases (leb (len text) budget)) [
  | inl e ↦ let same : ok text ≡ ok c = rw e at h in ground arith
  | inr e ↦
      let n = left_for_text host name text budget in
      let h' = rw e at h in
      elim (Bool-cases (ltb n 2)) [
        | inl f ↦ absurd (let h'' = rw f at h' in cc)
        | inr f ↦
            let same = rw f at h' in
            let k = excerpt-len (marker host name text) omission text n in
            let big : 2 ≤ n = ground arith in
            let bound : len (excerpt (marker host name text) omission text n) ≤ budget =
              omega arith in
            subst (λ x. len x ≤ budget) (ok_injective same) bound
      ]
]

err_injective : {A : Type 0} {x y : Error} → Path (Result A) (err x) (err y) → x ≡ y
err_injective p = cc

small : Error
small = value_error "review packet selected-file budget is too small"

says : String → Error → Bool
says s (value_error t) = str_eq t s
says s _ = false

small≢too_long : small ≢ too_long
unfolding small says
small≢too_long h = let k = ap (says "review packet selected-file budget is too small") h in cc

compact-err :
    (host : Host) (name text : String) (budget : ℕ) {e : Error}
    → compact_selected_file host name text budget ≡ err e
    → e ≢ too_long
unfolding compact_selected_file small
compact-err host name text budget {e} h = elim (Bool-cases (leb (len text) budget)) [
  | inl f ↦ absurd (let h' = rw f at h in cc)
  | inr f ↦
      let h' = rw f at h in
      elim (Bool-cases (ltb (left_for_text host name text budget) 2)) [
        | inr g ↦ absurd (let h'' = rw g at h' in cc)
        | inl g ↦
            let h'' : Path (Result String) (err small) (err e) = rw g at h' in
            (λ too. small≢too_long (err_injective h'' ∙ too))
      ]
]

-- What the loop renders has the headers of the files, and fits what was available.
IsFitting : List (String × String) → ℕ → Result (List (String × String)) → Type 0
IsFitting files remaining (err e) = e ≢ too_long
IsFitting files remaining (ok rendered) =
    (headers rendered ≡ headers files) × (total rendered ≤ remaining)

prepend-IsFitting :
    (name text c : String) (files : List (String × String)) (remaining : ℕ)
    (r : Result (List (String × String)))
    → len c ≤ remaining
    → IsFitting files (remaining - len c) r
    → IsFitting ((name, text) ∷ files) remaining (prepend name c r)
unfolding IsFitting
prepend-IsFitting name text c files remaining (err e) le h = h
prepend-IsFitting name text c files remaining (ok rendered) le h =
    (omega (arith, h.0), omega (arith, h.1))

render-IsFitting :
    (host : Host) (files : List (String × String)) (remaining : ℕ)
    → min_selected_file_chars * count files ≤ remaining
    → IsFitting files remaining (render host files remaining)
unfolding render IsFitting
render-IsFitting host [] remaining enough = (refl, omega arith)
render-IsFitting host ((name, text) ∷ files) remaining enough =
    go (compact_selected_file host name text (budget_for remaining (count files))) refl
      (λ n. render-IsFitting host files n)
  where
    go :
        (r : Result String)
        → compact_selected_file host name text (budget_for remaining (count files)) ≡ r
        → ((n : ℕ)
            → min_selected_file_chars * count files ≤ n
            → IsFitting files n (render host files n))
        → IsFitting
            ((name, text) ∷ files)
            remaining
            (elim r as (λ _. Result (List (String × String))) [
              | err e ↦ err e
              | ok compacted ↦
                  prepend name compacted (render host files (remaining - len compacted))
            ])
    go (err e) h ih = compact-err host name text (budget_for remaining (count files)) h
    go (ok c) h ih =
        let k = compact-len host name text (budget_for remaining (count files)) h in
        prepend-IsFitting name text c files remaining _ (omega arith)
          (ih (remaining - len c) (omega arith))

section-len : (name value : String) → len (section name value) ≡ len name + len value + 4
section-len name value =
    let k1 = len-append "## " (name ++ "\n" ++ value) in
    let k2 = len-append name ("\n" ++ value) in let k3 = len-append "\n" value in omega arith

join-len :
    (s t : String) (rest : List String)
    → len (join (s ∷ t ∷ rest)) ≡ len s + 2 + len (join (t ∷ rest))
join-len s t rest =
    let k1 = len-append s ("\n\n" ++ join (t ∷ rest)) in
    let k2 = len-append "\n\n" (join (t ∷ rest)) in omega arith

header-len : (name : String) → len ("\n\n## selected_file:" ++ name ++ "\n") ≡ len name + 20
header-len name =
    let k1 = len-append "\n\n## selected_file:" (name ++ "\n") in
    let k2 = len-append name "\n" in omega arith

files-len :
    (s t : String) (rendered : List (String × String)) (rest : List String)
    → len (join (s ∷ file_sections rendered (t ∷ rest)))
      ≡ len s + 2 + headers rendered + total rendered + len (join (t ∷ rest))
files-len s t [] rest = let k = join-len s t rest in omega arith
files-len s t ((name, text) ∷ rendered) rest =
    let own = section ("selected_file:" ++ name) text in
    let k1 = join-len s own (file_sections rendered (t ∷ rest)) in
    let k2 = files-len own t rendered rest in
    let k3 = section-len ("selected_file:" ++ name) text in
    let k4 = len-append "selected_file:" name in let k5 = header-len name in omega arith

joined-len :
    (a b c d : String) (rendered : List (String × String))
    → len (join (a ∷ b ∷ file_sections rendered (c ∷ d ∷ [])))
      ≡ len (join (a ∷ b ∷ [])) + len (join (c ∷ d ∷ [])) + 2 + headers rendered + total rendered
joined-len a b c d rendered =
    let k1 = join-len a b (file_sections rendered (c ∷ d ∷ [])) in
    let k2 = files-len b c rendered (d ∷ []) in let k3 = join-len a b [] in omega arith

packet-len :
    (contract diff : String) (rendered : List (String × String)) (evidence : String)
    → len (packet_of contract diff rendered evidence)
      ≡ fixed contract diff rendered evidence + total rendered
packet-len contract diff rendered evidence =
    joined-len (section "ticket_contract" contract) (section "current_diff" diff)
      (section "validation_evidence" (take_chars 4000 evidence))
      (section "review_instruction" instruction) rendered

-- The result of the last check of `build`
abbrev checked : String → Result String
checked packet = if ltb max_packet_chars (len packet) then err too_long else ok packet

checked-ok : (packet : String) → len packet ≤ max_packet_chars → checked packet ≡ ok packet
checked-ok packet le =
    let short : ltb max_packet_chars (len packet) ≡ false = ground arith in rw short refl

-- The packet fits, and the last check does not fail.
abbrev IsBounded : Result String → Type 0
IsBounded r =
    (r ≢ err too_long) × ((packet : String) → r ≡ ok packet → len packet ≤ max_packet_chars)

checked-IsBounded : (packet : String) → len packet ≤ max_packet_chars → IsBounded (checked packet)
checked-IsBounded packet le =
    let e = checked-ok packet le in
    (
      (λ h. let k = sym e ∙ h in cc),
      λ p h. subst (λ q. len q ≤ max_packet_chars) (ok_injective (sym e ∙ h)) le,
    )

within :
    (p s h h' t available most : ℕ)
    → p + s + 2 + h + available ≤ most
    → h' ≡ h
    → t ≤ available
    → p + s + 2 + h' + t ≤ most
within p s h h' t available most le same fits = omega arith

rendered-IsBounded :
    (contract diff evidence : String) (files : List (String × String)) (available : ℕ)
    (r : Result (List (String × String)))
    → fixed contract diff files evidence + available ≤ max_packet_chars
    → IsFitting files available r
    → IsBounded (elim r as (λ _. Result String) [
      | err e ↦ err e
      | ok rendered ↦ checked (packet_of contract diff rendered evidence)
    ])
unfolding IsFitting
rendered-IsBounded contract diff evidence files available (err e) le h =
    ((λ p. h (err_injective p)), λ q p. absurd (cc))
rendered-IsBounded contract diff evidence files available (ok rendered) le h =
    let k = packet-len contract diff rendered evidence in
    checked-IsBounded (packet_of contract diff rendered evidence) (bounded k h.0 h.1)
  where
    bounded :
        len (packet_of contract diff rendered evidence)
          ≡ fixed contract diff rendered evidence + total rendered
        → headers rendered ≡ headers files
        → total rendered ≤ available
        → len (packet_of contract diff rendered evidence) ≤ max_packet_chars
    bounded k same fits =
        subst (λ n. n ≤ max_packet_chars) (sym k) (within _ _ _ _ _ _ _ le same fits)

error_IsBounded : (s : String) → value_error s ≢ too_long → IsBounded (err (value_error s))
error_IsBounded s other = ((λ p. other (err_injective p)), λ q p. absurd (cc))

mandatory≢too_long :
    value_error "diff, selected files, and validation evidence are mandatory" ≢ too_long
unfolding says
mandatory≢too_long h =
    let k = ap (says "diff, selected files, and validation evidence are mandatory") h in cc

insufficient≢too_long :
    value_error "review packet fixed inputs leave insufficient selected-file context budget"
    ≢ too_long
unfolding says
insufficient≢too_long h =
    let k =
      ap (says "review packet fixed inputs leave insufficient selected-file context budget") h in
    cc

some_file : (files : List (String × String)) → is_nil files ≡ false → 1 ≤ count files
some_file [] h = absurd (cc)
some_file (x ∷ files) h = omega arith

room : (used most n : ℕ) → 1024 * n ≤ most - used → 1 ≤ n → used + (most - used) ≤ most
room used most n enough files = omega arith

-- Whatever the contract, the diff, the files and the evidence are: a packet that `build` returns has at
-- most 90,000 characters, and the last check of `build`, on the length of the finished packet, never
-- fails, since the budgets given to the files keep it from failing.
pub packet_within_bound :
    (host : Host) (contract diff : String) (files : List (String × String)) (evidence : String)
    → (build host contract diff files evidence ≢ err too_long)
      × ((packet : String)
          → build host contract diff files evidence ≡ ok packet
          → len packet ≤ max_packet_chars)
unfolding build
packet_within_bound host contract diff files evidence =
    elim (Bool-cases (is_blank diff || is_nil files || is_blank evidence)) [
      | inl e ↦ rw e (error_IsBounded _ mandatory≢too_long)
      | inr e ↦
          let available = max_packet_chars - fixed contract diff files evidence in
          let some : is_nil files ≡ false = ground arith in
          rw e (elim (Bool-cases (ltb available (min_selected_file_chars * count files))) [
            | inl f ↦ rw f (error_IsBounded _ insufficient≢too_long)
            | inr f ↦
                let enough : min_selected_file_chars * count files ≤ available = ground arith in
                rw f (
                  rendered-IsBounded contract diff evidence files available
                    (render host files available)
                    (room (fixed contract diff files evidence) max_packet_chars (count files) enough
                      (some_file files some))
                    (render-IsFitting host files available enough))
          ])
    ]
