-- ===== src/Base/Documents.antt =====
-- What `json.loads` returns, and how the code reads it.
use Prim.Native.String.{String, [], ◌∷◌}
use mathlib.Core.Path.{◌≡◌, refl}
use mathlib.Core.Bool.{Bool}
use mathlib.Core.Option.{Option, none, some}
use mathlib.Core.List.{List, [] as nil, ◌∷◌ as cons}
use local_first_orchestrator.Base.Tests.{str_eq, if◌then◌else◌}
use local_first_orchestrator.Base.Transaction.{Result, ok, err, type_error}

-- A number, which is not read here, is given by its text. The names of an object are distinct.
mutual
  pub data Json : Type 0 where
    json_null : Json
    json_bool : Bool → Json
    json_number : String → Json
    json_text : String → Json
    json_list : Items → Json
    json_object : Fields → Json

  pub data Items : Type 0 where
    no_items : Items
    item : Json → Items → Items

  pub data Fields : Type 0 where
    no_fields : Fields
    field : String → Json → Fields → Fields

-- `object.get(name)`, `none` where there is no such name
abbrev pub get : String → Fields → Option Json
get name no_fields = none
get name (field n value fields) =
    let rest = get name fields in if str_eq n name then some value else rest

abbrev pub listed : Items → List Json
listed no_items = nil
listed (item value values) = cons value (listed values)

abbrev pub names : Fields → List Json
names no_fields = nil
names (field n value fields) = cons (json_text n) (names fields)

abbrev pub characters : String → List Json
characters [] = nil
characters (c ∷ s) = cons (json_text (c ∷ [])) (characters s)

-- What `for x in value` goes through: a text has its characters, an object its names, and a value that
-- has no members raises `TypeError`.
abbrev pub iterate : Json → Result (List Json)
iterate (json_list values) = ok (listed values)
iterate (json_object fields) = ok (names fields)
iterate (json_text s) = ok (characters s)
iterate json_null = err (type_error "'NoneType' object is not iterable")
iterate (json_bool b) = err (type_error "'bool' object is not iterable")
iterate (json_number n) = err (type_error "number is not iterable")

-- `for x in object.get(name, [])`
abbrev pub members : String → Fields → Result (List Json)
members name fields = elim (get name fields) [ none ↦ ok nil | some value ↦ iterate value ]

members_test :
    members "a" (field "a" (json_text "xy") no_fields)
    ≡ ok (cons (json_text "x") (cons (json_text "y") nil))
members_test = refl
