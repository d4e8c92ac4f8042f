-- ===== src/Base/Dumps.antt =====
-- `json.dumps(value, sort_keys=True, separators=(",", ":"))`
use Prim.Native.Nat.{ℕ, ◌+◌, ◌-◌, ◌/◌, ◌%◌}
use Prim.Native.Char.{Char, code}
use Prim.Native.String.{String, [], ◌∷◌, ◌++◌}
use mathlib.Core.Path.{◌≡◌, refl}
use mathlib.Core.Bool.{Bool, true, false, ◌&&◌}
use local_first_orchestrator.Base.Tests.{◌==◌, leb, ltb, if◌then◌else◌, str_lt}
use local_first_orchestrator.Base.Text.{nth_char}
use local_first_orchestrator.Base.Documents.{
  Json, json_null, json_bool, json_number, json_text, json_list, json_object, Items, no_items, item,
  Fields, no_fields, field,
}

hex_digit : ℕ → String
hex_digit n = nth_char n "0" "0123456789abcdef" ∷ []

-- `\\u` with four hex digits
unicode_escape : ℕ → String
unicode_escape n =
    "\\u"
    ++ hex_digit (n / 4096)
    ++ hex_digit (n / 256 % 16)
    ++ hex_digit (n / 16 % 16)
    ++ hex_digit (n % 16)

-- A character that is no plain ASCII one is escaped, one above 0xffff by two surrogates.
escape : Char → String
escape c =
    let n = code c in
    if n == 34
    then "\\\""
    else (if n == 92
        then "\\\\"
        else (if leb 32 n && leb n 126
            then c ∷ []
            else (if n == 10
                then "\\n"
                else (if n == 13
                    then "\\r"
                    else (if n == 9
                        then "\\t"
                        else (if n == 8
                            then "\\b"
                            else (if n == 12
                                then "\\f"
                                else (if ltb n 65536
                                    then unicode_escape n
                                    else unicode_escape (55296 + (n - 65536) / 1024)
                                      ++ unicode_escape (56320 + (n - 65536) % 1024)))))))))

escape_text : String → String
escape_text [] = []
escape_text (c ∷ s) = escape c ++ escape_text s

quoted : String → String
quoted s = "\"" ++ escape_text s ++ "\""

insert_field : String → Json → Fields → Fields
insert_field name value no_fields = field name value no_fields
insert_field name value (field n v fields) =
    let rest = insert_field name value fields in
    if str_lt n name then field n v rest else field name value (field n v fields)

sort_fields : Fields → Fields
sort_fields no_fields = no_fields
sort_fields (field n v fields) = insert_field n v (sort_fields fields)

-- The members, each with a comma before it but the first
comma : Bool → String
comma true = []
comma false = ","

-- The values of the members are sorted before the members are.
mutual
  sorted : Json → Json
  sorted (json_object fields) = json_object (sort_fields (sorted_fields fields))
  sorted (json_list items) = json_list (sorted_items items)
  sorted value = value

  sorted_items : Items → Items
  sorted_items no_items = no_items
  sorted_items (item v vs) = item (sorted v) (sorted_items vs)

  sorted_fields : Fields → Fields
  sorted_fields no_fields = no_fields
  sorted_fields (field n v fields) = field n (sorted v) (sorted_fields fields)

mutual
  print : Json → String
  print json_null = "null"
  print (json_bool true) = "true"
  print (json_bool false) = "false"
  print (json_number n) = n
  print (json_text s) = quoted s
  print (json_list items) = "[" ++ print_items true items ++ "]"
  print (json_object fields) = "{" ++ print_fields true fields ++ "}"

  print_items : Bool → Items → String
  print_items is_first no_items = []
  print_items is_first (item v vs) = comma is_first ++ print v ++ print_items false vs

  print_fields : Bool → Fields → String
  print_fields is_first no_fields = []
  print_fields is_first (field n v fields) =
      comma is_first ++ quoted n ++ ":" ++ print v ++ print_fields false fields

unfoldable pub dumps : Json → String
unfolding print sorted quoted comma sort_fields insert_field escape_text escape unicode_escape
    hex_digit
dumps value = print (sorted value)

dumps_test :
    dumps (
      json_object (
        field "b"
          (json_list (item (json_text "a\"\n") (item json_null no_items)))
          (field "a" (json_number "1") no_fields)))
    ≡ "{\"a\":1,\"b\":[\"a\\\"\\n\",null]}"
unfolding dumps
dumps_test = refl
