-- ===== src/Json/Tests.antt =====
-- Runs of the parser of src/json.c, and the instances of its theorems.
use qdl.Base.{
  ◌≡◌, refl, Bool, true, false, Option, none, some, [], ◌∷◌, ◌++◌, Bytes, length, codes, same,
  if◌then◌else◌, arith, inl, inr, replicate,
}
use qdl.Json.{
  Json, json_true, number, string, array, object, no_items, item, no_fields, field, depth,
  json_get_child, json_get_number,
}
use qdl.Json.Token.{
  json_parse_string, json_parse_number, json_parse_keyword, json_parse_escape, json_parse_hex4,
  json_hex_value,
}
use qdl.Json.Parse.{json_parse_value, json_parse_buf}
use qdl.Json.Within.{Within}
use qdl.Json.Nesting.{Shallow, json_parse_value-Within}
use qdl.Json.Print.{Numeral, IsNumeral, print_numeral, print}
use qdl.Json.RoundTrip.{json_parse_buf-print}

-- Two numbers, -12 and 0.5.
abbrev read_number : Bytes → Option Bool
read_number token =
    if same token (codes "-12")
    then some true
    else if same token (codes "0.5")
    then some false
    else none

abbrev show : Bool → Numeral
show true = record { negative = true; lead = b'1'; digits = b'2' ∷ []; fraction = [] }
show false = record { negative = false; lead = b'0'; digits = []; fraction = b'5' ∷ [] }

show-IsNumeral : (d : Bool) → IsNumeral (show d)
show-IsNumeral true = record {
  lead_lem = refl;
  digits_lem = (refl, tt);
  fraction_lem = tt;
  no_leading_zero = inr refl;
}
show-IsNumeral false = record {
  lead_lem = refl;
  digits_lem = tt;
  fraction_lem = (refl, tt);
  no_leading_zero = inl refl;
}

read-show : (d : Bool) → read_number (print_numeral (show d) []) ≡ some d
read-show true = refl
read-show false = refl

abbrev value : Json Bool
value = object (
    field (codes "a")
      (array (item json_true (item (number true) (item (string (34 ∷ 10 ∷ b'x' ∷ [])) no_items))))
      (field (codes "b") (number false) no_fields))

abbrev text : Bytes
text = codes " { \"a\" : [true, -12 ,\"\\\"\\u000ax\"] , \"b\":0.5 } "

-- white space is skipped
reads_text : json_parse_buf read_number text ≡ some value
unfolding json_parse_buf json_parse_value json_parse_string json_parse_number json_parse_keyword
    json_parse_escape json_parse_hex4 json_hex_value
reads_text = refl

-- a surrogate pair
reads_pair :
    json_parse_buf read_number (codes "\"\\ud83d\\ude00\"")
    ≡ some (string (0xf0 ∷ 0x9f ∷ 0x98 ∷ 0x80 ∷ []))
unfolding json_parse_buf json_parse_value json_parse_string json_parse_number json_parse_keyword
    json_parse_escape json_parse_hex4 json_hex_value
reads_pair = refl

-- a leading zero, a comma behind the last element, a token behind the value
no_leading_zero : json_parse_buf read_number (codes "012") ≡ none
unfolding json_parse_buf json_parse_value json_parse_string json_parse_number json_parse_keyword
    json_parse_escape json_parse_hex4 json_hex_value
no_leading_zero = refl

no_last_comma : json_parse_buf read_number (codes "[null,]") ≡ none
unfolding json_parse_buf json_parse_value json_parse_string json_parse_number json_parse_keyword
    json_parse_escape json_parse_hex4 json_hex_value
no_last_comma = refl

no_trailing : json_parse_buf read_number (codes "null null") ≡ none
unfolding json_parse_buf json_parse_value json_parse_string json_parse_number json_parse_keyword
    json_parse_escape json_parse_hex4 json_hex_value
no_trailing = refl

-- 257 containers inside each other
too_deep : json_parse_buf read_number (replicate 257 b'[' ++ replicate 257 b']') ≡ none
unfolding json_parse_buf json_parse_value json_parse_string json_parse_number json_parse_keyword
    json_parse_escape json_parse_hex4 json_hex_value
too_deep = refl

gets_number : json_get_number value (codes "b") ≡ some false
unfolding json_get_number json_get_child
gets_number = refl

json_parse_value-Within_example :
    Within (Shallow 255) (length text) (json_parse_value read_number 200 255 text)
json_parse_value-Within_example =
    json_parse_value-Within read_number 200 255 text (omega arith) (omega arith)

json_parse_buf-print_example : json_parse_buf read_number (print show value []) ≡ some value
unfolding print depth
json_parse_buf-print_example =
    json_parse_buf-print read_number show show-IsNumeral read-show value (omega arith) (omega arith)
