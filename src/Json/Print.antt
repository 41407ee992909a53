-- ===== src/Json/Print.antt =====
-- A printer of JSON to which the parser of src/json.c is compared. A text is printed in front of
-- `rest`.
use qdl.Base.{
  ℕ, ◌+◌, ◌/◌, ◌%◌, ◌≡◌, ◌⊎◌, Bool, true, false, ◌||◌, [], ◌∷◌, ◌++◌, Bytes, ltb, ◌==◌,
  if◌then◌else◌, codes, Each,
}
use qdl.Json.{
  Json, Items, Fields, json_true, json_false, json_null, number, string, array, object, no_items,
  item, no_fields, field,
}
use qdl.Json.Token.{isdigit}

abbrev pub hex_digit : ℕ → ℕ
hex_digit d = if ltb d 10 then b'0' + d else 87 + d

-- A quote and a backslash are escaped, a control character has its code written, in `\u00XX`.
abbrev pub print_chars : Bytes → Bytes → Bytes
print_chars [] rest = rest
print_chars (c ∷ s) rest =
    let more = print_chars s rest in
    if c == b'"' || c == b'\\'
    then b'\\' ∷ c ∷ more
    else if ltb c 0x20
    then b'\\' ∷ b'u' ∷ b'0' ∷ b'0' ∷ hex_digit (c / 16) ∷ hex_digit (c % 16) ∷ more
    else c ∷ more

abbrev pub print_string : Bytes → Bytes → Bytes
print_string s rest = b'"' ∷ print_chars s (b'"' ∷ rest)

-- A number in decimal: its integer part begins with `lead`; no point without a fraction.
pub record Numeral : Type 0 where
  pub negative : Bool
  pub lead : ℕ
  pub digits : Bytes
  pub fraction : Bytes

abbrev pub IsDigit : ℕ → Type 0
IsDigit c = isdigit c ≡ true

pub record IsNumeral (n : Numeral) : Type 0 where
  pub lead_lem : IsDigit n.lead
  pub digits_lem : Each IsDigit n.digits
  pub fraction_lem : Each IsDigit n.fraction
  pub no_leading_zero : (n.digits ≡ []) ⊎ ((n.lead == b'0') ≡ false)

abbrev pub print_fraction : Bytes → Bytes → Bytes
print_fraction [] rest = rest
print_fraction (c ∷ s) rest = b'.' ∷ c ∷ s ++ rest

abbrev pub print_sign : Bool → Bytes → Bytes
print_sign true rest = b'-' ∷ rest
print_sign false rest = rest

abbrev pub print_numeral : Numeral → Bytes → Bytes
print_numeral n rest = print_sign n.negative (n.lead ∷ n.digits ++ print_fraction n.fraction rest)

module _ {D : Type 0} (show : D → Numeral) where
  unfoldable mutual
    pub print : Json D → Bytes → Bytes
    print json_true rest = codes "true" ++ rest
    print json_false rest = codes "false" ++ rest
    print json_null rest = codes "null" ++ rest
    print (number d) rest = print_numeral (show d) rest
    print (string s) rest = print_string s rest
    print (array vs) rest = b'[' ∷ print_items vs rest
    print (object fs) rest = b'{' ∷ print_fields fs rest

    pub print_items : Items D → Bytes → Bytes
    print_items no_items rest = b']' ∷ rest
    print_items (item v vs) rest = print v (print_more_items vs rest)

    pub print_more_items : Items D → Bytes → Bytes
    print_more_items no_items rest = b']' ∷ rest
    print_more_items (item v vs) rest = b',' ∷ print v (print_more_items vs rest)

    pub print_fields : Fields D → Bytes → Bytes
    print_fields no_fields rest = b'}' ∷ rest
    print_fields (field k v fs) rest = print_string k (b':' ∷ print v (print_more_fields fs rest))

    pub print_more_fields : Fields D → Bytes → Bytes
    print_more_fields no_fields rest = b'}' ∷ rest
    print_more_fields (field k v fs) rest =
        b',' ∷ print_string k (b':' ∷ print v (print_more_fields fs rest))
