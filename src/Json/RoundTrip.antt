-- ===== src/Json/RoundTrip.antt =====
-- The parser of src/json.c reads what is printed.
use qdl.Base.{
  ℕ, zero, suc, ◌+◌, ◌*◌, ◌≤◌, ◌<◌, ◌≡◌, refl, ◌∙◌, ap, subst, Bool, true, false, Option, some, [],
  ◌∷◌, Bytes, length, arith, ◌==◌, ltb-false,
}
use qdl.Json.{
  Json, Items, Fields, json_true, json_false, json_null, number, string, array, object, no_items,
  item, no_fields, field, Result, parsed, depth,
}
use qdl.Json.Token.{isspace, json_skip_whitespace, json_parse_string, json_parse_number}
use qdl.Json.Token.Consumes.{parse_string-Within}
use qdl.Json.Token.Printed.{
  Stops, skip-Stops, parse_string-print, parse_true, parse_false, parse_null,
}
use qdl.Json.Token.Numerals.{parse_number-print}
use qdl.Json.Print.{
  Numeral, IsNumeral, IsDigit, print_sign, print_numeral, print_string, print, print_items,
  print_more_items, print_fields,
}
use qdl.Json.Parse.{
  json_parse_value, json_parse_array, json_parse_object, parse_items, parse_fields, json_parse_buf,
  json_parse_buf-parsed, map_parsed, opened, close_or, on_parsed,
}
use qdl.Json.Within.{Within, Any}
use qdl.Json.Nesting.{Shallow, json_parse_value-Within}

-- What a value begins with is no white space, and closes no array.
BeginsValue : Bytes → Type 0
BeginsValue [] = ⊥
BeginsValue (c ∷ s) = (isspace c ≡ false) × ((c == b']') ≡ false)

skip-BeginsValue : (s : Bytes) → BeginsValue s → json_skip_whitespace s ≡ s
unfolding BeginsValue
skip-BeginsValue [] h = elim h [ ]
skip-BeginsValue (c ∷ s) (e, k) = rw e refl

opened-BeginsValue :
    {A : Type 0} (empty : A) (r : Result A) (s : Bytes) → BeginsValue s → opened b']' empty r s ≡ r
unfolding BeginsValue
opened-BeginsValue empty r [] h = elim h [ ]
opened-BeginsValue empty r (c ∷ s) (e, k) = rw k refl

signed-BeginsValue :
    (negative : Bool) (c : ℕ) (s : Bytes) → IsDigit c → BeginsValue (print_sign negative (c ∷ s))
unfolding BeginsValue
signed-BeginsValue true c s h = (refl, refl)
signed-BeginsValue false c s h = (ground (arith, h), ground (arith, h))

module _ {D : Type 0} (strtod : Bytes → Option D) (show : D → Numeral)
    (show_lem : (d : D) → IsNumeral (show d))
    (strtod_lem : (d : D) → strtod (print_numeral (show d) []) ≡ some d) where
  print-BeginsValue : (v : Json D) (r : Bytes) → BeginsValue (print show v r)
  unfolding BeginsValue print
  print-BeginsValue json_true r = (refl, refl)
  print-BeginsValue json_false r = (refl, refl)
  print-BeginsValue json_null r = (refl, refl)
  print-BeginsValue (string s) r = (refl, refl)
  print-BeginsValue (array vs) r = (refl, refl)
  print-BeginsValue (object fs) r = (refl, refl)
  print-BeginsValue (number d) r =
      signed-BeginsValue (show d).negative (show d).lead _ (show_lem d).lead_lem

  -- Each parser reads what is printed when it has the fuel of `json_parse_value-Within`.
  abbrev ReadsValue : ℕ → Type 0
  ReadsValue f =
      (v : Json D) (n : ℕ) (r : Bytes)
      → Stops r
      → depth v + n ≤ 256
      → 3 * length (print show v r) + 2 ≤ f
      → json_parse_value strtod f n (print show v r) ≡ parsed v r

  abbrev ReadsItems : ℕ → Type 0
  ReadsItems f =
      (v : Json D) (vs : Items D) (n : ℕ) (r : Bytes)
      → depth (array (item v vs)) + n ≤ suc 256
      → 3 * length (print_items show (item v vs) r) + 3 ≤ f
      → parse_items strtod f n (print_items show (item v vs) r) ≡ parsed (item v vs) r

  -- The rest behind a printed value is shorter.
  rest-print :
      (f n : ℕ) (v : Json D) (r : Bytes)
      → n ≤ 256
      → 3 * length (print show v r) + 2 ≤ f
      → json_parse_value strtod f n (print show v r) ≡ parsed v r
      → length r < length (print show v r)
  rest-print f n v r l fuel e =
      (subst (Within (Shallow n) (length (print show v r))) e
        (json_parse_value-Within strtod f n (print show v r) l fuel)).0

  items_step : (f : ℕ) → ReadsValue f → ReadsItems f → ReadsItems (suc f)
  unfolding parse_items print depth
  items_step f values items v no_items n r l fuel =
      rw (values v n (b']' ∷ r) refl (omega (arith, l)) (omega (arith, fuel))) refl
  items_step f values items v (item w ws) n r l fuel =
      let more = b',' ∷ print_items show (item w ws) r in
      let e = values v n more refl (omega (arith, l)) (omega (arith, fuel)) in
      let shorter = rest-print f n v more (omega (arith, l)) (omega (arith, fuel)) e in
      ap (on_parsed (λ a. close_or b']' (item a no_items) (item a) (parse_items strtod f n))) e
      ∙ ap (map_parsed (item v)) (items w ws n r (omega (arith, l)) (omega (arith, fuel, shorter)))

  abbrev ReadsFields : ℕ → Type 0
  ReadsFields f =
      (k : Bytes) (v : Json D) (fs : Fields D) (n : ℕ) (r : Bytes)
      → depth (object (field k v fs)) + n ≤ suc 256
      → 3 * length (print_fields show (field k v fs) r) + 3 ≤ f
      → parse_fields strtod f n (print_fields show (field k v fs) r) ≡ parsed (field k v fs) r

  rest-print_string : (s r : Bytes) → length r < length (print_string s r)
  rest-print_string s r =
      (subst (Within Any (length (print_string s r))) (parse_string-print s r)
        (parse_string-Within (print_string s r))).0

  -- A key and the value behind it, with `more` behind them.
  property_print :
      (f n : ℕ) (k : Bytes) (v : Json D) (more : Bytes)
      → json_parse_value strtod f n (print show v more) ≡ parsed v more
      → parse_fields strtod (suc f) n (print_string k (b':' ∷ print show v more))
        ≡ close_or b'}' (field k v no_fields) (field k v) (parse_fields strtod f n) more
  unfolding parse_fields
  property_print f n k v more e = rw (parse_string-print k (b':' ∷ print show v more)) (rw e refl)

  fields_step : (f : ℕ) → ReadsValue f → ReadsFields f → ReadsFields (suc f)
  unfolding print depth
  fields_step f values fields k v no_fields n r l fuel =
      let behind = rest-print_string k (b':' ∷ print show v (b'}' ∷ r)) in
      property_print f n k v (b'}' ∷ r)
        (values v n (b'}' ∷ r) refl (omega (arith, l)) (omega (arith, fuel, behind)))
  fields_step f values fields k v (field j w fs) n r l fuel =
      let more = b',' ∷ print_fields show (field j w fs) r in
      let behind = rest-print_string k (b':' ∷ print show v more) in
      let e = values v n more refl (omega (arith, l)) (omega (arith, fuel, behind)) in
      let shorter = rest-print f n v more (omega (arith, l)) (omega (arith, fuel, behind)) e in
      property_print f n k v more e
      ∙ ap (map_parsed (field k v))
          (fields j w fs n r (omega (arith, l)) (omega (arith, fuel, behind, shorter)))

  abbrev ReadsArray : ℕ → Type 0
  ReadsArray f =
      (vs : Items D) (n : ℕ) (r : Bytes)
      → depth (array vs) + n ≤ 256
      → 3 * length (print show (array vs) r) + 1 ≤ f
      → json_parse_array strtod f n (print show (array vs) r) ≡ parsed (array vs) r

  abbrev ReadsObject : ℕ → Type 0
  ReadsObject f =
      (fs : Fields D) (n : ℕ) (r : Bytes)
      → depth (object fs) + n ≤ 256
      → 3 * length (print show (object fs) r) + 1 ≤ f
      → json_parse_object strtod f n (print show (object fs) r) ≡ parsed (object fs) r

  array_step : (f : ℕ) → ReadsItems f → ReadsArray (suc f)
  unfolding json_parse_array print depth
  array_step f items no_items n r l fuel = rw (ltb-false 256 (suc n) (omega (arith, l))) refl
  array_step f items (item v vs) n r l fuel =
      let begins = print-BeginsValue v (print_more_items show vs r) in
      rw (ltb-false 256 (suc n) (omega (arith, l)), skip-BeginsValue _ begins)
        (opened-BeginsValue _ _ _ begins
          ∙ ap (map_parsed array) (items v vs (suc n) r (omega (arith, l)) (omega (arith, fuel))))

  object_step : (f : ℕ) → ReadsFields f → ReadsObject (suc f)
  unfolding json_parse_object print depth
  object_step f fields no_fields n r l fuel = rw (ltb-false 256 (suc n) (omega (arith, l))) refl
  object_step f fields (field k v fs) n r l fuel =
      rw (ltb-false 256 (suc n) (omega (arith, l)))
        (ap (map_parsed object) (fields k v fs (suc n) r (omega (arith, l)) (omega (arith, fuel))))

  -- A value that begins as a number does is left to the number parser.
  value_number :
      (f n c : ℕ) (negative : Bool) (s : Bytes) (d : D) (r : Bytes)
      → IsDigit c
      → Stops r
      → json_parse_number strtod (print_sign negative (c ∷ s)) ≡ parsed (number d) r
      → json_parse_value strtod (suc (suc f)) n (print_sign negative (c ∷ s)) ≡ parsed (number d) r
  unfolding json_parse_value json_parse_object json_parse_array json_parse_string
  value_number f n c true s d r h stops e = rw e (rw (skip-Stops r stops) refl)
  value_number f n c false s d r h stops e =
      let no_space : isspace c ≡ false = ground (arith, h) in
      let no_brace : (c == b'{') ≡ false = ground (arith, h) in
      let no_bracket : (c == b'[') ≡ false = ground (arith, h) in
      let no_quote : (c == b'"') ≡ false = ground (arith, h) in
      rw (no_space, no_brace, no_bracket, no_quote) (rw e (rw (skip-Stops r stops) refl))

  value_step : (f : ℕ) → ReadsArray f → ReadsObject f → ReadsValue (suc f)
  unfolding json_parse_value json_parse_object json_parse_array json_parse_string json_parse_number
      print depth
  value_step zero arrays objects v n r stops l fuel = absurd (omega (arith, fuel))
  value_step (suc f) arrays objects json_true n r stops l fuel =
      rw (parse_true {D = D} r) (rw (skip-Stops r stops) refl)
  value_step (suc f) arrays objects json_false n r stops l fuel =
      rw (parse_false {D = D} r) (rw (skip-Stops r stops) refl)
  value_step (suc f) arrays objects json_null n r stops l fuel =
      rw (parse_null {D = D} r) (rw (skip-Stops r stops) refl)
  value_step (suc f) arrays objects (number d) n r stops l fuel =
      value_number f n (show d).lead (show d).negative _ d r (show_lem d).lead_lem stops
        (parse_number-print strtod (show d) d r (show_lem d) stops (strtod_lem d))
  value_step (suc f) arrays objects (string s) n r stops l fuel =
      rw (parse_string-print s r) (ap (parsed (string s)) (skip-Stops r stops))
  value_step (suc f) arrays objects (array vs) n r stops l fuel =
      rw (arrays vs n r l (omega (arith, fuel))) (ap (parsed (array vs)) (skip-Stops r stops))
  value_step (suc f) arrays objects (object fs) n r stops l fuel =
      rw (objects fs n r l (omega (arith, fuel))) (ap (parsed (object fs)) (skip-Stops r stops))

  print_lem : (f : ℕ) → ReadsValue f × ReadsArray f × ReadsObject f × ReadsItems f × ReadsFields f
  print_lem zero = (
    λ v n r s l e. absurd (omega (arith, e)),
    λ vs n r l e. absurd (omega (arith, e)),
    λ fs n r l e. absurd (omega (arith, e)),
    λ v vs n r l e. absurd (omega (arith, e)),
    λ k v fs n r l e. absurd (omega (arith, e)),
  )
  print_lem (suc f) =
      let (values, arrays, objects, items, fields) = print_lem f in
      (
        value_step f arrays objects,
        array_step f items,
        object_step f fields,
        items_step f values items,
        fields_step f values fields,
      )

  -- What is printed of a value whose containers are at most 256 inside each other, where a number is
  -- printed so that strtod reads it back, is read as this value by json_parse_buf, if the text has at
  -- most INT_MAX bytes.
  pub json_parse_buf-print :
      (v : Json D)
      → depth v ≤ 256
      → length (print show v []) ≤ 0x7fffffff
      → json_parse_buf strtod (print show v []) ≡ some v
  json_parse_buf-print v l short =
      json_parse_buf-parsed strtod (print show v []) v short
        ((print_lem _).0 v 0 [] tt (omega (arith, l)) (omega arith))
