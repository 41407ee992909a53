-- ===== src/Json/Nesting.antt =====
-- `json_parse_buf` of src/json.c ends, and its limit of nesting holds.
use qdl.Base.{ℕ, zero, suc, ◌+◌, ◌*◌, ◌≤◌, Option, [], ◌∷◌, Bytes, length, arith, ◌==◌}
use qdl.Json.{
  Json, Items, Fields, string, array, object, no_items, item, no_fields, field, Result, depth,
  depth_items, depth_fields,
}
use qdl.Json.Token.{json_skip_whitespace, json_parse_string, json_parse_number, json_parse_keyword}
use qdl.Json.Token.Consumes.{parse_string-Within, parse_number-Within, parse_keyword-Within}
use qdl.Json.Parse.{
  json_parse_value, json_parse_array, json_parse_object, parse_items, parse_fields, or_else,
  map_parsed, colon,
}
use qdl.Json.Within.{
  Within, Any, length-skip_whitespace, Within-mono, or_else-Within, skip_behind-Within,
  entered-Within, opened-Within, colon-Within, on_parsed-Within, map_parsed-Within, close_or-Within,
}

none_inside : (n : ℕ) → n ≤ 256 → 0 + n ≤ 256
none_inside n l = omega (arith, l)

module _ {D : Type 0} where
  -- The containers of a value and those around it are 256 at most.
  abbrev pub Shallow : ℕ → Json D → Type 0
  Shallow nesting v = depth v + nesting ≤ 256

  abbrev ShallowItems : ℕ → Items D → Type 0
  ShallowItems nesting vs = depth_items vs + nesting ≤ 256

  abbrev ShallowFields : ℕ → Fields D → Type 0
  ShallowFields nesting fs = depth_fields fs + nesting ≤ 256

  Shallow-item :
      (n : ℕ) (v : Json D) (vs : Items D)
      → Shallow n v
      → ShallowItems n vs
      → ShallowItems n (item v vs)
  unfolding depth
  Shallow-item n v vs l k = omega (arith, l, k)

  Shallow-field :
      (n : ℕ) (key : Bytes) (v : Json D) (fs : Fields D)
      → Shallow n v
      → ShallowFields n fs
      → ShallowFields n (field key v fs)
  unfolding depth
  Shallow-field n key v fs l k = omega (arith, l, k)

  Shallow-array : (n : ℕ) (vs : Items D) → ShallowItems (suc n) vs → Shallow n (array vs)
  unfolding depth
  Shallow-array n vs l = omega (arith, l)

  Shallow-object : (n : ℕ) (fs : Fields D) → ShallowFields (suc n) fs → Shallow n (object fs)
  unfolding depth
  Shallow-object n fs l = omega (arith, l)

module _ {D : Type 0} (strtod : Bytes → Option D) where
  -- A parser reads within its limits when the fuel is `3 * length s` and a bit more.
  abbrev Reads : {A : Type 0} → (ℕ → A → Type 0) → ℕ → ℕ → (ℕ → Bytes → Result A) → Type 0
  Reads P more f parse =
      (nesting : ℕ) (s : Bytes)
      → nesting ≤ 256
      → 3 * length s + more ≤ f
      → Within (P nesting) (length s) (parse nesting s)

  abbrev Value : ℕ → Type 0
  Value f = Reads Shallow 2 f (json_parse_value strtod f)

  abbrev ArrayReads : ℕ → Type 0
  ArrayReads f = Reads Shallow 1 f (json_parse_array strtod f)

  abbrev ObjectReads : ℕ → Type 0
  ObjectReads f = Reads Shallow 1 f (json_parse_object strtod f)

  abbrev ItemsRead : ℕ → Type 0
  ItemsRead f = Reads ShallowItems 3 f (parse_items strtod f)

  abbrev FieldsRead : ℕ → Type 0
  FieldsRead f = Reads ShallowFields 3 f (parse_fields strtod f)

  value_lem : (f : ℕ) → ArrayReads f → ObjectReads f → Value (suc f)
  unfolding json_parse_value depth
  value_lem f arrays objects n s l fuel =
      let t = json_skip_whitespace s in
      let k : length t ≤ length s = length-skip_whitespace s in
      let P = Shallow n in
      let flat = none_inside n l in
      let string_r = map_parsed string (json_parse_string t) in
      let number_r = json_parse_number strtod t in
      let keyword_r = json_parse_keyword t in
      let array_r = json_parse_array strtod f n t in
      let rest = or_else string_r (or_else number_r keyword_r) in
      Within-mono P (length t) (length s) _ k (
        skip_behind-Within P (length t) _ (
          or_else-Within P (length t) (json_parse_object strtod f n t) (or_else array_r rest)
            (objects n t l (omega (arith, fuel, k)))
            (or_else-Within P (length t) array_r rest (arrays n t l (omega (arith, fuel, k))) (
              or_else-Within P (length t) string_r (or_else number_r keyword_r)
                (map_parsed-Within Any P (length t) string (json_parse_string t) (λ a u. flat)
                  (parse_string-Within t))
                (or_else-Within P (length t) number_r keyword_r
                  (parse_number-Within strtod P (λ d. flat) t)
                  (parse_keyword-Within P t flat flat flat))))))

  array_lem : (f : ℕ) → ItemsRead f → ArrayReads (suc f)
  unfolding json_parse_array depth
  array_lem f items n [] l fuel = tt
  array_lem f items n (c ∷ s) l fuel =
      let t = json_skip_whitespace s in
      let k : length t ≤ length s = length-skip_whitespace s in
      entered-Within (Shallow n) (suc (length s)) n (c == b'[') _ (λ deeper.
        opened-Within (Shallow n) (suc (length s)) b']' (array no_items) _ t (omega (arith, k))
          (Shallow-array {D = D} n no_items (none_inside (suc n) deeper))
          (map_parsed-Within (ShallowItems (suc n)) (Shallow n) (suc (length s)) array _
            (Shallow-array n)
            (Within-mono (ShallowItems (suc n)) (length t) _ _ (omega (arith, k))
              (items (suc n) t deeper (omega (arith, fuel, k))))))

  object_lem : (f : ℕ) → FieldsRead f → ObjectReads (suc f)
  unfolding json_parse_object depth
  object_lem f fields n [] l fuel = tt
  object_lem f fields n (c ∷ s) l fuel =
      let t = json_skip_whitespace s in
      let k : length t ≤ length s = length-skip_whitespace s in
      entered-Within (Shallow n) (suc (length s)) n (c == b'{') _ (λ deeper.
        opened-Within (Shallow n) (suc (length s)) b'}' (object no_fields) _ t (omega (arith, k))
          (Shallow-object {D = D} n no_fields (none_inside (suc n) deeper))
          (map_parsed-Within (ShallowFields (suc n)) (Shallow n) (suc (length s)) object _
            (Shallow-object n)
            (Within-mono (ShallowFields (suc n)) (length t) _ _ (omega (arith, k))
              (fields (suc n) t deeper (omega (arith, fuel, k))))))

  items_lem : (f : ℕ) → Value f → ItemsRead f → ItemsRead (suc f)
  unfolding parse_items depth
  items_lem f values items n s l fuel =
      on_parsed-Within (Shallow n) (ShallowItems n) (length s) (length s) _
        (json_parse_value strtod f n s)
        (λ v t p k.
          close_or-Within (ShallowItems n) (length s) b']' (item v no_items) (item v) _ t
            (omega (arith, k)) (Shallow-item n v no_items p (none_inside n l))
            (λ vs q. Shallow-item n v vs p q)
            (λ r j.
              Within-mono (ShallowItems n) (length r) (length s) _ (omega (arith, j, k))
                (items n r l (omega (arith, fuel, j, k)))))
        (values n s l (omega (arith, fuel)))

  fields_lem : (f : ℕ) → Value f → FieldsRead f → FieldsRead (suc f)
  unfolding parse_fields depth
  fields_lem f values fields n s l fuel =
      let start = json_skip_whitespace s in
      let b : length start ≤ length s = length-skip_whitespace s in
      on_parsed-Within Any (ShallowFields n) (length start) (length s) _ (json_parse_string start)
        (λ key t u k.
          let behind = json_skip_whitespace t in
          let e : length behind ≤ length t = length-skip_whitespace t in
          on_parsed-Within (Shallow n) (ShallowFields n) (length s) (length s) _
            (colon (json_parse_value strtod f n) behind)
            (λ v r p i.
              close_or-Within (ShallowFields n) (length s) b'}' (field key v no_fields)
                (field key v) _ r (omega (arith, i))
                (Shallow-field n key v no_fields p (none_inside n l))
                (λ fs q. Shallow-field n key v fs p q)
                (λ w j.
                  Within-mono (ShallowFields n) (length w) (length s) _ (omega (arith, i, j))
                    (fields n w l (omega (arith, fuel, i, j)))))
            (colon-Within (Shallow n) (length s) (json_parse_value strtod f n) behind (λ r j.
              Within-mono (Shallow n) (length r) (length s) _ (omega (arith, b, e, k, j))
                (values n r l (omega (arith, fuel, b, e, k, j))))))
        (parse_string-Within start)

  parse_lem : (f : ℕ) → Value f × ArrayReads f × ObjectReads f × ItemsRead f × FieldsRead f
  parse_lem zero = (
    λ n s l e. absurd (omega (arith, e)),
    λ n s l e. absurd (omega (arith, e)),
    λ n s l e. absurd (omega (arith, e)),
    λ n s l e. absurd (omega (arith, e)),
    λ n s l e. absurd (omega (arith, e)),
  )
  parse_lem (suc f) =
      let (values, arrays, objects, items, fields) = parse_lem f in
      (
        value_lem f arrays objects,
        array_lem f items,
        object_lem f fields,
        items_lem f values items,
        fields_lem f values fields,
      )

  -- Called inside at most 256 containers, json_parse_value ends within three units of fuel for each
  -- byte and two more, and what it reads is some of the input, and a value whose containers, with
  -- those around it, are at most 256 inside each other.
  pub json_parse_value-Within :
      (f nesting : ℕ) (s : Bytes)
      → nesting ≤ 256
      → 3 * length s + 2 ≤ f
      → Within (Shallow nesting) (length s) (json_parse_value strtod f nesting s)
  json_parse_value-Within f = (parse_lem f).0
