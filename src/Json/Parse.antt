-- ===== src/Json/Parse.antt =====
-- The recursive descent of src/json.c.
use qdl.Base.{
  ℕ, zero, suc, ◌+◌, ◌*◌, Bool, true, false, Option, none, some, [], ◌∷◌, Bytes, length, ltb,
  ltb-false, ◌≡◌, ◌≤◌, refl, ◌==◌, if◌then◌else◌,
}
use qdl.Json.{
  Json, Items, Fields, string, array, object, no_items, item, no_fields, field, Result, parsed,
  no_match, malformed, out_of_fuel,
}
use qdl.Json.Token.{json_skip_whitespace, json_parse_string, json_parse_number, json_parse_keyword}

abbrev pub json_max_depth : ℕ
json_max_depth = 256

-- The next parser is tried where one does not apply.
abbrev pub or_else : {A : Type 0} → Result A → Result A → Result A
or_else no_match r = r
or_else r _ = r

abbrev pub on_parsed : {A B : Type 0} → (A → Bytes → Result B) → Result A → Result B
on_parsed next (parsed a s) = next a s
on_parsed next out_of_fuel = out_of_fuel
on_parsed next _ = malformed

abbrev pub map_parsed : {A B : Type 0} → (A → B) → Result A → Result B
map_parsed f (parsed a s) = parsed (f a) s
map_parsed f no_match = no_match
map_parsed f malformed = malformed
map_parsed f out_of_fuel = out_of_fuel

-- the end of `json_parse_value`
abbrev pub skip_behind : {A : Type 0} → Result A → Result A
skip_behind (parsed a s) = parsed a (json_skip_whitespace s)
skip_behind no_match = malformed
skip_behind r = r

-- Behind an element: the closing character, or a comma and more elements.
abbrev pub close_or : {A : Type 0} → ℕ → A → (A → A) → (Bytes → Result A) → Bytes → Result A
close_or close last more next [] = malformed
close_or close last more next (c ∷ s) =
    let others = map_parsed more (next s) in
    if c == close then parsed last s else if c == b',' then others else malformed

-- Behind an opening character and white space: the closing one, or elements.
abbrev pub opened : {A : Type 0} → ℕ → A → Result A → Bytes → Result A
opened close empty elements [] = elements
opened close empty elements (c ∷ s) = if c == close then parsed empty s else elements

-- `input() == ':'` behind a key
abbrev pub colon : {A : Type 0} → (Bytes → Result A) → Bytes → Result A
colon next [] = malformed
colon next (c ∷ s) = let value = next s in if c == b':' then value else malformed

-- `json_enter_nesting` behind an opening character; without it, the parser does not apply.
abbrev pub entered : {A : Type 0} → Bool → ℕ → (ℕ → Result A) → Result A
entered false nesting next = no_match
entered true nesting next =
    if ltb json_max_depth (suc nesting) then malformed else next (suc nesting)

module _ {D : Type 0} (strtod : Bytes → Option D) where
  -- A call that does not read its argument's first byte costs a unit of fuel; `nesting` is
  -- `nesting_depth`.
  unfoldable mutual
    pub json_parse_value : ℕ → ℕ → Bytes → Result (Json D)
    json_parse_value zero nesting s = out_of_fuel
    json_parse_value (suc f) nesting s =
        let start = json_skip_whitespace s in
        skip_behind (
          or_else (json_parse_object f nesting start) (
            or_else (json_parse_array f nesting start) (
              or_else (map_parsed string (json_parse_string start))
                (or_else (json_parse_number strtod start) (json_parse_keyword start)))))

    pub json_parse_array : ℕ → ℕ → Bytes → Result (Json D)
    json_parse_array zero nesting s = out_of_fuel
    json_parse_array (suc f) nesting [] = no_match
    json_parse_array (suc f) nesting (c ∷ s) =
        let start = json_skip_whitespace s in
        entered (c == b'[') nesting (λ deeper.
          opened b']' (array no_items) (map_parsed array (parse_items f deeper start)) start)

    -- the loop of `json_parse_array`
    pub parse_items : ℕ → ℕ → Bytes → Result (Items D)
    parse_items zero nesting s = out_of_fuel
    parse_items (suc f) nesting s =
        on_parsed (λ v. close_or b']' (item v no_items) (item v) (parse_items f nesting))
          (json_parse_value f nesting s)

    pub json_parse_object : ℕ → ℕ → Bytes → Result (Json D)
    json_parse_object zero nesting s = out_of_fuel
    json_parse_object (suc f) nesting [] = no_match
    json_parse_object (suc f) nesting (c ∷ s) =
        let start = json_skip_whitespace s in
        entered (c == b'{') nesting (λ deeper.
          opened b'}' (object no_fields) (map_parsed object (parse_fields f deeper start)) start)

    -- the loop of `json_parse_object`, with `json_parse_property`
    pub parse_fields : ℕ → ℕ → Bytes → Result (Fields D)
    parse_fields zero nesting s = out_of_fuel
    parse_fields (suc f) nesting s =
        on_parsed
          (λ k rest.
            on_parsed
              (λ v. close_or b'}' (field k v no_fields) (field k v) (parse_fields f nesting))
              (colon (json_parse_value f nesting) (json_skip_whitespace rest)))
          (json_parse_string (json_skip_whitespace s))

  abbrev at_end : {A : Type 0} → A → Bytes → Option A
  at_end v [] = some v
  at_end v (c ∷ s) = none

  whole : Result (Json D) → Option (Json D)
  whole (parsed v s) = at_end v (json_skip_whitespace s)
  whole _ = none

  -- `json_parse_buf`, where allocations succeed; the input is at most `INT_MAX` bytes
  unfoldable pub json_parse_buf : Bytes → Option (Json D)
  unfolding whole
  json_parse_buf s =
      if ltb 0x7fffffff (length s) then none else whole (json_parse_value (3 * length s + 2) 0 s)

  pub json_parse_buf-parsed :
      (s : Bytes) (v : Json D)
      → length s ≤ 0x7fffffff
      → json_parse_value (3 * length s + 2) 0 s ≡ parsed v []
      → json_parse_buf s ≡ some v
  unfolding json_parse_buf whole
  json_parse_buf-parsed s v l e = rw (ltb-false 0x7fffffff (length s) l, e) refl
