-- ===== src/Json.antt =====
-- src/json.c and src/json.h: the values, and the functions that look into them.
pub mod Token
pub mod Parse
pub mod Within
pub mod Nesting
pub mod Print
pub mod RoundTrip
mod Tests
use qdl.Base.{
  ℕ, zero, suc, ◌+◌, ◌≤◌, max, Bool, true, false, Option, none, some, List, [], ◌∷◌, Bytes, same,
  cut_at_nul, if◌then◌else◌,
}

-- `struct json_value`, over the type of a `double`. The list that `next` makes of the children is
-- `Items`, in an object with the keys. A string is what its buffer holds in front of the last NUL.
mutual
  pub data Json (D : Type 0) : Type 0 where
    json_true json_false json_null : Json D
    number : D → Json D
    string : Bytes → Json D
    array : Items D → Json D
    object : Fields D → Json D

  pub data Items (D : Type 0) : Type 0 where
    no_items : Items D
    item : Json D → Items D → Items D

  pub data Fields (D : Type 0) : Type 0 where
    no_fields : Fields D
    field : Bytes → Json D → Fields D → Fields D

-- How many containers are inside each other.
unfoldable mutual
  pub depth : {D : Type 0} → Json D → ℕ
  depth (array xs) = suc (depth_items xs)
  depth (object fs) = suc (depth_fields fs)
  depth _ = 0

  pub depth_items : {D : Type 0} → Items D → ℕ
  depth_items no_items = 0
  depth_items (item x xs) = max (depth x) (depth_items xs)

  pub depth_fields : {D : Type 0} → Fields D → ℕ
  depth_fields no_fields = 0
  depth_fields (field k x fs) = max (depth x) (depth_fields fs)

-- A result of a parser: it has read a value and leaves the rest (1), it does not apply and has read
-- nothing (0), or the input is malformed (-1). `out_of_fuel` has no counterpart in the program.
pub data Result (A : Type 0) : Type 0 where
  parsed : A → Bytes → Result A
  no_match malformed out_of_fuel : Result A

module _ {D : Type 0} where
  -- the first field with the key; keys are compared as C strings
  find : Bytes → Fields D → Option (Json D)
  find key no_fields = none
  find key (field k v fs) = if same (cut_at_nul k) (cut_at_nul key) then some v else find key fs

  -- `json_get_child`
  unfoldable pub json_get_child : Json D → Bytes → Option (Json D)
  unfolding find
  json_get_child (object fs) key = find key fs
  json_get_child _ key = none

  nth : Items D → ℕ → Option (Json D)
  nth no_items idx = none
  nth (item v vs) zero = some v
  nth (item v vs) (suc idx) = nth vs idx

  -- `json_get_element_object`
  unfoldable pub json_get_element_object : Json D → ℕ → Option (Json D)
  unfolding nth
  json_get_element_object (array vs) idx = nth vs idx
  json_get_element_object _ idx = none

  string_of : Option (Json D) → Option Bytes
  string_of (some (string text)) = some text
  string_of _ = none

  number_of : Option (Json D) → Option D
  number_of (some (number n)) = some n
  number_of _ = none

  -- `json_get_element_string`
  unfoldable pub json_get_element_string : Json D → ℕ → Option Bytes
  unfolding string_of
  json_get_element_string v idx = string_of (json_get_element_object v idx)

  count : Items D → ℕ
  count no_items = 0
  count (item v vs) = suc (count vs)

  -- `json_count_children`; `none` is -1
  unfoldable pub json_count_children : Json D → Option ℕ
  unfolding count
  json_count_children (array vs) = some (count vs)
  json_count_children _ = none

  -- `json_get_number`; `none` is -1
  unfoldable pub json_get_number : Json D → Bytes → Option D
  unfolding number_of
  json_get_number v key = number_of (json_get_child v key)

  -- `json_get_string`
  unfoldable pub json_get_string : Json D → Bytes → Option Bytes
  unfolding string_of
  json_get_string v key = string_of (json_get_child v key)
