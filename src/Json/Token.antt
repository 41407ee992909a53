-- ===== src/Json/Token.antt =====
-- The strings, numbers and keywords of src/json.c. A parser gets what is left of the input, so `unput`
-- is to go on with what was there before.
pub mod Consumes
pub mod Printed
pub mod Numerals
use qdl.Base.{
  ℕ, zero, suc, ◌+◌, ◌-◌, ◌*◌, ◌/◌, ◌%◌, Bool, true, false, ◌&&◌, ◌||◌, Option, none, some, List,
  [], ◌∷◌, ◌++◌, Bytes, length, drop, ltb, leb, ◌==◌, if◌then◌else◌, starts_with, codes,
}
use qdl.Json.{
  Json, json_true, json_false, json_null, number, string, Result, parsed, no_match, malformed,
  out_of_fuel,
}

abbrev pub isspace : ℕ → Bool
isspace c = (leb 9 c && leb c 13) || c == 32

abbrev pub isdigit : ℕ → Bool
isdigit c = leb b'0' c && leb c b'9'

-- `json_skip_whitespace`
abbrev pub json_skip_whitespace : Bytes → Bytes
json_skip_whitespace [] = []
json_skip_whitespace (c ∷ s) =
    let rest = json_skip_whitespace s in if isspace c then rest else c ∷ s

-- `json_hex_value`
unfoldable pub json_hex_value : ℕ → Option ℕ
json_hex_value c =
    if leb b'0' c && leb c b'9'
    then some (c - b'0')
    else if leb b'a' c && leb c b'f'
    then some (c - 87)
    else if leb b'A' c && leb c b'F'
    then some (c - 55)
    else none

hex_digit_on : ℕ → Option ℕ → Option ℕ
hex_digit_on code none = none
hex_digit_on code (some digit) = some (16 * code + digit)

hex_more : Option ℕ → ℕ → Option ℕ
hex_more none c = none
hex_more (some code) c = hex_digit_on code (json_hex_value c)

-- the value of four digits
hex4 : ℕ → ℕ → ℕ → ℕ → Option ℕ
hex4 a b c e = hex_more (hex_more (hex_more (hex_more (some 0) a) b) c) e

abbrev pub with_rest : Bytes → Option ℕ → Option (ℕ × Bytes)
with_rest s none = none
with_rest s (some n) = some (n, s)

-- `json_parse_hex4`
unfoldable pub json_parse_hex4 : Bytes → Option (ℕ × Bytes)
unfolding hex4 hex_more hex_digit_on
json_parse_hex4 (a ∷ b ∷ c ∷ e ∷ s) = with_rest s (hex4 a b c e)
json_parse_hex4 _ = none

-- `json_buf_append_utf8`, up to 0x10ffff
pub utf8 : ℕ → Bytes
utf8 cp =
    if leb cp 0x7f
    then cp ∷ []
    else if leb cp 0x7ff
    then (0xc0 + cp / 64) ∷ (0x80 + cp % 64) ∷ []
    else if leb cp 0xffff
    then (0xe0 + cp / 4096) ∷ (0x80 + cp / 64 % 64) ∷ (0x80 + cp % 64) ∷ []
    else (0xf0 + cp / 262144)
      ∷ (0x80 + cp / 4096 % 64)
      ∷ (0x80 + cp / 64 % 64)
      ∷ (0x80 + cp % 64)
      ∷ []

-- the low surrogate behind a high one
low_surrogate : ℕ → Option (ℕ × Bytes) → Option (Bytes × Bytes)
low_surrogate high none = none
low_surrogate high (some (low, s)) =
    if ltb low 0xdc00 || ltb 0xdfff low
    then none
    else some (utf8 (0x10000 + (1024 * (high - 0xd800) + (low - 0xdc00))), s)

second_escape : ℕ → Bytes → Option (Bytes × Bytes)
second_escape high (b ∷ u ∷ s) =
    if b == b'\\' && u == b'u' then low_surrogate high (json_parse_hex4 s) else none
second_escape high _ = none

unicode : Option (ℕ × Bytes) → Option (Bytes × Bytes)
unicode none = none
unicode (some (code, s)) =
    if leb 0xd800 code && leb code 0xdbff
    then second_escape code s
    else if leb 0xdc00 code && leb code 0xdfff
    then none
    else some (utf8 code, s)

-- `json_parse_escape`: the bytes that it appends, and the rest
unfoldable pub json_parse_escape : Bytes → Option (Bytes × Bytes)
unfolding unicode second_escape low_surrogate utf8 json_parse_hex4
json_parse_escape [] = none
json_parse_escape (c ∷ s) =
    if c == b'"' || (c == b'\\' || c == b'/')
    then some (c ∷ [], s)
    else if c == b'b'
    then some (8 ∷ [], s)
    else if c == b'f'
    then some (12 ∷ [], s)
    else if c == b'n'
    then some (10 ∷ [], s)
    else if c == b'r'
    then some (13 ∷ [], s)
    else if c == b't'
    then some (9 ∷ [], s)
    else if c == b'u'
    then unicode (json_parse_hex4 s)
    else none

-- behind an escape; `next` is the rounds behind it
escaped : (Bytes → Bytes → Result Bytes) → Bytes → Option (Bytes × Bytes) → Result Bytes
escaped next str none = malformed
escaped next str (some (bytes, s)) = next (str ++ bytes) s

-- the loop over a string behind its quote, with `str` read so far
string_rounds : ℕ → Bytes → Bytes → Result Bytes
string_rounds zero str s = out_of_fuel
string_rounds (suc rounds) str [] = malformed
string_rounds (suc rounds) str (c ∷ s) =
    let escape = escaped (string_rounds rounds) str (json_parse_escape s) in
    let plain = string_rounds rounds (str ++ c ∷ []) s in
    if c == b'"'
    then parsed str s
    else if c == b'\\'
    then escape
    else if ltb c 0x20
    then malformed
    else plain

-- `json_parse_string`, where allocations succeed. A round takes a byte and more.
unfoldable pub json_parse_string : Bytes → Result Bytes
unfolding string_rounds escaped json_parse_escape
json_parse_string [] = no_match
json_parse_string (c ∷ s) = if c == b'"' then string_rounds (suc (length s)) [] s else no_match

-- `json_parse_keyword`
expect : {A : Type 0} → Bytes → A → Bytes → Result A
expect word value s = if starts_with word s then parsed value (drop (length word) s) else malformed

unfoldable pub json_parse_keyword : {D : Type 0} → Bytes → Result (Json D)
unfolding expect
json_parse_keyword [] = no_match
json_parse_keyword (c ∷ s) =
    if c == b't'
    then expect (codes "rue") json_true s
    else if c == b'f'
    then expect (codes "alse") json_false s
    else if c == b'n'
    then expect (codes "ull") json_null s
    else no_match

-- The digits that a text begins with, and the rest.
span_digits : Bytes → Bytes × Bytes
span_digits [] = ([], [])
span_digits (c ∷ s) =
    let (digits, rest) = span_digits s in if isdigit c then (c ∷ digits, rest) else ([], c ∷ s)

-- one digit and more, behind the token so far
some_digits : Bytes → Bytes → Option (Bytes × Bytes)
some_digits token [] = none
some_digits token (c ∷ s) =
    let (digits, rest) = span_digits s in
    if isdigit c then some (token ++ c ∷ digits, rest) else none

sign : Bytes → Bytes → Option (Bytes × Bytes)
sign token [] = none
sign token (c ∷ s) =
    if c == b'+' || c == b'-' then some_digits (token ++ c ∷ []) s else some_digits token (c ∷ s)

exponent : Option (Bytes × Bytes) → Option (Bytes × Bytes)
exponent none = none
exponent (some (token, [])) = some (token, [])
exponent (some (token, c ∷ s)) =
    if c == b'e' || c == b'E' then sign (token ++ c ∷ []) s else some (token, c ∷ s)

fraction : Option (Bytes × Bytes) → Option (Bytes × Bytes)
fraction none = none
fraction (some (token, [])) = some (token, [])
fraction (some (token, c ∷ s)) =
    if c == b'.' then some_digits (token ++ c ∷ []) s else some (token, c ∷ s)

no_digit : Bytes → Option (Bytes × Bytes) → Option (Bytes × Bytes)
no_digit [] r = r
no_digit (c ∷ s) r = if isdigit c then none else r

-- the part in front of the point: no zero leads other digits
integer : Bytes → Bytes → Option (Bytes × Bytes)
integer token [] = none
integer token (c ∷ s) =
    if c == b'0' then no_digit s (some (token ++ c ∷ [], s)) else some_digits token (c ∷ s)

finite : {D : Type 0} → Bytes → Option D → Result (Json D)
finite s none = malformed
finite s (some n) = parsed (number n) s

-- `strtod` on the token: a finite number, if it takes all of the token
converted : {D : Type 0} → (Bytes → Option D) → Option (Bytes × Bytes) → Result (Json D)
converted strtod none = malformed
converted strtod (some (token, s)) = finite s (strtod token)

-- `json_parse_number`
unfoldable pub json_parse_number : {D : Type 0} → (Bytes → Option D) → Bytes → Result (Json D)
unfolding converted finite integer no_digit fraction exponent sign some_digits span_digits
json_parse_number strtod [] = no_match
json_parse_number strtod (c ∷ s) =
    if c == b'-'
    then converted strtod (exponent (fraction (integer (c ∷ []) s)))
    else if isdigit c
    then converted strtod (exponent (fraction (integer [] (c ∷ s))))
    else no_match
