-- ===== src/Json/Token/Consumes.antt =====
-- The strings, numbers and keywords of src/json.c take something of the input.
use qdl.Base.{
  ℕ, zero, suc, ◌≤◌, ◌<◌, ◌&&◌, ◌||◌, Option, none, some, [], ◌∷◌, ◌++◌, Bytes, length, length-drop,
  ltb, leb, ◌==◌, starts_with, codes, arith, either,
}
use qdl.Json.{Json, number, json_true, json_false, json_null, Result}
use qdl.Json.Token.{
  isdigit, hex4, json_parse_hex4, with_rest, low_surrogate, second_escape, unicode,
  json_parse_escape, escaped, string_rounds, json_parse_string, expect, json_parse_keyword,
  span_digits, some_digits, sign, exponent, fraction, no_digit, integer, finite, converted,
  json_parse_number,
}
use qdl.Json.Within.{Within, Any}

-- What is left has at most `n` bytes.
abbrev Leaves : {A : Type 0} → ℕ → Option (A × Bytes) → Type 0
Leaves n none = Unit
Leaves n (some (a, s)) = length s ≤ n

Leaves-mono : {A : Type 0} (m n : ℕ) (r : Option (A × Bytes)) → m ≤ n → Leaves m r → Leaves n r
Leaves-mono m n none l w = tt
Leaves-mono m n (some (a, s)) l w = omega (arith, l, w)

with_rest-Leaves : (s : Bytes) (o : Option ℕ) → Leaves (length s) (with_rest s o)
with_rest-Leaves s none = tt
with_rest-Leaves s (some n) = omega arith

hex4-Leaves : (s : Bytes) → Leaves (length s) (json_parse_hex4 s)
unfolding json_parse_hex4
hex4-Leaves (a ∷ b ∷ c ∷ e ∷ s) =
    Leaves-mono (length s) (suc (suc (suc (suc (length s))))) (with_rest s (hex4 a b c e))
      (omega arith) (with_rest-Leaves s (hex4 a b c e))
hex4-Leaves [] = tt
hex4-Leaves (a ∷ []) = tt
hex4-Leaves (a ∷ b ∷ []) = tt
hex4-Leaves (a ∷ b ∷ c ∷ []) = tt

low_surrogate-Leaves :
    (n high : ℕ) (r : Option (ℕ × Bytes)) → Leaves n r → Leaves n (low_surrogate high r)
unfolding low_surrogate
low_surrogate-Leaves n high none w = tt
low_surrogate-Leaves n high (some (low, s)) w =
    either (Leaves n) (ltb low 0xdc00 || ltb 0xdfff low) tt w

second_escape-Leaves : (high : ℕ) (s : Bytes) → Leaves (length s) (second_escape high s)
unfolding second_escape
second_escape-Leaves high (b ∷ u ∷ s) =
    either (Leaves (suc (suc (length s)))) (b == b'\\' && u == b'u')
      (Leaves-mono (length s) _ (low_surrogate high (json_parse_hex4 s)) (omega arith)
        (low_surrogate-Leaves (length s) high (json_parse_hex4 s) (hex4-Leaves s)))
      tt
second_escape-Leaves high [] = tt
second_escape-Leaves high (b ∷ []) = tt

unicode-Leaves : (n : ℕ) (r : Option (ℕ × Bytes)) → Leaves n r → Leaves n (unicode r)
unfolding unicode
unicode-Leaves n none w = tt
unicode-Leaves n (some (code, s)) w =
    either (Leaves n) (leb 0xd800 code && leb code 0xdbff)
      (Leaves-mono (length s) n (second_escape code s) w (second_escape-Leaves code s))
      (either (Leaves n) (leb 0xdc00 code && leb code 0xdfff) tt w)

escape-Leaves : (s : Bytes) → Leaves (length s) (json_parse_escape s)
unfolding json_parse_escape
escape-Leaves [] = tt
escape-Leaves (c ∷ s) =
    let L = Leaves {A = Bytes} (suc (length s)) in
    let one : length s ≤ suc (length s) = omega arith in
    either L (c == b'"' || (c == b'\\' || c == b'/')) one (
      either L (c == b'b') one (
        either L (c == b'f') one (
          either L (c == b'n') one (
            either L (c == b'r') one (
              either L (c == b't') one (
                either L (c == b'u')
                  (unicode-Leaves _ (json_parse_hex4 s)
                    (Leaves-mono (length s) _ (json_parse_hex4 s) one (hex4-Leaves s)))
                  tt))))))

escaped-Within :
    (n m : ℕ) (next : Bytes → Bytes → Result Bytes) (str : Bytes) (r : Option (Bytes × Bytes))
    → Leaves m r
    → ((more rest : Bytes) → length rest ≤ m → Within Any n (next more rest))
    → Within Any n (escaped next str r)
unfolding escaped
escaped-Within n m next str none w h = tt
escaped-Within n m next str (some (bytes, rest)) w h = h (str ++ bytes) rest w

-- Enough rounds for what is left, and what is left is less than `n` bytes.
string_rounds-Within :
    (n rounds : ℕ) (str s : Bytes)
    → length s < rounds
    → length s ≤ n
    → Within Any n (string_rounds rounds str s)
unfolding string_rounds
string_rounds-Within n zero str s l k = absurd (omega (arith, l))
string_rounds-Within n (suc rounds) str [] l k = tt
string_rounds-Within n (suc rounds) str (c ∷ s) l k =
    let W = Within {A = Bytes} Any n in
    either W (c == b'"') (omega (arith, k), tt)
      (either W (c == b'\\')
        (escaped-Within n (length s) (string_rounds rounds) str (json_parse_escape s)
          (escape-Leaves s)
          (λ more rest w.
            string_rounds-Within n rounds more rest (omega (arith, w, l)) (omega (arith, w, k))))
        (either W (ltb c 0x20) tt
          (string_rounds-Within n rounds (str ++ c ∷ []) s (omega (arith, l)) (omega (arith, k)))))

pub parse_string-Within : (s : Bytes) → Within Any (length s) (json_parse_string s)
unfolding json_parse_string
parse_string-Within [] = tt
parse_string-Within (c ∷ s) =
    either (Within Any (suc (length s))) (c == b'"')
      (string_rounds-Within (suc (length s)) (suc (length s)) [] s (omega arith) (omega arith)) tt

module _ {D : Type 0} (P : Json D → Type 0) where
  expect-Within :
      (n : ℕ) (word : Bytes) (v : Json D) (s : Bytes)
      → length s < n
      → P v
      → Within P n (expect word v s)
  unfolding expect
  expect-Within n word v s l p =
      either (Within P n) (starts_with word s)
        (omega (arith, l, length-drop {0} (length word) s), p) tt

  pub parse_keyword-Within :
      (s : Bytes)
      → P json_true
      → P json_false
      → P json_null
      → Within P (length s) (json_parse_keyword s)
  unfolding json_parse_keyword
  parse_keyword-Within [] t f u = tt
  parse_keyword-Within (c ∷ s) t f u =
      let W = Within P (suc (length s)) in
      either W (c == b't') (expect-Within _ (codes "rue") json_true s (omega arith) t) (
        either W (c == b'f') (expect-Within _ (codes "alse") json_false s (omega arith) f)
          (either W (c == b'n') (expect-Within _ (codes "ull") json_null s (omega arith) u) tt))

span_digits-length : (s : Bytes) → length (span_digits s).1 ≤ length s
unfolding span_digits
span_digits-length [] = omega arith
span_digits-length (c ∷ s) =
    either (λ (r : Bytes × Bytes). length r.1 ≤ suc (length s)) (isdigit c)
      (omega (arith, span_digits-length s)) (omega arith)

-- The parts of a number leave less than `n` bytes.
abbrev Takes : ℕ → Option (Bytes × Bytes) → Type 0
Takes n none = Unit
Takes n (some (token, s)) = length s < n

some_digits-Takes : (n : ℕ) (token s : Bytes) → length s ≤ n → Takes n (some_digits token s)
unfolding some_digits
some_digits-Takes n token [] l = tt
some_digits-Takes n token (c ∷ s) l =
    either (Takes n) (isdigit c) (omega (arith, l, span_digits-length s)) tt

sign-Takes : (n : ℕ) (token s : Bytes) → length s ≤ n → Takes n (sign token s)
unfolding sign
sign-Takes n token [] l = tt
sign-Takes n token (c ∷ s) l =
    either (Takes n) (c == b'+' || c == b'-')
      (some_digits-Takes n (token ++ c ∷ []) s (omega (arith, l)))
      (some_digits-Takes n token (c ∷ s) l)

exponent-Takes : (n : ℕ) (r : Option (Bytes × Bytes)) → Takes n r → Takes n (exponent r)
unfolding exponent
exponent-Takes n none w = tt
exponent-Takes n (some (token, [])) w = w
exponent-Takes n (some (token, c ∷ s)) w =
    either (Takes n) (c == b'e' || c == b'E') (sign-Takes n (token ++ c ∷ []) s (omega (arith, w)))
      w

fraction-Takes : (n : ℕ) (r : Option (Bytes × Bytes)) → Takes n r → Takes n (fraction r)
unfolding fraction
fraction-Takes n none w = tt
fraction-Takes n (some (token, [])) w = w
fraction-Takes n (some (token, c ∷ s)) w =
    either (Takes n) (c == b'.') (some_digits-Takes n (token ++ c ∷ []) s (omega (arith, w))) w

no_digit-Takes :
    (n : ℕ) (s : Bytes) (r : Option (Bytes × Bytes)) → Takes n r → Takes n (no_digit s r)
unfolding no_digit
no_digit-Takes n [] r w = w
no_digit-Takes n (c ∷ s) r w = either (Takes n) (isdigit c) tt w

integer-Takes : (n : ℕ) (token s : Bytes) → length s ≤ n → Takes n (integer token s)
unfolding integer
integer-Takes n token [] l = tt
integer-Takes n token (c ∷ s) l =
    either (Takes n) (c == b'0') (no_digit-Takes n s (some (token ++ c ∷ [], s)) (omega (arith, l)))
      (some_digits-Takes n token (c ∷ s) l)

module _ {D : Type 0} (strtod : Bytes → Option D) (P : Json D → Type 0)
    (of_number : (d : D) → P (number d)) where
  converted-Within :
      (n : ℕ) (r : Option (Bytes × Bytes)) → Takes n r → Within P n (converted strtod r)
  unfolding converted finite
  converted-Within n none w = tt
  converted-Within n (some (token, s)) w = finite-Within (strtod token)
    where
      finite-Within : (o : Option D) → Within P n (finite s o)
      finite-Within none = tt
      finite-Within (some d) = (w, of_number d)

  pub parse_number-Within : (s : Bytes) → Within P (length s) (json_parse_number strtod s)
  unfolding json_parse_number
  parse_number-Within [] = tt
  parse_number-Within (c ∷ s) =
      let n = suc (length s) in
      let token = λ (t r : Bytes) (l : length r ≤ n).
        converted-Within n (exponent (fraction (integer t r))) (
          exponent-Takes n (fraction (integer t r))
            (fraction-Takes n (integer t r) (integer-Takes n t r l))) in
      either (Within P n) (c == b'-') (token (c ∷ []) s (omega arith))
        (either (Within P n) (isdigit c) (token [] (c ∷ s) (omega arith)) tt)
