-- ===== src/Json/Token/Printed.antt =====
-- The string parser of src/json.c reads what is printed.
use qdl.Base.{
  codes, ℕ, zero, suc, ◌/◌, ◌%◌, ◌<◌, ◌≡◌, refl, ◌∙◌, sym, ap, inl, inr, true, false, ◌||◌, some,
  [], ◌∷◌, ◌++◌, append_assoc, append-nil, Bytes, length, ltb, ◌==◌, arith, Bool-cases, ltb→lt,
  subst,
}
use qdl.Json.{json_true, json_false, json_null, parsed}
use qdl.Json.Token.{
  json_skip_whitespace, json_hex_value, hex4, hex_more, hex_digit_on, json_parse_hex4, utf8,
  unicode, json_parse_escape, escaped, string_rounds, json_parse_string, json_parse_keyword, expect,
}
use qdl.Json.Print.{hex_digit, print_chars, print_string}

-- What may stand behind a value: the end, a comma or a closing character.
abbrev pub Stops : Bytes → Type 0
Stops [] = Unit
Stops (c ∷ s) = (c == b',' || (c == b']' || c == b'}')) ≡ true

pub skip-Stops : (s : Bytes) → Stops s → json_skip_whitespace s ≡ s
skip-Stops [] h = refl
skip-Stops (c ∷ s) h = ground (arith, h)

hex_value_digit : (d : ℕ) → d < 16 → json_hex_value (hex_digit d) ≡ some d
unfolding json_hex_value
hex_value_digit d l = ground (arith, l)

hex4_digits : (c : ℕ) → c < 256 → hex4 b'0' b'0' (hex_digit (c / 16)) (hex_digit (c % 16)) ≡ some c
unfolding hex4 hex_more hex_digit_on json_hex_value
hex4_digits c l =
    rw (hex_value_digit (c / 16) (omega (arith, l)), hex_value_digit (c % 16) (omega (arith, l)))
      (ap some (omega (arith, l)))

escape_control :
    (c : ℕ) (s : Bytes)
    → c < 0x20
    → json_parse_escape (b'u' ∷ b'0' ∷ b'0' ∷ hex_digit (c / 16) ∷ hex_digit (c % 16) ∷ s)
      ≡ some (c ∷ [], s)
unfolding json_parse_escape json_parse_hex4 unicode utf8
escape_control c s l = rw (hex4_digits c (omega (arith, l))) (ground (arith, l))

escape_quoted :
    (c : ℕ) (s : Bytes)
    → (c == b'"' || c == b'\\') ≡ true
    → json_parse_escape (c ∷ s) ≡ some (c ∷ [], s)
unfolding json_parse_escape
escape_quoted c s e = ground (arith, e)

chars_quoted :
    (c : ℕ) (s r : Bytes)
    → (c == b'"' || c == b'\\') ≡ true
    → print_chars (c ∷ s) r ≡ b'\\' ∷ c ∷ print_chars s r
chars_quoted c s r e = rw e refl

chars_control :
    (c : ℕ) (s r : Bytes)
    → (c == b'"' || c == b'\\') ≡ false
    → ltb c 0x20 ≡ true
    → print_chars (c ∷ s) r
      ≡ b'\\' ∷ b'u' ∷ b'0' ∷ b'0' ∷ hex_digit (c / 16) ∷ hex_digit (c % 16) ∷ print_chars s r
chars_control c s r e k = rw (e, k) refl

chars_plain :
    (c : ℕ) (s r : Bytes)
    → (c == b'"' || c == b'\\') ≡ false
    → ltb c 0x20 ≡ false
    → print_chars (c ∷ s) r ≡ c ∷ print_chars s r
chars_plain c s r e k = rw (e, k) refl

-- A round over an escape, and one over a character that stands for itself.
round_escape :
    (rounds : ℕ) (str t bytes rest : Bytes)
    → json_parse_escape t ≡ some (bytes, rest)
    → string_rounds (suc rounds) str (b'\\' ∷ t) ≡ string_rounds rounds (str ++ bytes) rest
unfolding string_rounds escaped
round_escape rounds str t bytes rest e = rw e refl

round_plain :
    (rounds c : ℕ) (str t : Bytes)
    → (c == b'"' || c == b'\\') ≡ false
    → ltb c 0x20 ≡ false
    → string_rounds (suc rounds) str (c ∷ t) ≡ string_rounds rounds (str ++ c ∷ []) t
unfolding string_rounds
round_plain rounds c str t e k =
    let not_quote : (c == b'"') ≡ false = ground (arith, e) in
    let not_escape : (c == b'\\') ≡ false = ground (arith, e) in rw (not_quote, not_escape, k) refl

rounds_chars :
    (rounds : ℕ) (str s rest : Bytes)
    → length (print_chars s (b'"' ∷ rest)) < rounds
    → string_rounds rounds str (print_chars s (b'"' ∷ rest)) ≡ parsed (str ++ s) rest
unfolding string_rounds
rounds_chars zero str s rest l = absurd (omega (arith, l))
rounds_chars (suc rounds) str [] rest l = ap (λ t. parsed t rest) (sym (append-nil str))
rounds_chars (suc rounds) str (c ∷ s) rest l =
    let ih = rounds_chars rounds (str ++ c ∷ []) s rest in
    elim (Bool-cases (c == b'"' || c == b'\\')) [
      | inl e ↦
          by ih (chars_quoted c s r e) (λ b. omega (arith, b))
            (round_escape rounds str (c ∷ more) (c ∷ []) more (escape_quoted c more e))
      | inr e ↦ elim (Bool-cases (ltb c 0x20)) [
        | inl k ↦
            by ih (chars_control c s r e k) (λ b. omega (arith, b))
              (round_escape rounds str _ (c ∷ []) more (escape_control c more (ltb→lt c 0x20 k)))
        | inr k ↦
            by ih (chars_plain c s r e k) (λ b. omega (arith, b))
              (round_plain rounds c str more e k)
      ]
    ]
  where
    r : Bytes
    r = b'"' ∷ rest

    more : Bytes
    more = print_chars s r

    by :
        {t : Bytes}
        → (length more < rounds
            → string_rounds rounds (str ++ c ∷ []) more ≡ parsed ((str ++ c ∷ []) ++ s) rest)
        → print_chars (c ∷ s) r ≡ t
        → (length t < suc rounds → length more < rounds)
        → string_rounds (suc rounds) str t ≡ string_rounds rounds (str ++ c ∷ []) more
        → string_rounds (suc rounds) str (print_chars (c ∷ s) r) ≡ parsed (str ++ c ∷ s) rest
    by ih e shorter step =
        ap (string_rounds (suc rounds) str) e
        ∙ step
        ∙ ih (shorter (subst (λ t. length t < suc rounds) e l))
        ∙ ap (λ t. parsed t rest) (append_assoc str (c ∷ []) s)

pub parse_string-print : (s rest : Bytes) → json_parse_string (print_string s rest) ≡ parsed s rest
unfolding json_parse_string
parse_string-print s rest =
    rounds_chars (suc (length (print_chars s (b'"' ∷ rest)))) [] s rest (omega arith)

module _ {D : Type 0} (r : Bytes) where
  pub parse_true : json_parse_keyword {D = D} (codes "true" ++ r) ≡ parsed json_true r
  unfolding json_parse_keyword expect
  parse_true = refl

  pub parse_false : json_parse_keyword {D = D} (codes "false" ++ r) ≡ parsed json_false r
  unfolding json_parse_keyword expect
  parse_false = refl

  pub parse_null : json_parse_keyword {D = D} (codes "null" ++ r) ≡ parsed json_null r
  unfolding json_parse_keyword expect
  parse_null = refl
