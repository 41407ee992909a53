-- ===== src/Json/Token/Numerals.antt =====
-- The number parser of src/json.c reads what is printed.
use qdl.Base.{
  ℕ, ◌≡◌, refl, ◌∙◌, sym, ap, ◌⊎◌, inl, inr, Bool, true, false, ◌||◌, Option, some, [], ◌∷◌, ◌++◌,
  append_assoc, append-nil, Bytes, ◌==◌, if◌then◌else◌, arith, Bool-cases, Each,
}
use qdl.Json.{number, parsed, no_match}
use qdl.Json.Token.{
  isdigit, span_digits, some_digits, exponent, fraction, no_digit, integer, finite, converted,
  json_parse_number,
}
use qdl.Json.Print.{Numeral, IsNumeral, IsDigit, print_fraction, print_sign, print_numeral}
use qdl.Json.Token.Printed.{Stops}

NoDigit : Bytes → Type 0
NoDigit [] = Unit
NoDigit (c ∷ s) = isdigit c ≡ false

Stops-NoDigit : (s : Bytes) → Stops s → NoDigit s
unfolding NoDigit
Stops-NoDigit [] h = tt
Stops-NoDigit (c ∷ s) h = ground (arith, h)

fraction-NoDigit : (fs r : Bytes) → Stops r → NoDigit (print_fraction fs r)
unfolding NoDigit
fraction-NoDigit [] r h = Stops-NoDigit r h
fraction-NoDigit (c ∷ fs) r h = refl

span_digits-print : (ds r : Bytes) → Each IsDigit ds → NoDigit r → span_digits (ds ++ r) ≡ (ds, r)
unfolding span_digits NoDigit
span_digits-print [] [] e h = refl
span_digits-print [] (c ∷ r) e h = rw h refl
span_digits-print (c ∷ ds) r (e, es) h = rw (e, span_digits-print ds r es h) refl

some_digits-print :
    (token : Bytes) (c : ℕ) (ds r : Bytes)
    → IsDigit c
    → Each IsDigit ds
    → NoDigit r
    → some_digits token (c ∷ ds ++ r) ≡ some (token ++ c ∷ ds, r)
unfolding some_digits
some_digits-print token c ds r e es h = rw (e, span_digits-print ds r es h) refl

no_digit-NoDigit : (s : Bytes) (o : Option (Bytes × Bytes)) → NoDigit s → no_digit s o ≡ o
unfolding no_digit NoDigit
no_digit-NoDigit [] o h = refl
no_digit-NoDigit (c ∷ s) o h = rw h refl

integer-print :
    (token : Bytes) (c : ℕ) (ds r : Bytes)
    → IsDigit c
    → Each IsDigit ds
    → (ds ≡ []) ⊎ ((c == b'0') ≡ false)
    → NoDigit r
    → integer token (c ∷ ds ++ r) ≡ some (token ++ c ∷ ds, r)
unfolding integer
integer-print token c ds r e es (inr z) h = rw z (some_digits-print token c ds r e es h)
integer-print token c ds r e es (inl z) h = elim (Bool-cases (c == b'0')) [
  | inl k ↦ rw (z, k) (no_digit-NoDigit r (some (token ++ c ∷ [], r)) h)
  | inr k ↦ rw k (some_digits-print token c ds r e es h)
]

fraction-print :
    (token fs r : Bytes)
    → Each IsDigit fs
    → Stops r
    → fraction (some (token, print_fraction fs r)) ≡ some (token ++ print_fraction fs [], r)
unfolding fraction
fraction-print token [] [] es h = rw (append-nil token) refl
fraction-print token [] (c ∷ r) es h =
    let no_point : (c == b'.') ≡ false = ground (arith, h) in rw (no_point, append-nil token) refl
fraction-print token (c ∷ fs) r (e, es) h =
    some_digits-print (token ++ b'.' ∷ []) c fs r e es (Stops-NoDigit r h)
    ∙ ap (λ t. some (t, r))
        (append_assoc token (b'.' ∷ []) (c ∷ fs)
          ∙ ap (λ t. token ++ b'.' ∷ c ∷ t) (sym (append-nil fs)))

exponent-print : (token r : Bytes) → Stops r → exponent (some (token, r)) ≡ some (token, r)
unfolding exponent
exponent-print token [] h = refl
exponent-print token (c ∷ r) h =
    let none_here : (c == b'e' || c == b'E') ≡ false = ground (arith, h) in rw none_here refl

second_branch :
    {A : Type 0} (p q : Bool) (x y z : A)
    → p ≡ false
    → q ≡ true
    → (if p then x else if q then y else z) ≡ y
second_branch p q x y z e k = rw (e, k) refl

module _ {D : Type 0} (strtod : Bytes → Option D) where
  -- the token behind its sign
  token-print :
      (sign : Bytes) (n : Numeral) (d : D) (r : Bytes)
      → IsNumeral n
      → Stops r
      → strtod (sign ++ n.lead ∷ n.digits ++ print_fraction n.fraction []) ≡ some d
      → converted strtod
          (exponent (fraction (integer sign (n.lead ∷ n.digits ++ print_fraction n.fraction r))))
        ≡ parsed (number d) r
  unfolding converted finite
  token-print sign n d r i h e =
      let first =
        integer-print sign n.lead n.digits (print_fraction n.fraction r) i.lead_lem i.digits_lem
          i.no_leading_zero (fraction-NoDigit n.fraction r h) in
      let second = fraction-print (sign ++ n.lead ∷ n.digits) n.fraction r i.fraction_lem h in
      ap (λ t. converted strtod (exponent (fraction t))) first
      ∙ ap (λ t. converted strtod (exponent t)) second
      ∙ ap (converted strtod) (exponent-print _ r h)
      ∙ ap (finite r) e

  -- the number parser behind the sign, given that it does not look at more of the sign
  parse_signed :
      (n : Numeral) (d : D) (r : Bytes) (negative : Bool)
      → IsNumeral n
      → Stops r
      → strtod (print_sign negative (n.lead ∷ n.digits ++ print_fraction n.fraction [])) ≡ some d
      → json_parse_number strtod
          (print_sign negative (n.lead ∷ n.digits ++ print_fraction n.fraction r))
        ≡ parsed (number d) r
  unfolding json_parse_number
  parse_signed n d r true i h e = token-print (b'-' ∷ []) n d r i h e
  parse_signed n d r false i h e =
      let no_sign : (n.lead == b'-') ≡ false = ground (arith, i.lead_lem) in
      second_branch (n.lead == b'-') (isdigit n.lead) _ _ no_match no_sign i.lead_lem
      ∙ token-print [] n d r i h e

  pub parse_number-print :
      (n : Numeral) (d : D) (r : Bytes)
      → IsNumeral n
      → Stops r
      → strtod (print_numeral n []) ≡ some d
      → json_parse_number strtod (print_numeral n r) ≡ parsed (number d) r
  parse_number-print n d r i h e = parse_signed n d r n.negative i h e
