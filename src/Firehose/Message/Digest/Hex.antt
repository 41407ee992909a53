-- ===== src/Firehose/Message/Digest/Hex.antt =====
-- `extract_sha256_hex` of src/firehose.c finds a digest that is printed in a text.
use qdl.Base.{
  ℕ, zero, suc, ◌+◌, ◌*◌, ◌/◌, ◌%◌, ◌<◌, ◌≡◌, refl, ap, ◌∙◌, true, false, some, [], ◌∷◌, ◌++◌,
  Bytes, length, Each, ltb, ◌==◌, if◌then◌else◌, arith, append_assoc, length-append,
}
use qdl.Firehose.Message.Digest.{isxdigit, hex_value, hex_run, decode_hex, scan, extract_sha256_hex}

-- `%02x`
abbrev pub hex_digit : ℕ → ℕ
hex_digit n = if ltb n 10 then 48 + n else 87 + n

abbrev pub to_hex : Bytes → Bytes
to_hex [] = []
to_hex (b ∷ bytes) = hex_digit (b / 16) ∷ hex_digit (b % 16) ∷ to_hex bytes

abbrev IsHex : ℕ → Type 0
IsHex c = isxdigit c ≡ true

-- A text that does not go on with a hex digit.
abbrev pub IsBounded : Bytes → Type 0
IsBounded [] = Unit
IsBounded (c ∷ s) = isxdigit c ≡ false

-- A text without a run of 64 hex digits, which does not end in one.
pub data HasNoDigest : Bytes → Type 0 where
  empty : HasNoDigest []
  byte : {c : ℕ} {s : Bytes} → isxdigit c ≡ false → HasNoDigest s → HasNoDigest (c ∷ s)
  run :
      (c : ℕ) (ds : Bytes) {b : ℕ} {s : Bytes}
      → Each IsHex (c ∷ ds)
      → (length (c ∷ ds) == 64) ≡ false
      → isxdigit b ≡ false
      → HasNoDigest (b ∷ s)
      → HasNoDigest ((c ∷ ds) ++ b ∷ s)

hex_digit-IsHex : (n : ℕ) → n < 16 → IsHex (hex_digit n)
hex_digit-IsHex n h = ground arith

hex_value-hex_digit : (n : ℕ) → n < 16 → hex_value (hex_digit n) ≡ n
hex_value-hex_digit n h = ground arith

to_hex-IsHex : (d : Bytes) → Each (λ b. b < 256) d → Each IsHex (to_hex d)
to_hex-IsHex [] h = tt
to_hex-IsHex (b ∷ d) (l, h) = (
  hex_digit-IsHex (b / 16) (omega arith),
  (hex_digit-IsHex (b % 16) (omega arith), to_hex-IsHex d h),
)

decode_hex-to_hex : (d : Bytes) → Each (λ b. b < 256) d → decode_hex (to_hex d) ≡ d
decode_hex-to_hex [] h = refl
decode_hex-to_hex (b ∷ d) (l, h) =
    (λ i.
      (16 * hex_value-hex_digit (b / 16) (omega arith) i
        + hex_value-hex_digit (b % 16) (omega arith) i)
      ∷ decode_hex-to_hex d h i)
    ∙ ap (λ n. n ∷ d) {x = 16 * (b / 16) + b % 16} (omega arith)

length-to_hex : (d : Bytes) → length (to_hex d) ≡ 2 * length d
length-to_hex [] = refl
length-to_hex (b ∷ d) = omega (arith, length-to_hex d)

hex_run-digits :
    (ds rest : Bytes) → Each IsHex ds → IsBounded rest → hex_run (ds ++ rest) ≡ (ds, rest)
hex_run-digits [] [] h b = refl
hex_run-digits [] (c ∷ rest) h b = rw b refl
hex_run-digits (c ∷ ds) rest (x, h) b = rw (hex_run-digits ds rest h b, x) refl

scan-run :
    (rounds c : ℕ) (ds rest : Bytes)
    → Each IsHex (c ∷ ds)
    → IsBounded rest
    → scan (suc rounds) ((c ∷ ds) ++ rest)
      ≡ (if length (c ∷ ds) == 64 then some (decode_hex (c ∷ ds)) else scan rounds rest)
unfolding scan
scan-run rounds c ds rest (x, h) b = rw (hex_run-digits ds rest h b, x) refl

scan-to_hex :
    (rounds : ℕ) (d suffix : Bytes)
    → 0 < rounds
    → length d ≡ 32
    → Each (λ b. b < 256) d
    → IsBounded suffix
    → scan rounds (to_hex d ++ suffix) ≡ some d
scan-to_hex zero d suffix r l h b = absurd (omega arith)
scan-to_hex (suc rounds) [] suffix r l h b = absurd (omega arith)
scan-to_hex (suc rounds) (x ∷ d) suffix r l h b =
    let all = to_hex-IsHex (x ∷ d) h in
    let long : (length (to_hex (x ∷ d)) == 64) ≡ true = is_64 _ (length-to_hex (x ∷ d)) in
    scan-run rounds (hex_digit (x / 16)) (hex_digit (x % 16) ∷ to_hex d) suffix all b
    ∙ ap (λ t. if t then some (decode_hex (to_hex (x ∷ d))) else scan rounds suffix) long
    ∙ ap some (decode_hex-to_hex (x ∷ d) h)
  where
    is_64 : (n : ℕ) → n ≡ 2 * length (x ∷ d) → (n == 64) ≡ true
    is_64 n e = ground arith

scan-prefix :
    (prefix : Bytes) (rounds : ℕ) (d suffix : Bytes)
    → HasNoDigest prefix
    → length prefix < rounds
    → length d ≡ 32
    → Each (λ b. b < 256) d
    → IsBounded suffix
    → scan rounds (prefix ++ (to_hex d ++ suffix)) ≡ some d
unfolding scan
scan-prefix prefix rounds d suffix empty r l h b = scan-to_hex rounds d suffix r l h b
scan-prefix prefix zero d suffix (byte x p) r l h b = absurd (omega arith)
scan-prefix prefix (suc rounds) d suffix (byte {c} {s} x p) r l h b =
    rw x (scan-prefix s rounds d suffix p (omega arith) l h b)
scan-prefix prefix zero d suffix (run c ds xs n x p) r l h b = absurd (omega arith)
scan-prefix prefix (suc rounds) d suffix (run c ds {b = e} {s = s} xs n x p) r l h b =
    ap (scan (suc rounds)) (append_assoc (c ∷ ds) (e ∷ s) (to_hex d ++ suffix))
    ∙ scan-run rounds c ds (e ∷ s ++ (to_hex d ++ suffix)) xs x
    ∙ ap
        (λ t. if t then some (decode_hex (c ∷ ds)) else scan rounds (e ∷ s ++ (to_hex d ++ suffix)))
        n
    ∙ scan-prefix (e ∷ s) rounds d suffix p (omega (arith, length-append {0} (c ∷ ds) (e ∷ s))) l h
        b

-- A digest that is printed in hex, between a text that holds no other run of 64 digits and a text that
-- does not go on with a hex digit, is what `extract_sha256_hex` extracts.
pub extract_sha256_hex-to_hex :
    (prefix d suffix : Bytes)
    → HasNoDigest prefix
    → length d ≡ 32
    → Each (λ b. b < 256) d
    → IsBounded suffix
    → extract_sha256_hex (prefix ++ (to_hex d ++ suffix)) ≡ some d
unfolding extract_sha256_hex
extract_sha256_hex-to_hex prefix d suffix p l h b =
    scan-prefix prefix (length (prefix ++ (to_hex d ++ suffix))) d suffix p
      (omega (
        arith,
        length-append {0} prefix (to_hex d ++ suffix),
        length-append {0} (to_hex d) suffix,
        length-to_hex d,
      ))
      l h b
