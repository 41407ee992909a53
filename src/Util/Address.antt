-- ===== src/Util/Address.antt =====
-- The forms of a storage address that the comment of `parse_storage_address` in src/util.c lists.
use qdl.Base.{
  ℕ, ◌+◌, ◌-◌, ◌*◌, ◌<◌, ◌≡◌, refl, true, false, ◌||◌, none, some, [], ◌∷◌, ◌++◌, Bytes, lt→ltb,
  ◌==◌, arith, Each,
}
use qdl.Json.Token.{isspace, isdigit}
use qdl.Util.{
  StorageAddress, storage_address, word, read_digits, unsigned_part, skip_spaces, signed_part,
  scan_number, long_of, ulong_of, stored, length_checked, length_part, sector_checked, sector_part,
  partition_checked, partition_part, parse_storage_address,
}

-- A number in decimal digits, of which there is at least one.
pub record Decimal : Type 0 where
  pub first : ℕ
  pub others : Bytes
  pub first_lem : isdigit first ≡ true
  pub others_lem : Each (λ c. isdigit c ≡ true) others

abbrev value_from : ℕ → Bytes → ℕ
value_from acc [] = acc
value_from acc (c ∷ s) = value_from (10 * acc + (c - b'0')) s

abbrev pub value : Decimal → ℕ
value n = value_from 0 (n.first ∷ n.others)

abbrev pub text : Decimal → Bytes → Bytes
text n rest = n.first ∷ n.others ++ rest

-- A name begins with no white space, sign or digit.
abbrev pub IsName : Bytes → Type 0
IsName [] = ⊥
IsName (c ∷ s) = (isspace c || (c == b'-' || (c == b'+' || isdigit c))) ≡ false

-- N, N/S, N/S+L, a name, and N/name
pub data Specifier : Type 0 where
  whole : Decimal → Specifier
  from : Decimal → Decimal → Specifier
  range : Decimal → Decimal → Decimal → Specifier
  named : Bytes → Specifier
  named_in : Decimal → Bytes → Specifier

abbrev pub print : Specifier → Bytes
print (whole p) = text p []
print (from p s) = text p (b'/' ∷ text s [])
print (range p s l) = text p (b'/' ∷ text s (b'+' ∷ text l []))
print (named n) = n
print (named_in p n) = text p (b'/' ∷ n)

-- The numbers are in the range of the C library, a length is not 0, and a name is one.
abbrev pub IsSpecifier : Specifier → Type 0
IsSpecifier (whole p) = value p < 0x8000000000000000
IsSpecifier (from p s) = (value p < 0x8000000000000000) × (value s < 0x10000000000000000)
IsSpecifier (range p s l) =
    (value p < 0x8000000000000000)
    × (value s < 0x10000000000000000)
    × (0 < value l)
    × (value l < 0x10000000000000000)
IsSpecifier (named n) = IsName n
IsSpecifier (named_in p n) = (value p < 0x8000000000000000) × IsName n

-- What a specifier means, each number in 32 bits.
abbrev pub meaning : Specifier → StorageAddress
meaning (whole p) = storage_address (word (value p)) 0 0 none
meaning (from p s) = storage_address (word (value p)) (word (value s)) 0 none
meaning (range p s l) = storage_address (word (value p)) (word (value s)) (word (value l)) none
meaning (named n) = storage_address 0xffffffff 0 0 (some n)
meaning (named_in p n) = storage_address (word (value p)) 0 0 (some n)

abbrev NoDigit : Bytes → Type 0
NoDigit [] = Unit
NoDigit (c ∷ s) = isdigit c ≡ false

read_digits-append :
    (acc : ℕ) (ds rest : Bytes)
    → Each (λ c. isdigit c ≡ true) ds
    → NoDigit rest
    → read_digits acc (ds ++ rest) ≡ (value_from acc ds, rest)
unfolding read_digits
read_digits-append acc [] [] e h = refl
read_digits-append acc [] (c ∷ rest) e h = rw h refl
read_digits-append acc (c ∷ ds) rest (e, es) h =
    rw e (read_digits-append (10 * acc + (c - b'0')) ds rest es h)

scan_number-text :
    (n : Decimal) (rest : Bytes)
    → NoDigit rest
    → scan_number (text n rest) ≡ some (false, value n, rest)
unfolding scan_number signed_part unsigned_part skip_spaces
scan_number-text n rest h =
    let no_space : isspace n.first ≡ false = ground (arith, n.first_lem) in
    let no_minus : (n.first == b'-') ≡ false = ground (arith, n.first_lem) in
    let no_plus : (n.first == b'+') ≡ false = ground (arith, n.first_lem) in
    let digits = read_digits-append 0 (n.first ∷ n.others) rest (n.first_lem, n.others_lem) h in
    rw no_space (rw (no_minus, no_plus) (rw digits (rw n.first_lem refl)))

scan_number-name : (n : Bytes) → IsName n → scan_number n ≡ none
unfolding scan_number signed_part unsigned_part skip_spaces
scan_number-name [] h = elim h [ ]
scan_number-name (c ∷ s) h =
    let no_space : isspace c ≡ false = ground (arith, h) in
    let no_minus : (c == b'-') ≡ false = ground (arith, h) in
    let no_plus : (c == b'+') ≡ false = ground (arith, h) in
    let no_digit : isdigit c ≡ false = ground (arith, h) in
    rw no_space (rw (no_minus, no_plus) (rw no_digit refl))

long_of-lt : (n : ℕ) → n < 0x8000000000000000 → long_of false n ≡ some n
unfolding long_of
long_of-lt n l = rw (lt→ltb n 0x8000000000000000 l) refl

ulong_of-lt : (n : ℕ) → n < 0x10000000000000000 → ulong_of false n ≡ some n
unfolding ulong_of
ulong_of-lt n l = rw (lt→ltb n 0x10000000000000000 l) refl

-- parse_storage_address reads each form of an address that its comment lists as the comment says,
-- whatever its digits, but keeps only the low 32 bits of each number, if the partition is less than
-- 2^63, the sectors are less than 2^64, a length is not 0 and a name begins with no white space, sign
-- or digit.
pub parse_storage_address-print :
    (a : Specifier) → IsSpecifier a → parse_storage_address (print a) ≡ some (meaning a)
unfolding parse_storage_address partition_part partition_checked sector_part sector_checked
    length_part length_checked stored
parse_storage_address-print (whole p) l =
    rw (scan_number-text p [] tt) (rw (long_of-lt (value p) l) refl)
parse_storage_address-print (from p s) (l, k) = rw (scan_number-text p (b'/' ∷ text s []) refl) (
    rw (long_of-lt (value p) l) (rw (scan_number-text s [] tt) (rw (ulong_of-lt (value s) k) refl)))
parse_storage_address-print (range p s n) (l, k, pos, j) =
    let some_sectors : (value n == 0) ≡ false = ground (arith, pos) in
    rw (scan_number-text p (b'/' ∷ text s (b'+' ∷ text n [])) refl) (
      rw (long_of-lt (value p) l) (
        rw (scan_number-text s (b'+' ∷ text n []) refl) (
          rw (ulong_of-lt (value s) k)
            (rw (scan_number-text n [] tt) (rw (ulong_of-lt (value n) j) (rw some_sectors refl))))))
parse_storage_address-print (named n) h = rw (scan_number-name n h) refl
parse_storage_address-print (named_in p n) (l, h) =
    rw (scan_number-text p (b'/' ∷ n) refl)
      (rw (long_of-lt (value p) l) (rw (scan_number-name n h) refl))
