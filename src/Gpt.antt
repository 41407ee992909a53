-- ===== src/Gpt.antt =====
-- src/gpt.c: `utf16le_to_utf8`, which makes the names of partitions readable.
pub mod Utf8
pub mod Bounds
mod Tests
use qdl.Base.{
  ℕ, ◌+◌, ◌-◌, ◌*◌, ◌/◌, ◌%◌, Bool, ◌&&◌, List, [], ◌∷◌, ◌++◌, Bytes, length, ltb, leb, ◌==◌,
  if◌then◌else◌,
}

abbrev pub is_high : ℕ → Bool
is_high w = leb 0xd800 w && leb w 0xdbff

abbrev pub is_low : ℕ → Bool
is_low w = leb 0xdc00 w && leb w 0xdfff

-- The bytes of a code point up to `0x10ffff`. An or of bits that do not meet is a sum.
abbrev pub encoded : ℕ → Bytes
encoded c =
    if leb c 0x7f
    then c ∷ []
    else if leb c 0x7ff
    then (0xc0 + c / 64 % 32) ∷ (0x80 + c % 64) ∷ []
    else if leb c 0xffff
    then (0xe0 + c / 4096 % 16) ∷ (0x80 + c / 64 % 64) ∷ (0x80 + c % 64) ∷ []
    else (0xf0 + c / 262144 % 8)
      ∷ (0x80 + c / 4096 % 64)
      ∷ (0x80 + c / 64 % 64)
      ∷ (0x80 + c % 64)
      ∷ []

-- what the loop does with a code point; `next` is the rounds behind it, from a number of bytes on
abbrev pub put_codepoint : (out_len : ℕ) → (ℕ → Bytes) → ℕ → ℕ → Bytes
put_codepoint out_len next j c =
    let bytes = encoded c in
    let rest = next (j + length bytes) in
    if c == 0
    then []
    else if ltb 0x10ffff c
    then next j
    else if leb out_len (j + length bytes)
    then []
    else bytes ++ rest

-- the code point of a unit that no low surrogate can follow
abbrev pub single : ℕ → ℕ
single w = if is_low w then 0xfffd else w

-- that of a high surrogate and the unit behind it, which is used up even when it is not low
abbrev pub pair : ℕ → ℕ → ℕ
pair w v = if is_low v then (w - 0xd800) * 1024 + (v - 0xdc00) + 0x10000 else 0xfffd

-- the loop, with `j` bytes written; the NUL at the end is left out
pub units_to_utf8 : (out_len : ℕ) → List ℕ → ℕ → Bytes
units_to_utf8 out_len [] j = []
units_to_utf8 out_len (w ∷ []) j =
    put_codepoint out_len (λ k. []) j (if is_high w then 0xfffd else single w)
units_to_utf8 out_len (w ∷ v ∷ units) j =
    let two = put_codepoint out_len (units_to_utf8 out_len units) j (pair w v) in
    let one = put_codepoint out_len (units_to_utf8 out_len (v ∷ units)) j (single w) in
    if is_high w then two else one

-- `utf16le_to_utf8`
unfoldable pub utf16le_to_utf8 : List ℕ → ℕ → Bytes
unfolding units_to_utf8
utf16le_to_utf8 units out_len = units_to_utf8 out_len units 0
