-- ===== src/Firehose/Message/Digest.antt =====
-- `extract_sha256_hex` of src/firehose.c.
pub mod Hex
use qdl.Base.{
  ℕ, zero, suc, ◌+◌, ◌-◌, ◌*◌, Bool, true, false, ◌&&◌, ◌||◌, Option, none, some, List, [], ◌∷◌,
  Bytes, length, leb, ◌==◌, if◌then◌else◌,
}

-- `isxdigit`
abbrev pub isxdigit : ℕ → Bool
isxdigit c = leb b'0' c && leb c b'9' || (leb b'a' c && leb c b'f' || (leb b'A' c && leb c b'F'))

-- the value of a hex digit, as `strtoul` reads it
abbrev pub hex_value : ℕ → ℕ
hex_value c = if leb c b'9' then c - b'0' else if leb c b'F' then c - 55 else c - 87

-- The digits that a text begins with, and what follows them.
abbrev pub hex_run : Bytes → Bytes × Bytes
hex_run [] = ([], [])
hex_run (c ∷ s) =
    let (digits, rest) = hex_run s in if isxdigit c then (c ∷ digits, rest) else ([], c ∷ s)

-- the bytes of pairs of digits
abbrev pub decode_hex : Bytes → Bytes
decode_hex (a ∷ (b ∷ s)) = (16 * hex_value a + hex_value b) ∷ decode_hex s
decode_hex _ = []

-- The scan of the text, one run of digits at a time. A round passes a byte or a run, so the length of
-- the text is enough rounds.
scan : ℕ → Bytes → Option Bytes
scan zero str = none
scan (suc rounds) [] = none
scan (suc rounds) (c ∷ str) =
    let (digits, rest) = hex_run (c ∷ str) in
    let behind_run = scan rounds rest in
    let behind_byte = scan rounds str in
    if isxdigit c
    then (if length digits == 64 then some (decode_hex digits) else behind_run)
    else behind_byte

-- `extract_sha256_hex`
unfoldable pub extract_sha256_hex : Bytes → Option Bytes
unfolding scan
extract_sha256_hex str = scan (length str) str
