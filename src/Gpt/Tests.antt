-- ===== src/Gpt/Tests.antt =====
-- src/gpt.c: runs, and the theorems at concrete values.
use qdl.Base.{ℕ, ◌+◌, ◌≤◌, List, [], ◌∷◌, length, inl, inr, Each, ◌≡◌, refl, arith}
use qdl.Gpt.{utf16le_to_utf8}
use qdl.Gpt.Utf8.{IsScalar, Decodes, utf16le_to_utf8-Decodes}
use qdl.Gpt.Bounds.{utf16le_to_utf8-bound}

-- `a`, a Greek letter, the euro sign and a character of the second plane
abbrev text : List ℕ
text = 97 ∷ 0x3b1 ∷ 0x20ac ∷ 0x1f600 ∷ []

text-IsScalar : Each IsScalar text
unfolding IsScalar
text-IsScalar = (
  (omega arith, omega arith, inl (omega arith)),
  (
    (omega arith, omega arith, inl (omega arith)),
    (
      (omega arith, omega arith, inl (omega arith)),
      ((omega arith, omega arith, inr (omega arith)), tt),
    ),
  ),
)

utf16le_to_utf8_run :
    utf16le_to_utf8 (97 ∷ 0x3b1 ∷ 0x20ac ∷ 0xd83d ∷ 0xde00 ∷ 0 ∷ 98 ∷ []) 144
    ≡ 97 ∷ 0xce ∷ 0xb1 ∷ 0xe2 ∷ 0x82 ∷ 0xac ∷ 0xf0 ∷ 0x9f ∷ 0x98 ∷ 0x80 ∷ []
unfolding utf16le_to_utf8
utf16le_to_utf8_run = refl

-- A high surrogate uses up the unit behind it, even when that is not low.
lone_surrogate_run : utf16le_to_utf8 (0xd83d ∷ 98 ∷ 99 ∷ []) 144 ≡ 0xef ∷ 0xbf ∷ 0xbd ∷ 99 ∷ []
unfolding utf16le_to_utf8
lone_surrogate_run = refl

utf16le_to_utf8-Decodes_example :
    Decodes (utf16le_to_utf8 (97 ∷ 0x3b1 ∷ 0x20ac ∷ 0xd83d ∷ 0xde00 ∷ 0 ∷ 98 ∷ []) 144) text
utf16le_to_utf8-Decodes_example =
    utf16le_to_utf8-Decodes text (98 ∷ []) 144 text-IsScalar (omega arith)

utf16le_to_utf8-bound_example :
    length (utf16le_to_utf8 (97 ∷ 0x3b1 ∷ 0x20ac ∷ 0xd83d ∷ []) 4) + 1 ≤ 4
utf16le_to_utf8-bound_example =
    utf16le_to_utf8-bound (97 ∷ 0x3b1 ∷ 0x20ac ∷ 0xd83d ∷ []) 4 (omega arith)
