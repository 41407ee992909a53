-- ===== src/Gpt/Utf8.antt =====
-- src/gpt.c: `utf16le_to_utf8` keeps the text.
use qdl.Base.{
  append_assoc, ℕ, ◌+◌, ◌-◌, ◌*◌, ◌/◌, ◌%◌, ◌<◌, ◌≤◌, true, false, List, [], ◌∷◌, ◌++◌, Bytes,
  length, length-append, ltb, leb, ◌==◌, if◌then◌else◌, ◌≡◌, refl, sym, ap, subst, ◌∙◌, ◌⊎◌, inl,
  inr, Bool-cases, Each, arith,
}
use qdl.Gpt.{is_high, encoded, put_codepoint, single, pair, units_to_utf8, utf16le_to_utf8}

-- A Unicode scalar value that is not NUL.
unfoldable pub IsScalar : ℕ → Type 0
IsScalar c = (0 < c) × (c ≤ 0x10ffff) × (c < 0xd800 ⊎ 0xdfff < c)

-- The UTF-16 units of a text.
abbrev pub utf16 : ℕ → List ℕ
utf16 c =
    if leb c 0xffff
    then c ∷ []
    else (0xd800 + (c - 0x10000) / 1024) ∷ (0xdc00 + (c - 0x10000) % 1024) ∷ []

abbrev pub all_utf16 : List ℕ → List ℕ
all_utf16 [] = []
all_utf16 (c ∷ text) = utf16 c ++ all_utf16 text

abbrev pub all_utf8 : List ℕ → Bytes
all_utf8 [] = []
all_utf8 (c ∷ text) = encoded c ++ all_utf8 text

-- What a strict decoder of UTF-8 reads.
pub data Decodes : Bytes → List ℕ → Type 0 where
  no_bytes : Decodes [] []
  one_byte :
      {bs : Bytes} {text : List ℕ} (c : ℕ)
      → c < 0x80
      → Decodes bs text
      → Decodes (c ∷ bs) (c ∷ text)
  two_bytes :
      {bs : Bytes} {text : List ℕ} (a b c : ℕ)
      → (0xc0 ≤ a) × (a < 0xe0) × (0x80 ≤ b) × (b < 0xc0) × (0x80 ≤ c)
      → c ≡ (a - 0xc0) * 64 + (b - 0x80)
      → Decodes bs text
      → Decodes (a ∷ b ∷ bs) (c ∷ text)
  three_bytes :
      {bs : Bytes} {text : List ℕ} (a b d c : ℕ)
      → (0xe0 ≤ a) × (a < 0xf0) × (0x80 ≤ b) × (b < 0xc0) × (0x80 ≤ d) × (d < 0xc0) × (0x800 ≤ c)
      → c ≡ (a - 0xe0) * 4096 + (b - 0x80) * 64 + (d - 0x80)
      → Decodes bs text
      → Decodes (a ∷ b ∷ d ∷ bs) (c ∷ text)
  four_bytes :
      {bs : Bytes} {text : List ℕ} (a b d e c : ℕ)
      → (0xf0 ≤ a)
        × (a < 0xf8)
        × (0x80 ≤ b)
        × (b < 0xc0)
        × (0x80 ≤ d)
        × (d < 0xc0)
        × (0x80 ≤ e)
        × (e < 0xc0)
        × (0x10000 ≤ c)
      → c ≡ (a - 0xf0) * 262144 + (b - 0x80) * 4096 + (d - 0x80) * 64 + (e - 0x80)
      → Decodes bs text
      → Decodes (a ∷ b ∷ d ∷ e ∷ bs) (c ∷ text)

encoded-Decodes :
    (c : ℕ) (bs : Bytes) (text : List ℕ)
    → c ≤ 0x10ffff
    → Decodes bs text
    → Decodes (encoded c ++ bs) (c ∷ text)
encoded-Decodes c bs text h d = elim (Bool-cases (leb c 0x7f)) [
  | inl l ↦ rw (l) (one_byte c (ground arith) d)
  | inr l ↦ elim (Bool-cases (leb c 0x7ff)) [
    | inl m ↦ rw (l, m) (two_bytes _ _ c (ground arith) (ground arith) d)
    | inr m ↦ elim (Bool-cases (leb c 0xffff)) [
      | inl n ↦ rw (l, m, n) (three_bytes _ _ _ c (ground arith) (ground arith) d)
      | inr n ↦ rw (l, m, n) (four_bytes _ _ _ _ c (ground arith) (ground arith) d)
    ]
  ]
]

put_step :
    (out_len : ℕ) (next : ℕ → Bytes) (j c : ℕ)
    → 0 < c
    → c ≤ 0x10ffff
    → j + length (encoded c) < out_len
    → put_codepoint out_len next j c ≡ encoded c ++ next (j + length (encoded c))
put_step out_len next j c p m f =
    let z : (c == 0) ≡ false = ground arith in
    let b : ltb 0x10ffff c ≡ false = ground arith in
    let r : leb out_len (j + length (encoded c)) ≡ false = room out_len _ f in rw (z, b, r) refl
  where
    room : (n k : ℕ) → k < n → leb n k ≡ false
    room n k h = ground arith

unit_step :
    (out_len w j : ℕ) (units : List ℕ)
    → is_high w ≡ false
    → units_to_utf8 out_len (w ∷ units) j
      ≡ put_codepoint out_len (units_to_utf8 out_len units) j (single w)
unfolding units_to_utf8
unit_step out_len w j [] h = rw (h) refl
unit_step out_len w j (v ∷ units) h = rw (h) refl

pair_step :
    (out_len w v j : ℕ) (units : List ℕ)
    → is_high w ≡ true
    → units_to_utf8 out_len (w ∷ v ∷ units) j
      ≡ put_codepoint out_len (units_to_utf8 out_len units) j (pair w v)
unfolding units_to_utf8
pair_step out_len w v j units h = rw (h) refl

-- One character.
scalar_step :
    (out_len c j : ℕ) (units : List ℕ)
    → IsScalar c
    → units_to_utf8 out_len (utf16 c ++ units) j
      ≡ put_codepoint out_len (units_to_utf8 out_len units) j c
unfolding IsScalar
scalar_step out_len c j units (p, m, s) = elim (Bool-cases (leb c 0xffff)) [
  | inl l ↦
      let h : is_high c ≡ false = ground arith in
      let e : single c ≡ c = ground arith in
      let u : utf16 c ≡ c ∷ [] = rw (l) refl in
      ap (λ us. units_to_utf8 out_len (us ++ units) j) u
      ∙ unit_step out_len c j units h
      ∙ ap (put_codepoint out_len (units_to_utf8 out_len units) j) e
  | inr l ↦
      let w = 0xd800 + (c - 0x10000) / 1024 in
      let v = 0xdc00 + (c - 0x10000) % 1024 in
      let h : is_high w ≡ true = ground arith in
      let e : pair w v ≡ c = ground arith in
      let u : utf16 c ≡ w ∷ v ∷ [] = rw (l) refl in
      ap (λ us. units_to_utf8 out_len (us ++ units) j) u
      ∙ pair_step out_len w v j units h
      ∙ ap (put_codepoint out_len (units_to_utf8 out_len units) j) e
]

-- A text, and the NUL behind it.
text_step :
    (out_len : ℕ) (text rest : List ℕ) (j : ℕ)
    → Each IsScalar text
    → j + length (all_utf8 text) < out_len
    → units_to_utf8 out_len (all_utf16 text ++ 0 ∷ rest) j ≡ all_utf8 text
unfolding IsScalar units_to_utf8
text_step out_len [] rest j s f = unit_step out_len 0 j rest refl
text_step out_len (c ∷ text) rest j (s, more) f =
    let l = length-append {0} (encoded c) (all_utf8 text) in
    ap (λ us. units_to_utf8 out_len us j) (append_assoc (utf16 c) (all_utf16 text) (0 ∷ rest))
    ∙ scalar_step out_len c j (all_utf16 text ++ 0 ∷ rest) s
    ∙ put_step out_len (units_to_utf8 out_len (all_utf16 text ++ 0 ∷ rest)) j c s.0 s.1
        (omega (arith, l))
    ∙ ap (λ bs. encoded c ++ bs)
        (text_step out_len text rest (j + length (encoded c)) more (omega (arith, l)))

all_utf8-Decodes : (text : List ℕ) → Each IsScalar text → Decodes (all_utf8 text) text
unfolding IsScalar
all_utf8-Decodes [] s = no_bytes
all_utf8-Decodes (c ∷ text) (s, more) =
    encoded-Decodes c (all_utf8 text) text s.1 (all_utf8-Decodes text more)

-- The UTF-16 units of a text, with a NUL behind them, become bytes that a strict decoder of UTF-8
-- reads as the same text, if these fit the buffer.
pub utf16le_to_utf8-Decodes :
    (text rest : List ℕ) (out_len : ℕ)
    → Each IsScalar text
    → length (all_utf8 text) < out_len
    → Decodes (utf16le_to_utf8 (all_utf16 text ++ 0 ∷ rest) out_len) text
unfolding utf16le_to_utf8
utf16le_to_utf8-Decodes text rest out_len s f =
    subst (λ bs. Decodes bs text) (sym (text_step out_len text rest 0 s (omega arith)))
      (all_utf8-Decodes text s)
