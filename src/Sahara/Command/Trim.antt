-- ===== src/Sahara/Command/Trim.antt =====
-- src/sahara.c: bounds of `sahara_pkhash_trim`.
use qdl.Base.{
  replicate, ◌-◌, subst, ◌<◌, [], ◌∷◌, refl, ap, ◌∙◌, ◌⊎◌, ℕ, zero, suc, ◌≤◌, ◌*◌, Bool, false, not,
  Bytes, length, take, drop, get_or, leb, ◌==◌, if◌then◌else◌, arith, leb→le, Bool-cases, inl, inr,
  ◌≡◌,
}
use qdl.Sahara.Run.{same_bytes}
use qdl.Sahara.Command.{find_repeat, strip_zeroes, round_up, sahara_pkhash_trim}

repeat_case :
    (i n rest : ℕ) (same : Bool)
    → rest ≤ n
    → (if not (leb (i * 2) n) then n else if same then i else rest) ≤ n
repeat_case i n rest same h = ground arith

find_repeat-le : (rounds i : ℕ) (buf : Bytes) → find_repeat rounds i buf ≤ length buf
find_repeat-le zero i buf = omega arith
find_repeat-le (suc rounds) i buf =
    repeat_case i (length buf) _ _ (find_repeat-le rounds (suc i) buf)

strip_case : (n b m : ℕ) → m ≤ n → (if b == 0 then m else suc n) ≤ suc n
strip_case n b m h = ground arith

strip_zeroes-le : (n : ℕ) (buf : Bytes) → strip_zeroes n buf ≤ n
strip_zeroes-le zero buf = omega arith
strip_zeroes-le (suc n) buf = strip_case n _ _ (strip_zeroes-le n buf)

round_up-bounds :
    (len orig_len : ℕ)
    → len ≤ orig_len
    → (len ≤ round_up len orig_len)
      × (round_up len orig_len ≤ orig_len)
      × (32 ≤ orig_len → 32 ≤ round_up len orig_len)
round_up-bounds len orig_len h = ground arith

-- No block of at least four bytes at the head comes twice.
unfoldable pub NoRepeat : Bytes → Type 0
NoRepeat buf =
    (i : ℕ) → 4 ≤ i → i * 2 ≤ length buf → same_bytes (take i buf) (take i (drop i buf)) ≡ false

no_repeat_case :
    (i n rest : ℕ) (same : Bool)
    → (i * 2 ≤ n → same ≡ false)
    → rest ≡ n
    → (if not (leb (i * 2) n) then n else if same then i else rest) ≡ n
no_repeat_case i n rest same h e = ground arith

find_repeat-NoRepeat :
    (rounds i : ℕ) (buf : Bytes) → NoRepeat buf → 4 ≤ i → find_repeat rounds i buf ≡ length buf
unfolding NoRepeat
find_repeat-NoRepeat zero i buf h four = refl
find_repeat-NoRepeat (suc rounds) i buf h four =
    no_repeat_case i (length buf) _ _ (h i four)
      (find_repeat-NoRepeat rounds (suc i) buf h (omega arith))

strip_step :
    (n b m j : ℕ)
    → (if b == 0 then m else suc n) ≤ j
    → j < suc n
    → (b ≡ 0) × (m ≤ j) × ((j ≡ n) ⊎ (j < n))
strip_step n b m j h k = ground arith

strip_zeroes-zero :
    (n : ℕ) (buf : Bytes) (j : ℕ) → strip_zeroes n buf ≤ j → j < n → get_or buf j 0 ≡ 0
strip_zeroes-zero zero buf j h k = absurd (omega arith)
strip_zeroes-zero (suc n) buf j h k =
    let (z, m, c) = strip_step n (get_or buf n 0) (strip_zeroes n buf) j h k in
    elim c [ inl e ↦ ap (λ i. get_or buf i 0) e ∙ z | inr l ↦ strip_zeroes-zero n buf j m l ]

get_or_outside : (buf : Bytes) (j : ℕ) → length buf ≤ j → get_or buf j 0 ≡ 0
get_or_outside [] j h = refl
get_or_outside (b ∷ buf) zero h = absurd (omega arith)
get_or_outside (b ∷ buf) (suc j) h = get_or_outside buf j (omega arith)

stripped_zero : (buf : Bytes) (j : ℕ) → strip_zeroes (length buf) buf ≤ j → get_or buf j 0 ≡ 0
stripped_zero buf j h = elim (Bool-cases (leb (length buf) j)) [
  | inl o ↦ get_or_outside buf j (leb→le _ _ o)
  | inr o ↦ strip_zeroes-zero (length buf) buf j h (ground arith)
]

all_zero : (buf : Bytes) → ((j : ℕ) → get_or buf j 0 ≡ 0) → buf ≡ replicate (length buf) 0
all_zero [] h = refl
all_zero (b ∷ buf) h = λ i. h 0 i ∷ all_zero buf (λ j. h (suc j)) i

zero_tail :
    (buf : Bytes) (n : ℕ)
    → ((j : ℕ) → n ≤ j → get_or buf j 0 ≡ 0)
    → drop n buf ≡ replicate (length buf - n) 0
zero_tail [] zero h = refl
zero_tail [] (suc n) h = ap (λ k. replicate k 0) {x = 0} (omega arith)
zero_tail (b ∷ buf) zero h =
    all_zero (b ∷ buf) (λ j. h j (omega arith))
    ∙ ap (λ k. replicate k 0) {x = suc (length buf)} {y = suc (length buf) - 0} (omega arith)
zero_tail (b ∷ buf) (suc n) h =
    zero_tail buf n (λ j k. h (suc j) (omega arith))
    ∙ ap (λ k. replicate k 0) {x = length buf - n} {y = suc (length buf) - suc n} (omega arith)

-- Of at least 32 bytes at whose head no block of four bytes or more comes twice, the trimmed
-- length keeps 32 at least and all at most, and what it cuts off is zeroes.
pub sahara_pkhash_trim_lem :
    (buf : Bytes)
    → 32 ≤ length buf
    → NoRepeat buf
    → (sahara_pkhash_trim buf ≤ length buf)
      × (32 ≤ sahara_pkhash_trim buf)
      × (drop (sahara_pkhash_trim buf) buf ≡ replicate (length buf - sahara_pkhash_trim buf) 0)
unfolding sahara_pkhash_trim
sahara_pkhash_trim_lem buf enough h =
    let found = find_repeat (length buf) 4 buf in
    let stripped = strip_zeroes found buf in
    let a = find_repeat-le (length buf) 4 buf in
    let b = strip_zeroes-le found buf in
    let (up, most, least) = round_up-bounds stripped (length buf) (omega arith) in
    (
      most,
      least enough,
      zero_tail buf (round_up stripped (length buf)) (λ j k. stripped_zero buf j (
          subst (λ n. strip_zeroes n buf ≤ j)
            (find_repeat-NoRepeat (length buf) 4 buf h (omega arith)) (omega arith))),
    )
