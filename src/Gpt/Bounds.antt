-- ===== src/Gpt/Bounds.antt =====
-- src/gpt.c: `utf16le_to_utf8` keeps to its buffer.
use qdl.Base.{
  ℕ, ◌+◌, ◌<◌, ◌≤◌, Bool, true, false, List, [], ◌∷◌, ◌++◌, Bytes, length, length-append, leb,
  if◌then◌else◌, ◌≡◌, refl, arith,
}
use qdl.Gpt.{is_high, encoded, put_codepoint, single, pair, units_to_utf8, utf16le_to_utf8}

put_case :
    (out_len j n : ℕ) (zero_ big full : Bool) (skip rest bytes : Bytes)
    → length bytes ≡ n
    → j < out_len
    → (full ≡ leb out_len (j + n))
    → j + length skip < out_len
    → (j + n < out_len → j + n + length rest < out_len)
    → j + length (if zero_ then [] else if big then skip else if full then [] else bytes ++ rest)
      < out_len
put_case out_len j n true big full skip rest bytes l h f s r = omega arith
put_case out_len j n false true full skip rest bytes l h f s r = s
put_case out_len j n false false true skip rest bytes l h f s r = omega arith
put_case out_len j n false false false skip rest bytes l h f s r =
    let m = r (ground arith) in omega (arith, length-append {0} bytes rest)

put_codepoint-bound :
    (out_len : ℕ) (next : ℕ → Bytes) (j c : ℕ)
    → ((k : ℕ) → k < out_len → k + length (next k) < out_len)
    → j < out_len
    → j + length (put_codepoint out_len next j c) < out_len
put_codepoint-bound out_len next j c f h =
    put_case out_len j (length (encoded c)) _ _ _ (next j) _ (encoded c) refl h refl (f j h)
      (λ k. f (j + length (encoded c)) k)

either_bound :
    (b : Bool) (j n : ℕ) (xs ys : Bytes)
    → j + length xs < n
    → j + length ys < n
    → j + length (if b then xs else ys) < n
either_bound true j n xs ys p q = p
either_bound false j n xs ys p q = q

units_to_utf8-bound :
    (out_len : ℕ) (units : List ℕ) (j : ℕ)
    → j < out_len
    → j + length (units_to_utf8 out_len units j) < out_len
unfolding units_to_utf8
units_to_utf8-bound out_len [] j h = omega arith
units_to_utf8-bound out_len (w ∷ []) j h =
    put_codepoint-bound out_len (λ k. []) j (if is_high w then 0xfffd else single w)
      (λ k l. omega arith) h
units_to_utf8-bound out_len (w ∷ v ∷ units) j h =
    either_bound (is_high w) j out_len _ _
      (put_codepoint-bound out_len (units_to_utf8 out_len units) j (pair w v)
        (λ k l. units_to_utf8-bound out_len units k l) h)
      (put_codepoint-bound out_len (units_to_utf8 out_len (v ∷ units)) j (single w)
        (λ k l. units_to_utf8-bound out_len (v ∷ units) k l) h)

-- The bytes and the NUL behind them fit the buffer, whatever the units.
pub utf16le_to_utf8-bound :
    (units : List ℕ) (out_len : ℕ)
    → 0 < out_len
    → length (utf16le_to_utf8 units out_len) + 1 ≤ out_len
unfolding utf16le_to_utf8
utf16le_to_utf8-bound units out_len h = omega (arith, units_to_utf8-bound out_len units 0 h)
