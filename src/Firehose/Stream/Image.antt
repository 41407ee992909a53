-- ===== src/Firehose/Stream/Image.antt =====
-- What `firehose_stream_out` of src/firehose.c should send: a file with zeros behind its end.
use qdl.Base.{
  ℕ, zero, suc, ◌+◌, ◌-◌, ◌≡◌, refl, sym, ap, ◌∙◌, [], ◌∷◌, ◌++◌, Bytes, length, take, drop,
  replicate, drop-nil, arith,
}
use qdl.Firehose.Stream.{zero_pad}

-- The first `n` bytes of what is left of a file, with zeros behind its end.
abbrev pub image : ℕ → Bytes → Bytes
image zero bytes = []
image (suc n) [] = 0 ∷ image n []
image (suc n) (b ∷ bytes) = b ∷ image n bytes

pub image_zeros : (n : ℕ) → image n [] ≡ replicate n 0
image_zeros zero = refl
image_zeros (suc n) = ap (λ t. 0 ∷ t) (image_zeros n)

pub zero_pad-take : (n : ℕ) (bytes : Bytes) → zero_pad n (take n bytes) ≡ image n bytes
zero_pad-take zero bytes = refl
zero_pad-take (suc n) [] =
    ap (λ k. replicate k 0) {x = suc n - 0} {y = suc n} (omega arith) ∙ sym (image_zeros (suc n))
zero_pad-take (suc n) (b ∷ bytes) =
    ap (λ k. b ∷ take n bytes ++ replicate k 0) {x = suc n - suc (length (take n bytes))}
      {y = n - length (take n bytes)} (omega arith)
    ∙ ap (λ t. b ∷ t) (zero_pad-take n bytes)

pub length-image : (n : ℕ) (bytes : Bytes) → length (image n bytes) ≡ n
length-image zero bytes = refl
length-image (suc n) [] = ap suc (length-image n [])
length-image (suc n) (b ∷ bytes) = ap suc (length-image n bytes)

-- Two pieces are one.
pub image-append :
    (m n : ℕ) (bytes : Bytes) → image m bytes ++ image n (drop m bytes) ≡ image (m + n) bytes
image-append zero n bytes = ap (λ k. image k bytes) (omega arith)
image-append (suc m) n [] =
    ap (λ t. 0 ∷ t) (ap (λ t. image m [] ++ image n t) (sym (drop-nil ℕ m)) ∙ image-append m n [])
    ∙ ap (λ k. image k []) {x = suc (m + n)} (omega arith)
image-append (suc m) n (b ∷ bytes) =
    ap (λ t. b ∷ t) (image-append m n bytes)
    ∙ ap (λ k. image k (b ∷ bytes)) {x = suc (m + n)} (omega arith)
