-- ===== src/Vip/Generator/Coverage.antt =====
-- The tables hold every digest once, in order, and none is too long.
use qdl.Base.{
  ℕ, zero, suc, ◌+◌, ◌-◌, ◌*◌, ◌/◌, ◌≤◌, ◌<◌, ◌≡◌, ap, sym, ◌∙◌, Bool, [], ◌∷◌, ◌++◌, Bytes, length,
  take, drop, min, append-nil, Bool-cases, inl, inr, ltb, ltb→lt, arith, length-append, length-take,
  length-drop, take-append-drop, take_all, drop_all, drop-drop,
}
use qdl.Vip.Generator.{Sha256, table_size, chained_num}
use qdl.Vip.Generator.Chain.{payload, sealed, digest}
use qdl.Vip.Generator.Tables.{signed_part}

module _ (total : ℕ) (table : Bytes) where
  -- The digests in chained table `i`.
  abbrev pub digests_of : ℕ → Bytes
  digests_of i = take (table_size (total - 53 - 255 * i) * 32) (drop (32 * (53 + 255 * i)) table)

  -- Those of `n` tables from `i` on.
  abbrev pub digests_from : ℕ → ℕ → Bytes
  digests_from zero i = []
  digests_from (suc n) i = digests_of i ++ digests_from n (i + 1)

  drop-next :
      (i : ℕ)
      → 255 < total - 53 - 255 * i
      → drop (32 * (53 + 255 * (i + 1))) table
        ≡ drop (table_size (total - 53 - 255 * i) * 32) (drop (32 * (53 + 255 * i)) table)
  drop-next i h =
      ap (λ k. drop k table) (ground arith)
      ∙ sym (drop-drop (32 * (53 + 255 * i)) (table_size (total - 53 - 255 * i) * 32) table)

  covers_from :
      (n i : ℕ)
      → length table ≡ 32 * total
      → n ≡ (total - 53 - 255 * i + 254) / 255
      → digests_from n i ≡ drop (32 * (53 + 255 * i)) table
  covers_from zero i h e = sym (drop_all (32 * (53 + 255 * i)) table (omega arith))
  covers_from (suc n) i h e = elim (Bool-cases (ltb 255 (total - 53 - 255 * i))) [
    | inl b ↦
        ap (λ t. digests_of i ++ t)
          (covers_from n (i + 1) h (ground arith) ∙ drop-next i (ground arith))
        ∙ take-append-drop (table_size (total - 53 - 255 * i) * 32)
            (drop (32 * (53 + 255 * i)) table)
    | inr b ↦
        ap (λ m. digests_of i ++ digests_from m (i + 1)) {y = 0} (ground arith)
        ∙ append-nil (digests_of i)
        ∙ take_all (table_size (total - 53 - 255 * i) * 32) (drop (32 * (53 + 255 * i)) table)
            (ground (arith, h, length-drop {0} (32 * (53 + 255 * i)) table))
  ]

  cover_many :
      53 < total
      → length table ≡ 32 * total
      → take (53 * 32) table ++ digests_from ((total - 53 + 255 - 1) / 255) 0 ≡ table
  cover_many m h =
      ap (λ t. take (53 * 32) table ++ t)
        (covers_from ((total - 53 + 255 - 1) / 255) 0 h (omega arith))
      ∙ take-append-drop (53 * 32) table

-- The signed table and the chained tables hold the digests of the dry run, each once and in the
-- order of the frames.
pub tables_cover :
    (sha : Sha256) (fails : ℕ → Bool) (total : ℕ) (table : Bytes)
    → length table ≡ 32 * total
    → signed_part sha fails total table ++ digests_from total table (chained_num total) 0 ≡ table
unfolding chained_num
tables_cover sha fails total table h = elim (Bool-cases (ltb 53 total)) [
  | inl b ↦ rw b (
      ap (λ k. take (k * 32) table ++ digests_from total table ((total - 53 + 255 - 1) / 255) 0)
        {y = 53} (ground arith)
      ∙ cover_many total table (ltb→lt _ _ b) h)
  | inr b ↦ rw b (append-nil _ ∙ take_all (min total 53 * 32) table (ground (arith, h)))
]

-- A digest of 32 bytes, which is what SHA-256 makes.
module _ (sha : Sha256) (short : (c : sha.Ctx) → length (sha.final c) ≡ 32) where
  length-payload :
      (total : ℕ) (table : Bytes) (i : ℕ)
      → (length (payload total table i) ≤ 255 * 32 + 1)
        × (255 < total - 53 - 255 * i → length (payload total table i) ≤ 255 * 32)
  unfolding payload
  length-payload total table i =
      let r = total - 53 - 255 * i in
      let digests = digests_of total table i in
      let n = length-take {0} (table_size r * 32) (drop (32 * (53 + 255 * i)) table) in
      let p = length-append {0} digests (0 ∷ []) in
      (ground (arith, n, p), λ h. ground (arith, n, p))

  -- Every chained table fits in the 256 digests that the device takes at once, its hash included.
  pub length-sealed :
      (total : ℕ) (table : Bytes) (m i : ℕ)
      → m + i < chained_num total
      → length (sealed sha total table m i) ≤ 256 * 32
  unfolding sealed chained_num
  length-sealed total table zero i h = omega (arith, (length-payload total table i).0)
  length-sealed total table (suc m) i h =
      let more : 255 < total - 53 - 255 * i = ground arith in
      omega (
        arith,
        (length-payload total table i).1 more,
        length-append {0} (payload total table i) (digest sha (sealed sha total table m (i + 1))),
        short (sha.update sha.sha256_init (sealed sha total table m (i + 1))),
      )
