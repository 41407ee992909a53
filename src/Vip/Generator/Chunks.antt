-- ===== src/Vip/Generator/Chunks.antt =====
-- `vip_gen_chunk_init`, `vip_gen_chunk_update` and `vip_gen_chunk_store` of src/vip.c: the digest of
-- each frame of the dry run goes to DIGEST_TABLE.bin.
use qdl.Base.{
  ℕ, suc, ◌+◌, ◌*◌, ◌%◌, ◌^◌, ◌≤◌, ◌<◌, ◌≡◌, refl, ap, sym, subst, ◌∙◌, Bool, true, false, List, [],
  ◌∷◌, ◌++◌, Bytes, length, take, length-append, append_assoc, append-nil, take-append_of_length,
  take_all, arith,
}
use qdl.Vip.Generator.{Sha256}
use qdl.Vip.Generator.Chain.{digest}

-- What `fwrite` does with a digest: it writes it all, or fails behind some bytes of it.
pub data Fwrite : Type 0 where
  whole : Fwrite
  cut_at : ℕ → Fwrite

module _ (sha : Sha256) where
  open sha use {Ctx, sha256_init, update, final, update-append, update-nil}

  -- `struct vip_table_generator`, with the bytes of DIGEST_TABLE.bin. The flag is
  -- `digest_table_fd != NULL`.
  pub record VipTableGenerator : Type 0 where
    pub ctx : Ctx
    pub digest_table_fd : Bool
    pub digest_num_written : ℕ
    pub digest_table : Bytes

  pub vip_gen_chunk_init : VipTableGenerator → VipTableGenerator
  vip_gen_chunk_init g = record g { ctx = sha256_init }

  pub vip_gen_chunk_update : VipTableGenerator → Bytes → VipTableGenerator
  vip_gen_chunk_update g buf = record g { ctx = update g.ctx buf }

  -- `fwrite` and what follows it in `vip_gen_chunk_store`
  write_digest : Fwrite → VipTableGenerator → Bytes → VipTableGenerator
  write_digest whole g hash = record g {
    digest_table = g.digest_table ++ hash;
    digest_num_written = (g.digest_num_written + 1) % 2 ^ 64;
  }
  write_digest (cut_at n) g hash = record g {
    digest_table = g.digest_table ++ take n hash;
    digest_table_fd = false;
  }

  store_if : Bool → Fwrite → VipTableGenerator → VipTableGenerator
  store_if false w g = g
  store_if true w g = write_digest w g (final g.ctx)

  pub vip_gen_chunk_store : Fwrite → VipTableGenerator → VipTableGenerator
  unfolding store_if write_digest
  vip_gen_chunk_store w g = store_if g.digest_table_fd w g

  abbrev update_all : VipTableGenerator → List Bytes → VipTableGenerator
  update_all g [] = g
  update_all g (b ∷ bs) = update_all (vip_gen_chunk_update g b) bs

  -- A frame of the dry run, in pieces, with what happens to its digest.
  abbrev pub Frame : Type 0
  Frame = List Bytes × Fwrite

  unfoldable pub record_frames : VipTableGenerator → List Frame → VipTableGenerator
  record_frames g [] = g
  record_frames g ((pieces, w) ∷ fs) =
      record_frames (vip_gen_chunk_store w (update_all (vip_gen_chunk_init g) pieces)) fs

  abbrev pub join : List Bytes → Bytes
  join [] = []
  join (b ∷ bs) = b ++ join bs

  -- The digests of the frames up to the first that could not be written.
  abbrev pub digests : List Frame → Bytes
  digests [] = []
  digests ((pieces, whole) ∷ fs) = digest sha (join pieces) ++ digests fs
  digests ((pieces, cut_at n) ∷ fs) = []

  abbrev pub stored : List Frame → ℕ
  stored [] = 0
  stored ((pieces, whole) ∷ fs) = suc (stored fs)
  stored ((pieces, cut_at n) ∷ fs) = 0

  update_all-ctx :
      (g : VipTableGenerator) (bs : List Bytes)
      → update_all g bs ≡ record g { ctx = update g.ctx (join bs) }
  unfolding vip_gen_chunk_update
  update_all-ctx g [] = λ i. record g { ctx = sym (update-nil g.ctx) i }
  update_all-ctx g (b ∷ bs) =
      update_all-ctx (record g { ctx = update g.ctx b }) bs
      ∙ (λ i. record g { ctx = update-append g.ctx b (join bs) i })

  -- A frame as one step: its digest is that of all its pieces.
  one_frame :
      (g : VipTableGenerator) (pieces : List Bytes) (w : Fwrite) (fs : List Frame)
      {open_file : Bool}
      → g.digest_table_fd ≡ open_file
      → record_frames g ((pieces, w) ∷ fs)
        ≡ record_frames
            (store_if open_file w (record g { ctx = update sha256_init (join pieces) }))
            fs
  unfolding record_frames vip_gen_chunk_store vip_gen_chunk_init
  one_frame g pieces w fs o =
      ap (λ h. record_frames (vip_gen_chunk_store w h) fs)
        (update_all-ctx (record g { ctx = sha256_init }) pieces)
      ∙ (λ i.
          record_frames (store_if (o i) w (record g { ctx = update sha256_init (join pieces) })) fs)

  -- Once the file is closed, nothing is recorded any more.
  closed_stays :
      (fs : List Frame) (g : VipTableGenerator)
      → g.digest_table_fd ≡ false
      → ((record_frames g fs).digest_table ≡ g.digest_table)
        × ((record_frames g fs).digest_num_written ≡ g.digest_num_written)
  unfolding record_frames store_if
  closed_stays [] g h = (refl, refl)
  closed_stays ((pieces, w) ∷ fs) g h =
      let (t, n) = closed_stays fs (record g { ctx = update sha256_init (join pieces) }) h in
      let e = one_frame g pieces w fs h in
      (ap (λ r. r.digest_table) e ∙ t, ap (λ r. r.digest_num_written) e ∙ n)

  -- The count, and the digests that the file begins with.
  pub record Recorded (num : ℕ) (bytes : Bytes) (g : VipTableGenerator) : Type 0 where
    pub count : g.digest_num_written ≡ num
    pub begins : take (32 * g.digest_num_written) g.digest_table ≡ bytes
    pub enough : 32 * g.digest_num_written ≤ length g.digest_table

  take-prefix : (k : ℕ) (a b : Bytes) → length a ≡ k → (take k (a ++ b) ≡ a) × (k ≤ length (a ++ b))
  take-prefix k a b h = (take-append_of_length k a b h, omega (arith, length-append {0} a b))

  module _ (short : (c : Ctx) → length (final c) ≡ 32) where
    -- From a generator whose file holds just its digests, the file begins with those and with the
    -- digests of the frames up to the first that cannot be written, and the count is right.
    pub record_frames-Recorded :
        (fs : List Frame) (g : VipTableGenerator)
        → g.digest_table_fd ≡ true
        → length g.digest_table ≡ 32 * g.digest_num_written
        → g.digest_num_written + stored fs < 2 ^ 64
        → Recorded
            (g.digest_num_written + stored fs)
            (g.digest_table ++ digests fs)
            (record_frames g fs)
    unfolding record_frames store_if write_digest
    record_frames-Recorded [] g o l b = record {
      count = omega arith;
      begins =
          take_all (32 * g.digest_num_written) g.digest_table (omega arith)
          ∙ sym (append-nil g.digest_table);
      enough = omega arith;
    }
    record_frames-Recorded ((pieces, whole) ∷ fs) g o l b =
        let hash = digest sha (join pieces) in
        let next = write_digest whole (record g { ctx = update sha256_init (join pieces) }) hash in
        let r =
          record_frames-Recorded fs next o
            (omega (
              arith,
              length-append {0} g.digest_table hash,
              short (update sha256_init (join pieces)),
            ))
            (omega arith) in
        subst (Recorded _ _) (sym (one_frame g pieces whole fs o)) (record {
          count = omega (arith, r.count);
          begins = r.begins ∙ append_assoc g.digest_table hash (digests fs);
          enough = r.enough;
        })
    record_frames-Recorded ((pieces, cut_at n) ∷ fs) g o l b =
        let hash = digest sha (join pieces) in
        let next =
          write_digest (cut_at n) (record g { ctx = update sha256_init (join pieces) }) hash in
        let (t, m) = closed_stays fs next refl in
        let (p, q) = take-prefix (32 * g.digest_num_written) g.digest_table (take n hash) l in
        subst (Recorded _ _) (sym (one_frame g pieces (cut_at n) fs o)) (record {
          count = m ∙ (omega arith);
          begins = (λ i. take (32 * m i) (t i)) ∙ p ∙ sym (append-nil g.digest_table);
          enough = rw (m, t) q;
        })
