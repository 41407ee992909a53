-- ===== src/Firehose/DryRun.antt =====
-- The dry run: the hooks of src/vip.c in `firehose_stream_out` of src/firehose.c.
use qdl.Base.{
  ℕ, ◌*◌, ◌≡◌, refl, ◌∙◌, Bool, true, false, Option, none, some, List, [], ◌∷◌, ◌++◌, Bytes, concat,
}
use qdl.File.{QdlFile, rest}
use qdl.Vip.Generator.{Sha256}
use qdl.Vip.Generator.Chunks.{
  whole, VipTableGenerator, vip_gen_chunk_init, vip_gen_chunk_update, vip_gen_chunk_store, Frame,
  record_frames,
}
use qdl.Firehose.{ChunkHooks, Env, Host}
use qdl.Firehose.Stream.{from_file, firehose_stream_out}
use qdl.Firehose.Stream.Image.{image}
use qdl.Firehose.Stream.Frames.{Within-nothing, IsDisabled, send_table-nothing}
use qdl.Firehose.Stream.Delivery.{hash_frames, Delivered, OnSuccess, stream_out-Delivered}

module _ (sha : Sha256) where
  -- The generator, whose digests can be written.
  abbrev pub generator_hooks : ChunkHooks (VipTableGenerator sha)
  generator_hooks = record {
    chunk_init = vip_gen_chunk_init sha;
    chunk_update = vip_gen_chunk_update sha;
    chunk_store = vip_gen_chunk_store sha whole;
  }

  -- frames in one piece each
  abbrev pub in_one : List Bytes → List (Frame sha)
  in_one [] = []
  in_one (f ∷ fs) = (f ∷ [], whole) ∷ in_one fs

  hash_frames-record_frames :
      (fs : List Bytes) (g : VipTableGenerator sha)
      → hash_frames generator_hooks fs g ≡ record_frames sha g (in_one fs)
  unfolding record_frames
  hash_frames-record_frames [] g = refl
  hash_frames-record_frames (f ∷ fs) g = hash_frames-record_frames fs _

  -- What the dry run of a payload leaves: the digests of the frames that went out.
  pub record DryRun (n : ℕ) (file : QdlFile) (h h' : Host (VipTableGenerator sha)) : Type 0 where
    pub frames : List Bytes
    pub data_lem : concat frames ≡ image n (rest file)
    pub sent_lem : h'.wire.sent ≡ h.wire.sent ++ frames
    pub digests_lem : h'.generator ≡ record_frames sha h.generator (in_one frames)

  -- A dry run of `firehose_stream_out` that succeeds, with no transfer of VIP tables under way, sends
  -- nothing but the frames of the payload, in order, and records each of them once and no other data.
  pub firehose_stream_out-DryRun :
      (env : Env (VipTableGenerator sha)) (sector_size num_sectors : ℕ) (file : QdlFile)
      (h : Host (VipTableGenerator sha))
      → IsDisabled env h.vip_data
      → OnSuccess generator_hooks
          (λ file' h'. DryRun (num_sectors * sector_size) file h h')
          (firehose_stream_out
            (record env { hooks = generator_hooks })
            from_file
            sector_size
            num_sectors
            file
            h)
  firehose_stream_out-DryRun env sector_size num_sectors file h v =
      let dry = record env { hooks = generator_hooks } in
      recorded (firehose_stream_out dry from_file sector_size num_sectors file h) (
        stream_out-Delivered dry sector_size (λ b. ⊥) (IsDisabled dry) (send_table-nothing dry)
          num_sectors file h v)
    where
      recorded :
          (out : Option (Bool × QdlFile × Host (VipTableGenerator sha)))
          → OnSuccess generator_hooks
              (Delivered generator_hooks (λ b. ⊥) (num_sectors * sector_size) file h)
              out
          → OnSuccess generator_hooks (λ file' h'. DryRun (num_sectors * sector_size) file h h') out
      recorded none d = tt
      recorded (some (false, file', h')) d = tt
      recorded (some (true, file', h')) d = record {
        frames = d.frames;
        data_lem = d.data_lem;
        sent_lem = Within-nothing d.sent_lem;
        digests_lem = d.hash_lem ∙ hash_frames-record_frames d.frames h.generator;
      }
