-- ===== src/Firehose/Stream/Digest.antt =====
-- `firehose_region_local_digest` of src/firehose.c: the digest of what would be sent.
pub mod Region
use qdl.Base.{
  ℕ, zero, suc, ◌+◌, ◌-◌, ◌≤◌, ◌<◌, ◌≡◌, refl, sym, ap, subst, ◌∙◌, min, Bool, true, false, Option,
  none, some, List, [], ◌∷◌, ◌++◌, Bytes, length, take, drop, replicate, ltb, if◌then◌else◌, arith,
  append_assoc, append-nil, length-append, Bool-cases, inl, inr, length-take,
}
use qdl.File.{QdlFile, rest, qdl_file_read_exact, qdl_file_seek}
use qdl.File.Exact.{Reads, Reads-append, read_exact-Outcome, Outcome}
use qdl.Vip.Generator.{Sha256}
use qdl.Vip.Generator.Chain.{digest}
use qdl.Firehose.Stream.{zero_pad}
use qdl.Firehose.Stream.Image.{image, zero_pad-take}

module _ (sha : Sha256) (max_payload_size region_bytes : ℕ) where
  open sha use {Ctx, sha256_init, update, final, update-append, update-nil}

  -- How the first loop ends: `none` while it runs, `some (none, _)` at the result -1, else the context
  -- and the number of bytes that are hashed.
  abbrev pub Hashing : Type 0
  Hashing = Option (Option (Ctx × ℕ) × QdlFile)

  abbrev update_some : Ctx → Bytes → Ctx
  update_some ctx [] = ctx
  update_some ctx (b ∷ bytes) = update ctx (b ∷ bytes)

  -- behind `qdl_file_read_exact`
  hash_read : (ℕ → Ctx → QdlFile → Hashing) → ℕ → ℕ → Ctx → Option Bytes × QdlFile → Hashing
  hash_read next want hashed ctx (none, file) = some (none, file)
  hash_read next want hashed ctx (some bytes, file) =
      let ctx' = update_some ctx bytes in
      let hashed' = hashed + length bytes in
      if ltb (length bytes) want then some (some (ctx', hashed'), file) else next hashed' ctx' file

  hash_rounds : ℕ → ℕ → Ctx → QdlFile → Hashing
  hash_rounds zero hashed ctx file = none
  hash_rounds (suc rounds) hashed ctx file =
      let want = min max_payload_size (region_bytes - hashed) in
      let more = hash_read (hash_rounds rounds) want hashed ctx (qdl_file_read_exact file want) in
      if ltb hashed region_bytes then more else some (some (ctx, hashed), file)

  -- the loop over the zeros behind the end of the file
  pad_rounds : ℕ → ℕ → Ctx → Option Ctx
  pad_rounds zero hashed ctx = none
  pad_rounds (suc rounds) hashed ctx =
      let pad = min max_payload_size (region_bytes - hashed) in
      let more = pad_rounds rounds (hashed + pad) (update ctx (replicate pad 0)) in
      if ltb hashed region_bytes then more else some ctx

  finish : QdlFile → Option Ctx → Option (Option Bytes × QdlFile)
  finish file none = none
  finish file (some ctx) = some (some (final ctx), file)

  pad_region : Hashing → Option (Option Bytes × QdlFile)
  pad_region none = none
  pad_region (some (none, file)) = some (none, file)
  pad_region (some (some (ctx, hashed), file)) =
      finish file (pad_rounds (suc region_bytes) hashed ctx)

  -- `firehose_region_local_digest`. A round hashes a byte and more, so `region_bytes + 1` of them are
  -- enough.
  unfoldable pub firehose_region_local_digest : QdlFile → ℕ → Option (Option Bytes × QdlFile)
  unfolding pad_region finish pad_rounds hash_rounds hash_read
  firehose_region_local_digest file file_byte_off =
      pad_region (hash_rounds (suc region_bytes) 0 sha256_init (qdl_file_seek file file_byte_off).1)
