-- ===== src/Firehose/Program.antt =====
-- `firehose_program` of src/firehose.c, with the skipblock path: a region of the storage is written
-- from a file, or only those of its chunks whose digest differs from the device's.
pub mod Skip
use qdl.Base.{
  ℕ, zero, suc, ◌+◌, ◌-◌, ◌*◌, ◌/◌, ◌%◌, ◌^◌, min, Bool, true, false, not, ◌&&◌, Option, none, some,
  List, [], ◌∷◌, ◌++◌, Bytes, length, take, ltb, leb, ◌==◌, if◌then◌else◌, same, decimal, put32,
  replicate, concat,
}
use qdl.File.{QdlFile, qdl_file_getsize, qdl_file_seek}
use qdl.Sparse.{chunk_type_raw, chunk_type_fill}
use qdl.Vip.Transfer.{VipState, vip_disabled}
use qdl.Vip.Generator.{Sha256}
use qdl.Firehose.{Tag, Value, d, u, s, new_child, xml_setpropf, Storage, Env, Host, Stats}
use qdl.Firehose.Send.{generic_read, is_ack}
use qdl.Firehose.Stream.{Source, from_file, filled, firehose_stream_out}
use qdl.Firehose.Stream.Digest.{firehose_region_local_digest}
use qdl.Firehose.Op.{
  FirehoseOp, OpType, op_get_sha256_digest, firehose_alloc_op, set_string, set_if, set_slot,
  sector_size_of, request,
}
use qdl.Firehose.Control.{set_all, firehose_getsha256digest}

-- The files, and `strtoull` with base 0.
pub record Files : Type 0 where
  pub open_file : Bool → Bytes → Option QdlFile
  pub strtoull : Bytes → ℕ

abbrev pub skipblock_chunk_bytes : ℕ
skipblock_chunk_bytes = 512 * 1024 * 1024

abbrev is_disabled : VipState → Bool
is_disabled vip_disabled = true
is_disabled _ = false

-- `firehose_skipblock_enabled`
pub firehose_skipblock_enabled : {G : Type 0} → Host G → FirehoseOp → Bool
firehose_skipblock_enabled h program =
    h.skipblock_sha256
    && (not program.sparse && (not program.is_nand && is_disabled h.vip_data.state))

-- the buffer of a fill chunk, as far as it is allocated
abbrev pub fill_buffer : ℕ → ℕ → Bytes
fill_buffer payload value = take payload (concat (replicate (payload / 4 + 1) (put32 value)))

module _ {G : Type 0} (env : Env G) where
  -- `none` is for a loop that is still running; the flag is false at the result -1.
  abbrev pub Programmed : Type 0
  Programmed = Option (Bool × QdlFile × Host G)

  unfoldable pub program_tag : Host G → FirehoseOp → Bytes → ℕ → ℕ → Tag
  program_tag h program start_sector num_sectors sector_size =
      set_string program.filename
        (set_slot h (
          set_all (new_child "program") (
            ("SECTOR_SIZE_IN_BYTES", d sector_size)
            ∷ ("num_partition_sectors", d num_sectors)
            ∷ ("physical_partition_number", d program.partition)
            ∷ ("start_sector", s start_sector)
            ∷ [])))
        "filename"

  -- the final response
  unfoldable final_ack : Programmed → Programmed
  final_ack none = none
  final_ack (some (false, file, h)) = some (false, file, h)
  final_ack (some (true, file, h)) =
      let (r, h') = generic_read env 120000 h in some (is_ack env r, file, h')

  -- behind the response to the program request
  unfoldable pub stream_region : Source → ℕ → ℕ → QdlFile → Bool × Host G → Programmed
  unfolding final_ack
  stream_region source sector_size num_sectors file (false, h) = some (false, file, h)
  stream_region source sector_size num_sectors file (true, h) =
      final_ack (firehose_stream_out env source sector_size num_sectors file h)

  -- `firehose_program_raw_region`
  unfoldable pub firehose_program_raw_region :
      FirehoseOp → QdlFile → Bytes → ℕ → ℕ → Host G → Programmed
  unfolding program_tag final_ack stream_region
  firehose_program_raw_region program file start_sector num_sectors sector_size h =
      stream_region from_file sector_size num_sectors file
        (request env (program_tag h program start_sector num_sectors sector_size) 10000 h)

  module _ (sha : Sha256) (files : Files) (program : FirehoseOp) (num_sectors sector_size : ℕ) where
    open files use {strtoull}

    abbrev pub chunk_max : ℕ
    chunk_max = skipblock_chunk_bytes / sector_size

    -- What the walk over the chunks keeps: the file, the host, and the chunks and bytes flashed.
    pub record Walk : Type 0 where
      pub file : QdlFile
      pub host : Host G
      pub flashed : ℕ
      pub flashed_bytes : ℕ

    -- The region of the chunk at `off`.
    abbrev pub chunk_sectors : ℕ → ℕ
    chunk_sectors off = min chunk_max (num_sectors - off)

    abbrev pub file_byte_off : ℕ → ℕ
    file_byte_off off = (program.file_offset + off) % 2 ^ 32 * sector_size

    -- the first chunk keeps the text of the operation, which may be symbolic
    abbrev pub chunk_start : ℕ → Bytes
    chunk_start off =
        if off == 0
        then program.start_sector
        else decimal ((strtoull program.start_sector + off) % 2 ^ 64)

    abbrev pub digest_op : ℕ → FirehoseOp
    digest_op off = record (firehose_alloc_op op_get_sha256_digest) {
      sector_size = sector_size;
      num_sectors = chunk_sectors off;
      partition = program.partition;
      start_sector = chunk_start off;
    }

    abbrev matches : Bytes → Option Bytes → Bool
    matches local none = false
    matches local (some digest) = same local digest

    -- whether the device has the digest of the file's chunk
    compare_digest : ℕ → Host G → Option (Option Bytes × QdlFile) → Option (Bool × QdlFile × Host G)
    compare_digest off h none = none
    compare_digest off h (some (none, file)) = some (false, file, h)
    compare_digest off h (some (some local, file)) =
        let (digest, h') = firehose_getsha256digest env (digest_op off) h in
        some (matches local digest, file, h')

    flashed_chunk : (Walk → Option (Bool × Walk)) → ℕ → Walk → Programmed → Option (Bool × Walk)
    flashed_chunk next off walk none = none
    flashed_chunk next off walk (some (ok, file, h)) =
        if ok
        then next (record {
          file = file;
          host = h;
          flashed = walk.flashed + 1;
          flashed_bytes = (walk.flashed_bytes + chunk_sectors off * sector_size) % 2 ^ 64;
        })
        else some (false, record walk { file = file; host = h })

    -- behind the comparison
    flash_unless :
        (Walk → Option (Bool × Walk))
        → ℕ
        → Walk
        → Option (Bool × QdlFile × Host G)
        → Option (Bool × Walk)
    flash_unless next off walk none = none
    flash_unless next off walk (some (match, file, h)) =
        let flash = flashed_chunk next off walk (
          firehose_program_raw_region program (qdl_file_seek file (file_byte_off off)).1
            (chunk_start off) (chunk_sectors off) sector_size h) in
        if match then next (record walk { file = file; host = h }) else flash

    -- The loop. `off` is an `unsigned int`.
    skip_rounds : ℕ → ℕ → Walk → Option (Bool × Walk)
    skip_rounds zero off walk = none
    skip_rounds (suc rounds) off walk =
        let compared = compare_digest off walk.host (
          firehose_region_local_digest sha walk.host.max_payload_size
            (chunk_sectors off * sector_size) walk.file (file_byte_off off)) in
        let next = skip_rounds rounds ((off + chunk_max) % 2 ^ 32) in
        let chunk = flash_unless next off walk compared in
        if ltb off num_sectors then chunk else some (true, walk)

    count_region : Option (Bool × Walk) → Option (Bool × Host G)
    count_region none = none
    count_region (some (false, walk)) = some (false, walk.host)
    count_region (some (true, walk)) =
        let stats = walk.host.stats in
        let skip = record stats { skipped = stats.skipped + 1 } in
        let flash = record stats {
          flashed = stats.flashed + 1;
          bytes_written = (stats.bytes_written + walk.flashed_bytes) % 2 ^ 64;
        } in
        some (true, record walk.host { stats = if walk.flashed == 0 then skip else flash })

    -- `firehose_program_skipblock`
    unfoldable pub firehose_program_skipblock : QdlFile → Host G → Option (Bool × Host G)
    unfolding count_region skip_rounds flash_unless flashed_chunk compare_digest
    firehose_program_skipblock file h = count_region (
        skip_rounds (suc num_sectors) 0
          (record { file = file; host = h; flashed = 0; flashed_bytes = 0 }))
