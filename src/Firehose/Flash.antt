-- ===== src/Firehose/Flash.antt =====
-- `firehose_program` of src/firehose.c.
use qdl.Base.{
  ℕ, zero, suc, ◌+◌, ◌-◌, ◌*◌, ◌/◌, ◌%◌, ◌^◌, Bool, true, false, not, ◌&&◌, Option, none, some, [],
  ◌∷◌, Bytes, ltb, ◌==◌, if◌then◌else◌,
}
use qdl.File.{QdlFile, qdl_file_getsize, qdl_file_seek}
use qdl.Sparse.{chunk_type_raw, chunk_type_fill}
use qdl.Vip.Generator.{Sha256}
use qdl.Firehose.{Tag, d, Env, Host}
use qdl.Firehose.Stream.{Source, from_file, filled}
use qdl.Firehose.Op.{FirehoseOp, set_string, set_if, sector_size_of, request}
use qdl.Firehose.Control.{set_all}
use qdl.Firehose.Program.{
  Files, firehose_skipblock_enabled, fill_buffer, firehose_program_skipblock, program_tag,
  stream_region,
}

module _ {G : Type 0} (env : Env G) (sha : Sha256) (files : Files) where
  -- `none` is for a loop that is still running; the flag is false at the result -1.
  abbrev pub Flashed : Type 0
  Flashed = Option (Bool × Host G)

  -- the number of sectors of a file that is not sparse, as an `unsigned int`
  abbrev pub sectors_of : QdlFile → ℕ → ℕ
  sectors_of file sector_size =
      (qdl_file_getsize file + sector_size - 1) % 2 ^ 64 / sector_size % 2 ^ 32

  abbrev pub limited : ℕ → ℕ → ℕ
  limited sectors num_sectors =
      if not (num_sectors == 0) && ltb num_sectors sectors then num_sectors else sectors

  abbrev pub num_sectors_of : FirehoseOp → QdlFile → ℕ → ℕ
  num_sectors_of program file sector_size =
      if program.sparse
      then program.num_sectors
      else limited (sectors_of file sector_size) program.num_sectors

  -- the attributes of a NAND request
  nand_tag : FirehoseOp → Tag → Tag
  nand_tag program node =
      set_if program.is_nand
        (set_string program.label
          (set_all node (
            ("PAGES_PER_BLOCK", d program.pages_per_block)
            ∷ ("last_sector", d program.last_sector)
            ∷ []))
          "label")
        node

  -- Where the payload comes from; `none` is an invalid chunk type. A failing seek is not noticed.
  source_of : FirehoseOp → QdlFile → ℕ → ℕ → Option (Source × QdlFile)
  source_of program file sector_size payload =
      let raw = (qdl_file_seek file program.sparse_offset).1 in
      let plain = (qdl_file_seek file (program.file_offset * sector_size)).1 in
      if not program.sparse
      then some (from_file, plain)
      else if program.sparse_chunk_type == chunk_type_raw
      then some (from_file, raw)
      else if program.sparse_chunk_type == chunk_type_fill
      then some (filled (fill_buffer payload program.sparse_fill_value), file)
      else none

  count_flashed : ℕ → Option (Bool × QdlFile × Host G) → Flashed
  count_flashed bytes none = none
  count_flashed bytes (some (false, file, h)) = some (false, h)
  count_flashed bytes (some (true, file, h)) = some (
    true,
    record h {
      stats = record h.stats {
        flashed = h.stats.flashed + 1;
        bytes_written = (h.stats.bytes_written + bytes) % 2 ^ 64;
      };
    },
  )

  -- behind the response to the request
  stream_source : Option (Source × QdlFile) → ℕ → ℕ → Bool × Host G → Flashed
  stream_source source sector_size num_sectors (false, h) = some (false, h)
  stream_source none sector_size num_sectors (true, h) = some (false, h)
  stream_source (some (source, file)) sector_size num_sectors (true, h) =
      count_flashed (sector_size * num_sectors % 2 ^ 64)
        (stream_region env source sector_size num_sectors file (true, h))

  flash_region : FirehoseOp → QdlFile → ℕ → Host G → Flashed
  flash_region program file sector_size h =
      let num_sectors = num_sectors_of program file sector_size in
      let tag =
        nand_tag program (program_tag env h program program.start_sector num_sectors sector_size) in
      let skip = firehose_program_skipblock env sha files program num_sectors sector_size file h in
      let stream =
        stream_source (source_of program file sector_size h.max_payload_size) sector_size
          num_sectors (request env tag 10000 h) in
      if not (env.malloc h.max_payload_size)
      then some (false, h)
      else if firehose_skipblock_enabled h program
      then skip
      else stream

  program_file : FirehoseOp → Option QdlFile → ℕ → Host G → Flashed
  program_file program none sector_size h = some (false, h)
  program_file program (some file) zero h = some (false, h)
  program_file program (some file) (suc n) h = flash_region program file (suc n) h

  named_file : FirehoseOp → Option Bytes → Host G → Flashed
  named_file program none h = some (true, h)
  named_file program (some name) h =
      program_file program (files.open_file program.zip name) (sector_size_of h program) h

  -- `firehose_program`
  unfoldable pub firehose_program : FirehoseOp → Host G → Flashed
  unfolding named_file program_file flash_region stream_source count_flashed source_of nand_tag
      firehose_program_skipblock
  firehose_program program h = named_file program program.filename h
