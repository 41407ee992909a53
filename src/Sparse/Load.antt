-- ===== src/Sparse/Load.antt =====
-- src/program.c: `program_load_sparse`.
pub mod Layout
pub mod Laid
use qdl.Base.{
  ℕ, zero, suc, ◌+◌, ◌-◌, ◌*◌, ◌/◌, ◌%◌, ◌^◌, Bool, true, false, not, Option, none, some, List, [],
  ◌∷◌, ◌++◌, Bytes, length, ltb, leb, ◌==◌, if◌then◌else◌,
}
use qdl.Sparse.{
  File, SparseHeader, Chunk, raw, fill, dont_care, sparse_header_parse, sparse_chunk_header_parse,
}

-- `start_sector`: the text of the attribute, or the text of a number
pub data StartSector : Type 0 where
  given : Bytes → StartSector
  number : ℕ → StartSector

-- A `program` operation, with the fields of `struct firehose_op` that matter here; the others are
-- copied from the operation that is split.
pub record Program : Type 0 where
  pub sector_size : ℕ
  pub num_sectors : ℕ
  pub start_sector : Option StartSector
  pub sparse : Bool

-- An operation of a chunk.
pub record ChunkOp : Type 0 where
  pub chunk : Chunk
  pub num_sectors : ℕ
  pub start_sector : StartSector

abbrev pub chunk_size : Chunk → ℕ
chunk_size (raw size offset) = size
chunk_size (fill size value) = size
chunk_size (dont_care size) = size

abbrev pub has_data : Chunk → Bool
has_data (dont_care size) = false
has_data _ = true

-- `0`, `1` and `-1`
pub data Loaded : Type 0 where
  split regular refused : Loaded

-- `strtoul` says what number a given text stands for, and `alloc` whether the allocation of the
-- `n`-th operation succeeds.
module _ (strtoul : Bytes → ℕ) (alloc : ℕ → Bool) where
  -- `(unsigned int)strtoul(program->start_sector, NULL, 0)`, which reads back what `%u` printed
  abbrev pub sector_of : StartSector → ℕ
  sector_of (given text) = strtoul text % 2 ^ 32
  sector_of (number n) = n

  abbrev pub next_start : ℕ → StartSector → ℕ → StartSector
  next_start sector_size start size = number ((sector_of start + size / sector_size) % 2 ^ 32)

  -- the tests of a chunk's size
  abbrev pub bad_size : ℕ → ℕ → Bool
  bad_size sector_size size =
      if not (size % sector_size == 0) then true else leb (2 ^ 32 - 1) (size / sector_size)

  abbrev pub op_of : ℕ → StartSector → Chunk → ChunkOp
  op_of sector_size start chunk = record {
    chunk = chunk;
    num_sectors = chunk_size chunk / sector_size;
    start_sector = start;
  }

  -- the body of the loop, for a chunk that was parsed; `next` is the rounds behind it
  abbrev pub add_chunk :
      (List ChunkOp → StartSector → File → Bool × List ChunkOp × StartSector)
      → ℕ
      → List ChunkOp
      → StartSector
      → Option Chunk × File
      → Bool × List ChunkOp × StartSector
  add_chunk next sector_size ops start (none, f) = (false, ops, start)
  add_chunk next sector_size ops start (some chunk, f) =
      let size = chunk_size chunk in
      if size == 0
      then next ops start f
      else if bad_size sector_size size
      then (false, ops, start)
      else if not (has_data chunk)
      then next ops (next_start sector_size start size) f
      else if not (alloc (length ops))
      then (false, ops, start)
      else next (ops ++ op_of sector_size start chunk ∷ []) (next_start sector_size start size) f

  -- the loop, with `left` chunks to come
  pub load_chunks :
      ℕ → SparseHeader → ℕ → List ChunkOp → StartSector → File → Bool × List ChunkOp × StartSector
  unfolding sparse_chunk_header_parse
  load_chunks zero h sector_size ops start f = (true, ops, start)
  load_chunks (suc left) h sector_size ops start f =
      add_chunk (load_chunks left h sector_size) sector_size ops start
        (sparse_chunk_header_parse h f)

  -- behind the loop
  abbrev pub loaded : Program → Bool × List ChunkOp × StartSector → Loaded × List ChunkOp × Program
  loaded p (true, ops, start) = (split, ops, record p { start_sector = some start })
  loaded p (false, ops, start) = (refused, ops, record p { start_sector = some start })

  abbrev pub load_from :
      Program → Option StartSector → Option SparseHeader × File → Loaded × List ChunkOp × Program
  load_from p start (none, f) =
      if p.sector_size * p.num_sectors == length f.content
      then (regular, [], record p { sparse = false })
      else (refused, [], p)
  load_from p none (some h, f) = (refused, [], p)
  load_from p (some start) (some h, f) =
      if p.sector_size == 0
      then (refused, [], p)
      else loaded p (load_chunks h.total_chunks h p.sector_size [] start f)

  -- `program_load_sparse`: the operations that it appends, and what becomes of the program
  unfoldable pub program_load_sparse : Program → File → Loaded × List ChunkOp × Program
  unfolding load_chunks sparse_header_parse
  program_load_sparse p f = load_from p p.start_sector (sparse_header_parse f)
