-- ===== src/Sparse.antt =====
-- src/sparse.c and src/sparse.h: the headers of Android sparse images. Load is
-- `program_load_sparse` of src/program.c, which splits an image into operations.
pub mod Load
mod Tests
use qdl.Base.{
  ℕ, ◌+◌, ◌-◌, ◌*◌, ◌%◌, ◌^◌, Bool, true, false, not, Option, none, some, Bytes, length, take, drop,
  le16, le32, ltb, ◌==◌, if◌then◌else◌,
}

-- A file on the disk: its content and the position. A seek may go beyond the end.
pub record File : Type 0 where
  pub content : Bytes
  pub pos : ℕ

-- `qdl_file_read`: the bytes that are there
abbrev pub read_file : ℕ → File → Bytes × File
read_file n f =
    let buf = take n (drop f.pos f.content) in (buf, record f { pos = f.pos + length buf })

-- `qdl_file_seek` with `SEEK_CUR` and with `SEEK_SET`
abbrev pub seek_forward : ℕ → File → File
seek_forward n f = record f { pos = f.pos + n }

abbrev pub rewind : File → File
rewind f = record f { pos = 0 }

-- `sparse_header_t`
pub record SparseHeader : Type 0 where
  pub magic : ℕ
  pub major_version : ℕ
  pub minor_version : ℕ
  pub file_hdr_sz : ℕ
  pub chunk_hdr_sz : ℕ
  pub blk_sz : ℕ
  pub total_blks : ℕ
  pub total_chunks : ℕ
  pub image_checksum : ℕ

abbrev pub sparse_header : Bytes → SparseHeader
sparse_header buf = record {
  magic = le32 buf 0;
  major_version = le16 buf 4;
  minor_version = le16 buf 6;
  file_hdr_sz = le16 buf 8;
  chunk_hdr_sz = le16 buf 10;
  blk_sz = le32 buf 12;
  total_blks = le32 buf 16;
  total_chunks = le32 buf 20;
  image_checksum = le32 buf 24;
}

abbrev pub sparse_header_magic : ℕ
sparse_header_magic = 0xed26ff3a

-- behind the read of the header
abbrev pub checked_header : Bytes × File → Option SparseHeader × File
checked_header (buf, f) =
    let h = sparse_header buf in
    if not (length buf == 28)
    then (none, f)
    else if not (h.magic == sparse_header_magic)
    then (none, f)
    else if not (h.major_version == 1)
    then (none, f)
    else if not (h.minor_version == 0)
    then (none, f)
    else (some h, if ltb 28 h.file_hdr_sz then seek_forward (h.file_hdr_sz - 28) f else f)

-- `sparse_header_parse`
unfoldable pub sparse_header_parse : File → Option SparseHeader × File
sparse_header_parse f = checked_header (read_file 28 (rewind f))

-- A chunk with its size in the image: raw data at an offset of the file, a value that fills it, or
-- nothing.
pub data Chunk : Type 0 where
  raw : (size offset : ℕ) → Chunk
  fill : (size value : ℕ) → Chunk
  dont_care : (size : ℕ) → Chunk

abbrev pub chunk_type_raw : ℕ
chunk_type_raw = 0xcac1

abbrev pub chunk_type_fill : ℕ
chunk_type_fill = 0xcac2

abbrev pub chunk_type_dont_care : ℕ
chunk_type_dont_care = 0xcac3

-- behind the read of a fill value
abbrev pub filled : ℕ → Bytes × File → Option Chunk × File
filled size (buf, f) =
    if not (length buf == 4) then (none, f) else (some (fill size (le32 buf 0)), f)

-- the `switch` on the type
abbrev pub chunk_of_type : (type total_sz chunk_hdr_sz size : ℕ) → File → Option Chunk × File
chunk_of_type type total_sz chunk_hdr_sz size f =
    if type == chunk_type_raw
    then if not (total_sz == chunk_hdr_sz + size)
      then (none, f)
      else (some (raw size f.pos), seek_forward size f)
    else if type == chunk_type_dont_care
    then if not (total_sz == chunk_hdr_sz) then (none, f) else (some (dont_care size), f)
    else if type == chunk_type_fill
    then if not (total_sz == chunk_hdr_sz + 4) then (none, f) else filled size (read_file 4 f)
    else (none, f)

-- behind the read of the chunk header
abbrev pub chunk_from : SparseHeader → Bytes × File → Option Chunk × File
chunk_from h (buf, f) =
    if not (length buf == 12)
    then (none, f)
    else chunk_of_type (le16 buf 0) (le32 buf 8) h.chunk_hdr_sz (le32 buf 4 * h.blk_sz % 2 ^ 64)
        (if ltb 12 h.chunk_hdr_sz then seek_forward (h.chunk_hdr_sz - 12) f else f)

-- `sparse_chunk_header_parse`
unfoldable pub sparse_chunk_header_parse : SparseHeader → File → Option Chunk × File
sparse_chunk_header_parse h f = chunk_from h (read_file 12 f)
