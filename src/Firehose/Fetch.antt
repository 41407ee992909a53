-- ===== src/Firehose/Fetch.antt =====
-- `firehose_issue_read` of src/firehose.c, and its callers: sectors are read into a file or a buffer.
pub mod Incoming
pub mod Chunk
pub mod Sectors
use qdl.Base.{
  ℕ, zero, suc, ◌+◌, ◌-◌, ◌*◌, ◌/◌, ◌%◌, ◌^◌, min, Bool, true, false, not, Option, none, some, List,
  [], ◌∷◌, ◌++◌, Bytes, length, take, ltb, ◌==◌, if◌then◌else◌, decimal,
}
use qdl.Io.{Rx, got, failed}
use qdl.Firehose.{Tag, Value, d, s, zu, new_child, Env, Host, Stats, device_read, device_write}
use qdl.Io.{Tx, wrote, refused}
use qdl.Firehose.Receive.{budget}
use qdl.Firehose.Send.{generic_read, is_ack, is_error, firehose_write}
use qdl.Firehose.Receive.{Reply}
use qdl.Firehose.Op.{
  FirehoseOp, op_none, firehose_alloc_op, set_string, set_slot, sector_size_of, request,
}
use qdl.Firehose.Control.{set_all}

-- Where the sectors go: a file, with what it holds and what its next writes do (`none` and a number
-- that is not the one asked for are errors), or a buffer of a size, with what is written to it.
pub data Sink : Type 0 where
  to_file : Bytes → List (Option ℕ) → Sink
  to_buffer : Bytes → ℕ → Sink

-- `write`, which writes all behind the list
abbrev write_file : Bytes → List (Option ℕ) → Bytes → Bool × Sink
write_file content [] bytes = (true, to_file (content ++ bytes) [])
write_file content (none ∷ rs) bytes = (false, to_file content rs)
write_file content (some n ∷ rs) bytes = (n == length bytes, to_file (content ++ take n bytes) rs)

-- `memcpy` of a chunk, as far as the buffer goes
pub store : Sink → Bytes → Bool × Sink
store (to_file content rs) bytes = write_file content rs bytes
store (to_buffer content size) bytes =
    (true, to_buffer (content ++ take (size - length content) bytes) size)

module _ {G : Type 0} (env : Env G) where
  -- What a loop of `firehose_issue_read` ends with, `none` while it runs.
  abbrev pub Fetched : Type 0
  Fetched = Option (Bool × Sink × Host G)

  -- a read of the loop over a chunk; `next` is the reads behind it
  got_some :
      (Bytes → Host G → Option (Option Bytes × Host G))
      → Bytes
      → Rx × Host G
      → Option (Option Bytes × Host G)
  got_some next buf (failed e, h) = some (none, h)
  got_some next buf (got bytes, h) = next (buf ++ bytes) h

  -- The loop over a chunk of `want` bytes.
  pub fill_rounds : ℕ → ℕ → Bytes → Host G → Option (Option Bytes × Host G)
  fill_rounds zero want buf h = none
  fill_rounds (suc rounds) want buf h =
      let more = got_some (fill_rounds rounds want) buf (device_read h (want - length buf) 30000) in
      if ltb (length buf) want then more else some (some buf, h)

  stored : (Sink → Host G → Fetched) → Host G → Bool × Sink → Fetched
  stored next h (false, sink) = some (false, sink, h)
  stored next h (true, sink) = next sink h

  chunk_read : (Sink → Host G → Fetched) → Sink → Option (Option Bytes × Host G) → Fetched
  chunk_read next sink none = none
  chunk_read next sink (some (none, h)) = some (false, sink, h)
  chunk_read next sink (some (some buf, h)) = stored next h (store sink buf)

  -- The loop over the chunks with `left` sectors to go.
  fetch_rounds : ℕ → ℕ → ℕ → Sink → Host G → Fetched
  fetch_rounds rounds sector_size zero sink h = some (true, sink, h)
  fetch_rounds zero sector_size (suc left) sink h = none
  fetch_rounds (suc rounds) sector_size (suc left) sink h =
      let chunk_size = min (h.max_payload_size / sector_size) (suc left) in
      chunk_read (fetch_rounds rounds sector_size (suc left - chunk_size)) sink
        (fill_rounds (suc (budget h)) (chunk_size * sector_size) [] h)

  unfoldable pub read_tag : Host G → FirehoseOp → ℕ → Tag
  read_tag h read_op sector_size =
      set_string read_op.filename
        (set_slot h (
          set_all (new_child "read") (
            ("SECTOR_SIZE_IN_BYTES", d sector_size)
            ∷ ("num_partition_sectors", d read_op.num_sectors)
            ∷ ("physical_partition_number", d read_op.partition)
            ∷ ("start_sector", s read_op.start_sector)
            ∷ [])))
        "filename"

  count_read : Bool → Host G → Host G
  count_read true h = h
  count_read false h = record h { stats = record h.stats { read = h.stats.read + 1 } }

  -- the final response
  fetched : Bool → Fetched → Fetched
  fetched quiet none = none
  fetched quiet (some (false, sink, h)) = some (false, sink, h)
  fetched quiet (some (true, sink, h)) =
      let (r, h') = generic_read env 10000 h in
      if is_ack env r then some (true, sink, count_read quiet h') else some (false, sink, h')

  -- behind the response to the request
  fetch_from : Bool → ℕ → ℕ → Sink → Bool × Host G → Fetched
  fetch_from quiet sector_size num_sectors sink (false, h) = some (false, sink, h)
  fetch_from quiet sector_size num_sectors sink (true, h) =
      fetched quiet (fetch_rounds num_sectors sector_size num_sectors sink h)

  read_sized : ℕ → FirehoseOp → Sink → Bool → Host G → Fetched
  read_sized zero read_op sink quiet h = some (false, sink, h)
  read_sized (suc n) read_op sink quiet h =
      fetch_from quiet (suc n) read_op.num_sectors sink
        (request env (read_tag h read_op (suc n)) 10000 h)

  -- `firehose_issue_read`; the flag is false at a negative result
  unfoldable pub firehose_issue_read : FirehoseOp → Sink → Bool → Host G → Fetched
  unfolding read_sized fetch_from fetched count_read read_tag fetch_rounds chunk_read stored store
      fill_rounds got_some
  firehose_issue_read read_op sink quiet h =
      let sized = read_sized (sector_size_of h read_op) read_op sink quiet h in
      if env.malloc h.max_payload_size then sized else some (false, sink, h)

  -- `firehose_read_buf`
  pub firehose_read_buf : FirehoseOp → ℕ → Host G → Fetched
  firehose_read_buf read_op out_size h = firehose_issue_read read_op (to_buffer [] out_size) true h

  -- `firehose_read_op`, whose `open` may fail
  pub firehose_read_op : Option (List (Option ℕ)) → FirehoseOp → Host G → Fetched
  firehose_read_op none op h = some (false, to_file [] [], h)
  firehose_read_op (some writes) op h = firehose_issue_read op (to_file [] writes) false h

  -- `firehose_pread`, whose operation has fields of 32 bits; its result is `num_sectors * sector_size` at the flag
  unfoldable pub firehose_pread : ℕ → ℕ → ℕ → ℕ → Host G → Fetched
  unfolding firehose_read_buf
  firehose_pread lun sector_offset sector_size num_sectors h =
      firehose_read_buf
        (record (firehose_alloc_op op_none) {
          partition = lun;
          start_sector = decimal sector_offset;
          num_sectors = num_sectors % 2 ^ 32;
          sector_size = sector_size % 2 ^ 32;
        })
        (num_sectors * sector_size % 2 ^ 64) h
