-- ===== src/Firehose/Block.antt =====
-- `firehose_pwrite` of src/firehose.c, which the nbdkit plugin calls.
use qdl.Base.{
  ℕ, zero, suc, ◌-◌, ◌*◌, ◌/◌, min, Bool, true, false, Option, none, some, [], ◌∷◌, Bytes, take,
  drop, ◌==◌, if◌then◌else◌,
}
use qdl.Io.{Tx, wrote, refused}
use qdl.Firehose.{Tag, d, zu, new_child, Env, Host, device_write}
use qdl.Firehose.Receive.{Reply}
use qdl.Firehose.Send.{generic_read, is_error, firehose_write}
use qdl.Firehose.Control.{set_all}

module _ {G : Type 0} (env : Env G) where
  -- `none` is for a loop that is still running; the flag is false at a negative result.
  abbrev pub Sent : Type 0
  Sent = Option (Bool × Host G)

  pwrite_tag : ℕ → ℕ → ℕ → ℕ → Tag
  pwrite_tag lun sector_offset sector_size num_sectors = set_all (new_child "program") (
      ("SECTOR_SIZE_IN_BYTES", zu sector_size)
      ∷ ("num_partition_sectors", zu num_sectors)
      ∷ ("physical_partition_number", d lun)
      ∷ ("start_sector", zu sector_offset)
      ∷ [])

  -- behind `qdl_write` of a chunk of `n` bytes
  wrote_chunk : (Host G → Sent) → ℕ → Tx × Host G → Sent
  wrote_chunk next n (refused e, h) = some (false, h)
  wrote_chunk next n (wrote m, h) = if m == n then next h else some (false, h)

  write_chunks : ℕ → ℕ → ℕ → Bytes → Host G → Sent
  write_chunks rounds sector_size zero p h = some (true, h)
  write_chunks zero sector_size (suc left) p h = none
  write_chunks (suc rounds) sector_size (suc left) p h =
      let chunk = min (h.max_payload_size / sector_size) (suc left) in
      let n = chunk * sector_size in
      wrote_chunk (write_chunks rounds sector_size (suc left - chunk) (drop n p)) n
        (device_write h (take n p))

  -- A response is an error only if it is negative: a NAK, which is 1, is none.
  not_error : Reply × Host G → Bool × Host G
  not_error (r, h) = (if is_error env r then false else true, h)

  last_read : Sent → Sent
  last_read none = none
  last_read (some (false, h)) = some (false, h)
  last_read (some (true, h)) = some (not_error (generic_read env 120000 h))

  write_payload : ℕ → ℕ → Bytes → Bool × Host G → Sent
  write_payload sector_size num_sectors buf (false, h) = some (false, h)
  write_payload sector_size num_sectors buf (true, h) =
      last_read (write_chunks num_sectors sector_size num_sectors buf h)

  pwrite_written : ℕ → ℕ → Bytes → Bool × Host G → Sent
  pwrite_written sector_size num_sectors buf (false, h) = some (false, h)
  pwrite_written sector_size num_sectors buf (true, h) =
      write_payload sector_size num_sectors buf (not_error (generic_read env 10000 h))

  -- `firehose_pwrite`, for a sector size that is not 0, by which it divides
  unfoldable pub firehose_pwrite : ℕ → ℕ → Bytes → ℕ → ℕ → Host G → Sent
  unfolding pwrite_written write_payload last_read not_error write_chunks wrote_chunk pwrite_tag
  firehose_pwrite lun sector_offset buf sector_size num_sectors h =
      pwrite_written sector_size num_sectors buf
        (firehose_write env (pwrite_tag lun sector_offset sector_size num_sectors) h)
