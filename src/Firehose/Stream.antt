-- ===== src/Firehose/Stream.antt =====
-- `firehose_stream_out` and `firehose_region_local_digest` of src/firehose.c: the payload of a program
-- request, and the digest that is compared with the device's.
pub mod Image
pub mod Frames
pub mod Delivery
pub mod Ends
pub mod Digest
use qdl.Base.{
  ℕ, zero, suc, ◌+◌, ◌-◌, ◌*◌, ◌/◌, min, Bool, true, false, Option, none, some, List, [], ◌∷◌, ◌++◌,
  Bytes, length, take, replicate, ◌==◌, if◌then◌else◌,
}
use qdl.Io.{Tx, wrote, refused}
use qdl.File.{QdlFile, qdl_file_read_exact}
use qdl.Firehose.{Env, Host, device_write}
use qdl.Firehose.Send.{firehose_vip_send_table, generic_read, init_chunk, update_chunk, store_chunk}

-- `memset` of what a short read leaves of a buffer of `n` bytes
abbrev pub zero_pad : ℕ → Bytes → Bytes
zero_pad n bytes = bytes ++ replicate (n - length bytes) 0

-- Whether the chunks come from the file, or from a buffer that holds a fill pattern.
pub data Source : Type 0 where
  from_file : Source
  filled : Bytes → Source

abbrev pub pad_read : ℕ → Option Bytes → Option Bytes
pad_read n none = none
pad_read n (some bytes) = some (zero_pad n bytes)

-- the bytes of a chunk
unfoldable pub chunk_of : Source → QdlFile → ℕ → Option Bytes × QdlFile
chunk_of from_file file n =
    let (bytes, file') = qdl_file_read_exact file n in (pad_read n bytes, file')
chunk_of (filled buf) file n = (some (take n buf), file)

module _ {G : Type 0} (env : Env G) (source : Source) (sector_size : ℕ) where
  -- `none` is for a loop that is still running.
  abbrev pub Streamed : Type 0
  Streamed = Option (Bool × QdlFile × Host G)

  -- behind `qdl_write` of a chunk of `n` bytes; `next` is the rounds behind it
  sent_chunk : (QdlFile → Host G → Streamed) → ℕ → QdlFile → Tx × Host G → Streamed
  sent_chunk next n file (refused e, h) = some (false, file, (generic_read env 30000 h).1)
  sent_chunk next n file (wrote m, h) =
      if m == n then next file (store_chunk env h) else some (false, file, h)

  -- behind `firehose_vip_send_table`
  send_chunk : (QdlFile → Host G → Streamed) → Bytes → ℕ → QdlFile → Bool × Host G → Streamed
  send_chunk next bytes n file (false, h) = some (false, file, h)
  send_chunk next bytes n file (true, h) = sent_chunk next n file (device_write h bytes)

  -- behind `qdl_file_read_exact`
  read_chunk : (QdlFile → Host G → Streamed) → ℕ → Host G → Option Bytes × QdlFile → Streamed
  read_chunk next n h (none, file) = some (false, file, h)
  read_chunk next n h (some bytes, file) =
      send_chunk next bytes n file (firehose_vip_send_table env (update_chunk env h bytes))

  abbrev pub chunk_sectors : Host G → ℕ → ℕ
  chunk_sectors h left = min (h.max_payload_size / sector_size) left

  -- The loop with `left` sectors to go. A round sends a sector and more when one fits in the payload.
  stream_rounds : ℕ → ℕ → QdlFile → Host G → Streamed
  stream_rounds rounds zero file h = some (true, file, h)
  stream_rounds zero (suc left) file h = none
  stream_rounds (suc rounds) (suc left) file h =
      let chunk_size = chunk_sectors h (suc left) in
      let n = chunk_size * sector_size in
      read_chunk (stream_rounds rounds (suc left - chunk_size)) n (init_chunk env h)
        (chunk_of source file n)

  -- `firehose_stream_out`; the flag is false at the result -1
  unfoldable pub firehose_stream_out : ℕ → QdlFile → Host G → Streamed
  unfolding stream_rounds read_chunk send_chunk sent_chunk chunk_of
  firehose_stream_out num_sectors file h = stream_rounds num_sectors num_sectors file h
