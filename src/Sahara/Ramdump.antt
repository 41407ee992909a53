-- ===== src/Sahara/Ramdump.antt =====
-- src/sahara.c: the memory dump of `sahara_debug64`.
pub mod Keeps
pub mod Complete
use qdl.Base.{
  ℕ, zero, suc, ◌+◌, ◌-◌, ◌*◌, ◌/◌, ◌%◌, ◌^◌, min, Bool, true, false, not, ◌||◌, Option, none, some,
  List, [], ◌∷◌, ◌++◌, Bytes, length, take, drop, ltb, ◌==◌, if◌then◌else◌,
}
use qdl.Io.{Rx, got, failed, Tx, wrote, refused}
use qdl.Sahara.{Wire, send, receive, le64, put32, put64}
use qdl.Sahara.Minidump.{sahara_build_minidump_elf}
pub use qdl.Sahara.Dump.{
  Os, Host, Region, c_string, region_at, regions_of, has_separator, unsafe_name, directory,
  dump_path, extend_last,
}
use qdl.Sahara.Pkt
use qdl.Sahara.Cmd
use qdl.Sahara.Length
use qdl.Sahara.Filter.{sahara_debug64_filter}
use qdl.Sahara.Handlers.{sahara_send_reset}

abbrev pub debug_block_size : ℕ
debug_block_size = 524288

abbrev pub mem_read64_packet : ℕ → ℕ → Bytes
mem_read64_packet addr len =
    put32 Cmd.mem_read64 ++ put32 Length.mem_read64 ++ put64 addr ++ put64 len

abbrev pub on_success : (Host → Bool × Host) → Bool × Host → Bool × Host
on_success next (true, h) = next h
on_success next (false, h) = (false, h)

module _ (os : Os) where
  open os use {malloc, open_file, write}

  -- behind one `write` of the rest `buf` of a chunk
  abbrev pub after_write : (Bytes → Host → Bool × Host) → Bytes → Tx → Host → Bool × Host
  after_write next buf (refused e) h = (false, h)
  after_write next buf (wrote zero) h = (false, h)
  after_write next buf (wrote n) h =
      next (drop n buf) (record h { files = extend_last (take n buf) h.files })

  -- the loop that writes one chunk; each round writes a byte at least
  pub write_chunk : ℕ → Bytes → Host → Bool × Host
  write_chunk rounds [] h = (true, h)
  write_chunk zero buf h = (false, h)
  write_chunk (suc rounds) buf h =
      after_write (write_chunk rounds) buf (write h.writes (length buf))
        (record h { writes = h.writes + 1 })

  abbrev pub after_read : (ℕ → Host → Bool × Host) → ℕ → Rx → Host → Bool × Host
  after_read next offset (failed e) h = (false, h)
  after_read next offset (got buf) h =
      on_success (next (offset + length buf)) (write_chunk (length buf) buf h)

  -- the loop that reads the `remain` bytes of a request; each round is a read
  pub read_block : ℕ → ℕ → ℕ → Host → Bool × Host
  read_block zero remain offset h = (not (ltb offset remain), h)
  read_block (suc rounds) remain offset h =
      let (r, w) = receive h.wire debug_block_size in
      let rest = after_read (read_block rounds remain) offset r (record h { wire = w }) in
      if ltb offset remain then rest else (true, h)

  -- the read that takes what is left over
  abbrev pub discard : Host → Host
  discard h = record h { wire = (receive h.wire debug_block_size).1 }

  abbrev pub after_request : (Host → Bool × Host) → ℕ → Tx → Host → Bool × Host
  after_request next remain (refused e) h = (false, h)
  after_request next remain (wrote n) h =
      on_success (λ h. next (discard h)) (read_block (length h.wire.rx + 1) remain 0 h)

  -- the loop over the blocks of a region; each round is a read at least
  pub dump_blocks : ℕ → Region → ℕ → Host → Bool × Host
  dump_blocks zero region chunk h = (not (ltb chunk region.size), h)
  dump_blocks (suc rounds) region chunk h =
      let remain = min (region.size - chunk) debug_block_size in
      let (a, w) = send h.wire (mem_read64_packet ((region.addr + chunk) % 2 ^ 64) remain) in
      let rest =
        after_request (dump_blocks rounds region ((chunk + debug_block_size) % 2 ^ 64)) remain a
          (record h { wire = w }) in
      if ltb chunk region.size then rest else (true, h)

  -- `sahara_debug64_one`
  unfoldable pub sahara_debug64_one : Region → Option Bytes → Host → Bool × Host
  unfolding dump_blocks read_block write_chunk
  sahara_debug64_one region ramdump_path h =
      let path = dump_path ramdump_path region.filename in
      if not (malloc debug_block_size)
      then (false, h)
      else if unsafe_name region.filename
      then (false, h)
      else if not (open_file path)
      then (false, h)
      else dump_blocks (length h.wire.rx + 1) region 0 (record h { files = (path, []) ∷ h.files })

  abbrev pub keep_going : (Host → Host) → Bool × Host → Host
  keep_going next (true, h) = next h
  keep_going next (false, h) = h

  -- the loop over the regions
  pub dump_regions : List Region → Option Bytes → Option Bytes → Host → Host
  unfolding sahara_debug64_one sahara_debug64_filter
  dump_regions [] ramdump_path filter h = h
  dump_regions (region ∷ regions) ramdump_path filter h =
      if sahara_debug64_filter region.filename filter
      then dump_regions regions ramdump_path filter h
      else keep_going (dump_regions regions ramdump_path filter)
          (sahara_debug64_one region ramdump_path h)

  -- behind the read of the table
  abbrev pub dump_table : Option Bytes → Option Bytes → Rx → Host → Host
  dump_table ramdump_path filter (failed e) h = h
  dump_table ramdump_path filter (got table) h =
      let regions = regions_of (length table / 64) table in
      let dumped = dump_regions regions ramdump_path filter h in
      let built = sahara_build_minidump_elf os ramdump_path filter regions dumped in
      record built { wire = sahara_send_reset built.wire }

  abbrev pub request_table : Option Bytes → Option Bytes → ℕ → Tx → Host → Host
  request_table ramdump_path filter len (refused e) h = h
  request_table ramdump_path filter len (wrote n) h =
      let (r, w) = receive h.wire len in
      if ltb 65536 len
      then h
      else if not (malloc len)
      then h
      else dump_table ramdump_path filter r (record h { wire = w })

  -- `sahara_debug64`
  unfoldable pub sahara_debug64 : Bytes → Option Bytes → Option Bytes → Host → Host
  unfolding dump_regions sahara_send_reset
  sahara_debug64 pkt ramdump_path filter h =
      let addr = Pkt.quad pkt 0 in
      let len = Pkt.quad pkt 1 in
      let (a, w) = send h.wire (mem_read64_packet addr len) in
      if not (Pkt.len pkt == Length.mem_debug64)
      then record h { wire = sahara_send_reset h.wire }
      else request_table ramdump_path filter len a (record h { wire = w })
