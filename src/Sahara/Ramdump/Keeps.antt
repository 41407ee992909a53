-- ===== src/Sahara/Ramdump/Keeps.antt =====
-- src/sahara.c: what the memory dump keeps.
use qdl.Base.{
  either, ℕ, zero, suc, ◌+◌, ◌-◌, ◌/◌, ◌%◌, ◌^◌, min, Bool, true, false, not, Option, List, [], ◌∷◌,
  Bytes, length, take, ltb, ◌==◌, inl, inr, Bool-cases, ◌≡◌, if◌then◌else◌,
}
use qdl.Io.{Rx, got, failed, Tx, wrote, refused}
use qdl.Sahara.{send, receive, Images}
use qdl.Sahara.Pkt
use qdl.Sahara.Length
use qdl.Sahara.Invariant.{Kept, a_mem_read64, keep_reset}
use qdl.Sahara.Minidump.Keeps.{keep_minidump}
use qdl.Sahara.Filter.{sahara_debug64_filter}
use qdl.Sahara.Ramdump.{
  Os, Host, Region, debug_block_size, mem_read64_packet, unsafe_name, dump_path, on_success,
  after_write, write_chunk, after_read, read_block, after_request, dump_blocks, sahara_debug64_one,
  keep_going, dump_regions, dump_table, request_table, sahara_debug64, regions_of,
}

module _ (os : Os) {images : Images} {path : Option Bytes} {P : Host → Type 0}
    (k : Kept images path P) where
  keep_on_success :
      (next : Host → Bool × Host)
      → ((h : Host) → P h → P (next h).1)
      → (r : Bool × Host) → P r.1
      → P (on_success next r).1
  keep_on_success next f (true, h) p = f h p
  keep_on_success next f (false, h) p = p

  keep_after_write :
      (next : Bytes → Host → Bool × Host)
      → ((b : Bytes) (h : Host) → P h → P (next b h).1)
      → (buf : Bytes) (r : Tx) (h : Host) → P h
      → P (after_write os next buf r h).1
  keep_after_write next f buf (refused e) h p = p
  keep_after_write next f buf (wrote zero) h p = p
  keep_after_write next f buf (wrote (suc n)) h p = f _ _ (k.keep_write h (take (suc n) buf) p)

  keep_write_chunk : (rounds : ℕ) (buf : Bytes) (h : Host) → P h → P (write_chunk os rounds buf h).1
  unfolding write_chunk
  keep_write_chunk rounds [] h p = p
  keep_write_chunk zero (b ∷ buf) h p = p
  keep_write_chunk (suc rounds) (b ∷ buf) h p =
      keep_after_write (write_chunk os rounds) (keep_write_chunk rounds) (b ∷ buf)
        (os.write h.writes (length (b ∷ buf))) _ (k.keep_count h p)

  keep_after_read :
      (next : ℕ → Host → Bool × Host)
      → ((n : ℕ) (h : Host) → P h → P (next n h).1)
      → (offset : ℕ) (r : Rx) (h : Host) → P h
      → P (after_read os next offset r h).1
  keep_after_read next f offset (failed e) h p = p
  keep_after_read next f offset (got buf) h p =
      keep_on_success _ (f (offset + length buf)) _ (keep_write_chunk (length buf) buf h p)

  keep_read_block :
      (rounds remain offset : ℕ) (h : Host) → P h → P (read_block os rounds remain offset h).1
  unfolding read_block
  keep_read_block zero remain offset h p = p
  keep_read_block (suc rounds) remain offset h p =
      either (λ (r : Bool × Host). P r.1) (ltb offset remain)
        (keep_after_read (read_block os rounds remain) (keep_read_block rounds remain) offset
          (receive h.wire debug_block_size).0 _ (k.keep_receive h debug_block_size p))
        p

  keep_after_request :
      (next : Host → Bool × Host)
      → ((h : Host) → P h → P (next h).1)
      → (remain : ℕ) (a : Tx) (h : Host) → P h
      → P (after_request os next remain a h).1
  keep_after_request next f remain (refused e) h p = p
  keep_after_request next f remain (wrote n) h p =
      keep_on_success _ (λ g q. f _ (k.keep_receive g debug_block_size q)) _
        (keep_read_block (length h.wire.rx + 1) remain 0 h p)

  keep_dump_blocks :
      (rounds : ℕ) (region : Region) (chunk : ℕ) (h : Host)
      → P h
      → P (dump_blocks os rounds region chunk h).1
  unfolding dump_blocks
  keep_dump_blocks zero region chunk h p = p
  keep_dump_blocks (suc rounds) region chunk h p =
      either (λ (r : Bool × Host). P r.1) (ltb chunk region.size)
        (keep_after_request (dump_blocks os rounds region ((chunk + debug_block_size) % 2 ^ 64))
          (keep_dump_blocks rounds region _) (min (region.size - chunk) debug_block_size)
          (send h.wire (
            mem_read64_packet ((region.addr + chunk) % 2 ^ 64)
              (min (region.size - chunk) debug_block_size))).0
          _
          (k.keep_send h _
            (a_mem_read64 ((region.addr + chunk) % 2 ^ 64)
              (min (region.size - chunk) debug_block_size))
            p))
        p

  -- the end of `sahara_debug64_one`, for a name that passed the test
  keep_open_dump :
      (region : Region) (h : Host)
      → unsafe_name region.filename ≡ false
      → P h
      → P
          (if not (os.open_file (dump_path path region.filename))
            then (false, h)
            else dump_blocks os
                (length h.wire.rx + 1)
                region
                0
                (record h { files = (dump_path path region.filename, []) ∷ h.files })).1
  keep_open_dump region h b p =
      either (λ (r : Bool × Host). P r.1) (not (os.open_file (dump_path path region.filename)))
        {x = (false, h)} p
        (keep_dump_blocks (length h.wire.rx + 1) region 0 _ (k.keep_open h region.filename b p))

  keep_debug64_one : (region : Region) (h : Host) → P h → P (sahara_debug64_one os region path h).1
  unfolding sahara_debug64_one
  keep_debug64_one region h p = elim (Bool-cases (os.malloc debug_block_size)) [
    | inl m ↦ elim (Bool-cases (unsafe_name region.filename)) [
      | inl b ↦ rw (m, b) p
      | inr b ↦ rw (m, b) (keep_open_dump region h b p)
    ]
    | inr m ↦ rw (m) p
  ]

  keep_keep_going :
      (next : Host → Host)
      → ((h : Host) → P h → P (next h))
      → (r : Bool × Host) → P r.1
      → P (keep_going os next r)
  keep_keep_going next f (true, h) p = f h p
  keep_keep_going next f (false, h) p = p

  keep_dump_regions :
      (regions : List Region) (filter : Option Bytes) (h : Host)
      → P h
      → P (dump_regions os regions path filter h)
  unfolding dump_regions
  keep_dump_regions [] filter h p = p
  keep_dump_regions (region ∷ regions) filter h p =
      either P (sahara_debug64_filter region.filename filter) (keep_dump_regions regions filter h p)
        (keep_keep_going _ (keep_dump_regions regions filter) _ (keep_debug64_one region h p))

  keep_dump_table :
      (filter : Option Bytes) (r : Rx) (h : Host) → P h → P (dump_table os path filter r h)
  keep_dump_table filter (failed e) h p = p
  keep_dump_table filter (got table) h p =
      let regions = regions_of (length table / 64) table in
      keep_reset k _ (keep_minidump os k filter regions _ (keep_dump_regions regions filter h p))

  keep_request_table :
      (filter : Option Bytes) (len : ℕ) (a : Tx) (h : Host)
      → P h
      → P (request_table os path filter len a h)
  keep_request_table filter len (refused e) h p = p
  keep_request_table filter len (wrote n) h p =
      either P (ltb 65536 len) p
        (either P (not (os.malloc len)) p (keep_dump_table filter _ _ (k.keep_receive h len p)))

  pub keep_debug64 :
      (pkt : Bytes) (filter : Option Bytes) (h : Host)
      → P h
      → P (sahara_debug64 os pkt path filter h)
  unfolding sahara_debug64
  keep_debug64 pkt filter h p =
      either P (not (Pkt.len pkt == Length.mem_debug64)) (keep_reset k h p) (
        keep_request_table filter (Pkt.quad pkt 1)
          (send h.wire (mem_read64_packet (Pkt.quad pkt 0) (Pkt.quad pkt 1))).0 _
          (k.keep_send h _ (a_mem_read64 (Pkt.quad pkt 0) (Pkt.quad pkt 1)) p))
