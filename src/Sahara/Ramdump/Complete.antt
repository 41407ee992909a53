-- ===== src/Sahara/Ramdump/Complete.antt =====
-- src/sahara.c: a dump that succeeds is complete.
use qdl.Base.{
  either, ℕ, zero, suc, ◌+◌, ◌-◌, ◌%◌, ◌^◌, ◌≤◌, ◌<◌, min, Bool, true, false, not, Option, List, [],
  ◌∷◌, ◌++◌, Bytes, length, length-append, length-take, length-drop, take, drop, ltb, inl, inr,
  Bool-cases, ◌≡◌, refl, ap, subst, arith,
}
use qdl.Io.{Rx, got, failed, Tx, wrote, refused}
use qdl.Sahara.Ramdump.{
  Os, Host, Region, debug_block_size, unsafe_name, dump_path, extend_last, on_success, after_write,
  write_chunk, after_read, read_block, discard, after_request, dump_blocks, sahara_debug64_one,
}

-- The file opened last is at the path and has at least `n` bytes.
pub record Holds (path : Bytes) (n : ℕ) (files : List (Bytes × Bytes)) : Type 0 where
  pub content : Bytes
  pub others : List (Bytes × Bytes)
  pub is_last : files ≡ (path, content) ∷ others
  pub enough : n ≤ length content

module _ (os : Os) (path : Bytes) where
  -- what a step that succeeds leaves
  After : ℕ → Bool × Host → Type 0
  After n (true, h) = Holds path n h.files
  After n (false, h) = Unit

  fewer : (m n : ℕ) (files : List (Bytes × Bytes)) → Holds path n files → m ≤ n → Holds path m files
  fewer m n files k l = record {
    content = k.content;
    others = k.others;
    is_last = k.is_last;
    enough = omega (arith, k.enough);
  }

  extended :
      (n : ℕ) (files : List (Bytes × Bytes)) (buf : Bytes)
      → Holds path n files
      → Holds path (n + length buf) (extend_last buf files)
  extended n files buf k = record {
    content = k.content ++ buf;
    others = k.others;
    is_last = ap (extend_last buf) k.is_last;
    enough = omega (arith, k.enough, length-append {0} k.content buf);
  }

  on_success-After :
      (m n : ℕ) (next : Host → Bool × Host)
      → ((h : Host) → Holds path m h.files → After n (next h))
      → (r : Bool × Host) → After m r
      → After n (on_success next r)
  unfolding After
  on_success-After m n next f (true, h) k = f h k
  on_success-After m n next f (false, h) k = tt

  after_write-After :
      (n m : ℕ) (next : Bytes → Host → Bool × Host) (b : ℕ) (buf : Bytes)
      → ((bs : Bytes) (k : ℕ) (g : Host)
          → Holds path k g.files
          → m ≤ k + length bs
          → After m (next bs g))
      → (r : Tx) (h : Host) → Holds path n h.files
      → m ≤ n + length (b ∷ buf)
      → After m (after_write os next (b ∷ buf) r h)
  unfolding After
  after_write-After n m next b buf f (refused e) h k l = tt
  after_write-After n m next b buf f (wrote zero) h k l = tt
  after_write-After n m next b buf f (wrote (suc j)) h k l =
      f (drop j buf) (n + length (b ∷ take j buf)) _ (extended n h.files (b ∷ take j buf) k)
        (omega (arith, length-take {0} j buf, length-drop {0} j buf))

  write_chunk-After :
      (rounds : ℕ) (buf : Bytes) (n m : ℕ) (h : Host)
      → Holds path n h.files
      → m ≤ n + length buf
      → After m (write_chunk os rounds buf h)
  unfolding After write_chunk
  write_chunk-After rounds [] n m h k l = fewer m n h.files k (omega arith)
  write_chunk-After zero (b ∷ buf) n m h k l = tt
  write_chunk-After (suc rounds) (b ∷ buf) n m h k l =
      after_write-After n m (write_chunk os rounds) b buf
        (λ bs i g q e. write_chunk-After rounds bs i m g q e) (os.write h.writes (length (b ∷ buf)))
        (record h { writes = h.writes + 1 }) k l

  finished : (b : Bool) (n : ℕ) (h : Host) → (b ≡ true → Holds path n h.files) → After n (b, h)
  unfolding After
  finished true n h f = f refl
  finished false n h f = tt

  past_end : (a b : ℕ) → not (ltb a b) ≡ true → b ≤ a
  past_end a b h = ground arith

  below_end : (a b : ℕ) → ltb a b ≡ true → a < b
  below_end a b h = ground arith

  after_read-After :
      (n m offset : ℕ) (next : ℕ → Host → Bool × Host)
      → ((o : ℕ) (g : Host) → Holds path (n + o) g.files → After m (next o g))
      → (r : Rx) (h : Host) → Holds path (n + offset) h.files
      → After m (after_read os next offset r h)
  unfolding After
  after_read-After n m offset next f (failed e) h k = tt
  after_read-After n m offset next f (got buf) h k =
      on_success-After (n + (offset + length buf)) m (next (offset + length buf))
        (f (offset + length buf)) _
        (write_chunk-After (length buf) buf (n + offset) (n + (offset + length buf)) h k
          (omega arith))

  read_block-After :
      (rounds remain offset n : ℕ) (h : Host)
      → Holds path (n + offset) h.files
      → After (n + remain) (read_block os rounds remain offset h)
  unfolding read_block
  read_block-After zero remain offset n h k =
      finished _ (n + remain) h
        (λ e. fewer (n + remain) (n + offset) h.files k (omega (arith, past_end offset remain e)))
  read_block-After (suc rounds) remain offset n h k = elim (Bool-cases (ltb offset remain)) [
    | inl b ↦ rw (b) (
        after_read-After n (n + remain) offset (read_block os rounds remain)
          (λ o g q. read_block-After rounds remain o n g q) _ _ k)
    | inr b ↦ rw (b) (
        finished true (n + remain) h
          (λ e. fewer (n + remain) (n + offset) h.files k (ground arith)))
  ]

  after_request-After :
      (n m remain : ℕ) (next : Host → Bool × Host)
      → ((g : Host) → Holds path (n + remain) g.files → After m (next g))
      → (a : Tx) (h : Host) → Holds path n h.files
      → After m (after_request os next remain a h)
  unfolding After
  after_request-After n m remain next f (refused e) h k = tt
  after_request-After n m remain next f (wrote j) h k =
      on_success-After (n + remain) m _ (λ g q. f (discard os g) q) _
        (read_block-After (length h.wire.rx + 1) remain 0 n h
          (fewer (n + 0) n h.files k (omega arith)))

  next_chunk :
      (chunk size : ℕ)
      → size + 524288 ≤ 18446744073709551616
      → chunk < size
      → min ((chunk + 524288) % 2 ^ 64) size ≤ min chunk size + min (size - chunk) 524288
  next_chunk chunk size h l = omega arith

  dump_blocks-After :
      (rounds : ℕ) (region : Region) (chunk : ℕ) (h : Host)
      → region.size + 524288 ≤ 18446744073709551616
      → Holds path (min chunk region.size) h.files
      → After region.size (dump_blocks os rounds region chunk h)
  unfolding dump_blocks
  dump_blocks-After zero region chunk h w k = finished _ region.size h (λ e.
      fewer region.size (min chunk region.size) h.files k
        (omega (arith, past_end chunk region.size e)))
  dump_blocks-After (suc rounds) region chunk h w k = elim (Bool-cases (ltb chunk region.size)) [
    | inl b ↦ rw (b) (
        after_request-After (min chunk region.size) region.size
          (min (region.size - chunk) debug_block_size) _
          (λ g q.
            dump_blocks-After rounds region ((chunk + debug_block_size) % 2 ^ 64) g w (
              fewer _ _ g.files q (next_chunk chunk region.size w (below_end chunk region.size b))))
          _ _ k)
    | inr b ↦ rw (b) (
        finished true region.size h
          (λ e. fewer region.size (min chunk region.size) h.files k (ground arith)))
  ]

debug64_one-After :
    (os : Os) (region : Region) (ramdump_path : Option Bytes) (h : Host)
    → region.size + 524288 ≤ 18446744073709551616
    → After os
        (dump_path ramdump_path region.filename)
        region.size
        (sahara_debug64_one os region ramdump_path h)
unfolding sahara_debug64_one
debug64_one-After os region ramdump_path h w =
    let path = dump_path ramdump_path region.filename in
    let Q : Bool × Host → Type 0 = After os path region.size in
    let no : Q (false, h) = finished os path false region.size h (λ e. absurd cc) in
    let opened : Holds path (min 0 region.size) ((path, []) ∷ h.files) = record {
      content = [];
      others = h.files;
      is_last = refl;
      enough = omega arith;
    } in
    either Q (not (os.malloc debug_block_size)) no (
      either Q (unsafe_name region.filename) no (
        either Q (not (os.open_file path)) no (
          dump_blocks-After os path (length h.wire.rx + 1) region 0
            (record h { files = (path, []) ∷ h.files }) w opened)))

-- When `sahara_debug64_one` succeeds, the file opened last is the region's, below the dump's
-- directory, and it has at least as many bytes as the region, whose size is not within a block of
-- `2 ^ 64`.
pub sahara_debug64_one-Holds :
    (os : Os) (region : Region) (ramdump_path : Option Bytes) (h g : Host)
    → region.size + 524288 ≤ 18446744073709551616
    → sahara_debug64_one os region ramdump_path h ≡ (true, g)
    → Holds (dump_path ramdump_path region.filename) region.size g.files
unfolding After
sahara_debug64_one-Holds os region ramdump_path h g w ran =
    subst (After os (dump_path ramdump_path region.filename) region.size) ran
      (debug64_one-After os region ramdump_path h w)
