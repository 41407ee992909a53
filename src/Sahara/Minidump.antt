-- ===== src/Sahara/Minidump.antt =====
-- src/sahara.c: the minidump ELF file that `sahara_build_minidump_elf` makes from the files of a dump.
pub mod Keeps
use qdl.Base.{
  ℕ, zero, suc, ◌+◌, ◌-◌, ◌*◌, ◌/◌, min, Bool, true, false, not, ◌&&◌, ◌||◌, Option, none, some,
  List, [], ◌∷◌, Bytes, length, take, drop, ltb, ◌==◌, if◌then◌else◌, starts_with, codes, replicate,
}
use qdl.Io.{Tx, wrote, refused}
use qdl.Sahara.{le16, le32, le64}
use qdl.Sahara.Dump.{Os, Host, Region, dump_path, extend_last}
use qdl.Sahara.Filter.{sahara_debug64_filter}

-- `Elf64_Phdr`, of which these fields are used
pub record ProgramHeader : Type 0 where
  pub p_type : ℕ
  pub p_paddr : ℕ
  pub p_filesz : ℕ

abbrev pub header_at : Bytes → ProgramHeader
header_at bytes = record {
  p_type = le32 bytes 0;
  p_paddr = le64 bytes 24;
  p_filesz = le64 bytes 32;
}

abbrev pub headers_of : ℕ → Bytes → List ProgramHeader
headers_of zero bytes = []
headers_of (suc n) bytes = header_at bytes ∷ headers_of n (drop 56 bytes)

-- `p_type == PT_LOAD`
abbrev pub is_load : ProgramHeader → Bool
is_load p = p.p_type == 1

-- The tests of the ELF header: the magic, ET_CORE, and program headers that lie in the file.
abbrev pub is_core : Bytes → Bool
is_core elf =
    not (ltb (length elf) 64)
    && (starts_with (127 ∷ codes "ELF") elf
        && (le16 elf 16 == 4
            && (le16 elf 54 == 56
                && (not (ltb (length elf) (le64 elf 32))
                    && not (ltb (length elf - le64 elf 32) (le16 elf 56 * 56))))))

-- the region with the ELF header, and its index
abbrev pub find_kelf : ℕ → List Region → Option (ℕ × Region)
find_kelf i [] = none
find_kelf i (r ∷ table) =
    let more = find_kelf (i + 1) table in
    if starts_with (codes "md_KELF") r.region then some (i, r) else more

abbrev pub is_loaded : ℕ → List ProgramHeader → Bool
is_loaded addr [] = false
is_loaded addr (p ∷ headers) = (is_load p && p.p_paddr == addr) || is_loaded addr headers

-- the first kernel region but the header's that no program header names
abbrev pub find_vmcore : ℕ → ℕ → List ProgramHeader → List Region → Option Region
find_vmcore kelf i headers [] = none
find_vmcore kelf i headers (r ∷ table) =
    let more = find_vmcore kelf (i + 1) headers table in
    if i == kelf || not (starts_with (codes "md_K") r.region)
    then more
    else if is_loaded r.addr headers
    then more
    else some r

abbrev pub region_of : ℕ → List Region → Option Region
region_of addr [] = none
region_of addr (r ∷ table) =
    let more = region_of addr table in if r.addr == addr then some r else more

module _ (os : Os) where
  open os use {malloc, open_file, write, read_file}

  abbrev pub fwritten : Bytes → Tx → Host → Bool × Host
  fwritten buf (refused e) h = (false, h)
  fwritten buf (wrote n) h =
      (n == length buf, record h { files = extend_last (take n buf) h.files })

  -- `fwrite` to the file opened last, and whether it wrote all
  abbrev pub fwrite : Bytes → Host → Bool × Host
  fwrite buf h = fwritten buf (write h.writes (length buf)) (record h { writes = h.writes + 1 })

  abbrev pub go_on : {A : Type 0} → (Host → A × Host) → A → Bool × Host → A × Host
  go_on next failed (true, h) = next h
  go_on next failed (false, h) = (failed, h)

  -- the loop of `write_zeroes`, with a round for each piece
  abbrev pub zero_rounds : ℕ → ℕ → Host → Bool × Host
  zero_rounds zero count h = (true, h)
  zero_rounds (suc rounds) count h =
      let chunk = min count 4096 in
      let more = go_on (zero_rounds rounds (count - chunk)) false (fwrite (replicate chunk 0) h) in
      if count == 0 then (true, h) else more

  abbrev pub write_zeroes : ℕ → Host → Bool × Host
  write_zeroes count h = zero_rounds (count / 4096 + 1) count h

  -- the loop of `copy_file_to`; `none` is -1
  abbrev pub copy_rounds : ℕ → Bytes → ℕ → Host → Option ℕ × Host
  copy_rounds zero content written h = (some written, h)
  copy_rounds (suc rounds) [] written h = (some written, h)
  copy_rounds (suc rounds) (b ∷ content) written h =
      let buf = take 65536 (b ∷ content) in
      go_on (copy_rounds rounds (drop 65536 (b ∷ content)) (written + length buf)) none
        (fwrite buf h)

  abbrev pub copied : Option Bytes → Host → Option ℕ × Host
  copied none h = (none, h)
  copied (some content) h = copy_rounds (length content) content 0 h

  abbrev pub copy_file_to : Bytes → Host → Option ℕ × Host
  copy_file_to path h = copied (read_file h.files path) h

  -- behind the copy of a segment: it is filled with zeros, and the next ones follow
  abbrev pub padded : (Host → Host) → ℕ → Option ℕ × Host → Host
  padded next filesz (none, h) = next h
  padded next filesz (some written, h) =
      let (ok, h') = write_zeroes (filesz - written) h in
      let rest = next h' in if ltb written filesz then (if ok then rest else h') else next h

  abbrev pub segment : (Host → Host) → Option Bytes → ℕ → Option Region → Host → Host
  segment next ramdump_path filesz none h = next h
  segment next ramdump_path filesz (some r) h =
      padded next filesz (copy_file_to (dump_path ramdump_path r.filename) h)

  -- the loop over the program headers
  abbrev pub segments : Option Bytes → List Region → List ProgramHeader → Host → Host
  segments ramdump_path table [] h = h
  segments ramdump_path table (p ∷ headers) h =
      let next = segments ramdump_path table headers in
      let loaded = segment next ramdump_path p.p_filesz (region_of p.p_paddr table) h in
      if is_load p then loaded else next h

  -- A missing vmcoreinfo is only reported.
  abbrev pub add_vmcore : Option Bytes → Option Region → Host → Host
  add_vmcore ramdump_path none h = h
  add_vmcore ramdump_path (some r) h = (copy_file_to (dump_path ramdump_path r.filename) h).1

  -- behind the write of the ELF header's region
  abbrev pub behind_kelf : (Host → Host) → Bool × Host → Host
  behind_kelf next (true, h) = next h
  behind_kelf next (false, h) = h

  abbrev pub write_elf : Option Bytes → ℕ → List Region → Bytes → Host → Host
  write_elf ramdump_path kelf table elf h =
      let headers = headers_of (le16 elf 56) (drop (le64 elf 32) elf) in
      let out_path = dump_path ramdump_path (codes "minidump.elf") in
      if not (open_file out_path)
      then h
      else behind_kelf
          (λ g.
            segments ramdump_path table headers
              (add_vmcore ramdump_path (find_vmcore kelf 0 headers table) g))
          (fwrite elf (record h { files = (out_path, []) ∷ h.files }))

  abbrev pub from_kelf : Option Bytes → ℕ → List Region → Option Bytes → Host → Host
  from_kelf ramdump_path kelf table none h = h
  from_kelf ramdump_path kelf table (some elf) h =
      if length elf == 0 || not (malloc (length elf))
      then h
      else if is_core elf
      then write_elf ramdump_path kelf table elf h
      else h

  abbrev pub build : Option Bytes → Option Bytes → List Region → Option (ℕ × Region) → Host → Host
  build ramdump_path filter table none h = h
  build ramdump_path filter table (some (kelf, r)) h =
      if sahara_debug64_filter r.filename filter
      then h
      else from_kelf ramdump_path kelf table (read_file h.files (dump_path ramdump_path r.filename))
          h

  -- `sahara_build_minidump_elf`. A file that opens for reading gives all of its bytes.
  unfoldable pub sahara_build_minidump_elf : Option Bytes → Option Bytes → List Region → Host → Host
  sahara_build_minidump_elf ramdump_path filter table h =
      build ramdump_path filter table (find_kelf 0 table) h
