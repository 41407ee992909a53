-- ===== src/Sahara/Minidump/Keeps.antt =====
-- src/sahara.c: what `sahara_build_minidump_elf` keeps.
use qdl.Base.{
  either, ℕ, zero, suc, ◌+◌, ◌-◌, ◌/◌, min, Bool, true, false, not, ◌||◌, refl, Option, none, some,
  List, [], ◌∷◌, Bytes, length, take, drop, ltb, ◌==◌, codes, replicate,
}
use qdl.Io.{Tx, wrote, refused}
use qdl.Sahara.{Images, le16, le64}
use qdl.Sahara.Dump.{Os, Host, Region, dump_path}
use qdl.Sahara.Filter.{sahara_debug64_filter}
use qdl.Sahara.Invariant.{Kept}
use qdl.Sahara.Minidump.{
  ProgramHeader, headers_of, is_load, is_core, find_kelf, find_vmcore, region_of, fwritten, fwrite,
  go_on, zero_rounds, write_zeroes, copy_rounds, copied, copy_file_to, padded, segment, segments,
  add_vmcore, behind_kelf, write_elf, from_kelf, build, sahara_build_minidump_elf,
}

module _ (os : Os) {images : Images} {path : Option Bytes} {P : Host → Type 0}
    (k : Kept images path P) where
  keep_fwritten : (buf : Bytes) (r : Tx) (h : Host) → P h → P (fwritten os buf r h).1
  keep_fwritten buf (refused e) h p = p
  keep_fwritten buf (wrote n) h p = k.keep_write h (take n buf) p

  keep_fwrite : (buf : Bytes) (h : Host) → P h → P (fwrite os buf h).1
  keep_fwrite buf h p = keep_fwritten buf (os.write h.writes (length buf)) _ (k.keep_count h p)

  keep_go_on :
      {A : Type 0} (next : Host → A × Host) (failed : A) (r : Bool × Host)
      → ((h : Host) → P h → P (next h).1)
      → P r.1
      → P (go_on os next failed r).1
  keep_go_on next failed (true, h) f p = f h p
  keep_go_on next failed (false, h) f p = p

  keep_zero_rounds : (rounds count : ℕ) (h : Host) → P h → P (zero_rounds os rounds count h).1
  keep_zero_rounds zero count h p = p
  keep_zero_rounds (suc rounds) count h p =
      let chunk = min count 4096 in
      either (λ (r : Bool × Host). P r.1) (count == 0) {x = (true, h)} p
        (keep_go_on (zero_rounds os rounds (count - chunk)) false (fwrite os (replicate chunk 0) h)
          (keep_zero_rounds rounds (count - chunk)) (keep_fwrite (replicate chunk 0) h p))

  keep_copy_rounds :
      (rounds : ℕ) (content : Bytes) (written : ℕ) (h : Host)
      → P h
      → P (copy_rounds os rounds content written h).1
  keep_copy_rounds zero content written h p = p
  keep_copy_rounds (suc rounds) [] written h p = p
  keep_copy_rounds (suc rounds) (b ∷ content) written h p =
      let buf = take 65536 (b ∷ content) in
      keep_go_on _ none (fwrite os buf h)
        (keep_copy_rounds rounds (drop 65536 (b ∷ content)) (written + length buf))
        (keep_fwrite buf h p)

  keep_copied : (o : Option Bytes) (h : Host) → P h → P (copied os o h).1
  keep_copied none h p = p
  keep_copied (some content) h p = keep_copy_rounds (length content) content 0 h p

  keep_copy_file : (from : Bytes) (h : Host) → P h → P (copy_file_to os from h).1
  keep_copy_file from h p = keep_copied (os.read_file h.files from) h p

  KeepsNext : (Host → Host) → Type 0
  KeepsNext next = (h : Host) → P h → P (next h)

  keep_padded :
      (next : Host → Host) (filesz : ℕ) (r : Option ℕ × Host)
      → KeepsNext next
      → P r.1
      → P (padded os next filesz r)
  unfolding KeepsNext
  keep_padded next filesz (none, h) f p = f h p
  keep_padded next filesz (some written, h) f p =
      let (ok, h') = write_zeroes os (filesz - written) h in
      let q : P h' = keep_zero_rounds ((filesz - written) / 4096 + 1) (filesz - written) h p in
      either P (ltb written filesz) (either P ok (f h' q) q) (f h p)

  keep_segment :
      (next : Host → Host) (filesz : ℕ) (r : Option Region) (h : Host)
      → KeepsNext next
      → P h
      → P (segment os next path filesz r h)
  unfolding KeepsNext
  keep_segment next filesz none h f p = f h p
  keep_segment next filesz (some r) h f p =
      keep_padded next filesz _ f (keep_copy_file (dump_path path r.filename) h p)

  keep_segments :
      (table : List Region) (headers : List ProgramHeader)
      → KeepsNext (segments os path table headers)
  unfolding KeepsNext
  keep_segments table [] h p = p
  keep_segments table (e ∷ headers) h p =
      either P (is_load e)
        (keep_segment (segments os path table headers) e.p_filesz (region_of e.p_paddr table) h
          (keep_segments table headers) p)
        (keep_segments table headers h p)

  keep_vmcore : (r : Option Region) (h : Host) → P h → P (add_vmcore os path r h)
  keep_vmcore none h p = p
  keep_vmcore (some r) h p = keep_copy_file (dump_path path r.filename) h p

  keep_behind_kelf :
      (next : Host → Host) (r : Bool × Host) → KeepsNext next → P r.1 → P (behind_kelf os next r)
  unfolding KeepsNext
  keep_behind_kelf next (true, h) f p = f h p
  keep_behind_kelf next (false, h) f p = p

  keep_write_elf :
      (kelf : ℕ) (table : List Region) (elf : Bytes) (h : Host)
      → P h
      → P (write_elf os path kelf table elf h)
  unfolding KeepsNext
  keep_write_elf kelf table elf h p =
      let headers = headers_of (le16 elf 56) (drop (le64 elf 32) elf) in
      either P (not (os.open_file (dump_path path (codes "minidump.elf")))) p (
        keep_behind_kelf _ (fwrite os elf _)
          (λ (g : Host) (q : P g).
            keep_segments table headers _ (keep_vmcore (find_vmcore kelf 0 headers table) g q))
          (keep_fwrite elf _ (k.keep_open h (codes "minidump.elf") refl p)))

  keep_from_kelf :
      (kelf : ℕ) (table : List Region) (o : Option Bytes) (h : Host)
      → P h
      → P (from_kelf os path kelf table o h)
  keep_from_kelf kelf table none h p = p
  keep_from_kelf kelf table (some elf) h p =
      either P (length elf == 0 || not (os.malloc (length elf))) p
        (either P (is_core elf) (keep_write_elf kelf table elf h p) p)

  keep_build :
      (filter : Option Bytes) (table : List Region) (o : Option (ℕ × Region)) (h : Host)
      → P h
      → P (build os path filter table o h)
  keep_build filter table none h p = p
  keep_build filter table (some (kelf, r)) h p =
      either P (sahara_debug64_filter r.filename filter) p
        (keep_from_kelf kelf table (os.read_file h.files (dump_path path r.filename)) h p)

  pub keep_minidump :
      (filter : Option Bytes) (table : List Region) (h : Host)
      → P h
      → P (sahara_build_minidump_elf os path filter table h)
  unfolding sahara_build_minidump_elf
  keep_minidump filter table h p = keep_build filter table (find_kelf 0 table) h p
