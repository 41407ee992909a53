-- ===== src/Sahara/Dump.antt =====
-- src/sahara.c: what the memory dump and the minidump share: the operating system, the files and the
-- table of regions.
use qdl.Base.{
  ℕ, zero, suc, Bool, false, ◌||◌, Option, none, some, List, [], ◌∷◌, ◌++◌, Bytes, length, take,
  drop, ◌==◌, if◌then◌else◌,
}
use qdl.Io.{Tx}
use qdl.Sahara.{Wire, le64}

-- The operating system: whether an allocation of a size and an `open` of a path for writing succeed,
-- what the `n`-th `write` or `fwrite` returns for a number of bytes, and what a file holds that is opened
-- for reading once these files were written.
pub record Os : Type 0 where
  pub malloc : ℕ → Bool
  pub open_file : Bytes → Bool
  pub write : ℕ → ℕ → Tx
  pub read_file : List (Bytes × Bytes) → Bytes → Option Bytes

-- The device and the files: the path and the content of each that was opened for writing, the last one
-- first.
pub record Host : Type 0 where
  pub wire : Wire
  pub files : List (Bytes × Bytes)
  pub writes : ℕ

-- `struct sahara_debug_region64`, of which the dump uses these fields
pub record Region : Type 0 where
  pub addr : ℕ
  pub size : ℕ
  pub region : Bytes
  pub filename : Bytes

-- the string in a buffer, up to its NUL
abbrev pub c_string : Bytes → Bytes
c_string [] = []
c_string (c ∷ buf) = if c == 0 then [] else c ∷ c_string buf

-- The last bytes of `region` and `filename` are set to NUL before any use.
abbrev pub region_at : Bytes → Region
region_at entry = record {
  addr = le64 entry 8;
  size = le64 entry 16;
  region = c_string (take 19 (drop 24 entry));
  filename = c_string (take 19 (drop 44 entry));
}

abbrev pub regions_of : ℕ → Bytes → List Region
regions_of zero table = []
regions_of (suc n) table = region_at (take 64 table) ∷ regions_of n (drop 64 table)

-- `strpbrk(filename, "/\\")`
abbrev pub has_separator : Bytes → Bool
has_separator [] = false
has_separator (c ∷ name) = c == 47 || c == 92 || has_separator name

abbrev pub unsafe_name : Bytes → Bool
unsafe_name name = length name == 0 || has_separator name

-- what `%s` makes of the directory; for a null pointer this is glibc's choice
abbrev pub directory : Option Bytes → Bytes
directory none = 40 ∷ 110 ∷ 117 ∷ 108 ∷ 108 ∷ 41 ∷ []
directory (some path) = path

-- `snprintf(path, sizeof(path), "%s/%s", ramdump_path, region.filename)`
abbrev pub dump_path : Option Bytes → Bytes → Bytes
dump_path ramdump_path filename = take 4095 (directory ramdump_path ++ 47 ∷ filename)

-- a write at the end of the file opened last
abbrev pub extend_last : Bytes → List (Bytes × Bytes) → List (Bytes × Bytes)
extend_last buf [] = []
extend_last buf ((path, content) ∷ files) = (path, content ++ buf) ∷ files
