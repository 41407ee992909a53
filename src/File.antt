-- ===== src/File.antt =====
-- src/file.c: a file on the disk or a member of a zip archive, as its bytes and the place in them.
pub mod Exact
use qdl.Base.{
  ℕ, zero, suc, ◌+◌, ◌-◌, min, Bool, true, false, Option, none, some, List, [], ◌∷◌, ◌++◌, Bytes,
  length, take, drop, ltb, ◌==◌, if◌then◌else◌,
}

-- `enum qdl_file_type`
pub data FileType : Type 0 where
  unknown posix zip : FileType

-- `struct qdl_file` with what it stands for. `answers` is what the next calls of `read` or
-- `zip_fread` do: `none` is an error, `some k` is a read that gives at most `k + 1` bytes. Behind the
-- last answer a read gives all it is asked for.
pub record QdlFile : Type 0 where
  pub file_type : FileType
  pub content : Bytes
  pub position : ℕ
  pub answers : List (Option ℕ)

pub qdl_file_getsize : QdlFile → ℕ
qdl_file_getsize file = length file.content

-- the bytes that are not read yet
abbrev pub rest : QdlFile → Bytes
rest file = drop file.position file.content

advance : QdlFile → List (Option ℕ) → ℕ → Option Bytes × QdlFile
advance file answers n =
    let bytes = take n (rest file) in
    (some bytes, record file { position = file.position + length bytes; answers = answers })

-- `read` and `zip_fread` for `len` bytes, with the answers that are left
answer : QdlFile → List (Option ℕ) → ℕ → Option Bytes × QdlFile
answer file [] len = advance file [] len
answer file (none ∷ answers) len = (none, record file { answers = answers })
answer file (some k ∷ answers) len = advance file answers (min len (suc k))

read_as : FileType → QdlFile → ℕ → Option Bytes × QdlFile
read_as unknown file len = (none, file)
read_as _ file len = answer file file.answers len

-- `qdl_file_read`: the bytes, or an error
unfoldable pub qdl_file_read : QdlFile → ℕ → Option Bytes × QdlFile
unfolding read_as answer advance
qdl_file_read file len = read_as file.file_type file len

-- what follows a read in the loop of `qdl_file_read_exact`; `next` is the rounds behind it
collect :
    (Bytes → QdlFile → ℕ → Option Bytes × QdlFile)
    → Bytes
    → ℕ
    → Option Bytes × QdlFile
    → Option Bytes × QdlFile
collect next read_so_far left (none, file) = (none, file)
collect next read_so_far left (some [], file) = (some read_so_far, file)
collect next read_so_far left (some (b ∷ bytes), file) =
    next (read_so_far ++ b ∷ bytes) file (left - length (b ∷ bytes))

-- the loop with `left` bytes wanted
exact_rounds : ℕ → Bytes → QdlFile → ℕ → Option Bytes × QdlFile
unfolding collect
exact_rounds zero read_so_far file left = (some read_so_far, file)
exact_rounds (suc rounds) read_so_far file left =
    let more = collect (exact_rounds rounds) read_so_far left (qdl_file_read file left) in
    if left == 0 then (some read_so_far, file) else more

-- `qdl_file_read_exact`: a round reads a byte or ends the loop, so `len + 1` of them are enough.
unfoldable pub qdl_file_read_exact : QdlFile → ℕ → Option Bytes × QdlFile
unfolding exact_rounds collect qdl_file_read
qdl_file_read_exact file len = exact_rounds (suc len) [] file len

abbrev pub seek_as : FileType → QdlFile → ℕ → Bool × QdlFile
seek_as unknown file offset = (false, file)
seek_as posix file offset = (true, record file { position = offset })
seek_as zip file offset = if offset == 0 then (true, file) else (false, file)

-- `qdl_file_seek` from the start of the file. In an archive only the start is a place to go to, and
-- the call leaves the file where it is.
unfoldable pub qdl_file_seek : QdlFile → ℕ → Bool × QdlFile
qdl_file_seek file offset = seek_as file.file_type file offset
