-- ===== src/Pathbuf.antt =====
-- src/pathbuf.c, as it is compiled for POSIX systems.
pub mod Text
pub mod Join
mod Tests
use qdl.Base.{
  ℕ, zero, suc, ◌+◌, ◌-◌, Bool, true, false, ◌&&◌, not, [], ◌∷◌, ◌++◌, Bytes, length, take, drop,
  get_or, ltb, ◌==◌, if◌then◌else◌,
}

abbrev pub path_max : ℕ
path_max = 4096

-- `struct pathbuf`: the whole array, and the length
pub record Pathbuf : Type 0 where
  pub buf : Bytes
  pub len : ℕ

pub data Result : Type 0 where
  pushed too_long : Result

abbrev pub qdl_path_is_sep : ℕ → Bool
qdl_path_is_sep c = c == b'/'

abbrev pub path_is_absolute : Bytes → Bool
path_is_absolute [] = false
path_is_absolute (c ∷ s) = c == b'/'

-- `./` in front of a component
abbrev pub skip_dot : Bytes → Bytes
skip_dot (c ∷ d ∷ s) = if c == b'.' && qdl_path_is_sep d then s else c ∷ d ∷ s
skip_dot s = s

abbrev pub skip_seps : Bytes → Bytes
skip_seps [] = []
skip_seps (c ∷ s) = let rest = skip_seps s in if qdl_path_is_sep c then rest else c ∷ s

abbrev pub ends_in_sep : Bytes → ℕ → Bool
ends_in_sep buf n = ltb 0 n && qdl_path_is_sep (get_or buf (n - 1) 0)

-- the part of the component that is copied, behind a path of length `n`
abbrev pub copied : Bytes → ℕ → Bytes → Bytes
copied buf n component =
    if ends_in_sep buf n then skip_seps (skip_dot component) else skip_dot component

-- `need_sep`
abbrev pub separator : Bytes → ℕ → Bytes
separator buf n = if ltb 0 n && not (ends_in_sep buf n) then b'/' ∷ [] else []

-- `memcpy` to a place in the array
abbrev pub write_at : Bytes → ℕ → Bytes → Bytes
write_at buf n bytes = take n buf ++ (bytes ++ drop (n + length bytes) buf)

append : Pathbuf → ℕ → Bytes → Bytes → Result × Pathbuf
append path n sep [] = (pushed, path)
append path n sep (c ∷ s) =
    let end = n + length sep + length (c ∷ s) in
    if ltb path_max (end + 1) then (too_long, path) else (
      pushed,
      record {
        buf = write_at (write_at path.buf n sep) (n + length sep) ((c ∷ s) ++ 0 ∷ []);
        len = end;
      },
    )

-- `path_len` of `qdl_pathbuf_push`
abbrev pub kept : ℕ → Bytes → ℕ
kept len component = if path_is_absolute component then 0 else len

-- `qdl_pathbuf_push`; a component holds no NUL
unfoldable pub qdl_pathbuf_push : Pathbuf → Bytes → Result × Pathbuf
unfolding append
qdl_pathbuf_push path [] = (pushed, path)
qdl_pathbuf_push path (c ∷ s) =
    let n = kept path.len (c ∷ s) in
    append path n (separator path.buf n) (copied path.buf n (c ∷ s))
