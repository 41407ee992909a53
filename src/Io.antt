-- ===== src/Io.antt =====
-- src/io.c: `qdl_read` and `qdl_push_back`, with the pushback buffer of `struct qdl_device`
-- (include/qdl.h). The transport's `read` is an argument; what it returns is an `Rx`.
pub mod Refine
pub mod Keeps
mod Tests
use qdl.Base.{
  ℕ, ◌+◌, ◌-◌, Bool, Option, none, some, List, [], ◌∷◌, ◌++◌, Bytes, take, drop, length, replicate,
  ltb, leb, ◌==◌, if◌then◌else◌,
}

-- The negative results that the callers tell apart; any other errno is `eio`.
pub data Errno : Type 0 where
  etimedout enodev eio einval enomem enametoolong : Errno

-- What a read returns: the bytes that it put in the buffer (their number is the C result), or a
-- negative errno.
pub data Rx : Type 0 where
  got : Bytes → Rx
  failed : Errno → Rx

-- What a write returns: the number of bytes sent, or a negative errno.
pub data Tx : Type 0 where
  wrote : ℕ → Tx
  refused : Errno → Tx

-- The pushback fields of `struct qdl_device`. The list of `pending_buf` is the whole allocation.
pub record Pending : Type 0 where
  pub pending_buf : Option Bytes
  pub pending_len : ℕ
  pub pending_off : ℕ

-- After `qdl_init`, which zeroes the structure.
abbrev pub nothing_pending : Pending
nothing_pending = record { pending_buf = none; pending_len = 0; pending_off = 0 }

-- `realloc(buf, n)`: the old bytes as far as they fit. The content of the new bytes is
-- unspecified, 0 here; `qdl_push_back` overwrites all of them.
abbrev pub realloc : Bytes → ℕ → Bytes
realloc buf n = take n (buf ++ replicate n 0)

-- `memcpy(buf + at, src, length src)`
abbrev pub copy_at : Bytes → ℕ → Bytes → Bytes
copy_at buf at src = take at buf ++ (src ++ drop (at + length src) buf)

-- `memmove(buf, buf + off, n)`
abbrev pub move_down : Bytes → ℕ → ℕ → Bytes
move_down buf off n = take n (drop off buf) ++ drop n buf

-- the branch of `qdl_read` that serves from the allocation
serve : Bytes → Pending → ℕ → Rx × Pending
serve buf d len =
    let available = d.pending_len - d.pending_off in
    let copy = if ltb available len then available else len in
    let off = d.pending_off + copy in
    (
      got (take copy (drop d.pending_off buf)),
      if leb d.pending_len off then nothing_pending else record d { pending_off = off },
    )

-- `qdl_read`, over the state `T` of a transport.
module _ {T : Type 0} (read : T → ℕ → ℕ → Rx × T) where
  read_from : Option Bytes → Pending → T → ℕ → ℕ → Rx × Pending × T
  read_from (some buf) d t len timeout = let (r, d') = serve buf d len in (r, d', t)
  read_from none d t len timeout = let (r, t') = read t len timeout in (r, d, t')

  unfoldable pub qdl_read : Pending → T → ℕ → ℕ → Rx × Pending × T
  unfolding read_from serve
  qdl_read d t len timeout = read_from d.pending_buf d t len timeout

-- the allocation, with a null pointer as an empty one, which is what `realloc` makes of it
abbrev pub block : Option Bytes → Bytes
block none = []
block (some buf) = buf

-- `if (qdl->pending_off > 0) { ... }`
abbrev pub compact : Pending → Pending
compact d =
    let leftover = d.pending_len - d.pending_off in
    if d.pending_off == 0 then d else record {
      pending_buf = some (move_down (block d.pending_buf) d.pending_off leftover);
      pending_len = leftover;
      pending_off = 0;
    }

-- the end of `qdl_push_back`, behind a `realloc` that succeeded
abbrev pub grow : Pending → Bytes → Pending
grow c buf =
    let total = c.pending_len + length buf in
    record c {
      pending_buf = some (copy_at (realloc (block c.pending_buf) total) c.pending_len buf);
      pending_len = total;
    }

-- `qdl_push_back`; `granted` says whether `realloc` succeeds. `none` is the result 0.
unfoldable pub qdl_push_back : Bool → Pending → Bytes → Option Errno × Pending
qdl_push_back granted d buf =
    if length buf == 0
    then (none, d)
    else if granted
    then (none, grow (compact d) buf)
    else (some enomem, compact d)

-- One call of a client.
pub data Op : Type 0 where
  pull : (len timeout : ℕ) → Op
  push : (granted : Bool) (buf : Bytes) → Op

-- What a call returns.
pub data Reply : Type 0 where
  pulled : Rx → Reply
  pushed : Option Errno → Reply

-- A sequence of calls on a device.
module _ {T : Type 0} (read : T → ℕ → ℕ → Rx × T) where
  pub run : Pending → T → List Op → List Reply
  run d t [] = []
  run d t (pull len timeout ∷ ops) =
      let (r, d', t') = qdl_read read d t len timeout in pulled r ∷ run d' t' ops
  run d t (push granted buf ∷ ops) =
      let (e, d') = qdl_push_back granted d buf in pushed e ∷ run d' t ops
