-- ===== src/Io/Keeps.antt =====
-- `qdl_read` of src/io.c: what a read of the transport preserves, it does.
use qdl.Base.{ℕ, Option, none, some, Bytes}
use qdl.Io.{Rx, Pending, read_from, qdl_read}

module _ {T : Type 0} (read : T → ℕ → ℕ → Rx × T) (P : T → Type 0)
    (keep_read : (t : T) (len timeout : ℕ) → P t → P (read t len timeout).1) where
  keep_read_from :
      (o : Option Bytes) (d : Pending) (t : T) (len timeout : ℕ)
      → P t
      → P (read_from read o d t len timeout).2
  unfolding read_from
  keep_read_from none d t len timeout p = keep_read t len timeout p
  keep_read_from (some buf) d t len timeout p = p

  pub keep_qdl_read :
      (d : Pending) (t : T) (len timeout : ℕ) → P t → P (qdl_read read d t len timeout).2
  unfolding qdl_read
  keep_qdl_read d t len timeout p = keep_read_from d.pending_buf d t len timeout p
