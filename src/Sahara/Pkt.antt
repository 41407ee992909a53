-- ===== src/Sahara/Pkt.antt =====
-- src/sahara.c: the fields of `struct sahara_pkt` in a buffer.
use qdl.Base.{ℕ, ◌+◌, ◌*◌, Bytes}
use qdl.Sahara.{le32, le64}

abbrev pub cmd : Bytes → ℕ
cmd buf = le32 buf 0

abbrev pub len : Bytes → ℕ
len buf = le32 buf 4

-- the 32-bit word number `i` behind the header
abbrev pub word : Bytes → ℕ → ℕ
word buf i = le32 buf (8 + 4 * i)

-- the 64-bit word number `i` behind the header
abbrev pub quad : Bytes → ℕ → ℕ
quad buf i = le64 buf (8 + 8 * i)
