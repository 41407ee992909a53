-- ===== src/Base/Words.antt =====
-- Little-endian integers in buffers, as on the hosts of the program.
use Prim.Native.Nat.{ℕ, ◌+◌, ◌*◌, ◌/◌, ◌%◌}
use mathlib.Core.List.{[], ◌∷◌, ◌++◌}
use qdl.Base.Lists.{Bytes, get_or}

abbrev pub le16 : Bytes → ℕ → ℕ
le16 p i = get_or p i 0 + 256 * get_or p (i + 1) 0

abbrev pub le32 : Bytes → ℕ → ℕ
le32 p i = le16 p i + 65536 * le16 p (i + 2)

abbrev pub le64 : Bytes → ℕ → ℕ
le64 p i = le32 p i + 4294967296 * le32 p (i + 4)

abbrev pub put32 : ℕ → Bytes
put32 n = n % 256 ∷ n / 256 % 256 ∷ n / 65536 % 256 ∷ n / 16777216 % 256 ∷ []

abbrev pub put64 : ℕ → Bytes
put64 n = put32 (n % 4294967296) ++ put32 (n / 4294967296)
