-- ===== src/Sahara/Run/Keeps/Confined.antt =====
-- src/sahara.c: what the device of a run can and cannot make the host do.
use qdl.Base.{ℕ, false, Option, none, some, Bytes, length, Each, ◌≡◌, ◌≤◌}
use qdl.Sahara.{Images}
use qdl.Sahara.Pkt
use qdl.Sahara.Invariant.{Allowed}
use qdl.Sahara.Ramdump.{Host, unsafe_name, dump_path}
use qdl.Sahara.Run.{Result}

-- Every message is allowed.
AllAllowed : Images → Host → Type 0
AllAllowed images h = Each (Allowed images) h.wire.tx

-- A file directly below the dump's directory.
pub InDirectory : Option Bytes → Bytes × Bytes → Type 0
InDirectory path (file, content) =
    (name : Bytes) × (unsafe_name name ≡ false) × (file ≡ dump_path path name)

AllInDirectory : Option Bytes → Host → Type 0
AllInDirectory path h = Each (InDirectory path) h.files

AtMost : ℕ → Host → Type 0
AtMost n h = length h.wire.rx ≤ n

Returned : Option (Result × Host) → Type 0
Returned none = ⊥
Returned (some r) = Unit
