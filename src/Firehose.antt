-- ===== src/Firehose.antt =====
-- src/firehose.c: the Firehose protocol, by which a programmer on the device is told what to write
-- to its storage. Here stand the state of the host, the documents, and the device as the host
-- sees it.
pub mod Message
pub mod Receive
pub mod Send
pub mod Stream
pub mod Op
pub mod Control
pub mod Program
pub mod Flash
pub mod Fetch
pub mod Block
pub mod Configure
pub mod Provision
pub mod Run
pub mod DryRun
mod Tests
use qdl.Base.{
  ℕ, zero, suc, ◌+◌, ◌-◌, ◌^◌, Bool, true, false, Option, none, some, List, [], ◌∷◌, ◌++◌, Bytes,
  length, take, drop, leb, ◌==◌, if◌then◌else◌, String, codes, same,
}
use qdl.Io
use qdl.Io.{Errno, etimedout, enodev, eio, Rx, got, failed, Tx, wrote, refused, Pending}
use qdl.Vip.Transfer.{VipTransferData, TableIo}

-- The trees that libxml2 reads a document into; `other` is a text or a comment.
mutual
  pub data XmlNode : Type 0 where
    element : (name : Bytes) → (props : List (Bytes × Bytes)) → (children : XmlNodes) → XmlNode
    other : XmlNode

  pub data XmlNodes : Type 0 where
    last : XmlNodes
    next_to : XmlNode → XmlNodes → XmlNodes

abbrev pub lookup : Bytes → List (Bytes × Bytes) → Option Bytes
lookup name [] = none
lookup name ((n, value) ∷ props) = if same n name then some value else lookup name props

-- `xmlGetProp`
abbrev pub xml_get_prop : XmlNode → String → Option Bytes
xml_get_prop (element name props children) attr = lookup (codes attr) props
xml_get_prop other attr = none

-- `xmlStrcmp(node->name, name) == 0`
abbrev pub is_named : XmlNode → String → Bool
is_named (element n props children) name = same n (codes name)
is_named other name = false

-- What `xml_setpropf` prints: a number by `%d`, `%u`, `%lu` or `%zu`, or a string.
pub data Value : Type 0 where
  d u lu zu : ℕ → Value
  s : Bytes → Value

-- A document `<data><name attributes/></data>` that is sent.
pub record Tag : Type 0 where
  pub name : String
  pub attributes : List (String × Value)

abbrev pub new_child : String → Tag
new_child name = record { name = name; attributes = [] }

-- A string is cut to what fits in `buf[128]`, its NUL included.
abbrev pub clip : Value → Value
clip (s text) = s (take 127 text)
clip value = value

pub xml_setpropf : Tag → String → Value → Tag
xml_setpropf tag attr value = record tag { attributes = tag.attributes ++ (attr, clip value) ∷ [] }

-- What the next read of the transport meets.
pub data Event : Type 0 where
  arrives : Bytes → Event
  silence unplugged broken : Event

-- The transport, as the list of what happens on it, each with the clock in microseconds behind it,
-- and the list of what its writes return. Behind both lists the device is gone. `sent` holds what
-- was written.
pub record Wire : Type 0 where
  pub events : List (Event × ℕ)
  pub now : ℕ
  pub write_results : List Tx
  pub sent : List Bytes

read_event : Event × ℕ → List (Event × ℕ) → Wire → ℕ → Rx × Wire
read_event (arrives bytes, t) es w len = (
  got (take len bytes),
  record w {
    events = if leb (length bytes) len then es else (arrives (drop len bytes), t) ∷ es;
    now = t;
  },
)
read_event (silence, t) es w len = (failed etimedout, record w { events = es; now = t })
read_event (unplugged, t) es w len = (failed enodev, record w { events = es; now = t })
read_event (broken, t) es w len = (failed eio, record w { events = es; now = t })

read_events : List (Event × ℕ) → Wire → ℕ → Rx × Wire
read_events [] w len = (failed enodev, w)
read_events (e ∷ es) w len = read_event e es w len

-- the transport's `read`
unfoldable pub wire_read : Wire → ℕ → ℕ → Rx × Wire
unfolding read_events read_event
wire_read w len timeout = read_events w.events w len

write_as : List Tx → Wire → Bytes → Tx × Wire
write_as [] w bytes = (refused enodev, w)
write_as (wrote n ∷ rs) w bytes =
    (wrote n, record w { write_results = rs; sent = w.sent ++ take n bytes ∷ [] })
write_as (refused e ∷ rs) w bytes = (refused e, record w { write_results = rs })

-- the transport's `write`
unfoldable pub wire_write : Wire → Bytes → Tx × Wire
unfolding write_as
wire_write w bytes = write_as w.write_results w bytes

-- The dry run's hooks, which src/vip.c implements; `Hooks` fills them.
pub record ChunkHooks (G : Type 0) : Type 0 where
  pub chunk_init : G → G
  pub chunk_update : G → Bytes → G
  pub chunk_store : G → G

-- What the host calls besides: libxml2's reader (the root and its siblings) and printer, and the
-- files of the VIP tables.
pub record Env (G : Type 0) : Type 0 where
  pub hooks : ChunkHooks G
  pub xml_read_memory : Bytes → Option XmlNodes
  pub xml_doc_dump_memory : Tag → Bytes
  pub fstat : ℕ → Option ℕ
  pub malloc : ℕ → Bool
  pub read_table : ℕ → ℕ → Option Bytes

-- `enum qdl_storage_type`
pub data Storage : Type 0 where
  unknown emmc nand ufs nvme spinor : Storage

-- `firehose_stats`
pub record Stats : Type 0 where
  pub flashed : ℕ
  pub skipped : ℕ
  pub read : ℕ
  pub erased : ℕ
  pub patches : ℕ
  pub bytes_written : ℕ

-- `struct qdl_device`, with the state of the dry run. `granted` says whether the next allocations of
-- `qdl_push_back` succeed; behind the list they do.
pub record Host (G : Type 0) : Type 0 where
  pub wire : Wire
  pub pending : Pending
  pub granted : List Bool
  pub vip_data : VipTransferData
  pub programmer_requires_vip : Bool
  pub generator : G
  pub max_payload_size : ℕ
  pub sector_size : ℕ
  pub slot : ℕ
  pub current_storage_type : Storage
  pub skipblock_sha256 : Bool
  pub stats : Stats

abbrev pub uint_max : ℕ
uint_max = 2 ^ 32 - 1

module _ {G : Type 0} (env : Env G) where
  abbrev pub tables : TableIo Wire
  tables = record {
    fstat = env.fstat;
    malloc = env.malloc;
    read = env.read_table;
    write = λ sending w bytes. wire_write w bytes;
  }

abbrev next_grant : List Bool → Bool
next_grant [] = true
next_grant (g ∷ gs) = g

abbrev later_grants : List Bool → List Bool
later_grants [] = []
later_grants (g ∷ gs) = gs

module _ {G : Type 0} where
  unfoldable pub device_read : Host G → ℕ → ℕ → Rx × Host G
  device_read h len timeout =
      let (r, p, w) = Io.qdl_read wire_read h.pending h.wire len timeout in
      (r, record h { pending = p; wire = w })

  unfoldable pub device_write : Host G → Bytes → Tx × Host G
  device_write h bytes = let (r, w) = wire_write h.wire bytes in (r, record h { wire = w })

  unfoldable pub device_push_back : Host G → Bytes → Host G
  device_push_back h bytes = record h {
    pending = (Io.qdl_push_back (next_grant h.granted) h.pending bytes).1;
    granted = later_grants h.granted;
  }
