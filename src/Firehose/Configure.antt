-- ===== src/Firehose/Configure.antt =====
-- The configure handshake of src/firehose.c, with the probe of the sector size.
use qdl.Base.{
  ℕ, zero, suc, ◌+◌, ◌*◌, Bool, true, false, not, ◌&&◌, Option, none, some, List, [], ◌∷◌, Bytes,
  ltb, ◌==◌, if◌then◌else◌, codes,
}
use qdl.Io.{etimedout, eio, einval}
use qdl.Vip.Transfer.{VipState, vip_disabled}
use qdl.Firehose.{Tag, d, lu, s, new_child, Storage, emmc, nand, ufs, nvme, spinor, Env, Host}
use qdl.Firehose.Message.{firehose_configure_response_parser}
use qdl.Firehose.Receive.{Reply, error, code, firehose_read}
use qdl.Firehose.Send.{generic_read, is_ack, firehose_write}
use qdl.Firehose.Op.{FirehoseOp, op_none, firehose_alloc_op}
use qdl.Firehose.Control.{set_all, of_bool}
use qdl.Firehose.Fetch.{firehose_read_buf, Fetched}

-- `encode_storage_type` of src/util.c
abbrev pub encode_storage_type : Storage → Option Bytes
encode_storage_type emmc = some (codes "emmc")
encode_storage_type nand = some (codes "nand")
encode_storage_type ufs = some (codes "ufs")
encode_storage_type nvme = some (codes "nvme")
encode_storage_type spinor = some (codes "spinor")
encode_storage_type Storage.unknown = none

abbrev pub is_nand_storage : Storage → Bool
is_nand_storage nand = true
is_nand_storage _ = false

abbrev pub is_vip_disabled : VipState → Bool
is_vip_disabled vip_disabled = true
is_vip_disabled _ = false

module _ {G : Type 0} (env : Env G) (strtoul : Bytes → ℕ) where
  configure_tag : Bytes → ℕ → Bool → Tag
  configure_tag memory_name payload_size skip_storage_init = set_all (new_child "configure") (
      ("MemoryName", s memory_name)
      ∷ ("MaxPayloadSizeToTargetInBytes", lu payload_size)
      ∷ ("Verbose", d 0)
      ∷ ("ZlpAwareHost", d 1)
      ∷ ("SkipStorageInit", d (of_bool skip_storage_init))
      ∷ [])

  configure_as : Option Bytes → ℕ → Bool → ℕ → Host G → Reply × ℕ × Host G
  configure_as none payload_size skip size h = (error einval, size, h)
  configure_as (some memory_name) payload_size skip size h =
      firehose_read env (firehose_configure_response_parser strtoul) 100 size
        (firehose_write env (configure_tag memory_name payload_size skip) h).1

  -- `firehose_send_configure`; `size` is what `max_payload_size` points to
  unfoldable pub firehose_send_configure : ℕ → Bool → Storage → ℕ → Host G → Reply × ℕ × Host G
  unfolding configure_as configure_tag
  firehose_send_configure payload_size skip storage size h =
      configure_as (encode_storage_type storage) payload_size skip size h

  probe_op : ℕ → FirehoseOp
  probe_op sector_size = record (firehose_alloc_op op_none) {
    start_sector = codes "1";
    num_sectors = 1;
    sector_size = sector_size;
  }

  -- behind a probe read; `next` tries the other sizes
  probed : (Host G → Host G) → ℕ → Host G → Fetched env → Host G
  probed next size h none = h
  probed next size h (some (true, sink, h')) = record h' { sector_size = size }
  probed next size h (some (false, sink, h')) = next h'

  -- the loop over `sector_sizes`, into a buffer of 4096 bytes
  probe : List ℕ → Host G → Host G
  probe [] h = h
  probe (size ∷ sizes) h =
      probed (probe sizes) size h (firehose_read_buf env (probe_op size) 4096 h)

  -- the end of `firehose_try_configure`
  abbrev wants_probe : Bool → Storage → Host G → Bool
  wants_probe skip storage h =
      not skip
      && (not (is_nand_storage storage) && (is_vip_disabled h.vip_data.state && h.sector_size == 0))

  accept : Bool → Storage → ℕ → Host G → Reply × Host G
  accept skip storage size h =
      let h' = record h { max_payload_size = size } in
      (code 0, if wants_probe skip storage h' then probe (512 ∷ 4096 ∷ []) h' else h')

  -- behind the second configure request
  retried : Bool → Storage → Reply × ℕ × Host G → Reply × Host G
  retried skip storage (r, size, h) =
      if is_ack env r then accept skip storage size h else (error eio, h)

  configured : Bool → Storage → Reply × ℕ × Host G → Reply × Host G
  configured skip storage (error e, size, h) = (error e, h)
  configured skip storage (code n, size, h) =
      let again = retried skip storage (firehose_send_configure size skip storage size h) in
      if size == h.max_payload_size then accept skip storage size h else again

  -- `firehose_try_configure`
  unfoldable pub firehose_try_configure : Bool → Storage → Host G → Reply × Host G
  unfolding configured retried accept probe probed probe_op firehose_send_configure
  firehose_try_configure skip storage h =
      configured skip storage (firehose_send_configure h.max_payload_size skip storage 0 h)

  -- With VIP: the logs are drained, and the tables are given up if they do not announce it.
  demote : Host G → Host G
  demote h =
      if h.programmer_requires_vip
      then h
      else record h { vip_data = record h.vip_data { state = vip_disabled } }

  abbrev ack_only : Reply × Host G → Bool × Host G
  ack_only (r, h) = (is_ack env r, h)

  with_vip : Bool → Storage → ℕ → Host G → Bool × Host G
  with_vip skip storage timeout_s h =
      ack_only
        (firehose_try_configure skip storage (demote (generic_read env (timeout_s * 1000) h).1))

  -- Without VIP: a round behind `firehose_try_configure`.
  attempted : (Host G → Option (Bool × Host G)) → ℕ → Reply × Host G → Option (Bool × Host G)
  attempted next timeout (code zero, h) = some (not h.programmer_requires_vip, h)
  attempted next timeout (error etimedout, h) =
      let wait = next h in
      if h.programmer_requires_vip
      then some (false, h)
      else if ltb timeout h.wire.now
      then some (false, h)
      else wait
  attempted next timeout (r, h) = some (false, h)

  attempts : ℕ → Bool → Storage → ℕ → Host G → Option (Bool × Host G)
  attempts zero skip storage timeout h = none
  attempts (suc rounds) skip storage timeout h =
      attempted (attempts rounds skip storage timeout) timeout
        (firehose_try_configure skip storage h)

  detect_in : VipState → Bool → Storage → ℕ → ℕ → Host G → Option (Bool × Host G)
  detect_in vip_disabled skip storage timeout_s rounds h =
      attempts rounds skip storage (h.wire.now + 1000000 * timeout_s) h
  detect_in state skip storage timeout_s rounds h = some (with_vip skip storage timeout_s h)

  -- `firehose_detect_and_configure`; `none` is for a loop that still runs after `rounds` rounds
  unfoldable pub firehose_detect_and_configure :
      ℕ → Bool → Storage → ℕ → Host G → Option (Bool × Host G)
  unfolding detect_in attempts attempted with_vip demote
  firehose_detect_and_configure rounds skip storage timeout_s h =
      let h' = record h { current_storage_type = storage } in
      detect_in h'.vip_data.state skip storage timeout_s rounds h'
