-- ===== src/Firehose/Control.antt =====
-- The operations of src/firehose.c that are one exchange: erase, patch, the boot drive, the reset, the
-- digest of a region, and the UFS tags.
use qdl.Base.{
  ℕ, ◌+◌, Bool, true, false, Option, none, some, List, [], ◌∷◌, Bytes, ltb, if◌then◌else◌, codes,
  same, String,
}
use qdl.Firehose.{Tag, Value, d, s, new_child, xml_setpropf, Env, Host}
use qdl.Firehose.Message.{firehose_sha256_parser}
use qdl.Firehose.Receive.{Reply, firehose_read}
use qdl.Firehose.Send.{generic_read, is_ack, is_error, firehose_write}
use qdl.Firehose.Op.{FirehoseOp, set_string, set_if, set_slot, sector_size_of, request}

-- Attributes in a row.
abbrev pub set_all : Tag → List (String × Value) → Tag
set_all tag [] = tag
set_all tag ((attr, value) ∷ props) = set_all (xml_setpropf tag attr value) props

abbrev pub of_bool : Bool → ℕ
of_bool true = 1
of_bool false = 0

-- `strcmp(filename, "DISK") == 0` on a pointer that is not null
abbrev pub is_disk : Option Bytes → Bool
is_disk none = false
is_disk (some name) = same name (codes "DISK")

module _ {G : Type 0} (env : Env G) where
  erase_tag : Host G → FirehoseOp → Tag
  erase_tag h program =
      let node = set_all (new_child "erase") (
        ("SECTOR_SIZE_IN_BYTES", d (sector_size_of h program))
        ∷ ("physical_partition_number", d program.partition)
        ∷ []) in
      let region = set_all node (
        ("num_partition_sectors", d program.num_sectors)
        ∷ ("start_sector", s program.start_sector)
        ∷ []) in
      let placed = set_slot h (set_if (ltb 0 program.num_sectors) region node) in
      set_if program.is_nand (xml_setpropf placed "PAGES_PER_BLOCK" (d program.pages_per_block))
        placed

  abbrev count_erased : Bool × Host G → Bool × Host G
  count_erased (false, h) = (false, h)
  count_erased (true, h) =
      (true, record h { stats = record h.stats { erased = (h.stats.erased + 1) } })

  -- `firehose_erase`; `false` is the result -1
  unfoldable pub firehose_erase : FirehoseOp → Host G → Bool × Host G
  unfolding erase_tag request
  firehose_erase program h = count_erased (request env (erase_tag h program) 30000 h)

  patch_tag : Host G → FirehoseOp → Tag
  patch_tag h patch = set_slot h (
      xml_setpropf
        (set_all
          (set_string patch.filename
            (set_all (new_child "patch") (
              ("SECTOR_SIZE_IN_BYTES", d patch.sector_size)
              ∷ ("byte_offset", d patch.byte_offset)
              ∷ []))
            "filename")
          (("physical_partition_number", d patch.partition)
            ∷ ("size_in_bytes", d patch.size_in_bytes)
            ∷ ("start_sector", s patch.start_sector)
            ∷ []))
        "value" (s patch.value))

  -- `firehose_apply_patch`: a patch of another file than the disk is left to the flat build.
  unfoldable pub firehose_apply_patch : FirehoseOp → Host G → Bool × Host G
  unfolding patch_tag request
  firehose_apply_patch patch h =
      if is_disk patch.filename then request env (patch_tag h patch) 5000 h else (true, h)

  -- `firehose_set_bootable`
  unfoldable pub firehose_set_bootable : ℕ → Host G → Bool × Host G
  unfolding request
  firehose_set_bootable part h =
      request env (xml_setpropf (new_child "setbootablestoragedrive") "value" (d part)) 5000 h

  reset_tag : Tag
  reset_tag =
      set_all (new_child "power")
        (("value", s (codes "reset")) ∷ ("DelayInSeconds", s (codes "10")) ∷ [])

  -- behind the response: log messages are drained
  drained : Reply × Host G → Bool × Host G
  drained (r, h) = (is_ack env r, if is_error env r then h else (generic_read env 1000 h).1)

  reset_written : Bool × Host G → Bool × Host G
  reset_written (false, h) = (false, h)
  reset_written (true, h) = drained (generic_read env 5000 h)

  -- `firehose_reset`
  unfoldable pub firehose_reset : Host G → Bool × Host G
  unfolding reset_tag reset_written drained
  firehose_reset h = reset_written (firehose_write env reset_tag h)

  digest_tag : Host G → FirehoseOp → Tag
  digest_tag h op = set_slot h (
      set_all (new_child "getsha256digest") (
        ("SECTOR_SIZE_IN_BYTES", d (sector_size_of h op))
        ∷ ("num_partition_sectors", d op.num_sectors)
        ∷ ("physical_partition_number", d op.partition)
        ∷ ("start_sector", s op.start_sector)
        ∷ []))

  digest_read : Reply × Option Bytes × Host G → Option Bytes × Host G
  digest_read (r, digest, h) = (if is_ack env r then digest else none, h)

  digest_written : Bool × Host G → Option Bytes × Host G
  digest_written (false, h) = (none, h)
  digest_written (true, h) = digest_read (firehose_read env firehose_sha256_parser 30000 none h)

  -- `firehose_getsha256digest`: the digest, if the result is 0
  unfoldable pub firehose_getsha256digest : FirehoseOp → Host G → Option Bytes × Host G
  unfolding digest_tag digest_written digest_read
  firehose_getsha256digest op h = digest_written (firehose_write env (digest_tag h op) h)
