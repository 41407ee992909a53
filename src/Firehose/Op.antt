-- ===== src/Firehose/Op.antt =====
-- src/firehose.h, and the exchange that the operations of src/firehose.c share: a document is written
-- and a response read.
use qdl.Base.{
  ℕ, ◌%◌, ◌^◌, Bool, true, false, Option, none, some, [], Bytes, ◌==◌, if◌then◌else◌, String,
}
use qdl.Firehose.{Tag, u, s, xml_setpropf, uint_max, Storage, Env, Host}
use qdl.Firehose.Receive.{Reply}
use qdl.Firehose.Send.{generic_read, is_ack, firehose_write}

-- `enum firehose_op_type`
pub data OpType : Type 0 where
  op_none op_configure op_program op_erase op_read op_patch : OpType
  op_set_bootable op_reset op_get_sha256_digest : OpType

-- `struct firehose_op`. A null pointer is `none`; `zip` says whether the file is in an archive, and
-- `digest` is there when `digest_valid` is set.
pub record FirehoseOp : Type 0 where
  pub op_type : OpType
  pub partition : ℕ
  pub sector_size : ℕ
  pub zip : Bool
  pub filename : Option Bytes
  pub start_sector : Bytes
  pub num_sectors : ℕ
  pub pages_per_block : ℕ
  pub file_offset : ℕ
  pub label : Option Bytes
  pub sparse : Bool
  pub last_sector : ℕ
  pub is_nand : Bool
  pub sparse_chunk_type : ℕ
  pub sparse_fill_value : ℕ
  pub sparse_offset : ℕ
  pub byte_offset : ℕ
  pub size_in_bytes : ℕ
  pub value : Bytes
  pub storage_type : Storage
  pub digest : Option Bytes

-- `firehose_alloc_op`, where `calloc` succeeds
abbrev pub firehose_alloc_op : OpType → FirehoseOp
firehose_alloc_op type = record {
  op_type = type;
  partition = 0;
  sector_size = 0;
  zip = false;
  filename = none;
  start_sector = [];
  num_sectors = 0;
  pages_per_block = 0;
  file_offset = 0;
  label = none;
  sparse = false;
  last_sector = 0;
  is_nand = false;
  sparse_chunk_type = 0;
  sparse_fill_value = 0;
  sparse_offset = 0;
  byte_offset = 0;
  size_in_bytes = 0;
  value = [];
  storage_type = Storage.unknown;
  digest = none;
}

-- Attributes that depend on the operation.
abbrev pub set_string : Option Bytes → Tag → String → Tag
set_string none tag attr = tag
set_string (some text) tag attr = xml_setpropf tag attr (s text)

abbrev pub set_if : Bool → Tag → Tag → Tag
set_if b with_it without = if b then with_it else without

module _ {G : Type 0} where
  abbrev pub set_slot : Host G → Tag → Tag
  set_slot h tag = if h.slot == uint_max then tag else xml_setpropf tag "slot" (u h.slot)

  -- `op->sector_size ? : qdl->sector_size`, as an `unsigned int`
  abbrev pub sector_size_of : Host G → FirehoseOp → ℕ
  sector_size_of h op = if op.sector_size == 0 then h.sector_size % 2 ^ 32 else op.sector_size

module _ {G : Type 0} (env : Env G) where
  -- the read behind a write that succeeded, for an acknowledgement
  abbrev acked : Reply × Host G → Bool × Host G
  acked (r, h) = (is_ack env r, h)

  abbrev pub read_ack : ℕ → Bool × Host G → Bool × Host G
  read_ack timeout_ms (false, h) = (false, h)
  read_ack timeout_ms (true, h) = acked (generic_read env timeout_ms h)

  -- `firehose_write`, and `firehose_read` for the response: the flag says that both succeeded and the
  -- response is an ACK.
  unfoldable pub request : Tag → ℕ → Host G → Bool × Host G
  request doc timeout_ms h = read_ack timeout_ms (firehose_write env doc h)
