-- ===== src/Firehose/Send.antt =====
-- `firehose_vip_send_table` and `firehose_write` of src/firehose.c.
pub mod Keeps
pub mod Valid
pub mod Returns
use qdl.Base.{
  ℕ, zero, suc, Bool, true, false, not, Option, none, some, List, [], ◌∷◌, Bytes, length,
  if◌then◌else◌,
}
use qdl.Io.{Errno, etimedout, Tx, wrote, refused}
use qdl.Vip.Transfer
use qdl.Firehose.{Tag, Wire, ChunkHooks, Env, Host, tables, device_write}
use qdl.Firehose.Message.{firehose_generic_parser}
use qdl.Firehose.Receive.{Reply, error, code, firehose_read}

module _ {G : Type 0} (env : Env G) where
  open env use {hooks, xml_doc_dump_memory}

  -- `firehose_read` with the generic parser, which has no data
  unfoldable pub generic_read : ℕ → Host G → Reply × Host G
  unfolding firehose_read
  generic_read timeout_ms h =
      let (r, x, h') = firehose_read env (firehose_generic_parser {D = Unit {0}}) timeout_ms tt h in
      (r, h')

  -- `FIREHOSE_ACK`, which is 0
  abbrev pub is_ack : Reply → Bool
  is_ack (code zero) = true
  is_ack _ = false

  abbrev pub is_error : Reply → Bool
  is_error (error e) = true
  is_error (code n) = false

  abbrev pub init_chunk : Host G → Host G
  init_chunk h = record h { generator = hooks.chunk_init h.generator }

  abbrev pub update_chunk : Host G → Bytes → Host G
  update_chunk h buf = record h { generator = hooks.chunk_update h.generator buf }

  abbrev pub store_chunk : Host G → Host G
  store_chunk h = record h { generator = hooks.chunk_store h.generator }

  -- `vip_transfer_handle_tables` on the host
  abbrev pub handle_tables : Host G → Bool × Host G
  handle_tables h =
      let (ok, v, w) = Transfer.vip_transfer_handle_tables (tables env) h.vip_data h.wire in
      (ok, record h { vip_data = v; wire = w })

  -- behind the read of the status
  status_read : Reply × Host G → Bool × Host G
  status_read (r, h) =
      if is_ack r
      then (true, record h { vip_data = Transfer.vip_transfer_clear_status h.vip_data })
      else (false, h)

  after_tables : Bool × Host G → Bool × Host G
  after_tables (false, h) = (false, h)
  after_tables (true, h) =
      if Transfer.vip_transfer_status_check_needed h.vip_data
      then status_read (generic_read 30000 h)
      else (true, h)

  -- `firehose_vip_send_table`; `false` is the result -1
  unfoldable pub firehose_vip_send_table : Host G → Bool × Host G
  unfolding after_tables status_read generic_read
  firehose_vip_send_table h = after_tables (handle_tables h)

  -- the `for` loop of `firehose_write`, behind `qdl_write`; `next` is the rounds behind it
  retry : (Host G → Option (Bool × Host G)) → Tx × Host G → Option (Bool × Host G)
  retry next (refused etimedout, h) = next (generic_read 100 h).1
  retry next (refused e, h) = some (false, h)
  retry next (wrote n, h) = some (true, h)

  -- the loop; `none` is for one that is still running
  unfoldable pub write_rounds : ℕ → Bytes → Host G → Option (Bool × Host G)
  unfolding retry generic_read
  write_rounds zero bytes h = none
  write_rounds (suc rounds) bytes h =
      retry (write_rounds rounds bytes) (device_write (update_chunk h bytes) bytes)

  -- behind the loop; the first case does not occur
  written : Host G → Option (Bool × Host G) → Bool × Host G
  written h none = (false, h)
  written h (some (ok, h')) = (ok, store_chunk h')

  write_message : Bytes → Bool × Host G → Bool × Host G
  write_message bytes (false, h) = (false, h)
  write_message bytes (true, h) =
      let h' = init_chunk h in
      written h' (write_rounds (suc (length h'.wire.write_results)) bytes h')

  -- `firehose_write`; `false` is a negative result, of which the callers test only the sign
  unfoldable pub firehose_write : Tag → Host G → Bool × Host G
  unfolding write_message written write_rounds firehose_vip_send_table
  firehose_write doc h = write_message (xml_doc_dump_memory doc) (firehose_vip_send_table h)
