-- ===== src/Firehose/Send/Keeps.antt =====
-- What `firehose_vip_send_table` and `firehose_write` of src/firehose.c leave alone.
use qdl.Base.{
  ◌≡◌, refl, ap, ◌∙◌, ℕ, zero, suc, Bool, true, false, Option, none, some, Bytes, either,
}
use qdl.Io.{etimedout, Tx, wrote, refused}
use qdl.Vip.Transfer
use qdl.Vip.Transfer.Writes.{IsTable, keep_handle_tables}
use qdl.Firehose.{Tag, Env, Host, tables, device_write, wire_write}
use qdl.Firehose.Message.{firehose_generic_parser}
use qdl.Firehose.Receive.{Reply}
use qdl.Firehose.Receive.Keeps.{Kept, keep_firehose_read}
use qdl.Firehose.Send.{
  generic_read, is_ack, handle_tables, status_read, after_tables, firehose_vip_send_table, retry,
  write_rounds, written, write_message, firehose_write, init_chunk,
}

-- A predicate of the host that sending preserves, too.
pub record KeptSending (G : Type 0) (P : Host G → Type 0) : Type 0 where
  pub reading : Kept G P
  pub keep_wire_write :
      (h : Host G) (bytes : Bytes) → P h → P (record h { wire = (wire_write h.wire bytes).1 })
  pub keep_vip : (h : Host G) (v : Transfer.VipTransferData) → P h → P (record h { vip_data = v })

-- A predicate of the host that reading messages and sending tables preserve.
pub record KeptTables {G : Type 0} (env : Env G) (P : Host G → Type 0) : Type 0 where
  pub reading : Kept G P
  pub keep_table :
      (h : Host G) (bytes : Bytes)
      → IsTable (tables env) bytes
      → P h
      → P (record h { wire = (wire_write h.wire bytes).1 })
  pub keep_vip : (h : Host G) (v : Transfer.VipTransferData) → P h → P (record h { vip_data = v })

module _ {G : Type 0} (env : Env G) {P : Host G → Type 0} (k : KeptTables env P) where
  pub keep_generic_read : (timeout_ms : ℕ) (h : Host G) → P h → P (generic_read env timeout_ms h).1
  unfolding generic_read
  keep_generic_read timeout_ms h p =
      keep_firehose_read env (firehose_generic_parser {D = Unit {0}}) k.reading timeout_ms tt h p

  keep_status : (r : Reply × Host G) → P r.1 → P (status_read env r).1
  unfolding status_read
  keep_status (r, h) p =
      either (λ (out : Bool × Host G). P out.1) (is_ack env r)
        {x = (true, record h { vip_data = Transfer.vip_transfer_clear_status h.vip_data })}
        {y = (false, h)} (k.keep_vip h _ p) p

  keep_after_tables : (r : Bool × Host G) → P r.1 → P (after_tables env r).1
  unfolding after_tables
  keep_after_tables (false, h) p = p
  keep_after_tables (true, h) p =
      either (λ (out : Bool × Host G). P out.1)
        (Transfer.vip_transfer_status_check_needed h.vip_data) {y = (true, h)}
        (keep_status (generic_read env 30000 h) (keep_generic_read 30000 h p)) p

  keep_tables : (h : Host G) → P h → P (handle_tables env h).1
  keep_tables h p =
      let (ok, v, w) = Transfer.vip_transfer_handle_tables (tables env) h.vip_data h.wire in
      k.keep_vip (record h { wire = w }) v
        (keep_handle_tables (tables env) (λ w'. P (record h { wire = w' }))
          (λ b w' bytes t q. k.keep_table (record h { wire = w' }) bytes t q) h.vip_data h.wire p)

  pub keep_send_table : (h : Host G) → P h → P (firehose_vip_send_table env h).1
  unfolding firehose_vip_send_table
  keep_send_table h p = keep_after_tables (handle_tables env h) (keep_tables h p)

-- Where no transfer is under way and no status is awaited, nothing is sent.
pub send_table-disabled :
    {G : Type 0} (env : Env G) (h : Host G)
    → h.vip_data.state ≡ Transfer.vip_disabled
    → h.vip_data.fh_parse_status ≡ false
    → firehose_vip_send_table env h ≡ (true, h)
unfolding firehose_vip_send_table after_tables Transfer.vip_transfer_handle_tables
    Transfer.vip_transfer_status_check_needed
send_table-disabled env h s p = ap (after_tables env) (nothing_due s) ∙ rw p refl
  where
    nothing_due : h.vip_data.state ≡ Transfer.vip_disabled → handle_tables env h ≡ (true, h)
    nothing_due s = rw s refl

module _ {G : Type 0} (env : Env G) {P : Host G → Type 0} (k : KeptSending G P) where
  pub KeptSending-KeptTables : KeptTables env P
  KeptSending-KeptTables = record {
    reading = k.reading;
    keep_table = λ h bytes t p. k.keep_wire_write h bytes p;
    keep_vip = k.keep_vip;
  }

  pub keep_device_write : (h : Host G) (bytes : Bytes) → P h → P (device_write h bytes).1
  unfolding device_write
  keep_device_write h bytes p = k.keep_wire_write h bytes p

  module _ (keep_generator : (h : Host G) (g : G) → P h → P (record h { generator = g })) where
    abbrev On : Option (Bool × Host G) → Type 0
    On none = Unit
    On (some r) = P r.1

    keep_retry :
        (next : Host G → Option (Bool × Host G)) (r : Tx × Host G)
        → ((h : Host G) → P h → On (next h))
        → P r.1
        → On (retry env next r)
    unfolding retry
    keep_retry next (refused etimedout, h) ih p =
        ih _ (keep_generic_read env KeptSending-KeptTables 100 h p)
    keep_retry next (refused _, h) ih p = p
    keep_retry next (wrote n, h) ih p = p

    keep_write_rounds :
        (rounds : ℕ) (bytes : Bytes) (h : Host G) → P h → On (write_rounds env rounds bytes h)
    unfolding write_rounds
    keep_write_rounds zero bytes h p = tt
    keep_write_rounds (suc rounds) bytes h p =
        keep_retry (write_rounds env rounds bytes) _ (keep_write_rounds rounds bytes)
          (keep_device_write _ bytes (keep_generator h _ p))

    keep_written : (h : Host G) (r : Option (Bool × Host G)) → P h → On r → P (written env h r).1
    unfolding written
    keep_written h none p q = p
    keep_written h (some (ok, h')) p q = keep_generator h' _ q

    keep_write_message :
        (bytes : Bytes) (r : Bool × Host G) → P r.1 → P (write_message env bytes r).1
    unfolding write_message
    keep_write_message bytes (false, h) p = p
    keep_write_message bytes (true, h) p =
        let q = keep_generator h _ p in
        keep_written (init_chunk env h) _ q (keep_write_rounds _ bytes (init_chunk env h) q)

    -- What reads, writes, the VIP data and the dry run preserve, `firehose_write` does.
    pub keep_firehose_write : (doc : Tag) (h : Host G) → P h → P (firehose_write env doc h).1
    unfolding firehose_write
    keep_firehose_write doc h p =
        keep_write_message (env.xml_doc_dump_memory doc) (firehose_vip_send_table env h)
          (keep_send_table env KeptSending-KeptTables h p)
