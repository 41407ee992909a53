-- ===== src/Firehose/Send/Valid.antt =====
-- The exchanges of src/firehose.c keep the pushback buffer of src/io.c well formed.
use qdl.Base.{ℕ, Bool, true, false, Bytes}
use qdl.Io.Refine.{IsValid, qdl_read-refines, qdl_push_back-refines}
use qdl.Firehose.{Tag, Env, Host, wire_read, device_read, device_push_back, next_grant}
use qdl.Firehose.Message.{check_vip_marker-cases}
use qdl.Firehose.Send.{firehose_write}
use qdl.Firehose.Send.Keeps.{
  KeptSending, keep_generic_read, KeptSending-KeptTables, keep_firehose_write,
}
use qdl.Firehose.Op.{request, read_ack}

-- The pushback buffer of the host is well formed.
abbrev pub HasValidBuffer : {G : Type 0} → Host G → Type 0
HasValidBuffer h = IsValid h.pending

module _ {G : Type 0} where
  pub device_read-HasValidBuffer :
      (h : Host G) (len timeout : ℕ)
      → HasValidBuffer h
      → HasValidBuffer (device_read h len timeout).1
  unfolding device_read
  device_read-HasValidBuffer h len timeout v =
      (qdl_read-refines wire_read h.pending h.wire len timeout v).0

  push_back-HasValidBuffer :
      (h : Host G) (buf : Bytes) → HasValidBuffer h → HasValidBuffer (device_push_back h buf)
  unfolding device_push_back
  push_back-HasValidBuffer h buf v =
      (qdl_push_back-refines (next_grant h.granted) h.pending buf v).0

  pub HasValidBuffer-KeptSending : KeptSending G HasValidBuffer
  HasValidBuffer-KeptSending = record {
    reading = record {
      keep_read = device_read-HasValidBuffer;
      keep_push = push_back-HasValidBuffer;
      keep_marker = λ h node v. check_vip_marker-cases HasValidBuffer h node v v;
    };
    keep_wire_write = λ h bytes v. v;
    keep_vip = λ h v' v. v;
  }

  module _ (env : Env G) where
    read_ack-HasValidBuffer :
        (timeout_ms : ℕ) (r : Bool × Host G)
        → HasValidBuffer r.1
        → HasValidBuffer (read_ack env timeout_ms r).1
    read_ack-HasValidBuffer timeout_ms (false, h) v = v
    read_ack-HasValidBuffer timeout_ms (true, h) v =
        keep_generic_read env (KeptSending-KeptTables env HasValidBuffer-KeptSending) timeout_ms h v

    -- A request keeps the pushback buffer well formed: the write with its retries, the VIP tables and
    -- their status, and the messages that are read for the response.
    pub request-HasValidBuffer :
        (doc : Tag) (timeout_ms : ℕ) (h : Host G)
        → HasValidBuffer h
        → HasValidBuffer (request env doc timeout_ms h).1
    unfolding request
    request-HasValidBuffer doc timeout_ms h v =
        read_ack-HasValidBuffer timeout_ms (firehose_write env doc h)
          (keep_firehose_write env HasValidBuffer-KeptSending (λ h g v. v) doc h v)
