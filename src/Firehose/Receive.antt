-- ===== src/Firehose/Receive.antt =====
-- `firehose_read` of src/firehose.c: messages are read until there is a response and the device is
-- silent.
pub mod Budget
pub mod Returns
pub mod Splice
pub mod Keeps
use qdl.Base.{
  ℕ, zero, suc, ◌+◌, ◌-◌, ◌*◌, Bool, true, false, Option, none, some, List, [], ◌∷◌, Bytes, length,
  take, drop, ltb, ◌==◌, if◌then◌else◌, strstr, codes, cut_at_nul,
}
use qdl.Io.{Errno, etimedout, enodev, eio, einval, Rx, got, failed, Pending}
use qdl.Firehose.{
  XmlNode, Event, arrives, silence, unplugged, broken, Wire, Env, Host, device_read,
  device_push_back,
}
use qdl.Firehose.Message.{Parser, firehose_response_parse, firehose_check_vip_marker}

-- A result of C: a negative errno or another number.
pub data Reply : Type 0 where
  error : Errno → Reply
  code : ℕ → Reply

-- What is known while messages are read: `resp`, `rawmode`, what the parser's `data` points to, and
-- the host.
pub record Seen (D G : Type 0) : Type 0 where
  pub resp : Reply
  pub rawmode : Bool
  pub data_of : D
  pub host : Host G

-- How the walk through a buffer ends: at a document that is none, at a message that starts raw
-- mode, or at the end of the buffer.
pub data Walked (D G : Type 0) : Type 0 where
  malformed : Seen D G → Walked D G
  went_raw : Seen D G → Walked D G
  at_end : Seen D G → Walked D G

abbrev pub newer : Option ℕ → Reply → Reply
newer none resp = resp
newer (some ret) resp = code ret

-- the length of the document at the start of `buf`
abbrev pub chunk_length : Bytes → Option ℕ → ℕ
chunk_length buf none = length buf
chunk_length buf (some at) = at + length (codes "</data>")

-- Fuel for a loop over what can still be read, so that a byte or an event is worth a round.
abbrev pub event_size : Event → ℕ
event_size (arrives bytes) = suc (length bytes)
event_size _ = 1

abbrev pub events_size : List (Event × ℕ) → ℕ
events_size [] = 0
events_size ((e, t) ∷ es) = event_size e + events_size es

unfoldable pub budget : {G : Type 0} → Host G → ℕ
budget h = (h.pending.pending_len - h.pending.pending_off) + events_size h.wire.events

module _ {G : Type 0} (env : Env G) {D : Type 0} (parser : Parser D) where
  -- `firehose_check_vip_marker` and the parser, on the element of a message
  unfoldable pub take_message : XmlNode → Seen D G → Seen D G
  take_message node seen =
      let (ret, x, raw) = parser node seen.data_of seen.rawmode in
      record {
        resp = newer ret seen.resp;
        rawmode = raw;
        data_of = x;
        host = firehose_check_vip_marker seen.host node;
      }

  -- behind a message, with the rest of the buffer; `next` walks on
  behind_message : (Bytes → Seen D G → Walked D G) → Bytes → Seen D G → Walked D G
  behind_message next [] seen = if seen.rawmode then went_raw seen else at_end seen
  behind_message next (b ∷ rest) seen =
      if seen.rawmode
      then went_raw (record seen { host = device_push_back seen.host (b ∷ rest) })
      else next (b ∷ rest) seen

  message : (Bytes → Seen D G → Walked D G) → Bytes → Option XmlNode → Seen D G → Walked D G
  message next rest none seen = malformed seen
  message next rest (some node) seen = behind_message next rest (take_message node seen)

  from_start : (Bytes → Seen D G → Walked D G) → Bytes → Option ℕ → Seen D G → Walked D G
  from_start next buf none seen = at_end seen
  from_start next buf (some at) seen =
      let start = drop at buf in
      let chunk = chunk_length start (strstr (cut_at_nul start) (codes "</data>")) in
      message next (drop chunk start) (firehose_response_parse env (take chunk start)) seen

  -- The loop over the messages of a buffer. Each takes a byte and more, so as many rounds as there
  -- are bytes are enough.
  walk : ℕ → Bytes → Seen D G → Walked D G
  walk zero buf seen = at_end seen
  walk (suc rounds) buf seen =
      from_start (walk rounds) buf (strstr (cut_at_nul buf) (codes "<?xml")) seen

  -- A result of the loop of `firehose_read`; `none` is for a loop that is still running.
  abbrev pub Result : Type 0
  Result = Option (Reply × D × Host G)

  -- `continue` until the time is over
  wait_on : (Seen D G → Result) → ℕ → Seen D G → Result
  wait_on next timeout seen =
      if ltb seen.host.wire.now timeout
      then next seen
      else some (error etimedout, seen.data_of, seen.host)

  -- on `-EIO` and `-ENODEV`, not to lose the response
  last_reply : Errno → Reply → Reply
  last_reply e (error _) = error e
  last_reply e (code ret) = code ret

  on_silence : (Seen D G → Result) → ℕ → Reply → Seen D G → Result
  on_silence next timeout (code ret) seen = some (code ret, seen.data_of, seen.host)
  on_silence next timeout (error e) seen = wait_on next timeout seen

  after_walk : (Seen D G → Result) → Walked D G → Result
  after_walk next (malformed seen) = some (error einval, seen.data_of, seen.host)
  after_walk next (went_raw seen) = some (seen.resp, seen.data_of, seen.host)
  after_walk next (at_end seen) = next seen

  -- A round behind `qdl_read`. The transports fail by the three errors that the code names.
  on_read : (Seen D G → Result) → ℕ → Rx → Seen D G → Result
  on_read next timeout (failed etimedout) seen = on_silence next timeout seen.resp seen
  on_read next timeout (failed e) seen = some (last_reply e seen.resp, seen.data_of, seen.host)
  on_read next timeout (got []) seen = wait_on next timeout seen
  on_read next timeout (got (b ∷ buf)) seen =
      after_walk next (walk (length (b ∷ buf)) (b ∷ buf) seen)

  unfoldable pub read_rounds : ℕ → ℕ → Seen D G → Result
  unfolding on_read after_walk walk on_silence wait_on last_reply from_start message behind_message
      take_message
  read_rounds zero timeout seen = none
  read_rounds (suc rounds) timeout seen =
      let (n, h) = device_read seen.host 4095 100 in
      on_read (read_rounds rounds timeout) timeout n (record seen { host = h })

  abbrev pub first_seen : D → Host G → Seen D G
  first_seen x h = record { resp = error eio; rawmode = false; data_of = x; host = h }

  returned : D → Host G → Result → Reply × D × Host G
  returned x h none = (error eio, x, h)
  returned x h (some r) = r

  -- `firehose_read`, for a timeout in milliseconds. The rounds are enough, so the first case of
  -- `returned` does not occur.
  unfoldable pub firehose_read : ℕ → D → Host G → Reply × D × Host G
  unfolding returned read_rounds
  firehose_read timeout_ms x h =
      returned x h (read_rounds (suc (budget h)) (h.wire.now + 1000 * timeout_ms) (first_seen x h))
