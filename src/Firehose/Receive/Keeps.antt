-- ===== src/Firehose/Receive/Keeps.antt =====
-- What `firehose_read` of src/firehose.c leaves alone.
use qdl.Base.{ℕ, zero, suc, Option, none, some, [], ◌∷◌, Bytes, length, either, ltb}
use qdl.Io.{etimedout, Rx, got, failed}
use qdl.Firehose.{XmlNode, Env, Host, device_read, device_push_back}
use qdl.Firehose.Message.{Parser, firehose_check_vip_marker}
use qdl.Firehose.Receive.{
  Reply, error, code, Seen, Walked, malformed, went_raw, at_end, budget, take_message,
  behind_message, message, from_start, walk, Result, wait_on, on_silence, after_walk, on_read,
  read_rounds, first_seen, firehose_read, returned,
}

-- A predicate of the host that reading messages preserves.
pub record Kept (G : Type 0) (P : Host G → Type 0) : Type 0 where
  pub keep_read : (h : Host G) (len timeout : ℕ) → P h → P (device_read h len timeout).1
  pub keep_push : (h : Host G) (buf : Bytes) → P h → P (device_push_back h buf)
  pub keep_marker : (h : Host G) (node : XmlNode) → P h → P (firehose_check_vip_marker h node)

module _ {G : Type 0} (env : Env G) {D : Type 0} (parser : Parser D) {P : Host G → Type 0}
    (k : Kept G P) where
  abbrev OnWalk : Walked D G → Type 0
  OnWalk (malformed seen) = P seen.host
  OnWalk (went_raw seen) = P seen.host
  OnWalk (at_end seen) = P seen.host

  abbrev OnResult : Option (Reply × D × Host G) → Type 0
  OnResult none = Unit
  OnResult (some r) = P r.2

  Walks : (Bytes → Seen D G → Walked D G) → Type 0
  Walks next = (buf : Bytes) (seen : Seen D G) → P seen.host → OnWalk (next buf seen)

  Goes : (Seen D G → Result env parser) → Type 0
  Goes next = (seen : Seen D G) → P seen.host → OnResult (next seen)

  keep_behind :
      (next : Bytes → Seen D G → Walked D G) (rest : Bytes) (seen : Seen D G)
      → Walks next
      → P seen.host
      → OnWalk (behind_message env parser next rest seen)
  unfolding behind_message Walks
  keep_behind next [] seen ih p =
      either OnWalk seen.rawmode {x = went_raw seen} {y = at_end seen} p p
  keep_behind next (b ∷ rest) seen ih p =
      either OnWalk seen.rawmode
        {x = went_raw (record seen { host = device_push_back seen.host (b ∷ rest) })}
        (k.keep_push seen.host (b ∷ rest) p) (ih (b ∷ rest) seen p)

  keep_message :
      (next : Bytes → Seen D G → Walked D G) (rest : Bytes) (node : Option XmlNode)
      (seen : Seen D G)
      → Walks next
      → P seen.host
      → OnWalk (message env parser next rest node seen)
  unfolding message take_message
  keep_message next rest none seen ih p = p
  keep_message next rest (some node) seen ih p =
      keep_behind next rest (take_message env parser node seen) ih (k.keep_marker seen.host node p)

  keep_start :
      (next : Bytes → Seen D G → Walked D G) (buf : Bytes) (at : Option ℕ) (seen : Seen D G)
      → Walks next
      → P seen.host
      → OnWalk (from_start env parser next buf at seen)
  unfolding from_start
  keep_start next buf none seen ih p = p
  keep_start next buf (some at) seen ih p = keep_message next _ _ seen ih p

  keep_walk : (rounds : ℕ) → Walks (walk env parser rounds)
  unfolding Walks walk
  keep_walk zero buf seen p = p
  keep_walk (suc rounds) buf seen p =
      keep_start (walk env parser rounds) buf _ seen (keep_walk rounds) p

  keep_wait :
      (next : Seen D G → Result env parser) (timeout : ℕ) (seen : Seen D G)
      → Goes next
      → P seen.host
      → OnResult (wait_on env parser next timeout seen)
  unfolding wait_on Goes
  keep_wait next timeout seen ih p =
      either OnResult (ltb seen.host.wire.now timeout)
        {y = some (error etimedout, seen.data_of, seen.host)} (ih seen p) p

  keep_silence :
      (next : Seen D G → Result env parser) (timeout : ℕ) (r : Reply) (seen : Seen D G)
      → Goes next
      → P seen.host
      → OnResult (on_silence env parser next timeout r seen)
  unfolding on_silence
  keep_silence next timeout (code ret) seen ih p = p
  keep_silence next timeout (error e) seen ih p = keep_wait next timeout seen ih p

  keep_after :
      (next : Seen D G → Result env parser) (w : Walked D G)
      → Goes next
      → OnWalk w
      → OnResult (after_walk env parser next w)
  unfolding after_walk Goes
  keep_after next (malformed seen) ih p = p
  keep_after next (went_raw seen) ih p = p
  keep_after next (at_end seen) ih p = ih seen p

  keep_on_read :
      (next : Seen D G → Result env parser) (timeout : ℕ) (n : Rx) (seen : Seen D G)
      → Goes next
      → P seen.host
      → OnResult (on_read env parser next timeout n seen)
  unfolding on_read Walks
  keep_on_read next timeout (failed etimedout) seen ih p =
      keep_silence next timeout seen.resp seen ih p
  keep_on_read next timeout (failed _) seen ih p = p
  keep_on_read next timeout (got []) seen ih p = keep_wait next timeout seen ih p
  keep_on_read next timeout (got (b ∷ buf)) seen ih p =
      keep_after next _ ih (keep_walk (length (b ∷ buf)) (b ∷ buf) seen p)

  keep_rounds : (rounds timeout : ℕ) → Goes (read_rounds env parser rounds timeout)
  unfolding Goes read_rounds
  keep_rounds zero timeout seen p = tt
  keep_rounds (suc rounds) timeout seen p =
      let (n, h) = device_read seen.host 4095 100 in
      keep_on_read (read_rounds env parser rounds timeout) timeout n (record seen { host = h })
        (keep_rounds rounds timeout) (k.keep_read seen.host 4095 100 p)

  keep_returned :
      (x : D) (h : Host G) (r : Result env parser)
      → P h
      → OnResult r
      → P (returned env parser x h r).2
  unfolding returned
  keep_returned x h none p q = p
  keep_returned x h (some r) p q = q

  pub keep_firehose_read :
      (timeout_ms : ℕ) (x : D) (h : Host G) → P h → P (firehose_read env parser timeout_ms x h).2
  unfolding firehose_read Goes
  keep_firehose_read timeout_ms x h p =
      keep_returned x h _ p (keep_rounds (suc (budget h)) _ (first_seen env parser x h) p)
