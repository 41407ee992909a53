-- ===== src/Sahara/Invariant.antt =====
-- src/sahara.c: the messages that a host may send, and what the handlers keep.
use qdl.Base.{
  either, ℕ, ◌+◌, ◌-◌, ◌≤◌, Bool, false, not, ◌||◌, ◌≡◌, refl, inl, inr, Option, none, some, [],
  ◌∷◌, Bytes, take, drop, ltb, ◌==◌, ◌^◌, Bool-cases, arith,
}
use qdl.Io.{Tx, wrote, refused}
use qdl.Sahara.{Wire, send, receive, Images}
use qdl.Sahara.Handlers.{
  reset_packet, hello_resp_packet, done_packet, image_at, sahara_send_reset, sahara_send_hello_resp,
  sahara_hello, sahara_version, send_range, whole_write, sahara_read, sahara_read64, sahara_eoi,
  sahara_done,
}
use qdl.Sahara.Pkt
use qdl.Sahara.Length
use qdl.Sahara.Dump.{Host, unsafe_name, dump_path, extend_last}
use qdl.Sahara.Ramdump.{mem_read64_packet}

-- What a message may be: a fixed answer, a request for memory, or a part of an image that lies
-- within it.
pub data Allowed (images : Images) : Bytes → Type 0 where
  a_reset : Allowed images reset_packet
  a_hello_resp : (version mode : ℕ) → Allowed images (hello_resp_packet version mode)
  a_done : Allowed images done_packet
  a_mem_read64 : (addr len : ℕ) → Allowed images (mem_read64_packet addr len)
  a_range :
      (idx : ℕ) (content : Bytes) (image_len offset len : ℕ)
      → image_at images idx ≡ some (content, image_len)
      → offset + len ≤ image_len
      → Allowed images (take len (drop offset content))

-- A predicate that survives each thing the protocol does to the host.
pub record Kept (images : Images) (path : Option Bytes) (P : Host → Type 0) : Type 0 where
  pub keep_send :
      (h : Host) (msg : Bytes)
      → Allowed images msg
      → P h
      → P (record h { wire = (send h.wire msg).1 })
  pub keep_receive : (h : Host) (n : ℕ) → P h → P (record h { wire = (receive h.wire n).1 })
  pub keep_open :
      (h : Host) (name : Bytes)
      → unsafe_name name ≡ false
      → P h
      → P (record h { files = (dump_path path name, []) ∷ h.files })
  pub keep_write : (h : Host) (buf : Bytes) → P h → P (record h { files = extend_last buf h.files })
  pub keep_count : (h : Host) → P h → P (record h { writes = h.writes + 1 })

module _ {images : Images} {path : Option Bytes} {P : Host → Type 0} (k : Kept images path P) where
  -- the wire of a handler's result
  abbrev pub On : {A : Type 0} → Host → A × Wire → Type 0
  On h r = P (record h { wire = r.1 })

  pub keep_reset : (h : Host) → P h → P (record h { wire = sahara_send_reset h.wire })
  unfolding sahara_send_reset
  keep_reset h p = k.keep_send h reset_packet a_reset p

  pub keep_hello : (pkt : Bytes) (h : Host) → P h → On h (sahara_hello pkt h.wire)
  unfolding sahara_hello sahara_send_hello_resp
  keep_hello pkt h p =
      either (On h) _ (keep_reset h p)
        (k.keep_send h _ (a_hello_resp sahara_version (Pkt.word pkt 3)) p)

  -- the guard of `sahara_read`: the range lies in the image
  range_fits : (n offset len : ℕ) → ltb n offset || ltb (n - offset) len ≡ false → offset + len ≤ n
  range_fits n offset len h = ground arith

  keep_whole : (h : Host) (len : ℕ) (r : Tx × Wire) → On h r → On h (whole_write len r)
  keep_whole h len (wrote n, w) p = p
  keep_whole h len (refused e, w) p = p

  keep_range :
      (idx : ℕ) (o : Option (Bytes × ℕ)) (offset len : ℕ) (h : Host)
      → image_at images idx ≡ o
      → P h
      → On h (send_range o offset len h.wire)
  unfolding send_range
  keep_range idx none offset len h e p = keep_reset h p
  keep_range idx (some (content, n)) offset len h e p =
      elim (Bool-cases (ltb n offset || ltb (n - offset) len)) [
        | inl b ↦ rw (b) p
        | inr b ↦ rw (b) (
            keep_whole h len _
              (k.keep_send h _ (a_range idx content n offset len e (range_fits n offset len b)) p))
      ]

  pub keep_read : (pkt : Bytes) (h : Host) → P h → On h (sahara_read images pkt h.wire)
  unfolding sahara_read
  keep_read pkt h p =
      either (On h) _ (keep_reset h p)
        (keep_range (Pkt.word pkt 0) _ (Pkt.word pkt 1) (Pkt.word pkt 2) h refl p)

  pub keep_read64 : (pkt : Bytes) (h : Host) → P h → On h (sahara_read64 images pkt h.wire)
  unfolding sahara_read64
  keep_read64 pkt h p =
      either (On h) _ (keep_reset h p)
        (keep_range (Pkt.word pkt 0) _ (Pkt.quad pkt 1) (Pkt.quad pkt 2) h refl p)

  pub keep_eoi : (pkt : Bytes) (h : Host) → P h → On h (sahara_eoi pkt h.wire)
  unfolding sahara_eoi
  keep_eoi pkt h p =
      either (On {A = Bool} h) (not (Pkt.len pkt == Length.end_of_image)) (keep_reset h p)
        (either (On {A = Bool} h) (not (Pkt.word pkt 1 == 0)) p (k.keep_send h _ a_done p))

  pub keep_done : (pkt : Bytes) (h : Host) → P h → On h (sahara_done pkt h.wire)
  unfolding sahara_done
  keep_done pkt h p =
      either (On {A = Option ℕ} h) (not (Pkt.len pkt == Length.done_resp)) (keep_reset h p) (
        either (On {A = Option ℕ} h) (ltb (Pkt.word pkt 0) (2 ^ 31))
          {x = (some (Pkt.word pkt 0), h.wire)} {y = (none, h.wire)} p p)
