-- ===== src/Firehose/Receive/Splice.antt =====
-- A read that delivers a response with raw data behind it (src/firehose.c, `firehose_read`).
use qdl.Base.{
  ℕ, zero, suc, false, ◌∙◌, drop, length-append, ◌+◌, ◌≤◌, ◌≡◌, refl, sym, ap, subst, true, false,
  some, List, [], ◌∷◌, ◌++◌, Bytes, length, arith, strstr, codes, cut_at_nul, take_all, le→leb,
  take-append_of_length, drop-append_exact,
}
use qdl.Io
use qdl.Io.{Rx, got, failed, eio, nothing_pending}
use qdl.Io.Refine.{IsValid, queue, qdl_push_back-refines, offer}
use qdl.Firehose.{
  XmlNode, Event, arrives, Wire, Env, Host, device_read, device_push_back, wire_read,
}
use qdl.Firehose.Message.{Parser, firehose_response_parse}
use qdl.Firehose.Receive.{
  Reply, code, Seen, Walked, went_raw, take_message, walk, on_read, first_seen, firehose_read,
  from_start, message, behind_message, after_walk,
}
use qdl.Firehose.Receive.Returns.{SameReads, SameReads-then, check_marker-SameReads}

-- A host whose transport delivers `buf` next.
abbrev pub about_to_get : {G : Type 0} → Host G → Bytes → ℕ → List (Event × ℕ) → Host G
about_to_get h buf t es = record h {
  wire = record h.wire { events = (arrives buf, t) ∷ es };
  pending = nothing_pending;
  granted = [];
}

-- The host once all of it is read.
abbrev pub has_got : {G : Type 0} → Host G → ℕ → List (Event × ℕ) → Host G
has_got h t es = record h {
  wire = record h.wire { events = es; now = t };
  pending = nothing_pending;
  granted = [];
}

module _ {G : Type 0} where
  device_read-whole :
      (h : Host G) (buf : Bytes) (t : ℕ) (es : List (Event × ℕ))
      → length buf ≤ 4095
      → device_read (about_to_get h buf t es) 4095 100 ≡ (got buf, has_got h t es)
  unfolding device_read wire_read Io.qdl_read
  device_read-whole h buf t es fits =
      rw (take_all 4095 buf fits, le→leb (length buf) 4095 fits) refl

  device_push_back-queue :
      (h : Host G) (b : ℕ) (buf : Bytes)
      → h.pending ≡ nothing_pending
      → h.granted ≡ []
      → IsValid (device_push_back h (b ∷ buf)).pending
        × (queue (device_push_back h (b ∷ buf)).pending ≡ b ∷ buf)
  unfolding device_push_back offer
  device_push_back-queue h b buf p g =
      rw (p, g)
        (let (v, e) = qdl_push_back-refines true nothing_pending (b ∷ buf) (refl, refl) in
          (v, ap (λ o. o.1) e))

-- What a read with raw data leaves behind: the reply, and the data as the next bytes to read.
pub record Spliced (D G : Type 0) (ret : ℕ) (x : D) (payload : Bytes) (w : Wire)
    (out : Reply × D × Host G) : Type 0 where
  pub reply : out.0 ≡ code ret
  pub data_lem : out.1 ≡ x
  pub valid : IsValid out.2.pending
  pub kept : queue out.2.pending ≡ payload
  pub taken : out.2.wire ≡ w

module _ {G : Type 0} (env : Env G) {D : Type 0} (parser : Parser D) where
  pushed : Bytes → Seen D G → Seen D G
  pushed [] seen = seen
  pushed (b ∷ rest) seen = record seen { host = device_push_back seen.host (b ∷ rest) }

  behind_message-raw :
      (next : Bytes → Seen D G → Walked D G) (rest : Bytes) (seen : Seen D G)
      → seen.rawmode ≡ true
      → behind_message env parser next rest seen ≡ went_raw (pushed rest seen)
  unfolding behind_message pushed
  behind_message-raw next [] seen e = rw e refl
  behind_message-raw next (b ∷ rest) seen e = rw e refl

  behind_message-on :
      (next : Bytes → Seen D G → Walked D G) (b : ℕ) (rest : Bytes) (seen : Seen D G)
      → seen.rawmode ≡ false
      → behind_message env parser next (b ∷ rest) seen ≡ next (b ∷ rest) seen
  unfolding behind_message
  behind_message-on next b rest seen e = rw e refl

  pushed-Spliced :
      (payload : Bytes) (ret : ℕ) (x : D) (w : Wire) (seen : Seen D G)
      → seen.resp ≡ code ret
      → seen.data_of ≡ x
      → seen.host.pending ≡ nothing_pending
      → seen.host.granted ≡ []
      → seen.host.wire ≡ w
      → let s = pushed payload seen in Spliced D G ret x payload w (s.resp, s.data_of, s.host)
  unfolding pushed device_push_back
  pushed-Spliced [] ret x w seen r y p g e = record {
    reply = r;
    data_lem = y;
    valid = subst IsValid (sym p) (refl, refl);
    kept = ap queue p;
    taken = e;
  }
  pushed-Spliced (b ∷ payload) ret x w seen r y p g e =
      let (v, q) = device_push_back-queue seen.host b payload p g in
      record { reply = r; data_lem = y; valid = v; kept = q; taken = e }

  -- `buf` holds the document `doc` behind other bytes, and `rest` behind it: what is searched for is
  -- found where the document begins and ends, up to a NUL, and libxml2 reads it as `node`.
  pub record IsMessage (buf doc rest : Bytes) (node : XmlNode) : Type 0 where
    pub front : Bytes
    pub end : ℕ
    pub buf_lem : buf ≡ front ++ (doc ++ rest)
    pub start_lem : strstr (cut_at_nul buf) (codes "<?xml") ≡ some (length front)
    pub end_lem : strstr (cut_at_nul (doc ++ rest)) (codes "</data>") ≡ some end
    pub doc_lem : end + 7 ≡ length doc
    pub node_lem : firehose_response_parse env doc ≡ some node

  -- `buf` holds messages, with other bytes in front of each, of which the last is the first to start
  -- raw mode. Then `payload` stands behind it and `out` is known.
  pub data ToRaw (payload : Bytes) (out : Seen D G) : Bytes → Seen D G → Type 0 where
    raw_message :
        {buf : Bytes} {seen : Seen D G} (doc : Bytes) (node : XmlNode)
        → IsMessage buf doc payload node
        → (take_message env parser node seen).rawmode ≡ true
        → out ≡ take_message env parser node seen
        → ToRaw payload out buf seen
    other_message :
        {buf : Bytes} {seen : Seen D G} (doc : Bytes) (b : ℕ) (rest : Bytes) (node : XmlNode)
        → IsMessage buf doc (b ∷ rest) node
        → (take_message env parser node seen).rawmode ≡ false
        → ToRaw payload out (b ∷ rest) (take_message env parser node seen)
        → ToRaw payload out buf seen

  take_message-SameReads :
      (node : XmlNode) (seen : Seen D G)
      → SameReads seen.host (take_message env parser node seen).host
  unfolding take_message
  take_message-SameReads node seen = check_marker-SameReads seen.host node

  ToRaw-SameReads :
      (payload : Bytes) (out : Seen D G) {buf : Bytes} {seen : Seen D G}
      → ToRaw payload out buf seen
      → SameReads seen.host out.host
  ToRaw-SameReads payload out {seen = seen} (raw_message doc node m r e) =
      subst (λ (o : Seen D G). SameReads seen.host o.host) (sym e)
        (take_message-SameReads node seen)
  ToRaw-SameReads payload out {seen = seen} (other_message doc b rest node m r raw) =
      SameReads-then _ _ _ (take_message-SameReads node seen) (ToRaw-SameReads payload out raw)

  -- A round of the walk, over a message.
  walk-message :
      (rounds : ℕ) (buf doc rest : Bytes) (node : XmlNode) (seen : Seen D G)
      → IsMessage buf doc rest node
      → walk env parser (suc rounds) buf seen
        ≡ behind_message env parser
            (walk env parser rounds)
            rest
            (take_message env parser node seen)
  unfolding walk from_start message
  walk-message rounds buf doc rest node seen m =
      let cut : drop (length m.front) buf ≡ doc ++ rest =
        ap (drop (length m.front)) m.buf_lem ∙ drop-append_exact m.front (doc ++ rest) in
      rw
        (
          m.start_lem,
          cut,
          m.end_lem,
          m.doc_lem,
          take-append_of_length (length doc) doc rest refl,
          drop-append_exact doc rest,
          m.node_lem,
        )
        refl

  shorter :
      (buf doc rest : Bytes) (node : XmlNode)
      → IsMessage buf doc rest node
      → length rest + 7 ≤ length buf
  shorter buf doc rest node m = omega (
    arith,
    m.doc_lem,
    ap length m.buf_lem,
    length-append {0} m.front (doc ++ rest),
    length-append {0} doc rest,
  )

  ToRaw-nonempty :
      {payload : Bytes} {out : Seen D G} {buf : Bytes} {seen : Seen D G}
      → ToRaw payload out buf seen
      → 7 ≤ length buf
  ToRaw-nonempty {payload = payload} {buf = buf} (raw_message doc node m r e) =
      omega (arith, shorter buf doc payload node m)
  ToRaw-nonempty {buf = buf} (other_message doc b rest node m r raw) =
      omega (arith, shorter buf doc (b ∷ rest) node m)

  walk-ToRaw :
      (payload : Bytes) (out : Seen D G) (rounds : ℕ) {buf : Bytes} {seen : Seen D G}
      → ToRaw payload out buf seen
      → length buf ≤ rounds
      → walk env parser rounds buf seen ≡ went_raw (pushed payload out)
  walk-ToRaw payload out zero {buf = buf} (raw_message doc node m r e) l =
      absurd (omega (arith, l, shorter buf doc payload node m))
  walk-ToRaw payload out zero {buf = buf} (other_message doc b rest node m r raw) l =
      absurd (omega (arith, l, shorter buf doc (b ∷ rest) node m))
  walk-ToRaw payload out (suc rounds) {buf = buf} {seen = seen} (raw_message doc node m r e) l =
      walk-message rounds buf doc payload node seen m
      ∙ behind_message-raw (walk env parser rounds) payload _ r
      ∙ ap (λ (o : Seen D G). went_raw (pushed payload o)) (sym e)
  walk-ToRaw payload out (suc rounds) {buf = buf} {seen = seen}
        (other_message doc b rest node m r raw) l =
      walk-message rounds buf doc (b ∷ rest) node seen m
      ∙ behind_message-on (walk env parser rounds) b rest _ r
      ∙ walk-ToRaw payload out rounds raw (omega (arith, l, shorter buf doc (b ∷ rest) node m))

  -- A single read delivers, in at most 4095 bytes, messages with other bytes in front of each, of which
  -- the last is the first that starts raw mode, and raw data spliced behind it; nothing was pushed back
  -- before, and no allocation fails. Then `firehose_read` returns the last response at once, and the raw
  -- data are the bytes that the next reads get, whatever the transport would do next.
  pub firehose_read-Spliced :
      (timeout_ms ret t : ℕ) (buf payload : Bytes) (x : D) (out : Seen D G) (h : Host G)
      (es : List (Event × ℕ))
      → length buf ≤ 4095
      → ToRaw payload out buf (record (first_seen env parser x h) { host = has_got h t es })
      → out.resp ≡ code ret
      → Spliced D G ret out.data_of payload
          (record h.wire { events = es; now = t })
          (firehose_read env parser timeout_ms x (about_to_get h buf t es))
  unfolding firehose_read on_read after_walk
  firehose_read-Spliced timeout_ms ret t [] payload x out h es fits raw e =
      absurd (omega (arith, ToRaw-nonempty raw))
  firehose_read-Spliced timeout_ms ret t (b ∷ buf) payload x out h es fits raw e =
      let same = ToRaw-SameReads payload out raw in
      rw
        (
          device_read-whole h (b ∷ buf) t es fits,
          walk-ToRaw payload out (suc (length buf)) raw (omega arith),
        )
        (pushed-Spliced payload ret out.data_of _ out e refl same.same_pending same.same_granted
          same.same_wire)
