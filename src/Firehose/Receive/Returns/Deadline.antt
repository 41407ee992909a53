-- ===== src/Firehose/Receive/Returns/Deadline.antt =====
-- `firehose_read` of src/firehose.c does not wait beyond its timeout.
use qdl.Base.{
  ℕ, zero, suc, ◌+◌, ◌*◌, ◌≤◌, ◌<◌, ◌≡◌, refl, sym, subst, false, List, [], ◌∷◌, ◌++◌, Bytes,
  length, drop, length-drop, ◌⊎◌, inl, inr, arith, ltb-false, leb, Bool-cases,
}
use qdl.Io
use qdl.Io.{etimedout, enodev, eio, einval, enomem, enametoolong, Rx, got, failed, Pending}
use qdl.Io.Refine.{IsValid, queue, poll, qdl_read-refines}
use qdl.Firehose.{
  Event, arrives, silence, unplugged, broken, Wire, Env, Host, device_read, wire_read, read_events,
  read_event,
}
use qdl.Firehose.Message.{Parser}
use qdl.Firehose.Receive.{
  Reply, error, code, Seen, Walked, malformed, went_raw, at_end, events_size, walk, Result, wait_on,
  on_silence, after_walk, on_read, read_rounds, first_seen,
}
use qdl.Firehose.Receive.Returns.{
  HasEnded, SameReads, Quiet, walk-Quiet, wait_on-Ends, on_silence-Ends,
}

module _ (deadline : ℕ) (later : List (Event × ℕ)) where
  -- The device is silent at the deadline or behind it, before it does what is in `later`; until then
  -- there is less than `n` to read.
  record DueAt (n : ℕ) (q : Bytes) (w : Wire) : Type 0 where
    pub before : List (Event × ℕ)
    pub t : ℕ
    pub events_lem : w.events ≡ before ++ (silence, t) ∷ later
    pub late : deadline ≤ t
    pub less : length q + events_size before < n

  -- What a read does on the way to that silence.
  Nears : ℕ → Rx × Bytes × Wire → Type 0
  Nears n (r, q, w) =
      DueAt n q w ⊎ ((r ≡ failed enodev) ⊎ ((r ≡ failed etimedout) × (deadline ≤ w.now)))

  event-Nears :
      (n len t : ℕ) (before : List (Event × ℕ)) (w : Wire)
      → 0 < len
      → deadline ≤ t
      → events_size before < suc n
      → let (r, w') = read_events (before ++ (silence, t) ∷ later) w len in Nears n (r, [], w')
  unfolding read_events read_event Nears
  event-Nears n len t [] w pos late l = inr (inr (refl, late))
  event-Nears n len t ((silence, u) ∷ before) w pos late l =
      inl
        (record { before = before; t = t; events_lem = refl; late = late; less = omega (arith, l) })
  event-Nears n len t ((unplugged, u) ∷ before) w pos late l = inr (inl refl)
  event-Nears n len t ((broken, u) ∷ before) w pos late l =
      inl
        (record { before = before; t = t; events_lem = refl; late = late; less = omega (arith, l) })
  event-Nears n len t ((arrives b, u) ∷ before) w pos late l =
      elim (Bool-cases (leb (length b) len)) [
        | inl e ↦ rw e (
            inl (record {
              before = before;
              t = t;
              events_lem = refl;
              late = late;
              less = omega (arith, l);
            }))
        | inr e ↦ rw e (
            inl (record {
              before = (arrives (drop len b), u) ∷ before;
              t = t;
              events_lem = refl;
              late = late;
              less = omega (arith, l, length-drop {0} len b, more e, pos);
            }))
      ]
    where
      more : leb (length b) len ≡ false → len < length b
      more e = ground arith

  poll-Nears :
      (n len timeout : ℕ) (q : Bytes) (w : Wire)
      → 0 < len
      → DueAt (suc n) q w
      → Nears n (poll wire_read q w len timeout)
  unfolding poll wire_read Nears
  poll-Nears n len timeout [] w pos d =
      rw d.events_lem (event-Nears n len d.t d.before _ pos d.late (omega (arith, d.less)))
  poll-Nears n len timeout (b ∷ q) w pos d = inl (record {
    before = d.before;
    t = d.t;
    events_lem = d.events_lem;
    late = d.late;
    less = omega (arith, length-drop {0} len (b ∷ q), d.less, pos);
  })

  module _ {G : Type 0} where
    record Due (n : ℕ) (h : Host G) : Type 0 where
      pub valid : IsValid h.pending
      pub due : DueAt n (queue h.pending) h.wire

    Due-SameReads : (n : ℕ) (h h' : Host G) → SameReads h h' → Due n h → Due n h'
    Due-SameReads n h h' same d = record {
      valid = subst IsValid (sym same.same_pending) d.valid;
      due =
          subst (λ p. DueAt n (queue p) h'.wire) (sym same.same_pending)
            (subst (DueAt n (queue h.pending)) (sym same.same_wire) d.due);
    }

    -- Near the silence, gone, or at it.
    Step : ℕ → Rx × Host G → Type 0
    Step n (r, h) =
        Due n h ⊎ ((r ≡ failed enodev) ⊎ ((r ≡ failed etimedout) × (deadline ≤ h.wire.now)))

    device_read-Step :
        (n len timeout : ℕ) (h : Host G)
        → 0 < len
        → Due (suc n) h
        → Step n (device_read h len timeout)
    unfolding device_read Step Nears
    device_read-Step n len timeout h pos d =
        let (v, e) = qdl_read-refines wire_read h.pending h.wire len timeout d.valid in
        let (r, p, w) = Io.qdl_read wire_read h.pending h.wire len timeout in
        let near : Nears n (r, queue p, w) =
          subst (Nears n) (sym e) (poll-Nears n len timeout (queue h.pending) h.wire pos d.due) in
        with_valid r p w v near
      where
        with_valid :
            (r : Rx) (p : Pending) (w : Wire)
            → IsValid p
            → Nears n (r, queue p, w)
            → Step n (r, record h { pending = p; wire = w })
        with_valid r p w v (inl due) = inl (record { valid = v; due = due })
        with_valid r p w v (inr e) = inr e

  module _ {G : Type 0} (env : Env G) {D : Type 0} (parser : Parser D) where
    EndsDue : (Seen D G → Result env parser) → ℕ → Type 0
    EndsDue next n = (seen : Seen D G) → Due n seen.host → HasEnded (next seen)

    silence-late :
        (next : Seen D G → Result env parser) (r : Reply) (seen : Seen D G)
        → deadline ≤ seen.host.wire.now
        → HasEnded (on_silence env parser next deadline r seen)
    unfolding on_silence wait_on
    silence-late next (code ret) seen l = tt
    silence-late next (error e) seen l = rw (ltb-false seen.host.wire.now deadline l) tt

    after_walk-Due :
        (next : Seen D G → Result env parser) (n : ℕ) (h : Host G) (w : Walked D G)
        → EndsDue next n
        → Due n h
        → Quiet env parser h w
        → HasEnded (after_walk env parser next w)
    unfolding after_walk EndsDue
    after_walk-Due next n h (malformed seen) ih d q = tt
    after_walk-Due next n h (went_raw seen) ih d q = tt
    after_walk-Due next n h (at_end seen) ih d q = ih seen (Due-SameReads n h seen.host q d)

    on_read-Due :
        (next : Seen D G → Result env parser) (n : ℕ) (r : Rx) (seen : Seen D G)
        → EndsDue next n
        → Step n (r, seen.host)
        → HasEnded (on_read env parser next deadline r seen)
    unfolding on_read EndsDue Step qdl.Firehose.Receive.Returns.Walks
    on_read-Due next n (failed etimedout) seen ih (inl d) =
        on_silence-Ends env parser next deadline seen.resp seen (ih seen d)
    on_read-Due next n (failed etimedout) seen ih (inr (inl e)) = absurd (cc)
    on_read-Due next n (failed etimedout) seen ih (inr (inr (e, l))) =
        silence-late next seen.resp seen l
    on_read-Due next n (failed enodev) seen ih s = tt
    on_read-Due next n (failed eio) seen ih s = tt
    on_read-Due next n (failed einval) seen ih s = tt
    on_read-Due next n (failed enomem) seen ih s = tt
    on_read-Due next n (failed enametoolong) seen ih s = tt
    on_read-Due next n (got []) seen ih (inl d) =
        wait_on-Ends env parser next deadline seen (ih seen d)
    on_read-Due next n (got []) seen ih (inr (inl e)) = absurd (cc)
    on_read-Due next n (got []) seen ih (inr (inr (e, l))) = absurd (cc)
    on_read-Due next n (got (b ∷ buf)) seen ih (inl d) =
        after_walk-Due next n seen.host _ ih d
          (walk-Quiet env parser (length (b ∷ buf)) (b ∷ buf) seen)
    on_read-Due next n (got (b ∷ buf)) seen ih (inr (inl e)) = absurd (cc)
    on_read-Due next n (got (b ∷ buf)) seen ih (inr (inr (e, l))) = absurd (cc)

    read_rounds-Due : (n : ℕ) → EndsDue (read_rounds env parser n deadline) n
    unfolding EndsDue read_rounds
    read_rounds-Due zero seen d = absurd (omega (arith, d.due.less))
    read_rounds-Due (suc n) seen d =
        on_read-Due (read_rounds env parser n deadline) n _ _ (read_rounds-Due n)
          (device_read-Step n 4095 100 seen.host (omega arith) d)

-- `firehose_read` returns when the device has once been silent up to the timeout, whatever it sends
-- before that silence and whatever it would do behind it: its loop has then ended, within a round for
-- each byte and event before the silence and one more, on a host whose pushback buffer is well formed.
pub read_rounds-MeetsDeadline :
    {G : Type 0} (env : Env G) {D : Type 0} (parser : Parser D) (timeout_ms t : ℕ) (x : D)
    (h : Host G) (before later : List (Event × ℕ))
    → IsValid h.pending
    → h.wire.events ≡ before ++ (silence, t) ∷ later
    → h.wire.now + 1000 * timeout_ms ≤ t
    → HasEnded (
        read_rounds env parser
          (suc (length (queue h.pending) + events_size before))
          (h.wire.now + 1000 * timeout_ms)
          (first_seen env parser x h))
unfolding EndsDue
read_rounds-MeetsDeadline env parser timeout_ms t x h before later v e l =
    read_rounds-Due (h.wire.now + 1000 * timeout_ms) later env parser
      (suc (length (queue h.pending) + events_size before)) (first_seen env parser x h)
      (record {
        valid = v;
        due = record { before = before; t = t; events_lem = e; late = l; less = omega arith };
      })
