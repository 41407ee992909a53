-- ===== src/Firehose/Send/Returns.antt =====
-- The retries of `firehose_write` of src/firehose.c.
use qdl.Base.{
  ℕ, zero, suc, ◌≡◌, refl, sym, append-nil, ap, subst, ◌∙◌, Bool, true, false, Option, none, some,
  List, [], ◌∷◌, ◌++◌, Bytes, take, replicate,
}
use qdl.Io.{etimedout, enodev, eio, einval, enomem, enametoolong, Tx, wrote, refused}
use qdl.Io.Keeps.{keep_qdl_read}
use qdl.Firehose.{
  Event, arrives, silence, unplugged, broken, Wire, Env, Host, device_read, device_write,
  device_push_back, wire_read, wire_write, read_events, read_event, write_as,
}
use qdl.Firehose.Message.{check_vip_marker-cases, firehose_generic_parser}
use qdl.Firehose.Receive.Keeps.{Kept, keep_firehose_read}
use qdl.Firehose.Send.{generic_read, update_chunk, retry, write_rounds}

-- What the writes will return, and what was sent.
abbrev WireStands : List Tx → List Bytes → Wire → Type 0
WireStands rs s w = (w.write_results ≡ rs) × (w.sent ≡ s)

wire_read-WireStands :
    (rs : List Tx) (s : List Bytes) (w : Wire) (len timeout : ℕ)
    → WireStands rs s w
    → WireStands rs s (wire_read w len timeout).1
unfolding wire_read read_events read_event
wire_read-WireStands rs s w len timeout p = by_events w.events
  where
    by_events : (es : List (Event × ℕ)) → WireStands rs s (read_events es w len).1
    by_events [] = p
    by_events ((arrives b, t) ∷ es) = p
    by_events ((silence, t) ∷ es) = p
    by_events ((unplugged, t) ∷ es) = p
    by_events ((broken, t) ∷ es) = p

module _ {G : Type 0} where
  abbrev pub Stands : List Tx → List Bytes → Host G → Type 0
  Stands rs s h = WireStands rs s h.wire

  device_read-Stands :
      (rs : List Tx) (s : List Bytes) (h : Host G) (len timeout : ℕ)
      → Stands rs s h
      → Stands rs s (device_read h len timeout).1
  unfolding device_read
  device_read-Stands rs s h len timeout p =
      keep_qdl_read wire_read (WireStands rs s) (wire_read-WireStands rs s) h.pending h.wire len
        timeout p

  push_back-Stands :
      (rs : List Tx) (s : List Bytes) (h : Host G) (buf : Bytes)
      → Stands rs s h
      → Stands rs s (device_push_back h buf)
  unfolding device_push_back
  push_back-Stands rs s h buf p = p

  Stands-Kept : (rs : List Tx) (s : List Bytes) → Kept G (Stands rs s)
  Stands-Kept rs s = record {
    keep_read = device_read-Stands rs s;
    keep_push = push_back-Stands rs s;
    keep_marker = λ h node p. check_vip_marker-cases (Stands rs s) h node p p;
  }

-- A write that is not tried again.
abbrev pub IsFinal : Tx → Type 0
IsFinal (refused etimedout) = ⊥
IsFinal (refused _) = Unit
IsFinal (wrote n) = Unit

abbrev pub succeeded : Tx → Bool
succeeded (wrote n) = true
succeeded (refused e) = false

-- what a write adds to what was sent
abbrev pub delivered : Tx → Bytes → List Bytes
delivered (wrote n) bytes = take n bytes ∷ []
delivered (refused e) bytes = []

-- The loop has ended with this flag, these results of writes left, and this sent.
abbrev pub EndsWith : {G : Type 0} → Bool → List Tx → List Bytes → Option (Bool × Host G) → Type 0
EndsWith ok rs s none = ⊥
EndsWith ok rs s (some (b, h)) = (b ≡ ok) × Stands rs s h

module _ {G : Type 0} (env : Env G) where
  generic_read-Stands :
      (rs : List Tx) (s : List Bytes) (timeout_ms : ℕ) (h : Host G)
      → Stands rs s h
      → Stands rs s (generic_read env timeout_ms h).1
  unfolding generic_read
  generic_read-Stands rs s timeout_ms h p =
      keep_firehose_read env (firehose_generic_parser {D = Unit {0}}) (Stands-Kept rs s) timeout_ms
        tt h p

  -- What a write does that returns `r`.
  device_write-returns :
      (r : Tx) (rs : List Tx) (s : List Bytes) (h : Host G) (bytes : Bytes)
      → Stands (r ∷ rs) s h
      → ((device_write h bytes).0 ≡ r) × Stands rs (s ++ delivered r bytes) (device_write h bytes).1
  unfolding device_write wire_write write_as
  device_write-returns (wrote n) rs s h bytes (p, q) =
      rw p (refl, (refl, ap (λ t. t ++ take n bytes ∷ []) q))
  device_write-returns (refused e) rs s h bytes (p, q) = rw p (refl, (refl, q ∙ sym (append-nil s)))

  retry-final :
      (next : Host G → Option (Bool × Host G)) (r : Tx) (rs : List Tx) (s : List Bytes)
      (out : Tx × Host G)
      → IsFinal r
      → out.0 ≡ r
      → Stands rs s out.1
      → EndsWith (succeeded r) rs s (retry env next out)
  unfolding retry
  retry-final next (wrote n) rs s (t, h) f e p = rw e (refl, p)
  retry-final next (refused etimedout) rs s (t, h) f e p = absurd f
  retry-final next (refused enodev) rs s (t, h) f e p = rw e (refl, p)
  retry-final next (refused eio) rs s (t, h) f e p = rw e (refl, p)
  retry-final next (refused einval) rs s (t, h) f e p = rw e (refl, p)
  retry-final next (refused enomem) rs s (t, h) f e p = rw e (refl, p)
  retry-final next (refused enametoolong) rs s (t, h) f e p = rw e (refl, p)

  -- When the next `times` writes time out and the one behind them, `r`, does not, the loop of
  -- `firehose_write` writes these `times + 1` times and no more: it succeeds exactly when `r` does, it
  -- has sent what `r` took of the message and nothing else, and the writes behind `r`, whatever they
  -- return, are left.
  pub write_rounds-Retries :
      (times : ℕ) (r : Tx) (rs : List Tx) (s : List Bytes) (bytes : Bytes) (h : Host G)
      → IsFinal r
      → Stands (replicate times (refused etimedout) ++ r ∷ rs) s h
      → EndsWith (succeeded r) rs (s ++ delivered r bytes) (write_rounds env (suc times) bytes h)
  unfolding write_rounds retry
  write_rounds-Retries zero r rs s bytes h f p =
      let (e, q) = device_write-returns r rs s (update_chunk env h bytes) bytes p in
      retry-final (write_rounds env zero bytes) r rs (s ++ delivered r bytes) _ f e q
  write_rounds-Retries (suc times) r rs s bytes h f p =
      let later = replicate times (refused etimedout) ++ r ∷ rs in
      let (e, q) =
        device_write-returns (refused etimedout) later s (update_chunk env h bytes) bytes p in
      let h' = (device_write (update_chunk env h bytes) bytes).1 in
      subst
        (λ (t : Tx).
          EndsWith (succeeded r) rs (s ++ delivered r bytes)
            (retry env (write_rounds env (suc times) bytes) (t, h')))
        (sym e)
        (write_rounds-Retries times r rs s bytes (generic_read env 100 h').1 f (
          generic_read-Stands later s 100 h'
            (subst (λ (t : List Bytes). Stands later t h') (append-nil s) q)))
