-- ===== src/Firehose/Receive/Budget.antt =====
-- What a read of the device leaves to be read: the measure of the loops of src/firehose.c.
use qdl.Base.{
  ℕ, ◌+◌, ◌-◌, ◌<◌, ◌≡◌, refl, sym, ap, subst, false, Option, none, some, List, [], ◌∷◌, Bytes,
  length, drop, length-take, length-drop, ◌⊎◌, inl, inr, leb, arith, Bool-cases,
}
use qdl.Io
use qdl.Io.{Rx, got, failed, enodev, Pending}
use qdl.Io.Refine.{IsValid, InBounds, queue, poll, qdl_read-refines}
use qdl.Firehose.{
  Event, arrives, silence, unplugged, broken, Wire, Host, wire_read, read_events, read_event,
  device_read,
}
use qdl.Firehose.Receive.{events_size, budget}

-- The bytes that were pushed back, and what the transport holds.
abbrev pub left : Bytes → Wire → ℕ
left q w = length q + events_size w.events

-- A read takes something, or the device is gone.
abbrev pub Progress : Bytes → Wire → Rx × Bytes × Wire → Type 0
Progress q w (r, q', w') = (left q' w' < left q w) ⊎ (r ≡ failed enodev)

read_event-Progress :
    (e : Event) (t : ℕ) (es : List (Event × ℕ)) (w : Wire) (len : ℕ)
    → 0 < len
    → w.events ≡ (e, t) ∷ es
    → let (r, w') = read_event (e, t) es w len in Progress [] w (r, [], w')
unfolding read_event
read_event-Progress (arrives bytes) t es w len h k =
    rw k (elim (Bool-cases (leb (length bytes) len)) [
      | inl e ↦ rw e (inl (omega arith))
      | inr e ↦ rw e (inl (omega (arith, length-drop {0} len bytes, more e)))
    ])
  where
    more : leb (length bytes) len ≡ false → len < length bytes
    more e = ground arith
read_event-Progress silence t es w len h k = rw k (inl (omega arith))
read_event-Progress unplugged t es w len h k = inr refl
read_event-Progress broken t es w len h k = rw k (inl (omega arith))

read_events-Progress :
    (es : List (Event × ℕ)) (w : Wire) (len : ℕ)
    → 0 < len
    → w.events ≡ es
    → let (r, w') = read_events es w len in Progress [] w (r, [], w')
unfolding read_events
read_events-Progress [] w len h k = inr refl
read_events-Progress ((e, t) ∷ es) w len h k = read_event-Progress e t es w len h k

poll-Progress :
    (q : Bytes) (w : Wire) (len timeout : ℕ)
    → 0 < len
    → Progress q w (poll wire_read q w len timeout)
unfolding poll wire_read
poll-Progress [] w len timeout h = read_events-Progress w.events w len h refl
poll-Progress (b ∷ q) w len timeout h = inl (omega (arith, length-drop {0} len (b ∷ q)))

abbrev none_left : Bytes
none_left = []

length-queue :
    (o : Option Bytes) (n off : ℕ)
    → InBounds o n off
    → let p : Pending = record { pending_buf = o; pending_len = n; pending_off = off } in
      length (queue p) ≡ n - off
length-queue none n off (a, b) =
    omega (arith, length-take {0} (n - off) (drop off none_left), length-drop {0} off none_left)
length-queue (some buf) n off (a, b) =
    omega (arith, length-take {0} (n - off) (drop off buf), length-drop {0} off buf)

module _ {G : Type 0} where
  pub budget-left : (h : Host G) → IsValid h.pending → budget h ≡ left (queue h.pending) h.wire
  unfolding budget
  budget-left h v =
      ap (λ n. n + events_size h.wire.events)
        (sym (length-queue h.pending.pending_buf h.pending.pending_len h.pending.pending_off v))

  -- What a read of the device leaves.
  pub record Spent (h : Host G) (out : Rx × Host G) : Type 0 where
    pub valid : IsValid out.1.pending
    pub less : (budget out.1 < budget h) ⊎ (out.0 ≡ failed enodev)

  pub device_read-Spent :
      (h : Host G) (len timeout : ℕ)
      → 0 < len
      → IsValid h.pending
      → Spent h (device_read h len timeout)
  unfolding device_read
  device_read-Spent h len timeout pos v =
      let (v', e) = qdl_read-refines wire_read h.pending h.wire len timeout v in
      let (r, p, w) = Io.qdl_read wire_read h.pending h.wire len timeout in
      let p : Progress (queue h.pending) h.wire (r, queue p, w) =
        subst (Progress (queue h.pending) h.wire) (sym e)
          (poll-Progress (queue h.pending) h.wire len timeout pos) in
      record { valid = v'; less = less_budget _ v' p }
    where
      less_budget :
          (out : Rx × Host G)
          → IsValid out.1.pending
          → Progress (queue h.pending) h.wire (out.0, queue out.1.pending, out.1.wire)
          → (budget out.1 < budget h) ⊎ (out.0 ≡ failed enodev)
      less_budget out v' (inl l) = inl (omega (arith, budget-left h v, budget-left out.1 v'))
      less_budget out v' (inr e) = inr e
