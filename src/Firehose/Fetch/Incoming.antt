-- ===== src/Firehose/Fetch/Incoming.antt =====
-- The bytes that reads of the device give, in order: those pushed back, then those that arrive.
use qdl.Base.{
  ℕ, ◌≤◌, ◌≡◌, sym, ap, subst, ◌∙◌, List, [], ◌∷◌, ◌++◌, Bytes, length, take, drop,
  take-append-drop, append_assoc, leb, leb→le, take_all, arith, Bool-cases, inl, inr, length-take,
}
use qdl.Io.{Rx, got, failed}
use qdl.Io.Refine.{IsValid, queue, poll, qdl_read-refines}
use qdl.Firehose.{
  Event, arrives, silence, unplugged, broken, Wire, Host, wire_read, read_events, read_event,
  device_read,
}

-- What arrives before the transport fails for the first time.
abbrev pub arrivals : List (Event × ℕ) → Bytes
arrivals [] = []
arrivals ((arrives bytes, t) ∷ es) = bytes ++ arrivals es
arrivals ((e, t) ∷ es) = []

unfoldable pub incoming : {G : Type 0} → Host G → Bytes
incoming h = queue h.pending ++ arrivals h.wire.events

-- A read takes the front of what is coming, no more than it asks for.
abbrev Takes : Bytes → ℕ → Rx × Bytes → Type 0
Takes before len (failed e, after) = Unit
Takes before len (got bytes, after) = (before ≡ bytes ++ after) × (length bytes ≤ len)

take_front :
    (len : ℕ) (bytes rest : Bytes) → bytes ++ rest ≡ take len bytes ++ (drop len bytes ++ rest)
take_front len bytes rest =
    ap (λ t. t ++ rest) (sym (take-append-drop len bytes))
    ∙ append_assoc (take len bytes) (drop len bytes) rest

length-take_le : (len : ℕ) (bytes : Bytes) → length (take len bytes) ≤ len
length-take_le len bytes = omega (arith, length-take {0} len bytes)

read_events-Takes :
    (es : List (Event × ℕ)) (w : Wire) (len : ℕ)
    → let (r, w') = read_events es w len in Takes (arrivals es) len (r, arrivals w'.events)
unfolding read_events read_event
read_events-Takes [] w len = tt
read_events-Takes ((silence, t) ∷ es) w len = tt
read_events-Takes ((unplugged, t) ∷ es) w len = tt
read_events-Takes ((broken, t) ∷ es) w len = tt
read_events-Takes ((arrives bytes, t) ∷ es) w len = elim (Bool-cases (leb (length bytes) len)) [
  | inl e ↦ rw e (
    ap (λ b. b ++ arrivals es) (sym (take_all len bytes (leb→le (length bytes) len e))),
    length-take_le len bytes,
  )
  | inr e ↦ rw e (take_front len bytes (arrivals es), length-take_le len bytes)
]

poll-Takes :
    (q : Bytes) (w : Wire) (len timeout : ℕ)
    → let (r, q', w') = poll wire_read q w len timeout in
      Takes (q ++ arrivals w.events) len (r, q' ++ arrivals w'.events)
unfolding poll wire_read
poll-Takes [] w len timeout = read_events-Takes w.events w len
poll-Takes (b ∷ q) w len timeout =
    (take_front len (b ∷ q) (arrivals w.events), length-take_le len (b ∷ q))

module _ {G : Type 0} where
  abbrev pub TakesFrom : Host G → ℕ → Rx × Host G → Type 0
  TakesFrom h len (failed e, h') = Unit
  TakesFrom h len (got bytes, h') = (incoming h ≡ bytes ++ incoming h') × (length bytes ≤ len)

  of_Takes :
      (h : Host G) (len : ℕ) (out : Rx × Host G)
      → Takes (incoming h) len (out.0, incoming out.1)
      → TakesFrom h len out
  of_Takes h len (failed e, h') t = tt
  of_Takes h len (got bytes, h') t = t

  pub device_read-Takes :
      (h : Host G) (len timeout : ℕ)
      → IsValid h.pending
      → TakesFrom h len (device_read h len timeout)
  unfolding device_read incoming
  device_read-Takes h len timeout v =
      let (v', e) = qdl_read-refines wire_read h.pending h.wire len timeout v in
      of_Takes h len (device_read h len timeout) (
        subst
          (λ (o : Rx × Bytes × Wire).
            Takes (queue h.pending ++ arrivals h.wire.events) len (o.0, o.1 ++ arrivals o.2.events))
          (sym e) (poll-Takes (queue h.pending) h.wire len timeout))
