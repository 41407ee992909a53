-- ===== src/Io/Refine.antt =====
-- The pushback buffer is a queue of bytes in front of the transport.
use qdl.Base.{
  ℕ, zero, suc, ◌+◌, ◌-◌, ◌≤◌, ◌<◌, ◌≡◌, refl, sym, ap, ◌∙◌, Bool, true, false, Option, none, some,
  List, [], ◌∷◌, ◌++◌, Bytes, take, drop, length, length-append, length-take, length-drop,
  replicate, take_all, drop_all, take-nil, drop-nil, take-take, drop-take, drop-drop,
  take-append_left, take-append_of_length, append-nil, Bool-cases, inl, inr, ltb, leb, le→leb, ◌==◌,
  if◌then◌else◌, arith,
}
use qdl.Io.{
  Errno, enomem, Rx, got, Pending, nothing_pending, realloc, copy_at, move_down, read_from, serve,
  qdl_read, block, compact, grow, qdl_push_back, Op, pull, push, Reply, pulled, pushed, run,
}

-- An allocation is there exactly while bytes are left in it.
abbrev pub InBounds : Option Bytes → ℕ → ℕ → Type 0
InBounds none len off = (len ≡ 0) × (off ≡ 0)
InBounds (some b) len off = (len ≤ length b) × (off < len)

abbrev pub IsValid : Pending → Type 0
IsValid d = InBounds d.pending_buf d.pending_len d.pending_off

-- the bytes that are still to be read
abbrev pub queue : Pending → Bytes
queue d = take (d.pending_len - d.pending_off) (drop d.pending_off (block d.pending_buf))

-- The queue's operations.
abbrev pub Queue : Type 0
Queue = Bytes

unfoldable pub offer : Bool → Queue → Bytes → Option Errno × Queue
offer granted q [] = (none, q)
offer granted q (b ∷ buf) = if granted then (none, q ++ b ∷ buf) else (some enomem, q)

module _ {T : Type 0} (read : T → ℕ → ℕ → Rx × T) where
  unfoldable pub poll : Queue → T → ℕ → ℕ → Rx × Queue × T
  poll [] t len timeout = let (r, t') = read t len timeout in (r, [], t')
  poll (b ∷ q) t len timeout = (got (take len (b ∷ q)), drop len (b ∷ q), t)

  unfoldable pub run_queue : Queue → T → List Op → List Reply
  run_queue q t [] = []
  run_queue q t (pull len timeout ∷ ops) =
      let (r, q', t') = poll q t len timeout in pulled r ∷ run_queue q' t' ops
  run_queue q t (push granted buf ∷ ops) =
      let (e, q') = offer granted q buf in pushed e ∷ run_queue q' t ops

poll_of_pos :
    {T : Type 0} (read : T → ℕ → ℕ → Rx × T) (q : Queue) (t : T) (len timeout : ℕ)
    → 0 < length q
    → poll read q t len timeout ≡ (got (take len q), drop len q, t)
unfolding poll
poll_of_pos read [] t len timeout h = absurd (omega arith)
poll_of_pos read (b ∷ q) t len timeout h = refl

length-window :
    (b : Bytes) (len off : ℕ) → len ≤ length b → length (take (len - off) (drop off b)) ≡ len - off
length-window b len off h =
    omega (arith, length-take {0} (len - off) (drop off b), length-drop {0} off b)

abbrev pending : Option Bytes → ℕ → ℕ → Pending
pending b len off = record { pending_buf = b; pending_len = len; pending_off = off }

-- What one read leaves behind.
record Serves (d : Pending) (q : Queue) (n : ℕ) (out : Rx × Pending) : Type 0 where
  reply : out.0 ≡ got (take n q)
  rest : queue out.1 ≡ drop n q
  valid : IsValid out.1

module _ (b : Bytes) (len off n : ℕ) (fits : len ≤ length b) (left : off < len) where
  abbrev window : Bytes
  window = take (len - off) (drop off b)

  -- The read takes all that is left.
  serve_all :
      len - off ≤ n → Serves (pending (some b) len off) window n (got window, nothing_pending)
  serve_all h = record {
    reply = ap got (sym (take_all n window (omega (arith, length-window b len off fits))));
    rest = sym (drop_all n window (omega (arith, length-window b len off fits)));
    valid = omega arith;
  }

  serve_all_exact :
      (m : ℕ)
      → m ≡ len - off
      → Serves (pending (some b) len off) window (len - off) (got window, nothing_pending)
  serve_all_exact m h = record {
    reply =
        ap got (sym (take_all (len - off) window (omega (arith, length-window b len off fits))));
    rest = sym (drop_all (len - off) window (omega (arith, length-window b len off fits)));
    valid = omega arith;
  }

  serve_exact :
      n ≡ len - off
      → Serves (pending (some b) len off) window n (got (take n (drop off b)), nothing_pending)
  serve_exact h = rw h (serve_all_exact n h)

  serve_some :
      n < len - off
      → Serves
          (pending (some b) len off)
          window
          n
          (got (take n (drop off b)), pending (some b) len (off + n))
  serve_some h = record {
    reply = ap got (sym (take-take n (len - off) (drop off b) (omega arith)));
    rest =
        rw (drop-take n (len - off) (drop off b), drop-drop off n b)
          (ap (λ k. take k (drop (off + n) b)) {x = len - (off + n)} (omega arith));
    valid = omega arith;
  }

  serve_lem : Serves (pending (some b) len off) window n (serve b (pending (some b) len off) n)
  unfolding serve
  serve_lem = elim (Bool-cases (ltb (len - off) n)) [
    | inl e ↦ rw (e, le→leb len (off + (len - off)) (omega arith)) (serve_all (ground arith))
    | inr e ↦ elim (Bool-cases (leb len (off + n))) [
      | inl f ↦ rw (e, f) (serve_exact (ground arith))
      | inr f ↦ rw (e, f) (serve_some (ground arith))
    ]
  ]

-- A device whose queue is empty has nothing allocated.
read_from-refines :
    {T : Type 0} (read : T → ℕ → ℕ → Rx × T) (o : Option Bytes) (len off : ℕ) (t : T)
    (n timeout : ℕ)
    → IsValid (pending o len off)
    → let (r, d, t') = read_from read o (pending o len off) t n timeout in
      IsValid d × ((r, queue d, t') ≡ poll read (queue (pending o len off)) t n timeout)
unfolding read_from poll
read_from-refines read none len off t n timeout v = (v, rw (drop-nil ℕ off, take-nil ℕ (len - off)))
read_from-refines read (some b) len off t n timeout v =
    let s = serve_lem b len off n v.0 v.1 in
    (
      s.valid,
      (λ i. (s.reply i, s.rest i, t))
          ∙ sym (poll_of_pos read _ t n timeout (omega (arith, length-window b len off v.0))),
    )

module _ {T : Type 0} (read : T → ℕ → ℕ → Rx × T) where
  -- `qdl_read` on a valid device reads as from the queue in front of the transport.
  pub qdl_read-refines :
      (d : Pending) (t : T) (n timeout : ℕ)
      → IsValid d
      → let (r, d', t') = qdl_read read d t n timeout in
        IsValid d' × ((r, queue d', t') ≡ poll read (queue d) t n timeout)
  unfolding qdl_read
  qdl_read-refines d t n timeout =
      read_from-refines read d.pending_buf d.pending_len d.pending_off t n timeout

not_empty : (b : ℕ) (buf : Bytes) → (length (b ∷ buf) == 0) ≡ false
not_empty b buf = ground arith

compact-block :
    (o : Option Bytes) (len off : ℕ)
    → InBounds o len off
    → let c = compact (pending o len off) in
      (c.pending_off ≡ 0)
      × (c.pending_len ≤ length (block c.pending_buf))
      × (take c.pending_len (block c.pending_buf) ≡ take (len - off) (drop off (block o)))
      × IsValid c
compact-block none len zero h = (refl, omega arith, rw h.0, h)
compact-block none len (suc off) h = absurd (omega arith)
compact-block (some b) len zero h = (refl, h.0, ap (λ k. take k b) (omega arith), h)
compact-block (some b) len (suc off) h = rw no_test (
  refl,
  fits,
  take-append_of_length (len - suc off) (window b len (suc off) (len - suc off) h.0 h.1)
      (drop (len - suc off) b) (length-window b len (suc off) h.0),
  (fits, omega arith),
)
  where
    no_test : (suc off == 0) ≡ false
    no_test = ground arith

    fits : len - suc off ≤ length (move_down b (suc off) (len - suc off))
    fits = omega (
      arith,
      length-append {0} (take (len - suc off) (drop (suc off) b)) (drop (len - suc off) b),
      length-window b len (suc off) h.0,
    )

compact-queue : (d : Pending) → IsValid d → (queue (compact d) ≡ queue d) × IsValid (compact d)
compact-queue d h =
    let (z, _, q, v) = compact-block d.pending_buf d.pending_len d.pending_off h in
    (rw z (ap (λ k. take k (block (compact d).pending_buf)) (omega arith) ∙ q), v)

-- `realloc` and `memcpy` append the new bytes to those that are kept.
grow_block :
    (b : Bytes) (len : ℕ) (buf : Bytes)
    → len ≤ length b
    → copy_at (realloc b (len + length buf)) len buf ≡ take len b ++ buf
grow_block b len buf h = rw (nothing_left, append-nil, kept)
  where
    new : Bytes
    new = b ++ replicate (len + length buf) 0

    nothing_left : drop (len + length buf) (realloc b (len + length buf)) ≡ []
    nothing_left =
        drop_all (len + length buf) (realloc b (len + length buf))
          (omega (arith, length-take {0} (len + length buf) new))

    kept : take len (realloc b (len + length buf)) ≡ take len b
    kept =
        take-take len (len + length buf) new (omega arith)
        ∙ take-append_left len b (replicate (len + length buf) 0) h

-- A device with its offset at 0, as `compact` leaves it.
grow-queue :
    (c : Pending) (buf : Bytes)
    → c.pending_off ≡ 0
    → c.pending_len ≤ length (block c.pending_buf)
    → 0 < length buf
    → (queue (grow c buf) ≡ take c.pending_len (block c.pending_buf) ++ buf) × IsValid (grow c buf)
grow-queue c buf z fits some_new =
    let b = take c.pending_len (block c.pending_buf) in
    let e : length (b ++ buf) ≡ c.pending_len + length buf =
      omega (arith, length-append {0} b buf, length-take {0} c.pending_len (block c.pending_buf)) in
    rw (z, grow_block (block c.pending_buf) c.pending_len buf fits)
      (
        take_all (c.pending_len + length buf - 0) (b ++ buf) (omega arith),
        (omega arith, omega arith),
      )

-- `qdl_push_back` on a valid device appends to the queue, or fails and leaves it alone.
pub qdl_push_back-refines :
    (granted : Bool) (d : Pending) (buf : Bytes)
    → IsValid d
    → let (e, d') = qdl_push_back granted d buf in
      IsValid d' × (◌≡◌ {A = Option Errno × Queue} (e, queue d') (offer granted (queue d) buf))
unfolding qdl_push_back offer
qdl_push_back-refines granted d [] h = (h, refl)
qdl_push_back-refines true d (b ∷ buf) h =
    let (z, fits, q, v) = compact-block d.pending_buf d.pending_len d.pending_off h in
    let (g, v') = grow-queue (compact d) (b ∷ buf) z fits (omega arith) in
    rw (not_empty b buf) (v', λ i. (none, (g ∙ ap (λ t. t ++ b ∷ buf) q) i))
qdl_push_back-refines false d (b ∷ buf) h =
    let (q, v) = compact-queue d h in rw (not_empty b buf) (v, λ i. (some enomem, q i))

module _ {T : Type 0} (read : T → ℕ → ℕ → Rx × T) where
  -- Any sequence of reads and pushes on a valid device gives the replies of the queue.
  pub run_refines :
      (ops : List Op) (d : Pending) (t : T)
      → IsValid d
      → run read d t ops ≡ run_queue read (queue d) t ops
  unfolding run run_queue
  run_refines [] d t h = refl
  run_refines (pull n timeout ∷ ops) d t h =
      let (v, e) = qdl_read-refines read d t n timeout h in
      let (r, d', t') = qdl_read read d t n timeout in
      ap (λ l. pulled r ∷ l) (run_refines ops d' t' v)
      ∙ ap (λ (s : Rx × Queue × T). pulled s.0 ∷ run_queue read s.1 s.2 ops) e
  run_refines (push granted buf ∷ ops) d t h =
      let (v, e) = qdl_push_back-refines granted d buf h in
      let (r, d') = qdl_push_back granted d buf in
      ap (λ l. pushed r ∷ l) (run_refines ops d' t v)
      ∙ ap (λ (s : Option Errno × Queue). pushed s.0 ∷ run_queue read s.1 t ops) e
