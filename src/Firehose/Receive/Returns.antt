-- ===== src/Firehose/Receive/Returns.antt =====
-- `firehose_read` of src/firehose.c returns.
pub mod Deadline
use qdl.Base.{
  ℕ, zero, suc, ◌+◌, ◌*◌, ◌<◌, ◌≡◌, refl, sym, subst, ◌∙◌, Bool, true, false, Option, none, some,
  [], ◌∷◌, Bytes, length, ◌⊎◌, inl, inr, arith, either, if◌then◌else◌, ltb,
}
use qdl.Io.{etimedout, enodev, eio, einval, enomem, enametoolong, Rx, got, failed}
use qdl.Io.Refine.{IsValid}
use qdl.Firehose.{XmlNode, Env, Host, device_push_back}
use qdl.Firehose.Message.{Parser, firehose_check_vip_marker, check_vip_marker-cases}
use qdl.Firehose.Receive.{
  Reply, error, code, Seen, Walked, malformed, went_raw, at_end, budget, take_message,
  behind_message, message, from_start, walk, Result, wait_on, on_silence, after_walk, on_read,
  read_rounds, first_seen,
}
use qdl.Firehose.Receive.Budget.{device_read-Spent}

-- A loop that has ended.
abbrev pub HasEnded : {A : Type 0} → Option A → Type 0
HasEnded none = ⊥
HasEnded (some a) = Unit

module _ {G : Type 0} where
  -- The messages change nothing of what can be read.
  pub record SameReads (h h' : Host G) : Type 0 where
    pub same_wire : h'.wire ≡ h.wire
    pub same_pending : h'.pending ≡ h.pending
    pub same_granted : h'.granted ≡ h.granted

  pub check_marker-SameReads :
      (h : Host G) (node : XmlNode) → SameReads h (firehose_check_vip_marker h node)
  check_marker-SameReads h node =
      check_vip_marker-cases (SameReads h) h node
        (record { same_wire = refl; same_pending = refl; same_granted = refl })
        (record { same_wire = refl; same_pending = refl; same_granted = refl })

  pub SameReads-then : (a b c : Host G) → SameReads a b → SameReads b c → SameReads a c
  SameReads-then a b c r s = record {
    same_wire = s.same_wire ∙ r.same_wire;
    same_pending = s.same_pending ∙ r.same_pending;
    same_granted = s.same_granted ∙ r.same_granted;
  }

module _ {G : Type 0} (env : Env G) {D : Type 0} (parser : Parser D) where
  abbrev Quiet : Host G → Walked D G → Type 0
  Quiet h (at_end seen) = SameReads h seen.host
  Quiet h other = Unit

  raw_or :
      (h : Host G) (b : Bool) (seen : Seen D G) (w : Walked D G)
      → Quiet h w
      → Quiet h (if b then went_raw seen else w)
  raw_or h true seen w q = tt
  raw_or h false seen w q = q

  Walks : (Bytes → Seen D G → Walked D G) → Type 0
  Walks next = (buf : Bytes) (seen : Seen D G) → Quiet seen.host (next buf seen)

  after_marker :
      (next : Bytes → Seen D G → Walked D G) (rest : Bytes) (node : XmlNode) (seen : Seen D G)
      → Walks next
      → Quiet seen.host (next rest (take_message env parser node seen))
  unfolding Walks take_message
  after_marker next rest node seen ih =
      elim (next rest (take_message env parser node seen))
          as (λ w. Quiet (firehose_check_vip_marker seen.host node) w → Quiet seen.host w) [
            | at_end seen' ↦ λ q. SameReads-then _ _ _ (check_marker-SameReads seen.host node) q
            | malformed seen' ↦ λ q. tt
            | went_raw seen' ↦ λ q. tt
          ]
        (ih rest (take_message env parser node seen))

  behind_message-Quiet :
      (next : Bytes → Seen D G → Walked D G) (rest : Bytes) (node : XmlNode) (seen : Seen D G)
      → Walks next
      → Quiet seen.host (behind_message env parser next rest (take_message env parser node seen))
  unfolding behind_message take_message
  behind_message-Quiet next [] node seen ih =
      let taken = take_message env parser node seen in
      raw_or seen.host taken.rawmode taken (at_end taken) (check_marker-SameReads seen.host node)
  behind_message-Quiet next (b ∷ rest) node seen ih =
      let taken = take_message env parser node seen in
      raw_or seen.host taken.rawmode
        (record taken { host = device_push_back taken.host (b ∷ rest) }) (next (b ∷ rest) taken)
        (after_marker next (b ∷ rest) node seen ih)

  message-Quiet :
      (next : Bytes → Seen D G → Walked D G) (rest : Bytes) (node : Option XmlNode)
      (seen : Seen D G)
      → Walks next
      → Quiet seen.host (message env parser next rest node seen)
  unfolding message
  message-Quiet next rest none seen ih = tt
  message-Quiet next rest (some node) seen ih = behind_message-Quiet next rest node seen ih

  from_start-Quiet :
      (next : Bytes → Seen D G → Walked D G) (buf : Bytes) (at : Option ℕ) (seen : Seen D G)
      → Walks next
      → Quiet seen.host (from_start env parser next buf at seen)
  unfolding from_start
  from_start-Quiet next buf none seen ih = record {
    same_wire = refl;
    same_pending = refl;
    same_granted = refl;
  }
  from_start-Quiet next buf (some at) seen ih = message-Quiet next _ _ seen ih

  walk-Quiet : (rounds : ℕ) → Walks (walk env parser rounds)
  unfolding Walks walk
  walk-Quiet zero buf seen = record { same_wire = refl; same_pending = refl; same_granted = refl }
  walk-Quiet (suc rounds) buf seen =
      from_start-Quiet (walk env parser rounds) buf _ seen (walk-Quiet rounds)

  -- `next` ends from every state in which there is less to read than `rounds`.
  Ends : (Seen D G → Result env parser) → ℕ → Type 0
  Ends next rounds =
      (seen : Seen D G)
      → IsValid seen.host.pending
      → budget seen.host < rounds
      → HasEnded (next seen)

  wait_on-Ends :
      (next : Seen D G → Result env parser) (timeout : ℕ) (seen : Seen D G)
      → HasEnded (next seen)
      → HasEnded (wait_on env parser next timeout seen)
  unfolding wait_on
  wait_on-Ends next timeout seen e =
      either HasEnded (ltb seen.host.wire.now timeout)
        {y = some (error etimedout, seen.data_of, seen.host)} e tt

  on_silence-Ends :
      (next : Seen D G → Result env parser) (timeout : ℕ) (r : Reply) (seen : Seen D G)
      → HasEnded (next seen)
      → HasEnded (on_silence env parser next timeout r seen)
  unfolding on_silence
  on_silence-Ends next timeout (code ret) seen e = tt
  on_silence-Ends next timeout (error _) seen e = wait_on-Ends next timeout seen e

  after_walk-Ends :
      (next : Seen D G → Result env parser) (rounds : ℕ) (h : Host G) (w : Walked D G)
      → Ends next rounds
      → IsValid h.pending
      → budget h < rounds
      → Quiet h w
      → HasEnded (after_walk env parser next w)
  unfolding after_walk Ends budget
  after_walk-Ends next rounds h (malformed seen) ih v l q = tt
  after_walk-Ends next rounds h (went_raw seen) ih v l q = tt
  after_walk-Ends next rounds h (at_end seen) ih v l q =
      ih seen (subst IsValid (sym q.same_pending) v) (rw (q.same_pending, q.same_wire) l)

  on_read-Ends :
      (next : Seen D G → Result env parser) (timeout rounds : ℕ) (n : Rx) (seen : Seen D G)
      → Ends next rounds
      → IsValid seen.host.pending
      → (budget seen.host < rounds) ⊎ (n ≡ failed enodev)
      → HasEnded (on_read env parser next timeout n seen)
  unfolding on_read Ends Walks
  on_read-Ends next timeout rounds (failed etimedout) seen ih v (inl l) =
      on_silence-Ends next timeout seen.resp seen (ih seen v l)
  on_read-Ends next timeout rounds (failed etimedout) seen ih v (inr e) = absurd (cc)
  on_read-Ends next timeout rounds (failed enodev) seen ih v p = tt
  on_read-Ends next timeout rounds (failed eio) seen ih v p = tt
  on_read-Ends next timeout rounds (failed einval) seen ih v p = tt
  on_read-Ends next timeout rounds (failed enomem) seen ih v p = tt
  on_read-Ends next timeout rounds (failed enametoolong) seen ih v p = tt
  on_read-Ends next timeout rounds (got []) seen ih v (inl l) =
      wait_on-Ends next timeout seen (ih seen v l)
  on_read-Ends next timeout rounds (got []) seen ih v (inr e) = absurd (cc)
  on_read-Ends next timeout rounds (got (b ∷ buf)) seen ih v (inl l) =
      after_walk-Ends next rounds seen.host _ ih v l (walk-Quiet (length (b ∷ buf)) (b ∷ buf) seen)
  on_read-Ends next timeout rounds (got (b ∷ buf)) seen ih v (inr e) = absurd (cc)

  read_rounds-Ends : (rounds timeout : ℕ) → Ends (read_rounds env parser rounds timeout) rounds
  unfolding Ends read_rounds
  read_rounds-Ends zero timeout seen v l = absurd (omega arith)
  read_rounds-Ends (suc rounds) timeout seen v l =
      let spent = device_read-Spent seen.host 4095 100 (omega arith) v in
      on_read-Ends (read_rounds env parser rounds timeout) timeout rounds _ _
        (read_rounds-Ends rounds timeout) spent.valid (fewer _ _ spent.less)
    where
      fewer :
          (n : Rx) (h : Host G)
          → (budget h < budget seen.host) ⊎ (n ≡ failed enodev)
          → (budget h < rounds) ⊎ (n ≡ failed enodev)
      fewer n h (inl k) = inl (omega arith)
      fewer n h (inr e) = inr e

  -- The fuel of `firehose_read` is enough for what the transport of the model holds.
  pub read_rounds-HasEnded :
      (timeout_ms : ℕ) (x : D) (h : Host G)
      → IsValid h.pending
      → HasEnded (
          read_rounds env parser
            (suc (budget h))
            (h.wire.now + 1000 * timeout_ms)
            (first_seen env parser x h))
  unfolding Ends
  read_rounds-HasEnded timeout_ms x h v =
      read_rounds-Ends (suc (budget h)) _ (first_seen env parser x h) v (omega arith)
