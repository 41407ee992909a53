-- ===== src/Sahara/Run/Upload.antt =====
-- src/sahara.c: a device that asks for parts of the images and gets them.
use qdl.Base.{
  ◌≢◌, subst, Each, length-append, ℕ, zero, suc, ◌+◌, true, false, some, List, [], ◌∷◌, ◌++◌, Bytes,
  length, drop, append_assoc, ◌≡◌, ◌<◌, ◌≤◌, refl, ap, sym, ◌∙◌, arith,
}
use qdl.Io.{Rx, got, Tx, wrote}
use qdl.Sahara.{Images}
use qdl.Sahara.Handlers.{hello_resp_packet, done_packet}
use qdl.Sahara.Ramdump.{Os, Host}
use qdl.Sahara.Run.{
  DeviceType, usb, sim, qud, auto_detect, success, Session, after_packet, run_loop, sahara_run,
}
use qdl.Sahara.Run.Steps.{
  Request, read_data_packet, IsServed, part, eoi_packet, done_resp_packet, hello_packet, read_step,
  hello_step, eoi_step, done_resp_step, and_false, loop_step,
}

-- What the device says behind its HELLO.
abbrev pub upload : List Request → ℕ → List Rx
upload [] image = got (eoi_packet image) ∷ got done_resp_packet ∷ []
upload (r ∷ requests) image = got (read_data_packet r) ∷ upload requests image

-- The writes from the `n`-th on take the whole parts.
abbrev pub Acknowledged : (ℕ → Tx) → ℕ → List Request → Type 0
Acknowledged ack n [] = Unit
Acknowledged ack n (r ∷ requests) = (ack n ≡ wrote r.size) × Acknowledged ack (n + 1) requests

abbrev pub parts :
    (images : Images) (requests : List Request) → Each (IsServed images) requests → List Bytes
parts images [] v = []
parts images (r ∷ requests) (v, rest) = part v ∷ parts images requests rest

-- The host when the device has said all, and `messages` were sent.
abbrev pub sent_all : Host → List Bytes → Host
sent_all h messages = record h { wire = record h.wire { rx = []; tx = h.wire.tx ++ messages } }

-- what an upload sends
abbrev pub answers :
    (images : Images) (mode : ℕ) (requests : List Request)
    → Each (IsServed images) requests
    → List Bytes
answers images mode requests v =
    hello_resp_packet 2 mode ∷ (parts images requests v ++ done_packet ∷ [])

module _ (os : Os) (s : Session) (image : ℕ) where
  -- the last two rounds
  upload_end :
      (rounds : ℕ) (buf : Bytes) (h : Host)
      → h.wire.rx ≡ upload [] image
      → 2 ≤ rounds
      → run_loop os s rounds false buf h ≡ some (success, sent_all h (done_packet ∷ []))
  upload_end zero buf h e enough = absurd (omega arith)
  upload_end (suc zero) buf h e enough = absurd (omega arith)
  upload_end (suc (suc rounds)) buf h e enough =
      loop_step os s (suc rounds) false buf (eoi_packet image) _ h e (omega arith) refl refl
      ∙ ap (after_packet (run_loop os s (suc rounds) false (eoi_packet image ++ drop 16 buf)))
          (eoi_step os s image _ _)
      ∙ loop_step os s rounds false _ done_resp_packet [] _ refl (omega arith) refl refl
      ∙ ap (after_packet (run_loop os s rounds false _)) (done_resp_step os s _ _)

  -- the rounds behind the first
  upload_loop :
      (requests : List Request) (v : Each (IsServed s.images) requests) (rounds : ℕ) (buf : Bytes)
      (h : Host)
      → h.wire.rx ≡ upload requests image
      → Acknowledged h.wire.ack (length h.wire.tx) requests
      → length requests + 2 ≤ rounds
      → run_loop os s rounds false buf h
        ≡ some (success, sent_all h (parts s.images requests v ++ done_packet ∷ []))
  upload_loop [] v rounds buf h e a enough = upload_end rounds buf h e (omega arith)
  upload_loop (r ∷ requests) v zero buf h e a enough = absurd (omega arith)
  upload_loop (r ∷ requests) (v, more) (suc rounds) buf h e (a, acks) enough =
      let rest = drop 20 buf in
      let g : Host = record h {
        wire = record h.wire { rx = upload requests image; tx = h.wire.tx ++ part v ∷ [] };
      } in
      loop_step os s rounds false buf (read_data_packet r) _ h e (omega arith) refl refl
      ∙ ap (after_packet (run_loop os s rounds false (read_data_packet r ++ rest)))
          (read_step os s r rest _ v a)
      ∙ upload_loop requests more rounds _ g refl
          (subst (λ n. Acknowledged h.wire.ack n requests)
            (sym (length-append h.wire.tx (part v ∷ []))) acks)
          (omega arith)
      ∙ ap (λ tx. some (success, record h { wire = record h.wire { rx = []; tx = tx } }))
          (append_assoc h.wire.tx (part v ∷ []) _)

  -- the first round
  upload_hello :
      (version mode : ℕ) (requests : List Request) (v : Each (IsServed s.images) requests)
      (rounds : ℕ) (buf : Bytes) (h : Host)
      → mode < 4294967296
      → h.wire.rx ≡ got (hello_packet version mode) ∷ upload requests image
      → Acknowledged h.wire.ack (length h.wire.tx + 1) requests
      → length requests + 2 ≤ rounds
      → run_loop os s (suc rounds) true buf h
        ≡ some (success, sent_all h (answers s.images mode requests v))
  upload_hello version mode requests v rounds buf h m e a enough =
      let rest = drop 48 buf in
      let p = hello_resp_packet 2 mode in
      let g : Host = record h {
        wire = record h.wire { rx = upload requests image; tx = h.wire.tx ++ p ∷ [] };
      } in
      loop_step os s rounds true buf (hello_packet version mode) _ h e (omega arith) (and_false _)
        refl
      ∙ ap (after_packet (run_loop os s rounds false (hello_packet version mode ++ rest)))
          (hello_step os s version mode rest _ m)
      ∙ upload_loop requests v rounds _ g refl
          (subst (λ n. Acknowledged h.wire.ack n requests) (sym (length-append h.wire.tx (p ∷ [])))
            a)
          (omega arith)
      ∙ ap (λ tx. some (success, record h { wire = record h.wire { rx = []; tx = tx } }))
          (append_assoc h.wire.tx (p ∷ []) _)

length-upload :
    (requests : List Request) (image : ℕ) → length (upload requests image) ≡ length requests + 2
length-upload [] image = refl
length-upload (r ∷ requests) image = omega (arith, length-upload requests image)

-- A device that says HELLO, asks for parts that lie within the images, one after the other, and
-- then ends the image and reports COMPLETE, gets a HELLO response of version 2 with its own mode,
-- each part that it asked for, whole and in order, and a DONE; and the run succeeds. That is so
-- for a device other than the simulation, whose writes take the whole parts, and for fields of 32
-- bits.
pub sahara_run_uploads :
    (os : Os) (s : Session) (version mode image : ℕ) (requests : List Request)
    (v : Each (IsServed s.images) requests) (buf : Bytes) (h : Host)
    → s.dev_type ≢ sim
    → mode < 4294967296
    → h.wire.rx ≡ got (hello_packet version mode) ∷ upload requests image
    → Acknowledged h.wire.ack (length h.wire.tx + 1) requests
    → sahara_run os s buf h ≡ some (success, sent_all h (answers s.images mode requests v))
unfolding sahara_run
sahara_run_uploads os s version mode image requests v buf h real m e a = by_type s.dev_type real
  where
    by_loop :
        (k : ℕ)
        → k ≡ length h.wire.rx + 1
        → run_loop os s k true buf h ≡ some (success, sent_all h (answers s.images mode requests v))
    by_loop zero q = absurd (omega arith)
    by_loop (suc k) q =
        upload_hello os s image version mode requests v k buf h m e a
          (omega (arith, q, ap length e, length-upload requests image))

    by_type :
        (t : DeviceType)
        → t ≢ sim
        → elim t [ sim ↦ some (success, h) | _ ↦ run_loop os s (length h.wire.rx + 1) true buf h ]
          ≡ some (success, sent_all h (answers s.images mode requests v))
    by_type sim n = absurd (n refl)
    by_type usb n = by_loop _ refl
    by_type qud n = by_loop _ refl
    by_type auto_detect n = by_loop _ refl
