-- ===== src/Sahara/Reset/Outcome.antt =====
-- src/sahara.c: what `sahara_device_reset` sends, and what its results mean.
use qdl.Base.{
  either, subst, Each, ℕ, zero, suc, ◌≤◌, true, false, List, [], ◌∷◌, ◌++◌, append-nil,
  append_assoc, Bytes, length, replicate, ltb, ◌≡◌, ◌≢◌, refl, sym, ap, ◌⊎◌, ◌∙◌, inl, inr, arith,
  Bool-cases,
}
use qdl.Io.{Rx, got, failed}
use qdl.Sahara.{Wire, receive, receive_from, capped}
use qdl.Sahara.Pkt
use qdl.Sahara.Handlers.{
  reset_packet, hello_resp_packet, sahara_send_reset, sahara_send_hello_resp, sahara_version,
}
use qdl.Sahara.Run.{DeviceType, usb, qud, auto_detect, sim, is_timeout, is_xml, fill}
use qdl.Sahara.Reset.{
  mode_image_tx_pending, mode_memory_debug, mode_command, ResetResult, is_reset, firehose_running,
  not_reset, LoopEnd, broke, rejected, used_up, after_reset, reset_loop, verified, verify,
  reset_now, after_prod, acknowledge, after_hello, sahara_device_reset,
}

-- A read that fails, and not by a timeout.
pub IsDropped : Rx → Type 0
IsDropped (got received) = ⊥
IsDropped (failed e) = is_timeout e ≡ false

pub IsFirehose : Rx → Type 0
IsFirehose (got received) = is_xml received ≡ true
IsFirehose (failed e) = ⊥

-- The last answer that a run took from the answers `rx` of the device, where `left` are those that it
-- did not take. A device that has no answer left is gone.
pub record LastRead (P : Rx → Type 0) (rx left : List Rx) : Type 0 where
  pub before : List Rx
  pub answer : Rx
  pub cut : rx ≡ before ++ answer ∷ left
  pub holds : P (capped 4096 answer)

-- The result of a run that began with the answers `rx` and left `left` of them.
pub Justified : ResetResult → List Rx → List Rx → Type 0
Justified is_reset rx left = LastRead IsDropped rx left ⊎ (left ≡ [])
Justified firehose_running rx left = LastRead IsFirehose rx left
Justified not_reset rx left = Unit

-- The answers `left` are what is left of `rx`.
record Suffix (rx left : List Rx) : Type 0 where
  taken : List Rx
  cut : rx ≡ taken ++ left

Suffix-all : (rx : List Rx) → Suffix rx rx
Suffix-all rx = record { taken = []; cut = refl }

Suffix-trans : (a b c : List Rx) → Suffix a b → Suffix b c → Suffix a c
Suffix-trans a b c s t = record {
  taken = s.taken ++ t.taken;
  cut = s.cut ∙ ap (λ l. s.taken ++ l) t.cut ∙ sym (append_assoc s.taken t.taken c);
}

receive-Suffix : (rx : List Rx) (n : ℕ) → Suffix rx (receive_from rx n).1
receive-Suffix [] n = Suffix-all []
receive-Suffix (r ∷ rx) n = record { taken = r ∷ []; cut = refl }

-- What holds of the answer to the read behind a suffix, or the answers are used up.
last_read :
    (P : Rx → Type 0) (rx a : List Rx)
    → Suffix rx a
    → P (receive_from a 4096).0
    → LastRead P rx (receive_from a 4096).1 ⊎ ((receive_from a 4096).1 ≡ [])
last_read P rx [] s p = inr refl
last_read P rx (r ∷ a) s p = inl (record { before = s.taken; answer = r; cut = s.cut; holds = p })

last_xml :
    (rx a : List Rx)
    → Suffix rx a
    → IsFirehose (receive_from a 4096).0
    → LastRead IsFirehose rx (receive_from a 4096).1
unfolding IsFirehose
last_xml rx [] s p = absurd p
last_xml rx (r ∷ a) s p = record { before = s.taken; answer = r; cut = s.cut; holds = p }

-- From `tx` on at most `n` resets were sent, and the last read justifies the result.
pub record Ended (n : ℕ) (tx : List Bytes) (rx : List Rx) (r : ResetResult × Wire) : Type 0 where
  pub resets : ℕ
  pub few : resets ≤ n
  pub sent : r.1.tx ≡ tx ++ replicate resets reset_packet
  pub justified : Justified r.0 rx r.1.rx

-- The loop sends at most a reset a round.
record Looped (n : ℕ) (tx : List Bytes) (rx : List Rx) (r : LoopEnd × Wire) : Type 0 where
  pub resets : ℕ
  pub few : resets ≤ n
  pub sent : r.1.tx ≡ tx ++ replicate resets reset_packet
  pub suffix : Suffix rx r.1.rx

module _ (rx : List Rx) where
  one_reset :
      (n : ℕ) (tx : List Bytes) (e : LoopEnd) (w : Wire)
      → w.tx ≡ tx ++ reset_packet ∷ []
      → Suffix rx w.rx
      → Looped (suc n) tx rx (e, w)
  one_reset n tx e w s x = record { resets = 1; few = omega arith; sent = s; suffix = x }

  more_resets :
      (n : ℕ) (tx : List Bytes) (r : LoopEnd × Wire)
      → Looped n (tx ++ reset_packet ∷ []) rx r
      → Looped (suc n) tx rx r
  more_resets n tx r l = record {
    resets = suc l.resets;
    few = omega (arith, l.few);
    sent = l.sent ∙ append_assoc tx (reset_packet ∷ []) _;
    suffix = l.suffix;
  }

  after_reset-Looped :
      (n : ℕ) (tx : List Bytes) (next : Bytes → Wire → LoopEnd × Wire)
      → ((buf : Bytes) (w : Wire)
          → w.tx ≡ tx ++ reset_packet ∷ []
          → Suffix rx w.rx
          → Looped n (tx ++ reset_packet ∷ []) rx (next buf w))
      → (buf : Bytes) (r : Rx) (w : Wire) → w.tx ≡ tx ++ reset_packet ∷ []
      → Suffix rx w.rx
      → Looped (suc n) tx rx (after_reset next buf r w)
  after_reset-Looped n tx next f buf (failed e) w s x =
      either (Looped (suc n) tx rx) (is_timeout e) (more_resets n tx _ (f buf w s x))
        (one_reset n tx broke w s x)
  after_reset-Looped n tx next f buf (got received) w s x =
      let again = more_resets n tx _ (f (fill buf received) w s x) in
      either (Looped (suc n) tx rx) (ltb (length received) 8) again (
        either (Looped (suc n) tx rx) _ (one_reset n tx broke w s x)
          (either (Looped (suc n) tx rx) _ (one_reset n tx rejected w s x) again))

  reset_loop-Looped :
      (n : ℕ) (buf : Bytes) (w : Wire) → Suffix rx w.rx → Looped n w.tx rx (reset_loop n buf w)
  unfolding reset_loop sahara_send_reset
  reset_loop-Looped zero buf w x = record {
    resets = 0;
    few = omega arith;
    sent = sym (append-nil w.tx);
    suffix = x;
  }
  reset_loop-Looped (suc n) buf w x =
      let (r, v) = receive (sahara_send_reset w) 4096 in
      after_reset-Looped n w.tx (reset_loop n)
        (λ b u s y. subst (λ t. Looped n t rx (reset_loop n b u)) s (reset_loop-Looped n b u y)) buf
        r v refl (Suffix-trans rx w.rx _ x (receive-Suffix w.rx 4096))

  verified-Justified :
      (w : Wire) (r : Rx)
      → Suffix rx w.rx
      → (receive w 4096).0 ≡ r
      → Justified (verified r) rx (receive w 4096).1.rx
  unfolding Justified IsDropped
  verified-Justified w (got received) x q = tt
  verified-Justified w (failed e) x q = elim (Bool-cases (is_timeout e)) [
    | inl t ↦ rw (t) tt
    | inr t ↦ rw (t) (last_read IsDropped rx w.rx x (subst IsDropped (sym q) t))
  ]

  verify-Ended :
      (n : ℕ) (tx : List Bytes) (r : LoopEnd × Wire) → Looped n tx rx r → Ended n tx rx (verify r)
  unfolding Justified
  verify-Ended n tx (broke, w) l = record {
    resets = l.resets;
    few = l.few;
    sent = l.sent;
    justified = verified-Justified w _ l.suffix refl;
  }
  verify-Ended n tx (rejected, w) l = record {
    resets = l.resets;
    few = l.few;
    sent = l.sent;
    justified = tt;
  }
  verify-Ended n tx (used_up, w) l = record {
    resets = l.resets;
    few = l.few;
    sent = l.sent;
    justified = tt;
  }

  reset_now-Ended : (buf : Bytes) (w : Wire) → Suffix rx w.rx → Ended 5 w.tx rx (reset_now buf w)
  reset_now-Ended buf w x = verify-Ended 5 w.tx _ (reset_loop-Looped 5 buf w x)

  -- Nothing but a read, which justifies the result.
  read_only :
      (w : Wire) (result : ResetResult)
      → Justified result rx (receive w 4096).1.rx
      → Ended 5 w.tx rx (result, (receive w 4096).1)
  read_only w result j = record {
    resets = 0;
    few = omega arith;
    sent = sym (append-nil w.tx);
    justified = j;
  }

-- The messages before the resets.
pub IsHelloResp : Bytes → Type 0
IsHelloResp msg = (version mode : ℕ) × (msg ≡ hello_resp_packet version mode)

-- Nothing, or a HELLO response, and then what `Ended` says of at most five resets.
pub record Outcome (tx : List Bytes) (rx : List Rx) (r : ResetResult × Wire) : Type 0 where
  pub hellos : List Bytes
  pub one : length hellos ≤ 1
  pub all_hellos : Each IsHelloResp hellos
  pub ended : Ended 5 (tx ++ hellos) rx r

module _ (rx : List Rx) where
  without_hello : (w : Wire) (r : ResetResult × Wire) → Ended 5 w.tx rx r → Outcome w.tx rx r
  without_hello w r d = record {
    hellos = [];
    one = omega arith;
    all_hellos = tt;
    ended = subst (λ t. Ended 5 t rx r) (sym (append-nil w.tx)) d;
  }

  with_hello :
      (w : Wire) (version mode : ℕ) (r : ResetResult × Wire)
      → Ended 5 (w.tx ++ hello_resp_packet version mode ∷ []) rx r
      → Outcome w.tx rx r
  unfolding IsHelloResp
  with_hello w version mode r d = record {
    hellos = hello_resp_packet version mode ∷ [];
    one = omega arith;
    all_hellos = ((version, mode, refl), tt);
    ended = d;
  }

  acknowledge-Outcome :
      (buf : Bytes) (w : Wire) → Suffix rx w.rx → Outcome w.tx rx (acknowledge buf w)
  unfolding sahara_send_hello_resp
  acknowledge-Outcome buf w x =
      either (Outcome w.tx rx) _
        (with_hello w (Pkt.word buf 0) mode_memory_debug _ (reset_now-Ended rx buf _ x))
        (with_hello w (Pkt.word buf 0) mode_command _
          (reset_now-Ended rx _ _ (Suffix-trans rx w.rx _ x (receive-Suffix w.rx 4096))))

  after_prod-Ended :
      (buf : Bytes) (w : Wire) (r : Rx)
      → Suffix rx w.rx
      → (receive w 4096).0 ≡ r
      → Ended 5 w.tx rx (after_prod buf r (receive w 4096).1)
  unfolding Justified IsFirehose
  after_prod-Ended buf w (failed e) x q =
      reset_now-Ended rx buf (receive w 4096).1
        (Suffix-trans rx w.rx _ x (receive-Suffix w.rx 4096))
  after_prod-Ended buf w (got received) x q = elim (Bool-cases (is_xml received)) [
    | inl t ↦
        rw (t) (read_only rx w firehose_running (last_xml rx w.rx x (subst IsFirehose (sym q) t)))
    | inr t ↦ rw (t) (
        reset_now-Ended rx (fill buf received) (receive w 4096).1
          (Suffix-trans rx w.rx _ x (receive-Suffix w.rx 4096)))
  ]

after_hello-Outcome :
    (buf : Bytes) (w : Wire) (r : Rx)
    → (receive w 4096).0 ≡ r
    → Outcome w.tx w.rx (after_hello buf r (receive w 4096).1)
unfolding Justified IsFirehose sahara_send_hello_resp
after_hello-Outcome buf w (failed e) q =
    let prodded = sahara_send_hello_resp sahara_version mode_image_tx_pending (receive w 4096).1 in
    either (Outcome w.tx w.rx) (is_timeout e)
      (with_hello w.rx w sahara_version mode_image_tx_pending _
        (after_prod-Ended w.rx buf prodded _ (receive-Suffix w.rx 4096) refl))
      (without_hello w.rx w _ (read_only w.rx w not_reset tt))
after_hello-Outcome buf w (got received) q = elim (Bool-cases (is_xml received)) [
  | inl x ↦ rw (x) (
      without_hello w.rx w _ (
        read_only w.rx w firehose_running
          (last_xml w.rx w.rx (Suffix-all w.rx) (subst IsFirehose (sym q) x))))
  | inr x ↦ rw (x) (
      either (Outcome w.tx w.rx) _
        (acknowledge-Outcome w.rx (fill buf received) (receive w 4096).1 (receive-Suffix w.rx 4096))
        (without_hello w.rx w _
          (reset_now-Ended w.rx (fill buf received) (receive w 4096).1 (receive-Suffix w.rx 4096))))
]

-- For a device other than the simulation, `sahara_device_reset` sends at most one message before
-- the resets, a HELLO response, and then at most five resets. It says that Firehose runs only when the
-- last of the device's answers that it took began with `<?xml`, and that the device was reset only when
-- the last one was an error other than a timeout, or the device had no answer left.
pub sahara_device_reset-Outcome :
    (dev_type : DeviceType) (buf : Bytes) (w : Wire)
    → dev_type ≢ sim
    → Outcome w.tx w.rx (sahara_device_reset dev_type buf w)
unfolding sahara_device_reset
sahara_device_reset-Outcome sim buf w h = absurd (h refl)
sahara_device_reset-Outcome usb buf w h = after_hello-Outcome buf w _ refl
sahara_device_reset-Outcome qud buf w h = after_hello-Outcome buf w _ refl
sahara_device_reset-Outcome auto_detect buf w h = after_hello-Outcome buf w _ refl
