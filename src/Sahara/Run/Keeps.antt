-- ===== src/Sahara/Run/Keeps.antt =====
-- src/sahara.c: what a run of `sahara_run` keeps, whatever the device sends.
pub mod Confined
use qdl.Base.{
  either, ℕ, zero, suc, ◌+◌, Bool, true, false, not, ◌&&◌, Option, none, some, ◌==◌, Bytes, length,
  ◌≡◌, ◌<◌, ◌≤◌, arith,
}
use qdl.Io.{Rx, got, failed}
use qdl.Sahara.{Wire, receive}
use qdl.Sahara.Pkt
use qdl.Sahara.Cmd
use qdl.Sahara.Handlers.{
  sahara_send_hello_resp, sahara_version, sahara_hello, sahara_read, sahara_read64, sahara_eoi,
  sahara_done,
}
use qdl.Sahara.Invariant.{
  Kept, On, a_hello_resp, keep_hello, keep_read, keep_read64, keep_eoi, keep_done,
}
use qdl.Sahara.Ramdump.{Os, Host}
use qdl.Sahara.Ramdump.Keeps.{keep_debug64}
use qdl.Sahara.Run.{
  DeviceType, sim, usb, qud, auto_detect, Result, Step, round, leave, Session, eats_hello,
  is_timeout, is_xml, fill, checked, done_step, after_packet, handle_packet, detects, after_receive,
  run_loop, sahara_run,
}

-- the host at the end of a run
pub EndKeeps : (Host → Type 0) → Option (Result × Host) → Type 0
EndKeeps P none = Unit
EndKeeps P (some (result, h)) = P h

module _ (os : Os) (s : Session) {P : Host → Type 0} (k : Kept s.images s.ramdump_path P) where
  -- the host in a step
  StepKeeps : Step × Host → Type 0
  StepKeeps r = P r.1

  keep_checked : (h : Host) (r : Bool × Wire) → On k h r → P (checked h r).1
  keep_checked h (true, w) p = p
  keep_checked h (false, w) p = p

  keep_done_step : (h : Host) (r : Option ℕ × Wire) → On k h r → P (done_step s.images h r).1
  keep_done_step h (none, w) p = p
  keep_done_step h (some n, w) p = p

  pub keep_handle_packet : (pkt : Bytes) (h : Host) → P h → P (handle_packet os s pkt h).1
  unfolding handle_packet StepKeeps
  keep_handle_packet pkt h p =
      either StepKeeps (Pkt.cmd pkt == Cmd.hello) (keep_checked h _ (keep_hello k pkt h p)) (
        either StepKeeps (Pkt.cmd pkt == Cmd.read_data) (keep_checked h _ (keep_read k pkt h p)) (
          either StepKeeps (Pkt.cmd pkt == Cmd.end_of_image) (keep_checked h _ (keep_eoi k pkt h p))
            (either StepKeeps (Pkt.cmd pkt == Cmd.done_resp)
              (keep_done_step h _ (keep_done k pkt h p))
              (either StepKeeps (Pkt.cmd pkt == Cmd.mem_debug64)
                (keep_debug64 os k pkt s.ramdump_filter h p)
                (either StepKeeps (Pkt.cmd pkt == Cmd.read_data64)
                  (keep_checked h _ (keep_read64 k pkt h p))
                  (either StepKeeps (Pkt.cmd pkt == Cmd.reset_resp) p p))))))

  keep_after_packet :
      (next : Host → Option (Result × Host))
      → ((h : Host) → P h → EndKeeps P (next h))
      → (r : Step × Host) → P r.1
      → EndKeeps P (after_packet next r)
  unfolding EndKeeps
  keep_after_packet next f (round true, h) p = p
  keep_after_packet next f (round false, h) p = f h p
  keep_after_packet next f (leave result, h) p = p

  keep_after_receive :
      (next : Bool → Bytes → Host → Option (Result × Host))
      → ((first : Bool) (buf : Bytes) (h : Host) → P h → EndKeeps P (next first buf h))
      → (first : Bool) (buf : Bytes) (r : Rx) (h : Host) → P h
      → EndKeeps P (after_receive os s next first buf r h)
  unfolding EndKeeps sahara_send_hello_resp
  keep_after_receive next f first buf (failed e) h p =
      either (EndKeeps P) (not (detects os s first && is_timeout e)) p (
        either (EndKeeps P) (eats_hello s.dev_type)
          (f first buf _ (k.keep_send h _ (a_hello_resp sahara_version 0) p)) p)
  keep_after_receive next f first buf (got received) h p =
      either (EndKeeps P) (detects os s first && is_xml received) p (
        either (EndKeeps P) (not (length received == Pkt.len (fill buf received))) p
          (keep_after_packet _ (f false (fill buf received)) _ (keep_handle_packet _ h p)))

  keep_run_loop :
      (rounds : ℕ) (first : Bool) (buf : Bytes) (h : Host)
      → P h
      → EndKeeps P (run_loop os s rounds first buf h)
  unfolding run_loop EndKeeps
  keep_run_loop zero first buf h p = tt
  keep_run_loop (suc rounds) first buf h p =
      keep_after_receive _ (keep_run_loop rounds) first buf _ _ (k.keep_receive h 4096 p)

  pub sahara_run_keeps : (buf : Bytes) (h : Host) → P h → EndKeeps P (sahara_run os s buf h)
  unfolding sahara_run EndKeeps
  sahara_run_keeps buf h p = by_type s.dev_type
    where
      by_type :
          (t : DeviceType)
          → EndKeeps P (elim t [
            | sim ↦ some (Result.success, h)
            | _ ↦ run_loop os s (length h.wire.rx + 1) true buf h
          ])
      by_type sim = p
      by_type usb = keep_run_loop _ true buf h p
      by_type qud = keep_run_loop _ true buf h p
      by_type auto_detect = keep_run_loop _ true buf h p
