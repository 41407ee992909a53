-- ===== src/Sahara/Run.antt =====
-- src/sahara.c: `sahara_run`.
pub mod Keeps
pub mod Steps
pub mod Upload
use qdl.Base.{
  ℕ, zero, suc, ◌+◌, Bool, true, false, not, ◌||◌, ◌&&◌, Option, none, some, List, [], ◌∷◌, ◌++◌,
  Bytes, length, take, drop, ltb, leb, ◌==◌, if◌then◌else◌,
}
use qdl.Io.{Errno, etimedout, Rx, got, failed}
use qdl.Sahara.{Wire, receive, Images}
use qdl.Sahara.Pkt
use qdl.Sahara.Cmd
use qdl.Sahara.Length
use qdl.Sahara.Handlers.{
  sahara_send_hello_resp, sahara_version, sahara_hello, sahara_read, sahara_read64, sahara_eoi,
  sahara_done, sahara_has_done_pending_quirk,
}
use qdl.Sahara.Ramdump.{Os, Host, sahara_debug64}

-- `enum QDL_DEVICE_TYPE`
pub data DeviceType : Type 0 where
  usb sim qud auto_detect : DeviceType

-- `0`, `-1` and `-EINVAL`
pub data Result : Type 0 where
  success failure invalid : Result

-- how the body of the loop ends: it goes round again with `done`, or it leaves the function
pub data Step : Type 0 where
  round : (done : Bool) → Step
  leave : Result → Step

-- The arguments of `sahara_run`, and `qdl->dev_type`.
pub record Session : Type 0 where
  pub dev_type : DeviceType
  pub images : Images
  pub ramdump_path : Option Bytes
  pub ramdump_filter : Option Bytes

abbrev pub is_some : Option Bytes → Bool
is_some none = false
is_some (some b) = true

abbrev pub is_timeout : Errno → Bool
is_timeout etimedout = true
is_timeout _ = false

-- the devices whose driver may have eaten the HELLO
abbrev pub eats_hello : DeviceType → Bool
eats_hello qud = true
eats_hello auto_detect = true
eats_hello _ = false

-- the buffer after a read into it
abbrev pub fill : Bytes → Bytes → Bytes
fill buf received = received ++ drop (length received) buf

abbrev pub same_bytes : Bytes → Bytes → Bool
same_bytes [] [] = true
same_bytes (a ∷ rest) (b ∷ more) = a == b && same_bytes rest more
same_bytes rest more = false

-- `memcmp(buf, "<?xml", 5)` with at least five bytes read
abbrev pub is_xml : Bytes → Bool
is_xml buf = same_bytes (take 5 buf) (60 ∷ 63 ∷ 120 ∷ 109 ∷ 108 ∷ [])

-- a handler's result in the `switch`
abbrev pub checked : Host → Bool × Wire → Step × Host
checked h (true, w) = (round false, record h { wire = w })
checked h (false, w) = (leave failure, record h { wire = w })

abbrev pub done_step : Images → Host → Option ℕ × Wire → Step × Host
done_step images h (none, w) = (leave failure, record h { wire = w })
done_step images h (some status, w) =
    (round (not (status == 0) || sahara_has_done_pending_quirk images), record h { wire = w })

abbrev pub reset_step : Option Bytes → Bytes → Step
reset_step ramdump_path pkt =
    if not (Pkt.len pkt == Length.reset) then leave failure else round (is_some ramdump_path)

-- behind the `switch`
abbrev pub after_packet : (Host → Option (Result × Host)) → Step × Host → Option (Result × Host)
after_packet next (round true, h) = some (success, h)
after_packet next (round false, h) = next h
after_packet next (leave result, h) = some (result, h)

module _ (os : Os) (s : Session) where
  open s use {dev_type, images, ramdump_path, ramdump_filter}

  -- the `switch` on the command
  pub handle_packet : Bytes → Host → Step × Host
  unfolding sahara_hello sahara_read sahara_eoi sahara_done sahara_has_done_pending_quirk
      sahara_debug64 sahara_read64
  handle_packet pkt h =
      if Pkt.cmd pkt == Cmd.hello
      then checked h (sahara_hello pkt h.wire)
      else if Pkt.cmd pkt == Cmd.read_data
      then checked h (sahara_read images pkt h.wire)
      else if Pkt.cmd pkt == Cmd.end_of_image
      then checked h (sahara_eoi pkt h.wire)
      else if Pkt.cmd pkt == Cmd.done_resp
      then done_step images h (sahara_done pkt h.wire)
      else if Pkt.cmd pkt == Cmd.mem_debug64
      then (round false, sahara_debug64 os pkt ramdump_path ramdump_filter h)
      else if Pkt.cmd pkt == Cmd.read_data64
      then checked h (sahara_read64 images pkt h.wire)
      else if Pkt.cmd pkt == Cmd.reset_resp
      then (reset_step ramdump_path pkt, h)
      else (round false, h)

  -- `first_read && detect_firehose`
  abbrev pub detects : Bool → Bool
  detects first = first && not (is_some ramdump_path)

  -- behind `qdl_read`; `buf` is the buffer, which keeps what a short read leaves of it
  abbrev pub after_receive :
      (Bool → Bytes → Host → Option (Result × Host))
      → Bool
      → Bytes
      → Rx
      → Host
      → Option (Result × Host)
  after_receive next first buf (failed e) h =
      if not (detects first && is_timeout e)
      then some (failure, h)
      else if eats_hello dev_type
      then next first buf (record h { wire = sahara_send_hello_resp sahara_version 0 h.wire })
      else some (success, h)
  after_receive next first buf (got received) h =
      if detects first && is_xml received
      then some (success, h)
      else if not (length received == Pkt.len (fill buf received))
      then some (invalid, h)
      else after_packet (next false (fill buf received)) (handle_packet (fill buf received) h)

  -- the loop; `none` when the rounds are used up
  pub run_loop : ℕ → Bool → Bytes → Host → Option (Result × Host)
  unfolding handle_packet
  run_loop zero first buf h = none
  run_loop (suc rounds) first buf h =
      let (r, w) = receive h.wire 4096 in
      after_receive (run_loop rounds) first buf r (record h { wire = w })

  -- `sahara_run`; `buf` is the uninitialised buffer. Each round takes one read of the device.
  unfoldable pub sahara_run : Bytes → Host → Option (Result × Host)
  unfolding run_loop
  sahara_run buf h = elim dev_type [
    | sim ↦ some (success, h)
    | _ ↦ run_loop (length h.wire.rx + 1) true buf h
  ]
