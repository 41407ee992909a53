-- ===== src/Sahara/Reset.antt =====
-- src/sahara.c: `sahara_device_reset`.
pub mod Outcome
use qdl.Base.{ℕ, zero, suc, Bool, true, false, not, ◌&&◌, Bytes, length, ltb, ◌==◌, if◌then◌else◌}
use qdl.Io.{Errno, Rx, got, failed}
use qdl.Sahara.{Wire, receive}
use qdl.Sahara.Pkt
use qdl.Sahara.Cmd
use qdl.Sahara.Handlers.{sahara_send_reset, sahara_send_hello_resp, sahara_version}
use qdl.Sahara.Run.{DeviceType, sim, is_timeout, is_xml, fill}

abbrev pub sahara_reset_retries : ℕ
sahara_reset_retries = 5

abbrev pub mode_image_tx_pending : ℕ
mode_image_tx_pending = 0

abbrev pub mode_memory_debug : ℕ
mode_memory_debug = 2

abbrev pub mode_command : ℕ
mode_command = 3

-- `0`, `1` and `-1`
pub data ResetResult : Type 0 where
  is_reset firehose_running not_reset : ResetResult

-- how the loop that sends the resets ends
pub data LoopEnd : Type 0 where
  broke rejected used_up : LoopEnd

-- behind a read of the loop
abbrev pub after_reset : (Bytes → Wire → LoopEnd × Wire) → Bytes → Rx → Wire → LoopEnd × Wire
after_reset next buf (failed e) w = if is_timeout e then next buf w else (broke, w)
after_reset next buf (got received) w =
    if ltb (length received) 8
    then next (fill buf received) w
    else if Pkt.cmd (fill buf received) == Cmd.reset_resp
    then (broke, w)
    else if Pkt.cmd (fill buf received) == Cmd.end_of_image
    then (rejected, w)
    else next (fill buf received) w

-- the loop, with at most `retries` rounds
pub reset_loop : ℕ → Bytes → Wire → LoopEnd × Wire
unfolding sahara_send_reset
reset_loop zero buf w = (used_up, w)
reset_loop (suc retries) buf w =
    let (r, w) = receive (sahara_send_reset w) 4096 in after_reset (reset_loop retries) buf r w

-- the read that tells whether the device went down
abbrev pub verified : Rx → ResetResult
verified (got received) = not_reset
verified (failed e) = if is_timeout e then not_reset else is_reset

abbrev pub verify : LoopEnd × Wire → ResetResult × Wire
verify (broke, w) = let (r, w) = receive w 4096 in (verified r, w)
verify (rejected, w) = (not_reset, w)
verify (used_up, w) = (not_reset, w)

abbrev pub reset_now : Bytes → Wire → ResetResult × Wire
reset_now buf w = verify (reset_loop sahara_reset_retries buf w)

-- the read behind the unsolicited HELLO response
abbrev pub after_prod : Bytes → Rx → Wire → ResetResult × Wire
after_prod buf (failed e) w = reset_now buf w
after_prod buf (got received) w =
    if is_xml received then (firehose_running, w) else reset_now (fill buf received) w

-- the buffer behind a read that may fail
abbrev pub fill_from : Bytes → Rx → Bytes
fill_from buf (failed e) = buf
fill_from buf (got received) = fill buf received

-- the answer to a HELLO, in `buf`
abbrev pub acknowledge : Bytes → Wire → ResetResult × Wire
acknowledge buf w =
    let answered = sahara_send_hello_resp (Pkt.word buf 0) mode_command w in
    let (r, read) = receive answered 4096 in
    if Pkt.word buf 3 == mode_memory_debug
    then reset_now buf (sahara_send_hello_resp (Pkt.word buf 0) mode_memory_debug w)
    else reset_now (fill_from buf r) read

-- behind the first read
abbrev pub after_hello : Bytes → Rx → Wire → ResetResult × Wire
after_hello buf (failed e) w =
    let prodded = sahara_send_hello_resp sahara_version mode_image_tx_pending w in
    let (r, read) = receive prodded 4096 in
    if is_timeout e then after_prod buf r read else (not_reset, w)
after_hello buf (got received) w =
    let filled = fill buf received in
    if is_xml received
    then (firehose_running, w)
    else if length received == Pkt.len filled && Pkt.cmd filled == Cmd.hello
    then acknowledge filled w
    else reset_now filled w

-- `sahara_device_reset`; `buf` is the uninitialised buffer.
unfoldable pub sahara_device_reset : DeviceType → Bytes → Wire → ResetResult × Wire
unfolding reset_loop sahara_send_hello_resp
sahara_device_reset dev_type buf w =
    let (r, read) = receive w 4096 in
    elim dev_type [ sim ↦ (is_reset, w) | _ ↦ after_hello buf r read ]
