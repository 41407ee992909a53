-- ===== src/Sahara/Command.antt =====
-- src/sahara.c: the command mode, in which the chip tells its identity.
pub mod Payload
pub mod Trim
use qdl.Base.{
  ℕ, zero, suc, ◌+◌, ◌-◌, ◌*◌, ◌/◌, ◌%◌, Bool, true, false, not, ◌||◌, ◌&&◌, Option, none, some, [],
  ◌∷◌, ◌++◌, Bytes, length, take, drop, get_or, ltb, leb, ◌==◌, if◌then◌else◌,
}
use qdl.Io.{Errno, Rx, got, failed, Tx, wrote, refused}
use qdl.Sahara.{Wire, send, receive, le16, le32, le64, put32}
use qdl.Sahara.Pkt
use qdl.Sahara.Cmd
use qdl.Sahara.Length
use qdl.Sahara.Handlers.{sahara_send_hello_resp, sahara_version}
use qdl.Sahara.Run.{DeviceType, sim, eats_hello, is_timeout, is_xml, same_bytes, fill}
use qdl.Sahara.Reset.{mode_image_tx_pending, mode_command, fill_from}

-- a hexadecimal digit
abbrev pub hex : ℕ → ℕ
hex n = if ltb n 10 then 48 + n else 87 + n

-- `sahara_hexstr` from byte `i` on: the string that it leaves in a buffer of `out_sz` bytes
pub sahara_hexstr : Bytes → ℕ → ℕ → Bytes
sahara_hexstr [] i out_sz = []
sahara_hexstr (b ∷ buf) i out_sz =
    let rest = sahara_hexstr buf (suc i) out_sz in
    if ltb (2 * i + 2) out_sz then hex (b / 16) ∷ hex (b % 16) ∷ rest else []

-- the first `i` from the given one on whose block recurs; each round is one `i`
abbrev pub find_repeat : ℕ → ℕ → Bytes → ℕ
find_repeat zero i buf = length buf
find_repeat (suc rounds) i buf =
    let rest = find_repeat rounds (suc i) buf in
    if not (leb (i * 2) (length buf))
    then length buf
    else if same_bytes (take i buf) (take i (drop i buf))
    then i
    else rest

-- the length without zeroes at the end
abbrev pub strip_zeroes : ℕ → Bytes → ℕ
strip_zeroes zero buf = 0
strip_zeroes (suc n) buf = if get_or buf n 0 == 0 then strip_zeroes n buf else suc n

-- the first of the digest sizes that fits
abbrev pub round_up : ℕ → ℕ → ℕ
round_up len orig_len =
    if leb len 32 && leb 32 orig_len
    then 32
    else if leb len 48 && leb 48 orig_len
    then 48
    else if leb len 64 && leb 64 orig_len
    then 64
    else len

-- `sahara_pkhash_trim`
unfoldable pub sahara_pkhash_trim : Bytes → ℕ
sahara_pkhash_trim buf = round_up (strip_zeroes (find_repeat (length buf) 4 buf) buf) (length buf)

abbrev pub prepend : Bytes → Option Bytes × Wire → Option Bytes × Wire
prepend bytes (none, w) = (none, w)
prepend bytes (some more, w) = (some (bytes ++ more), w)

abbrev pub after_part : (ℕ → Wire → Option Bytes × Wire) → ℕ → Rx → Wire → Option Bytes × Wire
after_part next left (failed e) w = (none, w)
after_part next left (got []) w = (some [], w)
after_part next left (got (b ∷ bytes)) w = prepend (b ∷ bytes) (next (left - length (b ∷ bytes)) w)

-- the loop of `sahara_read_payload`, with `left` bytes to come; each round reads a byte at least
pub read_parts : ℕ → ℕ → Wire → Option Bytes × Wire
read_parts zero left w = (some [], w)
read_parts (suc rounds) left w =
    let (r, v) = receive w left in
    let rest = after_part (read_parts rounds) left r v in if left == 0 then (some [], w) else rest

-- `sahara_read_payload`
unfoldable pub sahara_read_payload : ℕ → Wire → Option Bytes × Wire
unfolding read_parts
sahara_read_payload len w = read_parts len len w

abbrev pub exec_packet : ℕ → ℕ → Bytes
exec_packet cmd client_cmd = put32 cmd ++ put32 Length.execute ++ put32 client_cmd

-- the test of the payload's length
abbrev pub whole_payload : ℕ → Option Bytes × Wire → Option Bytes × Wire
whole_payload data_len (none, w) = (none, w)
whole_payload data_len (some bytes, w) =
    if ltb (length bytes) data_len then (none, w) else (some bytes, w)

abbrev pub fetch : ℕ → Tx × Wire → Option Bytes × Wire
fetch data_len (refused e, w) = (none, w)
fetch data_len (wrote n, w) = whole_payload data_len (sahara_read_payload data_len w)

abbrev pub after_exec : ℕ → ℕ → Rx → Wire → Option Bytes × Wire
after_exec client_cmd buf_len (failed e) w = (none, w)
after_exec client_cmd buf_len (got received) w =
    let data_len = Pkt.word received 1 in
    if ltb (length received) 16 || not (Pkt.cmd received == Cmd.execute_resp)
    then (none, w)
    else if data_len == 0 || ltb buf_len data_len
    then (none, w)
    else fetch data_len (send w (exec_packet Cmd.execute_data client_cmd))

abbrev pub after_exec_sent : ℕ → ℕ → Tx × Wire → Option Bytes × Wire
after_exec_sent client_cmd buf_len (refused e, w) = (none, w)
after_exec_sent client_cmd buf_len (wrote n, w) =
    let (r, v) = receive w 64 in after_exec client_cmd buf_len r v

-- `sahara_command_exec`: the payload, with its length
unfoldable pub sahara_command_exec : ℕ → ℕ → Wire → Option Bytes × Wire
unfolding sahara_read_payload
sahara_command_exec client_cmd buf_len w =
    after_exec_sent client_cmd buf_len (send w (exec_packet Cmd.execute client_cmd))

-- What `sahara_command_info` prints; `none` for what it does not.
pub record ChipInfo : Type 0 where
  pub serial : Option ℕ
  pub hw_id : Option ℕ
  pub pk_hash : Option Bytes

abbrev pub serial_of : Option Bytes → Option ℕ
serial_of none = none
serial_of (some payload) = if leb 4 (length payload) then some (le32 payload 0) else none

abbrev pub hw_id_of : Option Bytes → Option ℕ
hw_id_of none = none
hw_id_of (some payload) = if leb 8 (length payload) then some (le64 payload 0) else none

-- the OEM identity of a version 3 target, from its own slot or from the alternate one
abbrev pub oem_id_v3 : Bytes → ℕ
oem_id_v3 payload =
    if le16 payload 40 == 0 && leb 46 (length payload) then le16 payload 44 else le16 payload 40

abbrev pub hw_id_v3 : Option Bytes → Option ℕ
hw_id_v3 none = none
hw_id_v3 (some payload) =
    if leb 44 (length payload)
    then some (4294967296 * le32 payload 36 + 65536 * oem_id_v3 payload + le16 payload 42)
    else none

abbrev pub pk_hash_of : Option Bytes → Option Bytes
pk_hash_of none = none
pk_hash_of (some payload) =
    if ltb 0 (length payload)
    then some (sahara_hexstr (take (sahara_pkhash_trim payload) payload) 0 1025)
    else none

abbrev pub is_none : {A : Type 0} → Option A → Bool
is_none none = true
is_none (some a) = false

abbrev pub info_result : ChipInfo → Option ChipInfo
info_result info =
    if is_none info.serial && is_none info.hw_id && is_none info.pk_hash then none else some info

abbrev pub payload_size : ℕ
payload_size = 512

-- `sahara_command_info`
unfoldable pub sahara_command_info : ℕ → Wire → Option ChipInfo × Wire
unfolding sahara_command_exec sahara_pkhash_trim sahara_hexstr
sahara_command_info version w =
    let (serial, a) = sahara_command_exec 1 payload_size w in
    let (id, b) = sahara_command_exec 2 payload_size a in
    let (id_v3, c) = sahara_command_exec 10 payload_size a in
    let (hash_v2, d) = sahara_command_exec 3 payload_size b in
    let (hash_v3, e) = sahara_command_exec 3 payload_size c in
    if ltb version 3
    then (
      info_result
          (record { serial = serial_of serial; hw_id = hw_id_of id; pk_hash = pk_hash_of hash_v2 }),
      d,
    )
    else (
      info_result (record {
        serial = serial_of serial;
        hw_id = hw_id_v3 id_v3;
        pk_hash = pk_hash_of hash_v3;
      }),
      e,
    )

-- `sahara_send_switch_mode`
abbrev pub sahara_send_switch_mode : ℕ → Wire → Wire
sahara_send_switch_mode mode w =
    (send w (put32 Cmd.switch_mode ++ put32 Length.switch_mode ++ put32 mode)).1

-- `0` and `-1`, with what was printed
pub data ChipinfoResult : Type 0 where
  nothing_to_do no_info : ChipinfoResult
  printed : ChipInfo → ChipinfoResult

abbrev pub info_printed : Option ChipInfo × Wire → ChipinfoResult × Wire
info_printed (none, w) = (no_info, sahara_send_switch_mode mode_image_tx_pending w)
info_printed (some info, w) = (printed info, sahara_send_switch_mode mode_image_tx_pending w)

-- behind the read of CMD_READY
abbrev pub after_ready : ℕ → Bytes → Rx → Wire → ChipinfoResult × Wire
after_ready version buf (failed e) w = (no_info, w)
after_ready version buf (got received) w =
    if not (Pkt.cmd (fill buf received) == Cmd.cmd_ready)
    then (no_info, w)
    else info_printed (sahara_command_info version w)

abbrev pub enter_command_mode : ℕ → Bytes → Wire → ChipinfoResult × Wire
enter_command_mode version buf w =
    let (r, v) = receive (sahara_send_hello_resp version mode_command w) 4096 in
    after_ready version buf r v

-- behind the first read
abbrev pub chipinfo_hello : DeviceType → Bytes → Rx → Wire → ChipinfoResult × Wire
chipinfo_hello dev_type buf (failed e) w =
    if not (is_timeout e) || not (eats_hello dev_type)
    then (no_info, w)
    else enter_command_mode sahara_version buf w
chipinfo_hello dev_type buf (got received) w =
    let filled = fill buf received in
    if is_xml received
    then (no_info, w)
    else if not (length received == Pkt.len filled) || not (Pkt.cmd filled == Cmd.hello)
    then (no_info, w)
    else enter_command_mode (Pkt.word filled 0) filled w

-- `sahara_chipinfo`; `buf` is the uninitialised buffer.
unfoldable pub sahara_chipinfo : DeviceType → Bytes → Wire → ChipinfoResult × Wire
unfolding sahara_command_info sahara_send_hello_resp
sahara_chipinfo dev_type buf w =
    let (r, v) = receive w 4096 in
    elim dev_type [ sim ↦ (nothing_to_do, w) | other ↦ chipinfo_hello other buf r v ]
