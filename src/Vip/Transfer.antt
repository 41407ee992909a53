-- ===== src/Vip/Transfer.antt =====
-- The transfer half of src/vip.c: `vip_transfer_init` to `vip_transfer_clear_status`.
pub mod Frames
pub mod Tables
pub mod Open
pub mod Writes
use qdl.Base.{
  ℕ, zero, suc, ◌+◌, ◌%◌, ◌^◌, Bool, true, false, Option, none, some, List, [], ◌∷◌, ◌++◌, Bytes,
  length, take, get_or, leb, ◌==◌, if◌then◌else◌,
}
use qdl.Io.{Tx, wrote, refused}
use qdl.Vip.{max_digests_per_signed_table, max_digests_per_chained_table, max_chained_files}

-- `enum vip_state`
pub data VipState : Type 0 where
  vip_disabled vip_init vip_send_next_table vip_send_data vip_max : VipState

-- The fields of `struct vip_transfer_data` that the transfer uses. `chained_fds` holds the
-- entries of the array up to `chained_num`.
pub record VipTransferData : Type 0 where
  pub state : VipState
  pub signed_table_fd : ℕ
  pub chained_fds : List ℕ
  pub chained_num : ℕ
  pub chained_cur : ℕ
  pub frames_sent : ℕ
  pub frames_left : ℕ
  pub fh_parse_status : Bool
  pub sending_table : Bool

-- `size_t` addition
abbrev pub add_size : ℕ → ℕ → ℕ
add_size a b = (a + b) % 2 ^ 64

-- The file names of the tables.
pub data TableFile : Type 0 where
  digests_to_sign_mbn : TableFile
  chained_table : ℕ → TableFile

-- What `open` returns: a descriptor, -1 with `errno == ENOENT`, or -1 with another error.
pub data Opened : Type 0 where
  fd : ℕ → Opened
  enoent open_error : Opened

-- one round of the `for` loop of `vip_transfer_init`; `next` is the rounds behind it
open_more :
    (VipTransferData → Bool × VipTransferData) → Opened → VipTransferData → Bool × VipTransferData
open_more next (fd n) d =
    next
      (record d { chained_fds = d.chained_fds ++ n ∷ []; chained_num = add_size d.chained_num 1 })
open_more next enoent d = (true, d)
open_more next open_error d = (false, d)

-- the loop with `rounds` rounds left; the flag is false at `goto out_cleanup`
open_chained : (TableFile → Opened) → ℕ → ℕ → VipTransferData → Bool × VipTransferData
open_chained open_file zero i d = (true, d)
open_chained open_file (suc rounds) i d =
    open_more (open_chained open_file rounds (i + 1)) (open_file (chained_table i)) d

-- `vip_transfer_deinit`: the descriptors that it closes
pub vip_transfer_deinit : VipTransferData → List ℕ
vip_transfer_deinit d = d.signed_table_fd ∷ take d.chained_num d.chained_fds

-- the end of `vip_transfer_init`; what was closed is returned beside the new data
init_end : Bool × VipTransferData → Bool × VipTransferData × List ℕ
init_end (true, d) = (true, record d { state = vip_init; chained_cur = 0 }, [])
init_end (false, d) = (false, d, vip_transfer_deinit d)

-- `vip_transfer_init`, behind the `open` of the signed table
init_from : (TableFile → Opened) → Opened → VipTransferData → Bool × VipTransferData × List ℕ
init_from open_file (fd n) d = init_end (
    open_chained open_file max_chained_files 0
      (record d { signed_table_fd = n; chained_fds = []; chained_num = 0 }))
init_from open_file _ d = (false, d, [])

unfoldable pub vip_transfer_init :
    (TableFile → Opened) → VipTransferData → Bool × VipTransferData × List ℕ
unfolding init_from init_end open_chained open_more vip_transfer_deinit
vip_transfer_init open_file d = init_from open_file (open_file digests_to_sign_mbn) d

-- The calls that a transfer makes. `write` is `qdl_write` over the state `T` of a transport, which
-- may look at `sending_table`. `read` gives the bytes from the start of a file: a table that is sent
-- again after a failed write gives its bytes again, where the program would read none.
pub record TableIo (T : Type 0) : Type 0 where
  pub fstat : ℕ → Option ℕ
  pub malloc : ℕ → Bool
  pub read : ℕ → ℕ → Option Bytes
  pub write : Bool → T → Bytes → Tx × T

module _ {T : Type 0} (io : TableIo T) where
  open io use {fstat, malloc, read, write}

  -- `vip_transfer_send_raw` behind `qdl_write`, with `sending_table` reset
  abbrev sent : VipTransferData → Tx × T → Bool × VipTransferData × T
  sent d (wrote n, t) = (true, record d { sending_table = false }, t)
  sent d (refused e, t) = (false, record d { sending_table = false }, t)

  -- and behind `read`
  abbrev send_table : VipTransferData → T → ℕ → Option Bytes → Bool × VipTransferData × T
  send_table d t st_size none = (false, d, t)
  send_table d t st_size (some buf) =
      if length buf == st_size then sent d (write true t buf) else (false, d, t)

  abbrev send_stated : VipTransferData → T → ℕ → Option ℕ → Bool × VipTransferData × T
  send_stated d t table none = (false, d, t)
  send_stated d t table (some st_size) =
      if malloc st_size then send_table d t st_size (read table st_size) else (false, d, t)

  pub vip_transfer_send_raw : VipTransferData → T → ℕ → Bool × VipTransferData × T
  vip_transfer_send_raw d t table = send_stated d t table (fstat table)

  -- The data once a table is sent: the frames start again.
  abbrev fresh_table : ℕ → VipTransferData → VipTransferData
  fresh_table capacity d = record d {
    state = vip_send_data;
    frames_sent = 0;
    frames_left = capacity;
    fh_parse_status = true;
  }

  -- the first two `if`s of `vip_transfer_handle_tables`, on the state
  pub send_due_table : VipState → VipTransferData → T → Bool × VipTransferData × T
  send_due_table vip_init d t =
      let (ok, d', t') = vip_transfer_send_raw d t d.signed_table_fd in
      if ok then (true, fresh_table max_digests_per_signed_table d', t') else (false, d', t')
  send_due_table vip_send_next_table d t =
      if leb d.chained_num d.chained_cur
      then (false, d, t)
      else let (ok, d', t') = vip_transfer_send_raw d t (get_or d.chained_fds d.chained_cur 0) in
        if ok
        then (
          true,
          record (fresh_table max_digests_per_chained_table d') {
            chained_cur = add_size d'.chained_cur 1;
          },
          t',
        )
        else (false, d', t')
  send_due_table _ d t = (true, d, t)

  -- the end of `vip_transfer_handle_tables`
  abbrev count_frame : VipTransferData → VipTransferData
  count_frame d =
      let n = add_size d.frames_sent 1 in
      if leb d.frames_left n
      then record d { frames_sent = n; state = vip_send_next_table }
      else record d { frames_sent = n }

  handle_in : VipState → VipTransferData → T → Bool × VipTransferData × T
  handle_in vip_disabled d t = (true, d, t)
  handle_in s d t =
      let (ok, d', t') = send_due_table s d t in
      if ok then (true, count_frame d', t') else (false, d', t')

  unfoldable pub vip_transfer_handle_tables : VipTransferData → T → Bool × VipTransferData × T
  unfolding handle_in
  vip_transfer_handle_tables d t = handle_in d.state d t

  abbrev kept_frame : Bool × VipTransferData × T → Option (VipTransferData × T)
  kept_frame (true, d, t) = some (d, t)
  kept_frame (false, d, t) = none

  abbrev one_more : Option (VipTransferData × T) → Option (VipTransferData × T)
  one_more none = none
  one_more (some (d, t)) = kept_frame (vip_transfer_handle_tables d t)

  -- The calls that go before `k` data frames; `none` once one fails.
  pub run_frames : ℕ → VipTransferData → T → Option (VipTransferData × T)
  run_frames zero d t = some (d, t)
  run_frames (suc k) d t = one_more (run_frames k d t)

unfoldable pub vip_transfer_status_check_needed : VipTransferData → Bool
vip_transfer_status_check_needed d = d.fh_parse_status

unfoldable pub vip_transfer_clear_status : VipTransferData → VipTransferData
vip_transfer_clear_status d = record d { fh_parse_status = false }
