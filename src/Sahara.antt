-- ===== src/Sahara.antt =====
-- src/sahara.c: the Sahara protocol. This file has the packets and the device as the handlers see
-- it, Handlers the answers to single packets, Filter and Ramdump the memory dump, Run the loop of
-- `sahara_run`, Reset that of `sahara_device_reset` and Command the command mode.
pub mod Pkt
mod Tests
pub mod Cmd
pub mod Length
pub mod Filter
pub mod Handlers
pub mod Invariant
pub mod Dump
pub mod Minidump
pub mod Ramdump
pub mod Run
pub mod Reset
pub mod Command
use Prim.Native.Nat.{min}
use qdl.Base.{
  ℕ, ◌+◌, ◌*◌, ◌/◌, ◌%◌, ◌^◌, Bool, Option, none, some, List, [], ◌∷◌, ◌++◌, Bytes, length, take,
  drop, get_or, replicate,
}
pub use qdl.Base.{le16, le32, le64, put32, put64}
use qdl.Io.{Errno, eio, Rx, got, failed, Tx, copy_at}

-- The device during a run: what the reads to come return, what was written so far, and what the
-- `n`-th write returns. A device that has no more to say answers with an error.
pub record Wire : Type 0 where
  pub rx : List Rx
  pub tx : List Bytes
  pub ack : ℕ → Tx

-- `qdl_write`
abbrev pub send : Wire → Bytes → Tx × Wire
send w buf = (w.ack (length w.tx), record w { tx = w.tx ++ buf ∷ [] })

-- No transport puts more into the buffer than it holds.
abbrev pub capped : ℕ → Rx → Rx
capped n (got buf) = got (take n buf)
capped n (failed e) = failed e

abbrev pub receive_from : List Rx → ℕ → Rx × List Rx
receive_from [] n = (failed eio, [])
receive_from (r ∷ rx) n = (capped n r, rx)

-- `qdl_read`, with `n` bytes of room
abbrev pub receive : Wire → ℕ → Rx × Wire
receive w n = let (r, rx) = receive_from w.rx n in (r, record w { rx = rx })

-- `struct sahara_image`; the name serves for messages only.
pub record SaharaImage : Type 0 where
  pub ptr : Option Bytes
  pub len : ℕ

abbrev pub mapping_sz : ℕ
mapping_sz = 128

abbrev pub sahara_id_ehostdl_img : ℕ
sahara_id_ehostdl_img = 13

-- the array of `mapping_sz` images; `none` is a null pointer
abbrev pub Images : Type 0
Images = Option (List SaharaImage)

abbrev pub no_image : SaharaImage
no_image = record { ptr = none; len = 0 }
