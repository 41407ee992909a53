-- ===== src/Vip/Transfer/Writes.antt =====
-- What `vip_transfer_handle_tables` of src/vip.c does to the transport: it only writes to it.
use qdl.Base.{
  ℕ, Bool, true, false, Option, none, some, Bytes, length, get_or, leb, ◌==◌, either, if◌then◌else◌,
  ◌≡◌, refl,
}
use qdl.Io.{Tx, wrote, refused}
use qdl.Vip.Transfer.{
  VipState, vip_disabled, vip_init, vip_send_next_table, vip_send_data, vip_max, VipTransferData,
  TableIo, sent, send_table, send_stated, vip_transfer_send_raw, send_due_table, fresh_table,
  handle_in, count_frame, vip_transfer_handle_tables, add_size,
}
use qdl.Vip.{max_digests_per_signed_table, max_digests_per_chained_table}

-- The bytes are what a table's file holds.
pub record IsTable {T : Type 0} (io : TableIo T) (bytes : Bytes) : Type 0 where
  pub table : ℕ
  pub size : ℕ
  pub read_lem : io.read table size ≡ some bytes

module _ {T : Type 0} (io : TableIo T) (P : T → Type 0)
    (keep_write : (b : Bool) (t : T) (bytes : Bytes)
      → IsTable io bytes
      → P t
      → P (io.write b t bytes).1) where
  abbrev On : Bool × VipTransferData × T → Type 0
  On out = P out.2

  keep_sent : (d : VipTransferData) (r : Tx × T) → P r.1 → On (sent io d r)
  keep_sent d (wrote n, t) p = p
  keep_sent d (refused e, t) p = p

  keep_send_table :
      (d : VipTransferData) (t : T) (table size : ℕ) (o : Option Bytes)
      → io.read table size ≡ o
      → P t
      → On (send_table io d t size o)
  keep_send_table d t table size none e p = p
  keep_send_table d t table size (some buf) e p =
      let is_table : IsTable io buf = record { table = table; size = size; read_lem = e } in
      either On (length buf == size) {y = (false, d, t)}
        (keep_sent d (io.write true t buf) (keep_write true t buf is_table p)) p

  keep_send_stated :
      (d : VipTransferData) (t : T) (table : ℕ) (o : Option ℕ)
      → P t
      → On (send_stated io d t table o)
  keep_send_stated d t table none p = p
  keep_send_stated d t table (some size) p =
      either On (io.malloc size) {y = (false, d, t)} (keep_send_table d t table size _ refl p) p

  keep_send_raw :
      (d : VipTransferData) (t : T) (table : ℕ) → P t → On (vip_transfer_send_raw io d t table)
  unfolding vip_transfer_send_raw
  keep_send_raw d t table p = keep_send_stated d t table (io.fstat table) p

  keep_due : (s : VipState) (d : VipTransferData) (t : T) → P t → On (send_due_table io s d t)
  unfolding send_due_table
  keep_due vip_init d t p =
      let (ok, d', t') = vip_transfer_send_raw io d t d.signed_table_fd in
      either On ok {x = (true, fresh_table io max_digests_per_signed_table d', t')}
        {y = (false, d', t')} (keep_send_raw d t d.signed_table_fd p)
        (keep_send_raw d t d.signed_table_fd p)
  keep_due vip_send_next_table d t p =
      let table = get_or d.chained_fds d.chained_cur 0 in
      let (ok, d', t') = vip_transfer_send_raw io d t table in
      either On (leb d.chained_num d.chained_cur) {x = (false, d, t)} p (
        either On ok
          {x = (
            true,
            record (fresh_table io max_digests_per_chained_table d') {
              chained_cur = add_size d'.chained_cur 1;
            },
            t',
          )}
          {y = (false, d', t')} (keep_send_raw d t table p) (keep_send_raw d t table p))
  keep_due vip_disabled d t p = p
  keep_due vip_send_data d t p = p
  keep_due vip_max d t p = p

  keep_counted :
      (s : VipState) (d : VipTransferData) (t : T)
      → P t
      → let (ok, d', t') = send_due_table io s d t in
        On (if ok then (true, count_frame io d', t') else (false, d', t'))
  keep_counted s d t p =
      let (ok, d', t') = send_due_table io s d t in
      either On ok {x = (true, count_frame io d', t')} {y = (false, d', t')} (keep_due s d t p)
        (keep_due s d t p)

  keep_handle_in : (s : VipState) (d : VipTransferData) (t : T) → P t → On (handle_in io s d t)
  unfolding handle_in
  keep_handle_in vip_disabled d t p = p
  keep_handle_in vip_init d t p = keep_counted vip_init d t p
  keep_handle_in vip_send_next_table d t p = keep_counted vip_send_next_table d t p
  keep_handle_in vip_send_data d t p = keep_counted vip_send_data d t p
  keep_handle_in vip_max d t p = keep_counted vip_max d t p

  -- What every write of a table to the transport preserves, `vip_transfer_handle_tables` does.
  pub keep_handle_tables :
      (d : VipTransferData) (t : T) → P t → P (vip_transfer_handle_tables io d t).2
  unfolding vip_transfer_handle_tables
  keep_handle_tables d t p = keep_handle_in d.state d t p
