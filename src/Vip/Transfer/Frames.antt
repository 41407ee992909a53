-- ===== src/Vip/Transfer/Frames.antt =====
-- How many tables a transfer has sent after a number of data frames.
use qdl.Base.{
  ℕ, zero, suc, ◌+◌, ◌-◌, ◌/◌, ◌%◌, ◌≤◌, ◌<◌, ◌≡◌, refl, subst, ◌∙◌, Bool, true, false, Option,
  none, some, Bytes, length, leb, ◌==◌, if◌then◌else◌, Bool-cases, inl, inr, arith, get_or,
  Option-cases,
}
use qdl.Io.{Tx, wrote, refused}
use qdl.Vip.Transfer.{
  vip_init, vip_send_next_table, vip_send_data, VipTransferData, TableIo, sent, send_table,
  send_stated, vip_transfer_send_raw, send_due_table, vip_transfer_handle_tables, run_frames,
  kept_frame, one_more,
}

-- The number of chained tables that the device asks for before the `k`-th data frame. A signed
-- table covers 53 frames, a chained table 255.
unfoldable pub needed : ℕ → ℕ
needed k = (k - 53 + 254) / 255

-- Where a transfer stands after `k` frames, with `num` chained tables to send.
pub record IsAt (num k : ℕ) (d : VipTransferData) : Type 0 where
  pub num_is : d.chained_num ≡ num
  pub cur_is : d.chained_cur ≡ needed k
  pub cur_le : d.chained_cur ≤ num
  pub started : 0 < k
  pub sent_is : d.frames_sent ≡ (if leb k 53 then k else (k - 54) % 255 + 1)
  pub left_is : d.frames_left ≡ (if leb k 53 then 53 else 255)
  pub state_is :
      d.state ≡ (if d.frames_sent == d.frames_left then vip_send_next_table else vip_send_data)

-- Sending a table changes nothing of the data but `sending_table`.
record Keeps (d e : VipTransferData) : Type 0 where
  state : e.state ≡ d.state
  fds : e.chained_fds ≡ d.chained_fds
  num : e.chained_num ≡ d.chained_num
  cur : e.chained_cur ≡ d.chained_cur

module _ {T : Type 0} (io : TableIo T) where
  sent-Keeps : (d : VipTransferData) (r : Tx) (t : T) → Keeps d (sent io d (r, t)).1
  sent-Keeps d (wrote n) t = record { state = refl; fds = refl; num = refl; cur = refl }
  sent-Keeps d (refused e) t = record { state = refl; fds = refl; num = refl; cur = refl }

  send_table-Keeps :
      (d : VipTransferData) (t : T) (n : ℕ) (o : Option Bytes) → Keeps d (send_table io d t n o).1
  send_table-Keeps d t n none = record { state = refl; fds = refl; num = refl; cur = refl }
  send_table-Keeps d t n (some buf) = elim (Bool-cases (length buf == n)) [
    | inl e ↦ rw e (sent-Keeps d (io.write true t buf).0 (io.write true t buf).1)
    | inr e ↦ rw e (record { state = refl; fds = refl; num = refl; cur = refl })
  ]

  send_stated-Keeps :
      (d : VipTransferData) (t : T) (n : ℕ) (o : Option ℕ) → Keeps d (send_stated io d t n o).1
  send_stated-Keeps d t n none = record { state = refl; fds = refl; num = refl; cur = refl }
  send_stated-Keeps d t n (some size) = elim (Bool-cases (io.malloc size)) [
    | inl e ↦ rw e (send_table-Keeps d t size (io.read n size))
    | inr e ↦ rw e (record { state = refl; fds = refl; num = refl; cur = refl })
  ]

  vip_transfer_send_raw-Keeps :
      (d : VipTransferData) (t : T) (n : ℕ) → Keeps d (vip_transfer_send_raw io d t n).1
  unfolding vip_transfer_send_raw
  vip_transfer_send_raw-Keeps d t n = send_stated-Keeps d t n (io.fstat n)

  -- One more frame, in each of the states.
  pub first_frame :
      (d : VipTransferData) (t : T)
      → d.state ≡ vip_init
      → d.chained_cur ≡ 0
      → (vip_transfer_handle_tables io d t).0 ≡ true
      → IsAt d.chained_num 1 (vip_transfer_handle_tables io d t).1
  unfolding vip_transfer_handle_tables send_due_table needed
  first_frame d t s c h = let k = vip_transfer_send_raw-Keeps d t d.signed_table_fd in ground arith

  pub next_frame :
      (num k : ℕ) (d : VipTransferData) (t : T)
      → num ≤ 32
      → IsAt num k d
      → (vip_transfer_handle_tables io d t).0 ≡ true
      → IsAt num (suc k) (vip_transfer_handle_tables io d t).1
  unfolding vip_transfer_handle_tables send_due_table needed
  next_frame num k d t small a h = elim (Bool-cases (d.frames_sent == d.frames_left)) [
    | inl e ↦
        let s : d.state ≡ vip_send_next_table = a.state_is ∙ (rw e) in
        let keep = vip_transfer_send_raw-Keeps d t (get_or d.chained_fds d.chained_cur 0) in
        ground arith
    | inr e ↦ let s : d.state ≡ vip_send_data = a.state_is ∙ (rw e) in ground arith
  ]

  kept_frame-some :
      (r : Bool × VipTransferData × T) {d : VipTransferData} {t : T}
      → kept_frame io r ≡ some (d, t)
      → (r.0 ≡ true) × (r.1 ≡ d)
  kept_frame-some (true, e, u) h = (refl, cc)
  kept_frame-some (false, e, u) h = cc

  one_more-some :
      (o : Option (VipTransferData × T)) {d : VipTransferData} {t : T}
      → one_more io o ≡ some (d, t)
      → (e : VipTransferData) × (u : T) × (o ≡ some (e, u))
        × ((vip_transfer_handle_tables io e u).0 ≡ true)
        × ((vip_transfer_handle_tables io e u).1 ≡ d)
  one_more-some none h = cc
  one_more-some (some (e, u)) h =
      let (ok, same) = kept_frame-some (vip_transfer_handle_tables io e u) h in
      (e, u, refl, ok, same)

  -- After `k + 1` frames that went well, the counters and the number of chained tables sent.
  pub run_frames-IsAt :
      (k : ℕ) (d d' : VipTransferData) (t t' : T)
      → d.state ≡ vip_init
      → d.chained_cur ≡ 0
      → d.chained_num ≤ 32
      → run_frames io (suc k) d t ≡ some (d', t')
      → IsAt d.chained_num (suc k) d'
  unfolding run_frames
  run_frames-IsAt zero d d' t t' s c small h =
      let (ok, same) = kept_frame-some (vip_transfer_handle_tables io d t) h in
      subst (IsAt d.chained_num 1) same (first_frame d t s c ok)
  run_frames-IsAt (suc k) d d' t t' s c small h =
      let (e, u, before, ok, same) = one_more-some (run_frames io (suc k) d t) h in
      subst (IsAt d.chained_num (suc (suc k))) same
        (next_frame d.chained_num (suc k) e u small (run_frames-IsAt k d e t u s c small before) ok)

  -- With too few chained tables the run does not get as far as `k + 1` frames.
  pub run_frames_starved :
      (k : ℕ) (d : VipTransferData) (t : T)
      → d.state ≡ vip_init
      → d.chained_cur ≡ 0
      → d.chained_num ≤ 32
      → d.chained_num < needed (suc k)
      → run_frames io (suc k) d t ≡ none
  run_frames_starved k d t s c small few = elim (Option-cases (run_frames io (suc k) d t)) [
    | inl e ↦ e
    | inr ((d', t'), e) ↦
        let a = run_frames-IsAt k d d' t t' s c small e in
        absurd (omega (arith, a.cur_is, a.cur_le))
  ]
