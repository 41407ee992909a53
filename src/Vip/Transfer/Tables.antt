-- ===== src/Vip/Transfer/Tables.antt =====
-- A transfer with enough tables, over calls that do not fail, sends each table before the frame
-- that needs it.
use qdl.Base.{
  ℕ, zero, suc, ◌≤◌, ◌<◌, ◌≡◌, ◌≢◌, refl, ap, sym, ◌∙◌, Bool, true, false, some, List, [], ◌∷◌,
  ◌++◌, Bytes, length, take, ◌==◌, Bool-cases, inl, inr, arith, get_or, ==_iff,
}
use qdl.Io.{wrote}
use qdl.Vip.Transfer.{
  vip_init, vip_send_next_table, vip_send_data, VipTransferData, TableIo, vip_transfer_send_raw,
  send_due_table, vip_transfer_handle_tables, run_frames, kept_frame, one_more,
}
use qdl.Vip.Transfer.Frames.{needed, IsAt, first_frame, next_frame}

-- No call of the transfer fails: `content` is what the file of a descriptor holds.
pub record Reliable {T : Type 0} (io : TableIo T) : Type 0 where
  pub content : ℕ → Bytes
  pub stat_ok : (n : ℕ) → io.fstat n ≡ some (length (content n))
  pub malloc_ok : (n : ℕ) → io.malloc n ≡ true
  pub read_ok : (n : ℕ) → io.read n (length (content n)) ≡ some (content n)
  pub write_ok : (t : T) (buf : Bytes) → (io.write true t buf).0 ≡ wrote (length buf)

take-suc : (n : ℕ) (xs : List ℕ) → n < length xs → take (suc n) xs ≡ take n xs ++ get_or xs n 0 ∷ []
take-suc n [] h = absurd (omega arith)
take-suc zero (x ∷ xs) h = refl
take-suc (suc n) (x ∷ xs) h = ap (λ l. x ∷ l) (take-suc n xs (omega arith))

module _ {T : Type 0} (io : TableIo T) (r : Reliable io) where
  -- The transport after the tables of these descriptors went out, one after the other.
  abbrev pub send_all : List ℕ → T → T
  send_all [] t = t
  send_all (n ∷ ns) t = send_all ns (io.write true t (r.content n)).1

  send_all-append : (ns ms : List ℕ) (t : T) → send_all (ns ++ ms) t ≡ send_all ms (send_all ns t)
  send_all-append [] ms t = refl
  send_all-append (n ∷ ns) ms t = send_all-append ns ms (io.write true t (r.content n)).1

  vip_transfer_send_raw_lem :
      (d : VipTransferData) (t : T) (n : ℕ)
      → vip_transfer_send_raw io d t n
        ≡ (true, record d { sending_table = false }, (io.write true t (r.content n)).1)
  unfolding vip_transfer_send_raw
  vip_transfer_send_raw_lem d t n = ground (
    arith,
    r.stat_ok n,
    r.malloc_ok (length (r.content n)),
    r.read_ok n,
    r.write_ok t (r.content n),
  )

  -- What is sent before the `k + 1` first frames.
  abbrev pub due : VipTransferData → ℕ → List ℕ
  due d k = d.signed_table_fd ∷ take (needed k) d.chained_fds

  record Progress (d : VipTransferData) (t : T) (k : ℕ) (e : VipTransferData) (u : T) : Type 0 where
    at : IsAt d.chained_num k e
    fds : e.chained_fds ≡ d.chained_fds
    wire : u ≡ send_all (due d k) t

  -- one call that goes well
  record GoesWell (d : VipTransferData) (u : T) (out : Bool × VipTransferData × T) : Type 0 where
    ok : out.0 ≡ true
    fds : out.1.chained_fds ≡ d.chained_fds
    wire : out.2 ≡ u

  first_call :
      (d : VipTransferData) (t : T)
      → d.state ≡ vip_init
      → GoesWell d (send_all (d.signed_table_fd ∷ []) t) (vip_transfer_handle_tables io d t)
  unfolding vip_transfer_handle_tables send_due_table
  first_call d t s = ground (arith, vip_transfer_send_raw_lem d t d.signed_table_fd)

  next_table_call :
      (d : VipTransferData) (t : T)
      → d.state ≡ vip_send_next_table
      → d.chained_cur < d.chained_num
      → GoesWell d
          (send_all (get_or d.chained_fds d.chained_cur 0 ∷ []) t)
          (vip_transfer_handle_tables io d t)
  unfolding vip_transfer_handle_tables send_due_table
  next_table_call d t s h =
      ground (arith, vip_transfer_send_raw_lem d t (get_or d.chained_fds d.chained_cur 0))

  data_call :
      (d : VipTransferData) (t : T)
      → d.state ≡ vip_send_data
      → GoesWell d t (vip_transfer_handle_tables io d t)
  unfolding vip_transfer_handle_tables send_due_table
  data_call d t s = ground arith

  -- A table is due exactly after the last frame of the one before.
  needed_next :
      (num k : ℕ) (d : VipTransferData)
      → IsAt num k d
      → d.frames_sent ≡ d.frames_left
      → needed (suc k) ≡ suc (needed k)
  unfolding needed
  needed_next num k d a h = ground arith

  needed_same :
      (num k : ℕ) (d : VipTransferData)
      → IsAt num k d
      → d.frames_sent ≢ d.frames_left
      → needed (suc k) ≡ needed k
  unfolding needed
  needed_same num k d a h = ground arith

  due-suc :
      (d : VipTransferData) (k : ℕ) (t : T)
      → needed k < length d.chained_fds
      → needed (suc k) ≡ suc (needed k)
      → send_all (get_or d.chained_fds (needed k) 0 ∷ []) (send_all (due d k) t)
        ≡ send_all (due d (suc k)) t
  due-suc d k t h e =
      let u = (io.write true t (r.content d.signed_table_fd)).1 in
      sym
        (send_all-append (take (needed k) d.chained_fds) (get_or d.chained_fds (needed k) 0 ∷ []) u)
      ∙ ap (λ l. send_all l u)
          (sym (ap (λ n. take n d.chained_fds) e ∙ take-suc (needed k) d.chained_fds h))

  Progress-suc :
      (d : VipTransferData) (t : T) (k : ℕ) (e : VipTransferData) (u : T)
      → d.chained_num ≤ 32
      → length d.chained_fds ≡ d.chained_num
      → needed (suc k) ≤ d.chained_num
      → Progress d t k e u
      → let (ok, e', u') = vip_transfer_handle_tables io e u in
        (ok ≡ true) × Progress d t (suc k) e' u'
  Progress-suc d t k e u small full enough p = elim (Bool-cases (e.frames_sent == e.frames_left)) [
    | inl c ↦
        let last : e.frames_sent ≡ e.frames_left = (==_iff _ _).0 c in
        let more = needed_next d.chained_num k e p.at last in
        let g =
          next_table_call e u (p.at.state_is ∙ (rw c)) (omega (arith, p.at.cur_is, p.at.num_is)) in
        (
          g.ok,
          record {
            at = next_frame io d.chained_num k e u small p.at g.ok;
            fds = g.fds ∙ p.fds;
            wire =
                g.wire
                ∙ (λ i. send_all (get_or (p.fds i) (p.at.cur_is i) 0 ∷ []) (p.wire i))
                ∙ due-suc d k t (omega arith) more;
          },
        )
    | inr c ↦
        let same =
          needed_same d.chained_num k e p.at
            (λ (h : e.frames_sent ≡ e.frames_left). cc ((==_iff _ _).1 h)) in
        let g = data_call e u (p.at.state_is ∙ (rw c)) in
        (
          g.ok,
          record {
            at = next_frame io d.chained_num k e u small p.at g.ok;
            fds = g.fds ∙ p.fds;
            wire =
                g.wire
                ∙ p.wire
                ∙ ap (λ n. send_all (d.signed_table_fd ∷ take n d.chained_fds) t) (sym same);
          },
        )
  ]

  kept_frame-true :
      (out : Bool × VipTransferData × T) → out.0 ≡ true → kept_frame io out ≡ some (out.1, out.2)
  kept_frame-true (true, e, u) h = refl
  kept_frame-true (false, e, u) h = cc

  progress :
      (k : ℕ) (d : VipTransferData) (t : T)
      → d.state ≡ vip_init
      → d.chained_cur ≡ 0
      → d.chained_num ≤ 32
      → length d.chained_fds ≡ d.chained_num
      → needed (suc k) ≤ d.chained_num
      → (e : VipTransferData) × (u : T) × (run_frames io (suc k) d t ≡ some (e, u))
        × Progress d t (suc k) e u
  unfolding run_frames needed
  progress zero d t s c small full enough =
      let g = first_call d t s in
      let out = vip_transfer_handle_tables io d t in
      (
        out.1,
        out.2,
        kept_frame-true out g.ok,
        record { at = first_frame io d t s c g.ok; fds = g.fds; wire = g.wire },
      )
  progress (suc k) d t s c small full enough =
      let (e, u, ran, p) = progress k d t s c small full (omega arith) in
      let (ok, q) = Progress-suc d t (suc k) e u small full enough p in
      let out = vip_transfer_handle_tables io e u in
      (out.1, out.2, ap (one_more io) ran ∙ kept_frame-true out ok, q)

  -- Every call succeeds while chained tables are left, and the transport has then got the signed
  -- table and the chained tables that were due, in their order, each once.
  pub run_frames_reliable :
      (k : ℕ) (d : VipTransferData) (t : T)
      → d.state ≡ vip_init
      → d.chained_cur ≡ 0
      → d.chained_num ≤ 32
      → length d.chained_fds ≡ d.chained_num
      → needed (suc k) ≤ d.chained_num
      → (e : VipTransferData) × (run_frames io (suc k) d t ≡ some (e, send_all (due d (suc k)) t))
        × IsAt d.chained_num (suc k) e
  run_frames_reliable k d t s c small full enough =
      let (e, u, ran, p) = progress k d t s c small full enough in
      (e, ran ∙ ap (λ w. some (e, w)) p.wire, p.at)
