-- ===== src/Vip/Transfer/Open.antt =====
-- What `vip_transfer_init` opens, and what it closes when it fails.
use qdl.Base.{
  ℕ, zero, suc, ◌+◌, ◌≤◌, ◌<◌, ◌≡◌, ◌≢◌, refl, ap, sym, subst, ◌∙◌, Bool, true, false, some, List,
  [], ◌∷◌, ◌++◌, length, take_all, length-append, arith, ◌⊎◌, inl, inr,
}
use qdl.Vip.Transfer.{
  vip_init, VipTransferData, TableFile, digests_to_sign_mbn, chained_table, Opened, fd, enoent,
  open_error, open_chained, open_more, vip_transfer_deinit, init_end, init_from, vip_transfer_init,
  TableIo, run_frames, add_size,
}
use qdl.Vip.Transfer.Frames.{needed, IsAt}
use qdl.Vip.Transfer.Tables.{Reliable, send_all, due, run_frames_reliable}

module _ (open_file : TableFile → Opened) where
  -- The descriptors are those of the chained tables from number `i` on.
  abbrev pub Opens : ℕ → List ℕ → Type 0
  Opens i [] = Unit {0}
  Opens i (n ∷ ns) = (open_file (chained_table i) ≡ fd n) × Opens (i + 1) ns

  Opens-append :
      (ns : List ℕ) (i n : ℕ)
      → Opens i ns
      → open_file (chained_table (i + length ns)) ≡ fd n
      → Opens i (ns ++ n ∷ [])
  Opens-append [] i n h e =
      ((ap (λ k. open_file (chained_table k)) {y = i + 0} (omega arith)) ∙ e, tt)
  Opens-append (m ∷ ns) i n (f, h) e = (
    f,
    Opens-append ns (i + 1) n h
        (ap (λ k. open_file (chained_table k)) {y = i + length (m ∷ ns)} (omega arith) ∙ e),
  )

  -- The chained tables are open, from number 0 up to their number.
  pub record IsOpen (d : VipTransferData) : Type 0 where
    pub num_is : d.chained_num ≡ length d.chained_fds
    pub small : d.chained_num ≤ 32
    pub files : Opens 0 d.chained_fds

  -- Why the loop stopped.
  abbrev pub Stopped : Bool → VipTransferData → Type 0
  Stopped true d = (d.chained_num ≡ 32) ⊎ (open_file (chained_table d.chained_num) ≡ enoent)
  Stopped false d = open_file (chained_table d.chained_num) ≡ open_error

  abbrev Good : VipTransferData → Bool × VipTransferData → Type 0
  Good d (ok, e) = IsOpen e × Stopped ok e × (e.signed_table_fd ≡ d.signed_table_fd)

  open_more-IsOpen :
      (next : VipTransferData → Bool × VipTransferData) (o : Opened) (d : VipTransferData)
      → open_file (chained_table d.chained_num) ≡ o
      → d.chained_num < 32
      → IsOpen d
      → ((e : VipTransferData) → IsOpen e → e.chained_num ≡ suc d.chained_num → Good e (next e))
      → Good d (open_more next o d)
  unfolding open_more
  open_more-IsOpen next (fd n) d f s h keep =
      keep
        (record d { chained_fds = d.chained_fds ++ n ∷ []; chained_num = add_size d.chained_num 1 })
        (record {
          num_is = omega (arith, h.num_is, length-append {0} d.chained_fds (n ∷ []));
          small = omega arith;
          files = Opens-append d.chained_fds 0 n h.files (
              ap (λ k. open_file (chained_table k)) {x = 0 + length d.chained_fds}
                {y = d.chained_num} (omega (arith, h.num_is))
              ∙ f);
        })
        (omega arith)
  open_more-IsOpen next enoent d f s h keep = (h, inr f, refl)
  open_more-IsOpen next open_error d f s h keep = (h, f, refl)

  open_chained-IsOpen :
      (rounds i : ℕ) (d : VipTransferData)
      → IsOpen d
      → d.chained_num ≡ i
      → i + rounds ≡ 32
      → Good d (open_chained open_file rounds i d)
  unfolding open_chained
  open_chained-IsOpen zero i d h e s = (h, inl (omega arith), refl)
  open_chained-IsOpen (suc rounds) i d h e s =
      open_more-IsOpen (open_chained open_file rounds (i + 1)) (open_file (chained_table i)) d
        (ap (λ k. open_file (chained_table k)) e) (omega arith) h
        (λ c g n. open_chained-IsOpen rounds (i + 1) c g (omega arith) (omega arith))

  -- What `vip_transfer_init` leaves behind: all that it needs is open, or all is closed.
  pub record Initialised (d : VipTransferData) : Type 0 where
    pub opened : IsOpen d
    pub signed : open_file digests_to_sign_mbn ≡ fd d.signed_table_fd
    pub at_start : d.state ≡ vip_init
    pub cur_zero : d.chained_cur ≡ 0
    pub complete : Stopped true d

  abbrev pub Outcome : Bool × VipTransferData × List ℕ → Type 0
  Outcome (true, d, closed) = Initialised d × (closed ≡ [])
  Outcome (false, d, closed) =
      (open_file digests_to_sign_mbn ≡ fd d.signed_table_fd)
        × IsOpen d
        × Stopped false d
        × (closed ≡ d.signed_table_fd ∷ d.chained_fds)
      ⊎ ((n : ℕ) → open_file digests_to_sign_mbn ≢ fd n) × (closed ≡ [])

  init_end-Outcome :
      (d : VipTransferData) (r : Bool × VipTransferData)
      → open_file digests_to_sign_mbn ≡ fd d.signed_table_fd
      → Good d r
      → Outcome (init_end r)
  unfolding init_end vip_transfer_deinit
  init_end-Outcome d (true, e) f (h, s, same) = (
    record {
      opened = record { num_is = h.num_is; small = h.small; files = h.files };
      signed = f ∙ ap fd (sym same);
      at_start = refl;
      cur_zero = refl;
      complete = s;
    },
    refl,
  )
  init_end-Outcome d (false, e) f (h, s, same) = inl (
    f ∙ ap fd (sym same),
    h,
    s,
    ap (λ l. e.signed_table_fd ∷ l)
        (take_all e.chained_num e.chained_fds (omega (arith, h.num_is))),
  )

  init_from-Outcome :
      (o : Opened) (d : VipTransferData)
      → open_file digests_to_sign_mbn ≡ o
      → Outcome (init_from open_file o d)
  unfolding init_from
  init_from-Outcome (fd n) d f =
      init_end-Outcome (record d { signed_table_fd = n; chained_fds = []; chained_num = 0 }) _ f
        (open_chained-IsOpen 32 0
          (record d { signed_table_fd = n; chained_fds = []; chained_num = 0 })
          (record { num_is = refl; small = omega arith; files = tt }) refl refl)
  init_from-Outcome enoent d f = inr (λ n g. cc, refl)
  init_from-Outcome open_error d f = inr (λ n g. cc, refl)

  pub vip_transfer_init-Outcome : (d : VipTransferData) → Outcome (vip_transfer_init open_file d)
  unfolding vip_transfer_init
  vip_transfer_init-Outcome d = init_from-Outcome (open_file digests_to_sign_mbn) d refl

  -- From `vip_transfer_init` on: the run of frames with enough tables.
  pub transfer_lem :
      {T : Type 0} (io : TableIo T) (r : Reliable io) (k : ℕ) (d e : VipTransferData) (t : T)
      → vip_transfer_init open_file d ≡ (true, e, [])
      → needed (suc k) ≤ e.chained_num
      → (e' : VipTransferData) × (run_frames io (suc k) e t
          ≡ some (e', send_all io r (due io r e (suc k)) t))
        × IsAt e.chained_num (suc k) e'
  transfer_lem io r k d e t ran enough =
      let (i, _) = subst Outcome ran (vip_transfer_init-Outcome d) in
      run_frames_reliable io r k e t i.at_start i.cur_zero i.opened.small (sym i.opened.num_is)
        enough
