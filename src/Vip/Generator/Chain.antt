-- ===== src/Vip/Generator/Chain.antt =====
-- What `create_chained_tables` leaves in the files: every table ends in the hash of the next.
use qdl.Base.{
  ℕ, zero, suc, ◌+◌, ◌-◌, ◌*◌, ◌≤◌, ◌<◌, ◌≡◌, ◌≢◌, refl, ap, sym, ◌∙◌, Bool, true, false, Option,
  none, some, List, [], ◌∷◌, ◌++◌, Bytes, take, drop, ◌==◌, if◌then◌else◌, arith,
}
use native.Mathlib.Decide.{dec_lt}
use qdl.Vip.Generator.{
  Sha256, digests_to_sign, chained_table, Disk, and_then, write_output_file, table_size, ctx_at,
  with_next, append_hashes,
}
use qdl.Vip.Generator.Ends.{Writes, Ends, Ends-and_then, Ends-mono, write_output_file-Ends}

pub not_same : (i j : ℕ) → i ≢ j → (i == j) ≡ false
not_same i j h = ground arith

-- The digests of chained table `i`, with the byte behind the last of them: what step 2 writes.
unfoldable pub payload : ℕ → Bytes → ℕ → Bytes
payload total table i =
    let remaining = total - 53 - 255 * i in
    let digests = take (table_size remaining * 32) (drop (32 * (53 + 255 * i)) table) in
    if remaining - table_size remaining == 0 then digests ++ 0 ∷ [] else digests

module _ (sha : Sha256) where
  open sha use {Ctx, sha256_init, update, final, update-append}

  abbrev pub digest : Bytes → Bytes
  digest b = final (update sha256_init b)

  -- The chained table `i`, when `m` tables come behind it.
  unfoldable pub sealed : ℕ → Bytes → ℕ → ℕ → Bytes
  sealed total table zero i = payload total table i
  sealed total table (suc m) i = payload total table i ++ digest (sealed total table m (i + 1))

  -- The hash that table `i` has to end in.
  abbrev pub link : ℕ → Bytes → ℕ → ℕ → Option Bytes
  link total table zero i = none
  link total table (suc m) i = some (digest (sealed total table m (i + 1)))

  module _ (fails : ℕ → Bool) (total : ℕ) where
    -- The contexts and the files of the tables below `n` hold what step 2 wrote.
    pub record Filled (n : ℕ) (ctxs : List Ctx) (d : Disk) : Type 0 where
      pub hashes :
          (j : ℕ)
          → j < n
          → ctx_at fails sha ctxs j ≡ update sha256_init (payload total d.digest_table j)
      pub files : (j : ℕ) → j < n → d.chained j ≡ payload total d.digest_table j

    -- Step 3, from table `i` down; `m` tables come behind it and are sealed.
    pub record Linked (m i : ℕ) (d e : Disk) : Type 0 where
      pub table : e.digest_table ≡ d.digest_table
      pub signed : e.to_sign ≡ d.to_sign ++ digest (sealed total d.digest_table (m + i) 0)
      pub below : (j : ℕ) → j < i → e.chained j ≡ sealed total d.digest_table (m + (i - j)) j
      pub above : (j : ℕ) → i ≤ j → e.chained j ≡ d.chained j

    final-link :
        (table : Bytes) (m i : ℕ)
        → final (
            with_next fails sha (update sha256_init (payload total table i)) (link total table m i))
          ≡ digest (sealed total table m i)
    unfolding sealed
    final-link table zero i = refl
    final-link table (suc m) i =
        ap final (
          update-append sha256_init (payload total table i) (digest (sealed total table m (i + 1))))

    with_next-final :
        (ctxs : List Ctx) (d : Disk) (m i : ℕ) (next : Option Bytes)
        → ctx_at fails sha ctxs i ≡ update sha256_init (payload total d.digest_table i)
        → next ≡ link total d.digest_table m i
        → final (with_next fails sha (ctx_at fails sha ctxs i) next)
          ≡ digest (sealed total d.digest_table m i)
    with_next-final ctxs d m i next c n =
        (λ k. final (with_next fails sha (c k) (n k))) ∙ final-link d.digest_table m i

    -- The hash of table 0 goes to the signed table, and the loop ends.
    last_hash :
        (m : ℕ) (hash : Bytes) (ctxs : List Ctx) (d : Disk)
        → hash ≡ digest (sealed total d.digest_table m 0)
        → Ends fails
            (λ _ e. Linked m 0 d e)
            (and_then
              (write_output_file fails sha digests_to_sign true hash d)
              (λ _. append_hashes fails sha 0 (some hash) ctxs))
    unfolding append_hashes
    last_hash m hash ctxs d h =
        Ends-and_then fails (λ _ e. Writes digests_to_sign (d.to_sign ++ hash) d e) _ _ _
          (write_output_file-Ends fails sha digests_to_sign true hash d)
          (λ _ e w. record {
            table = w.table;
            signed =
                w.here
                ∙ ap (λ t. d.to_sign ++ t)
                    (h
                      ∙ ap (λ n. digest (sealed total d.digest_table n 0)) {y = m + 0}
                          (omega arith));
            below = λ j lt. absurd (omega arith);
            above = λ j ge. w.others (chained_table j) refl;
          })

    one_more : (m i j : ℕ) → j ≡ i → suc m ≡ m + (suc i - j)
    one_more m i j e = omega arith

    -- One round in which the hash goes to a chained table.
    Linked-step :
        (m i : ℕ) (hash : Bytes) (d d' e : Disk)
        → hash ≡ digest (sealed total d.digest_table m (i + 1))
        → d.chained i ≡ payload total d.digest_table i
        → Writes (chained_table i) (d.chained i ++ hash) d d'
        → Linked (suc m) i d' e
        → Linked m (suc i) d e
    unfolding sealed
    Linked-step m i hash d d' e h p w l = record {
      table = l.table ∙ w.table;
      signed =
          l.signed
          ∙ (λ k.
              w.others digests_to_sign refl k ++ digest (sealed total (w.table k) (suc m + i) 0))
          ∙ ap (λ n. d.to_sign ++ digest (sealed total d.digest_table n 0)) {y = m + suc i}
              (omega arith);
      below = λ j lt. elim (dec_lt j i) [
        | yes q ↦
            l.below j q
            ∙ (λ k. sealed total (w.table k) (suc m + (i - j)) j)
            ∙ ap (λ n. sealed total d.digest_table n j) {y = m + (suc i - j)} (omega arith)
        | no q ↦
            let e_i : j ≡ i = omega arith in
            ap e.chained e_i
            ∙ l.above i (omega arith)
            ∙ w.here
            ∙ (λ k. p k ++ h k)
            ∙ (λ k. sealed total d.digest_table (one_more m i j e_i k) (sym e_i k))
      ];
      above =
          λ j ge. l.above j (omega arith) ∙ w.others (chained_table j) (not_same i j (omega arith));
    }

    pub append_hashes-Ends :
        (i m : ℕ) (next : Option Bytes) (ctxs : List Ctx) (d : Disk)
        → ((j : ℕ)
            → j ≤ i
            → ctx_at fails sha ctxs j ≡ update sha256_init (payload total d.digest_table j))
        → ((j : ℕ) → j < i → d.chained j ≡ payload total d.digest_table j)
        → next ≡ link total d.digest_table m i
        → Ends fails (λ _ e. Linked m i d e) (append_hashes fails sha (suc i) next ctxs d)
    unfolding append_hashes
    append_hashes-Ends zero m next ctxs d hs fs n =
        last_hash m _ ctxs d (with_next-final ctxs d m 0 next (hs 0 (omega arith)) n)
    append_hashes-Ends (suc i) m next ctxs d hs fs n =
        let hash = final (with_next fails sha (ctx_at fails sha ctxs (suc i)) next) in
        let h : hash ≡ digest (sealed total d.digest_table m (i + 1)) =
          with_next-final ctxs d m (suc i) next (hs (suc i) (omega arith)) n
          ∙ ap (λ k. digest (sealed total d.digest_table m k)) (omega arith) in
        Ends-and_then fails (λ _ e. Writes (chained_table i) (d.chained i ++ hash) d e) _ _ _
          (write_output_file-Ends fails sha (chained_table i) true hash d)
          (λ _ d' w.
            Ends-mono fails (λ _ e. Linked (suc m) i d' e) _ _
              (append_hashes-Ends i (suc m) (some hash) ctxs d'
                (λ j le.
                  hs j (omega arith) ∙ (λ k. update sha256_init (payload total (sym w.table k) j)))
                (λ j lt.
                  w.others (chained_table j) (not_same i j (omega arith))
                  ∙ fs j (omega arith)
                  ∙ (λ k. payload total (sym w.table k) j))
                (ap some (h ∙ (λ k. digest (sealed total (sym w.table k) m (i + 1))))))
              (λ _ e. Linked-step m i hash d d' e h (fs i (omega arith)) w))
