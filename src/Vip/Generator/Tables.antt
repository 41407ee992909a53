-- ===== src/Vip/Generator/Tables.antt =====
-- The files after `create_chained_tables`.
use qdl.Base.{
  ℕ, zero, suc, ◌+◌, ◌-◌, ◌*◌, ◌/◌, ◌≤◌, ◌<◌, ◌≡◌, refl, ap, sym, subst, ◌∙◌, Bool, false, Option,
  none, List, [], ◌++◌, Bytes, length, take, min, replicate, length-replicate, append-nil,
  Bool-cases, inl, inr, ltb, ltb→lt, arith,
}
use native.Mathlib.Decide.{dec_lt}
use qdl.Vip.Generator.{
  Sha256, digests_to_sign, Disk, and_then, write_digests_to_table, chained_num, write_chained,
  append_hashes, create_chained_tables,
}
use qdl.Vip.Generator.Ends.{
  Ends, Ends-and_then, Ends-mono, Ends-attempt, slice, Copied, write_digests_to_table-Ends,
}
use qdl.Vip.Generator.Chain.{payload, sealed, digest, Linked, append_hashes-Ends}
use qdl.Vip.Generator.Payloads.{FillsAll, none_left, write_chained-Ends}

module _ (sha : Sha256) (fails : ℕ → Bool) (total : ℕ) where
  open sha use {Ctx, sha256_init}

  -- The signed table, before its hash.
  abbrev pub signed_part : Bytes → Bytes
  signed_part table = take (min total 53 * 32) table

  -- The hash at the end of the signed table.
  abbrev pub signed_link : ℕ → Bytes → Bytes
  signed_link zero table = []
  signed_link (suc n) table = digest sha (sealed sha total table n 0)

  -- With `n` chained tables: the digests and a hash in each file.
  pub record Tables (n : ℕ) (d e : Disk) : Type 0 where
    pub table : e.digest_table ≡ d.digest_table
    pub signed : e.to_sign ≡ signed_part d.digest_table ++ signed_link n d.digest_table
    pub chained : (j : ℕ) → j < n → e.chained j ≡ sealed sha total d.digest_table (n - 1 - j) j

  -- Step 3 on what step 2 left.
  append_hashes-Tables :
      (n : ℕ) (ctxs out : List Ctx) (d d' : Disk)
      → d'.to_sign ≡ signed_part d.digest_table
      → d'.digest_table ≡ d.digest_table
      → ((e : Disk)
          → FillsAll sha fails total 0 n ctxs d' out e
          → Ends fails (λ _ f. Tables n d f) (append_hashes fails sha n none out e))
  unfolding append_hashes sealed
  append_hashes-Tables zero ctxs out d d' s t e a = record {
    table = a.table ∙ t;
    signed = a.signed ∙ s ∙ sym (append-nil _);
    chained = λ j lt. absurd (omega arith);
  }
  append_hashes-Tables (suc n) ctxs out d d' s t e a =
      Ends-mono fails (λ _ f. Linked sha fails total 0 n e f) _ _
        (append_hashes-Ends sha fails total n 0 none out e
          (λ j le.
            a.hashes j (omega arith) (omega arith)
            ∙ (λ k. sha.update sha256_init (payload total (sym a.table k) j)))
          (λ j lt. a.files j (omega arith) (omega arith) ∙ (λ k. payload total (sym a.table k) j))
          refl)
        (λ _ f l. record {
          table = l.table ∙ a.table ∙ t;
          signed =
              l.signed
              ∙ (λ k. (a.signed ∙ s) k ++ digest sha (sealed sha total ((a.table ∙ t) k) (0 + n) 0))
              ∙ ap
                  (λ m.
                    signed_part d.digest_table ++ digest sha (sealed sha total d.digest_table m 0))
                  {y = n} (omega arith);
          chained = λ j lt. elim (dec_lt j n) [
            | yes q ↦
                l.below j q
                ∙ (λ k. sealed sha total ((a.table ∙ t) k) (0 + (n - j)) j)
                ∙ ap (λ m. sealed sha total d.digest_table m j) {y = suc n - 1 - j} (omega arith)
            | no q ↦
                let last : j ≡ n = omega arith in
                l.above j (omega arith)
                ∙ a.files j (omega arith) lt
                ∙ (λ k. payload total (t k) j)
                ∙ ap (λ m. sealed sha total d.digest_table m j) {x = 0} {y = suc n - 1 - j}
                    (omega arith)
          ];
        })

  abbrev Signs : Disk → Option Ctx → Disk → Type 0
  Signs d _ e = (e.digest_table ≡ d.digest_table) × (e.to_sign ≡ signed_part d.digest_table)

  -- Step 1.
  sign_lem :
      (d d' : Disk)
      → d'.digest_table ≡ d.digest_table
      → 32 * total ≤ length d.digest_table
      → Ends fails
          (Signs d)
          (write_digests_to_table fails sha digests_to_sign 0 (min total 53) false d')
  sign_lem d d' t h =
      Ends-mono fails
        (Copied fails sha digests_to_sign [] (slice fails sha (min total 53 * 32) (32 * 0) d') none
          d')
        _ _
        (write_digests_to_table-Ends fails sha digests_to_sign 0 (min total 53) false d'
          (rw t (omega (arith, h))))
        (λ _ e (_, w). (w.table ∙ t, w.here ∙ ap (take (min total 53 * 32)) t))

  abbrev Allocated : List Ctx → Disk → List Ctx → Disk → Type 0
  Allocated fresh d c e = (c ≡ fresh) × (e.digest_table ≡ d.digest_table)

  -- The steps with chained tables, behind the `calloc`.
  steps_lem :
      (n : ℕ) (d e : Disk) (fresh : List Ctx)
      → 53 < total
      → n ≡ (total - 53 + 255 - 1) / 255
      → length fresh ≡ n
      → e.digest_table ≡ d.digest_table
      → 32 * total ≤ length d.digest_table
      → Ends fails
          (λ _ f. Tables n d f)
          (and_then
            (write_digests_to_table fails sha digests_to_sign 0 (min total 53) false e)
            (λ _ e'.
              and_then
                (write_chained fails sha (n + 1) total (total - 53) 0 fresh e')
                (append_hashes fails sha n none)))
  steps_lem n d e fresh many count room t h =
      Ends-and_then fails (Signs d) _ _ _ (sign_lem d e t h) (λ _ d' (t', s).
        Ends-and_then fails (FillsAll sha fails total 0 (length fresh) fresh d') _ _ _
          (write_chained-Ends sha fails total (n + 1) (total - 53) 0 fresh d' (omega arith)
            (omega arith) (omega arith) (rw t' h))
          (λ out f a.
            append_hashes-Tables n fresh out d d' s t' f
              (subst (λ m. FillsAll sha fails total 0 m fresh d' out f) room a)))

  -- `create_chained_tables` fails only where a library call fails. Else the files hold the
  -- digests, each table with the hash of the next behind them.
  pub create_chained_tables-Tables :
      (zeroed : Ctx) (d : Disk)
      → 32 * total ≤ length d.digest_table
      → Ends fails
          (λ _ e. Tables (chained_num total) d e)
          (create_chained_tables fails sha zeroed total d)
  unfolding create_chained_tables chained_num
  create_chained_tables-Tables zeroed d h = elim (Bool-cases (ltb 53 total)) [
    | inl b ↦
        let n = (total - 53 + 255 - 1) / 255 in
        let fresh = replicate n zeroed in
        rw b (
          Ends-and_then fails (Allocated fresh d) _ _ _
            (Ends-attempt fails (Allocated fresh d) d _ (refl, refl))
            (λ c e (eq, t).
              steps_lem n d e c (ltb→lt _ _ b) refl (ap length eq ∙ length-replicate n zeroed) t h))
    | inr b ↦ rw b (
        Ends-and_then fails (Signs d) _ _ _ (sign_lem d d refl h) (λ _ d' (t, s).
          append_hashes-Tables 0 [] [] d d' s t d'
            (none_left sha fails total 0 0 [] d' (omega arith))))
  ]
