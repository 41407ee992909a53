-- ===== src/Vip/Generator/Payloads.antt =====
-- Step 2 of `create_chained_tables`: the digests of each chained table, and their hash contexts.
use qdl.Base.{
  ℕ, zero, suc, ◌+◌, ◌-◌, ◌*◌, ◌/◌, ◌≤◌, ◌<◌, ◌≡◌, ◌≢◌, refl, ap, sym, subst, ◌∙◌, Bool, true,
  false, some, List, [], ◌∷◌, ◌++◌, Bytes, length, take, drop, min, set, length-set,
  get_or-set_self, get_or-set_ne, Bool-cases, inl, inr, ◌==◌, if◌then◌else◌, arith, ==_iff,
}
use native.Mathlib.Decide.{dec_lt}
use qdl.Vip.Generator.{
  Sha256, digests_to_sign, chained_table, Disk, table_size, pad_last, write_one, ctx_at, store,
  write_chained,
}
use qdl.Vip.Generator.Ends.{
  Writes, Writes-trans, Writes-refl, Ends, Ends-and_then, Ends-mono, write_output_file-Ends, slice,
  Copied, write_digests_to_table-Ends,
}
use qdl.Vip.Generator.Chain.{payload, not_same}

table_size-min : (r : ℕ) → table_size r ≡ min 255 r
table_size-min r = ground arith

positive : {r : ℕ} → (r == 0) ≡ false → 0 < r
positive h = ground arith

-- What step 2 writes with `n` digests left, from digest number `at` on.
abbrev round_piece : Bytes → ℕ → ℕ → Bytes
round_piece table n at =
    let digests = take (table_size n * 32) (drop (32 * at) table) in
    if n - table_size n == 0 then digests ++ 0 ∷ [] else digests

module _ (sha : Sha256) (fails : ℕ → Bool) (total : ℕ) where
  open sha use {Ctx, sha256_init, update, final, update-append}

  -- Table `i` and its context are done; all else is as before.
  record Fills (i : ℕ) (ctxs : List Ctx) (d : Disk) (out : List Ctx) (e : Disk) : Type 0 where
    file : Writes (chained_table i) (payload total d.digest_table i) d e
    hash : ctx_at fails sha out i ≡ update sha256_init (payload total d.digest_table i)
    rest : (j : ℕ) → i ≢ j → ctx_at fails sha out j ≡ ctx_at fails sha ctxs j
    room : length out ≡ length ctxs

  -- Tables `i` to `n - 1` are done.
  pub record FillsAll (i n : ℕ) (ctxs : List Ctx) (d : Disk) (out : List Ctx) (e : Disk)
      : Type 0 where
    pub table : e.digest_table ≡ d.digest_table
    pub signed : e.to_sign ≡ d.to_sign
    pub files : (j : ℕ) → i ≤ j → j < n → e.chained j ≡ payload total d.digest_table j
    pub hashes :
        (j : ℕ)
        → i ≤ j
        → j < n
        → ctx_at fails sha out j ≡ update sha256_init (payload total d.digest_table j)
    pub old_files : (j : ℕ) → j < i → e.chained j ≡ d.chained j
    pub old_hashes : (j : ℕ) → j < i → ctx_at fails sha out j ≡ ctx_at fails sha ctxs j

  pub none_left : (i n : ℕ) (ctxs : List Ctx) (d : Disk) → n ≤ i → FillsAll i n ctxs d ctxs d
  none_left i n ctxs d h = record {
    table = refl;
    signed = refl;
    files = λ j a b. absurd (omega arith);
    hashes = λ j a b. absurd (omega arith);
    old_files = λ j a. refl;
    old_hashes = λ j a. refl;
  }

  one_filled :
      (i n : ℕ) (ctxs ctxs' out : List Ctx) (d d' e : Disk)
      → Fills i ctxs d ctxs' d'
      → FillsAll (i + 1) n ctxs' d' out e
      → FillsAll i n ctxs d out e
  one_filled i n ctxs ctxs' out d d' e f a = record {
    table = a.table ∙ f.file.table;
    signed = a.signed ∙ f.file.others digests_to_sign refl;
    files = λ j lo hi. elim (dec_lt i j) [
      | yes q ↦ a.files j (omega arith) hi ∙ (λ k. payload total (f.file.table k) j)
      | no q ↦
          let s : j ≡ i = omega arith in
          a.old_files j (omega arith)
          ∙ ap d'.chained s
          ∙ f.file.here
          ∙ ap (payload total d.digest_table) (sym s)
    ];
    hashes = λ j lo hi. elim (dec_lt i j) [
      | yes q ↦
          a.hashes j (omega arith) hi ∙ (λ k. update sha256_init (payload total (f.file.table k) j))
      | no q ↦
          let s : j ≡ i = omega arith in
          a.old_hashes j (omega arith)
          ∙ ap (ctx_at fails sha ctxs') s
          ∙ f.hash
          ∙ ap (λ k. update sha256_init (payload total d.digest_table k)) (sym s)
    ];
    old_files = λ j lt.
        a.old_files j (omega arith) ∙ f.file.others (chained_table j) (not_same i j (omega arith));
    old_hashes = λ j lt. a.old_hashes j (omega arith) ∙ f.rest j (omega arith);
  }

  record Pads (i : ℕ) (new : Bytes) (ctxs : List Ctx) (d : Disk) (out : List Ctx) (e : Disk)
      : Type 0 where
    file : Writes (chained_table i) new d e
    hash : ctx_at fails sha out i ≡ update sha256_init new
    rest : (j : ℕ) → i ≢ j → ctx_at fails sha out j ≡ ctx_at fails sha ctxs j
    room : length out ≡ length ctxs

  pad_last-Ends :
      (b : Bool) (i : ℕ) (ctxs : List Ctx) (d : Disk) (piece : Bytes)
      → ctx_at fails sha ctxs i ≡ update sha256_init piece
      → d.chained i ≡ piece
      → i < length ctxs
      → Ends fails
          (Pads i (if b then piece ++ 0 ∷ [] else piece) ctxs d)
          (pad_last fails sha b i ctxs d)
  unfolding pad_last
  pad_last-Ends false i ctxs d piece c f h = record {
    file = subst (λ t. Writes (chained_table i) t d d) f (Writes-refl d (chained_table i));
    hash = c;
    rest = λ j n. refl;
    room = refl;
  }
  pad_last-Ends true i ctxs d piece c f h =
      let new = update (ctx_at fails sha ctxs i) (0 ∷ []) in
      Ends-and_then fails (λ _ e. Writes (chained_table i) (d.chained i ++ 0 ∷ []) d e) _ _ _
        (write_output_file-Ends fails sha (chained_table i) true (0 ∷ []) d)
        (λ _ e w. record {
          file = subst (λ t. Writes (chained_table i) (t ++ 0 ∷ []) d e) f w;
          hash =
              get_or-set_self ctxs i new sha256_init h
              ∙ ap (λ k. update k (0 ∷ [])) c
              ∙ update-append sha256_init piece (0 ∷ []);
          rest = λ j n. get_or-set_ne ctxs i j new sha256_init n;
          room = length-set ctxs i new;
        })

  -- One round fills one table, while digests are left.
  write_one-Ends :
      (r i : ℕ) (ctxs : List Ctx) (d : Disk)
      → 0 < r
      → r ≡ total - 53 - 255 * i
      → i < length ctxs
      → 32 * total ≤ length d.digest_table
      → Ends fails (Fills i ctxs d) (write_one fails sha total r i ctxs d)
  unfolding write_one payload
  write_one-Ends r i ctxs d p e n s =
      let size = table_size r in
      let piece = slice fails sha (size * 32) (32 * (total - r)) d in
      Ends-and_then fails (Copied fails sha (chained_table i) [] piece (some sha256_init) d) _ _ _
        (write_digests_to_table-Ends fails sha (chained_table i) (total - r) size true d
          (omega (arith, s, table_size-min r)))
        (λ out d' (c, w).
          subst
            (λ o.
              Ends fails (Fills i ctxs d)
                (pad_last fails sha (r - size == 0) i (store fails sha ctxs i o) d'))
            (sym c) (padded d' w))
    where
      padded :
          (d' : Disk)
          → Writes (chained_table i) (slice fails sha (table_size r * 32) (32 * (total - r)) d) d d'
          → Ends fails (Fills i ctxs d) (
              pad_last fails sha
                (r - table_size r == 0)
                i
                (set ctxs i
                  (update sha256_init (slice fails sha (table_size r * 32) (32 * (total - r)) d)))
                d')
      padded d' w =
          let piece = slice fails sha (table_size r * 32) (32 * (total - r)) d in
          let stored = set ctxs i (update sha256_init piece) in
          let at : total - r ≡ 53 + 255 * i = omega arith in
          let same : round_piece d.digest_table r (total - r) ≡ payload total d.digest_table i =
            λ k. round_piece d.digest_table (e k) (at k) in
          Ends-mono fails (Pads i (round_piece d.digest_table r (total - r)) stored d') _ _
            (pad_last-Ends (r - table_size r == 0) i stored d' piece
              (get_or-set_self ctxs i (update sha256_init piece) sha256_init n) w.here
              (omega (arith, length-set ctxs i (update sha256_init piece))))
            (λ out f q. record {
              file = Writes-trans w (subst (λ t. Writes (chained_table i) t d' f) same q.file);
              hash = q.hash ∙ ap (update sha256_init) same;
              rest = λ j m.
                  q.rest j m ∙ get_or-set_ne ctxs i j (update sha256_init piece) sha256_init m;
              room = q.room ∙ length-set ctxs i (update sha256_init piece);
            })

  pub write_chained-Ends :
      (rounds r i : ℕ) (ctxs : List Ctx) (d : Disk)
      → r ≤ 255 * rounds
      → r ≡ total - 53 - 255 * i
      → i + (r + 254) / 255 ≡ length ctxs
      → 32 * total ≤ length d.digest_table
      → Ends fails
          (FillsAll i (length ctxs) ctxs d)
          (write_chained fails sha rounds total r i ctxs d)
  unfolding write_chained
  write_chained-Ends zero r i ctxs d f e n s =
      rw ((==_iff r 0).1 (omega arith)) (none_left i _ ctxs d (omega arith))
  write_chained-Ends (suc rounds) r i ctxs d f e n s = elim (Bool-cases (r == 0)) [
    | inl z ↦ rw z (none_left i _ ctxs d (ground arith))
    | inr z ↦ rw z (
        Ends-and_then fails (Fills i ctxs d) _ _ _
          (write_one-Ends r i ctxs d (ground arith) e (ground arith) s)
          (λ ctxs' d' g.
            Ends-mono fails (FillsAll (i + 1) (length ctxs') ctxs' d') _ _
              (write_chained-Ends rounds (r - table_size r) (i + 1) ctxs' d'
                (omega (arith, table_size-min r)) (omega (arith, table_size-min r))
                (omega (arith, table_size-min r, g.room, positive z)) (rw g.file.table s))
              (λ out f a.
                one_filled i (length ctxs) ctxs ctxs' out d d' f g
                  (subst (λ n. FillsAll (i + 1) n ctxs' d' out f) g.room a))))
  ]
