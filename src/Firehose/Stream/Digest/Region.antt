-- ===== src/Firehose/Stream/Digest/Region.antt =====
-- `firehose_region_local_digest` of src/firehose.c hashes what a program request would send.
use qdl.Base.{
  ℕ, zero, suc, ◌+◌, ◌-◌, ◌≤◌, ◌<◌, ◌≡◌, refl, sym, ap, subst, ◌∙◌, min, false, Option, none, some,
  [], ◌∷◌, ◌++◌, Bytes, length, take, drop, replicate, ltb, arith, length-append, Bool-cases, inl,
  inr, length-take,
}
use qdl.File.{QdlFile, rest, qdl_file_seek}
use qdl.File.Exact.{Reads, Reads-append, read_exact-Outcome, Outcome}
use qdl.Vip.Generator.{Sha256}
use qdl.Vip.Generator.Chain.{digest}
use qdl.Firehose.Stream.Image.{image, zero_pad-take}
use qdl.Firehose.Stream.Digest.{
  Hashing, update_some, hash_read, hash_rounds, pad_rounds, finish, pad_region,
  firehose_region_local_digest,
}

abbrev zeros : ℕ → Bytes
zeros n = replicate n 0

take_short : (m n : ℕ) (xs : Bytes) → length (take m xs) < m → m ≤ n → take m xs ≡ take n xs
take_short zero n xs h l = absurd (omega arith)
take_short (suc m) zero xs h l = absurd (omega arith)
take_short (suc m) (suc n) [] h l = refl
take_short (suc m) (suc n) (x ∷ xs) h l =
    ap (λ t. x ∷ t) (take_short m n xs (omega arith) (omega arith))

drop_short : (m n : ℕ) (xs : Bytes) → length (take m xs) < m → m ≤ n → drop m xs ≡ drop n xs
drop_short zero n xs h l = absurd (omega arith)
drop_short (suc m) zero xs h l = absurd (omega arith)
drop_short (suc m) (suc n) [] h l = refl
drop_short (suc m) (suc n) (x ∷ xs) h l = drop_short m n xs (omega arith) (omega arith)

replicate-append : (m n : ℕ) → zeros m ++ zeros n ≡ zeros (m + n)
replicate-append zero n = ap zeros (omega arith)
replicate-append (suc m) n =
    ap (λ t. 0 ∷ t) (replicate-append m n) ∙ ap zeros {x = suc (m + n)} (omega arith)

module _ (sha : Sha256) (max_payload_size region_bytes : ℕ) where
  open sha use {Ctx, sha256_init, update, final, update-append, update-nil}

  -- `hashed` bytes of a file are hashed.
  record Hashed (start : QdlFile) (hashed : ℕ) (ctx : Ctx) (file : QdlFile) : Type 0 where
    acc : Bytes
    ctx_lem : ctx ≡ update sha256_init acc
    reads_lem : Reads hashed start acc file
    length_lem : length acc ≡ hashed
    bound : hashed ≤ region_bytes

  -- All that the region has of a file is hashed.
  record HashedAll (start : QdlFile) (ctx : Ctx) (hashed : ℕ) (file : QdlFile) : Type 0 where
    all_lem : ctx ≡ update sha256_init (take region_bytes (rest start))
    count_lem : length (take region_bytes (rest start)) ≡ hashed
    left_lem : rest file ≡ drop region_bytes (rest start)
    kind_lem : file.file_type ≡ start.file_type

  abbrev OnHashing : QdlFile → Hashing sha max_payload_size region_bytes → Type 0
  OnHashing start none = Unit
  OnHashing start (some (none, file)) = Unit
  OnHashing start (some (some (ctx, hashed), file)) = HashedAll start ctx hashed file

  update_some-update :
      (ctx : Ctx) (bytes : Bytes)
      → update_some sha max_payload_size region_bytes ctx bytes ≡ update ctx bytes
  update_some-update ctx [] = sym (update-nil ctx)
  update_some-update ctx (b ∷ bytes) = refl

  whole_region :
      (start : QdlFile) (hashed : ℕ) (ctx : Ctx) (file : QdlFile)
      → Hashed start hashed ctx file
      → hashed ≡ region_bytes
      → HashedAll start ctx hashed file
  whole_region start hashed ctx file k e =
      let same = k.reads_lem.bytes_lem ∙ ap (λ m. take m (rest start)) e in
      record {
        all_lem = k.ctx_lem ∙ ap (update sha256_init) same;
        count_lem = ap length (sym same) ∙ k.length_lem;
        left_lem = k.reads_lem.rest_lem ∙ ap (λ m. drop m (rest start)) e;
        kind_lem = k.reads_lem.type_lem;
      }

  module _ (start : QdlFile) (next : ℕ → Ctx → QdlFile → Hashing sha max_payload_size region_bytes)
      (ih : (hashed : ℕ) (ctx : Ctx) (file : QdlFile)
        → Hashed start hashed ctx file
        → OnHashing start (next hashed ctx file))
      (hashed want : ℕ) (ctx : Ctx) (file : QdlFile) (k : Hashed start hashed ctx file)
      (room : hashed + want ≤ region_bytes) where
    hashed_more :
        (bytes : Bytes) (file' : QdlFile)
        → Reads want file bytes file'
        → (update_some sha max_payload_size region_bytes ctx bytes
            ≡ update sha256_init (k.acc ++ bytes))
          × (Reads (hashed + want) start (k.acc ++ bytes) file')
          × (length (k.acc ++ bytes) ≡ hashed + length bytes)
    hashed_more bytes file' r = (
      update_some-update ctx bytes
          ∙ ap (λ c. update c bytes) k.ctx_lem
          ∙ update-append sha256_init k.acc bytes,
      Reads-append hashed want start file file' k.acc bytes k.reads_lem r,
      omega (arith, length-append {0} k.acc bytes, k.length_lem),
    )

    hash_read-Hashing :
        (out : Option Bytes × QdlFile)
        → Outcome (Reads want file) out
        → OnHashing start (hash_read sha max_payload_size region_bytes next want hashed ctx out)
    unfolding hash_read
    hash_read-Hashing (none, file') r = tt
    hash_read-Hashing (some bytes, file') r =
        let (c, s, l) = hashed_more bytes file' r in
        elim (Bool-cases (ltb (length bytes) want)) [
          | inl e ↦ rw e (
              let short : length (take (hashed + want) (rest start)) < hashed + want =
                subst (λ t. length t < hashed + want) s.bytes_lem (ground arith) in
              let all =
                s.bytes_lem ∙ take_short (hashed + want) region_bytes (rest start) short room in
              record {
                all_lem = c ∙ ap (update sha256_init) all;
                count_lem = ap length (sym all) ∙ l;
                left_lem =
                    s.rest_lem ∙ drop_short (hashed + want) region_bytes (rest start) short room;
                kind_lem = s.type_lem;
              })
          | inr e ↦ rw e (
              let full : length bytes ≡ want = read_all bytes file' r e in
              ih (hashed + length bytes) _ file' (record {
                acc = k.acc ++ bytes;
                ctx_lem = c;
                reads_lem =
                    subst (λ m. Reads (hashed + m) start (k.acc ++ bytes) file') (sym full) s;
                length_lem = l;
                bound = omega arith;
              }))
        ]
      where
        read_all :
            (bytes : Bytes) (file' : QdlFile)
            → Reads want file bytes file'
            → ltb (length bytes) want ≡ false
            → length bytes ≡ want
        read_all bytes file' r e =
            let b : length bytes ≤ want =
              subst (λ t. length t ≤ want) (sym r.bytes_lem)
                (omega (arith, length-take {0} want (rest file))) in
            ground arith

  hash_rounds-Hashing :
      (start : QdlFile) (rounds hashed : ℕ) (ctx : Ctx) (file : QdlFile)
      → Hashed start hashed ctx file
      → OnHashing start (hash_rounds sha max_payload_size region_bytes rounds hashed ctx file)
  unfolding hash_rounds
  hash_rounds-Hashing start zero hashed ctx file k = tt
  hash_rounds-Hashing start (suc rounds) hashed ctx file k =
      elim (Bool-cases (ltb hashed region_bytes)) [
        | inl e ↦ rw e (
            hash_read-Hashing start (hash_rounds sha max_payload_size region_bytes rounds)
              (hash_rounds-Hashing start rounds) hashed
              (min max_payload_size (region_bytes - hashed)) ctx file k (omega (arith, k.bound)) _
              (read_exact-Outcome file _))
        | inr e ↦ rw e (whole_region start hashed ctx file k (reached e k.bound))
      ]
    where
      reached : ltb hashed region_bytes ≡ false → hashed ≤ region_bytes → hashed ≡ region_bytes
      reached e b = ground arith

  -- The rest of the region, as zeros.
  abbrev OnPadding : Ctx → ℕ → Option Ctx → Type 0
  OnPadding ctx hashed none = Unit
  OnPadding ctx hashed (some ctx') = ctx' ≡ update ctx (zeros (region_bytes - hashed))

  pad_rounds-Padding :
      (rounds hashed : ℕ) (ctx : Ctx)
      → OnPadding ctx hashed (pad_rounds sha max_payload_size region_bytes rounds hashed ctx)
  unfolding pad_rounds
  pad_rounds-Padding zero hashed ctx = tt
  pad_rounds-Padding (suc rounds) hashed ctx =
      let pad = min max_payload_size (region_bytes - hashed) in
      elim (Bool-cases (ltb hashed region_bytes)) [
        | inl e ↦ rw e (
            joined pad _ (omega arith)
              (pad_rounds-Padding rounds (hashed + pad) (update ctx (zeros pad))))
        | inr e ↦
            rw e (sym (update-nil ctx) ∙ ap (λ n. update ctx (zeros n)) {x = 0} (nothing_left e))
      ]
    where
      joined :
          (pad : ℕ) (out : Option Ctx)
          → pad ≤ region_bytes - hashed
          → OnPadding (update ctx (zeros pad)) (hashed + pad) out
          → OnPadding ctx hashed out
      joined pad none l e = tt
      joined pad (some ctx') l e =
          e
          ∙ update-append ctx (zeros pad) (zeros (region_bytes - (hashed + pad)))
          ∙ ap (update ctx) (replicate-append pad (region_bytes - (hashed + pad)))
          ∙ ap (λ n. update ctx (zeros n)) {x = pad + (region_bytes - (hashed + pad))} (omega arith)

      nothing_left : ltb hashed region_bytes ≡ false → 0 ≡ region_bytes - hashed
      nothing_left e = ground arith

  -- The digest, if there is one, and the file behind it.
  abbrev pub OnDigest : (Bytes → QdlFile → Type 0) → Option (Option Bytes × QdlFile) → Type 0
  OnDigest P none = Unit
  OnDigest P (some (none, file)) = Unit
  OnDigest P (some (some d, file)) = P d file

  -- A region that begins where `start` is.
  pub record Digested (start : QdlFile) (d : Bytes) (file : QdlFile) : Type 0 where
    pub digest_lem : d ≡ digest sha (image region_bytes (rest start))
    pub behind_lem : rest file ≡ drop region_bytes (rest start)
    pub same_type : file.file_type ≡ start.file_type

  finish-Digested :
      (start file : QdlFile) (ctx : Ctx) (hashed : ℕ) (out : Option Ctx)
      → HashedAll start ctx hashed file
      → OnPadding ctx hashed out
      → OnDigest (Digested start) (finish sha max_payload_size region_bytes file out)
  unfolding finish
  finish-Digested start file ctx hashed none k e = tt
  finish-Digested start file ctx hashed (some ctx') k e =
      let part = take region_bytes (rest start) in
      record {
        digest_lem = ap final (
            e
            ∙ ap (λ c. update c (zeros (region_bytes - hashed))) k.all_lem
            ∙ update-append sha256_init part (zeros (region_bytes - hashed))
            ∙ ap (λ n. update sha256_init (part ++ zeros (region_bytes - n))) (sym k.count_lem)
            ∙ ap (update sha256_init) (zero_pad-take region_bytes (rest start)));
        behind_lem = k.left_lem;
        same_type = k.kind_lem;
      }

  pad_region-Digested :
      (start : QdlFile) (out : Hashing sha max_payload_size region_bytes)
      → OnHashing start out
      → OnDigest (Digested start) (pad_region sha max_payload_size region_bytes out)
  unfolding pad_region
  pad_region-Digested start none k = tt
  pad_region-Digested start (some (none, file)) k = tt
  pad_region-Digested start (some (some (ctx, hashed), file)) k =
      finish-Digested start file ctx hashed _ k (pad_rounds-Padding (suc region_bytes) hashed ctx)

  -- A digest that `firehose_region_local_digest` gives is the SHA-256 of the region's bytes from where
  -- the seek left the file, with zeros behind the end of the file. The file is left behind the region.
  pub firehose_region_local_digest-Digested :
      (file : QdlFile) (file_byte_off : ℕ)
      → OnDigest
          (Digested (qdl_file_seek file file_byte_off).1)
          (firehose_region_local_digest sha max_payload_size region_bytes file file_byte_off)
  unfolding firehose_region_local_digest
  firehose_region_local_digest-Digested file file_byte_off =
      let start = (qdl_file_seek file file_byte_off).1 in
      pad_region-Digested start _ (
        hash_rounds-Hashing start (suc region_bytes) 0 sha256_init start (record {
          acc = [];
          ctx_lem = sym (update-nil sha256_init);
          reads_lem = record {
            bytes_lem = refl;
            rest_lem = refl;
            content_lem = refl;
            type_lem = refl;
          };
          length_lem = refl;
          bound = omega arith;
        }))
