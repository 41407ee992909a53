-- ===== src/Vip/Generator.antt =====
-- The table generator of src/vip.c: `vip_gen_chunk_*`, `write_output_file`,
-- `write_digests_to_table` and `create_chained_tables`.
pub mod Ends
pub mod Chain
pub mod Payloads
pub mod Tables
pub mod Coverage
pub mod Chunks
use qdl.Base.{
  ℕ, zero, suc, ◌+◌, ◌-◌, ◌*◌, ◌/◌, ◌≡◌, Bool, true, false, Option, none, some, List, [], ◌∷◌, ◌++◌,
  Bytes, length, take, drop, set, get_or, replicate, ltb, leb, ◌==◌, if◌then◌else◌, min,
}
use qdl.Vip.{
  sha256_digest_length, max_digests_per_signed_table, max_digests_per_chained_table,
  max_digests_per_buf,
}

-- The SHA-256 of src/sha2.c: the streaming interface, and what it computes.
pub record Sha256 : Type 1 where
  pub Ctx : Type 0
  pub sha256_init : Ctx
  pub update : Ctx → Bytes → Ctx
  pub final : Ctx → Bytes
  -- Feeding two pieces is feeding them as one.
  pub update-append : (c : Ctx) (a b : Bytes) → update (update c a) b ≡ update c (a ++ b)
  pub update-nil : (c : Ctx) → update c [] ≡ c

-- The files that are written besides DIGEST_TABLE.bin.
pub data Dest : Type 0 where
  digests_to_sign : Dest
  chained_table : ℕ → Dest

-- The directory, with the number of calls so far that may fail.
pub record Disk : Type 0 where
  pub digest_table : Bytes
  pub to_sign : Bytes
  pub chained : ℕ → Bytes
  pub calls : ℕ

abbrev pub content : Disk → Dest → Bytes
content d digests_to_sign = d.to_sign
content d (chained_table i) = d.chained i

abbrev pub put : Disk → Dest → Bytes → Disk
put d digests_to_sign b = record d { to_sign = b }
put d (chained_table i) b = record d { chained = λ j. if i == j then b else d.chained j }

-- A call that can fail, in a state that it changes; `none` is the result -1.
abbrev pub M : Type 0 → Type 0
M A = Disk → Option A × Disk

abbrev pub and_then : {A B : Type 0} → Option A × Disk → (A → M B) → Option B × Disk
and_then (none, d) f = (none, d)
and_then (some a, d) f = f a d

infixl 5 ◌>>=◌ ◌>>◌
abbrev pub ◌>>=◌ : {A B : Type 0} → M A → (A → M B) → M B
◌>>=◌ m f d = and_then (m d) f

abbrev pub ◌>>◌ : {B : Type 0} → M (Unit {0}) → M B → M B
m >> k = m >>= λ _. k

abbrev pub return : {A : Type 0} → A → M A
return a d = (some a, d)

abbrev pub modify : (Disk → Disk) → M (Unit {0})
modify f d = (some tt, f d)

abbrev pub give_up : {A : Type 0} → M A
give_up d = (none, d)

abbrev pub verdict : Bool → Disk → Option (Unit {0}) × Disk
verdict true d = (none, d)
verdict false d = (some tt, d)

-- the number of chained tables, at the head of `create_chained_tables`
unfoldable pub chained_num : ℕ → ℕ
chained_num total =
    let remaining = total - max_digests_per_signed_table in
    if ltb max_digests_per_signed_table total
    then (remaining + max_digests_per_chained_table - 1) / max_digests_per_chained_table
    else 0

-- `table_digests`
abbrev pub table_size : ℕ → ℕ
table_size remaining =
    if ltb max_digests_per_chained_table remaining then max_digests_per_chained_table else remaining

-- the file that the hash of chained table `i` goes to
abbrev predecessor : ℕ → Dest
predecessor zero = digests_to_sign
predecessor (suc i) = chained_table i

-- `fails n` says whether the `n`-th library call fails.
module _ (fails : ℕ → Bool) (sha : Sha256) where
  open sha use {Ctx, sha256_init, update, final}

  -- a call of `open`, `fopen`, `lseek`, `read`, `fwrite` or `calloc`
  abbrev pub attempt : M (Unit {0})
  attempt d = verdict (fails d.calls) (record d { calls = d.calls + 1 })

  -- `fopen(..., "wb")`, `fopen(..., "ab")`, `fwrite` and `fclose`
  pub write_output_file : Dest → Bool → Bytes → M (Unit {0})
  write_output_file dest append buf = do
    attempt
    modify (λ d. if append then d else put d dest [])
    attempt
    modify (λ d. put d dest (content d dest ++ buf))

  abbrev pub update_if : Option Ctx → Bytes → Option Ctx
  update_if none buf = none
  update_if (some c) buf = some (update c buf)

  -- `read(fd, buf, to_read)` at an offset, and the test of its result
  abbrev read_table : ℕ → ℕ → M Bytes
  read_table offset to_read d =
      let buf = take to_read (drop offset d.digest_table) in
      (if length buf == to_read then some buf else none, d)

  -- the `while` loop of `write_digests_to_table`, with at most `rounds` rounds: `left` bytes are
  -- still to be copied from `offset` on
  copy_loop : ℕ → Dest → ℕ → ℕ → Option Ctx → M (Option Ctx)
  copy_loop zero dest offset left ctx = give_up
  copy_loop (suc rounds) dest offset left ctx =
      let to_read = min left (max_digests_per_buf * sha256_digest_length) in
      let rest = do
        attempt
        buf ← read_table offset to_read
        attempt
        modify (λ d. put d dest (content d dest ++ buf))
        copy_loop rounds dest (offset + to_read) (left - to_read) (update_if ctx buf)
      in if left == 0 then return ctx else rest

  -- `write_digests_to_table`; the flag is `out_ctx != NULL`. `left / 512 + 2` rounds are enough.
  pub write_digests_to_table : Dest → ℕ → ℕ → Bool → M (Option Ctx)
  unfolding copy_loop
  write_digests_to_table dest start_digest count hashed = do
    let left = count * sha256_digest_length
    attempt
    attempt
    modify (λ d. put d dest [])
    attempt
    copy_loop (left / 512 + 2) dest (sha256_digest_length * start_digest) left
        (if hashed then some sha256_init else none)

  -- the contexts of `chain_ctxs`, by index
  abbrev pub ctx_at : List Ctx → ℕ → Ctx
  ctx_at ctxs i = get_or ctxs i sha256_init

  -- `&chain_ctxs[i]` after a call that was given it
  abbrev pub store : List Ctx → ℕ → Option Ctx → List Ctx
  store ctxs i none = ctxs
  store ctxs i (some c) = set ctxs i c

  -- the byte that keeps the last table from being a multiple of 512 bytes
  pub pad_last : Bool → ℕ → List Ctx → M (List Ctx)
  pad_last false idx ctxs = return ctxs
  pad_last true idx ctxs = do
    write_output_file (chained_table idx) true (0 ∷ [])
    return (set ctxs idx (update (ctx_at ctxs idx) (0 ∷ [])))

  -- one round of the `while` loop of step 2, with `remaining` digests left
  pub write_one : ℕ → ℕ → ℕ → List Ctx → M (List Ctx)
  unfolding pad_last
  write_one total remaining idx ctxs = do
    let table_digests = table_size remaining
    out ← write_digests_to_table (chained_table idx) (total - remaining) table_digests true
    pad_last (remaining - table_digests == 0) idx (store ctxs idx out)

  -- the loop, in at most `rounds` rounds
  pub write_chained : ℕ → ℕ → ℕ → ℕ → List Ctx → M (List Ctx)
  unfolding write_one
  write_chained zero total remaining idx ctxs = if remaining == 0 then return ctxs else give_up
  write_chained (suc rounds) total remaining idx ctxs =
      let rest =
        write_one total remaining idx ctxs
        >>= write_chained rounds total (remaining - table_size remaining) (idx + 1) in
      if remaining == 0 then return ctxs else rest

  abbrev pub with_next : Ctx → Option Bytes → Ctx
  with_next c none = c
  with_next c (some hash) = update c hash

  -- the `for` loop of step 3, with `i` rounds left, the first of them for table `i - 1`; `next` is
  -- the hash of the table behind it
  pub append_hashes : ℕ → Option Bytes → List Ctx → M (Unit {0})
  append_hashes zero next ctxs = return tt
  append_hashes (suc i) next ctxs = do
    let hash = final (with_next (ctx_at ctxs i) next)
    write_output_file (predecessor i) true hash
    append_hashes i (some hash) ctxs

  -- `calloc`, and the contexts that it makes; the flag is
  -- `total_digests > MAX_DIGESTS_PER_SIGNED_TABLE`
  abbrev alloc_contexts : Bool → ℕ → Ctx → M (List Ctx)
  alloc_contexts false n zeroed = return []
  alloc_contexts true n zeroed = attempt >> return (replicate n zeroed)

  abbrev step_two : Bool → ℕ → ℕ → List Ctx → M (List Ctx)
  step_two false n total ctxs = return ctxs
  step_two true n total ctxs =
      write_chained (n + 1) total (total - max_digests_per_signed_table) 0 ctxs

  -- `create_chained_tables`. `zeroed` is a context as `calloc` makes it.
  pub create_chained_tables : Ctx → ℕ → M (Unit {0})
  unfolding write_digests_to_table write_output_file chained_num write_chained append_hashes
  create_chained_tables zeroed total = do
    let n = chained_num total
    let chained = ltb max_digests_per_signed_table total
    fresh ← alloc_contexts chained n zeroed
    _ ← write_digests_to_table digests_to_sign 0 (min total max_digests_per_signed_table) false
    ctxs ← step_two chained n total fresh
    append_hashes n none ctxs
