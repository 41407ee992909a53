-- ===== src/Sparse/Load/Layout.antt =====
-- src/program.c: where the chunks of a sparse image go.
use native.Mathlib.Nat.{div-add-mod, mod-add-mod, add-mul-div_left}
use qdl.Base.{
  ℕ, zero, suc, ◌+◌, ◌/◌, ◌%◌, ◌^◌, ◌<◌, Bool, true, false, not, ◌&&◌, Option, none, some, List, [],
  ◌∷◌, ◌++◌, append-nil, append_assoc, map, map-append, Bytes, length, ◌==◌, if◌then◌else◌, ◌≡◌,
  refl, sym, ap, ◌∙◌, inl, inr, Bool-cases, arith,
}
use qdl.Sparse.{File, SparseHeader, Chunk, sparse_chunk_header_parse}
use qdl.Sparse.Load.{
  StartSector, ChunkOp, chunk_size, has_data, sector_of, next_start, bad_size, op_of, add_chunk,
  load_chunks,
}

-- The chunks that the headers of a file give, one after the other.
pub data Parsed (h : SparseHeader) : ℕ → File → List Chunk → Type 0 where
  no_more : {f : File} → Parsed h 0 f []
  one_chunk :
      {n : ℕ} {f g : File} {chunk : Chunk} {chunks : List Chunk}
      → sparse_chunk_header_parse h f ≡ (some chunk, g)
      → Parsed h n g chunks
      → Parsed h (suc n) f (chunk ∷ chunks)

-- A chunk, its number of sectors and its first sector.
abbrev pub Place : Type 0
Place = Chunk × ℕ × ℕ

abbrev pub total_size : List Chunk → ℕ
total_size [] = 0
total_size (chunk ∷ chunks) = chunk_size chunk + total_size chunks

-- Where the chunks belong when `before` bytes of the image go before them and the image starts at
-- sector `s`: each at its offset in the image, in sectors of `ss` bytes.
abbrev pub layout : (ss s before : ℕ) → List Chunk → List Place
layout ss s before [] = []
layout ss s before (chunk ∷ chunks) =
    let rest = layout ss s (before + chunk_size chunk) chunks in
    if not (chunk_size chunk == 0) && has_data chunk
    then (chunk, chunk_size chunk / ss, (s + before / ss) % 2 ^ 32) ∷ rest
    else rest

-- Sectors of whole chunks add up.
sectors_add :
    (ss before size : ℕ) → 0 < ss → size % ss ≡ 0 → (before + size) / ss ≡ before / ss + size / ss
sectors_add ss before size pos whole =
    ap (λ k. (before + k) / ss) (omega (arith, div-add-mod size ss))
    ∙ add-mul-div_left before (size / ss) pos

pub not_zero : (n : ℕ) → 0 < n → (n == 0) ≡ false
not_zero n h = ground arith

is_zero : (n : ℕ) → (n == 0) ≡ true → n ≡ 0
is_zero n h = ground arith

module _ (strtoul : Bytes → ℕ) (alloc : ℕ → Bool) (ss s : ℕ) (pos : 0 < ss) where
  abbrev pub view : ChunkOp → Place
  view op = (op.chunk, op.num_sectors, sector_of strtoul alloc op.start_sector)

  -- What is true of the loop's result when it succeeds.
  unfoldable pub Placed :
      SparseHeader → ℕ → File → List ChunkOp → ℕ → Bool × List ChunkOp × StartSector → Type 0
  Placed h n f ops before (false, more, start) = Unit
  Placed h n f ops before (true, more, start) =
      (chunks : List Chunk) × Parsed h n f chunks
      × (map view more ≡ map view ops ++ layout ss s before chunks)
      × (sector_of strtoul alloc start ≡ (s + (before + total_size chunks) / ss) % 2 ^ 32)

  lift :
      (h : SparseHeader) (n before : ℕ) (f g : File) (ops new : List ChunkOp) (chunk : Chunk)
      (item : List Place)
      → sparse_chunk_header_parse h f ≡ (some chunk, g)
      → ((chunks : List Chunk)
          → layout ss s before (chunk ∷ chunks)
            ≡ item ++ layout ss s (before + chunk_size chunk) chunks)
      → map view new ≡ map view ops ++ item
      → (r : Bool × List ChunkOp × StartSector) → Placed h n g new (before + chunk_size chunk) r
      → Placed h (suc n) f ops before r
  unfolding Placed
  lift h n before f g ops new chunk item e step m (false, more, start) p = tt
  lift h n before f g ops new chunk item e step m (true, more, start)
        (chunks, parsed, places, last) =
      (
        chunk ∷ chunks,
        one_chunk e parsed,
        places
            ∙ ap (λ l. l ++ layout ss s (before + chunk_size chunk) chunks) m
            ∙ append_assoc (map view ops) item _
            ∙ ap (λ l. map view ops ++ l) (sym (step chunks)),
        last ∙ ap (λ k. (s + k / ss) % 2 ^ 32) (omega arith),
      )

  next_sector :
      (start : StartSector) (before size : ℕ)
      → sector_of strtoul alloc start ≡ (s + before / ss) % 2 ^ 32
      → size % ss ≡ 0
      → sector_of strtoul alloc (next_start strtoul alloc ss start size)
        ≡ (s + (before + size) / ss) % 2 ^ 32
  next_sector start before size e whole =
      ap (λ k. (k + size / ss) % 2 ^ 32) e
      ∙ mod-add-mod (s + before / ss) (2 ^ 32) (size / ss)
      ∙ ap (λ k. k % 2 ^ 32) (omega (arith, sectors_add ss before size pos whole))

  good_size : (size : ℕ) → bad_size strtoul alloc ss size ≡ false → size % ss ≡ 0
  good_size size h = ground arith

  module _ (h : SparseHeader) (n : ℕ)
      (next : List ChunkOp → StartSector → File → Bool × List ChunkOp × StartSector)
      (ih : (ops : List ChunkOp) (start : StartSector) (before : ℕ) (f : File)
        → sector_of strtoul alloc start ≡ (s + before / ss) % 2 ^ 32
        → Placed h n f ops before (next ops start f)) where
    -- A chunk that makes no operation.
    skip_chunk :
        (ops : List ChunkOp) (start : StartSector) (before : ℕ) (f g : File) (chunk : Chunk)
        → sparse_chunk_header_parse h f ≡ (some chunk, g)
        → not (chunk_size chunk == 0) && has_data chunk ≡ false
        → sector_of strtoul alloc start ≡ (s + (before + chunk_size chunk) / ss) % 2 ^ 32
        → Placed h (suc n) f ops before (next ops start g)
    skip_chunk ops start before f g chunk e none_ at =
        lift h n before f g ops ops chunk [] e (λ chunks. rw (none_) refl)
          (sym (append-nil (map view ops))) _ (ih ops start (before + chunk_size chunk) g at)

    -- A chunk that makes an operation.
    place_chunk :
        (ops : List ChunkOp) (start : StartSector) (before : ℕ) (f g : File) (chunk : Chunk)
        → sparse_chunk_header_parse h f ≡ (some chunk, g)
        → not (chunk_size chunk == 0) && has_data chunk ≡ true
        → sector_of strtoul alloc start ≡ (s + before / ss) % 2 ^ 32
        → chunk_size chunk % ss ≡ 0
        → Placed h (suc n) f ops before (
            next
              (ops ++ op_of strtoul alloc ss start chunk ∷ [])
              (next_start strtoul alloc ss start (chunk_size chunk))
              g)
    place_chunk ops start before f g chunk e some_ at whole =
        lift h n before f g ops (ops ++ op_of strtoul alloc ss start chunk ∷ []) chunk
          ((chunk, chunk_size chunk / ss, (s + before / ss) % 2 ^ 32) ∷ []) e
          (λ chunks. rw (some_) refl)
          (map-append view ops (op_of strtoul alloc ss start chunk ∷ [])
            ∙ ap (λ k. map view ops ++ (chunk, chunk_size chunk / ss, k) ∷ []) at)
          _
          (ih _ _ (before + chunk_size chunk) g
            (next_sector start before (chunk_size chunk) at whole))

    add_chunk-Placed :
        (ops : List ChunkOp) (start : StartSector) (before : ℕ) (f : File) (o : Option Chunk × File)
        → sparse_chunk_header_parse h f ≡ o
        → sector_of strtoul alloc start ≡ (s + before / ss) % 2 ^ 32
        → Placed h (suc n) f ops before (add_chunk strtoul alloc next ss ops start o)
    unfolding Placed
    add_chunk-Placed ops start before f (none, g) e at = tt
    add_chunk-Placed ops start before f (some chunk, g) e at =
        elim (Bool-cases (chunk_size chunk == 0)) [
          | inl z ↦ rw (z) (
              skip_chunk ops start before f g chunk e (rw (z) refl) (
                at
                ∙ ap (λ k. (s + k / ss) % 2 ^ 32) {x = before} {y = before + chunk_size chunk}
                    (omega (arith, is_zero _ z))))
          | inr z ↦ elim (Bool-cases (bad_size strtoul alloc ss (chunk_size chunk))) [
            | inl b ↦ rw (z, b) tt
            | inr b ↦ elim (Bool-cases (has_data chunk)) [
              | inr d ↦
                  rw (z, b, d)
                    (skip_chunk ops _ before f g chunk e (rw (z, d) refl)
                      (next_sector start before (chunk_size chunk) at (good_size _ b)))
              | inl d ↦ elim (Bool-cases (alloc (length ops))) [
                | inr m ↦ rw (z, b, d, m) tt
                | inl m ↦
                    rw (z, b, d, m)
                      (place_chunk ops start before f g chunk e (rw (z, d) refl) at (good_size _ b))
              ]
            ]
          ]
        ]

  pub load_chunks-Placed :
      (n : ℕ) (h : SparseHeader) (ops : List ChunkOp) (start : StartSector) (before : ℕ) (f : File)
      → sector_of strtoul alloc start ≡ (s + before / ss) % 2 ^ 32
      → Placed h n f ops before (load_chunks strtoul alloc n h ss ops start f)
  unfolding Placed load_chunks
  load_chunks-Placed zero h ops start before f at = (
    [],
    no_more,
    sym (append-nil (map view ops)),
    at ∙ ap (λ k. (s + k / ss) % 2 ^ 32) (omega arith),
  )
  load_chunks-Placed (suc n) h ops start before f at =
      add_chunk-Placed h n (load_chunks strtoul alloc n h ss)
        (λ o st b g q. load_chunks-Placed n h o st b g q) ops start before f
        (sparse_chunk_header_parse h f) refl at
