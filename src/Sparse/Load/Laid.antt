-- ===== src/Sparse/Load/Laid.antt =====
-- src/program.c: what `program_load_sparse` makes of an image.
use native.Mathlib.Nat.{zero-div}
use qdl.Base.{
  ℕ, ◌+◌, ◌*◌, ◌/◌, ◌%◌, ◌^◌, ◌<◌, Bool, true, false, Option, none, some, List, [], map, Bytes,
  length, ◌==◌, ◌≡◌, refl, sym, ap, subst, ◌∙◌, inl, inr, Bool-cases, arith,
}
use qdl.Sparse.{File, SparseHeader, Chunk, sparse_header_parse}
use qdl.Sparse.Load.{
  StartSector, given, ChunkOp, sector_of, Program, Loaded, split, regular, refused, loaded,
  load_from, program_load_sparse,
}
use qdl.Sparse.Load.Layout.{Parsed, total_size, layout, not_zero, view, Placed, load_chunks-Placed}

module _ (strtoul : Bytes → ℕ) (alloc : ℕ → Bool) (p : Program) (text : Bytes)
    (pos : 0 < p.sector_size) where
  -- The operations of an image that was split, and the sector behind it.
  pub Laid : File → List ChunkOp → Program → Type 0
  Laid f ops q =
      (h : SparseHeader) × (g : File) × (chunks : List Chunk) × (sparse_header_parse f
        ≡ (some h, g))
      × Parsed h h.total_chunks g chunks
      × (map (view strtoul alloc p.sector_size (strtoul text) pos) ops
          ≡ layout p.sector_size (strtoul text) 0 chunks)
      × ((start : StartSector) × (q.start_sector ≡ some start)
          × (sector_of strtoul alloc start
              ≡ (strtoul text + total_size chunks / p.sector_size) % 2 ^ 32))

  LaidIf : File → Loaded × List ChunkOp × Program → Type 0
  LaidIf f (split, ops, q) = Laid f ops q
  LaidIf f (regular, ops, q) = Unit
  LaidIf f (refused, ops, q) = Unit

  loaded-Laid :
      (f : File) (h : SparseHeader) (g : File) (r : Bool × List ChunkOp × StartSector)
      → sparse_header_parse f ≡ (some h, g)
      → Placed strtoul alloc p.sector_size (strtoul text) pos h h.total_chunks g [] 0 r
      → LaidIf f (loaded strtoul alloc p r)
  unfolding LaidIf Laid Placed
  loaded-Laid f h g (false, ops, start) e d = tt
  loaded-Laid f h g (true, ops, start) e (chunks, parsed, places, last) = (
    h,
    g,
    chunks,
    e,
    parsed,
    places,
    (
      start,
      refl,
      last
          ∙ ap (λ k. (strtoul text + k / p.sector_size) % 2 ^ 32) {x = 0 + total_size chunks}
              {y = total_size chunks} (omega arith),
    ),
  )

  load_from-Laid :
      (f : File) (o : Option SparseHeader × File)
      → sparse_header_parse f ≡ o
      → LaidIf f (load_from strtoul alloc p (some (given text)) o)
  unfolding LaidIf
  load_from-Laid f (none, g) e =
      elim (Bool-cases (p.sector_size * p.num_sectors == length g.content)) [
        | inl b ↦ rw (b) tt
        | inr b ↦ rw (b) tt
      ]
  load_from-Laid f (some h, g) e = rw (not_zero p.sector_size pos) (
      loaded-Laid f h g _ e (
        load_chunks-Placed strtoul alloc p.sector_size (strtoul text) pos h.total_chunks h []
          (given text) 0 g
          (ap (λ k. k % 2 ^ 32) {x = strtoul text} {y = strtoul text + 0 / p.sector_size}
            (omega (arith, zero-div p.sector_size)))))

  -- When `program_load_sparse` splits an image whose program has a sector size and a start sector,
  -- the header was accepted, the chunk headers give as many chunks as it says, and the operations
  -- are those of the chunks that have data, in order: each with the sectors of its chunk, and at
  -- the start sector and the sectors of all the bytes of the image before it. The start sector
  -- that is left is that behind the whole image. Sectors count modulo `2 ^ 32`.
  pub program_load_sparse-Laid :
      (f : File) (ops : List ChunkOp) (q : Program)
      → p.start_sector ≡ some (given text)
      → program_load_sparse strtoul alloc p f ≡ (split, ops, q)
      → Laid f ops q
  unfolding program_load_sparse LaidIf
  program_load_sparse-Laid f ops q start ran =
      subst (LaidIf f)
        (ap (λ o. load_from strtoul alloc p o (sparse_header_parse f)) (sym start) ∙ ran)
        (load_from-Laid f (sparse_header_parse f) refl)
