-- ===== src/Sparse/Tests.antt =====
-- src/sparse.c and src/program.c: a run, and the theorem at concrete values.
use qdl.Base.{ℕ, Bool, true, List, [], ◌∷◌, ◌++◌, Bytes, some, put32, ◌≡◌, refl, arith}
use qdl.Sparse.{File, raw, fill}
use qdl.Sparse.Load.{given, number, Program, ChunkOp, split, program_load_sparse}
use qdl.Sparse.Load.Laid.{Laid, program_load_sparse-Laid}

-- Two raw blocks of four bytes, one that does not matter, and one that is filled.
abbrev image : Bytes
image =
    put32 0xed26ff3a
    ++ (1 ∷ 0 ∷ 0 ∷ 0 ∷ 28 ∷ 0 ∷ 12 ∷ 0 ∷ [])
    ++ put32 4
    ++ put32 4
    ++ put32 3
    ++ put32 0
    ++ (0xc1 ∷ 0xca ∷ 0 ∷ 0 ∷ [])
    ++ put32 2
    ++ put32 20
    ++ (1 ∷ 2 ∷ 3 ∷ 4 ∷ 5 ∷ 6 ∷ 7 ∷ 8 ∷ [])
    ++ (0xc3 ∷ 0xca ∷ 0 ∷ 0 ∷ [])
    ++ put32 1
    ++ put32 12
    ++ (0xc2 ∷ 0xca ∷ 0 ∷ 0 ∷ [])
    ++ put32 1
    ++ put32 16
    ++ put32 7

abbrev file : File
file = record { content = image; pos = 0 }

-- The attribute `5`.
abbrev five : Bytes
five = 53 ∷ []

abbrev strtoul : Bytes → ℕ
strtoul text = 5

abbrev alloc : ℕ → Bool
alloc n = true

abbrev program : Program
program = record {
  sector_size = 4;
  num_sectors = 0;
  start_sector = some (given five);
  sparse = true;
}

abbrev ops : List ChunkOp
ops =
    record { chunk = raw 8 40; num_sectors = 2; start_sector = given five }
    ∷ record { chunk = fill 4 7; num_sectors = 1; start_sector = number 8 }
    ∷ []

abbrev left_over : Program
left_over = record program { start_sector = some (number 9) }

program_load_sparse_run : program_load_sparse strtoul alloc program file ≡ (split, ops, left_over)
unfolding program_load_sparse
program_load_sparse_run = refl

program_load_sparse-Laid_example : Laid strtoul alloc program five (omega arith) file ops left_over
program_load_sparse-Laid_example =
    program_load_sparse-Laid strtoul alloc program five (omega arith) file ops left_over refl
      program_load_sparse_run
