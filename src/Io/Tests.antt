-- ===== src/Io/Tests.antt =====
-- Runs of the pushback buffer, and the instances of its theorems.
use qdl.Base.{ℕ, zero, suc, ◌≡◌, refl, true, false, none, some, List, [], ◌∷◌, arith}
use qdl.Io.{
  enomem, etimedout, Rx, got, failed, Pending, qdl_read, qdl_push_back, Op, pull, push, pulled,
  pushed, run,
}
use qdl.Io.Refine.{IsValid, run_queue, run_refines}

-- a transport that has one message, and then times out
abbrev one_message : ℕ → ℕ → ℕ → Rx × ℕ
one_message zero len timeout = (got (9 ∷ []), 1)
one_message (suc t) len timeout = (failed etimedout, suc t)

-- three bytes, one of them read
abbrev half_read : Pending
half_read = record { pending_buf = some (5 ∷ 6 ∷ 7 ∷ []); pending_len = 3; pending_off = 1 }

abbrev script : List Op
script = push true (1 ∷ 2 ∷ []) ∷ pull 3 10 ∷ push false (4 ∷ []) ∷ pull 3 10 ∷ pull 8 10 ∷ []

run-half_read :
    run one_message half_read 0 script
    ≡ pushed none
      ∷ pulled (got (6 ∷ 7 ∷ 1 ∷ []))
      ∷ pushed (some enomem)
      ∷ pulled (got (2 ∷ []))
      ∷ pulled (got (9 ∷ []))
      ∷ []
unfolding run qdl_read qdl_push_back
run-half_read = refl

half_read-IsValid : IsValid half_read
half_read-IsValid = omega arith

run_refines_example :
    run one_message half_read 0 script ≡ run_queue one_message (6 ∷ 7 ∷ []) 0 script
run_refines_example = run_refines one_message script half_read 0 half_read-IsValid
