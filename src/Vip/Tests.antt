-- ===== src/Vip/Tests.antt =====
-- Runs of the table code, and the instances of its theorems.
use qdl.Base.{
  ℕ, zero, suc, ◌+◌, ◌≡◌, refl, Bool, true, false, none, some, List, [], ◌∷◌, ◌++◌, Bytes, length,
  replicate, length-replicate, arith, append_assoc, append-nil, take, length-take, length-append,
  ◌==◌, ◌<◌, ◌≤◌, ◌*◌,
}
use qdl.Io.{wrote}
use qdl.Vip.Transfer.{
  vip_disabled, vip_init, VipTransferData, TableFile, digests_to_sign_mbn, chained_table, Opened,
  fd, enoent, vip_transfer_init, TableIo, run_frames,
}
use qdl.Vip.Transfer.Frames.{needed, IsAt, run_frames_starved}
use qdl.Vip.Transfer.Tables.{Reliable, send_all, due, run_frames_reliable}
use qdl.Vip.Transfer.Open.{Outcome, transfer_lem, vip_transfer_init-Outcome}
use qdl.Vip.Generator.{Sha256, Disk, chained_num, create_chained_tables}
use qdl.Vip.Generator.Ends.{Ends}
use qdl.Vip.Generator.Tables.{Tables, create_chained_tables-Tables, signed_part}
use qdl.Vip.Generator.Coverage.{digests_from, tables_cover, length-sealed}
use qdl.Vip.Generator.Chunks.{
  VipTableGenerator, Frame, whole, cut_at, Recorded, digests, record_frames, record_frames-Recorded,
}
use qdl.Vip.Generator.Chain.{sealed}

abbrev idle : VipTransferData
idle = record {
  state = vip_disabled;
  signed_table_fd = 0;
  chained_fds = [];
  chained_num = 0;
  chained_cur = 0;
  frames_sent = 0;
  frames_left = 0;
  fh_parse_status = false;
  sending_table = false;
}

-- a signed table and two chained ones
abbrev two_files : TableFile → Opened
two_files digests_to_sign_mbn = fd 3
two_files (chained_table zero) = fd 4
two_files (chained_table (suc zero)) = fd 5
two_files _ = enoent

abbrev ready : VipTransferData
ready = record idle {
  state = vip_init;
  signed_table_fd = 3;
  chained_fds = 4 ∷ 5 ∷ [];
  chained_num = 2;
}

init_two_files : vip_transfer_init two_files idle ≡ (true, ready, [])
unfolding vip_transfer_init
init_two_files = refl

-- a device that records what it is sent; the file of descriptor `n` holds the byte `n`
abbrev recorder : TableIo (List Bytes)
recorder = record {
  fstat = λ n. some 1;
  malloc = λ n. true;
  read = λ n size. some (n ∷ []);
  write = λ sending log buf. (wrote (length buf), log ++ buf ∷ []);
}

recorder-Reliable : Reliable recorder
recorder-Reliable = record {
  content = λ n. n ∷ [];
  stat_ok = λ n. refl;
  malloc_ok = λ n. refl;
  read_ok = λ n. refl;
  write_ok = λ t buf. refl;
}

two_are_enough : needed 54 ≤ 2
unfolding needed
two_are_enough = omega arith

-- 54 frames take the signed table and one chained table.
run_frames_reliable_example :
    (e : VipTransferData) × (run_frames recorder 54 ready []
      ≡ some (e, send_all recorder recorder-Reliable (due recorder recorder-Reliable ready 54) []))
    × IsAt 2 54 e
run_frames_reliable_example =
    run_frames_reliable recorder recorder-Reliable 53 ready [] refl refl (omega arith) refl
      two_are_enough

-- and these are sent in order
sent_by_54_frames :
    send_all recorder recorder-Reliable (due recorder recorder-Reliable ready 54) []
    ≡ (3 ∷ []) ∷ (4 ∷ []) ∷ []
unfolding needed recorder-Reliable
sent_by_54_frames = refl

-- Two chained tables cover 563 frames.
too_few : 2 < needed 564
unfolding needed
too_few = omega arith

run_frames_starved_example : run_frames recorder 564 ready [] ≡ none
run_frames_starved_example =
    run_frames_starved recorder 563 ready [] refl refl (omega arith) too_few

vip_transfer_init-Outcome_example : Outcome two_files (vip_transfer_init two_files idle)
vip_transfer_init-Outcome_example = vip_transfer_init-Outcome two_files idle

transfer_lem_example :
    (e : VipTransferData) × (run_frames recorder 54 ready []
      ≡ some (e, send_all recorder recorder-Reliable (due recorder recorder-Reliable ready 54) []))
    × IsAt 2 54 e
transfer_lem_example =
    transfer_lem two_files recorder recorder-Reliable 53 idle ready [] init_two_files two_are_enough

-- The first 32 bytes, padded with 0: it has the interface of a digest.
abbrev prefix_digest : Sha256
prefix_digest = record {
  Ctx = Bytes;
  sha256_init = [];
  update = λ c b. c ++ b;
  final = λ c. take 32 (c ++ replicate 32 0);
  update-append = λ c a b. append_assoc c a b;
  update-nil = λ c. append-nil c;
}

prefix_digest-length : (c : Bytes) → length (take 32 (c ++ replicate 32 0)) ≡ 32
prefix_digest-length c = omega (
  arith,
  length-take {0} 32 (c ++ replicate 32 0),
  length-append {0} c (replicate 32 0),
  length-replicate {A = ℕ} 32 0,
)

-- the digests of 60 frames
abbrev sixty : Disk
sixty = record { digest_table = replicate 1920 7; to_sign = []; chained = λ i. []; calls = 0 }

-- the third library call fails
abbrev third : ℕ → Bool
third n = n == 2

create_chained_tables-Tables_example :
    Ends third
      (λ _ e. Tables prefix_digest third 60 (chained_num 60) sixty e)
      (create_chained_tables third prefix_digest [] 60 sixty)
create_chained_tables-Tables_example =
    create_chained_tables-Tables prefix_digest third 60 [] sixty
      (omega (arith, length-replicate {A = ℕ} 1920 7))

tables_cover_example :
    signed_part prefix_digest third 60 (replicate 1920 7)
      ++ digests_from 60 (replicate 1920 7) (chained_num 60) 0
    ≡ replicate 1920 7
tables_cover_example =
    tables_cover prefix_digest third 60 (replicate 1920 7) (length-replicate {A = ℕ} 1920 7)

one_chained : 0 + 0 < chained_num 60
unfolding chained_num
one_chained = omega arith

length-sealed_example : length (sealed prefix_digest 60 (replicate 1920 7) 0 0) ≤ 256 * 32
length-sealed_example =
    length-sealed prefix_digest prefix_digest-length 60 (replicate 1920 7) 0 0 one_chained

-- a generator as `vip_gen_init` makes it
abbrev fresh_generator : VipTableGenerator prefix_digest
fresh_generator = record {
  ctx = [];
  digest_table_fd = true;
  digest_num_written = 0;
  digest_table = [];
}

-- two frames, the first in two pieces; the second digest cannot be written
abbrev two_frames : List (Frame prefix_digest)
two_frames = ((1 ∷ []) ∷ (2 ∷ []) ∷ [], whole) ∷ ((3 ∷ []) ∷ [], cut_at 1) ∷ []

record_frames-Recorded_example :
    Recorded prefix_digest 1
      (digests prefix_digest two_frames)
      (record_frames prefix_digest fresh_generator two_frames)
record_frames-Recorded_example =
    record_frames-Recorded prefix_digest prefix_digest-length two_frames fresh_generator refl refl
      (omega arith)
