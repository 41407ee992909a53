-- ===== src/Sahara/Tests.antt =====
-- src/sahara.c: runs, and the theorems at concrete values.
use qdl.Base.{
  String, codes, same, if◌then◌else◌, Option, ℕ, ◌≤◌, take, zero, suc, ◌-◌, ap, ◌∙◌, drop, true,
  false, none, some, List, [], ◌∷◌, ◌++◌, Bytes, ◌≡◌, ◌≢◌, ◌↔◌, refl, arith, replicate, Each,
}
use qdl.Io.{enodev, got, failed, etimedout, wrote}
use qdl.Sahara.{Wire, SaharaImage, no_image, put32, put64}
use qdl.Sahara.Cmd
use qdl.Sahara.Length
use qdl.Sahara.Handlers.{hello_resp_packet, done_packet, reset_packet}
use qdl.Sahara.Filter.{pattern_match, sahara_debug64_filter}
use qdl.Sahara.Filter.Matching.{Matches, pattern_match-Matches}
use qdl.Sahara.Ramdump.Complete.{Holds, sahara_debug64_one-Holds}
use qdl.Sahara.Minidump.{sahara_build_minidump_elf}
use qdl.Sahara.Ramdump.{Region, sahara_debug64_one, Os, Host, mem_read64_packet, dump_path}
use qdl.Sahara.Reset.{is_reset, sahara_device_reset}
use qdl.Sahara.Reset.Outcome.{Outcome, sahara_device_reset-Outcome}
use qdl.Sahara.Command.{
  exec_packet, sahara_command_exec, sahara_chipinfo, printed, sahara_pkhash_trim,
}
use qdl.Sahara.Command.Payload.{AllSome, exec_resp_packet, sahara_command_exec_lem}
use qdl.Sahara.Command.Trim.{NoRepeat, sahara_pkhash_trim_lem}
use qdl.Sahara.Run.{same_bytes, Session, usb, sim, success, sahara_run}
use qdl.Sahara.Run.Steps.{Request, IsServed, hello_packet}
use qdl.Sahara.Run.Upload.{upload, sent_all, sahara_run_uploads}

-- `ab*.?in` and `abc.bin`
abbrev pattern : Bytes
pattern = 97 ∷ 98 ∷ 42 ∷ 46 ∷ 63 ∷ 105 ∷ 110 ∷ []

abbrev name : Bytes
name = 97 ∷ 98 ∷ 99 ∷ 46 ∷ 98 ∷ 105 ∷ 110 ∷ []

pattern_match_run : pattern_match pattern name ≡ true
unfolding pattern_match
pattern_match_run = refl

-- The stem `abc` of `abc.bin` matches the second token.
filter_run : sahara_debug64_filter name (some (120 ∷ 44 ∷ 97 ∷ 98 ∷ 99 ∷ [])) ≡ false
unfolding sahara_debug64_filter pattern_match
filter_run = refl

pattern_match-Matches_example : (pattern_match pattern name ≡ true) ↔ Matches pattern name
pattern_match-Matches_example = pattern_match-Matches pattern name

abbrev os : Os
os = record {
  malloc = λ n. true;
  open_file = λ p. true;
  write = λ n k. wrote k;
  read_file = λ files path. none;
}

abbrev image : SaharaImage
image = record { ptr = some (7 ∷ 8 ∷ 9 ∷ 10 ∷ []); len = 4 }

abbrev session : Session
session = record {
  dev_type = usb;
  images = some (no_image ∷ image ∷ []);
  ramdump_path = none;
  ramdump_filter = none;
}

-- Image 1 in two parts, the second one first.
abbrev requests : List Request
requests =
    record { image = 1; offset = 2; size = 2 } ∷ record { image = 1; offset = 0; size = 2 } ∷ []

abbrev host : Host
host = record {
  wire = record { rx = got (hello_packet 2 0) ∷ upload requests 1; tx = []; ack = λ n. wrote 2 };
  files = [];
  writes = 0;
}

abbrev served : Each (IsServed session.images) requests
served = (
  record {
    content = 7 ∷ 8 ∷ 9 ∷ 10 ∷ [];
    image_len = 4;
    provided = refl;
    within = omega arith;
    words = (omega arith, omega arith, omega arith);
  },
  (
    record {
      content = 7 ∷ 8 ∷ 9 ∷ 10 ∷ [];
      image_len = 4;
      provided = refl;
      within = omega arith;
      words = (omega arith, omega arith, omega arith);
    },
    tt,
  ),
)

usb_real : usb ≢ sim
usb_real e = cc

sahara_run_uploads_example :
    sahara_run os session [] host
    ≡ some (
      success,
      sent_all host (hello_resp_packet 2 0 ∷ (9 ∷ 10 ∷ []) ∷ (7 ∷ 8 ∷ []) ∷ done_packet ∷ []),
    )
sahara_run_uploads_example =
    sahara_run_uploads os session 2 0 1 requests served [] host usb_real (omega arith) refl
      (refl, (refl, tt))

-- A crashed device whose table names a region of six bytes, `abc.bin`, which is dumped.
abbrev dump_session : Session
dump_session = record {
  dev_type = usb;
  images = none;
  ramdump_path = some (47 ∷ 100 ∷ []);
  ramdump_filter = none;
}

abbrev region : Bytes
region = put64 0 ++ put64 4096 ++ put64 6 ++ replicate 20 0 ++ name ++ replicate 13 0

abbrev crashed : Host
crashed = record {
  wire = record {
    rx =
        got (put32 Cmd.mem_debug64 ++ put32 Length.mem_debug64 ++ put64 1024 ++ put64 64)
        ∷ got region
        ∷ got (1 ∷ 2 ∷ 3 ∷ 4 ∷ [])
        ∷ got (5 ∷ 6 ∷ [])
        ∷ failed etimedout
        ∷ got (put32 Cmd.reset_resp ++ put32 Length.reset)
        ∷ [];
    tx = [];
    ack = λ n. wrote 24;
  };
  files = [];
  writes = 0;
}

ramdump_run :
    sahara_run os dump_session [] crashed
    ≡ some (
      success,
      record crashed {
        wire = record crashed.wire {
          rx = [];
          tx = mem_read64_packet 1024 64 ∷ mem_read64_packet 4096 6 ∷ reset_packet ∷ [];
        };
        files = (dump_path (some (47 ∷ 100 ∷ [])) name, 1 ∷ 2 ∷ 3 ∷ 4 ∷ 5 ∷ 6 ∷ []) ∷ [];
        writes = 2;
      },
    )
unfolding sahara_run sahara_build_minidump_elf
ramdump_run = refl

-- A device in its boot loader that takes the reset at the second request and drops off the bus.
abbrev booted : Wire
booted = record {
  rx =
      got (hello_packet 2 0)
      ∷ got (put32 Cmd.cmd_ready ++ put32 8)
      ∷ failed etimedout
      ∷ got (put32 Cmd.reset_resp ++ put32 Length.reset)
      ∷ failed enodev
      ∷ [];
  tx = [];
  ack = λ n. wrote 48;
}

device_reset_run : sahara_device_reset usb [] booted ≡ (
  is_reset,
  record booted { rx = []; tx = hello_resp_packet 2 3 ∷ reset_packet ∷ reset_packet ∷ [] },
)
unfolding sahara_device_reset
device_reset_run = refl

sahara_device_reset-Outcome_example : Outcome [] booted.rx (sahara_device_reset usb [] booted)
sahara_device_reset-Outcome_example = sahara_device_reset-Outcome usb [] booted usb_real

-- A serial number that comes in two parts.
abbrev chip : Wire
chip = record {
  rx = got (exec_resp_packet 1 4) ∷ got (1 ∷ []) ∷ got (2 ∷ 3 ∷ 4 ∷ []) ∷ [];
  tx = [];
  ack = λ n. wrote 12;
}

some_parts : AllSome ((1 ∷ []) ∷ (2 ∷ 3 ∷ 4 ∷ []) ∷ [])
unfolding AllSome
some_parts = (omega arith, (omega arith, tt))

sahara_command_exec_example : sahara_command_exec 1 512 chip ≡ (
  some (1 ∷ 2 ∷ 3 ∷ 4 ∷ []),
  record chip { rx = []; tx = exec_packet Cmd.execute 1 ∷ exec_packet Cmd.execute_data 1 ∷ [] },
)
sahara_command_exec_example =
    sahara_command_exec_lem 1 512 ((1 ∷ []) ∷ (2 ∷ 3 ∷ 4 ∷ []) ∷ []) [] 12 12 chip some_parts refl
      (omega arith) (omega arith) (omega arith) refl refl

-- A device that tells its serial number only.
abbrev command_mode : Wire
command_mode = record chip {
  rx =
      got (hello_packet 2 0)
      ∷ got (put32 Cmd.cmd_ready ++ put32 8)
      ∷ got (exec_resp_packet 1 4)
      ∷ got (1 ∷ [])
      ∷ got (2 ∷ 3 ∷ 4 ∷ [])
      ∷ failed etimedout
      ∷ [];
}

chipinfo_run :
    (sahara_chipinfo usb [] command_mode).0
    ≡ printed (record { serial = some 67305985; hw_id = none; pk_hash = none })
unfolding sahara_chipinfo
chipinfo_run = refl

-- A hash of one byte in a field of forty, with zeroes behind.
abbrev hash : Bytes
hash = 1 ∷ replicate 39 0

drop-replicate : (k n : ℕ) → drop {A = ℕ} k (replicate n 0) ≡ replicate (n - k) 0
drop-replicate zero n = ap (λ m. replicate m 0) (omega arith)
drop-replicate (suc k) zero = ap (λ m. replicate m 0) {x = 0} (omega arith)
drop-replicate (suc k) (suc n) =
    drop-replicate k n ∙ ap (λ m. replicate m 0) {x = n - k} {y = suc n - suc k} (omega arith)

hash-NoRepeat : NoRepeat hash
unfolding NoRepeat
hash-NoRepeat zero four small = absurd (omega arith)
hash-NoRepeat (suc k) four small =
    let e : 39 - k ≡ suc (38 - k) = omega arith in
    ap (λ l. same_bytes (take (suc k) hash) (take (suc k) l))
      (drop-replicate k 39 ∙ ap (λ m. replicate m 0) e)

sahara_pkhash_trim_example :
    (sahara_pkhash_trim hash ≤ 40)
    × (32 ≤ sahara_pkhash_trim hash)
    × (drop (sahara_pkhash_trim hash) hash ≡ replicate (40 - sahara_pkhash_trim hash) 0)
sahara_pkhash_trim_example = sahara_pkhash_trim_lem hash (omega arith) hash-NoRepeat

pkhash_trim_run : sahara_pkhash_trim hash ≡ 32
unfolding sahara_pkhash_trim
pkhash_trim_run = refl

-- A region of six bytes that comes in two reads.
abbrev six : Region
six = record { addr = 4096; size = 6; region = []; filename = name }

abbrev dumping : Host
dumping = record crashed {
  wire = record crashed.wire {
    rx = got (1 ∷ 2 ∷ 3 ∷ 4 ∷ []) ∷ got (5 ∷ 6 ∷ []) ∷ failed etimedout ∷ [];
  };
}

abbrev dumped : Host
dumped = record {
  wire = record { rx = []; tx = mem_read64_packet 4096 6 ∷ []; ack = λ n. wrote 24 };
  files = (dump_path (some (47 ∷ 100 ∷ [])) name, 1 ∷ 2 ∷ 3 ∷ 4 ∷ 5 ∷ 6 ∷ []) ∷ [];
  writes = 2;
}

debug64_one_run : sahara_debug64_one os six (some (47 ∷ 100 ∷ [])) dumping ≡ (true, dumped)
unfolding sahara_debug64_one
debug64_one_run = refl

sahara_debug64_one-Holds_example : Holds (dump_path (some (47 ∷ 100 ∷ [])) name) 6 dumped.files
sahara_debug64_one-Holds_example =
    sahara_debug64_one-Holds os six (some (47 ∷ 100 ∷ [])) dumping dumped (omega arith)
      debug64_one_run

-- A core file whose one segment is at 4096, and the regions of a minidump: the header, vmcoreinfo and the
-- segment, of which 2 bytes of 4 are there.
abbrev core : Bytes
core =
    127 ∷ codes "ELF"
    ++ (replicate 12 0
        ++ (4 ∷ 0 ∷ replicate 14 0
            ++ (put64 64
                ++ (replicate 14 0
                    ++ (56 ∷ 0 ∷ 1 ∷ 0 ∷ replicate 6 0
                        ++ (put32 1
                            ++ (replicate 20 0 ++ (put64 4096 ++ (put64 4 ++ replicate 16 0)))))))))

abbrev region_named : ℕ → String → String → Region
region_named addr region filename = record {
  addr = addr;
  size = 0;
  region = codes region;
  filename = codes filename;
}

abbrev saved : List (Bytes × Bytes) → Bytes → Option Bytes
saved files path =
    if same path (codes "d/kelf")
    then some core
    else if same path (codes "d/note")
    then some (9 ∷ [])
    else if same path (codes "d/ram")
    then some (1 ∷ 2 ∷ [])
    else none

abbrev minidump_host : Host
minidump_host = record {
  wire = record { rx = []; tx = []; ack = λ n. wrote 12 };
  files = [];
  writes = 0;
}

minidump_run :
    (sahara_build_minidump_elf
      (record os { read_file = saved })
      (some (codes "d"))
      none
      (region_named 1 "md_KELF" "kelf"
        ∷ region_named 4096 "md_Kram" "ram"
        ∷ region_named 2 "md_Kvmc" "note"
        ∷ [])
      minidump_host).files
    ≡ (codes "d/minidump.elf", core ++ (9 ∷ 1 ∷ 2 ∷ 0 ∷ 0 ∷ [])) ∷ []
unfolding sahara_build_minidump_elf sahara_debug64_filter
minidump_run = refl
