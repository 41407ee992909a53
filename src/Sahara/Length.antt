-- ===== src/Sahara/Length.antt =====
-- src/sahara.c: the lengths of the packets, `SAHARA_..._LENGTH`.
use qdl.Base.{ℕ}

abbrev pub hello : ℕ
hello = 0x30

abbrev pub read_data : ℕ
read_data = 0x14

abbrev pub read_data64 : ℕ
read_data64 = 0x20

abbrev pub end_of_image : ℕ
end_of_image = 0x10

abbrev pub mem_read64 : ℕ
mem_read64 = 0x18

abbrev pub mem_debug64 : ℕ
mem_debug64 = 0x18

abbrev pub done : ℕ
done = 0x8

abbrev pub done_resp : ℕ
done_resp = 0xc

abbrev pub reset : ℕ
reset = 0x8

abbrev pub execute : ℕ
execute = 0xc

abbrev pub switch_mode : ℕ
switch_mode = 0xc
