-- ===== src/Sahara/Cmd.antt =====
-- src/sahara.c: the commands, `SAHARA_..._CMD`.
use qdl.Base.{ℕ}

abbrev pub hello : ℕ
hello = 0x1

abbrev pub hello_resp : ℕ
hello_resp = 0x2

abbrev pub read_data : ℕ
read_data = 0x3

abbrev pub end_of_image : ℕ
end_of_image = 0x4

abbrev pub done : ℕ
done = 0x5

abbrev pub done_resp : ℕ
done_resp = 0x6

abbrev pub reset : ℕ
reset = 0x7

abbrev pub reset_resp : ℕ
reset_resp = 0x8

abbrev pub cmd_ready : ℕ
cmd_ready = 0xb

abbrev pub mem_debug64 : ℕ
mem_debug64 = 0x10

abbrev pub mem_read64 : ℕ
mem_read64 = 0x11

abbrev pub read_data64 : ℕ
read_data64 = 0x12

abbrev pub switch_mode : ℕ
switch_mode = 0xc

abbrev pub execute : ℕ
execute = 0xd

abbrev pub execute_resp : ℕ
execute_resp = 0xe

abbrev pub execute_data : ℕ
execute_data = 0xf
