-- ===== src/Util.antt =====
-- src/util.c: the parsers of command line arguments. A text holds no NUL, and allocations succeed.
pub mod Address
pub mod Specifier
mod Tests
use qdl.Base.{
  ℕ, zero, suc, ◌+◌, ◌-◌, ◌*◌, ◌%◌, ◌^◌, Bool, true, false, ◌&&◌, ◌||◌, Option, none, some, [], ◌∷◌,
  Bytes, take, drop, strstr, codes, ltb, leb, ◌==◌, if◌then◌else◌,
}
use qdl.Json.Token.{isspace, isdigit}

-- What `parse_storage_address` stores. The partition is the 32 bits of an `int`, so -1 is
-- 0xffffffff.
pub record StorageAddress : Type 0 where
  pub physical_partition : ℕ
  pub start_sector : ℕ
  pub num_sectors : ℕ
  pub gpt_partition : Option Bytes

abbrev pub storage_address : ℕ → ℕ → ℕ → Option Bytes → StorageAddress
storage_address partition sector len gpt = record {
  physical_partition = partition;
  start_sector = sector;
  num_sectors = len;
  gpt_partition = gpt;
}

-- The C library reads a number in base 10: white space, a sign, digits. The result is the sign, the
-- digits' value and the rest.
read_digits : ℕ → Bytes → ℕ × Bytes
read_digits acc [] = (acc, [])
read_digits acc (c ∷ s) =
    let more = read_digits (10 * acc + (c - b'0')) s in if isdigit c then more else (acc, c ∷ s)

unsigned_part : Bool → Bytes → Option (Bool × ℕ × Bytes)
unsigned_part negative [] = none
unsigned_part negative (c ∷ s) =
    let (n, rest) = read_digits 0 (c ∷ s) in if isdigit c then some (negative, n, rest) else none

skip_spaces : Bytes → Bytes
skip_spaces [] = []
skip_spaces (c ∷ s) = let rest = skip_spaces s in if isspace c then rest else c ∷ s

signed_part : Bytes → Option (Bool × ℕ × Bytes)
signed_part [] = none
signed_part (c ∷ s) =
    if c == b'-'
    then unsigned_part true s
    else if c == b'+'
    then unsigned_part false s
    else unsigned_part false (c ∷ s)

scan_number : Bytes → Option (Bool × ℕ × Bytes)
scan_number s = signed_part (skip_spaces s)

-- `strtol` where it is no error: not negative, and in the range of a `long` of 64 bits
long_of : Bool → ℕ → Option ℕ
long_of negative n =
    if negative
    then (if n == 0 then some 0 else none)
    else if ltb n 0x8000000000000000
    then some n
    else none

-- `strtoul`, which negates modulo 2^64; `none` is out of range
ulong_of : Bool → ℕ → Option ℕ
ulong_of negative n =
    if ltb n 0x10000000000000000
    then some (if negative then (0x10000000000000000 - n) % 0x10000000000000000 else n)
    else none

abbrev pub word : ℕ → ℕ
word n = n % 0x100000000

stored : ℕ → ℕ → ℕ → Option Bytes → Option StorageAddress
stored partition sector len gpt =
    some (storage_address (word partition) (word sector) (word len) gpt)

-- the length behind '+'
length_checked : ℕ → ℕ → Option ℕ → Bytes → Option StorageAddress
length_checked partition sector none rest = none
length_checked partition sector (some n) (c ∷ rest) = none
length_checked partition sector (some n) [] =
    if n == 0 then none else stored partition sector n none

length_part : ℕ → ℕ → Option (Bool × ℕ × Bytes) → Option StorageAddress
length_part partition sector none = none
length_part partition sector (some (negative, n, rest)) =
    length_checked partition sector (ulong_of negative n) rest

sector_checked : ℕ → Option ℕ → Bytes → Option StorageAddress
sector_checked partition none rest = none
sector_checked partition (some sector) [] = stored partition sector 0 none
sector_checked partition (some sector) (c ∷ rest) =
    if c == b'+' then length_part partition sector (scan_number rest) else none

-- the sector, or a name, behind '/'
sector_part : ℕ → Bytes → Option (Bool × ℕ × Bytes) → Option StorageAddress
sector_part partition ptr none = stored partition 0 0 (some ptr)
sector_part partition ptr (some (negative, n, rest)) =
    sector_checked partition (ulong_of negative n) rest

partition_checked : Option ℕ → Bytes → Option StorageAddress
partition_checked none rest = none
partition_checked (some partition) [] = stored partition 0 0 none
partition_checked (some partition) (c ∷ rest) =
    if c == b'/' then sector_part partition rest (scan_number rest) else none

partition_part : Bytes → Option (Bool × ℕ × Bytes) → Option StorageAddress
partition_part address none = stored 0xffffffff 0 0 (some address)
partition_part address (some (negative, n, rest)) = partition_checked (long_of negative n) rest

-- `parse_storage_address`
unfoldable pub parse_storage_address : Bytes → Option StorageAddress
unfolding partition_part partition_checked sector_part sector_checked length_part length_checked
    stored long_of ulong_of scan_number signed_part unsigned_part read_digits skip_spaces
parse_storage_address address = partition_part address (scan_number address)

nonempty : Bytes → Bool
nonempty [] = false
nonempty (c ∷ s) = true

-- the file name and the selector, the place of the separator given
split_at : Bytes → Option ℕ → Option (Bytes × Option Bytes)
split_at param none = some (param, none)
split_at param (some n) =
    let selector = drop (n + 2) param in
    if nonempty (take n param) && nonempty selector
    then some (take n param, some selector)
    else none

nothing : Option ℕ → Bool
nothing none = true
nothing (some n) = false

-- Whether no other separator stands behind the place of the first one.
is_last : Bytes → Option ℕ → Bool
unfolding nothing
is_last param none = true
is_last param (some n) = nothing (strstr (drop (n + 2) param) (codes "::"))

-- `qdl_split_specifier`
unfoldable pub qdl_split_specifier : Bytes → Option (Bytes × Option Bytes)
unfolding split_at is_last nothing nonempty
qdl_split_specifier [] = none
qdl_split_specifier (c ∷ s) =
    let place = strstr (c ∷ s) (codes "::") in
    if is_last (c ∷ s) place then split_at (c ∷ s) place else none
