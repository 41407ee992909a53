-- ===== src/Vip.antt =====
-- src/vip.c and src/vip.h: Validated Image Programming. `Transfer` sends the digest tables to the
-- device, `Generator` makes them in a dry run.
pub mod Transfer
pub mod Generator
mod Tests
use qdl.Base.{ℕ, ◌-◌}

abbrev pub sha256_digest_length : ℕ
sha256_digest_length = 32

abbrev pub max_digests_per_signed_file : ℕ
max_digests_per_signed_file = 54

abbrev pub max_digests_per_chained_file : ℕ
max_digests_per_chained_file = 256

abbrev pub max_digests_per_signed_table : ℕ
max_digests_per_signed_table = max_digests_per_signed_file - 1

abbrev pub max_digests_per_chained_table : ℕ
max_digests_per_chained_table = max_digests_per_chained_file - 1

abbrev pub max_digests_per_buf : ℕ
max_digests_per_buf = 16

abbrev pub max_chained_files : ℕ
max_chained_files = 32
