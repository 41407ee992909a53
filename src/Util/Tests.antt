-- ===== src/Util/Tests.antt =====
-- Runs of the parsers of src/util.c, and the instances of their theorems.
use qdl.Base.{◌≡◌, refl, some, none, [], codes, arith}
use qdl.Util.{storage_address, parse_storage_address, qdl_split_specifier}
use qdl.Util.Address.{Decimal, range, print, meaning, parse_storage_address-print}
use qdl.Util.Specifier.{qdl_split_specifier-join, qdl_split_specifier-twice}

address_range : parse_storage_address (codes "4/6+8") ≡ some (storage_address 4 6 8 none)
unfolding parse_storage_address
address_range = refl

address_name :
    parse_storage_address (codes "4/boot_a") ≡ some (storage_address 4 0 0 (some (codes "boot_a")))
unfolding parse_storage_address
address_name = refl

-- a length of 0, a sign, and text behind the length
no_length : parse_storage_address (codes "4/6+0") ≡ none
unfolding parse_storage_address
no_length = refl

no_negative : parse_storage_address (codes "-1/6") ≡ none
unfolding parse_storage_address
no_negative = refl

no_more : parse_storage_address (codes "4/6+8x") ≡ none
unfolding parse_storage_address
no_more = refl

-- a start sector of 2^32 is the first sector, and one of -1 the last that 32 bits can name
wraps : parse_storage_address (codes "0/4294967296") ≡ some (storage_address 0 0 0 none)
unfolding parse_storage_address
wraps = refl

negates : parse_storage_address (codes "0/-1") ≡ some (storage_address 0 0xffffffff 0 none)
unfolding parse_storage_address
negates = refl

abbrev four : Decimal
four = record { first = b'4'; others = []; first_lem = refl; others_lem = tt }

abbrev large : Decimal
large = record {
  first = b'4';
  others = codes "294967298";
  first_lem = refl;
  others_lem = (refl, (refl, (refl, (refl, (refl, (refl, (refl, (refl, (refl, tt)))))))));
}

parse_storage_address-print_example :
    parse_storage_address (print (range four large four)) ≡ some (meaning (range four large four))
parse_storage_address-print_example =
    parse_storage_address-print (range four large four)
      (omega arith, omega arith, omega arith, omega arith)

qdl_split_specifier-join_example :
    qdl_split_specifier (codes "a:b::boot") ≡ some (codes "a:b", some (codes "boot"))
qdl_split_specifier-join_example =
    qdl_split_specifier-join b'a' b'b' (codes ":b") (codes "oot") refl refl

qdl_split_specifier-twice_example : qdl_split_specifier (codes "a::b::") ≡ none
qdl_split_specifier-twice_example = qdl_split_specifier-twice (codes "a") (codes "b") [] refl refl
