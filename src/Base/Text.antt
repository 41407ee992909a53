-- ===== src/Base/Text.antt =====
-- Texts as strings of bytes, and the library functions of C on them.
use Prim.Native.Nat.{ℕ, zero, suc, ◌+◌, ◌/◌, ◌%◌}
use Prim.Native.String.{String}
use Prim.Native.Char.{code}
use mathlib.Core.Bool.{Bool, true, false, ◌&&◌}
use mathlib.Core.Option.{Option, none, some}
use mathlib.Core.List.{[], ◌∷◌}
use qdl.Base.Tests.{◌==◌, if◌then◌else◌}
use qdl.Base.Lists.{Bytes}

abbrev pub codes : String → Bytes
codes String.[] = []
codes (String.◌∷◌ c s) = code c ∷ codes s

-- `strcmp(a, b) == 0`
abbrev pub same : Bytes → Bytes → Bool
same [] [] = true
same (a ∷ s) (b ∷ t) = a == b && same s t
same _ _ = false

-- the string in a buffer, up to its NUL
abbrev pub cut_at_nul : Bytes → Bytes
cut_at_nul [] = []
cut_at_nul (c ∷ s) = let rest = cut_at_nul s in if c == 0 then [] else c ∷ rest

abbrev pub starts_with : Bytes → Bytes → Bool
starts_with [] s = true
starts_with (p ∷ ps) [] = false
starts_with (p ∷ ps) (c ∷ s) = p == c && starts_with ps s

abbrev pub one_further : Option ℕ → Option ℕ
one_further none = none
one_further (some n) = some (suc n)

-- `strstr(s, needle)`: where the needle starts
abbrev pub strstr : Bytes → Bytes → Option ℕ
strstr [] needle = if starts_with needle [] then some 0 else none
strstr (c ∷ s) needle =
    let further = one_further (strstr s needle) in
    if starts_with needle (c ∷ s) then some 0 else further

-- the decimal digits of a number, in front of a text; a digit takes a round
abbrev pub digits : ℕ → ℕ → Bytes → Bytes
digits zero n text = text
digits (suc rounds) n text =
    let more = digits rounds (n / 10) ((b'0' + n % 10) ∷ text) in
    if n / 10 == 0 then (b'0' + n % 10) ∷ text else more

-- `%llu` and `%zu` of `printf`, for a number below `2 ^ 64`, which has at most 20 digits
abbrev pub decimal : ℕ → Bytes
decimal n = digits 20 n []
