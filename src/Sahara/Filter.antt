-- ===== src/Sahara/Filter.antt =====
-- src/sahara.c: the patterns that select the regions of a memory dump. A C string is the list of
-- its bytes, without the final NUL.
pub mod Matching
use qdl.Base.{
  ℕ, zero, suc, Bool, true, false, not, ◌||◌, ◌&&◌, Option, none, some, List, [], ◌∷◌, ◌++◌, Bytes,
  length, take, ltb, ◌==◌, if◌then◌else◌,
}

-- `*`
abbrev pub star : ℕ
star = 42

-- `?`
abbrev pub question : ℕ
question = 63

abbrev pub comma : ℕ
comma = 44

abbrev pub dot : ℕ
dot = 46

-- `pattern_match`
unfoldable pub pattern_match : Bytes → Bytes → Bool
pattern_match [] [] = true
pattern_match [] (c ∷ string) = false
pattern_match (p ∷ pattern) [] = if p == star then pattern_match pattern [] else false
pattern_match (p ∷ pattern) (c ∷ string) =
    let skip = pattern_match pattern (c ∷ string) in
    let eat = pattern_match (p ∷ pattern) string in
    let both = pattern_match pattern string in
    if p == star
    then skip || eat
    else if p == question
    then both
    else if p == c
    then both
    else false

-- the position of the last `.`, as of `strrchr`; `at` is that of the head of the list
abbrev last_dot : Option ℕ → ℕ → Bytes → Option ℕ
last_dot found at [] = found
last_dot found at (c ∷ string) = last_dot (if c == dot then some at else found) (suc at) string

abbrev path_max : ℕ
path_max = 4096

abbrev stem_at : Bytes → Option ℕ → Bytes
stem_at filename none = []
stem_at filename (some at) = if ltb at path_max then take at filename else []

-- the name without its extension; empty when there is none, as `stem` is then
abbrev pub stem_of : Bytes → Bytes
stem_of filename = stem_at filename (last_dot none 0 filename)

-- one token of `strtok_r` and those behind it: empty tokens are skipped
abbrev add_token : Bytes → List Bytes → List Bytes
add_token [] tokens = tokens
add_token (c ∷ token) tokens = (c ∷ token) ∷ tokens

-- the tokens of a string split at the commas; `token` is what was read of the first one
abbrev pub tokens_from : Bytes → Bytes → List Bytes
tokens_from token [] = add_token token []
tokens_from token (c ∷ string) =
    if c == comma
    then add_token token (tokens_from [] string)
    else tokens_from (token ++ c ∷ []) string

abbrev pub token_matches : Bytes → Bytes → Bytes → Bool
token_matches filename stem token =
    pattern_match token filename || ltb 0 (length stem) && pattern_match token stem

abbrev pub any : (Bytes → Bool) → List Bytes → Bool
any test [] = false
any test (token ∷ tokens) = test token || any test tokens

-- `sahara_debug64_filter`: whether a region is skipped
unfoldable pub sahara_debug64_filter : Bytes → Option Bytes → Bool
unfolding pattern_match
sahara_debug64_filter filename none = false
sahara_debug64_filter filename (some filter) =
    not (any (token_matches filename (stem_of filename)) (tokens_from [] filter))
