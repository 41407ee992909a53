-- ===== src/Json/Within.antt =====
-- Results of the parsers of src/json.c that have read something and hold to a bound, and how the
-- combinators of src/json.c keep them so.
use qdl.Base.{
  ℕ, suc, ◌≤◌, ◌<◌, inl, inr, Bool, true, false, [], ◌∷◌, Bytes, length, ◌==◌, ltb, arith, either,
  Bool-cases,
}
use qdl.Json.{Result, parsed, no_match, malformed, out_of_fuel}
use qdl.Json.Token.{isspace, json_skip_whitespace}
use qdl.Json.Parse.{or_else, on_parsed, map_parsed, skip_behind, close_or, opened, colon, entered}

-- A parser that has read a value leaves less than `n` bytes and a value with `P`; it has had enough
-- fuel.
abbrev pub Within : {A : Type 0} → (A → Type 0) → ℕ → Result A → Type 0
Within P n (parsed a s) = (length s < n) × P a
Within P n no_match = Unit
Within P n malformed = Unit
Within P n out_of_fuel = ⊥

abbrev pub Any : {A : Type 0} → A → Type 0
Any a = Unit

pub length-skip_whitespace : (s : Bytes) → length (json_skip_whitespace s) ≤ length s
length-skip_whitespace [] = omega arith
length-skip_whitespace (c ∷ s) =
    either (λ t. length t ≤ suc (length s)) (isspace c) (omega (arith, length-skip_whitespace s))
      (omega arith)

module _ {A : Type 0} (P : A → Type 0) where
  pub Within-mono : (m n : ℕ) (r : Result A) → m ≤ n → Within P m r → Within P n r
  Within-mono m n (parsed a s) l (read, p) = (omega (arith, read), p)
  Within-mono m n no_match l w = tt
  Within-mono m n malformed l w = tt
  Within-mono m n out_of_fuel l w = w

  pub or_else-Within :
      (n : ℕ) (r q : Result A) → Within P n r → Within P n q → Within P n (or_else r q)
  or_else-Within n (parsed a s) q w v = w
  or_else-Within n no_match q w v = v
  or_else-Within n malformed q w v = w
  or_else-Within n out_of_fuel q w v = w

  pub skip_behind-Within : (n : ℕ) (r : Result A) → Within P n r → Within P n (skip_behind r)
  skip_behind-Within n (parsed a s) (read, p) = (omega (arith, length-skip_whitespace s, read), p)
  skip_behind-Within n no_match w = tt
  skip_behind-Within n malformed w = tt
  skip_behind-Within n out_of_fuel w = w

  pub entered-Within :
      (n nesting : ℕ) (b : Bool) (next : ℕ → Result A)
      → (suc nesting ≤ 256 → Within P n (next (suc nesting)))
      → Within P n (entered b nesting next)
  entered-Within n nesting false next h = tt
  entered-Within n nesting true next h = elim (Bool-cases (ltb 256 (suc nesting))) [
    | inl e ↦ rw e tt
    | inr e ↦ rw e (h (ground (arith, e)))
  ]

  pub opened-Within :
      (n close : ℕ) (empty : A) (elements : Result A) (s : Bytes)
      → length s ≤ n
      → P empty
      → Within P n elements
      → Within P n (opened close empty elements s)
  opened-Within n close empty elements [] l p w = w
  opened-Within n close empty elements (c ∷ s) l p w =
      either (Within P n) (c == close) (omega (arith, l), p) w

  pub colon-Within :
      (n : ℕ) (next : Bytes → Result A) (s : Bytes)
      → ((rest : Bytes) → length rest < length s → Within P n (next rest))
      → Within P n (colon next s)
  colon-Within n next [] h = tt
  colon-Within n next (c ∷ s) h = either (Within P n) (c == b':') (h s (omega arith)) tt

module _ {A B : Type 0} (P : A → Type 0) (Q : B → Type 0) where
  pub on_parsed-Within :
      (m n : ℕ) (next : A → Bytes → Result B) (r : Result A)
      → ((a : A) (s : Bytes) → P a → length s < m → Within Q n (next a s))
      → Within P m r
      → Within Q n (on_parsed next r)
  on_parsed-Within m n next (parsed a s) h (read, p) = h a s p read
  on_parsed-Within m n next no_match h w = tt
  on_parsed-Within m n next malformed h w = tt
  on_parsed-Within m n next out_of_fuel h w = w

  pub map_parsed-Within :
      (n : ℕ) (f : A → B) (r : Result A)
      → ((a : A) → P a → Q (f a))
      → Within P n r
      → Within Q n (map_parsed f r)
  map_parsed-Within n f (parsed a s) h (read, p) = (read, h a p)
  map_parsed-Within n f no_match h w = tt
  map_parsed-Within n f malformed h w = tt
  map_parsed-Within n f out_of_fuel h w = w

-- Behind an element that has left `s`, `n` bytes at most.
pub close_or-Within :
    {A : Type 0} (P : A → Type 0) (n close : ℕ) (last : A) (more : A → A) (next : Bytes → Result A)
    (s : Bytes)
    → length s ≤ n
    → P last
    → ((a : A) → P a → P (more a))
    → ((rest : Bytes) → length rest < length s → Within P n (next rest))
    → Within P n (close_or close last more next s)
close_or-Within P n close last more next [] l p f h = tt
close_or-Within P n close last more next (c ∷ s) l p f h =
    either (Within P n) (c == close) (omega (arith, l), p)
      (either (Within P n) (c == b',') (map_parsed-Within P P n more (next s) f (h s (omega arith)))
        tt)
