-- ===== src/Sahara/Filter/Matching.antt =====
-- src/sahara.c: what `pattern_match` decides.
use qdl.Base.{
  ℕ, Bool, true, false, ◌||◌, [], ◌∷◌, Bytes, ◌==◌, ◌≡◌, refl, sym, subst, ◌⊎◌, inl, inr, ◌↔◌,
  arith, if◌then◌else◌,
}
use qdl.Sahara.Filter.{star, question, pattern_match}

-- A pattern with `*` for any string and `?` for any character.
pub data Matches : Bytes → Bytes → Type 0 where
  end : Matches [] []
  none_more : {pattern string : Bytes} → Matches pattern string → Matches (star ∷ pattern) string
  one_more :
      {pattern string : Bytes} (c : ℕ)
      → Matches (star ∷ pattern) string
      → Matches (star ∷ pattern) (c ∷ string)
  any_char :
      {pattern string : Bytes} (c : ℕ)
      → Matches pattern string
      → Matches (question ∷ pattern) (c ∷ string)
  same_char :
      {pattern string : Bytes} (c : ℕ) → Matches pattern string → Matches (c ∷ pattern) (c ∷ string)

or_true : (a b : Bool) → a || b ≡ true → (a ≡ true) ⊎ (b ≡ true)
or_true true b h = inl refl
or_true false b h = inr h

true_or : (a b : Bool) → b ≡ true → a || b ≡ true
true_or true b h = refl
true_or false b h = h

-- The four ways to go on from a character of the pattern and one of the string.
step_cases :
    (p c : ℕ) (skipped both : Bool)
    → (if p == star
        then skipped
        else if p == question
        then both
        else if p == c
        then both
        else false)
      ≡ true
    → (p ≡ star) × (skipped ≡ true) ⊎ (p ≡ question) × (both ≡ true) ⊎ (p ≡ c) × (both ≡ true)
step_cases p c skipped both h = ground arith

star_cases : (p : ℕ) (b : Bool) → (if p == star then b else false) ≡ true → (p ≡ star) × (b ≡ true)
star_cases p b h = ground arith

match-Matches :
    (pattern string : Bytes) → pattern_match pattern string ≡ true → Matches pattern string
unfolding pattern_match
match-Matches [] [] h = end
match-Matches [] (c ∷ string) h = absurd cc
match-Matches (p ∷ pattern) [] h =
    let (e, m) = star_cases p _ h in
    subst (λ q. Matches (q ∷ pattern) []) (sym e) (none_more (match-Matches pattern [] m))
match-Matches (p ∷ pattern) (c ∷ string) h = elim (step_cases p c _ _ h) [
  | inl (e, m) ↦
      subst (λ q. Matches (q ∷ pattern) (c ∷ string)) (sym e)
        (elim (or_true _ _ m) [
          | inl skip ↦ none_more (match-Matches pattern (c ∷ string) skip)
          | inr eat ↦
              one_more c (
                subst (λ q. Matches (q ∷ pattern) string) e
                  (match-Matches (p ∷ pattern) string eat))
        ])
  | inr (inl (e, m)) ↦
      subst (λ q. Matches (q ∷ pattern) (c ∷ string)) (sym e)
        (any_char c (match-Matches pattern string m))
  | inr (inr (e, m)) ↦
      subst (λ q. Matches (q ∷ pattern) (c ∷ string)) (sym e)
        (same_char c (match-Matches pattern string m))
]

star-match :
    (pattern string : Bytes)
    → pattern_match pattern string ≡ true
    → pattern_match (star ∷ pattern) string ≡ true
unfolding pattern_match
star-match pattern [] h = h
star-match pattern (c ∷ string) h = rw (h) refl

same_step :
    (c : ℕ) (skipped both : Bool)
    → both ≡ true
    → (c ≡ star → skipped ≡ true)
    → (if c == star
        then skipped
        else if c == question
        then both
        else if c == c
        then both
        else false)
      ≡ true
same_step c skipped both h k = ground arith

Matches-match :
    (pattern string : Bytes) → Matches pattern string → pattern_match pattern string ≡ true
unfolding pattern_match
Matches-match _ _ end = refl
Matches-match _ _ (none_more {pattern} {string} m) =
    star-match pattern string (Matches-match pattern string m)
Matches-match _ _ (one_more {pattern} {string} c m) =
    true_or _ _ (Matches-match (star ∷ pattern) string m)
Matches-match _ _ (any_char {pattern} {string} c m) = Matches-match pattern string m
Matches-match _ _ (same_char {pattern} {string} c m) =
    same_step c _ _ (Matches-match pattern string m) (λ e. true_or _ _ (
      subst (λ q. pattern_match (q ∷ pattern) string ≡ true) (sym e)
        (star-match pattern string (Matches-match pattern string m))))

-- `pattern_match` succeeds just when the string is one of the pattern's: `*` stands for any string,
-- `?` for any character and every other character for itself.
pub pattern_match-Matches :
    (pattern string : Bytes) → (pattern_match pattern string ≡ true) ↔ Matches pattern string
pattern_match-Matches pattern string = (match-Matches pattern string, Matches-match pattern string)
