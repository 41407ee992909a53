-- ===== src/Util/Specifier.antt =====
-- The file name and the selector of `qdl_split_specifier` in src/util.c.
use qdl.Base.{
  ℕ, suc, ◌+◌, ◌≡◌, refl, sym, ◌∙◌, ap, Bool, true, false, Option, none, some, [], ◌∷◌, ◌++◌, Bytes,
  take-append_exact, drop, length, strstr, starts_with, one_further, codes, if◌then◌else◌, arith,
}
use qdl.Util.{qdl_split_specifier, split_at, is_last, nothing, nonempty}

abbrev separator : Bytes
separator = codes "::"

-- No two colons follow each other.
abbrev pub HasNoSeparator : Bytes → Type 0
HasNoSeparator s = strstr s (codes "::") ≡ none

abbrev pub join : Bytes → Bytes → Bytes
join file selector = file ++ (b':' ∷ b':' ∷ selector)

drop-join : (file selector : Bytes) → drop (length file + 2) (join file selector) ≡ selector
drop-join [] selector = refl
drop-join (c ∷ file) selector =
    let e : suc (length file) + 2 ≡ suc (length file + 2) = omega arith in
    rw e (drop-join file selector)

-- No text is found at a place or behind it.
not_found :
    (here : Bool) (o : Option ℕ)
    → (if here then some 0 else one_further o) ≡ none
    → (here ≡ false) × (o ≡ none)
not_found true o h = absurd (cc)
not_found false none h = (refl, refl)
not_found false (some n) h = absurd (cc)

-- The first two characters are the same with a selector and without.
starts-join :
    (c : ℕ) (file selector : Bytes)
    → starts_with separator (c ∷ file ++ b':' ∷ []) ≡ starts_with separator (c ∷ join file selector)
starts-join c [] selector = refl
starts-join c (d ∷ file) selector = refl

strstr-join :
    (file selector : Bytes)
    → HasNoSeparator (file ++ b':' ∷ [])
    → strstr (join file selector) separator ≡ some (length file)
strstr-join [] selector h = refl
strstr-join (c ∷ file) selector h =
    let (here, behind) = not_found (starts_with separator (c ∷ file ++ b':' ∷ [])) _ h in
    rw (sym (starts-join c file selector) ∙ here, strstr-join file selector behind) refl

is_last-join :
    (file selector : Bytes) (o : Option ℕ)
    → strstr selector separator ≡ o
    → is_last (join file selector) (some (length file)) ≡ nothing o
unfolding is_last
is_last-join file selector o e =
    ap (λ t. nothing (strstr t separator)) (drop-join file selector) ∙ ap nothing e

split_at-join :
    (c d : ℕ) (file selector : Bytes)
    → split_at (join (c ∷ file) (d ∷ selector)) (some (suc (length file)))
      ≡ some (c ∷ file, some (d ∷ selector))
unfolding split_at nonempty
split_at-join c d file selector =
    rw (drop-join (c ∷ file) (d ∷ selector), take-append_exact file (b':' ∷ b':' ∷ d ∷ selector))
      refl

-- The separator that stands first decides.
split-join :
    (file selector : Bytes) (o : Option ℕ)
    → HasNoSeparator (file ++ b':' ∷ [])
    → strstr selector separator ≡ o
    → qdl_split_specifier (join file selector)
      ≡ (if nothing o then split_at (join file selector) (some (length file)) else none)
unfolding qdl_split_specifier
split-join [] selector o k e = rw (is_last-join [] selector o e) refl
split-join (c ∷ file) selector o k e =
    ap
      (λ (place : Option ℕ).
        if is_last (join (c ∷ file) selector) place
        then split_at (join (c ∷ file) selector) place
        else none)
      (strstr-join (c ∷ file) selector k)
    ∙ ap
        (λ (b : Bool).
          if b then split_at (join (c ∷ file) selector) (some (suc (length file))) else none)
        (is_last-join (c ∷ file) selector o e)

-- qdl_split_specifier takes a file name and a selector apart at the separator that joins them, if the
-- name does not end in a colon and neither holds a separator nor is empty.
pub qdl_split_specifier-join :
    (c d : ℕ) (file selector : Bytes)
    → HasNoSeparator ((c ∷ file) ++ b':' ∷ [])
    → HasNoSeparator (d ∷ selector)
    → qdl_split_specifier (join (c ∷ file) (d ∷ selector)) ≡ some (c ∷ file, some (d ∷ selector))
unfolding nothing
qdl_split_specifier-join c d file selector k h =
    split-join (c ∷ file) (d ∷ selector) none k h ∙ split_at-join c d file selector

-- qdl_split_specifier refuses a text in which two separators or more stand apart, whatever stands in
-- front of, between and behind them, if what is in front of each neither holds a separator nor ends
-- in a colon.
pub qdl_split_specifier-twice :
    (file selector more : Bytes)
    → HasNoSeparator (file ++ b':' ∷ [])
    → HasNoSeparator (selector ++ b':' ∷ [])
    → qdl_split_specifier (join file (join selector more)) ≡ none
unfolding nothing
qdl_split_specifier-twice file selector more k h =
    split-join file (join selector more) (some (length selector)) k (strstr-join selector more h)
