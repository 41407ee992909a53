-- ===== src/Pathbuf/Join.antt =====
-- Where a component stands behind a push to a path buffer of src/pathbuf.c.
use qdl.Base.{
  ℕ, ◌+◌, ◌-◌, ◌≡◌, ◌≢◌, refl, sym, ap, ◌∙◌, subst, Bool, true, false, ◌&&◌, not, [], ◌∷◌, ◌++◌,
  append-nil, append_assoc, Bytes, length, length-append, get_or, ltb, lt→ltb, ◌==◌, if◌then◌else◌,
  ==_iff, ◌⊎◌, Bool-cases, either, inl, inr, arith,
}
use qdl.Pathbuf.{Pathbuf, skip_dot, skip_seps, ends_in_sep, copied, separator, qdl_pathbuf_push}
use qdl.Pathbuf.Text.{Holds, Pushes, joined, pushed_text, push-pushed_text}

abbrev pub IsDotted : Bytes → Type 0
IsDotted (c ∷ d ∷ s) = (c ≡ b'.') × (d ≡ b'/')
IsDotted _ = ⊥

abbrev pub StartsWithSep : Bytes → Type 0
StartsWithSep [] = ⊥
StartsWithSep (c ∷ s) = c ≡ b'/'

-- The component without `./` in front of it, once.
pub data WithoutDot : Bytes → Bytes → Type 0 where
  dotted : (s : Bytes) → WithoutDot (b'.' ∷ b'/' ∷ s) s
  plain : {s : Bytes} → ¬ IsDotted s → WithoutDot s s

-- `rest` without all `/` in front of it.
pub data WithoutSeps : Bytes → Bytes → Type 0 where
  none_in_front : {s : Bytes} → ¬ StartsWithSep s → WithoutSeps s s
  one_in_front : {s t : Bytes} → WithoutSeps s t → WithoutSeps (b'/' ∷ s) t

-- The path that a component makes of a text: an absolute component is the path. Of another one, `./` in
-- front is left out, and it stands behind the text with one `/` between them, unless the text is empty:
-- behind a text that ends in `/`, the `/` in front of it are left out. Where nothing remains of it,
-- the text is left as it is.
pub data Joins (text : Bytes) : Bytes → Bytes → Type 0 where
  no_component : Joins text [] text
  replaces : (s : Bytes) → Joins text (b'/' ∷ s) (b'/' ∷ s)
  starts :
      {component : Bytes} (rest : Bytes)
      → text ≡ []
      → ¬ StartsWithSep component
      → WithoutDot component rest
      → Joins text component rest
  follows :
      {component : Bytes} (front : Bytes) (last d : ℕ) (rest : Bytes)
      → text ≡ front ++ last ∷ []
      → last ≢ b'/'
      → ¬ StartsWithSep component
      → WithoutDot component (d ∷ rest)
      → Joins text component (text ++ b'/' ∷ d ∷ rest)
  adds_nothing :
      {component : Bytes} (front : Bytes) (last : ℕ)
      → text ≡ front ++ last ∷ []
      → last ≢ b'/'
      → ¬ StartsWithSep component
      → WithoutDot component []
      → Joins text component text
  follows_sep :
      {component : Bytes} (front undotted rest : Bytes)
      → text ≡ front ++ b'/' ∷ []
      → ¬ StartsWithSep component
      → WithoutDot component undotted
      → WithoutSeps undotted rest
      → Joins text component (text ++ rest)

skip_dot-WithoutDot : (s : Bytes) → WithoutDot s (skip_dot s)
skip_dot-WithoutDot [] = plain (λ (x : ⊥). x)
skip_dot-WithoutDot (c ∷ []) = plain (λ (x : ⊥). x)
skip_dot-WithoutDot (c ∷ d ∷ s) = elim (Bool-cases (c == b'.' && d == b'/')) [
  | inl e ↦
      let dot : c ≡ b'.' = ground (arith, e) in
      let sep : d ≡ b'/' = ground (arith, e) in
      rw e (
        subst (λ (x : ℕ). WithoutDot (x ∷ d ∷ s) s) (sym dot)
          (subst (λ (x : ℕ). WithoutDot (b'.' ∷ x ∷ s) s) (sym sep) (dotted s)))
  | inr e ↦ rw e (plain (λ (x : (c ≡ b'.') × (d ≡ b'/')). not_both e x))
]
  where
    not_both : (c == b'.' && d == b'/') ≡ false → (c ≡ b'.') × (d ≡ b'/') → ⊥
    not_both e (x, y) = ground (arith, e, x, y)

skip_seps-WithoutSeps : (s : Bytes) → WithoutSeps s (skip_seps s)
skip_seps-WithoutSeps [] = none_in_front (λ (x : ⊥). x)
skip_seps-WithoutSeps (c ∷ s) = elim (Bool-cases (c == b'/')) [
  | inl e ↦
      let sep : c ≡ b'/' = (==_iff c b'/').0 e in
      rw e (
        subst (λ (x : ℕ). WithoutSeps (x ∷ s) (skip_seps s)) (sym sep)
          (one_in_front (skip_seps-WithoutSeps s)))
  | inr e ↦ rw e (none_in_front (λ (x : c ≡ b'/'). other e x))
]
  where
    other : (c == b'/') ≡ false → c ≡ b'/' → ⊥
    other e x = ground (arith, e, x)

-- A text is empty or has a last character.
record Snoc (text : Bytes) : Type 0 where
  front : Bytes
  last : ℕ
  snoc_lem : text ≡ front ++ last ∷ []

record Cons (text : Bytes) : Type 0 where
  first : ℕ
  others : Bytes
  cons_lem : text ≡ first ∷ others

Bytes-cases : (text : Bytes) → (text ≡ []) ⊎ Cons text
Bytes-cases [] = inl refl
Bytes-cases (c ∷ s) = inr (record { first = c; others = s; cons_lem = refl })

cons-Snoc : (c : ℕ) (s : Bytes) → Snoc (c ∷ s)
cons-Snoc c [] = record { front = []; last = c; snoc_lem = refl }
cons-Snoc c (d ∷ s) =
    let t = cons-Snoc d s in
    record { front = c ∷ t.front; last = t.last; snoc_lem = ap (λ l. c ∷ l) t.snoc_lem }

get_or-last : (front : Bytes) (x : ℕ) → get_or (front ++ x ∷ []) (length front) 0 ≡ x
get_or-last [] x = refl
get_or-last (c ∷ front) x = get_or-last front x

ends_in_sep-snoc :
    (front : Bytes) (x : ℕ) → ends_in_sep (front ++ x ∷ []) (length (front ++ x ∷ [])) ≡ (x == b'/')
ends_in_sep-snoc front x =
    let n = length (front ++ x ∷ []) in
    let size : n ≡ length front + 1 = length-append front (x ∷ []) in
    let pos : ltb 0 n ≡ true = lt→ltb 0 n (omega (arith, size)) in
    let before : n - 1 ≡ length front = omega (arith, size) in
    ap (λ (b : Bool). b && (get_or (front ++ x ∷ []) (n - 1) 0 == b'/')) pos
    ∙ ap (λ (k : ℕ). get_or (front ++ x ∷ []) k 0 == b'/') before
    ∙ ap (λ (c : ℕ). c == b'/') (get_or-last front x)

module _ (front : Bytes) (x : ℕ) (component : Bytes) (relative : ¬ StartsWithSep component) where
  abbrev whole : Bytes
  whole = front ++ x ∷ []

  abbrev size : ℕ
  size = length whole

  not_empty : ltb 0 size ≡ true
  not_empty = lt→ltb 0 size (omega (arith, length-append {0} front (x ∷ [])))

  behind_other :
      (rest : Bytes)
      → x ≢ b'/'
      → WithoutDot component rest
      → Joins whole component (joined whole (whole) rest)
  behind_other [] n d = adds_nothing front x refl n relative d
  behind_other (c ∷ rest) n d =
      let no_sep : ends_in_sep whole size ≡ false = ends_in_sep-snoc front x ∙ ground (arith, n) in
      let sep : separator whole size ≡ b'/' ∷ [] = separator_of (ltb 0 size) _ not_empty no_sep in
      subst (Joins whole component)
        (sym (append_assoc whole (b'/' ∷ []) (c ∷ rest))
          ∙ ap (λ (t : Bytes). (whole ++ t) ++ c ∷ rest) (sym sep))
        (follows front x c rest refl n relative d)
    where
      separator_of :
          (b e : Bool)
          → b ≡ true
          → e ≡ false
          → ◌≡◌ {A = Bytes} (if◌then◌else◌ {A = Bytes} (b && not e) (b'/' ∷ []) []) (b'/' ∷ [])
      separator_of b e p q = rw (p, q) refl

  behind_sep :
      (undotted rest : Bytes)
      → x ≡ b'/'
      → WithoutDot component undotted
      → WithoutSeps undotted rest
      → Joins whole component (joined whole whole rest)
  behind_sep undotted [] e d w =
      subst (Joins whole component) (append-nil whole)
        (follows_sep front undotted [] (ap (λ (c : ℕ). front ++ c ∷ []) e) relative d w)
  behind_sep undotted (c ∷ rest) e d w =
      let ends : ends_in_sep whole size ≡ true = ends_in_sep-snoc front x ∙ ground (arith, e) in
      let sep : separator whole size ≡ [] = no_separator (ltb 0 size) _ ends in
      subst (Joins whole component)
        (ap (λ (t : Bytes). t ++ c ∷ rest) (sym (append-nil whole))
          ∙ ap (λ (t : Bytes). (whole ++ t) ++ c ∷ rest) (sym sep))
        (follows_sep front undotted (c ∷ rest) (ap (λ (c : ℕ). front ++ c ∷ []) e) relative d w)
    where
      no_separator :
          (b e : Bool)
          → e ≡ true
          → ◌≡◌ {A = Bytes} (if◌then◌else◌ {A = Bytes} (b && not e) (b'/' ∷ []) []) []
      no_separator true e q = rw q refl
      no_separator false e q = refl

  behind_text : Joins whole component (joined whole whole (copied whole size component))
  behind_text =
      let at_end = ends_in_sep-snoc front x in
      let undotted = skip_dot-WithoutDot component in
      elim (Bool-cases (x == b'/')) [
        | inl e ↦ rw (at_end ∙ e) (
            behind_sep (skip_dot component) (skip_seps (skip_dot component)) ((==_iff x b'/').0 e)
              undotted (skip_seps-WithoutSeps (skip_dot component)))
        | inr e ↦
            rw (at_end ∙ e)
              (behind_other (skip_dot component) (λ (p : x ≡ b'/'). other e p) undotted)
      ]
    where
      other : (x == b'/') ≡ false → x ≡ b'/' → ⊥
      other e p = ground (arith, e, p)

-- An absolute component is not one that `./` is left out of.
absolute : (text : Bytes) (c : ℕ) (s : Bytes) → c ≡ b'/' → joined text [] (skip_dot (c ∷ s)) ≡ c ∷ s
absolute text c [] e = refl
absolute text c (d ∷ s) e = let no_dot : (c == b'.') ≡ false = ground (arith, e) in rw no_dot refl

alone : (component : Bytes) → joined [] [] (skip_dot component) ≡ skip_dot component
alone component = elim (Bytes-cases (skip_dot component)) [
  | inl e ↦ rw e refl
  | inr e ↦ rw e.cons_lem refl
]

relative-Joins :
    (text component : Bytes)
    → ¬ StartsWithSep component
    → Joins text component (joined text text (copied text (length text) component))
relative-Joins [] component r =
    subst (Joins [] component) (sym (alone component))
      (starts (skip_dot component) refl r (skip_dot-WithoutDot component))
relative-Joins (c ∷ t) component r =
    let last = cons-Snoc c t in
    subst
      (λ (text : Bytes).
        Joins text component (joined text text (copied text (length text) component)))
      (sym last.snoc_lem) (behind_text last.front last.last component r)

-- The text that the code makes is the one that the relation says.
pushed_text-Joins : (text component : Bytes) → Joins text component (pushed_text text component)
pushed_text-Joins text [] =
    either (λ (t : Bytes). Joins text [] (joined text text t)) (ends_in_sep text (length text))
      no_component no_component
pushed_text-Joins text (c ∷ s) = elim (Bool-cases (c == b'/')) [
  | inl e ↦
      let sep : c ≡ b'/' = (==_iff c b'/').0 e in
      rw e (
        subst (Joins text (c ∷ s)) (sym (absolute text c s sep))
          (subst (λ (d : ℕ). Joins text (d ∷ s) (d ∷ s)) (sym sep) (replaces s)))
  | inr e ↦ rw e (relative-Joins text (c ∷ s) (λ (p : c ≡ b'/'). other e p))
]
  where
    other : (c == b'/') ≡ false → c ≡ b'/' → ⊥
    other e p = ground (arith, e, p)

-- On a path buffer that holds a text, qdl_pathbuf_push leaves one that holds the text and the component
-- joined: an absolute component alone, or else the component without one `./` in front of it behind
-- the text, with one `/` between them unless the text is empty, where a text that ends in `/` takes
-- it without the `/` in front of it. Or it says that the path is too long, which is when the path and its NUL
-- need more than 4096 bytes, and changes nothing. Only one `./` is left out, so that `.//file` on an
-- empty path is `/file`.
pub qdl_pathbuf_push-Joins :
    (p : Pathbuf) (text component : Bytes)
    → Holds p text
    → (path : Bytes) × Joins text component path × Pushes p path (qdl_pathbuf_push p component)
qdl_pathbuf_push-Joins p text component h = (
  pushed_text text component,
  pushed_text-Joins text component,
  push-pushed_text p text component h,
)
