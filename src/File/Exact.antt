-- ===== src/File/Exact.antt =====
-- `qdl_file_read_exact` of src/file.c: short reads do not show.
use qdl.Base.{
  ℕ, zero, suc, ◌+◌, ◌-◌, ◌<◌, ◌≤◌, min, ◌≡◌, refl, sym, ap, subst, ◌∙◌, Option, none, some, List,
  [], ◌∷◌, ◌++◌, Bytes, length, take, drop, take-nil, drop-nil, length-take, append-nil, drop-drop,
  take-append-take, ◌⊎◌, inl, inr, ◌==◌, arith, Bool-cases, either, ==_iff,
}
use qdl.File.{
  FileType, unknown, posix, zip, QdlFile, rest, advance, answer, read_as, qdl_file_read, collect,
  exact_rounds, qdl_file_read_exact,
}

-- What reading gave: the next `n` bytes of the file, of which it leaves the rest.
pub record Reads (n : ℕ) (file : QdlFile) (bytes : Bytes) (after : QdlFile) : Type 0 where
  pub bytes_lem : bytes ≡ take n (rest file)
  pub rest_lem : rest after ≡ drop n (rest file)
  pub content_lem : after.content ≡ file.content
  pub type_lem : after.file_type ≡ file.file_type

-- `P` holds of the bytes, if there is no error.
abbrev pub Outcome : (Bytes → QdlFile → Type 0) → Option Bytes × QdlFile → Type 0
Outcome P (none, after) = Unit
Outcome P (some bytes, after) = P bytes after

-- One read: no more than `n` bytes, and none of them only at the end of the file.
record ReadsSome (n : ℕ) (file : QdlFile) (bytes : Bytes) (after : QdlFile) : Type 0 where
  some_lem : Reads (length bytes) file bytes after
  length_lem : length bytes ≤ n
  end_lem : (n ≡ 0) ⊎ ((rest file ≡ []) ⊎ (1 ≤ length bytes))

take-length-take : (n : ℕ) (xs : Bytes) → take n xs ≡ take (length (take n xs)) xs
take-length-take zero xs = refl
take-length-take (suc n) [] = refl
take-length-take (suc n) (x ∷ xs) = ap (λ t. x ∷ t) (take-length-take n xs)

at_end : (n m : ℕ) (xs : Bytes) → 1 ≤ m → (n ≡ 0) ⊎ ((xs ≡ []) ⊎ (1 ≤ length (take (min n m) xs)))
at_end zero m xs h = inl refl
at_end (suc n) m [] h = inr (inl refl)
at_end (suc n) m (x ∷ xs) h = inr (inr (omega (arith, length-take {0} (min (suc n) m) (x ∷ xs))))

advance-ReadsSome :
    (file : QdlFile) (answers : List (Option ℕ)) (n m : ℕ)
    → 1 ≤ m
    → Outcome (ReadsSome n file) (advance file answers (min n m))
unfolding advance
advance-ReadsSome file answers n m h = record {
  some_lem = record {
    bytes_lem = take-length-take (min n m) (rest file);
    rest_lem = sym (drop-drop file.position (length (take (min n m) (rest file))) file.content);
    content_lem = refl;
    type_lem = refl;
  };
  length_lem = omega (arith, length-take {0} (min n m) (rest file));
  end_lem = at_end n m (rest file) h;
}

min_self : (n : ℕ) → min n (suc n) ≡ n
min_self n = omega arith

answer-ReadsSome :
    (file : QdlFile) (answers : List (Option ℕ)) (n : ℕ)
    → Outcome (ReadsSome n file) (answer file answers n)
unfolding answer
answer-ReadsSome file [] n =
    subst (λ k. Outcome (ReadsSome n file) (advance file [] k)) (min_self n)
      (advance-ReadsSome file [] n (suc n) (omega arith))
answer-ReadsSome file (none ∷ answers) n = tt
answer-ReadsSome file (some k ∷ answers) n = advance-ReadsSome file answers n (suc k) (omega arith)

read_as-ReadsSome :
    (t : FileType) (file : QdlFile) (n : ℕ) → Outcome (ReadsSome n file) (read_as t file n)
unfolding read_as
read_as-ReadsSome unknown file n = tt
read_as-ReadsSome posix file n = answer-ReadsSome file file.answers n
read_as-ReadsSome zip file n = answer-ReadsSome file file.answers n

qdl_file_read-ReadsSome :
    (file : QdlFile) (n : ℕ) → Outcome (ReadsSome n file) (qdl_file_read file n)
unfolding qdl_file_read
qdl_file_read-ReadsSome file n = read_as-ReadsSome file.file_type file n

-- One piece of the file behind another.
pub Reads-append :
    (k n : ℕ) (f g h : QdlFile) (acc bytes : Bytes)
    → Reads k f acc g
    → Reads n g bytes h
    → Reads (k + n) f (acc ++ bytes) h
Reads-append k n f g h acc bytes r s = record {
  bytes_lem =
      (λ i. r.bytes_lem i ++ (s.bytes_lem ∙ ap (take n) r.rest_lem) i)
      ∙ take-append-take k n (rest f);
  rest_lem = s.rest_lem ∙ ap (drop n) r.rest_lem ∙ drop-drop k n (rest f);
  content_lem = s.content_lem ∙ r.content_lem;
  type_lem = s.type_lem ∙ r.type_lem;
}

-- At its end a file gives nothing, whatever is asked for.
Reads-nothing :
    (m n : ℕ) (f : QdlFile) (g : QdlFile) → rest f ≡ [] → Reads m f [] g → Reads n f [] g
Reads-nothing m n f g e r = record {
  bytes_lem = sym (ap (take n) e ∙ take-nil ℕ n);
  rest_lem = r.rest_lem ∙ ap (drop m) e ∙ drop-nil ℕ m ∙ sym (ap (drop n) e ∙ drop-nil ℕ n);
  content_lem = r.content_lem;
  type_lem = r.type_lem;
}

Reads-end :
    (k n : ℕ) (f g h : QdlFile) (acc : Bytes)
    → 0 < n
    → Reads k f acc g
    → ReadsSome n g [] h
    → Reads (k + n) f acc h
Reads-end k n f g h acc pos r s = elim (s.end_lem) [
  | inl z ↦ absurd (omega arith)
  | inr (inl e) ↦
      subst (λ t. Reads (k + n) f t h) (append-nil acc)
        (Reads-append k n f g h acc [] r (Reads-nothing 0 n g h e s.some_lem))
  | inr (inr l) ↦ absurd (omega arith)
]

module _ (f : QdlFile) where
  abbrev Reaches : ℕ → Option Bytes × QdlFile → Type 0
  Reaches n out = Outcome (Reads n f) out

  collect-Reads :
      (next : Bytes → QdlFile → ℕ → Option Bytes × QdlFile) (k left rounds : ℕ) (acc : Bytes)
      (g : QdlFile) (out : Option Bytes × QdlFile)
      → 0 < left
      → left ≤ rounds
      → Reads k f acc g
      → Outcome (ReadsSome left g) out
      → ((k' left' : ℕ) (acc' : Bytes) (g' : QdlFile)
          → left' < rounds
          → Reads k' f acc' g'
          → Reaches (k' + left') (next acc' g' left'))
      → Reaches (k + left) (collect next acc left out)
  unfolding collect
  collect-Reads next k left rounds acc g (none, h) pos enough r s ih = tt
  collect-Reads next k left rounds acc g (some [], h) pos enough r s ih =
      Reads-end k left f g h acc pos r s
  collect-Reads next k left rounds acc g (some (b ∷ bytes), h) pos enough r s ih =
      let n = length (b ∷ bytes) in
      subst (λ m. Reaches m (next (acc ++ b ∷ bytes) h (left - n))) {x = (k + n) + (left - n)}
        (omega (arith, s.length_lem))
        (ih (k + n) (left - n) (acc ++ b ∷ bytes) h (omega (arith, s.length_lem))
          (Reads-append k n f g h acc (b ∷ bytes) r s.some_lem))

  exact_rounds-Reads :
      (rounds k left : ℕ) (acc : Bytes) (g : QdlFile)
      → left < rounds
      → Reads k f acc g
      → Reaches (k + left) (exact_rounds rounds acc g left)
  unfolding exact_rounds
  exact_rounds-Reads zero k left acc g h r = absurd (omega arith)
  exact_rounds-Reads (suc rounds) k left acc g h r = elim (Bool-cases (left == 0)) [
    | inl e ↦ rw e (subst (λ m. Reads m f acc g) {x = k} (omega (arith, (==_iff left 0).0 e)) r)
    | inr e ↦ rw e (
        collect-Reads (exact_rounds rounds) k left rounds acc g _ (ground arith) (omega arith) r
          (qdl_file_read-ReadsSome g left) (exact_rounds-Reads rounds))
  ]

-- What reading gives where there is no error.
pub read_exact-Outcome :
    (file : QdlFile) (len : ℕ) → Outcome (Reads len file) (qdl_file_read_exact file len)
unfolding qdl_file_read_exact
read_exact-Outcome file len =
    subst (λ n. Reaches file n (exact_rounds (suc len) [] file len)) {x = 0 + len} (omega arith)
      (exact_rounds-Reads file (suc len) 0 len [] file (omega arith) nothing_read)
  where
    nothing_read : Reads 0 file [] file
    nothing_read = record { bytes_lem = refl; rest_lem = refl; content_lem = refl; type_lem = refl }

-- The reads that were answered up to `left` succeeded, but for the last of them.
pub data FailsAt (left : List (Option ℕ)) : List (Option ℕ) → Type 0 where
  last_fails : FailsAt left (none ∷ left)
  read_before :
      (k : ℕ) {answers : List (Option ℕ)} → FailsAt left answers → FailsAt left (some k ∷ answers)

-- The file is not open, or the last read on the way from `file` to `after` failed and no other one did.
abbrev pub Failed : QdlFile → QdlFile → Type 0
Failed file after = (file.file_type ≡ unknown) ⊎ FailsAt after.answers file.answers

-- What fails from `g` fails from `f`.
abbrev From : QdlFile → QdlFile → Type 0
From f g = (z : QdlFile) → Failed g z → Failed f z

-- An error has its cause in `file`, and what is read on can only fail where `file` can.
abbrev FailsOnly : QdlFile → Option Bytes × QdlFile → Type 0
FailsOnly file (none, after) = Failed file after
FailsOnly file (some bytes, after) = From file after

answer-FailsOnly :
    (file : QdlFile) (answers : List (Option ℕ)) (n : ℕ)
    → file.answers ≡ answers
    → FailsOnly file (answer file answers n)
unfolding answer advance
answer-FailsOnly file [] n e = same
  where
    same : (z : QdlFile) → (file.file_type ≡ unknown) ⊎ FailsAt z.answers [] → Failed file z
    same z (inl t) = inl t
    same z (inr b) = inr (subst (FailsAt z.answers) (sym e) b)
answer-FailsOnly file (none ∷ answers) n e = inr (subst (FailsAt answers) (sym e) last_fails)
answer-FailsOnly file (some k ∷ answers) n e = later
  where
    later : (z : QdlFile) → (file.file_type ≡ unknown) ⊎ FailsAt z.answers answers → Failed file z
    later z (inl t) = inl t
    later z (inr b) = inr (subst (FailsAt z.answers) (sym e) (read_before k b))

read_as-FailsOnly :
    (t : FileType) (file : QdlFile) (n : ℕ) → file.file_type ≡ t → FailsOnly file (read_as t file n)
unfolding read_as
read_as-FailsOnly unknown file n e = inl e
read_as-FailsOnly posix file n e = answer-FailsOnly file file.answers n refl
read_as-FailsOnly zip file n e = answer-FailsOnly file file.answers n refl

module _ (f : QdlFile) where
  collect-FailsOnly :
      (next : Bytes → QdlFile → ℕ → Option Bytes × QdlFile) (acc : Bytes) (left : ℕ) (g : QdlFile)
      (out : Option Bytes × QdlFile)
      → From f g
      → FailsOnly g out
      → ((acc' : Bytes) (g' : QdlFile) (left' : ℕ) → From f g' → FailsOnly f (next acc' g' left'))
      → FailsOnly f (collect next acc left out)
  unfolding collect
  collect-FailsOnly next acc left g (none, h) from o ih = from h o
  collect-FailsOnly next acc left g (some [], h) from o ih =
      λ (z : QdlFile) (c : Failed h z). from z (o z c)
  collect-FailsOnly next acc left g (some (b ∷ bytes), h) from o ih =
      ih (acc ++ b ∷ bytes) h (left - length (b ∷ bytes))
        (λ (z : QdlFile) (c : Failed h z). from z (o z c))

  exact_rounds-FailsOnly :
      (rounds : ℕ) (acc : Bytes) (g : QdlFile) (left : ℕ)
      → From f g
      → FailsOnly f (exact_rounds rounds acc g left)
  unfolding exact_rounds qdl_file_read
  exact_rounds-FailsOnly zero acc g left from = from
  exact_rounds-FailsOnly (suc rounds) acc g left from =
      either (FailsOnly f) (left == 0) {x = (some acc, g)} from (
        collect-FailsOnly (exact_rounds rounds) acc left g _ from
          (read_as-FailsOnly g.file_type g left refl) (exact_rounds-FailsOnly rounds))

-- The bytes are those that were to be read, and an error has a cause.
abbrev pub ReadsOrFails : ℕ → QdlFile → Option Bytes × QdlFile → Type 0
ReadsOrFails len file (none, after) = Failed file after
ReadsOrFails len file (some bytes, after) = Reads len file bytes after

-- `qdl_file_read_exact` reads the next `len` bytes of a file, or those that are left, and leaves the
-- rest, however short the single reads are. It fails only for a file that is not open or when a single
-- read fails.
pub qdl_file_read_exact-Reads :
    (file : QdlFile) (len : ℕ) → ReadsOrFails len file (qdl_file_read_exact file len)
unfolding qdl_file_read_exact
qdl_file_read_exact-Reads file len =
    both (qdl_file_read_exact file len) (read_exact-Outcome file len)
      (exact_rounds-FailsOnly file (suc len) [] file len (λ (z : QdlFile) (c : Failed file z). c))
  where
    both :
        (out : Option Bytes × QdlFile)
        → Outcome (Reads len file) out
        → FailsOnly file out
        → ReadsOrFails len file out
    both (none, after) r o = o
    both (some bytes, after) r o = r
