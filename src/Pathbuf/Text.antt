-- ===== src/Pathbuf/Text.antt =====
-- The text that a path buffer of src/pathbuf.c holds.
use qdl.Base.{
  ℕ, zero, suc, ◌+◌, ◌-◌, ◌≤◌, ◌<◌, ◌≡◌, refl, sym, ap, ◌∙◌, Bool, ◌&&◌, not, [], ◌∷◌, ◌++◌,
  append_assoc, Bytes, length, length-append, length-drop, length-take, take, take-append_exact,
  drop, get_or, ltb, ltb→lt, ◌==◌, if◌then◌else◌, subst, either, Bool-cases, inl, inr, arith,
}
use qdl.Pathbuf.{
  Pathbuf, Result, pushed, too_long, path_is_absolute, skip_dot, skip_seps, ends_in_sep, copied,
  separator, write_at, append, qdl_pathbuf_push,
}

-- The array has its size and holds the text, in front of a NUL, and the length is that of the text.
pub record Holds (p : Pathbuf) (text : Bytes) : Type 0 where
  pub more : Bytes
  pub buf_lem : p.buf ≡ text ++ 0 ∷ more
  pub len_lem : p.len ≡ length text
  pub size_lem : length p.buf ≡ 4096

-- A write inside of the buffer keeps its size.
length-write_at :
    (buf bytes : Bytes) (n : ℕ)
    → n + length bytes ≤ length buf
    → length (write_at buf n bytes) ≡ length buf
length-write_at buf bytes n l = omega (
  arith,
  l,
  length-append {0} (take n buf) (bytes ++ drop (n + length bytes) buf),
  length-append {0} bytes (drop (n + length bytes) buf),
  length-drop {0} (n + length bytes) buf,
  length-take {0} n buf,
)

write_at-append :
    (a rest bytes : Bytes)
    → write_at (a ++ rest) (length a) bytes
      ≡ a ++ (bytes ++ drop (length a + length bytes) (a ++ rest))
write_at-append a rest bytes = rw (take-append_exact a rest) refl

-- A separator and more bytes are written behind a beginning of the buffer.
append-Holds :
    (p : Pathbuf) (base rest sep s : Bytes)
    → p.buf ≡ base ++ rest
    → length p.buf ≡ 4096
    → length base + length sep + length s + 1 ≤ 4096
    → Holds
        (record {
          buf =
              write_at (write_at p.buf (length base) sep) (length base + length sep) (s ++ 0 ∷ []);
          len = length base + length sep + length s;
        })
        ((base ++ sep) ++ s)
append-Holds p base rest sep s e size l =
    let first = write_at p.buf (length base) sep in
    let behind = drop (length base + length sep) p.buf in
    let one : first ≡ (base ++ sep) ++ behind =
      ap (λ (b : Bytes). write_at b (length base) sep) e
      ∙ write_at-append base rest sep
      ∙ sym (append_assoc base sep (drop (length base + length sep) (base ++ rest)))
      ∙ ap (λ (b : Bytes). (base ++ sep) ++ drop (length base + length sep) b) (sym e) in
    let width : length (base ++ sep) ≡ length base + length sep = length-append base sep in
    let far = drop (length (base ++ sep) + length (s ++ 0 ∷ [])) ((base ++ sep) ++ behind) in
    let two : write_at first (length base + length sep) (s ++ 0 ∷ [])
        ≡ ((base ++ sep) ++ s) ++ 0 ∷ far =
      ap (λ (k : ℕ). write_at first k (s ++ 0 ∷ [])) (sym width)
      ∙ ap (λ (b : Bytes). write_at b (length (base ++ sep)) (s ++ 0 ∷ [])) one
      ∙ write_at-append (base ++ sep) behind (s ++ 0 ∷ [])
      ∙ ap (λ (t : Bytes). (base ++ sep) ++ t) (append_assoc s (0 ∷ []) far)
      ∙ sym (append_assoc (base ++ sep) s (0 ∷ far)) in
    let size_one : length first ≡ length p.buf =
      length-write_at p.buf sep (length base) (omega (arith, size, l)) in
    record {
      more = far;
      buf_lem = two;
      len_lem = omega (arith, length-append {0} (base ++ sep) s, width);
      size_lem =
          length-write_at first (s ++ 0 ∷ []) (length base + length sep)
            (omega (arith, size, l, size_one, length-append {0} s (0 ∷ [])))
          ∙ size_one
          ∙ size;
    }

get_or-append : (a rest : Bytes) (n : ℕ) → n < length a → get_or (a ++ rest) n 0 ≡ get_or a n 0
get_or-append [] rest n l = absurd (omega (arith, l))
get_or-append (c ∷ a) rest zero l = refl
get_or-append (c ∷ a) rest (suc n) l = get_or-append a rest n (omega (arith, l))

ends_in_sep-append :
    (a rest : Bytes) → ends_in_sep (a ++ rest) (length a) ≡ ends_in_sep a (length a)
ends_in_sep-append [] rest = refl
ends_in_sep-append (c ∷ a) rest =
    ap (λ (d : ℕ). ltb 0 (length (c ∷ a)) && (d == b'/'))
      (get_or-append (c ∷ a) rest (length (c ∷ a) - 1) (omega arith))

abbrev pub kept_text : Bytes → Bytes → Bytes
kept_text text component = if path_is_absolute component then [] else text

abbrev pub joined : Bytes → Bytes → Bytes → Bytes
joined text base [] = text
joined text base (c ∷ s) = (base ++ separator base (length base)) ++ c ∷ s

-- The text behind a push: the component stands behind the text, or alone where it is absolute.
abbrev pub pushed_text : Bytes → Bytes → Bytes
pushed_text text component =
    let base = kept_text text component in joined text base (copied base (length base) component)

-- A push that fails changes nothing, and its text would not fit with a NUL.
abbrev pub Pushes : Pathbuf → Bytes → Result × Pathbuf → Type 0
Pushes p text (pushed, q) = Holds q text
Pushes p text (too_long, q) = (q ≡ p) × (4096 ≤ length text)

append-Pushes :
    (p : Pathbuf) (text base rest s : Bytes)
    → Holds p text
    → p.buf ≡ base ++ rest
    → Pushes p (joined text base s) (append p (length base) (separator base (length base)) s)
unfolding append
append-Pushes p text base rest [] h e = h
append-Pushes p text base rest (c ∷ s) h e =
    let sep = separator base (length base) in
    let end = length base + length sep + length (c ∷ s) in
    let size = length-append {0} (base ++ sep) (c ∷ s) in
    let width = length-append {0} base sep in
    elim (Bool-cases (ltb 4096 (end + 1))) [
      | inl k ↦ rw k (refl, omega (arith, ltb→lt 4096 (end + 1) k, size, width))
      | inr k ↦ rw k (append-Holds p base rest sep (c ∷ s) e h.size_lem (ground (arith, k)))
    ]

-- What stands behind the text in the array makes no difference.
append-text :
    (p : Pathbuf) (text s : Bytes)
    → Holds p text
    → append p p.len (separator p.buf p.len) (copied p.buf p.len s)
      ≡ append p (length text) (separator text (length text)) (copied text (length text) s)
append-text p text s h =
    let same_end : ends_in_sep p.buf (length text) ≡ ends_in_sep text (length text) =
      ap (λ (b : Bytes). ends_in_sep b (length text)) h.buf_lem
      ∙ ends_in_sep-append text (0 ∷ h.more) in
    ap (λ (n : ℕ). append p n (separator p.buf n) (copied p.buf n s)) h.len_lem
    ∙ ap
        (λ (b : Bool).
          append p (length text) (if ltb 0 (length text) && not b then b'/' ∷ [] else [])
            (if b then skip_seps (skip_dot s) else skip_dot s))
        same_end

-- What the code's own tests make of the text and the component.
pub push-pushed_text :
    (p : Pathbuf) (text component : Bytes)
    → Holds p text
    → Pushes p (pushed_text text component) (qdl_pathbuf_push p component)
unfolding qdl_pathbuf_push
push-pushed_text p text [] h =
    either (λ (t : Bytes). Holds p (joined text text t)) (ends_in_sep text (length text)) h h
push-pushed_text p text (c ∷ s) h = elim (Bool-cases (path_is_absolute (c ∷ s))) [
  | inl e ↦ rw e (append-Pushes p text [] p.buf (copied [] 0 (c ∷ s)) h refl)
  | inr e ↦ rw e (
      subst (Pushes p (joined text text (copied text (length text) (c ∷ s))))
        (sym (append-text p text (c ∷ s) h))
        (append-Pushes p text text (0 ∷ h.more) (copied text (length text) (c ∷ s)) h h.buf_lem))
]
