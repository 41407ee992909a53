-- ===== src/Firehose/Fetch/Chunk.antt =====
-- A chunk of `firehose_issue_read` of src/firehose.c: it is read, in pieces, and stored.
use qdl.Base.{
  ℕ, zero, suc, ◌-◌, ◌≤◌, ◌≡◌, refl, sym, ap, ◌∙◌, Bool, true, false, Option, none, some, [], ◌∷◌,
  ◌++◌, Bytes, length, take, append_assoc, append-nil, take-nil, arith, length-append, length-take,
  Bool-cases, inl, inr, ltb, ◌==◌, ==_iff, take_all,
}
use qdl.Io.{Rx, got, failed}
use qdl.Io.Refine.{IsValid}
use qdl.Firehose.{Env, Host}
use qdl.Firehose.Send.Valid.{device_read-HasValidBuffer}
use qdl.Firehose.Fetch.{Sink, to_file, to_buffer, store, got_some, fill_rounds}
use qdl.Firehose.Fetch.Incoming.{incoming, TakesFrom, device_read-Takes}

-- A file grows by the bytes; a buffer takes what fits.
abbrev pub Stored : Sink → Bytes → Sink → Type 0
Stored (to_file content rs) bytes (to_file content' rs') = content' ≡ content ++ bytes
Stored (to_buffer content size) bytes (to_buffer content' size') =
    (size' ≡ size) × (content' ≡ content ++ take (size - length content) bytes)
Stored _ _ _ = ⊥

take-append : (k : ℕ) (a b : Bytes) → take k (a ++ b) ≡ take k a ++ take (k - length a) b
take-append zero a b = ap (λ m. take m b) {x = 0} {y = 0 - length a} (omega arith)
take-append (suc k) [] b = ap (λ m. take m b) {x = suc k} {y = suc k - 0} (omega arith)
take-append (suc k) (x ∷ a) b =
    ap (λ t. x ∷ t)
      (take-append k a b
        ∙ ap (λ m. take k a ++ take m b) {x = k - length a} {y = suc k - suc (length a)}
            (omega arith))

pub Stored-append :
    (s1 s2 s3 : Sink) (a b : Bytes) → Stored s1 a s2 → Stored s2 b s3 → Stored s1 (a ++ b) s3
Stored-append (to_file c rs) (to_file c2 rs2) (to_file c3 rs3) a b p q =
    q ∙ ap (λ t. t ++ b) p ∙ append_assoc c a b
Stored-append (to_buffer c n) (to_buffer c2 n2) (to_buffer c3 n3) a b (e, p) (f, q) = (
  f ∙ e,
  q
      ∙ (λ i. p i ++ take (e i - length (p i)) b)
      ∙ append_assoc c (take (n - length c) a) (take (n - length (c ++ take (n - length c) a)) b)
      ∙ ap (λ m. c ++ (take (n - length c) a ++ take m b))
          {x = n - length (c ++ take (n - length c) a)} {y = n - length c - length a}
          (omega
            (arith, length-append {0} c (take (n - length c) a), length-take {0} (n - length c) a))
      ∙ ap (λ t. c ++ t) (sym (take-append (n - length c) a b)),
)
Stored-append (to_file c rs) (to_file c2 rs2) (to_buffer c3 n3) a b p q = q
Stored-append (to_file c rs) (to_buffer c2 n2) s3 a b p q = absurd p
Stored-append (to_buffer c n) (to_file c2 rs2) s3 a b p q = absurd p
Stored-append (to_buffer c n) (to_buffer c2 n2) (to_file c3 rs3) a b p q = q

pub Stored-nil : (s : Sink) → Stored s [] s
Stored-nil (to_file c rs) = sym (append-nil c)
Stored-nil (to_buffer c n) =
    (refl, sym (ap (λ t. c ++ t) (take-nil ℕ (n - length c)) ∙ append-nil c))

-- What `store` does when it succeeds.
unfoldable pub OnStored : Sink → Bytes → Bool × Sink → Type 0
OnStored s bytes (false, s') = Unit
OnStored s bytes (true, s') = Stored s bytes s'

pub store-Stored : (s : Sink) (bytes : Bytes) → OnStored s bytes (store s bytes)
unfolding store OnStored
store-Stored (to_buffer c n) bytes = (refl, refl)
store-Stored (to_file c []) bytes = refl
store-Stored (to_file c (none ∷ rs)) bytes = tt
store-Stored (to_file c (some n ∷ rs)) bytes = elim (Bool-cases (n == length bytes)) [
  | inl e ↦
      rw e (ap (λ t. c ++ t) (take_all n bytes (omega (arith, (==_iff n (length bytes)).0 e))))
  | inr e ↦ rw e tt
]

module _ {G : Type 0} (env : Env G) where
  -- `bytes` were read between two points in time.
  pub record Took (h : Host G) (bytes : Bytes) (h' : Host G) : Type 0 where
    pub split : incoming h ≡ bytes ++ incoming h'
    pub valid : IsValid h'.pending

  pub Took-append :
      (h1 h2 h3 : Host G) (a b : Bytes) → Took h1 a h2 → Took h2 b h3 → Took h1 (a ++ b) h3
  Took-append h1 h2 h3 a b p q = record {
    split = p.split ∙ ap (λ t. a ++ t) q.split ∙ sym (append_assoc a b (incoming h3));
    valid = q.valid;
  }

  -- A chunk: `buf` was there before, and it is filled up to `want` bytes.
  pub record Filled (want : ℕ) (buf : Bytes) (h : Host G) (buf' : Bytes) (h' : Host G)
      : Type 0 where
    pub more : Bytes
    pub buf_lem : buf' ≡ buf ++ more
    pub took : Took h more h'
    pub full : length buf' ≡ want

  abbrev pub OnFilled : ℕ → Bytes → Host G → Option (Option Bytes × Host G) → Type 0
  OnFilled want buf h none = Unit
  OnFilled want buf h (some (none, h')) = Unit
  OnFilled want buf h (some (some buf', h')) = Filled want buf h buf' h'

  unfoldable pub FillsFrom : ℕ → (Bytes → Host G → Option (Option Bytes × Host G)) → Type 0
  FillsFrom want next =
      (buf : Bytes) (h : Host G)
      → IsValid h.pending
      → length buf ≤ want
      → OnFilled want buf h (next buf h)

  got_some-Filled :
      (want : ℕ) (next : Bytes → Host G → Option (Option Bytes × Host G)) (buf : Bytes) (h : Host G)
      (out : Rx × Host G)
      → FillsFrom want next
      → length buf ≤ want
      → IsValid out.1.pending
      → TakesFrom h (want - length buf) out
      → OnFilled want buf h (got_some env next buf out)
  unfolding got_some FillsFrom
  got_some-Filled want next buf h (failed e, h') ih l v t = tt
  got_some-Filled want next buf h (got bytes, h') ih l v (e, b) =
      behind (next (buf ++ bytes) h')
        (ih (buf ++ bytes) h' v (omega (arith, length-append {0} buf bytes)))
    where
      behind :
          (out : Option (Option Bytes × Host G))
          → OnFilled want (buf ++ bytes) h' out
          → OnFilled want buf h out
      behind none f = tt
      behind (some (none, h'')) f = tt
      behind (some (some buf', h'')) f = record {
        more = bytes ++ f.more;
        buf_lem = f.buf_lem ∙ append_assoc buf bytes f.more;
        took = Took-append h h' h'' bytes f.more (record { split = e; valid = v }) f.took;
        full = f.full;
      }

  pub fill_rounds-Filled : (rounds want : ℕ) → FillsFrom want (fill_rounds env rounds want)
  unfolding fill_rounds FillsFrom
  fill_rounds-Filled zero want buf h v l = tt
  fill_rounds-Filled (suc rounds) want buf h v l = elim (Bool-cases (ltb (length buf) want)) [
    | inl e ↦ rw e (
        got_some-Filled want (fill_rounds env rounds want) buf h _ (fill_rounds-Filled rounds want)
          l (device_read-HasValidBuffer h (want - length buf) 30000 v)
          (device_read-Takes h (want - length buf) 30000 v))
    | inr e ↦ rw e (record {
      more = [];
      buf_lem = sym (append-nil buf);
      took = record { split = refl; valid = v };
      full = ground arith;
    })
  ]
