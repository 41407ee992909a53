-- ===== src/Vip/Generator/Ends.antt =====
-- A postcondition for the calls of the generator: a call ends well, or some library call failed.
use qdl.Base.{
  ℕ, zero, suc, ◌+◌, ◌-◌, ◌*◌, ◌/◌, ◌≤◌, ◌≡◌, ◌≢◌, refl, ap, sym, subst, ◌∙◌, Bool, true, false,
  Option, none, some, [], ◌++◌, Bytes, length, take, drop, min, length-take, length-drop,
  take-append-take, drop-drop, append_assoc, append-nil, Bool-cases, inl, inr, ◌==◌, if◌then◌else◌,
  arith, ==_iff,
}
use qdl.Vip.Generator.{
  Sha256, Dest, digests_to_sign, chained_table, Disk, content, put, M, and_then, verdict,
  write_output_file, write_digests_to_table, update_if, copy_loop,
}

abbrev pub same : Dest → Dest → Bool
same digests_to_sign digests_to_sign = true
same (chained_table i) (chained_table j) = i == j
same _ _ = false

-- Of the files only `x` changed, and it now holds `b`.
pub record Writes (x : Dest) (b : Bytes) (d e : Disk) : Type 0 where
  pub table : e.digest_table ≡ d.digest_table
  pub here : content e x ≡ b
  pub others : (y : Dest) → same x y ≡ false → content e y ≡ content d y

not_zero : {n : ℕ} → n ≡ 0 → (n == 0) ≡ false → ⊥
not_zero e h = ground arith

eq_self : (i : ℕ) → (i == i) ≡ true
eq_self i = ground arith

pub content-put_self : (d : Disk) (x : Dest) (b : Bytes) → content (put d x b) x ≡ b
content-put_self d digests_to_sign b = refl
content-put_self d (chained_table i) b = rw (eq_self i)

content-put_other :
    (d : Disk) (x y : Dest) (b : Bytes) → same x y ≡ false → content (put d x b) y ≡ content d y
content-put_other d digests_to_sign digests_to_sign b h = cc
content-put_other d digests_to_sign (chained_table j) b h = refl
content-put_other d (chained_table i) digests_to_sign b h = refl
content-put_other d (chained_table i) (chained_table j) b h = rw h

table-put : (d : Disk) (x : Dest) (b : Bytes) → (put d x b).digest_table ≡ d.digest_table
table-put d digests_to_sign b = refl
table-put d (chained_table i) b = refl

content-calls : (d : Disk) (n : ℕ) (y : Dest) → content (record d { calls = n }) y ≡ content d y
content-calls d n digests_to_sign = refl
content-calls d n (chained_table i) = refl

pub Writes-put : (d : Disk) (x : Dest) (b : Bytes) → Writes x b d (put d x b)
Writes-put d x b = record {
  table = table-put d x b;
  here = content-put_self d x b;
  others = λ y h. content-put_other d x y b h;
}

pub Writes-refl : (d : Disk) (x : Dest) → Writes x (content d x) d d
Writes-refl d x = record { table = refl; here = refl; others = λ y h. refl }

pub Writes-calls : (d : Disk) (x : Dest) (n : ℕ) → Writes x (content d x) d (record d { calls = n })
Writes-calls d x n = record {
  table = refl;
  here = content-calls d n x;
  others = λ y h. content-calls d n y;
}

pub Writes-trans :
    {x : Dest} {a b : Bytes} {d e f : Disk} → Writes x a d e → Writes x b e f → Writes x b d f
Writes-trans v w = record {
  table = w.table ∙ v.table;
  here = w.here;
  others = λ y h. w.others y h ∙ v.others y h;
}

pub Writes-append :
    {x : Dest} {a : Bytes} {d e : Disk} (n : ℕ) (buf : Bytes)
    → Writes x a d e
    → Writes x
        (a ++ buf)
        d
        (put (record e { calls = n }) x (content (record e { calls = n }) x ++ buf))
Writes-append {x} {a} {d} {e} n buf v =
    let f = record e { calls = n } in
    subst (λ b. Writes x (b ++ buf) d (put f x (content f x ++ buf))) (content-calls e n x ∙ v.here)
      (Writes-trans (Writes-trans v (Writes-calls e x n)) (Writes-put f x (content f x ++ buf)))

-- `fopen(..., "wb")`
pub Writes-clear : (n : ℕ) (d : Disk) (x : Dest) → Writes x [] d (put (record d { calls = n }) x [])
Writes-clear n d x = Writes-trans (Writes-calls d x n) (Writes-put (record d { calls = n }) x [])

Writes-clear_calls :
    (n m : ℕ) (d : Disk) (x : Dest)
    → Writes x [] d (record (put (record d { calls = n }) x []) { calls = m })
Writes-clear_calls n m d x =
    let e = put (record d { calls = n }) x [] in
    subst (λ b. Writes x b d (record e { calls = m }))
      (content-put_self (record d { calls = n }) x [])
      (Writes-trans (Writes-clear n d x) (Writes-calls e x m))

module _ (fails : ℕ → Bool) where
  abbrev pub Ends : {A : Type 0} → (A → Disk → Type 0) → Option A × Disk → Type 0
  Ends Q (none, d) = (n : ℕ) × (fails n ≡ true)
  Ends Q (some a, d) = Q a d

  pub Ends-and_then :
      {A B : Type 0} (P : A → Disk → Type 0) (Q : B → Disk → Type 0) (r : Option A × Disk)
      (f : A → M B)
      → Ends P r
      → ((a : A) (e : Disk) → P a e → Ends Q (f a e))
      → Ends Q (and_then r f)
  Ends-and_then P Q (none, d) f h k = h
  Ends-and_then P Q (some a, d) f h k = k a d h

  Ends-verdict :
      {B : Type 0} (Q : B → Disk → Type 0) (n : ℕ) (b : Bool) (d : Disk) (f : Unit {0} → M B)
      → fails n ≡ b
      → Ends Q (f tt d)
      → Ends Q (and_then (verdict b d) f)
  Ends-verdict Q n true d f e h = (n, e)
  Ends-verdict Q n false d f e h = h

  -- A call that may fail, before the rest `f`.
  pub Ends-attempt :
      {B : Type 0} (Q : B → Disk → Type 0) (d : Disk) (f : Unit {0} → M B)
      → Ends Q (f tt (record d { calls = d.calls + 1 }))
      → Ends Q (and_then (verdict (fails d.calls) (record d { calls = d.calls + 1 })) f)
  Ends-attempt Q d f = Ends-verdict Q d.calls (fails d.calls) _ f refl

  pub Ends-mono :
      {A : Type 0} (P Q : A → Disk → Type 0) (r : Option A × Disk)
      → Ends P r
      → ((a : A) (e : Disk) → P a e → Q a e)
      → Ends Q r
  Ends-mono P Q (none, d) h k = h
  Ends-mono P Q (some a, d) h k = k a d h

  module _ (sha : Sha256) where
    open sha use {Ctx, sha256_init, update, update-append, update-nil}

    pub write_output_file-Ends :
        (x : Dest) (append : Bool) (buf : Bytes) (d : Disk)
        → Ends
            (λ _ e. Writes x ((if append then content d x else []) ++ buf) d e)
            (write_output_file fails sha x append buf d)
    unfolding write_output_file
    write_output_file-Ends x true buf d =
        Ends-attempt _ d _
          (Ends-attempt _ _ _ (Writes-append (d.calls + 1 + 1) buf (Writes-refl d x)))
    write_output_file-Ends x false buf d =
        Ends-attempt _ d _
          (Ends-attempt _ _ _ (Writes-append _ buf (Writes-clear (d.calls + 1) d x)))

    length-slice :
        (n offset : ℕ) (b : Bytes) → offset + n ≤ length b → length (take n (drop offset b)) ≡ n
    length-slice n offset b h =
        omega (arith, length-take {0} n (drop offset b), length-drop {0} offset b)

    -- The bytes that a copy takes from the table of digests.
    abbrev pub slice : ℕ → ℕ → Disk → Bytes
    slice n offset d = take n (drop offset d.digest_table)

    abbrev pub Copied : Dest → Bytes → Bytes → Option Ctx → Disk → Option Ctx → Disk → Type 0
    Copied x before new ctx d out e =
        (out ≡ update_if fails sha ctx new) × Writes x (before ++ new) d e

    update_if-nil : (ctx : Option Ctx) → update_if fails sha ctx [] ≡ ctx
    update_if-nil none = refl
    update_if-nil (some c) = ap some (update-nil c)

    update_if-append :
        (ctx : Option Ctx) (a b : Bytes)
        → update_if fails sha (update_if fails sha ctx a) b ≡ update_if fails sha ctx (a ++ b)
    update_if-append none a b = refl
    update_if-append (some c) a b = ap some (update-append c a b)

    slice-append :
        (m n offset : ℕ) (b : Bytes)
        → m ≤ n
        → take m (drop offset b) ++ take (n - m) (drop (offset + m) b) ≡ take n (drop offset b)
    slice-append m n offset b h =
        ap (λ y. take m (drop offset b) ++ take (n - m) y) (sym (drop-drop offset m b))
        ∙ take-append-take m (n - m) (drop offset b)
        ∙ ap (λ k. take k (drop offset b)) {x = m + (n - m)} (omega arith)

    -- One round of the copy, before the rounds that follow.
    Copied-step :
        (x : Dest) (m n offset : ℕ) (ctx : Option Ctx) (d d' : Disk)
        → m ≤ n
        → Writes x (content d x ++ slice m offset d) d d'
        → (out : Option Ctx) (e : Disk)
        → Copied x
            (content d' x)
            (slice (n - m) (offset + m) d')
            (update_if fails sha ctx (slice m offset d))
            d'
            out
            e
        → Copied x (content d x) (slice n offset d) ctx d out e
    Copied-step x m n offset ctx d d' h v out e (c, w) =
        let a = slice m offset d in
        let b = slice (n - m) (offset + m) d in
        let same_table : slice (n - m) (offset + m) d' ≡ b =
          ap (λ t. take (n - m) (drop (offset + m) t)) v.table in
        let joined : a ++ b ≡ slice n offset d = slice-append m n offset d.digest_table h in
        (
          c
              ∙ ap (update_if fails sha (update_if fails sha ctx a)) same_table
              ∙ update_if-append ctx a b
              ∙ ap (update_if fails sha ctx) joined,
          subst (λ t. Writes x t d e)
              ((λ i. v.here i ++ same_table i)
                ∙ append_assoc (content d x) a b
                ∙ ap (λ t. content d x ++ t) joined)
              (Writes-trans v w),
        )

    copy_loop-Ends :
        (rounds : ℕ) (x : Dest) (offset left : ℕ) (ctx : Option Ctx) (d : Disk)
        → left + 512 ≤ 512 * rounds
        → offset + left ≤ length d.digest_table
        → Ends
            (Copied x (content d x) (slice left offset d) ctx d)
            (copy_loop fails sha rounds x offset left ctx d)
    unfolding copy_loop
    copy_loop-Ends zero x offset left ctx d f h = absurd (omega arith)
    copy_loop-Ends (suc rounds) x offset left ctx d f h =
        let m = min left 512 in
        let ctx' = update_if fails sha ctx (slice m offset d) in
        let again = λ (p : left ≢ 0) (d' : Disk) (t : d'.digest_table ≡ d.digest_table).
          copy_loop-Ends rounds x (offset + m) (left - m) ctx' d' (omega arith)
            (rw t (omega arith)) in
        elim (Bool-cases (left == 0)) [
          | inl z ↦
              let no_bytes : slice left offset d ≡ [] =
                ap (λ k. take k (drop offset d.digest_table)) ((==_iff left 0).0 z) in
              rw (z, no_bytes, append-nil) (sym (update_if-nil ctx), Writes-refl d x)
          | inr z ↦ rw z (
              Ends-attempt _ d _ (
                rw
                  ((==_iff _ _).1 (length-slice (min left 512) offset d.digest_table (omega arith)))
                  (Ends-attempt _ _ _ (
                    go _ (Writes-append _ (slice (min left 512) offset d) (Writes-refl d x))
                      (again (λ p. not_zero p z) _)))))
        ]
      where
        go :
            (d' : Disk)
            → Writes x (content d x ++ slice (min left 512) offset d) d d'
            → (d'.digest_table ≡ d.digest_table
                → Ends
                    (Copied x
                      (content d' x)
                      (slice (left - min left 512) (offset + min left 512) d')
                      (update_if fails sha ctx (slice (min left 512) offset d))
                      d')
                    (copy_loop fails sha rounds x
                      (offset + min left 512)
                      (left - min left 512)
                      (update_if fails sha ctx (slice (min left 512) offset d))
                      d'))
            → Ends (Copied x (content d x) (slice left offset d) ctx d) (
                copy_loop fails sha rounds x
                  (offset + min left 512)
                  (left - min left 512)
                  (update_if fails sha ctx (slice (min left 512) offset d))
                  d')
        go d' v next =
            Ends-mono
              (Copied x (content d' x) (slice (left - min left 512) (offset + min left 512) d')
                (update_if fails sha ctx (slice (min left 512) offset d)) d')
              _ _ (next v.table) (Copied-step x (min left 512) left offset ctx d d' (omega arith) v)

    -- `write_digests_to_table` copies `count` digests, and hashes them if it is asked to.
    pub write_digests_to_table-Ends :
        (x : Dest) (start count : ℕ) (hashed : Bool) (d : Disk)
        → 32 * start + count * 32 ≤ length d.digest_table
        → Ends
            (Copied x []
              (slice (count * 32) (32 * start) d)
              (if hashed then some sha256_init else none)
              d)
            (write_digests_to_table fails sha x start count hashed d)
    unfolding write_digests_to_table
    write_digests_to_table-Ends x start count hashed d h =
        Ends-attempt _ d _
          (Ends-attempt _ _ _ (Ends-attempt _ _ _ (go _ (Writes-clear_calls _ _ d x))))
      where
        go :
            (d' : Disk)
            → Writes x [] d d'
            → Ends
                (Copied x []
                  (slice (count * 32) (32 * start) d)
                  (if hashed then some sha256_init else none)
                  d)
                (copy_loop fails sha
                  (count * 32 / 512 + 2)
                  x
                  (32 * start)
                  (count * 32)
                  (if hashed then some sha256_init else none)
                  d')
        go d' v =
            let left = count * 32 in
            let ctx = if hashed then some sha256_init else none in
            Ends-mono (Copied x (content d' x) (slice left (32 * start) d') ctx d') _ _
              (copy_loop-Ends (left / 512 + 2) x (32 * start) left ctx d' (omega arith)
                (rw v.table h))
              (λ out e (c, w). (
                c ∙ ap (λ t. update_if fails sha ctx (take left (drop (32 * start) t))) v.table,
                subst (λ t. Writes x t d e)
                    (λ i. v.here i ++ take left (drop (32 * start) (v.table i))) (Writes-trans v w),
              ))
