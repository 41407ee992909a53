-- ===== src/Firehose/Stream/Delivery.antt =====
-- `firehose_stream_out` of src/firehose.c sends what the file holds.
use qdl.Base.{
  ℕ, zero, suc, ◌+◌, ◌-◌, ◌*◌, ◌/◌, ◌≤◌, ◌≡◌, refl, sym, ap, subst, ◌∙◌, min, Bool, true, false,
  Option, none, some, List, [], ◌∷◌, ◌++◌, Bytes, length, take, drop, concat, Each, arith, take_all,
  drop-drop, ◌==◌, ==_iff, Bool-cases, inl, inr,
}
use native.Mathlib.Nat.{div-mul-le_self, add-mul, mul-le-mul_right}
use qdl.Io.{Tx, wrote, refused}
use qdl.File.{QdlFile, rest, qdl_file_read_exact}
use qdl.File.Exact.{Reads, read_exact-Outcome, Outcome}
use qdl.Firehose.{Env, Host, ChunkHooks, device_write, wire_write, write_as}
use qdl.Firehose.Send.{firehose_vip_send_table, init_chunk, update_chunk, store_chunk}
use qdl.Firehose.Stream.{
  zero_pad, pad_read, from_file, chunk_of, Streamed, sent_chunk, send_chunk, read_chunk,
  chunk_sectors, stream_rounds, firehose_stream_out,
}
use qdl.Firehose.Stream.Image.{image, zero_pad-take, length-image, image-append}
use qdl.Vip.Transfer.{VipTransferData}
use qdl.Firehose.Stream.Frames.{
  Within, done, frame, Later-Within, Carries, IsTablePart, AnyVip, send_table-Carries,
}

module _ {G : Type 0} (hooks : ChunkHooks G) where
  -- The dry run's record of frames: each is hashed on its own.
  abbrev pub hash_frames : List Bytes → G → G
  hash_frames [] g = g
  hash_frames (f ∷ fs) g =
      hash_frames fs (hooks.chunk_store (hooks.chunk_update (hooks.chunk_init g) f))

  -- `n` bytes of a file went out: as frames that fit in the payload, with zeros behind the end of the
  -- file, no other writes between them but of bytes with `T`, and the dry run has hashed these frames.
  pub record Delivered (T : Bytes → Type 0) (n : ℕ) (file : QdlFile) (h : Host G) (file' : QdlFile)
      (h' : Host G) : Type 0 where
    pub frames : List Bytes
    pub data_lem : concat frames ≡ image n (rest file)
    pub sent_lem : Within T frames h.wire.sent h'.wire.sent
    pub fit_lem : Each (λ f. length f ≤ h.max_payload_size) frames
    pub hash_lem : h'.generator ≡ hash_frames frames h.generator
    pub rest_lem : rest file' ≡ drop n (rest file)

  -- `P` holds of a run that has ended well.
  abbrev pub OnSuccess : (QdlFile → Host G → Type 0) → Option (Bool × QdlFile × Host G) → Type 0
  OnSuccess P none = Unit
  OnSuccess P (some (false, file, h)) = Unit
  OnSuccess P (some (true, file, h)) = P file h

module _ {G : Type 0} where
  -- A write that says that it wrote `m` bytes.
  abbrev Wrote : Host G → Bytes → Tx × Host G → Type 0
  Wrote h bytes (refused e, h') = Unit
  Wrote h bytes (wrote m, h') =
      (h'.max_payload_size ≡ h.max_payload_size)
      × (h'.generator ≡ h.generator)
      × (h'.vip_data ≡ h.vip_data)
      × (h'.wire.sent ≡ h.wire.sent ++ take m bytes ∷ [])

  write_as-Wrote :
      (rs : List Tx) (h : Host G) (bytes : Bytes)
      → let (r, w) = write_as rs h.wire bytes in Wrote h bytes (r, record h { wire = w })
  unfolding write_as
  write_as-Wrote [] h bytes = tt
  write_as-Wrote (wrote m ∷ rs) h bytes = (refl, refl, refl, refl)
  write_as-Wrote (refused e ∷ rs) h bytes = tt

  device_write-Wrote : (h : Host G) (bytes : Bytes) → Wrote h bytes (device_write h bytes)
  unfolding device_write wire_write
  device_write-Wrote h bytes = write_as-Wrote h.wire.write_results h bytes

pub split_sectors : (c l s : ℕ) → c ≤ l → c * s + (l - c) * s ≡ l * s
split_sectors c l s h = sym (add-mul c (l - c) s) ∙ ap (λ m. m * s) {x = c + (l - c)} (omega arith)

-- `V` holds of the transfer, and sending tables keeps it and sends only bytes with `T`.
module _ {G : Type 0} (env : Env G) (sector_size : ℕ) (T : Bytes → Type 0)
    (V : VipTransferData → Type 0)
    (tables_lem : (h : Host G)
      → V h.vip_data
      → Carries T V h (firehose_vip_send_table env h).1) where
  open env use {hooks}

  -- one frame in front of the others
  module _ (n k : ℕ) (file0 file1 : QdlFile) (h0 : Host G)
      (next : QdlFile → Host G → Streamed env from_file sector_size)
      (ih : (file : QdlFile) (h : Host G)
        → V h.vip_data
        → OnSuccess hooks (Delivered hooks T k file h) (next file h)) where
    abbrev Whole : QdlFile → Host G → Type 0
    Whole = Delivered hooks T (n + k) file0 h0

    -- The host when the chunk is hashed and the tables are sent.
    module _ (fits : n ≤ h0.max_payload_size) (r : rest file1 ≡ drop n (rest file0)) where
      abbrev bytes : Bytes
      bytes = image n (rest file0)

      abbrev hashed : Host G
      hashed = update_chunk env (init_chunk env h0) bytes

      one_more_frame :
          (h2 h3 h' : Host G) (file' : QdlFile) (m : ℕ)
          → Carries T V hashed h2
          → Wrote h2 bytes (wrote m, h3)
          → m ≡ n
          → Delivered hooks T k file1 (store_chunk env h3) file' h'
          → Whole file' h'
      one_more_frame h2 h3 h' file' m c (p, g, v, s) e d = record {
        frames = bytes ∷ d.frames;
        data_lem =
            ap (λ t. bytes ++ t) (d.data_lem ∙ ap (image k) r) ∙ image-append n k (rest file0);
        sent_lem = Later-Within c.later (
            frame (
              subst (λ t. Within T d.frames t h'.wire.sent)
                (s ∙ ap (λ t. h2.wire.sent ++ t ∷ []) whole) d.sent_lem));
        fit_lem = (
          subst (λ l. l ≤ h0.max_payload_size) (sym (length-image n (rest file0))) fits,
          subst (λ l. Each (λ f. length f ≤ l) d.frames) (p ∙ c.payload) d.fit_lem,
        );
        hash_lem =
            d.hash_lem
            ∙ ap (λ g'. hash_frames hooks d.frames (hooks.chunk_store g')) (g ∙ c.generator_lem);
        rest_lem = d.rest_lem ∙ ap (drop k) r ∙ drop-drop n k (rest file0);
      }
        where
          whole : take m bytes ≡ bytes
          whole = take_all m bytes (omega (arith, length-image n (rest file0)))

      sent_chunk-Whole :
          (h2 : Host G) (out : Tx × Host G)
          → Carries T V hashed h2
          → Wrote h2 bytes out
          → OnSuccess hooks Whole (sent_chunk env from_file sector_size next n file1 out)
      unfolding sent_chunk
      sent_chunk-Whole h2 (refused e, h3) c w = tt
      sent_chunk-Whole h2 (wrote m, h3) c (p, g, v, s) = elim (Bool-cases (m == n)) [
        | inl e ↦ rw e (
            continue (next file1 (store_chunk env h3)) ((==_iff m n).0 e)
              (ih file1 (store_chunk env h3) (subst V (sym v) c.vip_lem)))
        | inr e ↦ rw e tt
      ]
        where
          continue :
              (out : Streamed env from_file sector_size)
              → m ≡ n
              → OnSuccess hooks (Delivered hooks T k file1 (store_chunk env h3)) out
              → OnSuccess hooks Whole out
          continue none e d = tt
          continue (some (false, file', h')) e d = tt
          continue (some (true, file', h')) e d = one_more_frame h2 h3 h' file' m c (p, g, v, s) e d

      send_chunk-Whole :
          (out : Bool × Host G)
          → Carries T V hashed out.1
          → OnSuccess hooks Whole (send_chunk env from_file sector_size next bytes n file1 out)
      unfolding send_chunk
      send_chunk-Whole (false, h2) c = tt
      send_chunk-Whole (true, h2) c =
          sent_chunk-Whole h2 (device_write h2 bytes) c (device_write-Wrote h2 bytes)

      tables-Whole :
          V h0.vip_data
          → OnSuccess hooks Whole (
              send_chunk env from_file sector_size next bytes n file1
                (firehose_vip_send_table env hashed))
      tables-Whole v = send_chunk-Whole (firehose_vip_send_table env hashed) (tables_lem hashed v)

    read_chunk-Whole :
        (out : Option Bytes × QdlFile)
        → n ≤ h0.max_payload_size
        → Outcome (λ b f. (b ≡ image n (rest file0)) × (rest f ≡ drop n (rest file0))) out
        → out.1 ≡ file1
        → V h0.vip_data
        → OnSuccess hooks Whole
            (read_chunk env from_file sector_size next n (init_chunk env h0) out)
    unfolding read_chunk
    read_chunk-Whole (none, file) fits o e v = tt
    read_chunk-Whole (some b, file) fits (i, r) e v =
        rw (i, e) (tables-Whole fits (ap rest (sym e) ∙ r) v)

  chunk_of-image :
      (file : QdlFile) (n : ℕ)
      → Outcome
          (λ b f. (b ≡ image n (rest file)) × (rest f ≡ drop n (rest file)))
          (chunk_of from_file file n)
  unfolding chunk_of
  chunk_of-image file n = padded (qdl_file_read_exact file n) (read_exact-Outcome file n)
    where
      padded :
          (out : Option Bytes × QdlFile)
          → Outcome (Reads n file) out
          → Outcome
              (λ b f. (b ≡ image n (rest file)) × (rest f ≡ drop n (rest file)))
              (pad_read n out.0, out.1)
      padded (none, f) r = tt
      padded (some b, f) r = (ap (zero_pad n) r.bytes_lem ∙ zero_pad-take n (rest file), r.rest_lem)

  chunk-fits : (p s l : ℕ) → min (p / s) l * s ≤ p
  chunk-fits p s l =
      omega (
        arith,
        div-mul-le_self p s,
        mul-le-mul_right {m = min (p / s) l} {n = p / s} s (omega arith),
      )

  stream_rounds-Delivered :
      (rounds sectors : ℕ) (file : QdlFile) (h : Host G)
      → V h.vip_data
      → OnSuccess hooks
          (Delivered hooks T (sectors * sector_size) file h)
          (stream_rounds env from_file sector_size rounds sectors file h)
  unfolding stream_rounds
  stream_rounds-Delivered rounds zero file h v =
      subst (λ m. Delivered hooks T m file h file h) {x = 0} (omega arith)
        (record {
          frames = [];
          data_lem = refl;
          sent_lem = done;
          fit_lem = tt;
          hash_lem = refl;
          rest_lem = refl;
        })
  stream_rounds-Delivered zero (suc left) file h v = tt
  stream_rounds-Delivered (suc rounds) (suc left) file h v =
      let c = chunk_sectors env from_file sector_size h (suc left) in
      let n = c * sector_size in
      let k = (suc left - c) * sector_size in
      subst
        (λ m.
          OnSuccess hooks (Delivered hooks T m file h)
            (stream_rounds env from_file sector_size (suc rounds) (suc left) file h))
        {x = n + k} (split_sectors c (suc left) sector_size (omega arith))
        (read_chunk-Whole n k file (chunk_of from_file file n).1 h
          (stream_rounds env from_file sector_size rounds (suc left - c))
          (stream_rounds-Delivered rounds (suc left - c)) (chunk_of from_file file n)
          (chunk-fits h.max_payload_size sector_size (suc left)) (chunk_of-image file n) refl v)

  pub stream_out-Delivered :
      (num_sectors : ℕ) (file : QdlFile) (h : Host G)
      → V h.vip_data
      → OnSuccess hooks
          (Delivered hooks T (num_sectors * sector_size) file h)
          (firehose_stream_out env from_file sector_size num_sectors file h)
  unfolding firehose_stream_out
  stream_out-Delivered num_sectors file h v =
      stream_rounds-Delivered num_sectors num_sectors file h v

-- When `firehose_stream_out` of a file reports success, it has sent `num_sectors * sector_size` bytes:
-- what is left of the file, with zeros behind its end. They went out as frames in order, each no
-- longer than the payload size, and every other write between them was of bytes of a VIP table's
-- file; the dry run has hashed exactly these frames.
pub firehose_stream_out-Delivered :
    {G : Type 0} (env : Env G) (sector_size num_sectors : ℕ) (file : QdlFile) (h : Host G)
    → OnSuccess env.hooks
        (Delivered env.hooks (IsTablePart env) (num_sectors * sector_size) file h)
        (firehose_stream_out env from_file sector_size num_sectors file h)
firehose_stream_out-Delivered env sector_size num_sectors file h =
    stream_out-Delivered env sector_size (IsTablePart env) (AnyVip env)
      (λ h v. send_table-Carries env h) num_sectors file h tt
