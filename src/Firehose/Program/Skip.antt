-- ===== src/Firehose/Program/Skip.antt =====
-- The skipblock path of src/firehose.c on a member of a zip archive.
use qdl.Base.{
  ℕ, ◌*◌, ◌≤◌, ◌≡◌, refl, ap, ◌∙◌, Bool, true, false, Option, none, some, List, [], Bytes, length,
  drop, replicate, concat, drop_all, either, ◌==◌,
}
use qdl.File.{zip, QdlFile, rest, seek_as, qdl_file_seek}
use qdl.Vip.Generator.{Sha256}
use qdl.Firehose.{Env, Host}
use qdl.Firehose.Stream.{from_file, firehose_stream_out}
use qdl.Firehose.Stream.Image.{image, image_zeros}
use qdl.Firehose.Stream.Frames.{Within, IsTablePart}
use qdl.Firehose.Stream.Delivery.{Delivered, OnSuccess, firehose_stream_out-Delivered}
use qdl.Firehose.Stream.Digest.{firehose_region_local_digest}
use qdl.Firehose.Stream.Digest.Region.{OnDigest, Digested, firehose_region_local_digest-Digested}

qdl_file_seek-zip :
    (file : QdlFile) (offset : ℕ) → file.file_type ≡ zip → (qdl_file_seek file offset).1 ≡ file
unfolding qdl_file_seek
qdl_file_seek-zip file offset e =
    ap (λ t. (seek_as t file offset).1) e
    ∙ either (λ (out : Bool × QdlFile). out.1 ≡ file) (offset == 0) {x = (true, file)}
        {y = (false, file)} refl refl

-- The `n` bytes that were sent, besides VIP tables, are zeros.
pub record SentZeros {G : Type 0} (env : Env G) (n : ℕ) (h h' : Host G) : Type 0 where
  pub frames : List Bytes
  pub zeros_lem : concat frames ≡ replicate n 0
  pub sent_lem : Within (IsTablePart env) frames h.wire.sent h'.wire.sent

module _ {G : Type 0} (env : Env G) (sha : Sha256) (payload region_bytes : ℕ) where
  stream_zeros :
      (file : QdlFile) (h : Host G) (sector_size num_sectors : ℕ)
      → rest file ≡ []
      → OnSuccess env.hooks
          (λ f h'. SentZeros env (num_sectors * sector_size) h h')
          (firehose_stream_out env from_file sector_size num_sectors file h)
  stream_zeros file h sector_size num_sectors e =
      behind (firehose_stream_out env from_file sector_size num_sectors file h)
        (firehose_stream_out-Delivered env sector_size num_sectors file h)
    where
      behind :
          (out : Option (Bool × QdlFile × Host G))
          → OnSuccess env.hooks
              (Delivered env.hooks (IsTablePart env) (num_sectors * sector_size) file h)
              out
          → OnSuccess env.hooks (λ f h'. SentZeros env (num_sectors * sector_size) h h') out
      behind none d = tt
      behind (some (false, f, h')) d = tt
      behind (some (true, f, h')) d = record {
        frames = d.frames;
        zeros_lem =
            d.data_lem
            ∙ ap (image (num_sectors * sector_size)) e
            ∙ image_zeros (num_sectors * sector_size);
        sent_lem = d.sent_lem;
      }

  -- A member of a zip archive whose remaining bytes lie in the region is at its end once the region is
  -- hashed, and no seek moves it. So what `firehose_stream_out` then sends from it, whatever the offset
  -- that the seek asks for, is all zeros, besides VIP tables: a chunk that differs is flashed with zeros.
  pub zip_SentZeros :
      (file : QdlFile) (h : Host G) (file_byte_off offset sector_size num_sectors : ℕ)
      → file.file_type ≡ zip
      → length (rest file) ≤ region_bytes
      → OnDigest sha payload region_bytes
          (λ digest file'.
            OnSuccess env.hooks
              (λ f h'. SentZeros env (num_sectors * sector_size) h h')
              (firehose_stream_out env from_file sector_size num_sectors
                (qdl_file_seek file' offset).1
                h))
          (firehose_region_local_digest sha payload region_bytes file file_byte_off)
  zip_SentZeros file h file_byte_off offset sector_size num_sectors z fits =
      behind (firehose_region_local_digest sha payload region_bytes file file_byte_off)
        (firehose_region_local_digest-Digested sha payload region_bytes file file_byte_off)
    where
      behind :
          (out : Option (Option Bytes × QdlFile))
          → OnDigest sha payload region_bytes
              (Digested sha payload region_bytes (qdl_file_seek file file_byte_off).1)
              out
          → OnDigest sha payload region_bytes
              (λ digest file'.
                OnSuccess env.hooks
                  (λ f h'. SentZeros env (num_sectors * sector_size) h h')
                  (firehose_stream_out env from_file sector_size num_sectors
                    (qdl_file_seek file' offset).1
                    h))
              out
      behind none d = tt
      behind (some (none, file')) d = tt
      behind (some (some digest, file')) d =
          let still = qdl_file_seek-zip file file_byte_off z in
          let is_zip = d.same_type ∙ ap (λ f. f.file_type) still ∙ z in
          stream_zeros (qdl_file_seek file' offset).1 h sector_size num_sectors (
            ap rest (qdl_file_seek-zip file' offset is_zip)
            ∙ d.behind_lem
            ∙ ap (λ f. drop region_bytes (rest f)) still
            ∙ drop_all region_bytes (rest file) fits)
