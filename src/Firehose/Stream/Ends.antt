-- ===== src/Firehose/Stream/Ends.antt =====
-- The loops of src/firehose.c that send end.
use qdl.Base.{ℕ, ◌≡◌}
use qdl.File.{QdlFile}
use qdl.Firehose.{Env, Host}
use qdl.Firehose.Receive.Returns.{HasEnded}
use qdl.Firehose.Stream.{Source, Streamed}

module _ {G : Type 0} (env : Env G) (source : Source) (sector_size payload : ℕ) where
  -- `next` ends from every host with this payload size.
  Ends : (QdlFile → Host G → Streamed env source sector_size) → Type 0
  Ends next = (file : QdlFile) (h : Host G) → h.max_payload_size ≡ payload → HasEnded (next file h)
