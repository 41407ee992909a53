-- ===== src/Firehose/Tests.antt =====
-- Runs of the Firehose code, and the instances of its theorems.
use qdl.Base.{
  ℕ, zero, suc, ◌<◌, ◌≡◌, refl, Bool, true, false, Option, none, some, List, [], ◌∷◌, ◌++◌, Bytes,
  take, drop, codes, replicate, arith, Each, strstr, if◌then◌else◌, append_assoc, append-nil,
}
use qdl.Io.{qdl_read, qdl_push_back, Tx, wrote, refused, etimedout, nothing_pending}
use qdl.File.{posix, zip, QdlFile, qdl_file_read_exact, qdl_file_seek}
use qdl.File.Exact.{ReadsOrFails, qdl_file_read_exact-Reads}
use qdl.Vip.Transfer.{
  vip_transfer_handle_tables, vip_transfer_status_check_needed, vip_disabled, VipTransferData,
}
use qdl.Vip.Generator.{Sha256}
use qdl.Vip.Generator.Chunks.{VipTableGenerator}
use qdl.Firehose.{
  wire_read, wire_write, device_read, device_write, device_push_back, XmlNode, element, XmlNodes,
  last, next_to, Event, arrives, silence, ChunkHooks, Env, Storage, Host, uint_max,
}
use qdl.Firehose.Message.{
  Parser, firehose_generic_parser, firehose_response_parse, is_found, firehose_check_vip_marker,
}
use qdl.Firehose.Message.Digest.{extract_sha256_hex}
use qdl.Firehose.Message.Digest.Hex.{
  to_hex, HasNoDigest, empty, byte, run, extract_sha256_hex-to_hex,
}
use qdl.Firehose.Receive.{Seen, take_message, code, firehose_read, read_rounds, first_seen, budget}
use qdl.Firehose.Receive.Returns.{HasEnded}
use qdl.Firehose.Receive.Returns.Deadline.{read_rounds-MeetsDeadline}
use qdl.Firehose.Receive.Splice.{
  about_to_get, has_got, IsMessage, ToRaw, raw_message, other_message, Spliced,
  firehose_read-Spliced,
}
use qdl.Firehose.Send.{generic_read, write_rounds, firehose_write, firehose_vip_send_table}
use qdl.Firehose.Send.Returns.{EndsWith, write_rounds-Retries}
use qdl.Firehose.Stream.{from_file, firehose_stream_out}
use qdl.Firehose.Stream.Delivery.{Delivered, OnSuccess, firehose_stream_out-Delivered}
use qdl.Firehose.Stream.Frames.{IsTablePart}
use qdl.Firehose.Stream.Digest.{firehose_region_local_digest}
use qdl.Firehose.Stream.Digest.Region.{OnDigest, Digested, firehose_region_local_digest-Digested}
use qdl.Firehose.Op.{FirehoseOp, op_read, firehose_alloc_op, request}
use qdl.Firehose.Program.Skip.{SentZeros, zip_SentZeros}
use qdl.Firehose.Fetch.{Sink, to_file, firehose_issue_read}
use qdl.Firehose.Fetch.Sectors.{Served, OnTransfer, requested, firehose_issue_read-Served}
use qdl.Firehose.DryRun.{generator_hooks, DryRun, firehose_stream_out-DryRun}

-- A dry run that keeps the frames.
abbrev keep_frames : ChunkHooks (List Bytes)
keep_frames = record {
  chunk_init = λ g. g;
  chunk_update = λ g frame. g ++ frame ∷ [];
  chunk_store = λ g. g;
}

abbrev response : List (Bytes × Bytes) → XmlNodes
response props =
    next_to (element (codes "data") [] (next_to (element (codes "response") props last) last)) last

-- A reader that takes a document with "raw" behind its declaration for the start of raw mode, and
-- every other for an acknowledgement.
abbrev read_document : Bytes → Option XmlNodes
read_document s =
    if is_found (strstr s (codes "raw"))
    then some (response ((codes "value", codes "ACK") ∷ (codes "rawmode", codes "true") ∷ []))
    else some (response ((codes "value", codes "ACK") ∷ []))

abbrev sample_env : Env (List Bytes)
sample_env = record {
  hooks = keep_frames;
  xml_read_memory = read_document;
  xml_doc_dump_memory = λ tag. codes "<?xml";
  fstat = λ n. none;
  malloc = λ n. true;
  read_table = λ n m. none;
}

abbrev no_vip : VipTransferData
no_vip = record {
  state = vip_disabled;
  signed_table_fd = 0;
  chained_fds = [];
  chained_num = 0;
  chained_cur = 0;
  frames_sent = 0;
  frames_left = 0;
  fh_parse_status = false;
  sending_table = false;
}

abbrev device : {G : Type 0} → G → List (Event × ℕ) → List Tx → Host G
device g events results = record {
  wire = record { events = events; now = 0; write_results = results; sent = [] };
  pending = nothing_pending;
  granted = [];
  vip_data = no_vip;
  programmer_requires_vip = false;
  generator = g;
  max_payload_size = 4;
  sector_size = 2;
  slot = uint_max;
  current_storage_type = Storage.ufs;
  skipblock_sha256 = false;
  stats = record { flashed = 0; skipped = 0; read = 0; erased = 0; patches = 0; bytes_written = 0 };
}

abbrev ack : Bytes
ack = codes "<?xml></data>"

abbrev raw_ack : Bytes
raw_ack = codes "<?xmlraw></data>"

-- messages, silence, and a response in two halves
abbrev talkative : Host (List Bytes)
talkative = device [] ((silence, 10) ∷ (arrives ack, 20) ∷ (silence, 30) ∷ []) (wrote 5 ∷ [])

read_talkative :
    firehose_read sample_env (firehose_generic_parser {D = Bool}) 1000 true talkative
    ≡ (code 0, true, record talkative { wire = record talkative.wire { events = []; now = 30 } })
unfolding firehose_read device_read qdl_read wire_read budget firehose_response_parse
    firehose_generic_parser firehose_check_vip_marker
read_talkative = refl

-- The device is silent past the timeout of 1 ms, and would go on to talk.
abbrev then_talks : Host (List Bytes)
then_talks = device [] ((silence, 10) ∷ (silence, 1000) ∷ (arrives ack, 2000) ∷ []) []

read_rounds-MeetsDeadline_example : HasEnded (
    read_rounds sample_env
      (firehose_generic_parser {D = Bool})
      2
      1000
      (first_seen sample_env (firehose_generic_parser {D = Bool}) true then_talks))
read_rounds-MeetsDeadline_example =
    read_rounds-MeetsDeadline sample_env (firehose_generic_parser {D = Bool}) 1 1000 true then_talks
      ((silence, 10) ∷ []) ((arrives ack, 2000) ∷ []) (refl, refl) refl (omega arith)

abbrev ack_node : XmlNode
ack_node =
    element (codes "response") ((codes "value", codes "ACK") ∷ (codes "rawmode", codes "true") ∷ [])
      last

raw_ack-node : firehose_response_parse sample_env raw_ack ≡ some ack_node
unfolding firehose_response_parse
raw_ack-node = refl

raw_ack-parsed : firehose_generic_parser ack_node true false ≡ (some 0, true, true)
unfolding firehose_generic_parser
raw_ack-parsed = refl

-- A message, and a response that starts raw mode, with three bytes spliced behind it.
abbrev raw_data : Bytes
raw_data = 1 ∷ 0 ∷ 2 ∷ []

abbrev ack_message : Bytes
ack_message = codes "<?xml></data>"

abbrev plain_node : XmlNode
plain_node = element (codes "response") ((codes "value", codes "ACK") ∷ []) last

abbrev spliced : Bytes
spliced = codes "x" ++ ack_message ++ raw_ack ++ raw_data

abbrev generic : Parser Bool
generic = firehose_generic_parser

abbrev seen_first : Seen Bool (List Bytes)
seen_first = record (first_seen sample_env generic true talkative) { host = has_got talkative 7 [] }

abbrev seen_plain : Seen Bool (List Bytes)
seen_plain = take_message sample_env generic plain_node seen_first

abbrev seen_raw : Seen Bool (List Bytes)
seen_raw = take_message sample_env generic ack_node seen_plain

plain-IsMessage : IsMessage sample_env generic spliced ack_message (raw_ack ++ raw_data) plain_node
unfolding firehose_response_parse
plain-IsMessage = record {
  front = codes "x";
  end = 6;
  buf_lem = refl;
  start_lem = refl;
  end_lem = refl;
  doc_lem = refl;
  node_lem = refl;
}

ack-IsMessage : IsMessage sample_env generic (raw_ack ++ raw_data) raw_ack raw_data ack_node
ack-IsMessage = record {
  front = [];
  end = 9;
  buf_lem = refl;
  start_lem = refl;
  end_lem = refl;
  doc_lem = refl;
  node_lem = raw_ack-node;
}

spliced-ToRaw : ToRaw sample_env generic raw_data seen_raw spliced seen_first
unfolding take_message firehose_generic_parser
spliced-ToRaw =
    other_message ack_message b'<' (drop 1 raw_ack ++ raw_data) plain_node plain-IsMessage refl
      (raw_message raw_ack ack_node ack-IsMessage refl refl)

raw-resp : seen_raw.resp ≡ code 0
unfolding take_message firehose_generic_parser
raw-resp = refl

firehose_read-Spliced_example :
    Spliced Bool
      (List Bytes)
      0
      seen_raw.data_of
      raw_data
      (record { events = []; now = 7; write_results = wrote 5 ∷ []; sent = [] })
      (firehose_read sample_env generic 1000 true (about_to_get talkative spliced 7 []))
firehose_read-Spliced_example =
    firehose_read-Spliced sample_env generic 1000 0 7 spliced raw_data true seen_raw talkative []
      (omega arith) spliced-ToRaw raw-resp

-- A write that times out twice, and one that succeeds; what stands behind is not tried.
abbrev slow : Host (List Bytes)
slow = device [] [] (refused etimedout ∷ refused etimedout ∷ wrote 9 ∷ refused etimedout ∷ [])

write_rounds-Retries_example :
    EndsWith true
      (refused etimedout ∷ [])
      ([] ++ take 9 ack ∷ [])
      (write_rounds sample_env 3 ack slow)
write_rounds-Retries_example =
    write_rounds-Retries sample_env 2 (wrote 9) (refused etimedout ∷ []) [] ack slow tt (refl, refl)

-- A log line with a digest, whose first word holds a short run of digits.
zeros-small : (n : ℕ) → Each (λ b. b < 256) (replicate n 0)
zeros-small zero = tt
zeros-small (suc n) = (omega arith, zeros-small n)

abbrev zeros_digest : Bytes
zeros_digest = replicate 32 0

sha_colon-HasNoDigest : HasNoDigest (codes "sh:")
sha_colon-HasNoDigest = byte refl (byte refl (byte refl empty))

log_prefix-HasNoDigest : HasNoDigest (codes "a5 sh:")
log_prefix-HasNoDigest =
    run b'a' (b'5' ∷ []) (refl, (refl, tt)) refl refl (byte refl sha_colon-HasNoDigest)

extract_sha256_hex-to_hex_example :
    extract_sha256_hex (codes "a5 sh:" ++ (to_hex zeros_digest ++ codes ".")) ≡ some zeros_digest
extract_sha256_hex-to_hex_example =
    extract_sha256_hex-to_hex (codes "a5 sh:") zeros_digest (codes ".") log_prefix-HasNoDigest refl
      (zeros-small 32) refl

-- A file that is read in pieces of one and two bytes.
abbrev five_bytes : QdlFile
five_bytes = record {
  file_type = posix;
  content = 1 ∷ 2 ∷ 3 ∷ 4 ∷ 5 ∷ [];
  position = 0;
  answers = some 0 ∷ some 1 ∷ [];
}

read_pieces : (qdl_file_read_exact five_bytes 4).0 ≡ some (1 ∷ 2 ∷ 3 ∷ 4 ∷ [])
unfolding qdl_file_read_exact
read_pieces = refl

qdl_file_read_exact-Reads_example : ReadsOrFails 4 five_bytes (qdl_file_read_exact five_bytes 4)
qdl_file_read_exact-Reads_example = qdl_file_read_exact-Reads five_bytes 4

-- The device takes two frames of two sectors.
abbrev patient : Host (List Bytes)
patient = device [] [] (wrote 4 ∷ wrote 2 ∷ [])

abbrev after_stream : Option (Bool × QdlFile × Host (List Bytes)) → List Bytes
after_stream (some (true, file, h)) = h.wire.sent
after_stream _ = []

stream_five :
    after_stream (firehose_stream_out sample_env from_file 2 3 five_bytes patient)
    ≡ (1 ∷ 2 ∷ 3 ∷ 4 ∷ []) ∷ (5 ∷ 0 ∷ []) ∷ []
unfolding firehose_stream_out firehose_vip_send_table device_write wire_write qdl_file_read_exact
    vip_transfer_handle_tables vip_transfer_status_check_needed
stream_five = refl

firehose_stream_out-Delivered_example :
    OnSuccess keep_frames
      (Delivered keep_frames (IsTablePart sample_env) 6 five_bytes patient)
      (firehose_stream_out sample_env from_file 2 3 five_bytes patient)
firehose_stream_out-Delivered_example =
    firehose_stream_out-Delivered sample_env 2 3 five_bytes patient

abbrev prefix_digest : Sha256
prefix_digest = record {
  Ctx = Bytes;
  sha256_init = [];
  update = λ c b. c ++ b;
  final = λ c. take 32 (c ++ replicate 32 0);
  update-append = λ c a b. append_assoc c a b;
  update-nil = λ c. append-nil c;
}

firehose_region_local_digest-Digested_example :
    OnDigest prefix_digest 4 6
      (Digested prefix_digest 4 6 (qdl_file_seek five_bytes 1).1)
      (firehose_region_local_digest prefix_digest 4 6 five_bytes 1)
firehose_region_local_digest-Digested_example =
    firehose_region_local_digest-Digested prefix_digest 4 6 five_bytes 1

abbrev zipped : QdlFile
zipped = record five_bytes { file_type = zip }

abbrev digest_found : Option (Option Bytes × QdlFile) → Bool
digest_found (some (some digest, file)) = true
digest_found _ = false

zipped_digest : digest_found (firehose_region_local_digest prefix_digest 4 6 zipped 0) ≡ true
unfolding firehose_region_local_digest qdl_file_seek qdl_file_read_exact
zipped_digest = refl

zip_SentZeros_example :
    OnDigest prefix_digest 4 6
      (λ digest file'.
        OnSuccess keep_frames
          (λ f h'. SentZeros sample_env 6 patient h')
          (firehose_stream_out sample_env from_file 2 3 (qdl_file_seek file' 0).1 patient))
      (firehose_region_local_digest prefix_digest 4 6 zipped 0)
zip_SentZeros_example =
    zip_SentZeros sample_env prefix_digest 4 6 zipped patient 0 0 2 3 refl (omega arith)

-- Two sectors, which arrive in three pieces with an empty one between them.
abbrev sectors_op : FirehoseOp
sectors_op = record (firehose_alloc_op op_read) { num_sectors = 2; start_sector = codes "0" }

abbrev sending : Host (List Bytes)
sending =
    device []
      ((arrives (raw_ack ++ 1 ∷ []), 1)
        ∷ (arrives [], 2)
        ∷ (arrives (2 ∷ 3 ∷ []), 3)
        ∷ (arrives (4 ∷ []), 4)
        ∷ (arrives ack, 5)
        ∷ (silence, 6)
        ∷ [])
      (wrote 5 ∷ [])

abbrev file_content : Option (Bool × Sink × Host (List Bytes)) → Bytes
file_content (some (true, to_file content rs, h)) = content
file_content _ = []

read_sectors :
    file_content (firehose_issue_read sample_env sectors_op (to_file [] []) true sending)
    ≡ 1 ∷ 2 ∷ 3 ∷ 4 ∷ []
unfolding firehose_issue_read request firehose_write firehose_vip_send_table generic_read
    device_read device_write wire_write qdl_read qdl_push_back wire_read device_push_back budget
    firehose_response_parse firehose_generic_parser firehose_check_vip_marker
    vip_transfer_handle_tables vip_transfer_status_check_needed
read_sectors = refl

firehose_issue_read-Served_example :
    OnTransfer sample_env
      (λ sink' h'.
        Served sample_env 4 (to_file [] []) (requested sample_env sectors_op sending) sink')
      (firehose_issue_read sample_env sectors_op (to_file [] []) true sending)
firehose_issue_read-Served_example =
    firehose_issue_read-Served sample_env sectors_op (to_file [] []) true sending (refl, refl)

abbrev generator : VipTableGenerator prefix_digest
generator = record { ctx = []; digest_table_fd = true; digest_num_written = 0; digest_table = [] }

abbrev dry_env : Env (VipTableGenerator prefix_digest)
dry_env = record {
  hooks = generator_hooks prefix_digest;
  xml_read_memory = read_document;
  xml_doc_dump_memory = λ tag. codes "<?xml";
  fstat = λ n. none;
  malloc = λ n. true;
  read_table = λ n m. none;
}

abbrev dry_device : Host (VipTableGenerator prefix_digest)
dry_device = device generator [] (wrote 4 ∷ wrote 2 ∷ [])

firehose_stream_out-DryRun_example :
    OnSuccess
      (generator_hooks prefix_digest)
      (λ file' h'. DryRun prefix_digest 6 five_bytes dry_device h')
      (firehose_stream_out dry_env from_file 2 3 five_bytes dry_device)
firehose_stream_out-DryRun_example =
    firehose_stream_out-DryRun prefix_digest dry_env 2 3 five_bytes dry_device (refl, refl)
