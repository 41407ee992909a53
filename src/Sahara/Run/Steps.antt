-- ===== src/Sahara/Run/Steps.antt =====
-- src/sahara.c: single rounds of `sahara_run`, for the packets of an upload.
use qdl.Base.{
  ℕ, suc, ◌+◌, ◌*◌, ◌/◌, ◌%◌, Bool, true, false, ◌||◌, ◌&&◌, some, List, ◌∷◌, ◌++◌, ◌==◌, ◌-◌, ltb,
  take_all, Bytes, length, take, drop, replicate, ◌≡◌, ◌<◌, ◌≤◌, refl, ap, ◌∙◌, arith,
}
use qdl.Io.{Rx, got, wrote}
use qdl.Sahara.{Wire, put32, send, Images}
use qdl.Sahara.Pkt
use qdl.Sahara.Cmd
use qdl.Sahara.Length
use qdl.Sahara.Handlers.{
  image_at, hello_resp_packet, done_packet, sahara_read, send_range, sahara_hello, sahara_eoi,
  sahara_done, sahara_send_hello_resp,
}
use qdl.Sahara.Ramdump.{Os, Host}
use qdl.Sahara.Run.{round, Session, checked, detects, is_xml, after_packet, handle_packet, run_loop}

-- A word of a packet that was written by `put32`.
pub word_back :
    (n : ℕ)
    → n < 4294967296
    → n % 256 + 256 * (n / 256 % 256) + 65536 * (n / 65536 % 256 + 256 * (n / 16777216 % 256)) ≡ n
word_back n h = omega arith

-- A READ_DATA request.
pub record Request : Type 0 where
  pub image : ℕ
  pub offset : ℕ
  pub size : ℕ

abbrev pub read_data_packet : Request → Bytes
read_data_packet r =
    put32 Cmd.read_data ++ put32 Length.read_data ++ put32 r.image ++ put32 r.offset ++ put32 r.size

-- The image that a request names, and its part within the image.
pub record IsServed (images : Images) (r : Request) : Type 0 where
  pub content : Bytes
  pub image_len : ℕ
  pub provided : image_at images r.image ≡ some (content, image_len)
  pub within : r.offset + r.size ≤ image_len
  pub words : (r.image < 4294967296) × (r.offset < 4294967296) × (r.size < 4294967296)

abbrev pub part : {images : Images} {r : Request} → IsServed images r → Bytes
part {r} v = take r.size (drop r.offset v.content)

guard_passes : (n offset len : ℕ) → offset + len ≤ n → ltb n offset || ltb (n - offset) len ≡ false
guard_passes n offset len h = ground arith

same_number : (n : ℕ) → (n == n) ≡ true
same_number n = ground arith

range_sent :
    (content : Bytes) (n offset len : ℕ) (w : Wire)
    → offset + len ≤ n
    → w.ack (length w.tx) ≡ wrote len
    → send_range (some (content, n)) offset len w
      ≡ (true, (send w (take len (drop offset content))).1)
unfolding send_range
range_sent content n offset len w h a = rw (guard_passes n offset len h, a, same_number len) refl

pub read_step :
    (os : Os) (s : Session) (r : Request) (rest : Bytes) (h : Host) (v : IsServed s.images r)
    → h.wire.ack (length h.wire.tx) ≡ wrote r.size
    → handle_packet os s (read_data_packet r ++ rest) h
      ≡ (round false, record h { wire = (send h.wire (part v)).1 })
unfolding handle_packet sahara_read
read_step os s r rest h v a =
    let (i, o, n) = v.words in
    (λ j. checked h (
      send_range (image_at s.images (word_back r.image i j)) (word_back r.offset o j)
        (word_back r.size n j) h.wire))
    ∙ ap (λ c. checked h (send_range c r.offset r.size h.wire)) v.provided
    ∙ ap (checked h) (range_sent v.content v.image_len r.offset r.size h.wire v.within a)

-- What the device says to end the transfer of an image, and the upload.
abbrev pub eoi_packet : ℕ → Bytes
eoi_packet image = put32 Cmd.end_of_image ++ put32 Length.end_of_image ++ put32 image ++ put32 0

abbrev pub done_resp_packet : Bytes
done_resp_packet = put32 Cmd.done_resp ++ put32 Length.done_resp ++ put32 1

abbrev pub hello_packet : ℕ → ℕ → Bytes
hello_packet version mode =
    put32 Cmd.hello
    ++ put32 Length.hello
    ++ put32 version
    ++ put32 1
    ++ put32 4096
    ++ put32 mode
    ++ replicate 24 0

pub hello_step :
    (os : Os) (s : Session) (version mode : ℕ) (rest : Bytes) (h : Host)
    → mode < 4294967296
    → handle_packet os s (hello_packet version mode ++ rest) h
      ≡ (round false, record h { wire = (send h.wire (hello_resp_packet 2 mode)).1 })
unfolding handle_packet sahara_hello sahara_send_hello_resp
hello_step os s version mode rest h m = λ j.
    (round false, record h { wire = (send h.wire (hello_resp_packet 2 (word_back mode m j))).1 })

pub eoi_step :
    (os : Os) (s : Session) (image : ℕ) (rest : Bytes) (h : Host)
    → handle_packet os s (eoi_packet image ++ rest) h
      ≡ (round false, record h { wire = (send h.wire done_packet).1 })
unfolding handle_packet sahara_eoi
eoi_step os s image rest h = refl

pub done_resp_step :
    (os : Os) (s : Session) (rest : Bytes) (h : Host)
    → handle_packet os s (done_resp_packet ++ rest) h ≡ (round true, h)
unfolding handle_packet sahara_done
done_resp_step os s rest h = refl

pub and_false : (b : Bool) → b && false ≡ false
and_false true = refl
and_false false = refl

-- One round of the loop, for a packet that states its length.
pub loop_step :
    (os : Os) (s : Session) (rounds : ℕ) (first : Bool) (buf p : Bytes) (rx : List Rx) (h : Host)
    → h.wire.rx ≡ got p ∷ rx
    → length p ≤ 4096
    → detects os s first && is_xml p ≡ false
    → Pkt.len (p ++ drop (length p) buf) ≡ length p
    → run_loop os s (suc rounds) first buf h
      ≡ after_packet (run_loop os s rounds false (p ++ drop (length p) buf)) (
          handle_packet os s
            (p ++ drop (length p) buf)
            (record h { wire = record h.wire { rx = rx } }))
unfolding run_loop
loop_step os s rounds first buf p rx h e small x l =
    rw (e, take_all 4096 p small, x, l, same_number (length p)) refl
