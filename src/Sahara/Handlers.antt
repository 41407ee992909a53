-- ===== src/Sahara/Handlers.antt =====
-- The answers of src/sahara.c to single packets.
use qdl.Base.{
  ℕ, zero, suc, ◌+◌, ◌-◌, ◌^◌, Bool, true, false, not, ◌||◌, ◌&&◌, Option, none, some, List, [],
  ◌∷◌, ◌++◌, Bytes, take, drop, get_or, replicate, ltb, ◌==◌, if◌then◌else◌,
}
use qdl.Io.{Tx, wrote, refused}
use qdl.Sahara.{Wire, send, put32, SaharaImage, mapping_sz, sahara_id_ehostdl_img, Images, no_image}
use qdl.Sahara.Pkt
use qdl.Sahara.Cmd
use qdl.Sahara.Length

-- What `sahara_send_reset` writes: only the header of the packet goes out.
abbrev pub reset_packet : Bytes
reset_packet = put32 Cmd.reset ++ put32 Length.reset

unfoldable pub sahara_send_reset : Wire → Wire
sahara_send_reset w = (send w reset_packet).1

abbrev pub hello_resp_packet : ℕ → ℕ → Bytes
hello_resp_packet version mode =
    put32 Cmd.hello_resp
    ++ put32 Length.hello
    ++ put32 version
    ++ put32 1
    ++ put32 0
    ++ put32 mode
    ++ replicate 24 0

unfoldable pub sahara_send_hello_resp : ℕ → ℕ → Wire → Wire
sahara_send_hello_resp version mode w = (send w (hello_resp_packet version mode)).1

abbrev pub sahara_version : ℕ
sahara_version = 2

-- A handler returns whether the result is 0, and the wire. A negative result is `false`.
unfoldable pub sahara_hello : Bytes → Wire → Bool × Wire
unfolding sahara_send_reset sahara_send_hello_resp
sahara_hello pkt w =
    if not (Pkt.len pkt == Length.hello)
    then (false, sahara_send_reset w)
    else (true, sahara_send_hello_resp sahara_version (Pkt.word pkt 3) w)

abbrev pub content_of : SaharaImage → Option (Bytes × ℕ)
content_of image = elim (image.ptr) [ none ↦ none | some content ↦ some (content, image.len) ]

-- `images[image_idx].ptr`, with `images` and the index tested before
abbrev pub image_at : Images → ℕ → Option (Bytes × ℕ)
image_at none idx = none
image_at (some images) idx =
    if ltb idx mapping_sz then content_of (get_or images idx no_image) else none

abbrev pub whole_write : ℕ → Tx × Wire → Bool × Wire
whole_write len (wrote n, w) = (n == len, w)
whole_write len (refused e, w) = (false, w)

-- `sahara_read` and `sahara_read64` behind the test of the packet's length
unfoldable pub send_range : Option (Bytes × ℕ) → ℕ → ℕ → Wire → Bool × Wire
unfolding sahara_send_reset
send_range none offset len w = (false, sahara_send_reset w)
send_range (some (content, image_len)) offset len w =
    if ltb image_len offset || ltb (image_len - offset) len
    then (false, w)
    else whole_write len (send w (take len (drop offset content)))

unfoldable pub sahara_read : Images → Bytes → Wire → Bool × Wire
unfolding sahara_send_reset send_range
sahara_read images pkt w =
    if not (Pkt.len pkt == Length.read_data)
    then (false, sahara_send_reset w)
    else send_range (image_at images (Pkt.word pkt 0)) (Pkt.word pkt 1) (Pkt.word pkt 2) w

-- The index is an `unsigned int`: only the low half of the 64-bit field counts.
unfoldable pub sahara_read64 : Images → Bytes → Wire → Bool × Wire
unfolding sahara_send_reset send_range
sahara_read64 images pkt w =
    if not (Pkt.len pkt == Length.read_data64)
    then (false, sahara_send_reset w)
    else send_range (image_at images (Pkt.word pkt 0)) (Pkt.quad pkt 1) (Pkt.quad pkt 2) w

abbrev pub done_packet : Bytes
done_packet = put32 Cmd.done ++ put32 Length.done

unfoldable pub sahara_eoi : Bytes → Wire → Bool × Wire
unfolding sahara_send_reset
sahara_eoi pkt w =
    if not (Pkt.len pkt == Length.end_of_image)
    then (false, sahara_send_reset w)
    else if not (Pkt.word pkt 1 == 0)
    then (false, w)
    else (true, (send w done_packet).1)

-- The status, as an `int`: `none` is a negative result, as from the status `2 ^ 31` on.
unfoldable pub sahara_done : Bytes → Wire → Option ℕ × Wire
unfolding sahara_send_reset
sahara_done pkt w =
    if not (Pkt.len pkt == Length.done_resp)
    then (none, sahara_send_reset w)
    else if ltb (Pkt.word pkt 0) (2 ^ 31)
    then (some (Pkt.word pkt 0), w)
    else (none, w)

abbrev pub is_set : SaharaImage → Bool
is_set image = elim (image.ptr) [ none ↦ false | some content ↦ true ]

-- the number of images among the first `n`
abbrev pub count_images : ℕ → List SaharaImage → ℕ
count_images zero images = 0
count_images (suc n) [] = 0
count_images (suc n) (image ∷ images) = (if is_set image then 1 else 0) + count_images n images

unfoldable pub sahara_has_done_pending_quirk : Images → Bool
sahara_has_done_pending_quirk none = false
sahara_has_done_pending_quirk (some images) =
    count_images mapping_sz images == 1 && is_set (get_or images sahara_id_ehostdl_img no_image)
