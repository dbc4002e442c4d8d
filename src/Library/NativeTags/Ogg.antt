-- ===== src/Library/NativeTags/Ogg.antt =====
-- `readOggComments` of internal/app/native_tags.go: the packets of each stream are put together from the
-- pages, until the one with the comments.
use harmonia_server.Prelude.{
  ℕ, zero, suc, ◌+◌, not, ◌||◌, List, [], ◌∷◌, ◌++◌, if◌then◌else◌, ltb, ◌==◌, length, take, drop,
  get_or,
}
use harmonia_server.Prelude.Runes.{runes, same_runes, has_prefix}
use harmonia_server.Library.NativeTags.{
  Tags, TagRead, read, not_read, max_native_tags, unexpected_eof, too_large, invalid_page,
  out_of_rounds, little_32, read_comments,
}

pub data Codec : Type 0 where
  no_codec vorbis opus : Codec

-- The maps by the stream's serial number: the packet that is not complete, and the codec.
pub record OggState : Type 0 where
  pub packets : List (ℕ × List ℕ)
  pub codecs : List (ℕ × Codec)
  pub consumed : ℕ

module _ {ℓ} {A : Type ℓ} where
  unfoldable pub serial_value : A → ℕ → List (ℕ × A) → A
  serial_value d serial [] = d
  serial_value d serial ((k, v) ∷ m) = if k == serial then v else serial_value d serial m

  unfoldable pub put_serial : ℕ → A → List (ℕ × A) → List (ℕ × A)
  put_serial serial v [] = (serial, v) ∷ []
  put_serial serial v ((k, w) ∷ m) =
      let rest = put_serial serial v m in if k == serial then (serial, v) ∷ m else (k, w) ∷ rest

  unfoldable pub drop_serial : ℕ → List (ℕ × A) → List (ℕ × A)
  drop_serial serial [] = []
  drop_serial serial ((k, v) ∷ m) =
      let rest = drop_serial serial m in if k == serial then rest else (k, v) ∷ rest

-- The loop goes on with a state and the bytes that are left, or has its answer.
pub data OggRound : Type 0 where
  going : OggState → List ℕ → OggRound
  answered : TagRead Tags → OggRound

unfoldable pub comments_offset : Codec → List ℕ → ℕ
comments_offset no_codec packet = 0
comments_offset vorbis packet = if has_prefix (3 ∷ runes "vorbis") packet then 7 else 0
comments_offset opus packet = if has_prefix (runes "OpusTags") packet then 8 else 0

-- A packet that is complete.
unfoldable pub end_packet : (ℕ → ℕ) → Tags → ℕ → List ℕ → OggState → List ℕ → OggRound
end_packet lower tags serial packet s rest =
    let offset = comments_offset (serial_value no_codec serial s.codecs) packet in
    if has_prefix (1 ∷ runes "vorbis") packet
    then going (record s { codecs = put_serial serial vorbis s.codecs }) rest
    else (if has_prefix (runes "OpusHead") packet
        then going (record s { codecs = put_serial serial opus s.codecs }) rest
        else (if ltb 0 offset
            then answered (read_comments lower (drop offset packet) tags)
            else going s rest))

-- A segment of n bytes; one of 255 bytes does not end its packet.
unfoldable pub take_segment : (ℕ → ℕ) → Tags → ℕ → ℕ → OggRound → OggRound
take_segment lower tags serial n (answered r) = answered r
take_segment lower tags serial n (going s rest) =
    let packet = serial_value [] serial s.packets ++ take n rest in
    let more = put_serial serial packet s.packets in
    let fewer = drop_serial serial s.packets in
    if ltb max_native_tags (s.consumed + n)
    then answered (not_read too_large)
    else (if ltb (length rest) n
        then answered (not_read unexpected_eof)
        else (if n == 255
            then going (record s { packets = more; consumed = s.consumed + n }) (drop n rest)
            else end_packet lower tags serial packet
                (record s { packets = fewer; consumed = s.consumed + n }) (drop n rest)))

unfoldable pub take_segments : (ℕ → ℕ) → Tags → ℕ → List ℕ → OggRound → OggRound
take_segments lower tags serial [] state = state
take_segments lower tags serial (n ∷ lace) state =
    take_segments lower tags serial lace (take_segment lower tags serial n state)

-- The segments of a page, whose header is not read again.
unfoldable pub read_page : (ℕ → ℕ) → Tags → OggState → List ℕ → OggRound
read_page lower tags s b =
    let count = get_or b 26 0 in
    let body = drop 27 b in
    if not (same_runes (take 4 b) (runes "OggS")) || not (get_or b 4 0 == 0)
    then answered (not_read invalid_page)
    else (if ltb (length body) count
        then answered (not_read unexpected_eof)
        else take_segments lower tags (little_32 (drop 14 b)) (take count body)
            (going (record s { consumed = s.consumed + 27 + count }) (drop count body)))

-- No bytes at all are the end of the file.
unfoldable pub page_round : (ℕ → ℕ) → Tags → OggRound → OggRound
page_round lower tags (answered r) = answered r
page_round lower tags (going s []) =
    answered (if ltb s.consumed max_native_tags then read tags else not_read too_large)
page_round lower tags (going s (c ∷ b)) =
    if not (ltb s.consumed max_native_tags)
    then answered (not_read too_large)
    else (if ltb (length (c ∷ b)) 27
        then answered (not_read unexpected_eof)
        else read_page lower tags s (c ∷ b))

unfoldable pub end_pages : OggRound → TagRead Tags
end_pages (answered r) = r
end_pages (going s b) = not_read out_of_rounds

unfoldable pub read_pages : (ℕ → ℕ) → Tags → ℕ → OggRound → TagRead Tags
read_pages lower tags zero state = end_pages state
read_pages lower tags (suc rounds) state =
    read_pages lower tags rounds (page_round lower tags state)

-- A page takes 27 bytes at least, so one round more than there are bytes is enough.
unfoldable pub read_ogg_comments : (ℕ → ℕ) → List ℕ → Tags → TagRead Tags
read_ogg_comments lower b tags =
    read_pages lower tags (suc (length b))
      (going (record { packets = []; codecs = []; consumed = 0 }) b)
