-- ===== src/Library/NativeTags/Texts.antt =====
-- The numbers and texts of ID3v2.4: `syncSafe`, `undoUnsync`, `id3Text` and `id3Genre` of
-- internal/app/native_tags.go.
use harmonia_server.Prelude.{
  ℕ, ◌+◌, ◌*◌, ◌/◌, ◌%◌, ◌^◌, Bool, true, false, not, ◌||◌, ◌&&◌, List, [], ◌∷◌, Option, none, some,
  if◌then◌else◌, ltb, ◌==◌, length, drop, get_or,
}
use harmonia_server.Prelude.Runes.{runes, same_runes, split_at, natural}
use harmonia_server.Library.NativeTags.{
  TagRead, read, not_read, unexpected_eof, invalid_sync_safe, invalid_utf8, missing_bom,
  invalid_utf16, unsupported_encoding,
}
use harmonia_server.Library.NativeTags.Encodings.{decode_utf8, decode_utf16}

-- `v & (1 << k) != 0`
unfoldable pub has_bit : ℕ → ℕ → Bool
has_bit k v = v / 2 ^ k % 2 == 1

-- Seven bits in each byte.
unfoldable pub sync_safe_from : ℕ → List ℕ → Option ℕ
sync_safe_from n [] = some n
sync_safe_from n (v ∷ b) =
    let rest = sync_safe_from (n * 128 + v) b in if has_bit 7 v then none else rest

unfoldable pub from_bits : Option ℕ → TagRead ℕ
from_bits none = not_read invalid_sync_safe
from_bits (some n) = read n

unfoldable pub sync_safe : List ℕ → TagRead ℕ
sync_safe b =
    if not (length b == 4) then not_read unexpected_eof else from_bits (sync_safe_from 0 b)

-- A zero after 255 was put there by the writer; `after_ff` tells that the byte before was a 255.
unfoldable pub undo_from : Bool → List ℕ → List ℕ
undo_from after_ff [] = []
undo_from after_ff (a ∷ b) =
    let rest = undo_from (a == 255) b in if after_ff && a == 0 then rest else a ∷ rest

unfoldable pub undo_unsync : List ℕ → List ℕ
undo_unsync b = undo_from false b

-- The units of UTF-16 without U+FEFF, in the order that `little` says.
unfoldable pub utf16_units : Bool → List ℕ → List ℕ
utf16_units little (a ∷ b ∷ s) =
    let v = if little then b * 256 + a else a * 256 + b in
    let rest = utf16_units little s in if v == 0xfeff then rest else v ∷ rest
utf16_units little s = []

unfoldable pub read_units : Bool → List ℕ → TagRead (List (List ℕ))
read_units little b =
    if not (length b % 2 == 0)
    then not_read invalid_utf16
    else read (split_at 0 (decode_utf16 none (utf16_units little b)))

unfoldable pub read_marked : List ℕ → TagRead (List (List ℕ))
read_marked b =
    if ltb (length b) 2
    then not_read unexpected_eof
    else (if get_or b 0 0 == 255 && get_or b 1 0 == 254
        then read_units true (drop 2 b)
        else (if not (get_or b 0 0 == 254) || not (get_or b 1 0 == 255)
            then not_read missing_bom
            else read_units false (drop 2 b)))

unfoldable pub read_utf8 : Option (List ℕ) → TagRead (List (List ℕ))
read_utf8 none = not_read invalid_utf8
read_utf8 (some text) = read (split_at 0 text)

-- The first byte names the encoding; the code points of ISO-8859-1 are its bytes.
unfoldable pub id3_text : List ℕ → TagRead (List (List ℕ))
id3_text [] = not_read unexpected_eof
id3_text (encoding ∷ b) =
    if encoding == 0
    then read (split_at 0 b)
    else (if encoding == 3
        then read_utf8 (decode_utf8 b)
        else (if encoding == 1
            then read_marked b
            else (if encoding == 2 then read_units false b else not_read unsupported_encoding)))

-- The names of the genres by their ID3v1 numbers.
unfoldable pub genres : List (List ℕ)
genres = split_at 124 (
    runes
      "Blues|Classic Rock|Country|Dance|Disco|Funk|Grunge|Hip-Hop|Jazz|Metal|New Age|Oldies|Other|Pop|R&B|Rap|Reggae|Rock|Techno|Industrial|Alternative|Ska|Death Metal|Pranks|Soundtrack|Euro-Techno|Ambient|Trip-Hop|Vocal|Jazz+Funk|Fusion|Trance|Classical|Instrumental|Acid|House|Game|Sound Clip|Gospel|Noise|AlternRock|Bass|Soul|Punk|Space|Meditative|Instrumental Pop|Instrumental Rock|Ethnic|Gothic|Darkwave|Techno-Industrial|Electronic|Pop-Folk|Eurodance|Dream|Southern Rock|Comedy|Cult|Gangsta|Top 40|Christian Rap|Pop/Funk|Jungle|Native American|Cabaret|New Wave|Psychadelic|Rave|Showtunes|Trailer|Lo-Fi|Tribal|Acid Punk|Acid Jazz|Polka|Retro|Musical|Rock & Roll|Hard Rock")

unfoldable pub genre_at : List ℕ → Option ℕ → List ℕ
genre_at value none = value
genre_at value (some n) = get_or genres n value

unfoldable pub id3_genre : List ℕ → List ℕ
id3_genre value =
    if same_runes value (runes "RX")
    then runes "Remix"
    else (if same_runes value (runes "CR") then runes "Cover" else genre_at value (natural value))
