-- ===== src/Library/NativeTags.antt =====
-- internal/app/native_tags.go: the tags that a file keeps in its own words. A file is the list of its
-- bytes and a text the list of its code points; this file has the map of tags and the comments of
-- FLAC and Ogg files.
pub mod Encodings
pub mod Texts
pub mod Id3
pub mod Ogg
pub mod Files
pub mod Clean
pub mod Comments
use harmonia_server.Prelude.{
  ℕ, zero, suc, ◌+◌, ◌*◌, Bool, true, false, ◌||◌, List, [], ◌∷◌, ◌++◌, Option, none, some,
  if◌then◌else◌, ltb, length, take, drop, get_or,
}
use harmonia_server.Prelude.Runes.{runes, same_runes, trim_space, cut_at, map_runes}
use Encodings.{decode_utf8}

-- A map from keys to the values in the order of the file.
abbrev pub Tags : Type 0
Tags = List (List ℕ × List (List ℕ))

-- `out_of_rounds` is no error of Go: it stands for a loop that did not end.
pub data TagError : Type 0 where
  unexpected_eof invalid_sync_safe too_large invalid_comment invalid_page : TagError
  invalid_utf8 missing_bom invalid_utf16 unsupported_encoding invalid_extended : TagError
  encrypted_frame invalid_zlib out_of_rounds : TagError

pub data TagRead {ℓ} (A : Type ℓ) : Type ℓ where
  read : A → TagRead A
  not_read : TagError → TagRead A

abbrev pub max_native_tags : ℕ
max_native_tags = 67108864

-- `tags[key] = append(tags[key], value)`
unfoldable pub append_tag : List ℕ → List ℕ → Tags → Tags
append_tag key value [] = (key, value ∷ []) ∷ []
append_tag key value ((k, vs) ∷ tags) =
    let rest = append_tag key value tags in
    if same_runes k key then (k, vs ++ (value ∷ [])) ∷ tags else (k, vs) ∷ rest

unfoldable pub is_picture : List ℕ → Bool
is_picture key =
    same_runes key (runes "metadata_block_picture") || same_runes key (runes "coverart")

unfoldable pub is_empty : List ℕ → Bool
is_empty [] = true
is_empty (c ∷ s) = false

-- `lower` is `unicode.ToLower`.
unfoldable pub add_native_tag : (ℕ → ℕ) → List ℕ → List ℕ → Tags → Tags
add_native_tag lower key value tags =
    let k = map_runes lower (trim_space key) in
    let v = trim_space value in
    if is_picture k || is_empty k || is_empty v then tags else append_tag k v tags

-- The little-endian number in four bytes.
unfoldable pub little_32 : List ℕ → ℕ
little_32 b = get_or b 0 0 + 256 * (get_or b 1 0 + 256 * (get_or b 2 0 + 256 * get_or b 3 0))

-- The closure `take`: the bytes of a field, and the bytes after it.
unfoldable pub take_field : List ℕ → Option (List ℕ × List ℕ)
take_field b =
    if ltb (length b) 4 || ltb (length (drop 4 b)) (little_32 b)
    then none
    else some (take (little_32 b) (drop 4 b), drop (little_32 b) (drop 4 b))

unfoldable pub and_left : List ℕ → TagRead Tags → TagRead (List ℕ × Tags)
and_left b (not_read e) = not_read e
and_left b (read tags) = read (b, tags)

-- One comment: `key=value` in valid UTF-8. The equals sign is ASCII, so it is the same before and after
-- the decoding.
unfoldable pub comment_pair : Option (List ℕ) → Option (List ℕ × List ℕ)
comment_pair none = none
comment_pair (some text) = cut_at 61 text

unfoldable pub add_comment : (ℕ → ℕ) → Option (List ℕ × List ℕ) → Tags → TagRead Tags
add_comment lower none tags = not_read invalid_comment
add_comment lower (some (key, value)) tags = read (add_native_tag lower key value tags)

-- A round of the loop: the bytes that are left and the tags so far.
unfoldable pub take_comment : (ℕ → ℕ) → Option (List ℕ × List ℕ) → Tags → TagRead (List ℕ × Tags)
take_comment lower none tags = not_read unexpected_eof
take_comment lower (some (v, b)) tags =
    and_left b (add_comment lower (comment_pair (decode_utf8 v)) tags)

unfoldable pub read_field : (ℕ → ℕ) → TagRead (List ℕ × Tags) → TagRead (List ℕ × Tags)
read_field lower (not_read e) = not_read e
read_field lower (read (b, tags)) = take_comment lower (take_field b) tags

unfoldable pub read_fields : (ℕ → ℕ) → ℕ → TagRead (List ℕ × Tags) → TagRead (List ℕ × Tags)
read_fields lower zero state = state
read_fields lower (suc count) state = read_fields lower count (read_field lower state)

unfoldable pub only_tags : TagRead (List ℕ × Tags) → TagRead Tags
only_tags (not_read e) = not_read e
only_tags (read (b, tags)) = read tags

-- After the vendor's name there is the count.
unfoldable pub read_counted : (ℕ → ℕ) → Option (List ℕ × List ℕ) → Tags → TagRead Tags
read_counted lower none tags = not_read unexpected_eof
read_counted lower (some (vendor, b)) tags =
    if ltb (length b) 4
    then not_read unexpected_eof
    else only_tags (read_fields lower (little_32 b) (read (drop 4 b, tags)))

unfoldable pub read_comments : (ℕ → ℕ) → List ℕ → Tags → TagRead Tags
read_comments lower b tags = read_counted lower (take_field b) tags
