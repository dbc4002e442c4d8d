-- ===== src/Library/NativeTags/Id3.antt =====
-- The ID3v2.4 tags at the head of a file: `readID3v24` of internal/app/native_tags.go.
use harmonia_server.Prelude.{
  ℕ, zero, suc, ◌+◌, Bool, true, false, not, ◌||◌, ◌&&◌, List, [], ◌∷◌, Option, none, some,
  if◌then◌else◌, ltb, ◌==◌, length, take, drop, get_or,
}
use harmonia_server.Prelude.Runes.{runes, same_runes}
use harmonia_server.Library.NativeTags.{
  Tags, TagRead, read, not_read, max_native_tags, unexpected_eof, too_large, invalid_extended,
  encrypted_frame, invalid_zlib, out_of_rounds, add_native_tag,
}
use harmonia_server.Library.NativeTags.Texts.{has_bit, sync_safe, undo_unsync, id3_text, id3_genre}

abbrev pub frame_names : List (List ℕ × List ℕ)
frame_names =
    (runes "TPE1", runes "artist")
    ∷ (runes "TPE2", runes "album_artist")
    ∷ (runes "TCON", runes "genre")
    ∷ (runes "TALB", runes "album")
    ∷ (runes "TIT2", runes "title")
    ∷ (runes "TCOM", runes "composer")
    ∷ (runes "TPE3", runes "conductor")
    ∷ (runes "TDRC", runes "date")
    ∷ (runes "TYER", runes "tyer")
    ∷ (runes "TRCK", runes "track")
    ∷ (runes "TPOS", runes "disc")
    ∷ (runes "TBPM", runes "bpm")
    ∷ (runes "TKEY", runes "initialkey")
    ∷ []

unfoldable pub name_of : List (List ℕ × List ℕ) → List ℕ → Option (List ℕ)
name_of [] id = none
name_of ((k, name) ∷ names) id = if same_runes k id then some name else name_of names id

unfoldable pub add_values : (ℕ → ℕ) → Bool → List ℕ → List (List ℕ) → Tags → Tags
add_values lower genre key [] tags = tags
add_values lower genre key (value ∷ values) tags =
    add_values lower genre key values
      (add_native_tag lower key (if genre then id3_genre value else value) tags)

-- A TXXX frame holds its key before its values; one without a value is passed over.
unfoldable pub add_own : (ℕ → ℕ) → List (List ℕ) → Tags → Tags
add_own lower (key ∷ value ∷ values) tags = add_values lower false key (value ∷ values) tags
add_own lower values tags = tags

unfoldable pub add_frame : (ℕ → ℕ) → List ℕ → Option (List ℕ) → List (List ℕ) → Tags → Tags
add_frame lower id none values tags = add_own lower values tags
add_frame lower id (some key) values tags =
    add_values lower (same_runes id (runes "TCON")) key values tags

unfoldable pub with_text :
    (ℕ → ℕ) → List ℕ → Option (List ℕ) → TagRead (List (List ℕ)) → Tags → TagRead Tags
with_text lower id key (not_read e) tags = not_read e
with_text lower id key (read values) tags = read (add_frame lower id key values tags)

-- `inflate limit` is zlib's reader: the first `limit` bytes of what it gives, or an error.
unfoldable pub inflated : Option (List ℕ) → TagRead (List ℕ)
inflated none = not_read invalid_zlib
inflated (some frame) =
    if ltb max_native_tags (length frame) then not_read too_large else read frame

unfoldable pub text_of : TagRead (List ℕ) → TagRead (List (List ℕ))
text_of (not_read e) = not_read e
text_of (read frame) = id3_text frame

-- The data of a frame behind its optional group, length and compression.
unfoldable pub frame_data : (ℕ → List ℕ → Option (List ℕ)) → ℕ → List ℕ → TagRead (List ℕ)
frame_data inflate format frame =
    let grouped = if has_bit 6 format then drop 1 frame else frame in
    let measured = if has_bit 0 format then drop 4 grouped else grouped in
    if has_bit 6 format && ltb (length frame) 1
    then not_read unexpected_eof
    else (if has_bit 0 format && ltb (length grouped) 4
        then not_read unexpected_eof
        else (if has_bit 3 format
            then inflated (inflate (max_native_tags + 1) measured)
            else read measured))

unfoldable pub is_none : Option (List ℕ) → Bool
is_none none = true
is_none (some s) = false

unfoldable pub read_frame :
    (ℕ → ℕ) → (ℕ → List ℕ → Option (List ℕ)) → ℕ → List ℕ → ℕ → List ℕ → Tags → TagRead Tags
read_frame lower inflate flags id format frame tags =
    let key = name_of frame_names id in
    let plain = if has_bit 7 flags || has_bit 1 format then undo_unsync frame else frame in
    if is_none key && not (same_runes id (runes "TXXX"))
    then read tags
    else (if has_bit 2 format
        then not_read encrypted_frame
        else with_text lower id key (text_of (frame_data inflate format plain)) tags)

-- A round of the loop over the frames: the bytes that are left, none at the end, and the tags so far.
unfoldable pub next_frame : List ℕ → TagRead Tags → TagRead (List ℕ × Tags)
next_frame b (not_read e) = not_read e
next_frame b (read tags) = read (b, tags)

unfoldable pub sized_frame :
    (ℕ → ℕ)
    → (ℕ → List ℕ → Option (List ℕ))
    → ℕ
    → List ℕ
    → Tags
    → TagRead ℕ
    → TagRead (List ℕ × Tags)
sized_frame lower inflate flags b tags (not_read e) = not_read e
sized_frame lower inflate flags b tags (read n) =
    if ltb (length (drop 10 b)) n
    then not_read unexpected_eof
    else next_frame (drop n (drop 10 b))
        (read_frame lower inflate flags (take 4 b) (get_or b 9 0) (take n (drop 10 b)) tags)

unfoldable pub frame_round :
    (ℕ → ℕ) → (ℕ → List ℕ → Option (List ℕ)) → ℕ → TagRead (List ℕ × Tags) → TagRead (List ℕ × Tags)
frame_round lower inflate flags (not_read e) = not_read e
frame_round lower inflate flags (read ([], tags)) = read ([], tags)
frame_round lower inflate flags (read (c ∷ b, tags)) =
    if c == 0
    then read ([], tags)
    else (if ltb (length (c ∷ b)) 10
        then not_read unexpected_eof
        else sized_frame lower inflate flags (c ∷ b) tags (sync_safe (take 4 (drop 4 (c ∷ b)))))

unfoldable pub end_frames : TagRead (List ℕ × Tags) → TagRead Tags
end_frames (not_read e) = not_read e
end_frames (read ([], tags)) = read tags
end_frames (read (c ∷ b, tags)) = not_read out_of_rounds

unfoldable pub read_frames :
    (ℕ → ℕ) → (ℕ → List ℕ → Option (List ℕ)) → ℕ → ℕ → TagRead (List ℕ × Tags) → TagRead Tags
read_frames lower inflate flags zero state = end_frames state
read_frames lower inflate flags (suc rounds) state =
    read_frames lower inflate flags rounds (frame_round lower inflate flags state)

-- A frame takes ten bytes at least, so the number of bytes is rounds enough.
unfoldable pub after_extended :
    (ℕ → ℕ) → (ℕ → List ℕ → Option (List ℕ)) → ℕ → List ℕ → Tags → TagRead ℕ → TagRead Tags
after_extended lower inflate flags b tags (not_read e) = not_read e
after_extended lower inflate flags b tags (read n) =
    if ltb n 6 || ltb (length b) n
    then not_read invalid_extended
    else read_frames lower inflate flags (length b) (read (drop n b, tags))

unfoldable pub read_id3v24 :
    (ℕ → ℕ) → (ℕ → List ℕ → Option (List ℕ)) → List ℕ → ℕ → Tags → TagRead Tags
read_id3v24 lower inflate b flags tags =
    if has_bit 6 flags
    then (if ltb (length b) 4
        then not_read unexpected_eof
        else after_extended lower inflate flags b tags (sync_safe (take 4 b)))
    else read_frames lower inflate flags (length b) (read (b, tags))
