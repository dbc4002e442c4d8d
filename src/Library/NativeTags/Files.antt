-- ===== src/Library/NativeTags/Files.antt =====
-- `readNativeTags` of internal/app/native_tags.go: an ID3 tag before anything else, then the blocks of a FLAC
-- file or the pages of an Ogg file.
use harmonia_server.Prelude.{
  ℕ, zero, suc, ◌+◌, ◌*◌, ◌%◌, Bool, not, ◌&&◌, List, [], Option, if◌then◌else◌, ltb, leb, ◌==◌,
  length, take, drop, get_or,
}
use harmonia_server.Prelude.Runes.{runes, same_runes}
use harmonia_server.Library.NativeTags.{
  Tags, TagRead, read, not_read, max_native_tags, unexpected_eof, too_large, out_of_rounds,
  read_comments,
}
use harmonia_server.Library.NativeTags.Id3.{read_id3v24}
use harmonia_server.Library.NativeTags.Texts.{has_bit, sync_safe}
use harmonia_server.Library.NativeTags.Ogg.{read_ogg_comments}

-- The loop over the blocks goes on with what it has consumed, the bytes that are left and the tags so far.
pub data FlacRound : Type 0 where
  at_block : ℕ → List ℕ → Tags → FlacRound
  ended : TagRead Tags → FlacRound

unfoldable pub after_block : Bool → ℕ → List ℕ → TagRead Tags → FlacRound
after_block last consumed b (not_read e) = ended (not_read e)
after_block last consumed b (read tags) =
    if last then ended (read tags) else at_block consumed b tags

-- The size is in three bytes. `Seek` goes past the end without an error.
unfoldable pub read_block : (ℕ → ℕ) → ℕ → List ℕ → Tags → FlacRound
read_block lower consumed b tags =
    let size = get_or b 1 0 * 65536 + get_or b 2 0 * 256 + get_or b 3 0 in
    let body = drop 4 b in
    let last = has_bit 7 (get_or b 0 0) in
    if ltb max_native_tags (consumed + 4 + size)
    then ended (not_read too_large)
    else (if get_or b 0 0 % 128 == 4
        then (if ltb (length body) size
            then ended (not_read unexpected_eof)
            else after_block last (consumed + 4 + size) (drop size body)
                (read_comments lower (take size body) tags))
        else after_block last (consumed + 4 + size) (drop size body) (read tags))

unfoldable pub block_round : (ℕ → ℕ) → FlacRound → FlacRound
block_round lower (ended r) = ended r
block_round lower (at_block consumed b tags) =
    if not (ltb consumed max_native_tags)
    then ended (not_read too_large)
    else (if ltb (length b) 4
        then ended (not_read unexpected_eof)
        else read_block lower consumed b tags)

unfoldable pub end_blocks : FlacRound → TagRead Tags
end_blocks (ended r) = r
end_blocks (at_block consumed b tags) = not_read out_of_rounds

unfoldable pub read_blocks : (ℕ → ℕ) → ℕ → FlacRound → TagRead Tags
read_blocks lower zero state = end_blocks state
read_blocks lower (suc rounds) state = read_blocks lower rounds (block_round lower state)

-- A block takes four bytes at least, so one round more than there are bytes is enough.
unfoldable pub read_magic : (ℕ → ℕ) → List ℕ → Tags → TagRead Tags
read_magic lower b tags =
    if ltb (length b) 4
    then read tags
    else (if same_runes (take 4 b) (runes "fLaC")
        then read_blocks lower (suc (length b)) (at_block 0 (drop 4 b) tags)
        else (if same_runes (take 4 b) (runes "OggS")
            then read_ogg_comments lower b tags
            else read tags))

unfoldable pub then_magic : (ℕ → ℕ) → List ℕ → TagRead Tags → TagRead Tags
then_magic lower b (not_read e) = not_read e
then_magic lower b (read tags) = read_magic lower b tags

-- The tag of ID3v2.4 is read, an older one passed over; version 4 may have a footer of ten bytes.
unfoldable pub read_id3 :
    (ℕ → ℕ) → (ℕ → List ℕ → Option (List ℕ)) → List ℕ → TagRead ℕ → TagRead Tags
read_id3 lower inflate f (not_read e) = not_read e
read_id3 lower inflate f (read size) =
    let flags = get_or f 5 0 in
    let body = drop 10 f in
    let after = drop size body in
    if ltb max_native_tags size
    then not_read too_large
    else (if ltb (length body) size
        then not_read unexpected_eof
        else (if get_or f 3 0 == 4
            then then_magic lower (if has_bit 4 flags then drop 10 after else after)
                (read_id3v24 lower inflate (take size body) flags [])
            else read_magic lower after []))

unfoldable pub read_native_tags : (ℕ → ℕ) → (ℕ → List ℕ → Option (List ℕ)) → List ℕ → TagRead Tags
read_native_tags lower inflate f =
    if leb 10 (length f) && same_runes (take 3 f) (runes "ID3")
    then read_id3 lower inflate f (sync_safe (take 4 (drop 6 f)))
    else read_magic lower f []
