-- ===== src/Library/Tagged.antt =====
-- Small files and paths, and the theorems about them applied.
use harmonia_server.Library.Globs.Under.{allowed-under}
use harmonia_server.Library.Globs.{
  Patterns, any_match, glob_match, match_upwards, translate, pieces_at, plain_pieces, stars_after,
  trim_slashes, no_slashes_before, no_slashes_behind, unless_slash, with_slashes, matches,
  at_character, at_end, allowed, parent, parent_of,
}
use harmonia_server.Prelude.{ℕ, ◌≡◌, refl, List, [], ◌∷◌, ◌++◌, Option, none, arith, false, true}
use harmonia_server.Prelude.Runes.{runes, cut_at, cut_further, lower_letter}
use harmonia_server.Library.NativeTags.{read, comment_pair, read_comments}
use harmonia_server.Library.NativeTags.Encodings.{
  decode_utf8, decode_after, put_complete, next_byte, first_byte, prepend,
}
use harmonia_server.Library.NativeTags.Files.{read_native_tags}
use harmonia_server.Library.NativeTags.Clean.{ReadIsClean}
use harmonia_server.Library.NativeTags.Clean.Wholes.{read_native_tags-Clean}
use harmonia_server.Library.NativeTags.Comments.{
  Comment, IsComment, write_comments, add_comments, read_comments-write_comments,
}

abbrev artist : Comment
artist = record { bytes = runes "ARTIST=Nina"; key = runes "ARTIST"; value = runes "Nina" }

artist-IsComment : IsComment artist
unfolding comment_pair decode_utf8 decode_after put_complete next_byte first_byte prepend cut_at
    cut_further
artist-IsComment = (refl, omega arith)

read_comments-write_comments_example :
    read_comments lower_letter (write_comments (runes "flac") (artist ∷ artist ∷ []) ++ (7 ∷ [])) []
    ≡ read (add_comments lower_letter (artist ∷ artist ∷ []) [])
read_comments-write_comments_example =
    read_comments-write_comments lower_letter (runes "flac") (artist ∷ artist ∷ []) (7 ∷ []) []
      (omega arith) (omega arith) (artist-IsComment, (artist-IsComment, tt))

abbrev nothing_inflates : ℕ → List ℕ → Option (List ℕ)
nothing_inflates limit b = none

-- A FLAC file whose last block has one comment.
abbrev flac_file : List ℕ
flac_file = runes "fLaC" ++ (132 ∷ 0 ∷ 0 ∷ 27 ∷ write_comments (runes "flac") (artist ∷ []))

read_native_tags-Clean_example :
    ReadIsClean (read_native_tags lower_letter nothing_inflates flac_file)
read_native_tags-Clean_example = read_native_tags-Clean lower_letter nothing_inflates flac_file

-- A pattern without stars ignores a folder and what is in it.
abbrev drafts : Patterns
drafts = record { ignore = runes "drafts" ∷ []; keep = [] }

drafts-matched : any_match drafts.ignore (runes "drafts") ≡ true
unfolding any_match glob_match match_upwards translate pieces_at plain_pieces stars_after
    trim_slashes no_slashes_before no_slashes_behind unless_slash with_slashes matches at_character
    at_end
drafts-matched = refl

trimmed :
    (trim_slashes (runes "drafts") ≡ runes "drafts")
    × (trim_slashes (runes "drafts/a/b.mp3") ≡ runes "drafts/a/b.mp3")
unfolding trim_slashes no_slashes_before no_slashes_behind unless_slash
trimmed = (refl, refl)

allowed-under_example : allowed drafts (runes "drafts/a/b.mp3") ≡ false
allowed-under_example =
    allowed-under drafts (runes "drafts") (runes "a/b.mp3") trimmed.0 trimmed.1 drafts-matched

-- A byte of a pattern stands for the character of its number, so the UTF-8 of a letter outside ASCII
-- does not match that letter.
umlaut_unmatched : glob_match (195 ∷ 188 ∷ []) (252 ∷ []) ≡ false
unfolding glob_match match_upwards translate pieces_at plain_pieces stars_after trim_slashes
    no_slashes_before no_slashes_behind unless_slash with_slashes matches at_character at_end parent
    parent_of
umlaut_unmatched = refl
