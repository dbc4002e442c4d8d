-- ===== src/Library/NativeTags/Clean/Wholes.antt =====
-- Whatever a file holds, the reading ends, with clean tags.
use harmonia_server.Prelude.{
  ℕ, zero, suc, ◌+◌, ◌*◌, ◌%◌, ◌≤◌, inl, inr, Bool, true, false, not, ◌||◌, ◌&&◌, List, [], ◌∷◌,
  Option, arith, ltb, leb, ◌==◌, length, take, drop, get_or, All, Bool-cases, length-drop,
}
use harmonia_server.Prelude.Runes.{runes, same_runes, has_prefix}
use harmonia_server.Library.NativeTags.{Tags, TagRead, read, not_read, max_native_tags}
use harmonia_server.Library.NativeTags.Ogg.{
  OggState, OggRound, going, answered, comments_offset, no_codec, serial_value, end_packet,
  take_segment, take_segments, read_page, page_round, end_pages, read_pages, read_ogg_comments,
}
use harmonia_server.Library.NativeTags.Files.{
  FlacRound, at_block, ended, after_block, read_block, block_round, end_blocks, read_blocks,
  read_magic, then_magic, read_id3, read_native_tags,
}
use harmonia_server.Library.NativeTags.Clean.{TagIsClean, ReadIsClean, read_comments-Clean}
use harmonia_server.Library.NativeTags.Clean.Frames.{IsGo, sync_safe-IsGo}
use harmonia_server.Library.NativeTags.Clean.Rounds.{read_id3v24-Clean}

abbrev pub PagesWithin : ℕ → OggRound → Type 0
PagesWithin n (going s b) = length b ≤ n
PagesWithin n (answered r) = ReadIsClean r

abbrev pub BlocksWithin : ℕ → FlacRound → Type 0
BlocksWithin n (at_block consumed b tags) = (length b ≤ n) × All TagIsClean tags
BlocksWithin n (ended r) = ReadIsClean r

module _ (lower : ℕ → ℕ) (tags : Tags) (clean : All TagIsClean tags) where
  end_packet-Within :
      (n serial : ℕ) (packet : List ℕ) (s : OggState) (rest : List ℕ)
      → length rest ≤ n
      → PagesWithin n (end_packet lower tags serial packet s rest)
  unfolding end_packet
  end_packet-Within n serial packet s rest h =
      let offset : ℕ = comments_offset (serial_value no_codec serial s.codecs) packet in
      elim (Bool-cases (has_prefix (1 ∷ runes "vorbis") packet)) [
        | inl first ↦ rw first h
        | inr e1 ↦ elim (Bool-cases (has_prefix (runes "OpusHead") packet)) [
          | inl head ↦ rw (e1, head) h
          | inr e2 ↦ elim (Bool-cases (ltb 0 offset)) [
            | inl comments ↦
                rw (e1, e2, comments) (read_comments-Clean lower (drop offset packet) tags clean)
            | inr other ↦ rw (e1, e2, other) h
          ]
        ]
      ]

  take_segment-Within :
      (n serial segment : ℕ) (state : OggRound)
      → PagesWithin n state
      → PagesWithin n (take_segment lower tags serial segment state)
  unfolding take_segment
  take_segment-Within n serial segment (answered r) w = w
  take_segment-Within n serial segment (going s rest) w =
      elim (Bool-cases (ltb max_native_tags (s.consumed + segment))) [
        | inl large ↦ rw large (λ e. ground arith)
        | inr fits ↦ elim (Bool-cases (ltb (length rest) segment)) [
          | inl short ↦ rw (fits, short) (λ e. ground arith)
          | inr long ↦ elim (Bool-cases (segment == 255)) [
            | inl more ↦ rw (fits, long, more) (omega (arith, length-drop segment rest))
            | inr last ↦
                rw (fits, long, last)
                  (end_packet-Within n serial _ _ (drop segment rest)
                    (omega (arith, length-drop segment rest)))
          ]
        ]
      ]

  take_segments-Within :
      (n serial : ℕ) (lace : List ℕ) (state : OggRound)
      → PagesWithin n state
      → PagesWithin n (take_segments lower tags serial lace state)
  unfolding take_segments
  take_segments-Within n serial [] state w = w
  take_segments-Within n serial (segment ∷ lace) state w =
      take_segments-Within n serial lace _ (take_segment-Within n serial segment state w)

  read_page-Within :
      (n : ℕ) (s : OggState) (b : List ℕ)
      → length b ≤ n + 27
      → PagesWithin n (read_page lower tags s b)
  unfolding read_page
  read_page-Within n s b h =
      let count : ℕ = get_or b 26 0 in
      let body : List ℕ = drop 27 b in
      elim (Bool-cases (not (same_runes (take 4 b) (runes "OggS")) || not (get_or b 4 0 == 0))) [
        | inl bad ↦ rw bad (λ e. ground arith)
        | inr page ↦ elim (Bool-cases (ltb (length body) count)) [
          | inl short ↦ rw (page, short) (λ e. ground arith)
          | inr long ↦
              rw (page, long)
                (take_segments-Within n _ (take count body) (going _ (drop count body))
                  (omega (arith, length-drop count body, length-drop 27 b)))
        ]
      ]

  page_round-Within :
      (n : ℕ) (state : OggRound)
      → PagesWithin (suc n) state
      → PagesWithin n (page_round lower tags state)
  unfolding page_round
  page_round-Within n (answered r) w = w
  page_round-Within n (going s []) w = elim (Bool-cases (ltb s.consumed max_native_tags)) [
    | inl small ↦ rw small clean
    | inr large ↦ rw large (λ e. ground arith)
  ]
  page_round-Within n (going s (c ∷ b)) w =
      elim (Bool-cases (not (ltb s.consumed max_native_tags))) [
        | inl large ↦ rw large (λ e. ground arith)
        | inr small ↦ elim (Bool-cases (ltb (length (c ∷ b)) 27)) [
          | inl short ↦ rw (small, short) (λ e. ground arith)
          | inr long ↦ rw (small, long) (read_page-Within n s (c ∷ b) (omega arith))
        ]
      ]

  -- Without bytes the round has the answer.
  page_round-last :
      (state : OggRound)
      → PagesWithin 0 state
      → ReadIsClean (end_pages (page_round lower tags state))
  unfolding page_round end_pages
  page_round-last (answered r) w = w
  page_round-last (going s []) w = elim (Bool-cases (ltb s.consumed max_native_tags)) [
    | inl small ↦ rw small clean
    | inr large ↦ rw large (λ e. ground arith)
  ]
  page_round-last (going s (c ∷ b)) w = absurd (omega arith)

  read_pages-Clean :
      (rounds : ℕ) (state : OggRound)
      → PagesWithin rounds state
      → ReadIsClean (read_pages lower tags (suc rounds) state)
  unfolding read_pages
  read_pages-Clean zero state w = page_round-last state w
  read_pages-Clean (suc rounds) state w =
      read_pages-Clean rounds _ (page_round-Within rounds state w)

  read_ogg_comments-Clean : (b : List ℕ) → ReadIsClean (read_ogg_comments lower b tags)
  unfolding read_ogg_comments
  read_ogg_comments-Clean b = read_pages-Clean (length b) _ (omega arith)

module _ (lower : ℕ → ℕ) where
  after_block-Within :
      (n : ℕ) (last : Bool) (consumed : ℕ) (b : List ℕ) (state : TagRead Tags)
      → length b ≤ n
      → ReadIsClean state
      → BlocksWithin n (after_block last consumed b state)
  unfolding after_block
  after_block-Within n last consumed b (not_read e) h c = c
  after_block-Within n true consumed b (read tags) h c = c
  after_block-Within n false consumed b (read tags) h c = (h, c)

  read_block-Within :
      (n consumed : ℕ) (b : List ℕ) (tags : Tags)
      → length b ≤ n + 4
      → All TagIsClean tags
      → BlocksWithin n (read_block lower consumed b tags)
  unfolding read_block
  read_block-Within n consumed b tags h c =
      let size : ℕ = get_or b 1 0 * 65536 + get_or b 2 0 * 256 + get_or b 3 0 in
      let body : List ℕ = drop 4 b in
      let fits : length (drop size body) ≤ n =
        omega (arith, length-drop size body, length-drop 4 b) in
      elim (Bool-cases (ltb max_native_tags (consumed + 4 + size))) [
        | inl large ↦ rw large (λ e. ground arith)
        | inr small ↦ elim (Bool-cases (get_or b 0 0 % 128 == 4)) [
          | inl comments ↦ elim (Bool-cases (ltb (length body) size)) [
            | inl short ↦ rw (small, comments, short) (λ e. ground arith)
            | inr long ↦
                rw (small, comments, long)
                  (after_block-Within n _ _ (drop size body) _ fits
                    (read_comments-Clean lower (take size body) tags c))
          ]
          | inr other ↦
              rw (small, other) (after_block-Within n _ _ (drop size body) (read tags) fits c)
        ]
      ]

  block_round-Within :
      (n : ℕ) (state : FlacRound)
      → BlocksWithin (suc n) state
      → BlocksWithin n (block_round lower state)
  unfolding block_round
  block_round-Within n (ended r) w = w
  block_round-Within n (at_block consumed b tags) w =
      elim (Bool-cases (not (ltb consumed max_native_tags))) [
        | inl large ↦ rw large (λ e. ground arith)
        | inr small ↦ elim (Bool-cases (ltb (length b) 4)) [
          | inl short ↦ rw (small, short) (λ e. ground arith)
          | inr long ↦
              rw (small, long) (read_block-Within n consumed b tags (omega (arith, w.0)) w.1)
        ]
      ]

  block_round-last :
      (state : FlacRound)
      → BlocksWithin 0 state
      → ReadIsClean (end_blocks (block_round lower state))
  unfolding block_round end_blocks
  block_round-last (ended r) w = w
  block_round-last (at_block consumed [] tags) w =
      elim (Bool-cases (not (ltb consumed max_native_tags))) [
        | inl large ↦ rw large (λ e. ground arith)
        | inr small ↦ rw small (λ e. ground arith)
      ]
  block_round-last (at_block consumed (c ∷ b) tags) w = absurd (omega (arith, w.0))

  read_blocks-Clean :
      (rounds : ℕ) (state : FlacRound)
      → BlocksWithin rounds state
      → ReadIsClean (read_blocks lower (suc rounds) state)
  unfolding read_blocks
  read_blocks-Clean zero state w = block_round-last state w
  read_blocks-Clean (suc rounds) state w =
      read_blocks-Clean rounds _ (block_round-Within rounds state w)

  read_magic-Clean :
      (b : List ℕ) (tags : Tags) → All TagIsClean tags → ReadIsClean (read_magic lower b tags)
  unfolding read_magic
  read_magic-Clean b tags c = elim (Bool-cases (ltb (length b) 4)) [
    | inl short ↦ rw short c
    | inr long ↦ elim (Bool-cases (same_runes (take 4 b) (runes "fLaC"))) [
      | inl flac ↦
          rw (long, flac)
            (read_blocks-Clean (length b) (at_block 0 (drop 4 b) tags)
              (omega (arith, length-drop 4 b), c))
      | inr e ↦ elim (Bool-cases (same_runes (take 4 b) (runes "OggS"))) [
        | inl ogg ↦ rw (long, e, ogg) (read_ogg_comments-Clean lower tags c b)
        | inr other ↦ rw (long, e, other) c
      ]
    ]
  ]

  then_magic-Clean :
      (b : List ℕ) (state : TagRead Tags)
      → ReadIsClean state
      → ReadIsClean (then_magic lower b state)
  unfolding then_magic
  then_magic-Clean b (not_read e) c = c
  then_magic-Clean b (read tags) c = read_magic-Clean b tags c

  read_id3-Clean :
      (inflate : ℕ → List ℕ → Option (List ℕ)) (f : List ℕ) (size : TagRead ℕ)
      → IsGo size
      → ReadIsClean (read_id3 lower inflate f size)
  unfolding read_id3
  read_id3-Clean inflate f (not_read e) g = g
  read_id3-Clean inflate f (read size) g =
      let flags : ℕ = get_or f 5 0 in
      let body : List ℕ = drop 10 f in
      elim (Bool-cases (ltb max_native_tags size)) [
        | inl large ↦ rw large (λ e. ground arith)
        | inr small ↦ elim (Bool-cases (ltb (length body) size)) [
          | inl short ↦ rw (small, short) (λ e. ground arith)
          | inr long ↦ elim (Bool-cases (get_or f 3 0 == 4)) [
            | inl four ↦
                rw (small, long, four)
                  (then_magic-Clean _ _
                    (read_id3v24-Clean lower inflate flags (take size body) [] tt))
            | inr older ↦ rw (small, long, older) (read_magic-Clean (drop size body) [] tt)
          ]
        ]
      ]

-- Whatever bytes a file has, however it is compressed and whatever lower case is, the reading of its
-- tags ends: with an error that Go has, or with tags of which no key is empty or names a picture
-- and no value is empty or has space around it.
pub read_native_tags-Clean :
    (lower : ℕ → ℕ) (inflate : ℕ → List ℕ → Option (List ℕ)) (f : List ℕ)
    → ReadIsClean (read_native_tags lower inflate f)
unfolding read_native_tags
read_native_tags-Clean lower inflate f =
    elim (Bool-cases (leb 10 (length f) && same_runes (take 3 f) (runes "ID3"))) [
      | inl id3 ↦ rw id3 (read_id3-Clean lower inflate f _ (sync_safe-IsGo (take 4 (drop 6 f))))
      | inr other ↦ rw other (read_magic-Clean lower f [] tt)
    ]
