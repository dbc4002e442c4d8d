-- ===== src/Library/NativeTags/Clean/Rounds.antt =====
-- The loop over the frames of ID3v2.4 comes to an end, with clean tags.
use harmonia_server.Prelude.{
  ℕ, zero, suc, ◌+◌, ◌≤◌, ◌≢◌, inl, inr, ◌||◌, List, [], ◌∷◌, Option, arith, ltb, ◌==◌, length,
  take, drop, get_or, All, Bool-cases, length-drop,
}
use harmonia_server.Library.NativeTags.{Tags, TagRead, read, not_read, out_of_rounds}
use harmonia_server.Library.NativeTags.Texts.{has_bit, sync_safe}
use harmonia_server.Library.NativeTags.Id3.{
  next_frame, sized_frame, frame_round, end_frames, read_frames, after_extended, read_id3v24,
}
use harmonia_server.Library.NativeTags.Clean.{TagIsClean, ReadIsClean}
use harmonia_server.Library.NativeTags.Clean.Frames.{IsGo, sync_safe-IsGo, read_frame-Clean}

-- Clean tags with so many bytes left at most, or an error that Go has.
abbrev pub Within : ℕ → TagRead (List ℕ × Tags) → Type 0
Within n (read (b, tags)) = (length b ≤ n) × All TagIsClean tags
Within n (not_read e) = e ≢ out_of_rounds

next_frame-Within :
    (n : ℕ) (b : List ℕ) (state : TagRead Tags)
    → length b ≤ n
    → ReadIsClean state
    → Within n (next_frame b state)
unfolding next_frame
next_frame-Within n b (not_read e) h a = a
next_frame-Within n b (read tags) h a = (h, a)

module _ (lower : ℕ → ℕ) (inflate : ℕ → List ℕ → Option (List ℕ)) (flags : ℕ) where
  sized_frame-Within :
      (n : ℕ) (b : List ℕ) (tags : Tags) (size : TagRead ℕ)
      → length b ≤ n + 10
      → All TagIsClean tags
      → IsGo size
      → Within n (sized_frame lower inflate flags b tags size)
  unfolding sized_frame
  sized_frame-Within n b tags (not_read e) h a g = g
  sized_frame-Within n b tags (read size) h a g =
      elim (Bool-cases (ltb (length (drop 10 b)) size)) [
        | inl short ↦ rw short (λ e. ground arith)
        | inr long ↦ rw long (
            next_frame-Within n _ _ (ground (arith, length-drop size (drop 10 b), length-drop 10 b))
              (read_frame-Clean lower inflate flags (take 4 b) (get_or b 9 0)
                (take size (drop 10 b)) tags a))
      ]

  frame_round-Within :
      (n : ℕ) (state : TagRead (List ℕ × Tags))
      → Within (suc n) state
      → Within n (frame_round lower inflate flags state)
  unfolding frame_round
  frame_round-Within n (not_read e) w = w
  frame_round-Within n (read ([], tags)) w = (omega arith, w.1)
  frame_round-Within n (read (c ∷ b, tags)) w = elim (Bool-cases (c == 0)) [
    | inl padding ↦ rw padding (omega arith, w.1)
    | inr id ↦ elim (Bool-cases (ltb (length (c ∷ b)) 10)) [
      | inl short ↦ rw (id, short) (λ e. ground arith)
      | inr long ↦
          rw (id, long)
            (sized_frame-Within n (c ∷ b) tags (sync_safe (take 4 (drop 4 (c ∷ b))))
              (omega (arith, w.0)) w.1 (sync_safe-IsGo (take 4 (drop 4 (c ∷ b)))))
    ]
  ]

  read_frames-Clean :
      (rounds : ℕ) (state : TagRead (List ℕ × Tags))
      → Within rounds state
      → ReadIsClean (read_frames lower inflate flags rounds state)
  unfolding read_frames end_frames
  read_frames-Clean zero (not_read e) w = w
  read_frames-Clean zero (read ([], tags)) w = w.1
  read_frames-Clean zero (read (c ∷ b, tags)) w = absurd (omega (arith, w.0))
  read_frames-Clean (suc rounds) state w =
      read_frames-Clean rounds _ (frame_round-Within rounds state w)

  after_extended-Clean :
      (b : List ℕ) (tags : Tags) (size : TagRead ℕ)
      → All TagIsClean tags
      → IsGo size
      → ReadIsClean (after_extended lower inflate flags b tags size)
  unfolding after_extended
  after_extended-Clean b tags (not_read e) a g = g
  after_extended-Clean b tags (read n) a g = elim (Bool-cases (ltb n 6 || ltb (length b) n)) [
    | inl bad ↦ rw bad (λ e. ground arith)
    | inr fine ↦
        rw fine
          (read_frames-Clean (length b) (read (drop n b, tags)) (omega (arith, length-drop n b), a))
  ]

  pub read_id3v24-Clean :
      (b : List ℕ) (tags : Tags)
      → All TagIsClean tags
      → ReadIsClean (read_id3v24 lower inflate b flags tags)
  unfolding read_id3v24
  read_id3v24-Clean b tags a = elim (Bool-cases (has_bit 6 flags)) [
    | inl extended ↦ elim (Bool-cases (ltb (length b) 4)) [
      | inl short ↦ rw (extended, short) (λ e. ground arith)
      | inr long ↦
          rw (extended, long)
            (after_extended-Clean b tags (sync_safe (take 4 b)) a (sync_safe-IsGo (take 4 b)))
    ]
    | inr plain ↦ rw plain (read_frames-Clean (length b) (read (b, tags)) (omega arith, a))
  ]
