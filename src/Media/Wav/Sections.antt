-- ===== src/Media/Wav/Sections.antt =====
-- The samples that are read lie inside the file, and begin and end between frames.
use harmonia_server.Prelude.{
  ℕ, zero, suc, ◌+◌, ◌-◌, ◌*◌, ◌/◌, ◌%◌, ◌<◌, ◌≤◌, ◌≡◌, ◌≢◌, inl, inr, Bool, false, not, ◌||◌, List,
  ℤ, pos, negsuc, arith, ltb, leb, ◌==◌, length, Bool-cases,
}
use harmonia_server.Media.Wav.{
  number_at, fmt_tag, data_tag, riff_tag, rf64_tag, wave_tag, ds64_tag, out_of_rounds, WavResult,
  section, wav_failed, is_format, seek_section, read_data, WavFile, chunk_size, read_chunks,
  read_file, read_large, wav_pcm,
}

-- A section of some whole frames inside the file, or an error that Go has.
abbrev pub Sound : ℕ → WavResult → Type 0
Sound bytes (section start size) = (start + size ≤ bytes) × (0 < size) × (size % 4 ≡ 0)
Sound bytes (wav_failed e) = e ≢ out_of_rounds

seek_section-Sound :
    (bytes position start size : ℕ)
    → start + size ≤ bytes
    → size % 4 ≡ 0
    → Sound bytes (seek_section position start size)
unfolding seek_section
seek_section-Sound bytes position start size h e =
    elim (Bool-cases (ltb (size / 4 * 1000 / 44100) position)) [
      | inl late ↦ rw late (λ x. ground arith)
      | inr on ↦ elim (Bool-cases (leb size (position * 44100 / 1000 * 4))) [
        | inl late ↦ rw (on, late) (λ x. ground arith)
        | inr within ↦ rw (on, within) (ground arith, ground arith, ground arith)
      ]
    ]

read_data-Sound :
    (bytes : ℕ) (valid : Bool) (position : ℤ) (start size : ℕ)
    → start + size ≤ bytes
    → Sound bytes (read_data valid position start size)
unfolding read_data
read_data-Sound bytes valid (negsuc p) start size h = λ e. ground arith
read_data-Sound bytes valid (pos p) start size h =
    elim (Bool-cases (not valid || size == 0 || not (size % 4 == 0))) [
      | inl bad ↦ rw bad (λ e. ground arith)
      | inr fine ↦ rw fine (seek_section-Sound bytes p start size h (ground arith))
    ]

read_chunks-Sound :
    (rounds : ℕ) (h : WavFile) (position : ℤ) (valid : Bool) (offset : ℕ) (f : List ℕ)
    → h.end ≤ length f
    → offset ≤ length f + 1
    → length f + 2 ≤ offset + rounds
    → Sound (length f) (read_chunks rounds h position valid offset f)
unfolding read_chunks
read_chunks-Sound zero h position valid offset f inside here enough = absurd (omega arith)
read_chunks-Sound (suc rounds) h position valid offset f inside here enough =
    let size : ℕ = chunk_size h offset f in
    let after : ℕ = offset + 8 + size + size % 2 in
    elim (Bool-cases (ltb h.end (offset + 8))) [
      | inl over ↦ rw over (λ e. ground arith)
      | inr more ↦ elim (Bool-cases (ltb (h.end - (offset + 8)) size)) [
        | inl large ↦ rw (more, large) (λ e. ground arith)
        | inr fits ↦ elim (Bool-cases (number_at 4 offset f == fmt_tag)) [
          | inl format ↦ elim (Bool-cases (ltb size 16)) [
            | inl short ↦ rw (more, fits, format, short) (λ e. ground arith)
            | inr long ↦
                rw (more, fits, format, long)
                  (read_chunks-Sound rounds h position (is_format (offset + 8) f) after f inside
                    (ground arith) (ground arith))
          ]
          | inr other ↦ elim (Bool-cases (number_at 4 offset f == data_tag)) [
            | inl samples ↦
                rw (more, fits, other, samples)
                  (read_data-Sound (length f) valid position (offset + 8) size (ground arith))
            | inr skipped ↦
                rw (more, fits, other, skipped)
                  (read_chunks-Sound rounds h position valid after f inside (ground arith)
                    (ground arith))
          ]
        ]
      ]
    ]

read_file-Sound :
    (h : WavFile) (position : ℤ) (f : List ℕ) → Sound (length f) (read_file h position f)
unfolding read_file
read_file-Sound h position f = elim (Bool-cases (ltb (length f) h.end || ltb h.end 12)) [
  | inl bad ↦ rw bad (λ e. ground arith)
  | inr fine ↦ rw fine (
      read_chunks-Sound (length f + 1) h position false 12 f (ground arith) (ground arith)
        (ground arith))
]

read_large-Sound : (position : ℤ) (f : List ℕ) → Sound (length f) (read_large position f)
unfolding read_large
read_large-Sound position f = elim (Bool-cases (ltb (length f) 48)) [
  | inl short ↦ rw short (λ e. ground arith)
  | inr long ↦ elim (Bool-cases (not (number_at 4 12 f == ds64_tag) || ltb (number_at 4 16 f) 28)) [
    | inl bad ↦ rw (long, bad) (λ e. ground arith)
    | inr fine ↦
        elim (Bool-cases
          (ltb (length f - 8) (number_at 8 20 f) || ltb (length f) (number_at 8 28 f))) [
            | inl out ↦ rw (long, fine, out) (λ e. ground arith)
            | inr within ↦ rw (long, fine, within) (read_file-Sound _ position f)
          ]
  ]
]

-- Whatever bytes the cached file has and whatever position is asked for, the chunks come to an end; and
-- what is read is a section inside the file, of at least one frame and of whole frames of four bytes.
pub wav_pcm-Sound : (position : ℤ) (f : List ℕ) → Sound (length f) (wav_pcm position f)
unfolding wav_pcm
wav_pcm-Sound position f = elim (Bool-cases (ltb (length f) 12)) [
  | inl short ↦ rw short (λ e. ground arith)
  | inr long ↦
      elim (Bool-cases (
        not (number_at 4 0 f == rf64_tag || number_at 4 0 f == riff_tag)
        || not (number_at 4 8 f == wave_tag))) [
          | inl bad ↦ rw (long, bad) (λ e. ground arith)
          | inr fine ↦ elim (Bool-cases (number_at 4 0 f == rf64_tag)) [
            | inl large ↦ rw (long, fine, large) (read_large-Sound position f)
            | inr small ↦ rw (long, fine, small) (read_file-Sound _ position f)
          ]
        ]
]
