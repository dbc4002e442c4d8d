-- ===== src/Media/Wav.antt =====
-- `wavPCM` of internal/app/remote_pcm.go: where the samples of a cached WAV file are. A file is the
-- list of its bytes.
pub mod Sections
use harmonia_server.Prelude.{
  ℕ, zero, suc, ◌+◌, ◌-◌, ◌*◌, ◌/◌, ◌%◌, Bool, true, false, not, ◌&&◌, ◌||◌, List, ℤ, pos, negsuc,
  if◌then◌else◌, ltb, leb, ◌==◌, length, get_or,
}

-- The little-endian number in k bytes at an offset.
unfoldable pub number_at : ℕ → ℕ → List ℕ → ℕ
number_at zero offset f = 0
number_at (suc k) offset f = get_or f offset 0 + 256 * number_at k (offset + 1) f

-- The names of chunks, as such numbers: RIFF, RF64, WAVE, ds64, `fmt ` and data.
abbrev pub riff_tag : ℕ
riff_tag = 0x46464952

abbrev pub rf64_tag : ℕ
rf64_tag = 0x34364652

abbrev pub wave_tag : ℕ
wave_tag = 0x45564157

abbrev pub ds64_tag : ℕ
ds64_tag = 0x34367364

abbrev pub fmt_tag : ℕ
fmt_tag = 0x20746d66

abbrev pub data_tag : ℕ
data_tag = 0x61746164

-- `out_of_rounds` is no error of Go: it stands for a loop that did not end.
pub data WavError : Type 0 where
  invalid_pcm beyond_duration short_file out_of_rounds : WavError

-- `io.NewSectionReader(f, start, size)`
pub data WavResult : Type 0 where
  section : ℕ → ℕ → WavResult
  wav_failed : WavError → WavResult

-- 16-bit stereo PCM at 44100 frames a second.
unfoldable pub is_format : ℕ → List ℕ → Bool
unfolding number_at
is_format start f =
    number_at 2 start f == 1
    && number_at 2 (start + 2) f == 2
    && number_at 4 (start + 4) f == 44100
    && number_at 4 (start + 8) f == 176400
    && number_at 2 (start + 12) f == 4
    && number_at 2 (start + 14) f == 16

unfoldable pub seek_section : ℕ → ℕ → ℕ → WavResult
seek_section position start size =
    let offset = position * 44100 / 1000 * 4 in
    if ltb (size / 4 * 1000 / 44100) position
    then wav_failed beyond_duration
    else (if leb size offset
        then wav_failed beyond_duration
        else section (start + offset) (size - offset))

-- The case of the data chunk.
unfoldable pub read_data : Bool → ℤ → ℕ → ℕ → WavResult
unfolding seek_section
read_data valid (negsuc _) start size = wav_failed invalid_pcm
read_data valid (pos position) start size =
    if not valid || size == 0 || not (size % 4 == 0)
    then wav_failed invalid_pcm
    else seek_section position start size

-- What a RIFF or an RF64 file says of itself: where its chunks end, and the size of a large data
-- chunk.
pub record WavFile : Type 0 where
  pub rf64 : Bool
  pub end : ℕ
  pub large_data : ℕ

unfoldable pub chunk_size : WavFile → ℕ → List ℕ → ℕ
chunk_size h offset f =
    let size = number_at 4 (offset + 4) f in
    if h.rf64 && number_at 4 offset f == data_tag && size == 0xffffffff then h.large_data else size

-- The loop over the chunks. `ReadAt` inside the end of the chunks does not fail.
unfoldable pub read_chunks : ℕ → WavFile → ℤ → Bool → ℕ → List ℕ → WavResult
read_chunks zero h position valid offset f = wav_failed out_of_rounds
read_chunks (suc rounds) h position valid offset f =
    let size = chunk_size h offset f in
    let start = offset + 8 in
    let tag = number_at 4 offset f in
    let after = start + size + size % 2 in
    let formatted = read_chunks rounds h position (is_format start f) after f in
    let skipped = read_chunks rounds h position valid after f in
    if ltb h.end (offset + 8)
    then wav_failed invalid_pcm
    else (if ltb (h.end - start) size
        then wav_failed invalid_pcm
        else (if tag == fmt_tag
            then (if ltb size 16 then wav_failed invalid_pcm else formatted)
            else (if tag == data_tag then read_data valid position start size else skipped)))

-- Each round passes eight bytes at least, so one round more than the file has bytes is enough.
unfoldable pub read_file : WavFile → ℤ → List ℕ → WavResult
read_file h position f =
    if ltb (length f) h.end || ltb h.end 12
    then wav_failed invalid_pcm
    else read_chunks (length f + 1) h position false 12 f

-- The ds64 chunk of an RF64 file.
unfoldable pub read_large : ℤ → List ℕ → WavResult
read_large position f =
    if ltb (length f) 48
    then wav_failed short_file
    else (if not (number_at 4 12 f == ds64_tag) || ltb (number_at 4 16 f) 28
        then wav_failed invalid_pcm
        else (if ltb (length f - 8) (number_at 8 20 f) || ltb (length f) (number_at 8 28 f)
            then wav_failed invalid_pcm
            else read_file
                (record { rf64 = true; end = number_at 8 20 f + 8; large_data = number_at 8 28 f })
                position f))

unfoldable pub wav_pcm : ℤ → List ℕ → WavResult
wav_pcm position f =
    let small : WavFile = record { rf64 = false; end = number_at 4 4 f + 8; large_data = 0 } in
    if ltb (length f) 12
    then wav_failed short_file
    else (if not (number_at 4 0 f == rf64_tag || number_at 4 0 f == riff_tag)
          || not (number_at 4 8 f == wave_tag)
        then wav_failed invalid_pcm
        else (if number_at 4 0 f == rf64_tag
            then read_large position f
            else read_file small position f))
