-- ===== src/Media/Examples.antt =====
-- Small caches, waveforms and files, and the theorems about them applied.
use harmonia_server.Prelude.{
  ℕ, ◌≤◌, ◌≡◌, refl, List, [], ◌∷◌, none, some, String, arith, pos, length, contains, All, suc,
  zero, ◌^◌,
}
use harmonia_server.Media.PageCache.{PageEntry, PageCache, add_page, serve_page}
use harmonia_server.Media.PageCache.Bounds.{CacheIsWf, IsBounded, add_page-IsBounded}
use harmonia_server.Media.PageCache.Serves.{Current, serve_page-Current, Holds}
use harmonia_server.Media.Waveform.{WaveformPcm, write}
use harmonia_server.Media.Waveform.Chunks.{write_all, join_all, write_all-join_all, AreSound}
use harmonia_server.Media.Wav.{
  wav_pcm, section, read_chunks, number_at, is_format, seek_section, read_data, chunk_size,
  read_file, read_large,
}
use harmonia_server.Media.Wav.Sections.{Sound, wav_pcm-Sound}

abbrev albums_page : PageEntry
albums_page = record { revision = "r1"; etag = "sum"; text = "/albumsr1"; size = 9 }

abbrev one_page : PageCache
one_page = record { entries = ("/albums", albums_page) ∷ []; order = "/albums" ∷ []; size = 9 }

one_page-CacheIsWf : CacheIsWf one_page
unfolding contains
one_page-CacheIsWf = record {
  once = (refl, tt);
  one_each = (refl, tt);
  same_keys = λ a. refl;
  same_length = refl;
  sum = refl;
}

add_page-IsBounded_example :
    IsBounded (add_page "/tracks" (record albums_page { size = 30000000 }) one_page)
add_page-IsBounded_example =
    add_page-IsBounded "/tracks" (record albums_page { size = 30000000 }) one_page
      one_page-CacheIsWf

abbrev named : String → String → String
named key revision = "page"

abbrev summed : String → String
summed text = "sum"

abbrev page_of_one : PageCache
page_of_one = record one_page { entries = ("/albums", record albums_page { text = "page" }) ∷ [] }

serve_page-Current_example :
    Current "page" "sum"
      (serve_page (some "page") summed (λ text. 4) "/albums" "r1" "" page_of_one).1
    × Holds named summed
        (serve_page (some "page") summed (λ text. 4) "/albums" "r1" "" page_of_one).0.entries
serve_page-Current_example =
    serve_page-Current named summed (λ text. 4) "/albums" "r1" "" page_of_one (refl, refl, tt)

abbrev zeros : ℕ → List ℕ
zeros zero = []
zeros (suc n) = 0 ∷ zeros n

abbrev no_peaks : WaveformPcm
no_peaks = record { peaks = zeros 512; samples = 0; pending = none }

write_all-join_all_example :
    write_all (λ n. n) ((1 ∷ 2 ∷ 3 ∷ []) ∷ (4 ∷ []) ∷ []) no_peaks
    ≡ write (λ n. n) (join_all ((1 ∷ 2 ∷ 3 ∷ []) ∷ (4 ∷ []) ∷ [])) no_peaks
write_all-join_all_example = write_all-join_all (λ n. n) ((1 ∷ 2 ∷ 3 ∷ []) ∷ (4 ∷ []) ∷ []) no_peaks

zeros-low : (n : ℕ) → All (λ (v : ℕ). v ≤ 2 ^ 15) (zeros n)
zeros-low zero = tt
zeros-low (suc n) = (omega arith, zeros-low n)

length-zeros : (n : ℕ) → length (zeros n) ≡ n
length-zeros zero = refl
length-zeros (suc n) = omega (arith, length-zeros n)

no_peaks-AreSound : AreSound no_peaks
no_peaks-AreSound = record { low = zeros-low 512; many = length-zeros 512; waits = λ b e. cc }

-- One frame behind the header that FFmpeg writes.
abbrev one_frame : List ℕ
one_frame =
    82 ∷ 73 ∷ 70 ∷ 70 ∷ 40 ∷ 0 ∷ 0 ∷ 0 ∷ 87 ∷ 65 ∷ 86 ∷ 69 ∷ 102 ∷ 109 ∷ 116 ∷ 32 ∷ 16 ∷ 0 ∷ 0 ∷ 0
    ∷ 1 ∷ 0 ∷ 2 ∷ 0 ∷ 68 ∷ 172 ∷ 0 ∷ 0 ∷ 16 ∷ 177 ∷ 2 ∷ 0 ∷ 4 ∷ 0 ∷ 16 ∷ 0 ∷ 100 ∷ 97 ∷ 116 ∷ 97 ∷ 4
    ∷ 0 ∷ 0 ∷ 0 ∷ 1 ∷ 2 ∷ 3 ∷ 4 ∷ []

one_frame_section : wav_pcm (pos 0) one_frame ≡ section 44 4
unfolding wav_pcm read_file read_chunks number_at is_format seek_section read_data chunk_size
    read_large
one_frame_section = refl

wav_pcm-Sound_example : Sound 48 (wav_pcm (pos 0) one_frame)
wav_pcm-Sound_example = wav_pcm-Sound (pos 0) one_frame
