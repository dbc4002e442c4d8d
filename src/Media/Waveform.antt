-- ===== src/Media/Waveform.antt =====
-- internal/app/waveform.go: the peaks of a track, collected while its PCM streams in.
pub mod Chunks
use harmonia_server.Prelude.{
  ℕ, zero, suc, ◌+◌, ◌-◌, ◌*◌, ◌^◌, List, [], ◌∷◌, Option, none, some, min, max, if◌then◌else◌, ltb,
}

abbrev pub waveform_points : ℕ
waveform_points = 512

-- `waveformPCM`. `pending` is the first byte of a sample whose second is still to come. `place n`
-- is `int(float64(n) * waveformPoints / total)`, which depends on the length of the track.
pub record WaveformPcm : Type 0 where
  pub peaks : List ℕ
  pub samples : ℕ
  pub pending : Option ℕ

-- The magnitude of a 16-bit sample, whose low byte comes first.
unfoldable pub magnitude_of : ℕ → ℕ → ℕ
magnitude_of lo hi = let v = lo + 256 * hi in if ltb v (2 ^ 15) then v else 2 ^ 16 - v

-- `p.peaks[index] = max(p.peaks[index], v)`
unfoldable pub raise_peak : ℕ → ℕ → List ℕ → List ℕ
raise_peak i v [] = []
raise_peak zero v (p ∷ ps) = max p v ∷ ps
raise_peak (suc i) v (p ∷ ps) = p ∷ raise_peak i v ps

unfoldable pub add_sample : (ℕ → ℕ) → ℕ → ℕ → WaveformPcm → WaveformPcm
unfolding magnitude_of raise_peak
add_sample place lo hi p = record p {
  peaks = raise_peak (min (waveform_points - 1) (place p.samples)) (magnitude_of lo hi) p.peaks;
  samples = p.samples + 1;
}

-- The loop over pairs of bytes, and the byte that may be left.
unfoldable pub add_pairs : (ℕ → ℕ) → List ℕ → WaveformPcm → WaveformPcm
add_pairs place [] p = p
add_pairs place (lo ∷ []) p = record p { pending = some lo }
add_pairs place (lo ∷ hi ∷ b) p = add_pairs place b (add_sample place lo hi p)

unfoldable pub write_after : (ℕ → ℕ) → Option ℕ → List ℕ → WaveformPcm → WaveformPcm
unfolding add_sample add_pairs
write_after place none b p = add_pairs place b p
write_after place (some lo) [] p = p
write_after place (some lo) (hi ∷ b) p =
    add_pairs place b (record (add_sample place lo hi p) { pending = none })

-- `Write`
unfoldable pub write : (ℕ → ℕ) → List ℕ → WaveformPcm → WaveformPcm
write place b p = write_after place p.pending b p
