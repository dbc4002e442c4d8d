-- ===== src/Media/Waveform/Chunks.antt =====
-- How the PCM is cut into writes does not matter.
use harmonia_server.Prelude.{
  ℕ, zero, suc, ◌-◌, ◌<◌, ◌≤◌, ◌≡◌, refl, sym, ap, ◌∙◌, List, [], ◌∷◌, ◌++◌, Option, none, some,
  arith, min, length, ◌^◌, All,
}
use harmonia_server.Media.Waveform.{
  waveform_points, WaveformPcm, magnitude_of, raise_peak, add_sample, add_pairs, write_after, write,
}

add_pairs-append :
    (place : ℕ → ℕ) (xs ys : List ℕ) (p : WaveformPcm)
    → p.pending ≡ none
    → add_pairs place (xs ++ ys) p ≡ write place ys (add_pairs place xs p)
unfolding add_pairs write write_after add_sample
add_pairs-append place [] ys p e = rw (e, write_after)
add_pairs-append place (lo ∷ []) [] p e = refl
add_pairs-append place (lo ∷ []) (hi ∷ ys) p e =
    ap (λ (q : Option ℕ). add_pairs place ys (record (add_sample place lo hi p) { pending = q })) e
add_pairs-append place (lo ∷ hi ∷ xs) ys p e =
    add_pairs-append place xs ys (add_sample place lo hi p) e

write_after-append :
    (place : ℕ → ℕ) (xs ys : List ℕ) (p : WaveformPcm) (q : Option ℕ)
    → p.pending ≡ q
    → write_after place q (xs ++ ys) p ≡ write place ys (write_after place q xs p)
unfolding write_after write
write_after-append place xs ys p none e = add_pairs-append place xs ys p e
write_after-append place [] ys p (some lo) e = rw (e, write_after)
write_after-append place (hi ∷ xs) ys p (some lo) e =
    add_pairs-append place xs ys (record (add_sample place lo hi p) { pending = none }) refl

-- Two writes are one write of both, wherever the bytes are cut, also inside a sample.
pub write-append :
    (place : ℕ → ℕ) (xs ys : List ℕ) (p : WaveformPcm)
    → write place (xs ++ ys) p ≡ write place ys (write place xs p)
unfolding write
write-append place xs ys p = write_after-append place xs ys p p.pending refl

unfoldable pub write_all : (ℕ → ℕ) → List (List ℕ) → WaveformPcm → WaveformPcm
write_all place [] p = p
write_all place (b ∷ bs) p = write_all place bs (write place b p)

unfoldable pub join_all : List (List ℕ) → List ℕ
join_all [] = []
join_all (b ∷ bs) = b ++ join_all bs

write_after-nothing :
    (place : ℕ → ℕ) (p : WaveformPcm) (q : Option ℕ) → write_after place q [] p ≡ p
unfolding write_after add_pairs
write_after-nothing place p none = refl
write_after-nothing place p (some lo) = refl

-- A sequence of writes is one write of all their bytes: how ffmpeg's output is cut does not matter.
pub write_all-join_all :
    (place : ℕ → ℕ) (bs : List (List ℕ)) (p : WaveformPcm)
    → write_all place bs p ≡ write place (join_all bs) p
unfolding write_all join_all write
write_all-join_all place [] p = sym (write_after-nothing place p p.pending)
write_all-join_all place (b ∷ bs) p =
    write_all-join_all place bs (write place b p) ∙ sym (write-append place b (join_all bs) p)

-- Peaks of 16-bit samples, at all 512 points; a byte that waits is a byte.
abbrev AllBounded : List ℕ → Type 0
AllBounded = All (λ (v : ℕ). v ≤ 2 ^ 15)

abbrev pub AreBytes : List ℕ → Type 0
AreBytes = All (λ (b : ℕ). b < 256)

pub record AreSound (p : WaveformPcm) : Type 0 where
  pub low : All (λ (v : ℕ). v ≤ 2 ^ 15) p.peaks
  pub many : length p.peaks ≡ waveform_points
  pub waits : (b : ℕ) → p.pending ≡ some b → b < 256

raise_peak-AllBounded :
    (i v : ℕ) (ps : List ℕ)
    → v ≤ 2 ^ 15
    → AllBounded ps
    → AllBounded (raise_peak i v ps) × (length (raise_peak i v ps) ≡ length ps)
unfolding raise_peak
raise_peak-AllBounded i v [] h ok = (tt, refl)
raise_peak-AllBounded zero v (p ∷ ps) h (a, ok) = ((omega arith, ok), refl)
raise_peak-AllBounded (suc i) v (p ∷ ps) h (a, ok) =
    let (rest, same) = raise_peak-AllBounded i v ps h ok in ((a, rest), omega (arith, same))

magnitude_of-le : (lo hi : ℕ) → lo < 256 → hi < 256 → magnitude_of lo hi ≤ 2 ^ 15
unfolding magnitude_of
magnitude_of-le lo hi a b = ground arith

-- A sample, with the waiting byte that is left after it.
add_sample-AreSound :
    (place : ℕ → ℕ) (lo hi : ℕ) (p : WaveformPcm)
    → lo < 256
    → hi < 256
    → AreSound p
    → AreSound (record (add_sample place lo hi p) { pending = none })
unfolding add_sample
add_sample-AreSound place lo hi p a b ok =
    let (low, same) =
      raise_peak-AllBounded (min (waveform_points - 1) (place p.samples)) (magnitude_of lo hi)
        p.peaks (magnitude_of-le lo hi a b) ok.low in
    record { low = low; many = same ∙ ok.many; waits = λ c e. cc }

add_pairs-AreSound :
    (place : ℕ → ℕ) (b : List ℕ) (p : WaveformPcm)
    → AreBytes b
    → p.pending ≡ none
    → AreSound p
    → AreSound (add_pairs place b p)
unfolding add_pairs add_sample
add_pairs-AreSound place [] p bytes e ok = ok
add_pairs-AreSound place (lo ∷ []) p (a, bytes) e ok = record {
  low = ok.low;
  many = ok.many;
  waits = λ c h. ground arith;
}
add_pairs-AreSound place (lo ∷ hi ∷ b) p (a, (c, bytes)) e ok =
    let next : AreSound (record (add_sample place lo hi p) { pending = none }) =
      add_sample-AreSound place lo hi p a c ok in
    add_pairs-AreSound place b (add_sample place lo hi p) bytes e
      (record { low = next.low; many = next.many; waits = ok.waits })

write_after-AreSound :
    (place : ℕ → ℕ) (b : List ℕ) (p : WaveformPcm) (q : Option ℕ)
    → p.pending ≡ q
    → AreBytes b
    → AreSound p
    → AreSound (write_after place q b p)
unfolding write_after
write_after-AreSound place b p none e bytes ok = add_pairs-AreSound place b p bytes e ok
write_after-AreSound place [] p (some lo) e bytes ok = ok
write_after-AreSound place (hi ∷ b) p (some lo) e (c, bytes) ok =
    add_pairs-AreSound place b (record (add_sample place lo hi p) { pending = none }) bytes refl
      (add_sample-AreSound place lo hi p (ok.waits lo e) c ok)

-- A write of bytes keeps 512 peaks, none above 2 ^ 15, whatever the length of the track was said to be.
pub write-AreSound :
    (place : ℕ → ℕ) (b : List ℕ) (p : WaveformPcm)
    → AreBytes b
    → AreSound p
    → AreSound (write place b p)
unfolding write
write-AreSound place b p = write_after-AreSound place b p p.pending refl
