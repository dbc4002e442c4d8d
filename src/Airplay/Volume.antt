-- ===== src/Airplay/Volume.antt =====
-- `parseVolume` of internal/airplay/volume.go: the volume that a receiver reports. Every volume that `ReadVolume`
-- returns is what this makes of one body.
use harmonia_server.Prelude.{
  ℕ, ◌≤◌, ◌^◌, ◌≡◌, Bool, false, not, ◌&&◌, ◌||◌, List, [], ◌∷◌, Option, none, some, arith,
  if◌then◌else◌, ltb, leb, inl, inr, Bool-cases,
}
use harmonia_server.Prelude.Float.{magnitude, is_nan, is_inf}
use harmonia_server.Prelude.Runes.{
  runes, same_runes, split_at, trim_space, cut_at, map_runes, upper_letter,
}

abbrev pub is_negative : ℕ → Bool
is_negative bits = leb (2 ^ 63) bits

-- `db > 0`, `db < -144` and `db <= -30` on the bits of a number; 144 and 30 by theirs.
unfoldable pub is_above_0 : ℕ → Bool
is_above_0 db = not (is_negative db) && ltb 0 (magnitude db)

unfoldable pub is_below_144 : ℕ → Bool
is_below_144 db = is_negative db && ltb 0x4062000000000000 (magnitude db)

unfoldable pub is_silent : ℕ → Bool
is_silent db = is_negative db && leb 0x403e000000000000 (magnitude db)

-- What the code takes from Go: `strconv.ParseFloat`, which gives the bits of a float64, and
-- `int(math.Round((db + 30) / 0.3))`, which is at most 100 for a number that is above -30 and not above 0.
pub record VolumeFloats : Type 0 where
  pub parse_float : List ℕ → Option ℕ
  pub percent : ℕ → ℕ
  pub percent-le : (db : ℕ) → is_above_0 db ≡ false → is_silent db ≡ false → percent db ≤ 100

pub data ReportedVolume : Type 0 where
  reported : ℕ → ReportedVolume
  invalid_volume not_reported : ReportedVolume

unfoldable pub volume_of : VolumeFloats → Option ℕ → ReportedVolume
volume_of go none = invalid_volume
volume_of go (some db) =
    if is_nan db || is_inf db || is_above_0 db || is_below_144 db
    then invalid_volume
    else (if is_silent db then reported 0 else reported (go.percent db))

unfoldable pub is_volume : List ℕ → Bool
is_volume key = same_runes (map_runes upper_letter (trim_space key)) (runes "VOLUME")

unfoldable pub volume_line :
    VolumeFloats → Option (List ℕ × List ℕ) → ReportedVolume → ReportedVolume
volume_line go none later = later
volume_line go (some (key, value)) later =
    if is_volume key then volume_of go (go.parse_float (trim_space value)) else later

unfoldable pub volume_lines : VolumeFloats → List (List ℕ) → ReportedVolume
volume_lines go [] = not_reported
volume_lines go (line ∷ lines) = volume_line go (cut_at 58 line) (volume_lines go lines)

unfoldable pub parse_volume : VolumeFloats → List ℕ → ReportedVolume
parse_volume go body = volume_lines go (split_at 10 body)

-- A volume that was read is a percentage.
abbrev pub IsPercent : ReportedVolume → Type 0
IsPercent (reported n) = n ≤ 100
IsPercent _ = Unit {0}

volume_of-IsPercent : (go : VolumeFloats) (db : Option ℕ) → IsPercent (volume_of go db)
unfolding volume_of
volume_of-IsPercent go none = tt
volume_of-IsPercent go (some db) =
    elim (Bool-cases (is_nan db || is_inf db || is_above_0 db || is_below_144 db)) [
      | inl bad ↦ rw bad tt
      | inr fine ↦ elim (Bool-cases (is_silent db)) [
        | inl quiet ↦ rw (fine, quiet) (omega arith)
        | inr heard ↦ rw (fine, heard) (go.percent-le db (ground arith) heard)
      ]
    ]

volume_line-IsPercent :
    (go : VolumeFloats) (pair : Option (List ℕ × List ℕ)) (later : ReportedVolume)
    → IsPercent later
    → IsPercent (volume_line go pair later)
unfolding volume_line
volume_line-IsPercent go none later h = h
volume_line-IsPercent go (some (key, value)) later h = elim (Bool-cases (is_volume key)) [
  | inl here ↦ rw here (volume_of-IsPercent go (go.parse_float (trim_space value)))
  | inr other ↦ rw other h
]

volume_lines-IsPercent :
    (go : VolumeFloats) (lines : List (List ℕ)) → IsPercent (volume_lines go lines)
unfolding volume_lines
volume_lines-IsPercent go [] = tt
volume_lines-IsPercent go (line ∷ lines) =
    volume_line-IsPercent go (cut_at 58 line) (volume_lines go lines)
      (volume_lines-IsPercent go lines)

pub parse_volume-IsPercent : (go : VolumeFloats) (body : List ℕ) → IsPercent (parse_volume go body)
unfolding parse_volume
parse_volume-IsPercent go body = volume_lines-IsPercent go (split_at 10 body)
