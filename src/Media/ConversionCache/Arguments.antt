-- ===== src/Media/ConversionCache/Arguments.antt =====
-- The arguments that `Acquire` of internal/app/media.go gives to FFmpeg, `audioContentType` and the media type of
-- a conversion.
use harmonia_server.Prelude.{
  ℕ, not, ◌&&◌, List, [], ◌∷◌, ◌++◌, Option, none, some, String, if◌then◌else◌, ltb, str_eq,
}

pub record Conversion : Type 0 where
  pub codec : String
  pub output_bitrate : ℕ
  pub output_sample_rate : ℕ
  pub output_channels : ℕ

-- A map from texts to texts; a missing key has the empty text.
unfoldable pub in_table : String → List (String × String) → String
in_table key [] = ""
in_table key ((k, v) ∷ m) = if str_eq k key then v else in_table key m

abbrev pub encoder_of : String → String
encoder_of codec = in_table codec (
    ("mp3", "libmp3lame")
    ∷ ("opus", "libopus")
    ∷ ("flac", "flac")
    ∷ ("aac", "aac")
    ∷ ("wav", "pcm_s16le")
    ∷ [])

abbrev pub container_of : String → String
container_of codec =
    in_table codec
      (("mp3", "mp3") ∷ ("opus", "ogg") ∷ ("flac", "flac") ∷ ("aac", "adts") ∷ ("wav", "wav") ∷ [])

abbrev pub media_type_of : String → String
media_type_of codec = in_table codec (
    ("mp3", "audio/mpeg")
    ∷ ("opus", "audio/ogg")
    ∷ ("flac", "audio/flac")
    ∷ ("aac", "audio/aac")
    ∷ ("wav", "audio/wav")
    ∷ [])

-- The extension is in lower case.
abbrev pub audio_content_type : String → String
audio_content_type extension = in_table extension (
    (".mp3", "audio/mpeg")
    ∷ (".flac", "audio/flac")
    ∷ (".m4a", "audio/mp4")
    ∷ (".mp4", "audio/mp4")
    ∷ (".aac", "audio/aac")
    ∷ (".wav", "audio/wav")
    ∷ (".ogg", "audio/ogg")
    ∷ (".opus", "audio/ogg")
    ∷ (".aif", "audio/aiff")
    ∷ (".aiff", "audio/aiff")
    ∷ [])

unfoldable pub volume_arguments : Option String → List String
volume_arguments none = []
volume_arguments (some volume) = "-af" ∷ volume ∷ []

-- `kbps` and `decimal` print a number; `volume` is the filter that is printed from the gain.
unfoldable pub ffmpeg_arguments :
    (ℕ → String) → (ℕ → String) → Option String → String → String → Conversion → List String
ffmpeg_arguments kbps decimal volume input output rule =
    "-v"
    ∷ "error"
    ∷ "-nostdin"
    ∷ "-i"
    ∷ input
    ∷ "-map"
    ∷ "0:a:0"
    ∷ "-vn"
    ∷ "-c:a"
    ∷ encoder_of rule.codec
    ∷ ((if ltb 0 rule.output_bitrate
            && not (str_eq rule.codec "flac")
            && not (str_eq rule.codec "wav")
          then "-b:a" ∷ kbps rule.output_bitrate ∷ []
          else [])
        ++ ((if ltb 0 rule.output_sample_rate
              then "-ar" ∷ decimal rule.output_sample_rate ∷ []
              else [])
            ++ ((if ltb 0 rule.output_channels
                  then "-ac" ∷ decimal rule.output_channels ∷ []
                  else [])
                ++ (volume_arguments volume
                    ++ ((if str_eq rule.codec "wav" then "-rf64" ∷ "auto" ∷ [] else [])
                        ++ ("-f" ∷ container_of rule.codec ∷ "-y" ∷ output ∷ []))))))
