-- ===== src/Airplay/Metadata.antt =====
-- What internal/airplay/metadata.go sends of a track: `dmapItem`, `trackDMAP`, `optionalMetadataError` and
-- `metadataAt`, and `syncAudio` of session.go. A text is the list of its bytes.
pub mod Listing
mod Examples
use harmonia_server.Prelude.{
  ℕ, ◌+◌, ◌-◌, ◌*◌, ◌/◌, ◌%◌, ◌^◌, min, Bool, true, false, not, ◌||◌, ◌&&◌, List, [], ◌∷◌, ◌++◌,
  Option, none, some, if◌then◌else◌, ltb, ◌==◌, length, take, ℤ, pos, negsuc,
}
use harmonia_server.Prelude.Runes.{runes, same_runes}
use harmonia_server.Airplay.Devices.{MetadataSupport}
use harmonia_server.Airplay.Dns.{put_16}
use harmonia_server.Airplay.Clock.{put_big, zeros, Moment, ntp}

-- Times are in nanoseconds.
pub record TrackMetadata : Type 0 where
  pub id : List ℕ
  pub title : List ℕ
  pub artist : List ℕ
  pub album : List ℕ
  pub album_artist : List ℕ
  pub has_artwork : Bool
  pub number : ℤ
  pub disc : ℤ
  pub duration : ℤ
  pub position : ℤ

unfoldable pub dmap_item : List ℕ → List ℕ → List ℕ
dmap_item tag value = tag ++ (put_big 4 (length value) ++ value)

unfoldable pub at_least_zero : ℤ → ℕ
at_least_zero (pos n) = n
at_least_zero (negsuc n) = 0

unfoldable pub text_items : List (List ℕ × List ℕ) → List ℕ
text_items [] = []
text_items ((tag, value) ∷ fields) = dmap_item tag value ++ text_items fields

unfoldable pub number_items : List (List ℕ × ℤ) → List ℕ
number_items [] = []
number_items ((tag, value) ∷ fields) =
    dmap_item tag (put_16 (min (at_least_zero value) 65535)) ++ number_items fields

-- `digest` is SHA-256.
unfoldable pub id_items : (List ℕ → List ℕ) → List ℕ → List ℕ
id_items digest [] = []
id_items digest (c ∷ id) =
    dmap_item (runes "mper") (take 8 (digest (c ∷ id)))
    ++ dmap_item (runes "miid") (take 4 (digest (c ∷ id)))

unfoldable pub duration_item : ℕ → List ℕ
duration_item time =
    if ltb 0 time
    then dmap_item (runes "astm") (put_big 4 (min (time / 1000000) 4294967295))
    else []

unfoldable pub track_dmap : (List ℕ → List ℕ) → TrackMetadata → List ℕ
track_dmap digest t = dmap_item (runes "mlit") (
    dmap_item (runes "mikd") (2 ∷ [])
    ++ (dmap_item (runes "asdk") (0 ∷ [])
        ++ (dmap_item (runes "asac") (put_16 (if t.has_artwork then 1 else 0))
            ++ (text_items (
                  (runes "minm", t.title)
                  ∷ (runes "asar", t.artist)
                  ∷ (runes "asal", t.album)
                  ∷ (runes "asaa", t.album_artist)
                  ∷ [])
                ++ (id_items digest t.id
                    ++ (number_items ((runes "astn", t.number) ∷ (runes "asdn", t.disc) ∷ [])
                        ++ duration_item (at_least_zero t.duration)))))))

-- `uint32(time * SampleRate / time.Second)` of a time that is not negative, in 64 bits with a sign.
unfoldable pub frames_of : ℕ → ℕ
frames_of time =
    let product = time * 44100 % 2 ^ 64 in
    if ltb product (2 ^ 63)
    then product / 1000000000 % 4294967296
    else (4294967296 - (2 ^ 64 - product) / 1000000000 % 4294967296) % 4294967296

-- A `SET_PARAMETER` with the time in its header.
pub data Parameter : Type 0 where
  progress_of : ℕ → ℕ → ℕ → ℕ → Parameter
  dmap_of : ℕ → List ℕ → Parameter

-- The answer of the receiver: a status other than 200 is a rejection.
pub data MetadataReply : Type 0 where
  accepted : MetadataReply
  rejected : List ℕ → MetadataReply
  failed : MetadataReply

unfoldable pub is_optional : List ℕ → Bool
is_optional status =
    same_runes status (runes "405")
    || same_runes status (runes "415")
    || same_runes status (runes "451")
    || same_runes status (runes "501")

unfoldable pub optional_metadata_error : MetadataReply → MetadataReply
optional_metadata_error accepted = accepted
optional_metadata_error (rejected status) = if is_optional status then accepted else rejected status
optional_metadata_error failed = failed

-- The requests that were sent, and the last answer.
unfoldable pub send_text :
    (List ℕ → List ℕ)
    → (Parameter → MetadataReply)
    → MetadataSupport
    → TrackMetadata
    → ℕ
    → List Parameter × MetadataReply
send_text digest ask m t stamp =
    let has_artwork = t.has_artwork && (not m.known || m.artwork) in
    let request = dmap_of stamp (track_dmap digest (record t { has_artwork = has_artwork })) in
    if m.known && not m.text
    then ([], accepted)
    else (request ∷ [], optional_metadata_error (ask request))

unfoldable pub after_progress :
    Parameter → MetadataReply → List Parameter × MetadataReply → List Parameter × MetadataReply
after_progress request accepted (later, answer) = (request ∷ later, answer)
after_progress request wrong rest = (request ∷ [], wrong)

unfoldable pub metadata_at :
    (List ℕ → List ℕ)
    → (Parameter → MetadataReply)
    → MetadataSupport
    → TrackMetadata
    → ℕ
    → List Parameter × MetadataReply
metadata_at digest ask m t stamp =
    let duration = at_least_zero t.duration in
    let position = min (at_least_zero t.position) duration in
    let start = (stamp + 4294967296 - frames_of position) % 4294967296 in
    let stop = (start + frames_of duration) % 4294967296 in
    let request = progress_of stamp start stamp stop in
    let rest = send_text digest ask m t stamp in
    if ltb 0 duration && (not m.known || m.progress)
    then after_progress request (optional_metadata_error (ask request)) rest
    else rest

-- The packet of `syncAudio`; `latency` is the lead in frames, and `at` the time less the lead.
unfoldable pub sync_audio : Bool → Bool → ℕ → ℕ → Moment → ℕ → List ℕ
sync_audio ptp first stamp latency at id =
    let head = if first then 0x90 else 0x80 in
    let behind = (stamp + 4294967296 - latency) % 4294967296 in
    if ptp
    then head
      ∷ 0xd7
      ∷ (put_16 6
          ++ (put_big 4 behind
              ++ (put_big 8 (at.seconds * 1000000000 + at.nanos)
                  ++ (put_big 4 ((stamp + 4294967296 - 11025) % 4294967296) ++ put_big 8 id))))
    else head ∷ 0xd4 ∷ (put_16 7 ++ (put_big 4 behind ++ (put_big 8 (ntp at) ++ put_big 4 stamp)))
