-- ===== src/Remote/Gapless/Examples.antt =====
-- Track a is heard and track b was joined behind it; the theorems about remote_queue.go applied to them.
use harmonia_server.Prelude.{pos, refl, Bool, true, false, List, [], ◌∷◌, some, arith, strs_eq}
use harmonia_server.Remote.Examples.{
  home, three_tracks, playing_a, last_of, last_of-lt, next_request, three_tracks-IsWf,
}
use harmonia_server.Remote.Shuffle.Wellformed.{IsWf}
use harmonia_server.Remote.Events.{requested}
use harmonia_server.Remote.Gapless.{
  QueuedTrack, Reader, prepared, read_end, progress, stream_queue, same_queue,
}
use harmonia_server.Remote.Gapless.Timeline.{Joins, read_end-Joins}
use harmonia_server.Remote.Gapless.Heard.{Heard, progress-Heard, Shows, progress-Shows}
use harmonia_server.Remote.Gapless.Wellformed.{
  StreamEvent, other, pcm_ended, converted, heard, stream_run, stream_run-IsWf,
}

-- Ten seconds of a, then five of b.
abbrev ten_seconds : QueuedTrack
ten_seconds = record {
  saved = three_tracks;
  held = true;
  start = 0;
  frames = 441000;
  counted = false;
  completed = false;
}

abbrev five_seconds : QueuedTrack
five_seconds = record ten_seconds {
  saved = record three_tracks { index = 1; position = pos 0; playback_session = "second" };
  start = 441000;
  frames = 220500;
}

abbrev joined : Reader
joined = record {
  generation = 7;
  current = five_seconds;
  pending = ten_seconds ∷ five_seconds ∷ [];
  next = prepared (some ten_seconds);
  eof = false;
  skip_artwork = true;
}

abbrev always : QueuedTrack → Bool
always t = true

read_end-Joins_example : Joins 0 (read_end last_of "third" (λ n. true) joined playing_a).0
read_end-Joins_example =
    read_end-Joins last_of "third" (λ n. true) joined playing_a 0
      ((refl, (refl, refl)), omega arith)

progress-Heard_example :
    Heard 12000000000 (progress always 7 12000000000 joined.pending playing_a).0
progress-Heard_example =
    progress-Heard always 7 12000000000 0 661500 joined.pending playing_a (omega arith)
      (refl, (refl, refl)) (omega arith)

progress-Shows_example : Shows 12000000000 (progress always 7 12000000000 joined.pending playing_a)
unfolding same_queue strs_eq
progress-Shows_example =
    progress-Shows always 7 12000000000 0 661500 ten_seconds (five_seconds ∷ []) playing_a
      (omega arith) (refl, (refl, refl)) (refl, (refl, tt))

abbrev stream_events : List StreamEvent
stream_events =
    converted home (λ t. some 441000)
    ∷ pcm_ended home 3 (λ n. true)
    ∷ heard always 4000000000
    ∷ other (requested home next_request)
    ∷ heard always 12000000000
    ∷ []

stream_run-IsWf_example :
    IsWf
      (stream_run stream_events (
        stream_queue last_of "next" 441000 false playing_a.saved playing_a.generation,
        playing_a,
      )).1.saved
stream_run-IsWf_example =
    stream_run-IsWf stream_events last_of "next" 441000 false playing_a last_of-lt three_tracks-IsWf
