-- ===== src/Remote/Examples.antt =====
-- A queue of three tracks, of which one is missing, for the theorems about remote.go.
mod Rounds
mod Edits
use harmonia_server.Airplay.Volume.{VolumeFloats}
use harmonia_server.Prelude.Runes.{runes}
use harmonia_server.Remote.State.{answered}
use harmonia_server.Remote.Shuffle.Rounds.{AllPlayed}
use harmonia_server.Remote.Shuffle.Wellformed.{IsWf}
use harmonia_server.Remote.Events.{Event, requested, connected, progressed, ended, ticked, closing}
use harmonia_server.Remote.Loop.{Playing}
use harmonia_server.Remote.Requests.{RemoteCommand}
use harmonia_server.Remote.Restore.{Loaded}
use harmonia_server.Prelude.{eq_iff}
use harmonia_server.Prelude.{
  ℕ, ◌-◌, ◌<◌, ◌≤◌, ◌≡◌, refl, ◌≢◌, Bool, true, false, List, [], ◌∷◌, none, some, String, pos,
  negsuc, arith, contains,
}
use harmonia_server.Remote.State.{
  RemoteSaved, Remote, World, Device, PlaybackSettings, Track, volume_read, play,
}

-- The random source that draws the last candidate.
abbrev pub last_of : ℕ → ℕ
last_of n = n - 1

pub last_of-lt : (n : ℕ) → 0 < n → last_of n < n
last_of-lt n h = omega arith

abbrev pub half_floats : VolumeFloats
half_floats = record {
  parse_float = λ s. none;
  percent = λ db. 50;
  percent-le = λ db a b. omega arith;
}

abbrev pub speaker : Device
speaker = record {
  id = "kitchen";
  device_type = "AirPlay 2";
  unsupported_reason = "";
  requires_auth = true;
}

abbrev pub a_track : Track
a_track = record {
  id = "a";
  source_id = "music";
  path = "a.flac";
  missing = false;
  duration = 180000;
}

abbrev pub missing_track : Track
missing_track = record {
  id = "b";
  source_id = "music";
  path = "b.flac";
  missing = true;
  duration = 0;
}

abbrev pub c_track : Track
c_track = record {
  id = "c";
  source_id = "music";
  path = "c.flac";
  missing = false;
  duration = 60000;
}

abbrev pub home : World
home = record {
  now = 5000;
  tracks = a_track ∷ missing_track ∷ c_track ∷ [];
  sources = record { id = "music"; path = "/music" } ∷ [];
  join = λ root path. path;
  eval_symlinks = λ path. some path;
  rel = λ root path. some path;
  new_id = λ n. "session";
  int_n = λ k n. last_of n;
  int_n-lt = λ k n h. last_of-lt n h;
  floats = half_floats;
  volume_body = λ d. answered (runes "volume: -15");
  session_volume = λ v. true;
  settings_written = true;
  persisted = true;
  identity_written = true;
  begin_pair = λ d. none;
  finish_pair = λ pin. none;
}

-- Track a is up; the others wait.
abbrev pub three_tracks : RemoteSaved
three_tracks = record {
  playback_session = "old";
  listened = pos 0;
  counted = false;
  seeked = false;
  queue = "a" ∷ "b" ∷ "c" ∷ [];
  index = 0;
  position = pos 1000;
  output = "kitchen";
  volume = 30;
  gain = "off";
  gain_context = "track";
  preamp = 0;
  protect = false;
  failure = "skip";
  repeat = "off";
  shuffle = false;
  shuffle_visited = "a" ∷ [];
  deadline = 0;
  finish = false;
  waiting = false;
}

abbrev pub saved_settings : PlaybackSettings
saved_settings = record { gain = "off"; preamp = 0; protect = false; failure = "skip" }

abbrev pub playing_a : Remote
playing_a = record {
  saved = three_tracks;
  settings = saved_settings;
  state = play;
  last_error = none;
  failed = [];
  volume_known = true;
  volume_pending = false;
  devices = speaker ∷ [];
  paired = "kitchen" ∷ [];
  pairing_required = [];
  cancel = true;
  session = some (record { continuous = true });
  generation = 7;
  pair = none;
  closed = false;
  draws = 0;
}

-- The missing track is up.
abbrev pub at_missing : Remote
at_missing = record playing_a { saved = record three_tracks { index = 1 } }

abbrev pub all_played : RemoteSaved
all_played = record three_tracks {
  shuffle_visited = "c" ∷ "a" ∷ "b" ∷ [];
  repeat = "all";
  shuffle = true;
}

abbrev pub loaded : Loaded
loaded = record { base = three_tracks; index = pos 9; position = negsuc 4; volume = pos 120 }

abbrev pub next_request : RemoteCommand
next_request = record {
  action = "next";
  failure = "";
  playing = none;
  ids = [];
  outputs = [];
  index = pos 0;
  position = pos 0;
  volume = pos 0;
  gain = "";
  gain_context = "";
  preamp = 0;
  protect = false;
  deadline = pos 0;
  finish = false;
  repeat = "";
  shuffle = false;
  pin = "";
  output_id = "";
}

abbrev pub a_to_c : Playing
a_to_c = record { generation = 7; from = three_tracks; counted = false }

abbrev pub events : List Event
events =
    requested home next_request
    ∷ connected a_to_c (record { continuous = true })
    ∷ progressed true a_to_c 16000000000
    ∷ ended home 7 none
    ∷ ticked home
    ∷ closing
    ∷ []

pub three_tracks-IsWf : IsWf three_tracks
unfolding contains
three_tracks-IsWf = record {
  in_range = omega arith;
  loud = omega arith;
  small = omega arith;
  marked_once = (refl, tt);
}

pub all_played-AllPlayed : AllPlayed all_played
unfolding contains
all_played-AllPlayed a h = ground arith

pub b-ne-a : ◌≢◌ {A = String} "b" "a"
b-ne-a = ground (arith, eq_iff "b" "a")
