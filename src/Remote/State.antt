-- ===== src/Remote/State.antt =====
-- The state of internal/app/remote.go, and what its operations see of their surroundings.
use harmonia_server.Airplay.Volume.{VolumeFloats}
use harmonia_server.Prelude.{ℕ, ◌<◌, Bool, List, Option, String, ℤ}

-- `RemoteSaved`. Listened seconds are counted in nanoseconds, and may be negative like the position when Go's numbers wrap; Preamp is a bit pattern.
pub record RemoteSaved : Type 0 where
  pub playback_session : String
  pub listened : ℤ
  pub counted : Bool
  pub seeked : Bool
  pub queue : List String
  pub index : ℕ
  pub position : ℤ
  pub output : String
  pub volume : ℕ
  pub gain : String
  pub gain_context : String
  pub preamp : ℕ
  pub protect : Bool
  pub failure : String
  pub repeat : String
  pub shuffle : Bool
  pub shuffle_visited : List String
  pub deadline : ℕ
  pub finish : Bool
  pub waiting : Bool

pub data PlayState : Type 0 where
  stop pause loading play : PlayState

-- `airplay.Device`, as far as the playback queue reads it.
pub record Device : Type 0 where
  pub id : String
  pub device_type : String
  pub unsupported_reason : String
  pub requires_auth : Bool

-- `remoteSession`; `continuous` is the test for `continuousSession`.
pub record Session : Type 0 where
  pub continuous : Bool

-- `PlaybackSettings` of playback_settings.go.
pub record PlaybackSettings : Type 0 where
  pub gain : String
  pub preamp : ℕ
  pub protect : Bool
  pub failure : String

pub data TrackError : Type 0 where
  track_unavailable file_outside_source unresolved : TrackError

-- The errors of the commands. `skip_limit` is no Go value: a loop that ran out of fuel.
pub data RemoteError : Type 0 where
  select_output_first output_unavailable queue_is_empty seek_beyond_duration : RemoteError
  requires_pairing pairing_required start_pairing_first legacy_pairing : RemoteError
  unsupported : String → RemoteError
  remote_track_error : TrackError → RemoteError
  track_error : TrackError → RemoteError
  too_many_outputs output_not_found queue_too_long invalid_queue_or_position : RemoteError
  invalid_seek invalid_queue_index invalid_queue_position invalid_volume : RemoteError
  invalid_repeat invalid_deadline unknown_command : RemoteError
  invalid_gain invalid_preamp invalid_failure : RemoteError
  shutting_down transport volume_unread not_persisted : RemoteError
  skip_limit : RemoteError

-- `Remote`, with the settings of its `App`. Maps to truth values are lists of their keys; `paired`
-- holds the keys of `identity.Credentials`; `draws` counts what was drawn from the random sources.
pub record Remote : Type 0 where
  pub saved : RemoteSaved
  pub settings : PlaybackSettings
  pub state : PlayState
  pub last_error : Option RemoteError
  pub failed : List String
  pub volume_known : Bool
  pub volume_pending : Bool
  pub devices : List Device
  pub paired : List String
  pub pairing_required : List String
  pub cancel : Bool
  pub session : Option Session
  pub generation : ℕ
  pub pair : Option String
  pub closed : Bool
  pub draws : ℕ

-- `Track` and `Source`. `duration` is the least number of milliseconds that is not below
-- Duration * 1000, so a natural number of milliseconds reaches one when it reaches the other.
pub record Track : Type 0 where
  pub id : String
  pub source_id : String
  pub path : String
  pub missing : Bool
  pub duration : ℕ

pub record Source : Type 0 where
  pub id : String
  pub path : String

-- `start` and `trackFromState` hand these on.
pub data Outcome {ℓ} (A : Type ℓ) : Type ℓ where
  ok : A → Outcome A
  err : TrackError → Outcome A

-- The answer of `readVolume`; the flag says whether the error wraps `ErrPairingRequired`.
pub data VolumeAnswer : Type 0 where
  volume_read : ℕ → VolumeAnswer
  volume_failed : Bool → VolumeAnswer

-- The last body that `airplay.ReadVolume` reads, or its error before that.
pub data VolumeBody : Type 0 where
  answered : List ℕ → VolumeBody
  unanswered : Bool → VolumeBody

-- What one operation finds around it: the clock in milliseconds, the library, the file system, the
-- receiver, and the random sources (`int_n k n` is the k-th draw, of `rand.IntN(n)`).
pub record World : Type 0 where
  pub now : ℕ
  pub tracks : List Track
  pub sources : List Source
  pub join : String → String → String
  pub eval_symlinks : String → Option String
  pub rel : String → String → Option String
  pub new_id : ℕ → String
  pub int_n : ℕ → ℕ → ℕ
  pub int_n-lt : (k n : ℕ) → 0 < n → int_n k n < n
  pub floats : VolumeFloats
  pub volume_body : Device → VolumeBody
  pub session_volume : ℕ → Bool
  pub settings_written : Bool
  pub persisted : Bool
  pub identity_written : Bool
  pub begin_pair : Device → Option RemoteError
  pub finish_pair : String → Option RemoteError
