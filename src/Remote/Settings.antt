-- ===== src/Remote/Settings.antt =====
-- playback_settings.go: the checks of the settings, and `savePlaybackSettings`.
use harmonia_server.Prelude.{
  ℕ, Bool, true, false, not, ◌&&◌, ◌||◌, Option, none, some, if◌then◌else◌, ltb, str_eq,
}
use harmonia_server.Prelude.Float.{magnitude, float_eq}
use harmonia_server.Remote.State.{
  Remote, World, PlayState, loading, play, PlaybackSettings, RemoteError, invalid_gain,
  invalid_preamp, invalid_failure, not_persisted,
}
use harmonia_server.Remote.Playback.{cancel_playback, start_with_policy}

-- The bit pattern of 30.0. Infinities and NaNs have a larger magnitude.
abbrev pub thirty_bits : ℕ
thirty_bits = 0x403e000000000000

unfoldable pub validate_settings : PlaybackSettings → Option RemoteError
validate_settings s =
    if not (
      str_eq s.gain "off" || str_eq s.gain "auto" || str_eq s.gain "track" || str_eq s.gain "album")
    then some invalid_gain
    else (if ltb thirty_bits (magnitude s.preamp)
        then some invalid_preamp
        else (if not (str_eq s.failure "stop" || str_eq s.failure "skip")
            then some invalid_failure
            else none))

-- `r.state == "play" || r.state == "loading"`
unfoldable pub is_playing : PlayState → Bool
is_playing play = true
is_playing loading = true
is_playing _ = false

-- A change that is heard needs a new conversion.
unfoldable pub needs_restart : PlaybackSettings → Remote → Bool
unfolding is_playing
needs_restart s r =
    is_playing r.state
    && (not (str_eq r.saved.gain s.gain)
        || not (float_eq r.saved.preamp s.preamp)
        || not (r.saved.protect && s.protect || not r.saved.protect && not s.protect))

unfoldable pub apply_settings : PlaybackSettings → Remote → Remote
apply_settings s r = record r {
  settings = s;
  saved = record (r.saved) {
    gain = s.gain;
    preamp = s.preamp;
    protect = s.protect;
    failure = s.failure;
  };
}

-- A start that fails is only noted.
unfoldable pub noted : Remote × Option RemoteError → Remote
noted (r, none) = r
noted (r, some e) = record r { last_error = some e }

-- After the checks: `written` says whether the settings file was.
unfoldable pub store_settings :
    Bool → World → PlaybackSettings → Remote → Remote × Option RemoteError
unfolding apply_settings noted
store_settings false w s r = (r, some not_persisted)
store_settings true w s r =
    let t = apply_settings s r in
    if needs_restart s r then (noted (start_with_policy w (cancel_playback t)), none) else (t, none)

unfoldable pub save_settings : World → PlaybackSettings → Remote → Remote × Option RemoteError
unfolding validate_settings store_settings
save_settings w s r = elim (validate_settings s) [
  | some e ↦ (r, some e)
  | none ↦ store_settings w.settings_written w s r
]
