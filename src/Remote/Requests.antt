-- ===== src/Remote/Requests.antt =====
-- The request of `Command` in remote.go, its action, and the check that `command` makes of a list of tracks.
use harmonia_server.Prelude.{
  ℕ, Bool, true, false, List, [], ◌∷◌, Option, none, some, String, ℤ, if◌then◌else◌, ltb, length,
  str_eq,
}
use harmonia_server.Remote.State.{
  RemoteError, World, Track, ok, err, queue_too_long, track_error, track_unavailable,
}
use harmonia_server.Remote.Playback.{track_from_state}

-- `remoteCommand`. `playing` is a pointer in Go.
pub record RemoteCommand : Type 0 where
  pub action : String
  pub failure : String
  pub playing : Option Bool
  pub ids : List String
  pub outputs : List String
  pub index : ℤ
  pub position : ℤ
  pub volume : ℤ
  pub gain : String
  pub gain_context : String
  pub preamp : ℕ
  pub protect : Bool
  pub deadline : ℤ
  pub finish : Bool
  pub repeat : String
  pub shuffle : Bool
  pub pin : String
  pub output_id : String

-- The cases of the switch on the action.
pub data Action : Type 0 where
  outputs pair start play pause local stop clear seek select next previous : Action
  append move remove volume repeat shuffle failure gain timer unknown : Action

action_names : List (String × Action)
action_names =
    ("outputs", outputs)
    ∷ ("pair", pair)
    ∷ ("start", start)
    ∷ ("play", play)
    ∷ ("pause", pause)
    ∷ ("local", local)
    ∷ ("stop", stop)
    ∷ ("clear", clear)
    ∷ ("seek", seek)
    ∷ ("select", select)
    ∷ ("next", next)
    ∷ ("previous", previous)
    ∷ ("append", append)
    ∷ ("move", move)
    ∷ ("remove", remove)
    ∷ ("volume", volume)
    ∷ ("repeat", repeat)
    ∷ ("shuffle", shuffle)
    ∷ ("failure", failure)
    ∷ ("gain", gain)
    ∷ ("timer", timer)
    ∷ []

find_action : String → List (String × Action) → Action
find_action name [] = unknown
find_action name ((n, a) ∷ rest) = if str_eq n name then a else find_action name rest

unfoldable pub parse_action : String → Action
unfolding find_action action_names
parse_action name = find_action name action_names

unfoldable pub is_known : List Track → String → Bool
is_known [] id = false
is_known (t ∷ ts) id = if str_eq t.id id then true else is_known ts id

-- With the policy to skip, a start asks only that the library knows each track.
unfoldable pub all_known : List Track → List String → Option RemoteError
unfolding is_known
all_known ts [] = none
all_known ts (id ∷ ids) =
    if is_known ts id then all_known ts ids else some (track_error track_unavailable)

unfoldable pub all_available : World → List String → Option RemoteError
all_available w [] = none
all_available w (id ∷ ids) = elim (track_from_state w w.tracks id) [
  | ok t ↦ all_available w ids
  | err e ↦ some (track_error e)
]

unfoldable pub validate : World → Bool → List String → Option RemoteError
unfolding all_known all_available
validate w lenient ids =
    if ltb 10000 (length ids)
    then some queue_too_long
    else (if lenient then all_known w.tracks ids else all_available w ids)
