-- ===== src/Remote/Playback.antt =====
-- remote.go: `cancelPlayback`, `start`, `startWithPolicy` and `skipFailed`, and `trackFromState` of
-- http.go. A method returns the new state, and the error where Go returns one.
pub mod Stable
pub mod Results
pub mod Skips
use harmonia_server.Prelude.{
  pos, ℤ, leb_ℤ, ℕ, zero, suc, ◌+◌, ◌%◌, ◌^◌, Bool, true, false, not, ◌&&◌, ◌||◌, List, [], ◌∷◌,
  Option, none, some, String, if◌then◌else◌, ltb, leb, length, get_elem?, get_or, str_eq,
  starts_with, contains,
}
use harmonia_server.Remote.State.{
  RemoteSaved, Remote, PlayState, stop, pause, loading, Device, Track, Source, World, Outcome, ok,
  err, track_unavailable, file_outside_source, unresolved, RemoteError, select_output_first,
  output_unavailable, queue_is_empty, seek_beyond_duration, requires_pairing, pairing_required,
  unsupported, remote_track_error, skip_limit,
}
use harmonia_server.Remote.Shuffle.{advance, reset_history}

unfoldable pub find_device : String → List Device → Option Device
find_device id [] = none
find_device id (d ∷ ds) = if str_eq d.id id then some d else find_device id ds

-- `EvalSymlinks` of the file and of the source, and the test that the one lies under the other.
unfoldable pub resolve : World → Source → Track → Outcome Track
resolve w s t = elim (w.eval_symlinks (w.join s.path t.path)) [
  | none ↦ err unresolved
  | some resolved ↦ elim (w.eval_symlinks s.path) [
    | none ↦ err unresolved
    | some root ↦ elim (w.rel root resolved) [
      | none ↦ err file_outside_source
      | some rel ↦
          if str_eq rel ".." || starts_with rel "../" then err file_outside_source else ok t
    ]
  ]
]

unfoldable pub find_source : String → List Source → Option Source
find_source id [] = none
find_source id (s ∷ ss) = if str_eq s.id id then some s else find_source id ss

-- `trackFromState`. A track whose source is gone does not end the search.
unfoldable pub track_from_state : World → List Track → String → Outcome Track
unfolding resolve find_source
track_from_state w [] id = err track_unavailable
track_from_state w (t ∷ ts) id =
    let rest = track_from_state w ts id in
    if str_eq t.id id && not t.missing
    then elim (find_source t.source_id w.sources) [ none ↦ rest | some s ↦ resolve w s t ]
    else rest

-- The state that a cancelled queue is left in.
unfoldable pub idle_state : List String → PlayState
idle_state [] = stop
idle_state (_ ∷ _) = pause

-- The generation is a uint64.
unfoldable pub cancel_playback : Remote → Remote
unfolding idle_state
cancel_playback r = record r {
  generation = (r.generation + 1) % 2 ^ 64;
  cancel = false;
  session = none;
  state = idle_state r.saved.queue;
}

-- `resetHistoryLocked` on the whole state: it draws a new id.
unfoldable pub restart_history : World → ℤ → Remote → Remote
unfolding reset_history
restart_history w position r = record r {
  saved = reset_history (w.new_id r.draws) position r.saved;
  draws = r.draws + 1;
}

-- `advanceLocked` on the whole state.
unfoldable pub advance_remote : World → Bool → Remote → Remote × Bool
advance_remote w manual r =
    let (s, moved) = advance (w.int_n r.draws) manual r.saved in
    (record r { saved = s; draws = r.draws + 1 }, moved)

-- The checks of `start`, before it cancels what plays.
unfoldable pub start_check : World → Remote → Option RemoteError
unfolding find_device track_from_state
start_check w r =
    let s = r.saved in
    if str_eq s.output "" then some select_output_first else elim (find_device s.output r.devices) [
      | none ↦ some output_unavailable
      | some d ↦
          if not (str_eq d.unsupported_reason "")
          then some (unsupported d.unsupported_reason)
          else elim (get_elem? s.queue s.index) [
            | none ↦ some queue_is_empty
            | some id ↦ elim (track_from_state w w.tracks id) [
              | err e ↦ some (remote_track_error e)
              | ok t ↦
                  if ltb 0 t.duration && leb_ℤ (pos t.duration) s.position
                  then some seek_beyond_duration
                  else (if d.requires_auth && not (contains r.paired s.output)
                      then some requires_pairing
                      else none)
            ]
          ]
    ]

-- What `start` leaves behind: what the goroutine that plays reports is in Loop.antt.
unfoldable pub launch : World → Remote → Remote
unfolding cancel_playback restart_history
launch w r =
    let c = cancel_playback r in
    let h =
      if str_eq c.saved.playback_session "" then restart_history w r.saved.position c else c in
    record h { cancel = true; state = loading; last_error = none }

unfoldable pub start : World → Remote → Remote × Option RemoteError
unfolding start_check launch
start w r = elim (start_check w r) [ none ↦ (launch w r, none) | some e ↦ (r, some e) ]

-- The loop of `skipFailed`, with the rounds that are left.
unfoldable pub skip_loop : World → ℕ → Remote → Remote × Bool
unfolding advance_remote restart_history
skip_loop w zero r = (record r { state = stop }, false)
skip_loop w (suc n) r =
    let a = advance_remote w true r in
    let rest = skip_loop w n a.0 in
    if not a.1
    then (record a.0 { state = stop }, false)
    else (if contains a.0.failed (get_or a.0.saved.queue a.0.saved.index "") then rest else (
      restart_history w (pos 0) (record a.0 { saved = record (a.0.saved) { position = pos 0 } }),
      true,
    ))

-- `errors.As(err, &trackError)`
unfoldable pub is_track_error : RemoteError → Bool
is_track_error (remote_track_error e) = true
is_track_error e = false

-- `errors.Is(err, airplay.ErrPairingRequired)`
unfoldable pub is_pairing_required : RemoteError → Bool
is_pairing_required pairing_required = true
is_pairing_required e = false

-- The policy that `skipFailed` asks for before it skips.
unfoldable pub may_skip : World → RemoteSaved → Bool
may_skip w s =
    str_eq s.failure "skip" && not s.waiting && not (ltb 0 s.deadline && leb s.deadline w.now)

unfoldable pub skip_failed : World → RemoteError → Remote → Remote × Bool
unfolding skip_loop is_track_error is_pairing_required may_skip
skip_failed w e r =
    let noted = record r { last_error = some e } in
    if is_pairing_required e
    then (record noted { pairing_required = r.saved.output ∷ r.pairing_required }, false)
    else (if not (is_track_error e)
        then (noted, false)
        else (if not (may_skip w r.saved)
            then (noted, false)
            else elim (get_elem? r.saved.queue r.saved.index) [
              | none ↦ (noted, false)
              | some id ↦
                  skip_loop w (length r.saved.queue) (record noted { failed = id ∷ r.failed })
            ]))

-- The loop of `startWithPolicy` on fuel.
unfoldable pub start_loop : World → ℕ → Remote → Remote × Option RemoteError
start_loop w zero r = (r, some skip_limit)
start_loop w (suc n) r =
    let (t, e) = start w r in
    elim e [
      | none ↦ (t, none)
      | some x ↦
          let (u, again) = skip_failed w x (cancel_playback t) in
          let rest = start_loop w n u in if again then rest else (u, some x)
    ]

-- A skip marks another track of the queue as failed, so two rounds more than the queue is long are enough.
unfoldable pub start_with_policy : World → Remote → Remote × Option RemoteError
start_with_policy w r = start_loop w (length r.saved.queue + 2) r
