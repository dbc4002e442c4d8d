-- ===== src/Remote/Editing.antt =====
-- The cases of `command` in remote.go that edit the queue or a setting of it, with their checks.
use harmonia_server.Prelude.{
  ℕ, ◌+◌, Bool, true, false, not, ◌&&◌, ◌||◌, List, Option, none, some, String, ℤ, pos, negsuc,
  if◌then◌else◌, ltb, leb, ◌==◌, length, str_eq,
}
use harmonia_server.Remote.State.{
  Remote, World, Session, stop, RemoteError, queue_too_long, invalid_queue_position,
  invalid_queue_index, invalid_volume, invalid_repeat, invalid_deadline, transport,
}
use harmonia_server.Remote.Shuffle.{advance_shuffle, reset_shuffle}
use harmonia_server.Remote.Edit.{append_queue, move_queue, remove_queue, clamp_index}
use harmonia_server.Remote.Playback.{cancel_playback, restart_history, start_with_policy}
use harmonia_server.Remote.Requests.{validate}

unfoldable pub is_continuous : Option Session → Bool
is_continuous none = false
is_continuous (some s) = s.continuous

-- An edit of the queue invalidates the tracks that a continuous session has buffered.
unfoldable pub restart_after :
    World → Bool → Remote × Option RemoteError → Remote × Option RemoteError
unfolding is_continuous
restart_after w playing (r, some e) = (r, some e)
restart_after w playing (r, none) =
    if playing && is_continuous r.session then start_with_policy w r else (r, none)

unfoldable pub append_tracks : World → List String → ℤ → Remote → Remote × Option RemoteError
unfolding append_queue
append_tracks w ids position r =
    if ltb 10000 (length r.saved.queue + length ids)
    then (r, some queue_too_long)
    else elim (validate w false ids) [
      | some e ↦ (r, some e)
      | none ↦ (record r { saved = append_queue position ids r.saved }, none)
    ]

unfoldable pub move_track : ℤ → ℤ → Remote → Remote × Option RemoteError
unfolding move_queue
move_track (negsuc _) to r = (r, some invalid_queue_position)
move_track (pos from) (negsuc _) r = (r, some invalid_queue_position)
move_track (pos from) (pos to) r =
    if ltb from (length r.saved.queue) && ltb to (length r.saved.queue)
    then (record r { saved = move_queue from to r.saved }, none)
    else (r, some invalid_queue_position)

-- `empty := len(r.saved.Queue) == 0; if empty { r.state = "stop" }`
unfoldable pub stop_if_empty : Remote → Remote
stop_if_empty r = if length r.saved.queue == 0 then record r { state = stop } else r

-- Removing another track than the current one.
unfoldable pub remove_other : ℕ → Remote → Remote
unfolding remove_queue stop_if_empty
remove_other i r = stop_if_empty (record r { saved = remove_queue i r.saved })

-- With shuffle, another unplayed track comes up; where there is none, playback ends.
unfoldable pub reshuffle : World → Bool → Remote → Remote × Bool
unfolding advance_shuffle
reshuffle w playing r =
    if r.saved.shuffle && ltb 0 (length r.saved.queue)
    then (let (s, moved) = advance_shuffle (w.int_n r.draws) r.saved in
        (record r { saved = s; draws = r.draws + 1 }, playing && moved))
    else (r, playing)

-- Removing the current track, up to the start of the one that comes up.
unfoldable pub remove_current : World → Bool → ℕ → Remote → Remote × Bool
unfolding cancel_playback clamp_index remove_queue reshuffle restart_history stop_if_empty
remove_current w playing i r =
    let c = cancel_playback r in
    let (s, plays) =
      reshuffle w playing (record c { saved = clamp_index (remove_queue i c.saved) }) in
    let h = restart_history w (pos 0) s in
    (
      stop_if_empty (record h { saved = record (h.saved) { position = pos 0; waiting = false } }),
      plays,
    )

unfoldable pub remove_track : World → Bool → ℤ → Remote → Remote × Option RemoteError
remove_track w playing (negsuc _) r = (r, some invalid_queue_index)
remove_track w playing (pos i) r =
    if leb (length r.saved.queue) i
    then (r, some invalid_queue_index)
    else (if i == r.saved.index
        then (let (s, plays) = remove_current w playing i r in
            if plays && ltb 0 (length s.saved.queue)
            then start_with_policy w s
            else restart_after w plays (s, none))
        else restart_after w playing (remove_other i r, none))

-- Without a session the volume waits for the next one.
unfoldable pub set_volume : World → Option Session → ℕ → Remote → Remote × Option RemoteError
set_volume w none v r = (
  record r { saved = record (r.saved) { volume = v }; volume_known = true; volume_pending = true },
  none,
)
set_volume w (some s) v r =
    if w.session_volume v
    then (
      record r {
        saved = record (r.saved) { volume = v };
        volume_known = true;
        volume_pending = false;
      },
      none,
    )
    else (r, some transport)

unfoldable pub change_volume : World → ℤ → Remote → Remote × Option RemoteError
unfolding set_volume
change_volume w (negsuc _) r = (r, some invalid_volume)
change_volume w (pos v) r =
    if ltb 100 v then (r, some invalid_volume) else set_volume w r.session v r

unfoldable pub set_repeat : String → Remote → Remote × Option RemoteError
set_repeat mode r =
    if str_eq mode "off" || str_eq mode "all" || str_eq mode "single"
    then (record r { saved = record (r.saved) { repeat = mode } }, none)
    else (r, some invalid_repeat)

unfoldable pub set_shuffle : Bool → Remote → Remote
unfolding reset_shuffle
set_shuffle on r =
    if r.saved.shuffle && on || not r.saved.shuffle && not on
    then r
    else record r { saved = reset_shuffle (record (r.saved) { shuffle = on }) }

-- To finish with no deadline is to stop after the current track.
unfoldable pub set_timer : ℤ → Bool → Remote → Remote × Option RemoteError
set_timer (negsuc _) finish r = (r, some invalid_deadline)
set_timer (pos deadline) finish r = (
  record r {
    saved = record (r.saved) {
      deadline = deadline;
      finish = finish;
      waiting = finish && deadline == 0;
    };
  },
  none,
)
