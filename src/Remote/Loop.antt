-- ===== src/Remote/Loop.antt =====
-- `loop`, `Close` and the playing goroutine of `start` in remote.go: what an event does to the state.
-- The queue's mutexes make each event one step.
pub mod Timers
pub mod Successor
use harmonia_server.Prelude.{
  pos, leb_ℤ, ◌+ℤ◌, ℕ, ◌+◌, ◌/◌, Bool, true, false, not, ◌&&◌, [], Option, none, some,
  if◌then◌else◌, ltb, leb, ◌==◌,
}
use harmonia_server.Remote.State.{
  RemoteSaved, Remote, World, Session, stop, pause, play, RemoteError,
}
use harmonia_server.Remote.Playback.{
  cancel_playback, restart_history, advance_remote, skip_failed, start_with_policy,
}
use harmonia_server.Remote.Settings.{is_playing}

unfoldable pub deadline_passed : World → RemoteSaved → Bool
deadline_passed w s = ltb 0 s.deadline && leb s.deadline w.now

-- At the end of a track an expired deadline means to wait, even before the timer sees it.
unfoldable pub expire_at_end : World → RemoteSaved → RemoteSaved
unfolding deadline_passed
expire_at_end w s = if deadline_passed w s then record s { deadline = 0; waiting = true } else s

-- A start that fails after a track ended leaves the queue paused.
unfoldable pub paused_on_error : Remote × Option RemoteError → Remote
paused_on_error (r, none) = r
paused_on_error (r, some e) = record r { last_error = some e; state = pause }

-- The next track, or the end of the queue.
unfoldable pub continue_queue : World → Remote → Remote
unfolding advance_remote paused_on_error
continue_queue w r =
    let (a, moved) = advance_remote w false r in
    if moved then paused_on_error (start_with_policy w a) else record a { state = stop }

-- `if r.saved.Waiting`: the queue rests instead of going on.
unfoldable pub rest_or_continue : Bool → World → Remote → Remote
unfolding continue_queue
rest_or_continue true w r = record r { saved = record (r.saved) { waiting = false }; state = pause }
rest_or_continue false w r = continue_queue w r

unfoldable pub track_finished : World → Remote → Remote
unfolding cancel_playback expire_at_end restart_history rest_or_continue
track_finished w r =
    let c = cancel_playback r in
    let s = expire_at_end w c.saved in
    let h =
      restart_history w (pos 0) (record c { saved = record s { position = pos 0 }; failed = [] }) in
    rest_or_continue s.waiting w h

-- The error of the start that follows a skip is dropped, but `skipFailed` has noted it.
unfoldable pub track_failed : World → RemoteError → Remote → Remote
unfolding cancel_playback
track_failed w e r =
    let (s, again) = skip_failed w e (record (cancel_playback r) { last_error = some e }) in
    if again then (start_with_policy w s).0 else s

unfoldable pub finish_track : World → Option RemoteError → Remote → Remote
unfolding track_finished track_failed
finish_track w none r = track_finished w r
finish_track w (some e) r = track_failed w e r

-- `event := <-r.end`. An event of an earlier generation is dropped.
unfoldable pub on_end : World → ℕ → Option RemoteError → Remote → Remote
unfolding finish_track
on_end w generation e r =
    if not r.closed && generation == r.generation then finish_track w e r else r

-- Whether a deadline that has passed lets the current track finish.
unfoldable pub lets_finish : Remote → Bool
unfolding is_playing
lets_finish r = r.saved.finish && is_playing r.state

-- `<-tick.C`
unfoldable pub on_tick : World → Remote → Remote
unfolding deadline_passed lets_finish cancel_playback
on_tick w r =
    if not (deadline_passed w r.saved)
    then r
    else (if lets_finish r
        then record r { saved = record (r.saved) { deadline = 0; waiting = true } }
        else cancel_playback
            (record r { saved = record (r.saved) { deadline = 0; waiting = false } }))

unfoldable pub close_remote : Remote → Remote
unfolding cancel_playback
close_remote r =
    if r.closed
    then r
    else (let c = cancel_playback (record r { closed = true }) in record c { pair = none })

-- What the goroutine keeps: its generation, the saved state that it began with, and whether the
-- play was counted.
pub record Playing : Type 0 where
  pub generation : ℕ
  pub from : RemoteSaved
  pub counted : Bool

-- `r.session = session`; the flag says that the goroutine goes on.
unfoldable pub on_connect : Playing → Session → Remote → Remote × Bool
on_connect p session r =
    if p.generation == r.generation then (record r { session = some session }, true) else (r, false)

-- After `session.Volume`, where the volume was pending.
unfoldable pub on_volume_sent : Remote → Remote
on_volume_sent r = record r { volume_pending = false }

-- Times are nanoseconds.
abbrev pub played_enough : ℕ
played_enough = 15000000000

unfoldable pub show_progress : Playing → ℕ → Remote → Remote
show_progress p position r =
    if p.generation == r.generation
    then record r {
      state = play;
      saved = record (r.saved) {
        position = p.from.position +ℤ pos (position / 1000000);
        listened = p.from.listened +ℤ pos position;
      };
    }
    else r

-- `recorded` is whether `RecordPlayed` succeeds.
unfoldable pub count_play : Bool → Playing → Remote → Playing × Remote
count_play recorded p r = (
  record p { counted = recorded },
  if p.generation == r.generation
      then record r { saved = record (r.saved) { counted = recorded } }
      else r,
)

-- The callback that a session without gapless playback calls.
unfoldable pub on_progress : Bool → Playing → ℕ → Remote → Playing × Remote
unfolding show_progress count_play
on_progress recorded p position r =
    let s = show_progress p position r in
    if not p.counted && leb_ℤ (pos played_enough) (p.from.listened +ℤ pos position)
    then count_play recorded p s
    else (p, s)
