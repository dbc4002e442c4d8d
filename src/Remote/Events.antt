-- ===== src/Remote/Events.antt =====
-- The events of a playback queue, in any order: requests, ends of tracks, ticks, and the goroutine's
-- reports. The mutex `commands` and `mu` make each of them one step.
use harmonia_server.Remote.Outputs.{discover}
use harmonia_server.Remote.Loop.{rest_or_continue}
use harmonia_server.Prelude.{
  pos, ℕ, Bool, true, false, not, ◌&&◌, List, [], ◌∷◌, Option, none, some, String, inl, inr,
  Bool-cases, ◌==◌, ◌≤◌, length, arith, Distinct,
}
use harmonia_server.Remote.State.{
  RemoteSaved, Remote, World, RemoteError, Session, PlaybackSettings, Device,
}
use harmonia_server.Remote.Shuffle.Wellformed.{IsWf, advance-IsWf, queue_limit}
use harmonia_server.Remote.Playback.{
  cancel_playback, restart_history, advance_remote, skip_failed, start_with_policy,
}
use harmonia_server.Remote.Playback.Stable.{start_with_policy-IsWf, skip_failed-IsWf}
use harmonia_server.Remote.Requests.{RemoteCommand}
use harmonia_server.Remote.Command.{handle}
use harmonia_server.Remote.Command.Wellformed.{handle-IsWf}
use harmonia_server.Remote.Pairing.{pair_expires}
use harmonia_server.Remote.Loop.{
  expire_at_end, paused_on_error, continue_queue, track_finished, track_failed, finish_track,
  on_end, on_tick, close_remote, Playing, on_connect, on_volume_sent, on_progress,
}
use harmonia_server.Remote.Restore.{Loaded, restore, restore-IsWf}

pub data Event : Type 0 where
  requested : World → RemoteCommand → Event
  ended : World → ℕ → Option RemoteError → Event
  ticked : World → Event
  connected : Playing → Session → Event
  volume_sent pairing_expired closing : Event
  progressed : Bool → Playing → ℕ → Event
  discovered : List Device → Event

unfoldable pub step : Event → Remote → Remote
step (requested w b) r = (handle w b r).0
step (ended w g e) r = on_end w g e r
step (ticked w) r = on_tick w r
step (connected p s) r = (on_connect p s r).0
step volume_sent r = on_volume_sent r
step pairing_expired r = pair_expires r
step closing r = close_remote r
step (progressed recorded p n) r = (on_progress recorded p n r).1
step (discovered found) r = discover found r

unfoldable pub run : List Event → Remote → Remote
unfolding step
run [] r = r
run (e ∷ es) r = run es (step e r)

paused_on_error-IsWf :
    (a : Remote × Option RemoteError) → IsWf a.0.saved → IsWf (paused_on_error a).saved
unfolding paused_on_error
paused_on_error-IsWf (r, none) v = v
paused_on_error-IsWf (r, some e) v = v

continue_queue-IsWf : (w : World) (r : Remote) → IsWf r.saved → IsWf (continue_queue w r).saved
unfolding continue_queue
continue_queue-IsWf w r v =
    let a : Remote × Bool = advance_remote w false r in
    let m : IsWf a.0.saved = advance-IsWf (w.int_n r.draws) false r.saved (w.int_n-lt r.draws) v in
    elim (Bool-cases a.1) [
      | inl moved ↦
          rw moved (paused_on_error-IsWf (start_with_policy w a.0) (start_with_policy-IsWf w a.0 m))
      | inr end ↦ rw end m
    ]

expire_at_end-IsWf : (w : World) (s : RemoteSaved) → IsWf s → IsWf (expire_at_end w s)
unfolding expire_at_end
expire_at_end-IsWf w s v = ground (arith, v.marked_once)

rest_or_continue-IsWf :
    (waits : Bool) (w : World) (r : Remote) → IsWf r.saved → IsWf (rest_or_continue waits w r).saved
unfolding rest_or_continue
rest_or_continue-IsWf true w r v = v
rest_or_continue-IsWf false w r v = continue_queue-IsWf w r v

track_finished-IsWf : (w : World) (r : Remote) → IsWf r.saved → IsWf (track_finished w r).saved
unfolding track_finished
track_finished-IsWf w r v =
    let c : Remote = cancel_playback r in
    let s : RemoteSaved = expire_at_end w c.saved in
    rest_or_continue-IsWf s.waiting w
      (restart_history w (pos 0) (record c { saved = record s { position = pos 0 }; failed = [] }))
      (expire_at_end-IsWf w c.saved v)

track_failed-IsWf :
    (w : World) (e : RemoteError) (r : Remote) → IsWf r.saved → IsWf (track_failed w e r).saved
unfolding track_failed
track_failed-IsWf w e r v =
    let s : Remote × Bool = skip_failed w e (record (cancel_playback r) { last_error = some e }) in
    let q : IsWf s.0.saved =
      skip_failed-IsWf w e (record (cancel_playback r) { last_error = some e }) v in
    elim (Bool-cases s.1) [
      | inl again ↦ rw again (start_with_policy-IsWf w s.0 q)
      | inr over ↦ rw over q
    ]

finish_track-IsWf :
    (w : World) (e : Option RemoteError) (r : Remote)
    → IsWf r.saved
    → IsWf (finish_track w e r).saved
unfolding finish_track
finish_track-IsWf w none r v = track_finished-IsWf w r v
finish_track-IsWf w (some e) r v = track_failed-IsWf w e r v

on_end-IsWf :
    (w : World) (g : ℕ) (e : Option RemoteError) (r : Remote)
    → IsWf r.saved
    → IsWf (on_end w g e r).saved
unfolding on_end
on_end-IsWf w g e r v = elim (Bool-cases (not r.closed && g == r.generation)) [
  | inl live ↦ rw live (finish_track-IsWf w e r v)
  | inr stale ↦ rw stale v
]

on_tick-IsWf : (w : World) (r : Remote) → IsWf r.saved → IsWf (on_tick w r).saved
unfolding on_tick
on_tick-IsWf w r v = ground (arith, v.marked_once)

on_progress-IsWf :
    (recorded : Bool) (p : Playing) (n : ℕ) (r : Remote)
    → IsWf r.saved
    → IsWf (on_progress recorded p n r).1.saved
unfolding on_progress
on_progress-IsWf recorded p n r v = ground (arith, v.marked_once)

pub step-IsWf : (e : Event) (r : Remote) → IsWf r.saved → IsWf (step e r).saved
unfolding step on_connect on_volume_sent pair_expires close_remote discover
step-IsWf (requested w b) r v = handle-IsWf w b r v
step-IsWf (ended w g e) r v = on_end-IsWf w g e r v
step-IsWf (ticked w) r v = on_tick-IsWf w r v
step-IsWf (connected p s) r v = ground (arith, v.marked_once)
step-IsWf volume_sent r v = v
step-IsWf pairing_expired r v = v
step-IsWf closing r v = ground (arith, v.marked_once)
step-IsWf (progressed recorded p n) r v = on_progress-IsWf recorded p n r v
step-IsWf (discovered found) r v = v

run-IsWf : (es : List Event) (r : Remote) → IsWf r.saved → IsWf (run es r).saved
unfolding run
run-IsWf [] r v = v
run-IsWf (e ∷ es) r v = run-IsWf es (step e r) (step-IsWf e r v)

-- After a restart from a file that holds at most 10000 tracks and marks none twice, and then any
-- events in any order, the index is in range (0 when the queue is empty), the volume at most 100, the
-- queue at most 10000 tracks long, and no track is marked twice.
pub run-restore-IsWf :
    (es : List Event) (p : PlaybackSettings) (paired : List String) (l : Loaded)
    → length l.base.queue ≤ queue_limit
    → Distinct l.base.shuffle_visited
    → IsWf (run es (restore p paired l)).saved
run-restore-IsWf es p paired l h d = run-IsWf es (restore p paired l) (restore-IsWf p paired l h d)
