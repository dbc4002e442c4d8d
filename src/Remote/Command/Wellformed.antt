-- ===== src/Remote/Command/Wellformed.antt =====
-- Every command of remote.go keeps the saved state well formed.
use harmonia_server.Prelude.{
  Bool, true, false, Option, none, some, String, inl, inr, Bool-cases, Option-cases, arith, ◌≡◌,
}
use harmonia_server.Remote.State.{Remote, World, RemoteError, PlaybackSettings}
use harmonia_server.Remote.Shuffle.Wellformed.{IsWf}
use harmonia_server.Remote.Playback.{cancel_playback, start_with_policy}
use harmonia_server.Remote.Playback.Stable.{start_with_policy-IsWf}
use harmonia_server.Remote.Requests.{
  RemoteCommand, Action, outputs, pair, start, play, pause, local, stop, clear, seek, select, next,
  previous, append, move, remove, volume, repeat, shuffle, failure, gain, timer, unknown,
  parse_action,
}
use harmonia_server.Remote.Settings.{
  validate_settings, apply_settings, noted, needs_restart, store_settings, save_settings,
  is_playing,
}
use harmonia_server.Remote.Pairing.{pair_device}
use harmonia_server.Remote.Editing.{set_shuffle, set_repeat, set_timer, append_tracks, move_track}
use harmonia_server.Remote.Command.{forget_failed, dispatch, command, answer, handle}
use harmonia_server.Remote.Command.Keeps.{
  Keeps, start_queue-Keeps, choose_outputs-Keeps, stop_queue-IsWf, leave_for_local-IsWf,
  clear_queue-IsWf, seek_queue-Keeps, select_index-Keeps, next_index-Keeps, previous_index-Keeps,
}
use harmonia_server.Remote.Command.Edits.{
  restarted-Keeps, append_tracks-Keeps, move_track-Keeps, remove_track-Keeps, change_volume-Keeps,
  set_repeat-Keeps, set_shuffle-IsWf, set_timer-Keeps,
}

noted-IsWf : (a : Remote × Option RemoteError) → Keeps a → IsWf (noted a).saved
unfolding noted
noted-IsWf (r, none) v = v
noted-IsWf (r, some e) v = v

store_settings-Keeps :
    (written : Bool) (w : World) (s : PlaybackSettings) (r : Remote)
    → IsWf r.saved
    → Keeps (store_settings written w s r)
unfolding store_settings cancel_playback
store_settings-Keeps false w s r v = v
store_settings-Keeps true w s r v =
    let t : Remote = apply_settings s r in
    elim (Bool-cases (needs_restart s r)) [
      | inl again ↦ rw again (
          noted-IsWf (start_with_policy w (cancel_playback t))
            (start_with_policy-IsWf w (cancel_playback t) v))
      | inr quiet ↦ rw quiet v
    ]

save_settings-Keeps :
    (w : World) (s : PlaybackSettings) (r : Remote) → IsWf r.saved → Keeps (save_settings w s r)
unfolding save_settings
save_settings-Keeps w s r v = elim (Option-cases (validate_settings s)) [
  | inr (e, bad) ↦ rw (bad, save_settings) v
  | inl fine ↦ rw (fine, save_settings) (store_settings-Keeps w.settings_written w s r v)
]

pair_device-saved :
    (w : World) (id pin : String) (r : Remote) → (pair_device w id pin r).0.saved ≡ r.saved
unfolding pair_device
pair_device-saved w id pin r = ground arith

pair_device-Keeps :
    (w : World) (id pin : String) (r : Remote) → IsWf r.saved → Keeps (pair_device w id pin r)
pair_device-Keeps w id pin r v = rw (pair_device-saved w id pin r) v

dispatch-Keeps :
    (a : Action) (w : World) (playing : Bool) (b : RemoteCommand) (r : Remote)
    → IsWf r.saved
    → Keeps (dispatch a w playing b r)
unfolding dispatch cancel_playback
dispatch-Keeps outputs w playing b r v = choose_outputs-Keeps w b.outputs r v
dispatch-Keeps pair w playing b r v = pair_device-Keeps w b.output_id b.pin r v
dispatch-Keeps start w playing b r v = start_queue-Keeps w b b.index b.position r v
dispatch-Keeps play w playing b r v = start_with_policy-IsWf w r v
dispatch-Keeps pause w playing b r v = v
dispatch-Keeps local w playing b r v = leave_for_local-IsWf r v
dispatch-Keeps stop w playing b r v = stop_queue-IsWf w r v
dispatch-Keeps clear w playing b r v = clear_queue-IsWf r v
dispatch-Keeps seek w playing b r v = seek_queue-Keeps w playing b.position r v
dispatch-Keeps select w playing b r v = select_index-Keeps w b.index r v
dispatch-Keeps next w playing b r v = next_index-Keeps w r v
dispatch-Keeps previous w playing b r v = previous_index-Keeps w r v
dispatch-Keeps append w playing b r v =
    restarted-Keeps w playing (append_tracks w b.ids b.position r)
      (append_tracks-Keeps w b.ids b.position r v)
dispatch-Keeps move w playing b r v =
    restarted-Keeps w playing (move_track b.index b.position r)
      (move_track-Keeps b.index b.position r v)
dispatch-Keeps remove w playing b r v = remove_track-Keeps w playing b.index r v
dispatch-Keeps volume w playing b r v = change_volume-Keeps w b.volume r v
dispatch-Keeps repeat w playing b r v =
    restarted-Keeps w playing (set_repeat b.repeat r) (set_repeat-Keeps b.repeat r v)
dispatch-Keeps shuffle w playing b r v =
    restarted-Keeps w playing (set_shuffle b.shuffle r, none) (set_shuffle-IsWf b.shuffle r v)
dispatch-Keeps failure w playing b r v =
    save_settings-Keeps w (record (r.settings) { failure = b.failure }) r v
dispatch-Keeps gain w playing b r v =
    save_settings-Keeps w
      (record (r.settings) { gain = b.gain; preamp = b.preamp; protect = b.protect }) r v
dispatch-Keeps timer w playing b r v =
    restarted-Keeps w playing (set_timer b.deadline b.finish r)
      (set_timer-Keeps b.deadline b.finish r v)
dispatch-Keeps unknown w playing b r v = v

forget_failed-IsWf : (a : Action) (r : Remote) → IsWf r.saved → IsWf (forget_failed a r).saved
unfolding forget_failed
forget_failed-IsWf start r v = v
forget_failed-IsWf _ r v = v

answer-Keeps :
    (written : Bool) (a : Remote × Option RemoteError) → Keeps a → Keeps (answer written a)
unfolding answer
answer-Keeps written (r, some e) v = v
answer-Keeps true (r, none) v = v
answer-Keeps false (r, none) v = v

-- If the queue is well formed, then whatever a request asks and however it ends, its index stays in range (0 when the queue is
-- empty), the volume stays at most 100, the queue at most 10000 tracks long, and no track is marked
-- as played twice.
pub handle-IsWf :
    (w : World) (b : RemoteCommand) (r : Remote) → IsWf r.saved → IsWf (handle w b r).0.saved
unfolding handle command
handle-IsWf w b r v = elim (Bool-cases r.closed) [
  | inl closed ↦ simp closed v
  | inr open' ↦ simp open' (
      answer-Keeps w.persisted
        (dispatch (parse_action b.action) w (is_playing r.state) b
          (forget_failed (parse_action b.action) r))
        (dispatch-Keeps (parse_action b.action) w (is_playing r.state) b
          (forget_failed (parse_action b.action) r)
          (forget_failed-IsWf (parse_action b.action) r v)))
]
