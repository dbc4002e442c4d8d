-- ===== src/Remote/Command.antt =====
-- `command` and `Command` of remote.go: the switch over the actions, and the request handler.
pub mod Keeps
pub mod Edits
pub mod Wellformed
use harmonia_server.Prelude.{[]}
use harmonia_server.Prelude.{Bool, Option, none, some, if◌then◌else◌}
use harmonia_server.Remote.State.{
  Remote, World, RemoteError, unknown_command, shutting_down, not_persisted,
}
use harmonia_server.Remote.Playback.{cancel_playback, start_with_policy}
use harmonia_server.Remote.Requests.{
  RemoteCommand, Action, outputs, pair, start, play, pause, local, stop, clear, seek, select, next,
  previous, append, move, remove, volume, repeat, shuffle, failure, gain, timer, unknown,
  parse_action,
}
use harmonia_server.Remote.Settings.{save_settings, is_playing}
use harmonia_server.Remote.Pairing.{pair_device}
use harmonia_server.Remote.Transport.{
  choose_outputs, start_queue, leave_for_local, stop_queue, clear_queue, seek_queue, select_index,
  next_index, previous_index,
}
use harmonia_server.Remote.Editing.{
  restart_after, append_tracks, move_track, remove_track, change_volume, set_repeat, set_shuffle,
  set_timer,
}

-- A command that chooses what plays forgets which tracks failed.
unfoldable pub forget_failed : Action → Remote → Remote
forget_failed start r = record r { failed = [] }
forget_failed play r = record r { failed = [] }
forget_failed select r = record r { failed = [] }
forget_failed next r = record r { failed = [] }
forget_failed previous r = record r { failed = [] }
forget_failed _ r = r

unfoldable pub dispatch :
    Action → World → Bool → RemoteCommand → Remote → Remote × Option RemoteError
dispatch outputs w playing b r = choose_outputs w b.outputs r
dispatch pair w playing b r = pair_device w b.output_id b.pin r
dispatch start w playing b r = start_queue w b b.index b.position r
dispatch play w playing b r = start_with_policy w r
dispatch pause w playing b r = (cancel_playback r, none)
dispatch local w playing b r = (leave_for_local r, none)
dispatch stop w playing b r = (stop_queue w r, none)
dispatch clear w playing b r = (clear_queue r, none)
dispatch seek w playing b r = seek_queue w playing b.position r
dispatch select w playing b r = select_index w b.index r
dispatch next w playing b r = next_index w r
dispatch previous w playing b r = previous_index w r
dispatch append w playing b r = restart_after w playing (append_tracks w b.ids b.position r)
dispatch move w playing b r = restart_after w playing (move_track b.index b.position r)
dispatch remove w playing b r = remove_track w playing b.index r
dispatch volume w playing b r = change_volume w b.volume r
dispatch repeat w playing b r = restart_after w playing (set_repeat b.repeat r)
dispatch shuffle w playing b r = restart_after w playing (set_shuffle b.shuffle r, none)
dispatch failure w playing b r = save_settings w (record (r.settings) { failure = b.failure }) r
dispatch gain w playing b r =
    save_settings w (record (r.settings) { gain = b.gain; preamp = b.preamp; protect = b.protect })
      r
dispatch timer w playing b r = restart_after w playing (set_timer b.deadline b.finish r)
dispatch unknown w playing b r = (r, some unknown_command)

unfoldable pub command : World → RemoteCommand → Remote → Remote × Option RemoteError
unfolding forget_failed dispatch
command w b r =
    let a = parse_action b.action in dispatch a w (is_playing r.state) b (forget_failed a r)

-- `_ = r.persist()` after an error changes nothing here.
unfoldable pub answer : Bool → Remote × Option RemoteError → Remote × Option RemoteError
answer written (r, some e) = (record r { last_error = some e }, some e)
answer written (r, none) =
    if written
    then (r, none)
    else (record r { last_error = some not_persisted }, some not_persisted)

-- The handler: an error is kept for the status, whether it came from the command or from saving.
unfoldable pub handle : World → RemoteCommand → Remote → Remote × Option RemoteError
handle w b r = if r.closed then (r, some shutting_down) else answer w.persisted (command w b r)
