-- ===== src/Remote/Examples/Edits.antt =====
-- Edits, timers and successors on the small queue.
use harmonia_server.Remote.Prefetch.{plan_next, prefetch_index, prefetch_index-advance}
use harmonia_server.Remote.Loop.Successor.{plan_next-track_finished}
use harmonia_server.Remote.Gapless.{Reader, stream_queue}
use harmonia_server.Remote.State.{Remote}
use harmonia_server.Remote.Loop.Timers.{IsIgnored, cancelled_events}
use harmonia_server.Remote.Command.Wellformed.{handle-IsWf}
use harmonia_server.Remote.Command.{handle}
use harmonia_server.Remote.Edit.Places.{move_queue_current, remove_queue_current}
use harmonia_server.Remote.Edit.{move_queue, remove_queue}
use harmonia_server.Remote.Playback.{start_with_policy, cancel_playback}
use harmonia_server.Remote.Shuffle.{advance, advance_in_order, mark_shuffle, reset_history}
use harmonia_server.Remote.Shuffle.Wellformed.{IsWf}
use harmonia_server.Remote.Loop.{track_finished, paused_on_error}
use harmonia_server.Prelude.{pos, if◌then◌else◌}
use harmonia_server.Prelude.{
  ◌≡◌, refl, false, [], ◌∷◌, none, some, arith, length, get_elem?, contains,
}
use harmonia_server.Remote.State.{RemoteSaved, Remote}
use harmonia_server.Remote.Examples.{
  last_of, home, three_tracks, playing_a, at_missing, next_request, a_to_c, three_tracks-IsWf,
}

move_queue_current_example :
    (get_elem? (move_queue 2 0 three_tracks).queue (move_queue 2 0 three_tracks).index
      ≡ get_elem? three_tracks.queue three_tracks.index)
    × (length (move_queue 2 0 three_tracks).queue ≡ length three_tracks.queue)
move_queue_current_example = move_queue_current 2 0 three_tracks (omega arith) (omega arith)

remove_queue_current_example :
    get_elem? (remove_queue 0 at_missing.saved).queue (remove_queue 0 at_missing.saved).index
    ≡ get_elem? at_missing.saved.queue at_missing.saved.index
remove_queue_current_example = remove_queue_current 0 at_missing.saved (λ e. omega arith)

handle-IsWf_example : IsWf (handle home next_request playing_a).0.saved
handle-IsWf_example = handle-IsWf home next_request playing_a three_tracks-IsWf

abbrev reader_of_a : Reader
reader_of_a = stream_queue last_of "next" 441000 false three_tracks 7

-- Another request came behind the cancellation.
abbrev cancelled_later : Remote
cancelled_later = cancel_playback (cancel_playback playing_a)

cancelled_events_example : IsIgnored home a_to_c reader_of_a cancelled_later
unfolding cancel_playback stream_queue
cancelled_events_example =
    cancelled_events home a_to_c reader_of_a playing_a cancelled_later 1 (omega arith) refl refl
      (omega arith) refl

abbrev planned : RemoteSaved
planned = record three_tracks {
  index = 1;
  position = pos 0;
  playback_session = "planned";
  shuffle_visited = "a" ∷ "b" ∷ [];
}

plan_next-track_finished_example :
    (u : Remote) × (track_finished home playing_a ≡ paused_on_error (start_with_policy home u))
    × (u.saved ≡ record planned { playback_session = "session" })
unfolding plan_next advance advance_in_order mark_shuffle reset_history contains
plan_next-track_finished_example =
    plan_next-track_finished last_of home playing_a "planned" planned refl refl

prefetch_index-advance_example : prefetch_index three_tracks ≡ (
    if (advance last_of false three_tracks).1
    then some (advance last_of false three_tracks).0.index
    else none)
prefetch_index-advance_example =
    prefetch_index-advance last_of three_tracks refl refl refl (omega arith)
