-- ===== src/Remote/Examples/Rounds.antt =====
-- Restarts, shuffle rounds and starts on the small queue.
use harmonia_server.Remote.Playback.Results.{Settled, start_with_policy-Settled}
use harmonia_server.Remote.Playback.Skips.{start_with_policy-ne-skip_limit}
use harmonia_server.Remote.Playback.{start_with_policy}
use harmonia_server.Remote.Shuffle.Once.{Once, play_round, play_round-Once, play_round_complete}
use harmonia_server.Remote.Shuffle.Wellformed.{IsWf}
use harmonia_server.Remote.Events.{run, run-restore-IsWf}
use harmonia_server.Remote.Restore.{restore}
use harmonia_server.Prelude.{outside}
use harmonia_server.Prelude.{◌≡◌, refl, ◌≢◌, true, [], ◌∷◌, some, arith, contains}
use harmonia_server.Remote.State.{skip_limit}
use harmonia_server.Remote.Examples.{
  last_of, last_of-lt, home, three_tracks, saved_settings, at_missing, loaded, events,
}

run-restore-IsWf_example : IsWf (run events (restore saved_settings ("kitchen" ∷ []) loaded)).saved
unfolding contains
run-restore-IsWf_example =
    run-restore-IsWf events saved_settings ("kitchen" ∷ []) loaded (omega arith) (refl, tt)

play_round-Once_example : Once three_tracks (play_round (last_of ∷ last_of ∷ []) three_tracks)
unfolding contains
play_round-Once_example =
    play_round-Once (last_of ∷ last_of ∷ []) three_tracks (last_of-lt, (last_of-lt, tt)) refl
      (refl, tt)

play_round_complete_example :
    contains (play_round (last_of ∷ last_of ∷ []) three_tracks).0.shuffle_visited "b" ≡ true
unfolding contains outside
play_round_complete_example =
    play_round_complete (last_of ∷ last_of ∷ []) three_tracks "b" (last_of-lt, (last_of-lt, tt))
      refl (ground arith) refl

start_with_policy-ne-skip_limit_example : (start_with_policy home at_missing).1 ≢ some skip_limit
start_with_policy-ne-skip_limit_example = start_with_policy-ne-skip_limit home at_missing

start_with_policy-Settled_example : Settled home (start_with_policy home at_missing)
start_with_policy-Settled_example = start_with_policy-Settled home at_missing
