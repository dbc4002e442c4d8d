-- ===== src/Remote/Restore.antt =====
-- `NewRemote` of remote.go: what becomes of the saved queue when the server starts.
use harmonia_server.Remote.Shuffle.Wellformed.{mark_shuffle-Distinct}
use harmonia_server.Remote.Shuffle.Rounds.{mark_shuffle_frame}
use harmonia_server.Prelude.{
  ℕ, ◌-◌, ◌≤◌, false, List, [], none, String, ℤ, pos, negsuc, arith, min, max, length, Distinct,
}
use harmonia_server.Remote.State.{RemoteSaved, Remote, PlaybackSettings}
use harmonia_server.Remote.Shuffle.{mark_shuffle}
use harmonia_server.Remote.Shuffle.Wellformed.{IsWf, queue_limit}
use harmonia_server.Remote.Playback.{idle_state}

-- `remote.json` as it was read: any numbers may stand in it. `base` has the fields that are taken over.
pub record Loaded : Type 0 where
  pub base : RemoteSaved
  pub index : ℤ
  pub position : ℤ
  pub volume : ℤ

-- `max(0, n)`
abbrev pub not_negative : ℤ → ℕ
not_negative (pos n) = n
not_negative (negsuc _) = 0

unfoldable pub restore_saved : PlaybackSettings → Loaded → RemoteSaved
unfolding mark_shuffle
restore_saved p l =
    let s = record (l.base) {
      gain = p.gain;
      preamp = p.preamp;
      protect = p.protect;
      failure = p.failure;
      index = min (not_negative l.index) (max 0 (length l.base.queue - 1));
    } in
    record (mark_shuffle s) {
      position = pos (not_negative l.position);
      volume = min 100 (not_negative l.volume);
      waiting = false;
      deadline = 0;
      finish = false;
    }

unfoldable pub restore : PlaybackSettings → List String → Loaded → Remote
unfolding restore_saved idle_state
restore p paired l = record {
  saved = restore_saved p l;
  settings = p;
  state = idle_state l.base.queue;
  last_error = none;
  failed = [];
  volume_known = false;
  volume_pending = false;
  devices = [];
  paired = paired;
  pairing_required = [];
  cancel = false;
  session = none;
  generation = 0;
  pair = none;
  closed = false;
  draws = 0;
}

-- Whatever numbers the file holds, the restored queue is well formed if it is short enough and marks
-- no track twice.
pub restore-IsWf :
    (p : PlaybackSettings) (paired : List String) (l : Loaded)
    → length l.base.queue ≤ queue_limit
    → Distinct l.base.shuffle_visited
    → IsWf (restore p paired l).saved
unfolding restore
restore-IsWf p paired l h d =
    let s : RemoteSaved = record (l.base) {
      gain = p.gain;
      preamp = p.preamp;
      protect = p.protect;
      failure = p.failure;
      index = min (not_negative l.index) (max 0 (length l.base.queue - 1));
    } in
    record {
      in_range = rw (mark_shuffle_frame s) (omega arith);
      loud = omega arith;
      small = rw (mark_shuffle_frame s) h;
      marked_once = mark_shuffle-Distinct s d;
    }
