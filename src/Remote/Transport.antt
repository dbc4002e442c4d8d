-- ===== src/Remote/Transport.antt =====
-- The cases of `command` in remote.go that choose an output or what plays. `playing` is the state at
-- the start of the command.
use harmonia_server.Prelude.{
  ℕ, ◌-◌, Bool, true, false, not, ◌&&◌, List, [], ◌∷◌, Option, none, some, String, ℤ, pos, negsuc,
  if◌then◌else◌, ltb, leb, length, get_elem?, str_eq,
}
use harmonia_server.Airplay.Volume.{VolumeFloats, ReportedVolume, reported, parse_volume}
use harmonia_server.Remote.State.{
  Device, VolumeBody, answered, unanswered, Remote, World, Track, VolumeAnswer, volume_read,
  volume_failed, stop, pause, RemoteError, too_many_outputs, output_not_found, unsupported,
  invalid_queue_or_position, invalid_seek, queue_is_empty, seek_beyond_duration,
  invalid_queue_index, volume_unread,
}
use harmonia_server.Remote.Shuffle.{mark_shuffle, reset_shuffle}
use harmonia_server.Remote.Playback.{
  cancel_playback, restart_history, advance_remote, find_device, start_with_policy,
}
use harmonia_server.Remote.Requests.{RemoteCommand, validate}

unfoldable pub volume_answer : ReportedVolume → VolumeAnswer
volume_answer (reported n) = volume_read n
volume_answer _ = volume_failed false

unfoldable pub answer_of_body : VolumeFloats → VolumeBody → VolumeAnswer
answer_of_body go (answered body) = volume_answer (parse_volume go body)
answer_of_body go (unanswered pairing) = volume_failed pairing

-- `readVolume`
unfoldable pub read_volume : World → Device → VolumeAnswer
read_volume w d = answer_of_body w.floats (w.volume_body d)

-- What `command` does after `readVolume` has answered.
unfoldable pub take_volume : String → VolumeAnswer → Remote → Remote
take_volume id (volume_read v) r = record r {
  saved = record (r.saved) { volume = v };
  volume_known = true;
}
take_volume id (volume_failed needs_pairing) r = record r {
  last_error = some volume_unread;
  pairing_required = if needs_pairing then id ∷ r.pairing_required else r.pairing_required;
}

unfoldable pub select_output : World → String → Remote → Remote
unfolding cancel_playback restart_history
select_output w id r =
    let c = cancel_playback r in
    let s = record c {
      saved = record (c.saved) {
        output = id;
        position = pos 0;
        deadline = 0;
        waiting = false;
        finish = false;
      };
    } in
    record (restart_history w (pos 0) s) {
      state = stop;
      last_error = none;
      volume_known = false;
      volume_pending = false;
    }

unfoldable pub choose_outputs : World → List String → Remote → Remote × Option RemoteError
unfolding select_output take_volume find_device
choose_outputs w [] r = (select_output w "" r, none)
choose_outputs w (id ∷ []) r = elim (find_device id r.devices) [
  | none ↦ (r, some output_not_found)
  | some d ↦
      if not (str_eq d.unsupported_reason "")
      then (r, some (unsupported d.unsupported_reason))
      else (if str_eq id ""
          then (select_output w id r, none)
          else (take_volume id (read_volume w d) (select_output w id r), none))
]
choose_outputs w (_ ∷ _ ∷ _) r = (r, some too_many_outputs)

-- The queue that a start sets up.
unfoldable pub load_queue : World → RemoteCommand → ℕ → ℕ → Remote → Remote
unfolding cancel_playback restart_history reset_shuffle
load_queue w b index position r =
    let c = cancel_playback r in
    let s = record (reset_shuffle (record (c.saved) { queue = b.ids; index = index })) {
      position = pos position;
    } in
    let h = restart_history w (pos position) (record c { saved = s }) in
    record h {
      saved = record (h.saved) {
        gain_context = if str_eq b.gain_context "album" then "album" else "track";
        waiting = false;
      };
      state = pause;
      last_error = none;
    }

-- A missing `playing` means true.
unfoldable pub wants_play : Option Bool → Bool
wants_play none = true
wants_play (some p) = p

unfoldable pub start_at : World → RemoteCommand → ℕ → ℕ → Remote → Remote × Option RemoteError
unfolding load_queue wants_play
start_at w b index position r =
    if leb (length b.ids) index
    then (r, some invalid_queue_or_position)
    else elim (validate w (str_eq r.saved.failure "skip") b.ids) [
      | some e ↦ (r, some e)
      | none ↦
          if wants_play b.playing
          then start_with_policy w (load_queue w b index position r)
          else (load_queue w b index position r, none)
    ]

unfoldable pub start_queue : World → RemoteCommand → ℤ → ℤ → Remote → Remote × Option RemoteError
unfolding start_at
start_queue w b (negsuc _) position r = (r, some invalid_queue_or_position)
start_queue w b (pos index) (negsuc _) r = (r, some invalid_queue_or_position)
start_queue w b (pos index) (pos position) r = start_at w b index position r

unfoldable pub leave_for_local : Remote → Remote
unfolding cancel_playback
leave_for_local r =
    let c = cancel_playback r in
    record c { saved = record (c.saved) { deadline = 0; waiting = false; finish = false } }

unfoldable pub stop_queue : World → Remote → Remote
unfolding cancel_playback restart_history
stop_queue w r =
    let c = cancel_playback r in
    restart_history w (pos 0) (record c {
      state = stop;
      saved = record (c.saved) { position = pos 0; deadline = 0; finish = false; waiting = false };
    })

unfoldable pub clear_queue : Remote → Remote
unfolding cancel_playback reset_shuffle
clear_queue r =
    let c = cancel_playback r in
    record c {
      saved = record (reset_shuffle (record (c.saved) { queue = [] })) {
        index = 0;
        position = pos 0;
        deadline = 0;
        finish = false;
        waiting = false;
      };
      state = stop;
      last_error = none;
    }

-- The duration that the store's index gives, 0 for a track that it does not know.
unfoldable pub stored_duration : List Track → String → ℕ
stored_duration [] id = 0
stored_duration (t ∷ ts) id = if str_eq t.id id then t.duration else stored_duration ts id

unfoldable pub seek_to : World → Bool → ℕ → Remote → Remote × Option RemoteError
unfolding cancel_playback stored_duration
seek_to w playing position r = elim (get_elem? r.saved.queue r.saved.index) [
  | none ↦ (r, some queue_is_empty)
  | some id ↦
      let d = stored_duration w.tracks id in
      if ltb 0 d && leb d position
      then (r, some seek_beyond_duration)
      else (let c = cancel_playback r in
          let s = record c {
            saved = record (c.saved) { position = pos position; seeked = true };
          } in
          if playing then start_with_policy w s else (s, none))
]

unfoldable pub seek_queue : World → Bool → ℤ → Remote → Remote × Option RemoteError
unfolding seek_to
seek_queue w playing (negsuc _) r = (r, some invalid_seek)
seek_queue w playing (pos position) r = seek_to w playing position r

-- The end of the cases select, next and previous.
unfoldable pub jump : World → ℕ → Remote → Remote
unfolding cancel_playback restart_history mark_shuffle
jump w index r =
    let c = cancel_playback r in
    let h =
      restart_history w (pos 0)
        (record c { saved = mark_shuffle (record (c.saved) { index = index }) }) in
    record h { saved = record (h.saved) { position = pos 0; waiting = false } }

unfoldable pub jump_checked : World → ℕ → Remote → Remote × Option RemoteError
jump_checked w index r =
    if leb (length r.saved.queue) index
    then (r, some invalid_queue_index)
    else start_with_policy w (jump w index r)

unfoldable pub select_index : World → ℤ → Remote → Remote × Option RemoteError
unfolding jump_checked
select_index w (negsuc _) r = (r, some invalid_queue_index)
select_index w (pos index) r = jump_checked w index r

-- The index advances first, and stays where it is if the queue has ended.
unfoldable pub next_index : World → Remote → Remote × Option RemoteError
unfolding jump_checked advance_remote
next_index w r =
    let (a, moved) = advance_remote w true r in
    if moved then jump_checked w a.saved.index a else (cancel_playback a, none)

unfoldable pub previous_index : World → Remote → Remote × Option RemoteError
unfolding jump_checked
previous_index w r = jump_checked w (r.saved.index - 1) r
