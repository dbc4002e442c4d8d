-- ===== src/Remote/Command/Edits.antt =====
-- The queue edits of `command` keep the saved state well formed.
use harmonia_server.Prelude.{not, ◌||◌}
use harmonia_server.Remote.State.{Session}
use harmonia_server.Remote.Editing.{is_continuous}
use harmonia_server.Remote.Edit.{insert_at}
use harmonia_server.Prelude.{
  ℕ, ◌+◌, ◌<◌, ◌≤◌, ◌≡◌, inl, inr, ◌≢◌, Bool, false, ◌&&◌, List, Option, none, some, String, ℤ, pos,
  negsuc, arith, if◌then◌else◌, Bool-cases, Option-cases, ltb, leb, ◌==◌, length, str_eq,
}
use harmonia_server.Remote.State.{RemoteSaved, Remote, World, RemoteError}
use harmonia_server.Remote.Shuffle.Wellformed.{
  IsWf, queue_limit, reset_shuffle-IsWf, advance_shuffle-IsWf,
}
use harmonia_server.Remote.Edit.{
  append_position, append_queue, move_queue, remove_queue, clamp_index,
}
use harmonia_server.Remote.Edit.Places.{length-insert_at, length-remove_at, length-move_item}
use harmonia_server.Remote.Playback.{cancel_playback, restart_history}
use harmonia_server.Remote.Playback.Stable.{start_with_policy-IsWf}
use harmonia_server.Remote.Requests.{validate}
use harmonia_server.Remote.Editing.{
  restart_after, append_tracks, move_track, stop_if_empty, remove_other, reshuffle, remove_current,
  remove_track, set_volume, change_volume, set_repeat, set_shuffle, set_timer,
}
use harmonia_server.Remote.Command.Keeps.{Keeps}

move_queue-IsWf :
    (from to : ℕ) (s : RemoteSaved)
    → from < length s.queue
    → to < length s.queue
    → IsWf s
    → IsWf (move_queue from to s)
unfolding move_queue
move_queue-IsWf from to s hf ht w =
    ground (arith, w.marked_once, length-move_item from to s.queue hf)

remove_queue-IsWf :
    (i : ℕ) (s : RemoteSaved) → i < length s.queue → i ≢ s.index → IsWf s → IsWf (remove_queue i s)
unfolding remove_queue
remove_queue-IsWf i s h ne w = ground (arith, ne, w.marked_once, length-remove_at i s.queue h)

clamped-IsWf :
    (i : ℕ) (s : RemoteSaved) → i < length s.queue → IsWf s → IsWf (clamp_index (remove_queue i s))
unfolding remove_queue clamp_index
clamped-IsWf i s h w = ground (arith, w.marked_once, length-remove_at i s.queue h)

append_queue-IsWf :
    (p : ℤ) (ids : List String) (s : RemoteSaved)
    → length s.queue + length ids ≤ queue_limit
    → IsWf s
    → IsWf (append_queue p ids s)
unfolding append_queue
append_queue-IsWf p ids s h w =
    let at : ℕ = append_position p (length s.queue) in
    let t : RemoteSaved = record s {
      queue = insert_at at ids s.queue;
      index = if ltb 0 (length s.queue) && leb at s.index then s.index + length ids else s.index;
    } in
    let long : length (insert_at at ids s.queue) ≡ length ids + length s.queue =
      length-insert_at at ids s.queue in
    let v : IsWf t = ground (arith, w.marked_once, long) in
    elim (Bool-cases (length s.queue == 0)) [
      | inl empty ↦ rw empty (reset_shuffle-IsWf t v)
      | inr more ↦ rw more v
    ]

restart_after-Keeps :
    (w : World) (playing : Bool) (r : Remote) (e : Option RemoteError)
    → IsWf r.saved
    → Keeps (restart_after w playing (r, e))
unfolding restart_after
restart_after-Keeps w playing r (some e) v = v
restart_after-Keeps w playing r none v = elim (Bool-cases (playing && is_continuous r.session)) [
  | inl on ↦ rw on (start_with_policy-IsWf w r v)
  | inr off ↦ rw off v
]

-- An edit is followed by a restart where a continuous session plays.
pub restarted-Keeps :
    (w : World) (playing : Bool) (a : Remote × Option RemoteError)
    → Keeps a
    → Keeps (restart_after w playing a)
restarted-Keeps w playing (r, e) v = restart_after-Keeps w playing r e v

pub append_tracks-Keeps :
    (w : World) (ids : List String) (p : ℤ) (r : Remote)
    → IsWf r.saved
    → Keeps (append_tracks w ids p r)
unfolding append_tracks
append_tracks-Keeps w ids p r v =
    elim (Bool-cases (ltb 10000 (length r.saved.queue + length ids))) [
      | inl long ↦ rw long v
      | inr fits ↦ elim (Option-cases (validate w false ids)) [
        | inr (e, bad) ↦ rw (fits, bad, append_tracks) v
        | inl fine ↦
            rw (fits, fine, append_tracks) (append_queue-IsWf p ids r.saved (ground arith) v)
      ]
    ]

pub move_track-Keeps : (from to : ℤ) (r : Remote) → IsWf r.saved → Keeps (move_track from to r)
unfolding move_track
move_track-Keeps (negsuc i) to r v = v
move_track-Keeps (pos i) (negsuc j) r v = v
move_track-Keeps (pos i) (pos j) r v =
    elim (Bool-cases (ltb i (length r.saved.queue) && ltb j (length r.saved.queue))) [
      | inl fits ↦ rw fits (move_queue-IsWf i j r.saved (ground arith) (ground arith) v)
      | inr out ↦ rw out v
    ]

stop_if_empty-IsWf : (r : Remote) → IsWf r.saved → IsWf (stop_if_empty r).saved
unfolding stop_if_empty
stop_if_empty-IsWf r v = elim (Bool-cases (length r.saved.queue == 0)) [
  | inl empty ↦ rw empty v
  | inr more ↦ rw more v
]

reshuffle-IsWf :
    (w : World) (playing : Bool) (r : Remote) → IsWf r.saved → IsWf (reshuffle w playing r).0.saved
unfolding reshuffle
reshuffle-IsWf w playing r v = elim (Bool-cases (r.saved.shuffle && ltb 0 (length r.saved.queue))) [
  | inl on ↦ rw on (advance_shuffle-IsWf (w.int_n r.draws) r.saved (w.int_n-lt r.draws) v)
  | inr off ↦ rw off v
]

remove_current-IsWf :
    (w : World) (playing : Bool) (i : ℕ) (r : Remote)
    → i < length r.saved.queue
    → IsWf r.saved
    → IsWf (remove_current w playing i r).0.saved
unfolding remove_current
remove_current-IsWf w playing i r h v =
    let c : Remote = cancel_playback r in
    let s : Remote × Bool =
      reshuffle w playing (record c { saved = clamp_index (remove_queue i c.saved) }) in
    let q : IsWf s.0.saved =
      reshuffle-IsWf w playing (record c { saved = clamp_index (remove_queue i c.saved) })
        (clamped-IsWf i r.saved h v) in
    let k : Remote = restart_history w (pos 0) s.0 in
    stop_if_empty-IsWf (record k { saved = record (k.saved) { position = pos 0; waiting = false } })
      q

remove_other-IsWf :
    (i : ℕ) (r : Remote)
    → i < length r.saved.queue
    → i ≢ r.saved.index
    → IsWf r.saved
    → IsWf (remove_other i r).saved
unfolding remove_other
remove_other-IsWf i r h ne v =
    stop_if_empty-IsWf (record r { saved = remove_queue i r.saved })
      (remove_queue-IsWf i r.saved h ne v)

pub remove_track-Keeps :
    (w : World) (playing : Bool) (i : ℤ) (r : Remote)
    → IsWf r.saved
    → Keeps (remove_track w playing i r)
unfolding remove_track
remove_track-Keeps w playing (negsuc i) r v = v
remove_track-Keeps w playing (pos i) r v = elim (Bool-cases (leb (length r.saved.queue) i)) [
  | inl out ↦ rw out v
  | inr within ↦ elim (Bool-cases (i == r.saved.index)) [
    | inr other ↦
        rw (within, other)
          (restart_after-Keeps w playing (remove_other i r) none
            (remove_other-IsWf i r (ground arith) (ground arith) v))
    | inl here ↦
        let s : Remote × Bool = remove_current w playing i r in
        let q : IsWf s.0.saved = remove_current-IsWf w playing i r (ground arith) v in
        elim (Bool-cases (s.1 && ltb 0 (length s.0.saved.queue))) [
          | inl plays ↦ rw (within, here, plays) (start_with_policy-IsWf w s.0 q)
          | inr rests ↦ rw (within, here, rests) (restart_after-Keeps w s.1 s.0 none q)
        ]
  ]
]

set_volume-Keeps :
    (w : World) (s : Option Session) (n : ℕ) (r : Remote)
    → n ≤ 100
    → IsWf r.saved
    → Keeps (set_volume w s n r)
unfolding set_volume
set_volume-Keeps w none n r h v = record {
  in_range = v.in_range;
  loud = h;
  small = v.small;
  marked_once = v.marked_once;
}
set_volume-Keeps w (some s) n r h v = elim (Bool-cases (w.session_volume n)) [
  | inl set ↦
      rw set
        (record { in_range = v.in_range; loud = h; small = v.small; marked_once = v.marked_once })
  | inr failed ↦ rw failed v
]

pub change_volume-Keeps :
    (w : World) (n : ℤ) (r : Remote) → IsWf r.saved → Keeps (change_volume w n r)
unfolding change_volume
change_volume-Keeps w (negsuc n) r v = v
change_volume-Keeps w (pos n) r v = elim (Bool-cases (ltb 100 n)) [
  | inl loud ↦ rw loud v
  | inr fine ↦ rw fine (set_volume-Keeps w r.session n r (ground arith) v)
]

pub set_repeat-Keeps : (mode : String) (r : Remote) → IsWf r.saved → Keeps (set_repeat mode r)
unfolding set_repeat
set_repeat-Keeps mode r v =
    elim (Bool-cases (str_eq mode "off" || str_eq mode "all" || str_eq mode "single")) [
      | inl known ↦ rw known v
      | inr other ↦ rw other v
    ]

pub set_shuffle-IsWf : (on : Bool) (r : Remote) → IsWf r.saved → IsWf (set_shuffle on r).saved
unfolding set_shuffle
set_shuffle-IsWf on r v =
    elim (Bool-cases (r.saved.shuffle && on || not r.saved.shuffle && not on)) [
      | inl same ↦ rw same v
      | inr new ↦ rw new (reset_shuffle-IsWf (record (r.saved) { shuffle = on }) v)
    ]

pub set_timer-Keeps :
    (deadline : ℤ) (finish : Bool) (r : Remote) → IsWf r.saved → Keeps (set_timer deadline finish r)
unfolding set_timer
set_timer-Keeps (negsuc d) finish r v = v
set_timer-Keeps (pos d) finish r v = v
