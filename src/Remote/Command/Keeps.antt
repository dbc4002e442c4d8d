-- ===== src/Remote/Command/Keeps.antt =====
-- The transport cases of `command` keep the saved state well formed.
use harmonia_server.Remote.Transport.{wants_play, stored_duration}
use harmonia_server.Prelude.{
  ℕ, ◌-◌, ◌<◌, ◌≤◌, ◌≡◌, refl, inl, inr, Bool, true, ◌&&◌, List, [], ◌∷◌, Option, none, String, ℤ,
  pos, negsuc, arith, Bool-cases, Option-cases, ltb, leb, length, get_elem?, str_eq,
}
use harmonia_server.Airplay.Volume.{
  ReportedVolume, reported, invalid_volume, not_reported, parse_volume, IsPercent,
  parse_volume-IsPercent,
}
use harmonia_server.Remote.Transport.{read_volume, answer_of_body, volume_answer}
use harmonia_server.Remote.State.{
  Device, VolumeBody, answered, unanswered, Remote, World, RemoteError, VolumeAnswer, volume_read,
  volume_failed,
}
use harmonia_server.Remote.Shuffle.{mark_shuffle, reset_shuffle}
use harmonia_server.Remote.Shuffle.Wellformed.{
  IsWf, queue_limit, mark_shuffle-IsWf, reset_shuffle-IsWf, advance-IsWf,
}
use harmonia_server.Remote.Playback.{cancel_playback, advance_remote, find_device}
use harmonia_server.Remote.Playback.Stable.{start_with_policy-IsWf}
use harmonia_server.Remote.Requests.{RemoteCommand, validate}
use harmonia_server.Remote.Transport.{
  take_volume, select_output, choose_outputs, load_queue, start_at, start_queue, leave_for_local,
  stop_queue, clear_queue, seek_to, seek_queue, jump, jump_checked, select_index, next_index,
  previous_index,
}

-- What a command answers is well formed.
abbrev pub Keeps : Remote × Option RemoteError → Type 0
Keeps a = IsWf a.0.saved

load_queue-IsWf :
    (w : World) (b : RemoteCommand) (i p : ℕ) (r : Remote)
    → i < length b.ids
    → length b.ids ≤ queue_limit
    → IsWf r.saved
    → IsWf (load_queue w b i p r).saved
unfolding load_queue cancel_playback
load_queue-IsWf w b i p r hi hl v =
    reset_shuffle-IsWf (record (r.saved) { queue = b.ids; index = i })
      (record { in_range = omega arith; loud = v.loud; small = hl; marked_once = v.marked_once })

validate-small :
    (w : World) (lenient : Bool) (ids : List String)
    → validate w lenient ids ≡ none
    → length ids ≤ queue_limit
unfolding validate
validate-small w lenient ids h = ground arith

start_at-Keeps :
    (w : World) (b : RemoteCommand) (i p : ℕ) (r : Remote)
    → IsWf r.saved
    → Keeps (start_at w b i p r)
unfolding start_at
start_at-Keeps w b i p r v = elim (Bool-cases (leb (length b.ids) i)) [
  | inl out ↦ rw out v
  | inr within ↦ elim (Option-cases (validate w (str_eq r.saved.failure "skip") b.ids)) [
    | inr (e, bad) ↦ rw (within, bad, start_at) v
    | inl fine ↦
        let loaded : IsWf (load_queue w b i p r).saved =
          load_queue-IsWf w b i p r (ground arith) (validate-small w _ b.ids fine) v in
        elim (Bool-cases (wants_play b.playing)) [
          | inl plays ↦
              rw (within, fine, start_at, plays)
                (start_with_policy-IsWf w (load_queue w b i p r) loaded)
          | inr rests ↦ rw (within, fine, start_at, rests) loaded
        ]
  ]
]

pub start_queue-Keeps :
    (w : World) (b : RemoteCommand) (i p : ℤ) (r : Remote)
    → IsWf r.saved
    → Keeps (start_queue w b i p r)
unfolding start_queue
start_queue-Keeps w b (negsuc i) p r v = v
start_queue-Keeps w b (pos i) (negsuc p) r v = v
start_queue-Keeps w b (pos i) (pos p) r v = start_at-Keeps w b i p r v

select_output-IsWf :
    (w : World) (id : String) (r : Remote) → IsWf r.saved → IsWf (select_output w id r).saved
unfolding select_output cancel_playback
select_output-IsWf w id r v = v

take_volume-IsWf :
    (id : String) (a : VolumeAnswer) (r : Remote)
    → ((v : ℕ) → a ≡ volume_read v → v ≤ 100)
    → IsWf r.saved
    → IsWf (take_volume id a r).saved
unfolding take_volume
take_volume-IsWf id (volume_read v) r h w = record {
  in_range = w.in_range;
  loud = h v refl;
  small = w.small;
  marked_once = w.marked_once;
}
take_volume-IsWf id (volume_failed p) r h w = w

read_volume-le : (w : World) (d : Device) (v : ℕ) → read_volume w d ≡ volume_read v → v ≤ 100
unfolding read_volume answer_of_body volume_answer
read_volume-le w d v e = body-le (w.volume_body d) e
  where
    answer-le : (a : ReportedVolume) → IsPercent a → volume_answer a ≡ volume_read v → v ≤ 100
    answer-le (reported n) h e = ground arith
    answer-le invalid_volume h e = cc
    answer-le not_reported h e = cc

    body-le : (b : VolumeBody) → answer_of_body w.floats b ≡ volume_read v → v ≤ 100
    body-le (answered body) e =
        answer-le (parse_volume w.floats body) (parse_volume-IsPercent w.floats body) e
    body-le (unanswered pairing) e = cc

pub choose_outputs-Keeps :
    (w : World) (ids : List String) (r : Remote) → IsWf r.saved → Keeps (choose_outputs w ids r)
unfolding choose_outputs
choose_outputs-Keeps w [] r v = select_output-IsWf w "" r v
choose_outputs-Keeps w (id ∷ []) r v = elim (Option-cases (find_device id r.devices)) [
  | inl out ↦ rw (out, choose_outputs) v
  | inr (d, found) ↦ elim (Bool-cases (str_eq d.unsupported_reason "")) [
    | inr bad ↦ rw (found, bad, choose_outputs) v
    | inl fine ↦ elim (Bool-cases (str_eq id "")) [
      | inl local ↦ rw (found, fine, choose_outputs, local) (select_output-IsWf w id r v)
      | inr there ↦
          rw (found, fine, choose_outputs, there)
            (take_volume-IsWf id (read_volume w d) (select_output w id r) (read_volume-le w d)
              (select_output-IsWf w id r v))
    ]
  ]
]
choose_outputs-Keeps w (x ∷ y ∷ ids) r v = v

pub stop_queue-IsWf : (w : World) (r : Remote) → IsWf r.saved → IsWf (stop_queue w r).saved
unfolding stop_queue cancel_playback
stop_queue-IsWf w r v = v

pub leave_for_local-IsWf : (r : Remote) → IsWf r.saved → IsWf (leave_for_local r).saved
unfolding leave_for_local cancel_playback
leave_for_local-IsWf r v = v

pub clear_queue-IsWf : (r : Remote) → IsWf r.saved → IsWf (clear_queue r).saved
unfolding clear_queue cancel_playback reset_shuffle mark_shuffle
clear_queue-IsWf r v = record {
  in_range = omega arith;
  loud = v.loud;
  small = omega arith;
  marked_once = tt;
}

seek_to-Keeps :
    (w : World) (playing : Bool) (p : ℕ) (r : Remote) → IsWf r.saved → Keeps (seek_to w playing p r)
unfolding seek_to
seek_to-Keeps w playing p r v =
    let c : Remote = cancel_playback r in
    let s : Remote = record c { saved = record (c.saved) { position = pos p; seeked = true } } in
    elim (Option-cases (get_elem? r.saved.queue r.saved.index)) [
      | inl out ↦ rw (out, seek_to) v
      | inr (id, at) ↦
          let d : ℕ = stored_duration w.tracks id in
          elim (Bool-cases (ltb 0 d && leb d p)) [
            | inl beyond ↦ rw (at, seek_to, beyond) v
            | inr fine ↦ elim (Bool-cases playing) [
              | inl on ↦ rw (at, seek_to, fine, on) (start_with_policy-IsWf w s v)
              | inr off ↦ rw (at, seek_to, fine, off) v
            ]
          ]
    ]

pub seek_queue-Keeps :
    (w : World) (playing : Bool) (p : ℤ) (r : Remote)
    → IsWf r.saved
    → Keeps (seek_queue w playing p r)
unfolding seek_queue
seek_queue-Keeps w playing (negsuc p) r v = v
seek_queue-Keeps w playing (pos p) r v = seek_to-Keeps w playing p r v

jump-IsWf :
    (w : World) (i : ℕ) (r : Remote)
    → i < length r.saved.queue
    → IsWf r.saved
    → IsWf (jump w i r).saved
unfolding jump
jump-IsWf w i r h v =
    mark_shuffle-IsWf (record (r.saved) { index = i })
      (record {
        in_range = omega arith;
        loud = v.loud;
        small = v.small;
        marked_once = v.marked_once;
      })

jump_checked-Keeps : (w : World) (i : ℕ) (r : Remote) → IsWf r.saved → Keeps (jump_checked w i r)
unfolding jump_checked
jump_checked-Keeps w i r v = elim (Bool-cases (leb (length r.saved.queue) i)) [
  | inl out ↦ rw out v
  | inr within ↦
      rw within (start_with_policy-IsWf w (jump w i r) (jump-IsWf w i r (ground arith) v))
]

pub select_index-Keeps :
    (w : World) (i : ℤ) (r : Remote) → IsWf r.saved → Keeps (select_index w i r)
unfolding select_index
select_index-Keeps w (negsuc i) r v = v
select_index-Keeps w (pos i) r v = jump_checked-Keeps w i r v

pub next_index-Keeps : (w : World) (r : Remote) → IsWf r.saved → Keeps (next_index w r)
unfolding next_index cancel_playback
next_index-Keeps w r v =
    let a : Remote × Bool = advance_remote w true r in
    let m : IsWf a.0.saved = advance-IsWf (w.int_n r.draws) true r.saved (w.int_n-lt r.draws) v in
    elim (Bool-cases a.1) [
      | inl moved ↦ rw moved (jump_checked-Keeps w a.0.saved.index a.0 m)
      | inr end ↦ rw end m
    ]

pub previous_index-Keeps : (w : World) (r : Remote) → IsWf r.saved → Keeps (previous_index w r)
unfolding previous_index
previous_index-Keeps w r v = jump_checked-Keeps w (r.saved.index - 1) r v
