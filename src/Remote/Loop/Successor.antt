-- ===== src/Remote/Loop/Successor.antt =====
-- The gapless successor of remote_queue.go and the queue's own: `prepareTrack` plans, on a copy of the
-- saved state, the track that `loop` starts when the current one has ended.
use harmonia_server.Prelude.{
  pos, ℕ, ◌+◌, ◌≡◌, sym, ap, ◌∙◌, inl, inr, Bool, true, false, List, [], ◌∷◌, some, String, arith,
  refl, Bool-cases, str_eq, length, contains, get_or,
}
use harmonia_server.Remote.State.{RemoteSaved, Remote, World}
use harmonia_server.Remote.Shuffle.{
  mark_shuffle, candidates, shuffle_to, or_index, next_round, advance_from, advance_in_order,
  advance, reset_history,
}
use harmonia_server.Remote.Playback.{
  cancel_playback, restart_history, advance_remote, start_with_policy,
}
use harmonia_server.Remote.Prefetch.{plan_next}
use harmonia_server.Remote.Loop.{
  expire_at_end, rest_or_continue, continue_queue, paused_on_error, track_finished,
}

-- The saved state at the beginning of a track.
abbrev rewound : String → RemoteSaved → RemoteSaved
rewound id s = record s {
  position = pos 0;
  playback_session = id;
  listened = pos 0;
  counted = false;
  seeked = false;
}

mark_shuffle-rewound :
    (id : String) (s : RemoteSaved) → mark_shuffle (rewound id s) ≡ rewound id (mark_shuffle s)
unfolding mark_shuffle
mark_shuffle-rewound id s = ground arith

shuffle_to-rewound :
    (pick : ℕ → ℕ) (cs : List ℕ) (id : String) (s : RemoteSaved)
    → shuffle_to pick cs (rewound id s) ≡ rewound id (shuffle_to pick cs s)
unfolding shuffle_to
shuffle_to-rewound pick cs id s =
    mark_shuffle-rewound id (record s { index = get_or cs (pick (length cs)) s.index })

advance_from-rewound :
    (cs : List ℕ) (pick : ℕ → ℕ) (id : String) (s : RemoteSaved)
    → advance_from cs pick (rewound id s)
      ≡ (rewound id (advance_from cs pick s).0, (advance_from cs pick s).1)
unfolding advance_from next_round
advance_from-rewound (c ∷ cs) pick id s = rw (shuffle_to-rewound pick (c ∷ cs) id s)
advance_from-rewound [] pick id s = elim (Bool-cases (str_eq s.repeat "all")) [
  | inl again ↦
      rw (again, advance_from)
        (ap (λ (t : RemoteSaved). (t, true))
          (shuffle_to-rewound pick
            (or_index s.index (candidates (str_eq (get_or s.queue s.index "")) s.queue 0 [])) id
            (record s { shuffle_visited = [] })))
  | inr over ↦ rw (over, advance_from)
]

advance_in_order-rewound :
    (id : String) (s : RemoteSaved)
    → advance_in_order (rewound id s) ≡ (rewound id (advance_in_order s).0, (advance_in_order s).1)
unfolding advance_in_order
advance_in_order-rewound id s = ground (
  arith,
  mark_shuffle-rewound id (record s { index = s.index + 1 }),
  mark_shuffle-rewound id (record s { index = 0; shuffle_visited = [] }),
)

advance-rewound :
    (pick : ℕ → ℕ) (manual : Bool) (id : String) (s : RemoteSaved)
    → advance pick manual (rewound id s)
      ≡ (rewound id (advance pick manual s).0, (advance pick manual s).1)
unfolding advance
advance-rewound pick manual id s = ground (
  arith,
  advance_in_order-rewound id s,
  advance_from-rewound (candidates (contains s.shuffle_visited) s.queue 0 []) pick id s,
)

-- The state from which the queue goes on when a track has ended.
abbrev begun : World → Remote → Remote
begun w r =
    restart_history w (pos 0)
      (record (cancel_playback r) { saved = record (r.saved) { position = pos 0 }; failed = [] })

track_finished-begun :
    (w : World) (r : Remote)
    → expire_at_end w r.saved ≡ r.saved
    → r.saved.waiting ≡ false
    → track_finished w r ≡ continue_queue w (begun w r)
unfolding track_finished
track_finished-begun w r e h =
    ap
      (λ (s : RemoteSaved). rest_or_continue s.waiting w (
        restart_history w (pos 0)
          (record (cancel_playback r) { saved = record s { position = pos 0 }; failed = [] })))
      e
    ∙ ap (λ (b : Bool). rest_or_continue b w (begun w r)) h

continue_queue_moved :
    (w : World) (r : Remote)
    → (advance_remote w false r).1 ≡ true
    → continue_queue w r ≡ paused_on_error (start_with_policy w (advance_remote w false r).0)
unfolding continue_queue
continue_queue_moved w r h = rw h

abbrev Planned : (ℕ → ℕ) → String → World → RemoteSaved → RemoteSaved → Type 0
Planned pick id w s t =
    (expire_at_end w s ≡ s)
    × (s.waiting ≡ false)
    × ((advance pick false s).1 ≡ true)
    × (t ≡ rewound id (advance pick false s).0)

plan_next-Planned :
    (pick : ℕ → ℕ) (id : String) (w : World) (s t : RemoteSaved)
    → plan_next pick id s ≡ some t
    → Planned pick id w s t
unfolding plan_next reset_history expire_at_end
plan_next-Planned pick id w s t h = (ground arith, ground arith, ground arith, ground arith)

advance_remote_begun :
    (w : World) (r : Remote)
    → advance (w.int_n (r.draws + 1)) false (begun w r).saved ≡ (
      rewound (w.new_id r.draws) (advance (w.int_n (r.draws + 1)) false r.saved).0,
      (advance (w.int_n (r.draws + 1)) false r.saved).1,
    )
unfolding restart_history cancel_playback reset_history
advance_remote_begun w r = advance-rewound (w.int_n (r.draws + 1)) false (w.new_id r.draws) r.saved

in_order-advance :
    (pick other : ℕ → ℕ) (s : RemoteSaved)
    → s.shuffle ≡ false
    → advance pick false s ≡ advance other false s
unfolding advance
in_order-advance pick other s h = rw h refl

-- Without shuffle: when a successor was planned while a track played, whatever the plan's random source, and the track
-- ends without an error before anything changed, the queue goes on to exactly the planned state: the same track, index
-- and record of played tracks. Only the id of the playback session is drawn anew.
pub plan_next-track_finished :
    (pick : ℕ → ℕ) (w : World) (r : Remote) (id : String) (t : RemoteSaved)
    → r.saved.shuffle ≡ false
    → plan_next pick id r.saved ≡ some t
    → (u : Remote) × (track_finished w r ≡ paused_on_error (start_with_policy w u))
      × (u.saved ≡ record t { playback_session = w.new_id r.draws })
unfolding advance_remote restart_history cancel_playback
plan_next-track_finished pick w r id t straight h =
    let (quiet, goes, moved, planned) = plan_next-Planned pick id w r.saved t h in
    let same : advance pick false r.saved ≡ advance (w.int_n (r.draws + 1)) false r.saved =
      in_order-advance pick (w.int_n (r.draws + 1)) r.saved straight in
    let on : advance (w.int_n (r.draws + 1)) false (begun w r).saved ≡ (
      rewound (w.new_id r.draws) (advance (w.int_n (r.draws + 1)) false r.saved).0,
      (advance (w.int_n (r.draws + 1)) false r.saved).1,
    ) =
      advance_remote_begun w r in
    (
      (advance_remote w false (begun w r)).0,
      track_finished-begun w r quiet goes
          ∙ continue_queue_moved w (begun w r) (
              ap (λ (a : RemoteSaved × Bool). a.1) (on)
              ∙ (sym (ap (λ (a : RemoteSaved × Bool). a.1) same) ∙ moved)),
      ap (λ (a : RemoteSaved × Bool). a.0) on
          ∙ (sym (ap (λ (a : RemoteSaved × Bool). rewound (w.new_id r.draws) a.0) same)
              ∙ ap (λ (s : RemoteSaved). record s { playback_session = w.new_id r.draws })
                  (sym planned)),
    )
