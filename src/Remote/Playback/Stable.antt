-- ===== src/Remote/Playback/Stable.antt =====
-- What survives a start and its skips: a predicate on the saved state that advancing, rewinding and a
-- new history keep.
use harmonia_server.Prelude.{pos, ℤ, str_eq}
use harmonia_server.Prelude.{
  ℕ, zero, suc, ◌+◌, ◌≡◌, ap, ◌∙◌, inl, inr, Bool, true, not, List, String, arith, length,
  get_elem?, get_or, contains, Bool-cases, Option-cases,
}
use harmonia_server.Remote.State.{RemoteSaved, Remote, World, RemoteError}
use harmonia_server.Remote.Shuffle.{advance, reset_history, advance_in_order, mark_shuffle}
use harmonia_server.Remote.Shuffle.Rounds.{InRange, advance_shuffle_frame}
use harmonia_server.Remote.Shuffle.Wellformed.{IsWf, advance-IsWf, reset_history-IsWf}
use harmonia_server.Remote.Playback.{
  advance_remote, start_check, launch, start, skip_loop, skip_failed, start_loop, start_with_policy,
  cancel_playback, is_pairing_required, is_track_error, may_skip,
}

pub record Stable (P : RemoteSaved → Type 0) : Type 0 where
  pub advances :
      (pick : ℕ → ℕ) (manual : Bool) (s : RemoteSaved)
      → InRange pick
      → P s
      → P (advance pick manual s).0
  pub restarts :
      (id : String) (position : ℤ) (s : RemoteSaved) → P s → P (reset_history id position s)
  pub rewinds : (s : RemoteSaved) → P s → P (record s { position = pos 0 })

module _ {P : RemoteSaved → Type 0} (stable : Stable P) (w : World) where
  pub skip_loop_stable : (n : ℕ) (r : Remote) → P r.saved → P (skip_loop w n r).0.saved
  unfolding skip_loop
  skip_loop_stable zero r p = p
  skip_loop_stable (suc n) r p =
      let a : Remote × Bool = advance_remote w true r in
      let q : P a.0.saved = stable.advances (w.int_n r.draws) true r.saved (w.int_n-lt r.draws) p in
      elim (Bool-cases a.1) [
        | inl moved ↦
            elim (Bool-cases (contains a.0.failed (get_or a.0.saved.queue a.0.saved.index ""))) [
              | inl bad ↦ rw (moved, bad) (skip_loop_stable n a.0 q)
              | inr good ↦ rw (moved, good) (stable.restarts _ (pos 0) _ (stable.rewinds _ q))
            ]
        | inr end ↦ rw end q
      ]

  pub launch_stable : (r : Remote) → P r.saved → P (launch w r).saved
  unfolding launch cancel_playback
  launch_stable r p = elim (Bool-cases (str_eq r.saved.playback_session "")) [
    | inl new ↦ rw new (stable.restarts _ r.saved.position _ p)
    | inr old ↦ rw old p
  ]

  pub start_stable : (r : Remote) → P r.saved → P (start w r).0.saved
  unfolding start
  start_stable r p = elim (Option-cases (start_check w r)) [
    | inl ok ↦ rw (ok, start) (launch_stable r p)
    | inr (e, refused) ↦ rw (refused, start) p
  ]

  pub skip_failed_stable :
      (e : RemoteError) (r : Remote) → P r.saved → P (skip_failed w e r).0.saved
  unfolding skip_failed
  skip_failed_stable e r p = elim (Bool-cases (is_pairing_required e)) [
    | inl unpaired ↦ rw unpaired p
    | inr known ↦ elim (Bool-cases (not (is_track_error e))) [
      | inl other ↦ rw (known, other) p
      | inr track ↦ elim (Bool-cases (not (may_skip w r.saved))) [
        | inl stays ↦ rw (known, track, stays) p
        | inr skips ↦ elim (Option-cases (get_elem? r.saved.queue r.saved.index)) [
          | inl out ↦ rw (known, track, skips, out, skip_failed) p
          | inr (id, at) ↦
              rw (known, track, skips, at, skip_failed)
                (skip_loop_stable (length r.saved.queue) _ p)
        ]
      ]
    ]
  ]

  pub start_loop_stable : (n : ℕ) (r : Remote) → P r.saved → P (start_loop w n r).0.saved
  unfolding start_loop cancel_playback start
  start_loop_stable zero r p = p
  start_loop_stable (suc n) r p = elim (Option-cases (start w r).1) [
    | inl ok ↦ rw (ok, start_loop) (start_stable r p)
    | inr (e, failed) ↦
        let u : Remote × Bool = skip_failed w e (cancel_playback (start w r).0) in
        let q : P u.0.saved =
          skip_failed_stable e (cancel_playback (start w r).0) (start_stable r p) in
        elim (Bool-cases u.1) [
          | inl again ↦ rw (failed, start_loop, again) (start_loop_stable n u.0 q)
          | inr over ↦ rw (failed, start_loop, over) q
        ]
  ]

  pub start_with_policy_stable : (r : Remote) → P r.saved → P (start_with_policy w r).0.saved
  unfolding start_with_policy
  start_with_policy_stable r = start_loop_stable (length r.saved.queue + 2) r

IsWf-Stable : Stable IsWf
IsWf-Stable = record {
  advances = advance-IsWf;
  restarts = reset_history-IsWf;
  rewinds = λ s v. record {
    in_range = v.in_range;
    loud = v.loud;
    small = v.small;
    marked_once = v.marked_once;
  };
}

advance-queue :
    (pick : ℕ → ℕ) (manual : Bool) (s : RemoteSaved) → (advance pick manual s).0.queue ≡ s.queue
unfolding advance advance_in_order mark_shuffle
advance-queue pick manual s =
    ground (arith, ap (λ (t : RemoteSaved). t.queue) (advance_shuffle_frame pick s))

pub queue-Stable : (q : List String) → Stable (λ s. s.queue ≡ q)
unfolding reset_history
queue-Stable q = record {
  advances = λ pick manual s _ e. advance-queue pick manual s ∙ e;
  restarts = λ id n s e. e;
  rewinds = λ s e. e;
}

-- A start keeps the queue well formed, however many tracks it skips.
pub start_with_policy-IsWf :
    (w : World) (r : Remote) → IsWf r.saved → IsWf (start_with_policy w r).0.saved
start_with_policy-IsWf w r = start_with_policy_stable IsWf-Stable w r

pub skip_failed-IsWf :
    (w : World) (e : RemoteError) (r : Remote) → IsWf r.saved → IsWf (skip_failed w e r).0.saved
skip_failed-IsWf w e r = skip_failed_stable IsWf-Stable w e r
