-- ===== src/Remote/Playback/Results.antt =====
-- What `startWithPolicy` leaves: a queue that is loading an available track, or one at rest.
use harmonia_server.Remote.Shuffle.{reset_history}
use harmonia_server.Remote.State.{TrackError}
use harmonia_server.Prelude.{
  ℕ, zero, suc, ◌+◌, ◌≡◌, refl, ◌≢◌, ◌⊎◌, inl, inr, Bool, true, false, List, [], ◌∷◌, Option, none,
  some, String, arith, length, get_elem?, str_eq, Bool-cases, Option-cases,
}
use harmonia_server.Remote.State.{
  Remote, World, RemoteError, Track, TrackError, loading, play, Outcome, ok, err,
}
use harmonia_server.Remote.Playback.{
  restart_history, advance_remote, track_from_state, start_check, launch, start, skip_loop,
  skip_failed, start_loop, start_with_policy, cancel_playback, idle_state,
}

-- Nothing plays, and no session is left to play.
pub record IsIdle (r : Remote) : Type 0 where
  pub not_loading : r.state ≢ loading
  pub not_playing : r.state ≢ play
  pub no_cancel : r.cancel ≡ false
  pub no_session : r.session ≡ none

idle_state-ne-loading : (q : List String) → idle_state q ≢ loading
unfolding idle_state
idle_state-ne-loading [] e = cc
idle_state-ne-loading (x ∷ q) e = cc

idle_state-ne-play : (q : List String) → idle_state q ≢ play
unfolding idle_state
idle_state-ne-play [] e = cc
idle_state-ne-play (x ∷ q) e = cc

pub cancel_playback-IsIdle : (r : Remote) → IsIdle (cancel_playback r)
unfolding cancel_playback
cancel_playback-IsIdle r = record {
  not_loading = idle_state-ne-loading r.saved.queue;
  not_playing = idle_state-ne-play r.saved.queue;
  no_cancel = refl;
  no_session = refl;
}

skip_loop-IsIdle : (w : World) (n : ℕ) (r : Remote) → IsIdle r → IsIdle (skip_loop w n r).0
unfolding skip_loop advance_remote restart_history
skip_loop-IsIdle w zero r i = ground arith
skip_loop-IsIdle w (suc n) r i =
    ground (arith, i.not_loading, i.not_playing, skip_loop-IsIdle w n (advance_remote w true r).0)

skip_failed-IsIdle :
    (w : World) (e : RemoteError) (r : Remote) → IsIdle r → IsIdle (skip_failed w e r).0
unfolding skip_failed
skip_failed-IsIdle w e r i = elim (Option-cases (get_elem? r.saved.queue r.saved.index)) [
  | inl out ↦ ground (arith, i.not_loading, i.not_playing)
  | inr (id, at) ↦ ground (
    arith,
    i.not_loading,
    i.not_playing,
    skip_loop-IsIdle w (length r.saved.queue)
        (record r { last_error = some e; failed = id ∷ r.failed })
        (record {
          not_loading = i.not_loading;
          not_playing = i.not_playing;
          no_cancel = i.no_cancel;
          no_session = i.no_session;
        }),
  )
]

Outcome-cases {ℓ} :
    {A : Type ℓ} (o : Outcome A) → ((a : A) × (o ≡ ok a)) ⊎ ((e : TrackError) × (o ≡ err e))
Outcome-cases (ok a) = inl (a, refl)
Outcome-cases (err e) = inr (e, refl)

abbrev pub Available : World → Remote → Type 0
Available w r =
    (id : String) × (t : Track) × (get_elem? r.saved.queue r.saved.index ≡ some id)
    × (track_from_state w w.tracks id ≡ ok t)

start_check-Available : (w : World) (r : Remote) → start_check w r ≡ none → Available w r
unfolding start_check
start_check-Available w r h = elim (Option-cases (get_elem? r.saved.queue r.saved.index)) [
  | inl out ↦ absurd (ground arith)
  | inr (id, at) ↦ elim (Outcome-cases (track_from_state w w.tracks id)) [
    | inl (t, found) ↦ (id, t, at, found)
    | inr (e, refused) ↦ absurd (ground arith)
  ]
]

-- The queue is loading a track of the library that resolves to a file.
pub record IsLoading (w : World) (r : Remote) : Type 0 where
  pub loads : r.state ≡ loading
  pub can_cancel : r.cancel ≡ true
  pub no_error : r.last_error ≡ none
  pub available : Available w r

launch-IsLoading : (w : World) (r : Remote) → start_check w r ≡ none → IsLoading w (launch w r)
unfolding launch cancel_playback restart_history reset_history
launch-IsLoading w r h =
    let (id, t, at, found) = start_check-Available w r h in
    record {
      loads = refl;
      can_cancel = refl;
      no_error = refl;
      available = (id, t, ground arith, found);
    }

start-IsLoading : (w : World) (r : Remote) → (start w r).1 ≡ none → IsLoading w (start w r).0
unfolding start
start-IsLoading w r h = elim (Option-cases (start_check w r)) [
  | inl fine ↦ rw (fine, start) (launch-IsLoading w r fine)
  | inr (e, refused) ↦ absurd (ground arith)
]

-- The state that a start with skips returns, by the error that it returns.
abbrev pub Settled : World → Remote × Option RemoteError → Type 0
Settled w (r, none) = IsLoading w r
Settled w (r, some e) = IsIdle r

start_loop-Settled :
    (w : World) (n : ℕ) (r : Remote) → (n ≡ 0 → IsIdle r) → Settled w (start_loop w n r)
unfolding start_loop
start_loop-Settled w zero r i = i refl
start_loop-Settled w (suc n) r i = elim (Option-cases (start w r).1) [
  | inl fine ↦ rw (fine, start_loop) (start-IsLoading w r fine)
  | inr (e, failed) ↦
      let u : Remote × Bool = skip_failed w e (cancel_playback (start w r).0) in
      let rest : IsIdle u.0 = skip_failed-IsIdle w e _ (cancel_playback-IsIdle (start w r).0) in
      elim (Bool-cases u.1) [
        | inl again ↦ rw (failed, start_loop, again) (start_loop-Settled w n u.0 (λ _. rest))
        | inr over ↦ rw (failed, start_loop, over) rest
      ]
]

-- `startWithPolicy` without an error is loading a track that the library resolves, and can be
-- cancelled; with an error it leaves nothing that loads or plays, and no session.
pub start_with_policy-Settled : (w : World) (r : Remote) → Settled w (start_with_policy w r)
unfolding start_with_policy
start_with_policy-Settled w r = start_loop-Settled w _ r (λ e. absurd (omega arith))

stays_without_skip :
    (w : World) (e : RemoteError) (r : Remote)
    → str_eq r.saved.failure "skip" ≡ false
    → ((skip_failed w e r).1 ≡ false) × ((skip_failed w e r).0.saved ≡ r.saved)
unfolding skip_failed
stays_without_skip w e r h = ground arith

start_loop_stops :
    (w : World) (n : ℕ) (r : Remote) (e : RemoteError)
    → str_eq r.saved.failure "skip" ≡ false
    → start_check w r ≡ some e
    → ((start_loop w (suc n) r).1 ≡ some e) × ((start_loop w (suc n) r).0.saved ≡ r.saved)
unfolding start_loop start cancel_playback
start_loop_stops w n r e h f = ground (arith, stays_without_skip w e (cancel_playback r) h)

-- Unless the failure policy is to skip, the first error is returned and the saved queue stays.
start_with_policy_stops :
    (w : World) (r : Remote) (e : RemoteError)
    → str_eq r.saved.failure "skip" ≡ false
    → start_check w r ≡ some e
    → ((start_with_policy w r).1 ≡ some e) × ((start_with_policy w r).0.saved ≡ r.saved)
unfolding start_with_policy
start_with_policy_stops w r e h f =
    let two : length r.saved.queue + 2 ≡ suc (length r.saved.queue + 1) = omega arith in
    rw two (start_loop_stops w _ r e h f)
