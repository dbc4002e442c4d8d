-- ===== src/Remote/Playback/Skips.antt =====
-- `startWithPolicy` ends, and what it leaves.
use harmonia_server.Prelude.{
  ℕ, zero, suc, ◌+◌, ◌<◌, ◌≡◌, refl, ap, ◌≢◌, inl, inr, Bool, true, false, ◌∷◌, some, String, arith,
  length, get_elem?, get_or, get_or-get_elem?, contains, contains-get_elem?, outside, outside_mono,
  outside-lt, outside-le-length, eq_refl, Bool-cases, Option-cases, if◌then◌else◌,
}
use harmonia_server.Remote.State.{Remote, World, RemoteError, skip_limit}
use harmonia_server.Remote.Shuffle.{reset_history}
use harmonia_server.Remote.Playback.{
  restart_history, advance_remote, start_check, start, skip_loop, skip_failed, start_loop,
  start_with_policy, cancel_playback,
}
use harmonia_server.Remote.Playback.Stable.{queue-Stable, skip_failed_stable}

-- The id of the track that is up.
abbrev pub current : Remote → String
current r = get_or r.saved.queue r.saved.index ""

-- A skip that succeeds has found a track that did not fail, and marks no further one.
skip_loop_lands :
    (w : World) (n : ℕ) (r : Remote)
    → (skip_loop w n r).1 ≡ true
    → (contains r.failed (current (skip_loop w n r).0) ≡ false)
      × ((skip_loop w n r).0.failed ≡ r.failed)
unfolding skip_loop advance_remote restart_history reset_history
skip_loop_lands w zero r e = cc
skip_loop_lands w (suc n) r e = ground (arith, skip_loop_lands w n (advance_remote w true r).0)

abbrev pub Skipped : Remote → Remote → Type 0
Skipped r u =
    (id : String) × (get_elem? r.saved.queue r.saved.index ≡ some id)
    × (u.failed ≡ id ∷ r.failed)
    × (contains (id ∷ r.failed) (current u) ≡ false)

-- `skipFailed` answers true only after it marked the current track as failed and moved to one that is not.
pub skip_failed_lands :
    (w : World) (e : RemoteError) (r : Remote)
    → (skip_failed w e r).1 ≡ true
    → Skipped r (skip_failed w e r).0
unfolding skip_failed
skip_failed_lands w e r h = elim (Option-cases (get_elem? r.saved.queue r.saved.index)) [
  | inl out ↦ absurd (ground arith)
  | inr (id, at) ↦
      let marked : Remote = record r { last_error = some e; failed = id ∷ r.failed } in
      let lands : (contains marked.failed (current (skip_loop w (length r.saved.queue) marked).0)
            ≡ false)
          × ((skip_loop w (length r.saved.queue) marked).0.failed ≡ marked.failed) =
        skip_loop_lands w (length r.saved.queue) marked (ground arith) in
      (id, at, ground arith, ground arith)
]

start_check-ne-skip_limit : (w : World) (r : Remote) → start_check w r ≢ some skip_limit
unfolding start_check
start_check-ne-skip_limit w r e = ground arith

start-ne-skip_limit : (w : World) (r : Remote) → (start w r).1 ≢ some skip_limit
unfolding start
start-ne-skip_limit w r = ground (arith, start_check-ne-skip_limit w r)

-- A start that is refused changes nothing.
pub start_refused :
    (w : World) (r : Remote) (e : RemoteError) → (start w r).1 ≡ some e → (start w r).0 ≡ r
unfolding start
start_refused w r e h = ground arith

-- Rounds that `startWithPolicy` can still make: a track that did not fail yet takes one each.
abbrev rounds : Remote → ℕ
rounds r = outside r.failed r.saved.queue + (if contains r.failed (current r) then 1 else 0)

Skipped-rounds : (r u : Remote) → u.saved.queue ≡ r.saved.queue → Skipped r u → rounds u < rounds r
unfolding contains
Skipped-rounds r u q (id, at, f, new) =
    rw (f, new, q)
      (ground (
        arith,
        eq_refl id,
        get_or-get_elem? r.saved.queue r.saved.index "" at,
        contains-get_elem? r.saved.queue r.saved.index id at,
        outside_mono r.failed (id ∷ r.failed) r.saved.queue (λ b m. ground arith),
        outside-lt r.failed (id ∷ r.failed) r.saved.queue id (λ b m. ground arith)
            (ground (arith, eq_refl id)),
      ))

rounds-cancel_playback : (r : Remote) → rounds (cancel_playback r) ≡ rounds r
unfolding cancel_playback
rounds-cancel_playback r = refl

-- After a refused start and a skip there are fewer rounds to make.
refused_rounds :
    (w : World) (r : Remote) (e : RemoteError)
    → (start w r).1 ≡ some e
    → (skip_failed w e (cancel_playback (start w r).0)).1 ≡ true
    → rounds (skip_failed w e (cancel_playback (start w r).0)).0 < rounds r
refused_rounds w r e failed again =
    let c : Remote = cancel_playback (start w r).0 in
    omega (
      arith,
      Skipped-rounds c (skip_failed w e c).0
          (skip_failed_stable (queue-Stable c.saved.queue) w e c refl)
          (skip_failed_lands w e c again),
      rounds-cancel_playback (start w r).0,
      ap rounds (start_refused w r e failed),
    )

start_loop-ne-skip_limit :
    (w : World) (n : ℕ) (r : Remote) → rounds r < n → (start_loop w n r).1 ≢ some skip_limit
unfolding start_loop
start_loop-ne-skip_limit w zero r h = absurd (omega arith)
start_loop-ne-skip_limit w (suc n) r h = elim (Option-cases (start w r).1) [
  | inl fine ↦ rw (fine, start_loop) (λ e. cc)
  | inr (e, failed) ↦
      let u : Remote × Bool = skip_failed w e (cancel_playback (start w r).0) in
      elim (Bool-cases u.1) [
        | inl again ↦
            rw (failed, start_loop, again)
              (start_loop-ne-skip_limit w n u.0 (omega (arith, refused_rounds w r e failed again)))
        | inr over ↦ rw (failed, start_loop, over) (rw failed at (start-ne-skip_limit w r))
      ]
]

-- The loop of `startWithPolicy` ends on every input: it never runs out of its rounds.
pub start_with_policy-ne-skip_limit :
    (w : World) (r : Remote) → (start_with_policy w r).1 ≢ some skip_limit
unfolding start_with_policy
start_with_policy-ne-skip_limit w r =
    start_loop-ne-skip_limit w _ r (ground (arith, outside-le-length r.failed r.saved.queue))
