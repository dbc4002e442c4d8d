-- ===== src/Remote/Loop/Timers.antt =====
-- The sleep timer, and events that come too late.
use harmonia_server.Prelude.{
  pos, ℕ, ◌+◌, ◌-◌, ◌%◌, ◌^◌, ◌<◌, ◌≡◌, refl, ◌⊎◌, inl, inr, true, false, Option, none, arith,
  Bool-cases, ◌==◌, Bool, List, [], ◌∷◌, String,
}
use harmonia_server.Remote.Gapless.{
  QueuedTrack, Reader, stream_ends, join_next, may_join, same_queue, is_complete, count_heard,
  show_heard, progress,
}
use harmonia_server.Remote.State.{Remote, World, Session, pause, RemoteError}
use harmonia_server.Remote.Shuffle.{reset_history}
use harmonia_server.Remote.Playback.{cancel_playback}
use harmonia_server.Remote.Playback.Results.{IsIdle, cancel_playback-IsIdle}
use harmonia_server.Remote.Loop.{
  deadline_passed, expire_at_end, track_finished, on_end, lets_finish, on_tick, Playing, on_connect,
  show_progress, count_play, on_progress, on_volume_sent,
}

-- When the deadline has passed, a tick clears it. If the timer lets the current track finish, playback
-- goes on and waits for the track's end; if not, nothing plays any more and nothing waits.
on_tick_expired :
    (w : World) (r : Remote)
    → deadline_passed w r.saved ≡ true
    → ((on_tick w r).saved.deadline ≡ 0)
      × (((lets_finish r ≡ true)
            × ((on_tick w r).saved.waiting ≡ true)
            × ((on_tick w r).state ≡ r.state)
            × ((on_tick w r).session ≡ r.session))
          ⊎ ((lets_finish r ≡ false)
              × ((on_tick w r).saved.waiting ≡ false)
              × IsIdle (on_tick w r)))
unfolding on_tick
on_tick_expired w r h = elim (Bool-cases (lets_finish r)) [
  | inl on ↦ rw (h, on) (refl, inl (refl, refl, refl, refl))
  | inr off ↦
      rw (h, off)
        (
          refl,
          inr (
            refl,
            refl,
            cancel_playback-IsIdle
                (record r { saved = record (r.saved) { deadline = 0; waiting = false } }),
          ),
        )
]

-- The track that ends while the queue waits, or after the deadline, is the last: playback pauses at
-- the beginning of that same track, with the timer cleared.
pub track_finished_rests :
    (w : World) (r : Remote)
    → (expire_at_end w r.saved).waiting ≡ true
    → ((track_finished w r).state ≡ pause)
      × ((track_finished w r).saved.waiting ≡ false)
      × ((track_finished w r).saved.position ≡ pos 0)
      × ((track_finished w r).saved.index ≡ r.saved.index)
      × ((track_finished w r).saved.queue ≡ r.saved.queue)
      × (deadline_passed w (track_finished w r).saved ≡ false)
      × ((track_finished w r).session ≡ none)
unfolding track_finished reset_history
track_finished_rests w r h = ground arith

-- What the goroutine of a playback reports when its generation is no longer the queue's: its session connects, its
-- progress counts or not, it sent its volume, its gapless reader reports progress or wants to join a track, it ends.
abbrev pub IsIgnored : World → Playing → Reader → Remote → Type 0
IsIgnored w p q r =
    ((e : Option RemoteError) → on_end w p.generation e r ≡ r)
    × ((session : Session) → on_connect p session r ≡ (r, false))
    × ((recorded : Bool) (position : ℕ) → (on_progress recorded p position r).1 ≡ r)
    × ((recorded : QueuedTrack → Bool) (position : ℕ) (ts : List QueuedTrack)
        → (progress recorded p.generation position ts r).1 ≡ r)
    × ((pick : ℕ → ℕ) (id : String) (sent : ℕ → Bool) (t : QueuedTrack)
        → join_next pick id sent t q r ≡ (q, stream_ends))
    × (on_volume_sent r ≡ record r { volume_pending = false })

progress_stale :
    (recorded : QueuedTrack → Bool) (generation position : ℕ) (ts : List QueuedTrack) (r : Remote)
    → (generation == r.generation) ≡ false
    → (progress recorded generation position ts r).1 ≡ r
unfolding progress show_heard same_queue
progress_stale recorded generation position [] r other = refl
progress_stale recorded generation position (t ∷ ts) r other =
    let here : show_heard generation position (count_heard recorded position t) r ≡ r =
      rw other refl in
    elim (Bool-cases (is_complete t position)) [
      | inl over ↦ rw (over, here) (progress_stale recorded generation position ts r other)
      | inr on ↦ rw on here
    ]

stale-IsIgnored :
    (w : World) (p : Playing) (q : Reader) (r : Remote)
    → (p.generation == r.generation) ≡ false
    → q.generation ≡ p.generation
    → IsIgnored w p q r
unfolding on_end on_connect on_progress show_progress count_play join_next may_join same_queue
    on_volume_sent
stale-IsIgnored w p q r other own = (
  λ e. ground arith,
  λ session. rw other refl,
  λ recorded position. ground arith,
  λ recorded position ts. progress_stale recorded p.generation position ts r other,
  λ pick id sent t. ground arith,
  refl,
)

-- Once a playback was cancelled, and through fewer than 2 ^ 64 - 1 further cancellations, whatever else the state is:
-- the reports of its goroutine leave the state as it is, with one exception that the code makes: once it has sent the
-- volume, none is pending any more. Its gapless reader joins no further track.
pub cancelled_events :
    (w : World) (p : Playing) (q : Reader) (r later : Remote) (n : ℕ)
    → r.generation < 2 ^ 64
    → p.generation ≡ r.generation
    → q.generation ≡ p.generation
    → n < 2 ^ 64 - 1
    → later.generation ≡ ((cancel_playback r).generation + n) % 2 ^ 64
    → IsIgnored w p q later
unfolding cancel_playback
cancelled_events w p q r later n h g own few e =
    let other : (p.generation == later.generation) ≡ false = ground arith in
    stale-IsIgnored w p q later other own
