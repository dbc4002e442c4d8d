-- ===== src/Remote/Prefetch.antt =====
-- What plays next, before the current track ends: `prefetchNext` of remote_pcm.go, and the plan that
-- `prepareTrack` of remote_queue.go makes on a copy of the saved state.
use harmonia_server.Prelude.{
  pos, ℕ, ◌+◌, ◌<◌, ◌≡◌, false, not, ◌||◌, [], Option, none, some, String, arith, if◌then◌else◌,
  ltb, length, str_eq,
}
use harmonia_server.Remote.State.{RemoteSaved}
use harmonia_server.Remote.Shuffle.{
  advance, advance_in_order, mark_shuffle, reset_shuffle, reset_history,
}

-- Only a successor that is certain is fetched.
unfoldable pub prefetch_index : RemoteSaved → Option ℕ
prefetch_index s =
    if s.shuffle || s.finish || str_eq s.repeat "single" || ltb (length s.queue) 2
    then none
    else (if ltb (s.index + 1) (length s.queue)
        then some (s.index + 1)
        else (if str_eq s.repeat "all" then some 0 else none))

-- `id` is the playback session that the plan draws.
unfoldable pub plan_next : (ℕ → ℕ) → String → RemoteSaved → Option RemoteSaved
unfolding reset_history
plan_next pick id s =
    let (t, moved) = advance pick false s in
    if s.waiting || ltb 0 s.deadline || s.finish || not moved
    then none
    else some (reset_history id (pos 0) (record t { position = pos 0 }))

mark_shuffle-index : (s : RemoteSaved) → (mark_shuffle s).index ≡ s.index
unfolding mark_shuffle
mark_shuffle-index s = ground arith

-- Without shuffle, single repeat or a wait for the end of the track, and with at least two tracks, what
-- is prefetched is what the queue goes on to by itself: it advances to exactly that index, and does not
-- advance where nothing is fetched.
pub prefetch_index-advance :
    (pick : ℕ → ℕ) (s : RemoteSaved)
    → s.shuffle ≡ false
    → s.finish ≡ false
    → str_eq s.repeat "single" ≡ false
    → 1 < length s.queue
    → prefetch_index s
      ≡ (if (advance pick false s).1 then some (advance pick false s).0.index else none)
unfolding prefetch_index advance advance_in_order reset_shuffle
prefetch_index-advance pick s a b c h = ground (
  arith,
  mark_shuffle-index (record s { index = s.index + 1 }),
  mark_shuffle-index (record s { index = 0; shuffle_visited = [] }),
)
