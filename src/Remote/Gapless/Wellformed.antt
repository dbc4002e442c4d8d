-- ===== src/Remote/Gapless/Wellformed.antt =====
-- The gapless reader beside everything else that happens to the queue.
use harmonia_server.Prelude.{
  pos, ℕ, ◌+◌, ◌≡◌, refl, inl, inr, Bool, true, false, not, ◌||◌, List, [], ◌∷◌, ◌++◌, Option, none,
  some, String, arith, length, All, Bool-cases, Option-cases, strs_eq→eq, leb,
}
use harmonia_server.Remote.State.{RemoteSaved, Remote, World, Track}
use harmonia_server.Remote.Shuffle.{advance, reset_history}
use harmonia_server.Remote.Shuffle.Rounds.{InRange}
use harmonia_server.Remote.Shuffle.Wellformed.{IsWf, advance-IsWf, reset_history-IsWf}
use harmonia_server.Remote.Prefetch.{plan_next}
use harmonia_server.Remote.Events.{Event, step, step-IsWf}
use harmonia_server.Remote.Gapless.{
  QueuedTrack, Reader, PreparedTrack, converting, prepared, begin_job, prepare_track, queued,
  convert, finish_job, stream_queue, same_queue, may_join, take_over, join_next, read_end,
  count_heard, show_heard, keep_last, progress, is_complete,
}

-- One thing that happens while a continuous session streams: what happens to any queue, the end of the
-- current track's PCM, the end of a conversion, or a report of what is heard.
pub data StreamEvent : Type 0 where
  other : Event → StreamEvent
  pcm_ended : World → ℕ → (ℕ → Bool) → StreamEvent
  converted : World → (Track → Option ℕ) → StreamEvent
  heard : (QueuedTrack → Bool) → ℕ → StreamEvent

-- `draw` picks one of the random draws.
unfoldable pub stream_step : StreamEvent → Reader × Remote → Reader × Remote
stream_step (other e) (q, r) = (q, step e r)
stream_step (pcm_ended w draw sent) (q, r) =
    ((read_end (w.int_n draw) (w.new_id draw) sent q r).0, r)
stream_step (converted w open_pcm) (q, r) = (record q { next = finish_job w open_pcm q.next }, r)
stream_step (heard recorded position) (q, r) =
    let a = progress recorded q.generation position q.pending r in (record q { pending = a.0 }, a.1)

unfoldable pub stream_run : List StreamEvent → Reader × Remote → Reader × Remote
stream_run [] a = a
stream_run (e ∷ es) a = stream_run es (stream_step e a)

abbrev pub AllWf : List QueuedTrack → Type 0
AllWf = All (λ (t : QueuedTrack). IsWf t.saved)

abbrev NextIsWf : PreparedTrack → Type 0
NextIsWf (converting s) = IsWf s
NextIsWf (prepared none) = Unit {0}
NextIsWf (prepared (some t)) = IsWf t.saved

abbrev pub ReaderIsWf : Reader → Type 0
ReaderIsWf q = IsWf q.current.saved × AllWf q.pending × NextIsWf q.next

plan_next-IsWf :
    (pick : ℕ → ℕ) (id : String) (s t : RemoteSaved)
    → InRange pick
    → IsWf s
    → plan_next pick id s ≡ some t
    → IsWf t
unfolding plan_next
plan_next-IsWf pick id s t ok v h =
    let e : t ≡ reset_history id (pos 0) (record ((advance pick false s).0) { position = pos 0 }) =
      ground arith in
    rw e (
      reset_history-IsWf id (pos 0) (record ((advance pick false s).0) { position = pos 0 })
        (advance-IsWf pick false s ok v))

begin_job-NextIsWf :
    (plan : Option RemoteSaved)
    → ((t : RemoteSaved) → plan ≡ some t → IsWf t)
    → NextIsWf (begin_job plan)
unfolding begin_job
begin_job-NextIsWf none h = tt
begin_job-NextIsWf (some t) h = h t refl

prepare_track-NextIsWf :
    (pick : ℕ → ℕ) (id : String) (s : RemoteSaved)
    → InRange pick
    → IsWf s
    → NextIsWf (prepare_track pick id s)
unfolding prepare_track
prepare_track-NextIsWf pick id s ok v =
    begin_job-NextIsWf (plan_next pick id s) (λ t h. plan_next-IsWf pick id s t ok v h)

AllWf-snoc :
    (ts : List QueuedTrack) (t : QueuedTrack) → AllWf ts → IsWf t.saved → AllWf (ts ++ (t ∷ []))
AllWf-snoc [] t h v = (v, tt)
AllWf-snoc (u ∷ us) t (a, h) v = (a, AllWf-snoc us t h v)

convert-saved :
    (w : World) (open_pcm : Track → Option ℕ) (s : RemoteSaved) (t : QueuedTrack)
    → convert w open_pcm s ≡ some t
    → t.saved ≡ s
unfolding convert queued
convert-saved w open_pcm s t h = ground arith

finish_job-NextIsWf :
    (w : World) (open_pcm : Track → Option ℕ) (j : PreparedTrack)
    → NextIsWf j
    → NextIsWf (finish_job w open_pcm j)
unfolding finish_job
finish_job-NextIsWf w open_pcm (prepared t) v = v
finish_job-NextIsWf w open_pcm (converting s) v = elim (Option-cases (convert w open_pcm s)) [
  | inl e ↦ rw e tt
  | inr (t, e) ↦ rw e (rw (convert-saved w open_pcm s t e) v)
]

join_next-ReaderIsWf :
    (pick : ℕ → ℕ) (id : String) (sent : ℕ → Bool) (t : QueuedTrack) (q : Reader) (r : Remote)
    → InRange pick
    → IsWf t.saved
    → ReaderIsWf q
    → ReaderIsWf (join_next pick id sent t q r).0
unfolding join_next take_over
join_next-ReaderIsWf pick id sent t q r ok v (c, p, n) =
    elim (Bool-cases (leb 128 (length q.pending) || not (may_join q r))) [
      | inl ends ↦ rw ends (c, p, n)
      | inr joins ↦ elim (Bool-cases (sent (q.current.start + q.current.frames))) [
        | inr failed ↦ rw (joins, failed) (c, p, v)
        | inl taken ↦
            rw (joins, taken)
              (
                v,
                AllWf-snoc q.pending (record t { start = q.current.start + q.current.frames }) p v,
                prepare_track-NextIsWf pick id t.saved ok v,
              )
      ]
    ]

read_end_after :
    (pick : ℕ → ℕ) (id : String) (sent : ℕ → Bool) (q : Reader) (r : Remote) (job : PreparedTrack)
    → q.next ≡ job
    → InRange pick
    → ReaderIsWf q
    → NextIsWf job
    → ReaderIsWf (read_end pick id sent q r).0
unfolding read_end
read_end_after pick id sent q r (converting s) e ok h v = rw (e, read_end) h
read_end_after pick id sent q r (prepared none) e ok h v = rw (e, read_end) h
read_end_after pick id sent q r (prepared (some t)) e ok (c, p, n) v =
    rw (e, read_end)
      (join_next-ReaderIsWf pick id sent t
        (record q { eof = true; current = record (q.current) { held = false } }) r ok v (c, p, n))

same_queue-queue :
    (generation : ℕ) (s : RemoteSaved) (r : Remote)
    → same_queue generation s r ≡ true
    → r.saved.queue ≡ s.queue
unfolding same_queue
same_queue-queue generation s r h = ground (arith, strs_eq→eq r.saved.queue s.queue)

show_heard-IsWf :
    (generation position : ℕ) (t : QueuedTrack) (r : Remote)
    → IsWf t.saved
    → IsWf r.saved
    → IsWf (show_heard generation position t r).saved
unfolding show_heard
show_heard-IsWf generation position t r v h = elim (Bool-cases (same_queue generation t.saved r)) [
  | inr changed ↦ rw changed h
  | inl same ↦
      let q : r.saved.queue ≡ t.saved.queue = same_queue-queue generation t.saved r same in
      rw same (record {
        in_range = rw q (v.in_range);
        loud = h.loud;
        small = h.small;
        marked_once = ground (arith, v.marked_once, h.marked_once);
      })
]

count_heard-saved :
    (recorded : QueuedTrack → Bool) (position : ℕ) (t : QueuedTrack)
    → (count_heard recorded position t).saved ≡ t.saved
unfolding count_heard
count_heard-saved recorded position t = ground arith

keep_last-AllWf :
    (c : QueuedTrack) (rest : List QueuedTrack)
    → IsWf c.saved
    → AllWf rest
    → AllWf (keep_last c rest)
unfolding keep_last
keep_last-AllWf c [] v h = (v, tt)
keep_last-AllWf c (u ∷ us) v h = h

progress-AllWf :
    (recorded : QueuedTrack → Bool) (generation position : ℕ) (ts : List QueuedTrack) (r : Remote)
    → AllWf ts
    → IsWf r.saved
    → AllWf (progress recorded generation position ts r).0
      × IsWf (progress recorded generation position ts r).1.saved
unfolding progress
progress-AllWf recorded generation position [] r v h = (tt, h)
progress-AllWf recorded generation position (t ∷ ts) r (v, vs) h =
    let c : QueuedTrack = count_heard recorded position t in
    let cv : IsWf c.saved = rw (count_heard-saved recorded position t) v in
    let s : Remote = show_heard generation position c r in
    let sv : IsWf s.saved = show_heard-IsWf generation position c r cv h in
    let (pending, shown) = progress-AllWf recorded generation position ts s vs sv in
    elim (Bool-cases (is_complete t position)) [
      | inl over ↦
          rw over
            (keep_last-AllWf c (progress recorded generation position ts s).0 cv pending, shown)
      | inr on ↦ rw on ((cv, vs), sv)
    ]

stream_step-IsWf :
    (e : StreamEvent) (q : Reader) (r : Remote)
    → ReaderIsWf q
    → IsWf r.saved
    → ReaderIsWf (stream_step e (q, r)).0 × IsWf (stream_step e (q, r)).1.saved
unfolding stream_step
stream_step-IsWf (other e) q r v h = (v, step-IsWf e r h)
stream_step-IsWf (pcm_ended w draw sent) q r v h =
    (read_end_after (w.int_n draw) (w.new_id draw) sent q r q.next refl (w.int_n-lt draw) v v.2, h)
stream_step-IsWf (converted w open_pcm) q r (c, p, n) h =
    ((c, p, finish_job-NextIsWf w open_pcm q.next n), h)
stream_step-IsWf (heard recorded position) q r (c, p, n) h =
    let (pending, shown) = progress-AllWf recorded q.generation position q.pending r p h in
    ((c, pending, n), shown)

stream_run-keep :
    (es : List StreamEvent) (q : Reader) (r : Remote)
    → ReaderIsWf q
    → IsWf r.saved
    → IsWf (stream_run es (q, r)).1.saved
unfolding stream_run
stream_run-keep [] q r v h = h
stream_run-keep (e ∷ es) q r v h =
    let (a, b) = stream_step-IsWf e q r v h in
    stream_run-keep es (stream_step e (q, r)).0 (stream_step e (q, r)).1 a b

-- While a session streams the queue without gaps, requests, other events, the ends of tracks,
-- conversions and reports may come in any order: a queue that was well formed when the stream began, on a
-- copy of its saved state, stays well formed.
pub stream_run-IsWf :
    (es : List StreamEvent) (pick : ℕ → ℕ) (id : String) (frames : ℕ) (skip_artwork : Bool)
    (r : Remote)
    → InRange pick
    → IsWf r.saved
    → IsWf
        (stream_run es (stream_queue pick id frames skip_artwork r.saved r.generation, r)).1.saved
unfolding stream_queue queued
stream_run-IsWf es pick id frames skip_artwork r ok v =
    stream_run-keep es (stream_queue pick id frames skip_artwork r.saved r.generation) r
      (v, (v, tt), prepare_track-NextIsWf pick id r.saved ok v) v
