-- ===== src/Remote/Gapless/Heard.antt =====
-- Where on the timeline of the joined tracks the sound is, and that the queue shows it.
use harmonia_server.Prelude.{
  pos, ◌-◌, ◌*◌, ◌%◌, ◌^◌, min, ltb, wrap_64, quotient, min_ℤ, max_ℤ, ◌+ℤ◌, ◌-ℤ◌, ℕ, ◌+◌, ◌/◌, ◌<◌,
  ◌≤◌, ◌≡◌, refl, ◌⊎◌, inl, inr, Bool, true, List, [], ◌∷◌, arith, leb, All, Bool-cases, ◌∙◌,
}
use harmonia_server.Remote.State.{RemoteSaved, Remote, play}
use harmonia_server.Remote.Gapless.{
  QueuedTrack, frames_time, track_end, is_complete, elapsed, count_heard, same_queue, show_heard,
  keep_last, progress,
}
use harmonia_server.Remote.Gapless.Timeline.{Timeline, Timeline-le}

-- The nanoseconds of a number of frames.
abbrev pub time_of : ℕ → ℕ
time_of n = n * 1000000000 / 44100

-- So few frames that the code's product stays below 2 ^ 63: 58 hours of audio.
abbrev pub IsShort : ℕ → Type 0
IsShort n = n * 1000000000 < 9223372036854775808

frames_time-time_of : (n : ℕ) → IsShort n → frames_time n ≡ pos (time_of n)
unfolding frames_time wrap_64 quotient
frames_time-time_of n h =
    let low : n * 1000000000 % 2 ^ 64 ≡ n * 1000000000 = omega arith in
    let small : ltb (n * 1000000000) (2 ^ 63) ≡ true = ground arith in rw (low, small) refl

track_end-time_of :
    (t : QueuedTrack)
    → IsShort (t.start + t.frames)
    → track_end t ≡ pos (time_of (t.start + t.frames))
track_end-time_of t h = frames_time-time_of (t.start + t.frames) h

is_complete-time_of :
    (t : QueuedTrack) (position : ℕ)
    → IsShort (t.start + t.frames)
    → is_complete t position ≡ leb (time_of (t.start + t.frames)) position
is_complete-time_of t position h = rw (track_end-time_of t h) (ground arith)

-- The nanoseconds of a track that have been heard at a position of its stream.
abbrev pub heard_of : QueuedTrack → ℕ → ℕ
heard_of t position =
    min (position - time_of t.start) (time_of (t.start + t.frames) - time_of t.start)

clamped :
    (p a b : ℕ)
    → a ≤ b
    → min_ℤ (max_ℤ (pos p -ℤ pos a) (pos 0)) (pos b -ℤ pos a) ≡ pos (min (p - a) (b - a))
unfolding ◌-ℤ◌
clamped p a b h = ground arith

elapsed-heard_of :
    (t : QueuedTrack) (position : ℕ)
    → IsShort (t.start + t.frames)
    → elapsed t position ≡ pos (heard_of t position)
unfolding elapsed ◌-ℤ◌
elapsed-heard_of t position h =
    rw (frames_time-time_of t.start (omega arith), track_end-time_of t h)
      (clamped position (time_of t.start) (time_of (t.start + t.frames)) (omega arith))

-- The track that is heard at a position, and the state that shows it.
abbrev pub Heard : ℕ → List QueuedTrack → Type 0
Heard position [] = Unit {0}
Heard position (t ∷ ts) =
    (time_of t.start ≤ position) × ((position < time_of (t.start + t.frames)) ⊎ (ts ≡ []))

count_heard_frame :
    (recorded : QueuedTrack → Bool) (position : ℕ) (t : QueuedTrack)
    → count_heard recorded position t
      ≡ record t { counted = (count_heard recorded position t).counted }
unfolding count_heard
count_heard_frame recorded position t = ground arith

count_heard_last :
    (recorded : QueuedTrack → Bool) (position : ℕ) (t : QueuedTrack)
    → ((count_heard recorded position t).start ≡ t.start)
      × ((count_heard recorded position t).frames ≡ t.frames)
unfolding count_heard
count_heard_last recorded position t = ground arith

keep_last-Heard :
    (c : QueuedTrack) (position : ℕ) (ts rest : List QueuedTrack)
    → time_of c.start ≤ position
    → (ts ≡ [] → rest ≡ [])
    → Heard position rest
    → Heard position (keep_last c rest)
unfolding keep_last
keep_last-Heard c position ts [] b e h = (b, inr refl)
keep_last-Heard c position ts (u ∷ us) b e h = h

-- While the timeline is less than 58 hours long: a report at a position that the first pending track has reached
-- leaves at the front the track that is heard there. It began by then, and ends later unless no other is left.
pub progress-Heard :
    (recorded : QueuedTrack → Bool) (generation position start next : ℕ) (ts : List QueuedTrack)
    (r : Remote)
    → IsShort next
    → Timeline start ts next
    → time_of start ≤ position
    → Heard position (progress recorded generation position ts r).0
unfolding progress
progress-Heard recorded generation position start next [] r few h b = tt
progress-Heard recorded generation position start next (t ∷ ts) r few (e, h) b =
    let c : QueuedTrack = count_heard recorded position t in
    let s : Remote = show_heard generation position c r in
    let within : t.start + t.frames ≤ next = Timeline-le (t.start + t.frames) next ts h in
    let ends : is_complete t position ≡ leb (time_of (t.start + t.frames)) position =
      is_complete-time_of t position (omega arith) in
    elim (Bool-cases (leb (time_of (t.start + t.frames)) position)) [
      | inl over ↦
          rw (ends, over)
            (keep_last-Heard c position ts (progress recorded generation position ts s).0
              (ground (arith, count_heard_last recorded position t)) (λ none. rw none)
              (progress-Heard recorded generation position (t.start + t.frames) next ts s few h
                (ground arith)))
      | inr on ↦
          rw (ends, on)
            (
              ground (arith, count_heard_last recorded position t),
              inl (ground (arith, count_heard_last recorded position t)),
            )
    ]

pub show_heard_same :
    (generation position : ℕ) (s : RemoteSaved) (t : QueuedTrack) (r : Remote)
    → same_queue generation s (show_heard generation position t r) ≡ same_queue generation s r
unfolding same_queue show_heard
show_heard_same generation position s t r = ground arith

abbrev pub Planned : ℕ → Remote → List QueuedTrack → Type 0
Planned generation r = All (λ (u : QueuedTrack). same_queue generation u.saved r ≡ true)

still-Planned :
    (generation position : ℕ) (t : QueuedTrack) (ts : List QueuedTrack) (r : Remote)
    → Planned generation r ts
    → Planned generation (show_heard generation position t r) ts
still-Planned generation position t [] r h = tt
still-Planned generation position t (u ∷ us) r (h, more) = (
  show_heard_same generation position u.saved t r ∙ h,
  still-Planned generation position t us r more,
)

-- The queue shows the first of the pending tracks, at what has been heard of it.
abbrev pub Shows : ℕ → List QueuedTrack × Remote → Type 0
Shows position (ts, r) =
    (t : QueuedTrack) × (rest : List QueuedTrack) × (ts ≡ t ∷ rest)
    × (r.state ≡ play)
    × (r.saved.index ≡ t.saved.index)
    × (r.saved.position ≡ t.saved.position +ℤ pos (heard_of t position / 1000000))
    × (r.saved.playback_session ≡ t.saved.playback_session)

show_heard-Shows :
    (generation position : ℕ) (t c : QueuedTrack) (rest : List QueuedTrack) (r : Remote)
    → same_queue generation t.saved r ≡ true
    → IsShort (t.start + t.frames)
    → c.saved ≡ t.saved
    → c.start ≡ t.start
    → c.frames ≡ t.frames
    → Shows position (c ∷ rest, show_heard generation position t r)
unfolding show_heard quotient
show_heard-Shows generation position t c rest r h few a b e = (
  c,
  rest,
  refl,
  ground arith,
  ground arith,
  rw (h, elapsed-heard_of t position few, a, b, e) refl,
  ground arith,
)

keep_last_more :
    (c v : QueuedTrack) (rest vs : List QueuedTrack) → rest ≡ v ∷ vs → keep_last c rest ≡ v ∷ vs
unfolding keep_last
keep_last_more c v [] vs e = cc
keep_last_more c v (u ∷ us) vs e = e

count_heard-saved :
    (recorded : QueuedTrack → Bool) (position : ℕ) (t : QueuedTrack)
    → (count_heard recorded position t).saved ≡ t.saved
unfolding count_heard
count_heard-saved recorded position t = ground arith

-- While the timeline is less than 58 hours long, and when each pending track was planned on the queue as it is: a report
-- leaves the queue playing, and its index, its position in milliseconds and its playback session are those of the first
-- track that stays, at what has been heard of it.
pub progress-Shows :
    (recorded : QueuedTrack → Bool) (generation position start next : ℕ) (t : QueuedTrack)
    (ts : List QueuedTrack) (r : Remote)
    → IsShort next
    → Timeline start (t ∷ ts) next
    → Planned generation r (t ∷ ts)
    → Shows position (progress recorded generation position (t ∷ ts) r)
unfolding progress keep_last
progress-Shows recorded generation position start next t [] r few (e, line) (h, more) =
    let c : QueuedTrack = count_heard recorded position t in
    let same : same_queue generation c.saved r ≡ true =
      rw (count_heard-saved recorded position t) h in
    let short : IsShort (c.start + c.frames) =
      ground (arith, count_heard_last recorded position t) in
    elim (Bool-cases (is_complete t position)) [
      | inl over ↦ rw over (
          show_heard-Shows generation position c (record c { completed = true }) [] r same short
            refl refl refl)
      | inr on ↦ rw on (show_heard-Shows generation position c c [] r same short refl refl refl)
    ]
progress-Shows recorded generation position start next t (u ∷ us) r few (e, line) (h, more) =
    let c : QueuedTrack = count_heard recorded position t in
    let s : Remote = show_heard generation position c r in
    let same : same_queue generation c.saved r ≡ true =
      rw (count_heard-saved recorded position t) h in
    let within : t.start + t.frames ≤ next = Timeline-le (t.start + t.frames) next (u ∷ us) line in
    let short : IsShort (c.start + c.frames) =
      ground (arith, count_heard_last recorded position t) in
    elim (Bool-cases (is_complete t position)) [
      | inr on ↦
          rw on (show_heard-Shows generation position c c (u ∷ us) r same short refl refl refl)
      | inl over ↦
          let (v, vs, e, plays, at, heard, session) =
            progress-Shows recorded generation position (t.start + t.frames) next u us s few line
              (still-Planned generation position c (u ∷ us) r more) in
          rw over (
            v,
            vs,
            keep_last_more c v (progress recorded generation position (u ∷ us) s).0 vs e,
            plays,
            at,
            heard,
            session,
          )
    ]
