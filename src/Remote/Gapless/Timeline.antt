-- ===== src/Remote/Gapless/Timeline.antt =====
-- The tracks that a reader joins make one timeline.
use harmonia_server.Prelude.{
  ℕ, ◌+◌, ◌≤◌, ◌≡◌, refl, inl, inr, Bool, true, false, not, ◌||◌, List, [], ◌∷◌, ◌++◌, none, some,
  String, arith, leb, length, Bool-cases, length-append,
}
use harmonia_server.Remote.State.{Remote}
use harmonia_server.Remote.Gapless.{
  QueuedTrack, Reader, PreparedTrack, converting, prepared, take_over, join_next, read_end,
  may_join,
}

-- Each track begins at the frame behind the one before; `next` is the frame behind the last.
abbrev pub Timeline : ℕ → List QueuedTrack → ℕ → Type 0
Timeline start [] next = start ≡ next
Timeline start (t ∷ ts) next = (t.start ≡ start) × Timeline (t.start + t.frames) ts next

Timeline-snoc :
    (start next : ℕ) (ts : List QueuedTrack) (t : QueuedTrack)
    → Timeline start ts next
    → t.start ≡ next
    → Timeline start (ts ++ (t ∷ [])) (t.start + t.frames)
Timeline-snoc start next [] t h e = (ground arith, refl)
Timeline-snoc start next (u ∷ us) t h e =
    (h.0, Timeline-snoc (u.start + u.frames) next us t (h.1) e)

length-snoc : (ts : List QueuedTrack) (t : QueuedTrack) → length (ts ++ (t ∷ [])) ≡ length ts + 1
length-snoc ts t = omega (arith, length-append ts (t ∷ []))

-- The pending tracks are one timeline that ends where the current track does, and are not too many.
abbrev pub Joins : ℕ → Reader → Type 0
Joins start q =
    Timeline start q.pending (q.current.start + q.current.frames) × (length q.pending ≤ 128)

join_next-Joins :
    (pick : ℕ → ℕ) (id : String) (sent : ℕ → Bool) (t : QueuedTrack) (q : Reader) (r : Remote)
    (start : ℕ)
    → Joins start q
    → Joins start (join_next pick id sent t q r).0
unfolding join_next take_over
join_next-Joins pick id sent t q r start (h, b) =
    elim (Bool-cases (leb 128 (length q.pending) || not (may_join q r))) [
      | inl ends ↦ rw ends (h, b)
      | inr joins ↦ elim (Bool-cases (sent (q.current.start + q.current.frames))) [
        | inr failed ↦ rw (joins, failed) (h, b)
        | inl taken ↦
            let next : QueuedTrack = record t { start = q.current.start + q.current.frames } in
            rw (joins, taken)
              (
                Timeline-snoc start (q.current.start + q.current.frames) q.pending next h refl,
                ground (arith, length-snoc q.pending next),
              )
      ]
    ]

read_end_after :
    (pick : ℕ → ℕ) (id : String) (sent : ℕ → Bool) (q : Reader) (r : Remote) (start : ℕ)
    (job : PreparedTrack)
    → q.next ≡ job
    → Joins start q
    → Joins start (read_end pick id sent q r).0
unfolding read_end
read_end_after pick id sent q r start (converting s) e h = rw (e, read_end) h
read_end_after pick id sent q r start (prepared none) e h = rw (e, read_end) h
read_end_after pick id sent q r start (prepared (some t)) e h =
    rw (e, read_end)
      (join_next-Joins pick id sent t
        (record q { eof = true; current = record (q.current) { held = false } }) r start h)

-- Whatever comes of the end of a track's PCM, the pending tracks stay one timeline, each beginning at
-- the frame behind the one before, that ends where the current track does; and they stay at most 128.
pub read_end-Joins :
    (pick : ℕ → ℕ) (id : String) (sent : ℕ → Bool) (q : Reader) (r : Remote) (start : ℕ)
    → Joins start q
    → Joins start (read_end pick id sent q r).0
read_end-Joins pick id sent q r start h = read_end_after pick id sent q r start q.next refl h

pub Timeline-le : (start next : ℕ) (ts : List QueuedTrack) → Timeline start ts next → start ≤ next
Timeline-le start next [] h = omega arith
Timeline-le start next (t ∷ ts) h =
    let more : t.start + t.frames ≤ next = Timeline-le (t.start + t.frames) next ts h.1 in
    let here : t.start ≡ start = h.0 in omega arith
