-- ===== src/Remote/Shuffle/Once.antt =====
-- A whole shuffle round: repeated calls of `advanceShuffleLocked`, each with its own random draw.
use harmonia_server.Prelude.{
  ℕ, ◌<◌, ◌≤◌, ◌≡◌, sym, ap, ◌∙◌, inl, inr, some, true, false, List, [], ◌∷◌, ◌++◌, String, arith,
  if◌then◌else◌, Bool-cases, ◌==◌, length, get_elem?, get_or, get_or-get_elem?, get_elem?-lt, ◌≢◌,
  All, contains, contains-snoc, contains-get_elem?, eq_refl, str_eq, Distinct, Distinct-snoc,
  outside, outside-zero, outside-lt, outside_some, append-nil, append_assoc,
}
use harmonia_server.Remote.State.{RemoteSaved}
use harmonia_server.Remote.Shuffle.{advance_shuffle}
use harmonia_server.Remote.Shuffle.Rounds.{
  InRange, AllPlayed, Moved, advance_shuffle_frame, advance_shuffle_unplayed, advance_shuffle_stops,
}
use harmonia_server.Remote.Shuffle.Restarts.{advance_shuffle_repeats}

-- Turns until the queue stops or the draws are used up: the last state and the tracks that came up.
pub play_round : List (ℕ → ℕ) → RemoteSaved → RemoteSaved × List String
play_round [] s = (s, [])
play_round (pick ∷ picks) s =
    let a = advance_shuffle pick s in
    let rest = play_round picks a.0 in
    if a.1 then (rest.0, get_or a.0.queue a.0.index "" ∷ rest.1) else (s, [])

advance_shuffle-queue :
    (pick : ℕ → ℕ) (s : RemoteSaved)
    → ((advance_shuffle pick s).0.queue ≡ s.queue) × ((advance_shuffle pick s).0.repeat ≡ s.repeat)
advance_shuffle-queue pick s = (
  ap (λ (t : RemoteSaved). t.queue) (advance_shuffle_frame pick s),
  ap (λ (t : RemoteSaved). t.repeat) (advance_shuffle_frame pick s),
)

abbrev pub Once : RemoteSaved → RemoteSaved × List String → Type 0
Once s r = Distinct r.0.shuffle_visited × (r.0.shuffle_visited ≡ s.shuffle_visited ++ r.1)

played-AllPlayed : (s : RemoteSaved) → outside s.shuffle_visited s.queue ≡ 0 → AllPlayed s
played-AllPlayed s h a m = outside-zero s.shuffle_visited s.queue a h m

play_round_stops :
    (pick : ℕ → ℕ) (picks : List (ℕ → ℕ)) (s : RemoteSaved)
    → outside s.shuffle_visited s.queue ≡ 0
    → str_eq s.repeat "all" ≡ false
    → play_round (pick ∷ picks) s ≡ (s, [])
unfolding play_round
play_round_stops pick picks s h r = rw (advance_shuffle_stops pick s (played-AllPlayed s h) r)

turn :
    (pick : ℕ → ℕ) (s : RemoteSaved)
    → InRange pick
    → 0 < outside s.shuffle_visited s.queue
    → (id : String) × Moved s (advance_shuffle pick s) id
turn pick s ok h =
    let (a, m, v) = outside_some s.shuffle_visited s.queue h in
    advance_shuffle_unplayed pick s a ok m v

play_round_turns :
    (pick : ℕ → ℕ) (picks : List (ℕ → ℕ)) (s : RemoteSaved) (id : String)
    → Moved s (advance_shuffle pick s) id
    → play_round (pick ∷ picks) s ≡ (
      (play_round picks (advance_shuffle pick s).0).0,
      id ∷ (play_round picks (advance_shuffle pick s).0).1,
    )
unfolding play_round
play_round_turns pick picks s id moved =
    let up : get_or (advance_shuffle pick s).0.queue (advance_shuffle pick s).0.index "" ≡ id =
      get_or-get_elem? (advance_shuffle pick s).0.queue (advance_shuffle pick s).0.index ""
        (rw ((advance_shuffle-queue pick s).0) (moved.1)) in
    rw (moved.0, up)

-- Another turn leaves fewer tracks unplayed.
turn_outside :
    (s t : RemoteSaved) (id : String)
    → t.queue ≡ s.queue
    → get_elem? s.queue t.index ≡ some id
    → contains s.shuffle_visited id ≡ false
    → t.shuffle_visited ≡ s.shuffle_visited ++ (id ∷ [])
    → outside t.shuffle_visited t.queue < outside s.shuffle_visited s.queue
turn_outside s t id q at new marks =
    rw (q, marks)
      (outside-lt s.shuffle_visited (s.shuffle_visited ++ (id ∷ [])) s.queue id
        (λ b seen. rw (contains-snoc s.shuffle_visited id b, seen))
        (ground (arith, contains-snoc s.shuffle_visited id id, eq_refl id)) new
        (contains-get_elem? s.queue t.index id at))

-- Unless the queue repeats as a whole, each turn of a round brings up a track that was not played before:
-- the record of played tracks becomes the old one followed by the tracks that came up, and if it named
-- none twice, it still does not.
pub play_round-Once :
    (picks : List (ℕ → ℕ)) (s : RemoteSaved)
    → All InRange picks
    → str_eq s.repeat "all" ≡ false
    → Distinct s.shuffle_visited
    → Once s (play_round picks s)
unfolding play_round
play_round-Once [] s ok r d = (d, sym (append-nil s.shuffle_visited))
play_round-Once (pick ∷ picks) s ok r d =
    elim (Bool-cases (outside s.shuffle_visited s.queue == 0)) [
      | inl done ↦
          rw (play_round_stops pick picks s (ground arith) r)
            (d, sym (append-nil s.shuffle_visited))
      | inr more ↦
          let (id, moved) = turn pick s ok.0 (ground arith) in
          let a : RemoteSaved = (advance_shuffle pick s).0 in
          let (once, follows) =
            play_round-Once picks a ok.1 (rw ((advance_shuffle-queue pick s).1) r)
              (rw (moved.3) (Distinct-snoc s.shuffle_visited id d (moved.2))) in
          rw (play_round_turns pick picks s id moved) (
            once,
            follows
                ∙ rw (moved.3) (append_assoc s.shuffle_visited (id ∷ []) (play_round picks a).1),
          )
    ]

-- Unless the queue repeats as a whole, as many turns as the queue has places of unplayed tracks mark every track of the
-- queue as played.
pub play_round_complete :
    (picks : List (ℕ → ℕ)) (s : RemoteSaved) (a : String)
    → All InRange picks
    → str_eq s.repeat "all" ≡ false
    → outside s.shuffle_visited s.queue ≤ length picks
    → contains s.queue a ≡ true
    → contains (play_round picks s).0.shuffle_visited a ≡ true
unfolding play_round
play_round_complete [] s a ok r h m = outside-zero s.shuffle_visited s.queue a (omega arith) m
play_round_complete (pick ∷ picks) s a ok r h m =
    elim (Bool-cases (outside s.shuffle_visited s.queue == 0)) [
      | inl done ↦
          rw (play_round_stops pick picks s (ground arith) r)
            (outside-zero s.shuffle_visited s.queue a (ground arith) m)
      | inr more ↦
          let (id, moved) = turn pick s ok.0 (ground arith) in
          let t : RemoteSaved = (advance_shuffle pick s).0 in
          let fewer : outside t.shuffle_visited t.queue < outside s.shuffle_visited s.queue =
            turn_outside s t id ((advance_shuffle-queue pick s).0) (moved.1) (moved.2) (moved.3) in
          rw (play_round_turns pick picks s id moved) (
            play_round_complete picks t a ok.1 (rw ((advance_shuffle-queue pick s).1) r)
              (omega arith) (rw ((advance_shuffle-queue pick s).0) m))
    ]

-- When every track was played and the queue repeats, a new round begins with a track of the queue,
-- which alone is marked; it is not the track that was up if the queue has another one.
advance_shuffle_other :
    (pick : ℕ → ℕ) (s : RemoteSaved) (b cur : String)
    → InRange pick
    → AllPlayed s
    → str_eq s.repeat "all" ≡ true
    → get_elem? s.queue s.index ≡ some cur
    → contains s.queue b ≡ true
    → b ≢ cur
    → (id : String) × ((advance_shuffle pick s).1 ≡ true)
      × (get_elem? s.queue (advance_shuffle pick s).0.index ≡ some id)
      × ((advance_shuffle pick s).0.shuffle_visited ≡ id ∷ [])
      × (id ≢ cur)
advance_shuffle_other pick s b cur ok all r at m ne =
    let (id, moved, restarted) =
      advance_shuffle_repeats pick s ok (get_elem?-lt s.queue s.index at) all r in
    (id, moved, restarted.0, restarted.1, restarted.2 b cur at m ne)
