-- ===== src/Remote/Shuffle/Wellformed.antt =====
-- The queue's invariant, and that the functions of remote_shuffle.go and `advanceLocked` keep it.
use harmonia_server.Prelude.{ℤ, get_or-get_elem?}
use harmonia_server.Prelude.{
  ℕ, ◌+◌, ◌<◌, ◌≤◌, ◌≡◌, refl, inl, inr, Bool, List, [], ◌∷◌, some, String, arith, max, length,
  get_elem?, get_or, get_elem?-lt, get_elem?-some, str_eq, contains, Distinct, Distinct-snoc,
  Bool-cases, Option-cases,
}
use harmonia_server.Remote.State.{RemoteSaved}
use harmonia_server.Remote.Shuffle.{
  mark_shuffle, reset_shuffle, candidates, shuffle_to, or_index, next_round, advance_from,
  advance_shuffle, advance_in_order, advance, reset_history,
}
use harmonia_server.Remote.Shuffle.Rounds.{InRange, Place, candidates-Place, mark_shuffle_frame}

abbrev pub queue_limit : ℕ
queue_limit = 10000

-- The index names a track, or is 0 in an empty queue; no track is marked twice.
pub record AreWf (queue : List String) (index volume : ℕ) (visited : List String) : Type 0 where
  pub in_range : index < max (length queue) 1
  pub loud : volume ≤ 100
  pub small : length queue ≤ queue_limit
  pub marked_once : Distinct visited

abbrev pub IsWf : RemoteSaved → Type 0
IsWf s = AreWf s.queue s.index s.volume s.shuffle_visited

pub mark_shuffle-Distinct :
    (s : RemoteSaved) → Distinct s.shuffle_visited → Distinct (mark_shuffle s).shuffle_visited
unfolding mark_shuffle
mark_shuffle-Distinct s d = elim (Option-cases (get_elem? s.queue s.index)) [
  | inl e ↦ rw (e, mark_shuffle, Distinct) d
  | inr (id, e) ↦ elim (Bool-cases (contains s.shuffle_visited id)) [
    | inl m ↦ rw (e, mark_shuffle, Distinct, m) d
    | inr m ↦ rw (e, mark_shuffle, Distinct, m) (Distinct-snoc s.shuffle_visited id d m)
  ]
]

pub mark_shuffle-IsWf : (s : RemoteSaved) → IsWf s → IsWf (mark_shuffle s)
mark_shuffle-IsWf s w = rw (mark_shuffle_frame s) (record {
  in_range = w.in_range;
  loud = w.loud;
  small = w.small;
  marked_once = mark_shuffle-Distinct s w.marked_once;
})

pub reset_shuffle-IsWf : (s : RemoteSaved) → IsWf s → IsWf (reset_shuffle s)
unfolding reset_shuffle
reset_shuffle-IsWf s w =
    mark_shuffle-IsWf _
      (record { in_range = w.in_range; loud = w.loud; small = w.small; marked_once = tt })

-- The candidate that is picked is a place of the queue.
picked-InRange :
    (pick : ℕ → ℕ) (c d : ℕ) (cs : List ℕ) (q : List String) (skip : String → Bool)
    → InRange pick
    → ((k j : ℕ) → get_elem? (c ∷ cs) k ≡ some j → Place skip q 0 j)
    → get_or (c ∷ cs) (pick (length (c ∷ cs))) d < length q
picked-InRange pick c d cs q skip ok places =
    let k : ℕ = pick (length (c ∷ cs)) in
    let (j, e) = get_elem?-some (c ∷ cs) k (ok (length (c ∷ cs)) (omega arith)) in
    let (n, id, a, b, h) = places k j e in
    omega (arith, get_or-get_elem? (c ∷ cs) k d e, get_elem?-lt q n b)

shuffle_to-IsWf :
    (pick : ℕ → ℕ) (c : ℕ) (cs : List ℕ) (s : RemoteSaved) (skip : String → Bool)
    → InRange pick
    → ((k j : ℕ) → get_elem? (c ∷ cs) k ≡ some j → Place skip s.queue 0 j)
    → IsWf s
    → IsWf (shuffle_to pick (c ∷ cs) s)
unfolding shuffle_to
shuffle_to-IsWf pick c cs s skip ok places w = mark_shuffle-IsWf _ (record {
  in_range = omega (arith, picked-InRange pick c s.index cs s.queue skip ok places);
  loud = w.loud;
  small = w.small;
  marked_once = w.marked_once;
})

cleared-IsWf : (s : RemoteSaved) → IsWf s → IsWf (record s { shuffle_visited = [] })
cleared-IsWf s w = record {
  in_range = w.in_range;
  loud = w.loud;
  small = w.small;
  marked_once = tt;
}

-- One pick from one place is that place.
stay-IsWf :
    (pick : ℕ → ℕ) (s : RemoteSaved)
    → InRange pick
    → IsWf s
    → IsWf (shuffle_to pick (s.index ∷ []) s)
unfolding shuffle_to
stay-IsWf pick s ok w =
    let first : pick 1 ≡ 0 = omega (arith, ok 1 (omega arith)) in rw first (mark_shuffle-IsWf _ w)

next_round_from-IsWf :
    (pick : ℕ → ℕ) (s : RemoteSaved) (skip : String → Bool) (cs : List ℕ)
    → candidates skip s.queue 0 [] ≡ cs
    → InRange pick
    → IsWf s
    → IsWf (shuffle_to pick (or_index s.index cs) (record s { shuffle_visited = [] }))
unfolding or_index
next_round_from-IsWf pick s skip [] e ok w = stay-IsWf pick _ ok (cleared-IsWf s w)
next_round_from-IsWf pick s skip (c ∷ cs) e ok w =
    shuffle_to-IsWf pick c cs _ skip ok (λ k j g. candidates-Place skip s.queue 0 [] k j (rw e g))
      (cleared-IsWf s w)

advance_from-IsWf :
    (pick : ℕ → ℕ) (s : RemoteSaved) (cs : List ℕ)
    → candidates (contains s.shuffle_visited) s.queue 0 [] ≡ cs
    → InRange pick
    → IsWf s
    → IsWf (advance_from cs pick s).0
unfolding advance_from next_round
advance_from-IsWf pick s [] e ok w = elim (Bool-cases (str_eq s.repeat "all")) [
  | inl a ↦ rw (a, advance_from) (next_round_from-IsWf pick s _ _ refl ok w)
  | inr a ↦ rw (a, advance_from) w
]
advance_from-IsWf pick s (c ∷ cs) e ok w =
    shuffle_to-IsWf pick c cs s (contains s.shuffle_visited) ok
      (λ k j g. candidates-Place (contains s.shuffle_visited) s.queue 0 [] k j (rw e g)) w

pub advance_shuffle-IsWf :
    (pick : ℕ → ℕ) (s : RemoteSaved) → InRange pick → IsWf s → IsWf (advance_shuffle pick s).0
unfolding advance_shuffle
advance_shuffle-IsWf pick s = advance_from-IsWf pick s _ refl

pub advance_in_order-IsWf : (s : RemoteSaved) → IsWf s → IsWf (advance_in_order s).0
unfolding advance_in_order
advance_in_order-IsWf s w = ground (
  arith,
  w.marked_once,
  mark_shuffle-IsWf (record s { index = s.index + 1 }),
  reset_shuffle-IsWf (record s { index = 0 }),
)

pub advance-IsWf :
    (pick : ℕ → ℕ) (manual : Bool) (s : RemoteSaved)
    → InRange pick
    → IsWf s
    → IsWf (advance pick manual s).0
unfolding advance
advance-IsWf pick manual s ok w =
    ground (arith, w.marked_once, advance_shuffle-IsWf pick s ok w, advance_in_order-IsWf s w)

pub reset_history-IsWf :
    (id : String) (position : ℤ) (s : RemoteSaved) → IsWf s → IsWf (reset_history id position s)
unfolding reset_history
reset_history-IsWf id position s w = record {
  in_range = w.in_range;
  loud = w.loud;
  small = w.small;
  marked_once = w.marked_once;
}
