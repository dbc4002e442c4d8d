-- ===== src/Remote/Shuffle/Rounds.antt =====
-- What a shuffle round visits.
use harmonia_server.Prelude.{
  ℕ, zero, suc, ◌+◌, ◌<◌, ◌≡◌, refl, ◌≢◌, inl, inr, Bool, true, false, not, ◌&&◌, ◌||◌, List, [],
  ◌∷◌, ◌++◌, some, String, arith, if◌then◌else◌, length, get_elem?, get_or, get_or-get_elem?,
  get_elem?-some, str_eq, contains, eq_iff, eq_refl, Bool-cases,
}
use harmonia_server.Remote.State.{RemoteSaved}
use harmonia_server.Remote.Shuffle.{
  mark_shuffle, candidates, advance_shuffle, advance_from, shuffle_to,
}
use native.Mathlib.Nat.{zero-add}

abbrev pub Place : (String → Bool) → List String → ℕ → ℕ → Type 0
Place skip q i j =
    (n : ℕ) × (id : String) × (j ≡ i + n) × (get_elem? q n ≡ some id) × (skip id ≡ false)

Place-cons :
    (skip : String → Bool) (x : String) (q : List String) (i j : ℕ)
    → Place skip q (i + 1) j
    → Place skip (x ∷ q) i j
Place-cons skip x q i j (n, id, a, b, c) = (suc n, id, omega arith, b, c)

Place-head :
    (skip : String → Bool) (x : String) (q cs : List String) (i j k : ℕ) (rest : List ℕ)
    → skip x ≡ false
    → ((k' : ℕ) → get_elem? rest k' ≡ some j → Place skip (x ∷ q) i j)
    → get_elem? (i ∷ rest) k ≡ some j
    → Place skip (x ∷ q) i j
Place-head skip x q cs i j zero rest h later e = (0, x, ground arith, refl, h)
Place-head skip x q cs i j (suc k) rest h later e = later k e

-- Each candidate is the place of a track that is not skipped.
pub candidates-Place :
    (skip : String → Bool) (q : List String) (i : ℕ) (u : List String) (k j : ℕ)
    → get_elem? (candidates skip q i u) k ≡ some j
    → Place skip q i j
unfolding candidates
candidates-Place skip [] i u k j e = cc
candidates-Place skip (x ∷ q) i u k j e = elim (Bool-cases (not (skip x) && not (contains u x))) [
  | inl t ↦
      Place-head skip x q [] i j k _ (ground arith)
        (λ k' e'. Place-cons skip x q i j (candidates-Place skip q (i + 1) (x ∷ u) k' j e'))
        (rw t at e)
  | inr f ↦ Place-cons skip x q i j (candidates-Place skip q (i + 1) (x ∷ u) k j (rw f at e))
]

-- With no candidate left, every track is skipped or came before.
pub candidates_none :
    (skip : String → Bool) (q : List String) (i : ℕ) (u : List String) (a : String)
    → candidates skip q i u ≡ []
    → contains q a ≡ true
    → (skip a || contains u a) ≡ true
unfolding candidates contains
candidates_none skip [] i u a e m = cc
candidates_none skip (x ∷ q) i u a e m =
    ground (arith, eq_iff x a, candidates_none skip q (i + 1) (x ∷ u) a)

-- A candidate means that some track is neither skipped nor met before.
pub candidates_some :
    (skip : String → Bool) (q : List String) (i : ℕ) (u : List String)
    → candidates skip q i u ≢ []
    → (a : String) × (contains q a ≡ true) × (skip a ≡ false)
unfolding candidates contains
candidates_some skip [] i u h = absurd (h refl)
candidates_some skip (x ∷ q) i u h = elim (Bool-cases (skip x)) [
  | inl s ↦ next (candidates_some skip q (i + 1) (x ∷ u) (rw s at h))
  | inr s ↦ (x, ground (arith, eq_refl x), s)
]
  where
    next :
        ((a : String) × (contains q a ≡ true) × (skip a ≡ false))
        → (a : String) × ((str_eq x a || contains q a) ≡ true) × (skip a ≡ false)
    next (a, m, s) = (a, ground arith, s)

-- What `rand.IntN` promises.
abbrev pub InRange : (ℕ → ℕ) → Type 0
InRange pick = (n : ℕ) → 0 < n → pick n < n

pub mark_shuffle_frame :
    (s : RemoteSaved)
    → mark_shuffle s ≡ record s { shuffle_visited = (mark_shuffle s).shuffle_visited }
unfolding mark_shuffle
mark_shuffle_frame s = ground arith

abbrev pub Chosen : (String → Bool) → RemoteSaved → RemoteSaved → String → Type 0
Chosen skip s t id =
    (get_elem? s.queue t.index ≡ some id)
    × (skip id ≡ false)
    × (t.shuffle_visited ≡ (
        if contains s.shuffle_visited id
        then s.shuffle_visited
        else s.shuffle_visited ++ (id ∷ [])))

mark_shuffle_index :
    (s : RemoteSaved) (i : ℕ) (id : String) (skip : String → Bool)
    → get_elem? s.queue i ≡ some id
    → skip id ≡ false
    → Chosen skip s (mark_shuffle (record s { index = i })) id
unfolding mark_shuffle
mark_shuffle_index s i id skip e h = ground arith

-- A pick in range lands on one of the candidates.
pub shuffle_to-Chosen :
    (pick : ℕ → ℕ) (c : ℕ) (cs : List ℕ) (s : RemoteSaved) (skip : String → Bool)
    → InRange pick
    → ((k j : ℕ) → get_elem? (c ∷ cs) k ≡ some j → Place skip s.queue 0 j)
    → (id : String) × Chosen skip s (shuffle_to pick (c ∷ cs) s) id
unfolding shuffle_to
shuffle_to-Chosen pick c cs s skip ok places =
    let k : ℕ = pick (length (c ∷ cs)) in
    let (j, e) = get_elem?-some (c ∷ cs) k (ok (length (c ∷ cs)) (omega arith)) in
    let (n, id, a, b, h) = places k j e in
    (
      id,
      mark_shuffle_index s (get_or (c ∷ cs) k s.index) id skip
          (rw (get_or-get_elem? (c ∷ cs) k s.index e, a, zero-add) b) h,
    )

abbrev pub Moved : RemoteSaved → RemoteSaved × Bool → String → Type 0
Moved s r id =
    (r.1 ≡ true)
    × (get_elem? s.queue r.0.index ≡ some id)
    × (contains s.shuffle_visited id ≡ false)
    × (r.0.shuffle_visited ≡ s.shuffle_visited ++ (id ∷ []))

advance_from_unplayed :
    (pick : ℕ → ℕ) (s : RemoteSaved) (a : String) (cs : List ℕ)
    → candidates (contains s.shuffle_visited) s.queue 0 [] ≡ cs
    → InRange pick
    → contains s.queue a ≡ true
    → contains s.shuffle_visited a ≡ false
    → (id : String) × Moved s (advance_from cs pick s) id
unfolding advance_from contains
advance_from_unplayed pick s a [] e ok m v =
    absurd (ground (arith, candidates_none (contains s.shuffle_visited) s.queue 0 [] a))
advance_from_unplayed pick s a (c ∷ cs) e ok m v =
    let (id, chosen) =
      shuffle_to-Chosen pick c cs s (contains s.shuffle_visited) ok
        (λ k j h. candidates-Place (contains s.shuffle_visited) s.queue 0 [] k j (rw e h)) in
    (id, (refl, chosen.0, chosen.1, rw chosen.1 at (chosen.2)))

-- While a track of the queue is unplayed, the next one is unplayed too, and is marked.
pub advance_shuffle_unplayed :
    (pick : ℕ → ℕ) (s : RemoteSaved) (a : String)
    → InRange pick
    → contains s.queue a ≡ true
    → contains s.shuffle_visited a ≡ false
    → (id : String) × Moved s (advance_shuffle pick s) id
unfolding advance_shuffle
advance_shuffle_unplayed pick s a = advance_from_unplayed pick s a _ refl

-- Advancing changes the index and the record of played tracks, and nothing else.
pub advance_shuffle_frame :
    (pick : ℕ → ℕ) (s : RemoteSaved)
    → (advance_shuffle pick s).0 ≡ record s {
      index = (advance_shuffle pick s).0.index;
      shuffle_visited = (advance_shuffle pick s).0.shuffle_visited;
    }
unfolding advance_shuffle advance_from mark_shuffle
advance_shuffle_frame pick s = ground arith

abbrev pub AllPlayed : RemoteSaved → Type 0
AllPlayed s = (a : String) → contains s.queue a ≡ true → contains s.shuffle_visited a ≡ true

pub candidates_played :
    (s : RemoteSaved) (cs : List ℕ)
    → candidates (contains s.shuffle_visited) s.queue 0 [] ≡ cs
    → AllPlayed s
    → cs ≡ []
unfolding contains
candidates_played s [] e h = refl
candidates_played s (c ∷ cs) e h =
    let (a, m, v) = candidates_some (contains s.shuffle_visited) s.queue 0 [] (λ n. cc (e, n)) in
    absurd (ground (arith, h a m))

-- When every track was played, the queue stops unless it repeats as a whole.
pub advance_shuffle_stops :
    (pick : ℕ → ℕ) (s : RemoteSaved)
    → AllPlayed s
    → str_eq s.repeat "all" ≡ false
    → advance_shuffle pick s ≡ (s, false)
unfolding advance_shuffle advance_from
advance_shuffle_stops pick s h r = rw (candidates_played s _ refl h, advance_from, r)
