-- ===== src/Remote/Shuffle.antt =====
-- remote_shuffle.go and `advanceLocked` of remote.go. `pick n` is what `rand.IntN(n)` returns.
pub mod Rounds
pub mod Restarts
pub mod Once
pub mod Wellformed
use harmonia_server.Prelude.{
  pos, ℤ, leb_ℤ, ℕ, ◌+◌, Bool, true, false, not, ◌&&◌, List, [], ◌∷◌, ◌++◌, none, some, String,
  if◌then◌else◌, ltb, length, get_elem?, get_or, str_eq, contains,
}
use harmonia_server.Remote.State.{RemoteSaved}

-- An index past a queue that is not empty panics in Go; here it marks nothing.
unfoldable pub mark_shuffle : RemoteSaved → RemoteSaved
mark_shuffle s = elim (get_elem? s.queue s.index) [
  | none ↦ s
  | some id ↦
      if contains s.shuffle_visited id
      then s
      else record s { shuffle_visited = s.shuffle_visited ++ (id ∷ []) }
]

unfoldable pub reset_shuffle : RemoteSaved → RemoteSaved
unfolding mark_shuffle
reset_shuffle s = mark_shuffle (record s { shuffle_visited = [] })

-- The loops over the queue: the first place of each track that `skip` does not rule out.
unfoldable pub candidates : (String → Bool) → List String → ℕ → List String → List ℕ
candidates skip [] i unique = []
candidates skip (id ∷ q) i unique =
    let rest = candidates skip q (i + 1) (id ∷ unique) in
    if not (skip id) && not (contains unique id) then i ∷ rest else rest

unfoldable pub shuffle_to : (ℕ → ℕ) → List ℕ → RemoteSaved → RemoteSaved
unfolding mark_shuffle
shuffle_to pick cs s = mark_shuffle (record s { index = get_or cs (pick (length cs)) s.index })

-- `if len(candidates) == 0 { candidates = append(candidates, r.saved.Index) }`
unfoldable pub or_index : ℕ → List ℕ → List ℕ
or_index i [] = i ∷ []
or_index i (c ∷ cs) = c ∷ cs

-- A new round: any track but the current one, if there is another.
unfoldable pub next_round : (ℕ → ℕ) → RemoteSaved → RemoteSaved
unfolding or_index shuffle_to
next_round pick s =
    let others = candidates (str_eq (get_or s.queue s.index "")) s.queue 0 [] in
    shuffle_to pick (or_index s.index others) (record s { shuffle_visited = [] })

unfoldable pub advance_from : List ℕ → (ℕ → ℕ) → RemoteSaved → RemoteSaved × Bool
unfolding next_round shuffle_to
advance_from [] pick s = if str_eq s.repeat "all" then (next_round pick s, true) else (s, false)
advance_from (c ∷ cs) pick s = (shuffle_to pick (c ∷ cs) s, true)

unfoldable pub advance_shuffle : (ℕ → ℕ) → RemoteSaved → RemoteSaved × Bool
unfolding advance_from candidates
advance_shuffle pick s = advance_from (candidates (contains s.shuffle_visited) s.queue 0 []) pick s

unfoldable pub advance_in_order : RemoteSaved → RemoteSaved × Bool
unfolding mark_shuffle reset_shuffle
advance_in_order s =
    if ltb (s.index + 1) (length s.queue)
    then (mark_shuffle (record s { index = s.index + 1 }), true)
    else (if str_eq s.repeat "all"
        then (reset_shuffle (record s { index = 0 }), true)
        else (s, false))

unfoldable pub advance : (ℕ → ℕ) → Bool → RemoteSaved → RemoteSaved × Bool
unfolding advance_shuffle advance_in_order
advance pick manual s = elim s.queue [
  | [] ↦ (s, false)
  | _ ∷ _ ↦
      if not manual && str_eq s.repeat "single"
      then (s, true)
      else (if s.shuffle then advance_shuffle pick s else advance_in_order s)
]

-- `resetHistoryLocked`, with the session id that `newID` returned.
unfoldable pub reset_history : String → ℤ → RemoteSaved → RemoteSaved
reset_history id position s = record s {
  playback_session = id;
  listened = pos 0;
  counted = false;
  seeked = not (leb_ℤ position (pos 0));
}
