-- ===== src/Remote/Shuffle/Restarts.antt =====
-- How a new shuffle round begins.
use harmonia_server.Remote.Shuffle.{or_index, next_round}
use harmonia_server.Prelude.{
  ℕ, zero, suc, ◌<◌, ◌≡◌, refl, ◌≢◌, Bool, true, false, List, [], ◌∷◌, some, String, arith, length,
  get_elem?, get_or, get_or-get_elem?, get_elem?-some, str_eq, contains, eq_iff,
}
use harmonia_server.Remote.State.{RemoteSaved}
use harmonia_server.Remote.Shuffle.{candidates, advance_shuffle, advance_from, shuffle_to}
use harmonia_server.Remote.Shuffle.Rounds.{
  candidates-Place, candidates_none, InRange, Place, shuffle_to-Chosen, AllPlayed,
  candidates_played,
}

abbrev pub Restarted : RemoteSaved → RemoteSaved → String → Type 0
Restarted s t id =
    (get_elem? s.queue t.index ≡ some id)
    × (t.shuffle_visited ≡ id ∷ [])
    × ((b cur : String)
        → get_elem? s.queue s.index ≡ some cur
        → contains s.queue b ≡ true
        → b ≢ cur
        → id ≢ cur)

Place-alone :
    (q : List String) (i : ℕ) (id : String)
    → get_elem? q i ≡ some id
    → (k j : ℕ) → get_elem? (i ∷ []) k ≡ some j
    → Place (λ _. false) q 0 j
Place-alone q i id at zero j e = (i, id, ground arith, at, refl)
Place-alone q i id at (suc k) j e = cc

next_round_alone :
    (pick : ℕ → ℕ) (s : RemoteSaved) (first : String)
    → candidates (str_eq (get_or s.queue s.index "")) s.queue 0 [] ≡ []
    → InRange pick
    → get_elem? s.queue s.index ≡ some first
    → (id : String) × Restarted s
        (shuffle_to pick (s.index ∷ []) (record s { shuffle_visited = [] }))
        id
unfolding contains
next_round_alone pick s first e ok at =
    let (id, chosen) =
      shuffle_to-Chosen pick s.index [] (record s { shuffle_visited = [] }) (λ _. false) ok
        (Place-alone s.queue s.index first at) in
    (
      id,
      (
        chosen.0,
        chosen.2,
        λ b cur at' m ne same. ground (
          arith,
          eq_iff cur b,
          get_or-get_elem? s.queue s.index "" at',
          candidates_none (str_eq (get_or s.queue s.index "")) s.queue 0 [] b e m,
        ),
      ),
    )

pub next_round_from :
    (pick : ℕ → ℕ) (s : RemoteSaved) (cs : List ℕ)
    → candidates (str_eq (get_or s.queue s.index "")) s.queue 0 [] ≡ cs
    → InRange pick
    → s.index < length s.queue
    → (id : String) × Restarted s
        (shuffle_to pick (or_index s.index cs) (record s { shuffle_visited = [] }))
        id
unfolding contains or_index
next_round_from pick s [] e ok h =
    let (first, at) = get_elem?-some s.queue s.index h in next_round_alone pick s first e ok at
next_round_from pick s (c ∷ cs) e ok h =
    let skip : String → Bool = str_eq (get_or s.queue s.index "") in
    let (id, chosen) =
      shuffle_to-Chosen pick c cs (record s { shuffle_visited = [] }) skip ok
        (λ k j g. candidates-Place skip s.queue 0 [] k j (rw e g)) in
    (
      id,
      (
        chosen.0,
        chosen.2,
        λ b cur at' m ne same.
            ground (arith, chosen.1, eq_iff cur id, get_or-get_elem? s.queue s.index "" at'),
      ),
    )

-- When every track was played and the queue repeats, a new round begins with a track of the
-- queue, which is another than the last one where there is another.
pub advance_shuffle_repeats :
    (pick : ℕ → ℕ) (s : RemoteSaved)
    → InRange pick
    → s.index < length s.queue
    → AllPlayed s
    → str_eq s.repeat "all" ≡ true
    → (id : String) × ((advance_shuffle pick s).1 ≡ true)
      × Restarted s (advance_shuffle pick s).0 id
unfolding advance_shuffle advance_from next_round
advance_shuffle_repeats pick s ok h all r =
    let (id, restarted) = next_round_from pick s _ refl ok h in
    rw (candidates_played s _ refl all, advance_from, r) (id, refl, restarted)
