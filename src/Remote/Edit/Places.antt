-- ===== src/Remote/Edit/Places.antt =====
-- Where the tracks of the queue stand after an edit.
use harmonia_server.Prelude.{Bool-cases}
use harmonia_server.Prelude.{
  ℕ, zero, suc, ◌+◌, ◌-◌, ◌<◌, ◌≤◌, ◌≡◌, refl, ◌∙◌, inl, inr, ◌≢◌, List, [], ◌∷◌, ◌++◌, some,
  String, ℤ, pos, negsuc, arith, if◌then◌else◌, Bool-cases, ltb, leb, ◌==◌, length, take, drop,
  get_elem?, get_or, get_or-get_elem?, get_elem?-some, length-append, length-take, length-drop,
  get_elem?-append_left, get_elem?-append_right, get_elem?-take, get_elem?-drop,
}
use harmonia_server.Remote.State.{RemoteSaved}
use harmonia_server.Remote.Edit.{
  remove_at, insert_at, append_position, append_queue, move_item, moved_index, move_queue,
  remove_queue,
}

pub length-remove_at :
    (i : ℕ) (q : List String) → i < length q → length (remove_at i q) + 1 ≡ length q
unfolding remove_at
length-remove_at i q h =
    omega (arith, length-append (take i q) (drop (suc i) q), length-take i q, length-drop (suc i) q)

pub length-insert_at :
    (i : ℕ) (ids q : List String) → length (insert_at i ids q) ≡ length ids + length q
unfolding insert_at
length-insert_at i ids q = omega (
  arith,
  length-append (take i q) (ids ++ drop i q),
  length-append ids (drop i q),
  length-take i q,
  length-drop i q,
)

pub remove_at_before :
    (i k : ℕ) (q : List String) → k < i → get_elem? (remove_at i q) k ≡ get_elem? q k
unfolding remove_at
remove_at_before zero k q h = absurd (omega arith)
remove_at_before (suc i) k [] h = refl
remove_at_before (suc i) zero (x ∷ q) h = refl
remove_at_before (suc i) (suc k) (x ∷ q) h = remove_at_before i k q (omega arith)

pub remove_at_after :
    (i k : ℕ) (q : List String) → i ≤ k → get_elem? (remove_at i q) k ≡ get_elem? q (suc k)
unfolding remove_at
remove_at_after zero k [] h = refl
remove_at_after (suc i) k [] h = refl
remove_at_after zero k (x ∷ q) h = refl
remove_at_after (suc i) zero (x ∷ q) h = absurd (omega arith)
remove_at_after (suc i) (suc k) (x ∷ q) h = remove_at_after i k q (omega arith)

pub insert_at_before :
    (i k : ℕ) (ids q : List String)
    → k < i
    → i ≤ length q
    → get_elem? (insert_at i ids q) k ≡ get_elem? q k
unfolding insert_at
insert_at_before i k ids q h b =
    get_elem?-append_left (take i q) (ids ++ drop i q) k (omega (arith, length-take i q))
    ∙ get_elem?-take i q k h

pub insert_at_after :
    (i k m : ℕ) (ids q : List String)
    → i ≤ k
    → i ≤ length q
    → m ≡ k + length ids
    → get_elem? (insert_at i ids q) m ≡ get_elem? q k
unfolding insert_at
insert_at_after i k m ids q h b e =
    get_elem?-append_right (take i q) (ids ++ drop i q) m (m - i) (omega (arith, length-take i q))
    ∙ get_elem?-append_right ids (drop i q) (m - i) (k - i) (omega arith)
    ∙ get_elem?-drop i q (k - i) k (omega arith)

pub insert_at_here :
    (i : ℕ) (id : String) (q : List String)
    → i ≤ length q
    → get_elem? (insert_at i (id ∷ []) q) i ≡ some id
unfolding insert_at
insert_at_here i id q b =
    get_elem?-append_right (take i q) (id ∷ drop i q) i 0 (omega (arith, length-take i q))

-- The place of the k-th entry once an entry is put in at `to`.
abbrev shifted : ℕ → ℕ → ℕ
shifted to k = if ltb k to then k else k + 1

insert_one_shifted :
    (to k : ℕ) (id : String) (q : List String)
    → to ≤ length q
    → get_elem? (insert_at to (id ∷ []) q) (shifted to k) ≡ get_elem? q k
insert_one_shifted to k id q b = elim (Bool-cases (ltb k to)) [
  | inl before ↦ rw before (insert_at_before to k (id ∷ []) q (ground arith) b)
  | inr after ↦ rw after (insert_at_after to k (k + 1) (id ∷ []) q (ground arith) b (omega arith))
]

move_item_other :
    (from to k j m : ℕ) (q : List String)
    → from < length q
    → to < length q
    → get_elem? (remove_at from q) j ≡ get_elem? q k
    → m ≡ shifted to j
    → get_elem? (move_item from to q) m ≡ get_elem? q k
unfolding move_item
move_item_other from to k j m q hf ht e s =
    rw s
      (insert_one_shifted to j _ (remove_at from q) (omega (arith, length-remove_at from q hf)) ∙ e)

move_item_self :
    (from to : ℕ) (q : List String)
    → from < length q
    → to < length q
    → get_elem? (move_item from to q) to ≡ get_elem? q from
unfolding move_item
move_item_self from to q hf ht =
    let (id, at) = get_elem?-some q from hf in
    insert_at_here to _ (remove_at from q) (omega (arith, length-remove_at from q hf))
    ∙ rw (get_or-get_elem? q from "" at, at)

-- After a move between two places of the queue, each entry is found at its moved index.
pub move_item_places :
    (from to k : ℕ) (q : List String)
    → from < length q
    → to < length q
    → get_elem? (move_item from to q) (moved_index from to k) ≡ get_elem? q k
unfolding moved_index
move_item_places from to k q hf ht = elim (Bool-cases (k == from)) [
  | inl same ↦
      let here : k ≡ from = ground arith in rw (same, here) (move_item_self from to q hf ht)
  | inr other ↦ elim (Bool-cases (ltb k from)) [
    | inl before ↦
        move_item_other from to k k _ q hf ht (remove_at_before from k q (ground arith))
          (ground arith)
    | inr after ↦
        let back : suc (k - 1) ≡ k = ground arith in
        move_item_other from to k (k - 1) _ q hf ht
          (remove_at_after from (k - 1) q (ground arith) ∙ rw back) (ground arith)
  ]
]

pub length-move_item :
    (from to : ℕ) (q : List String) → from < length q → length (move_item from to q) ≡ length q
unfolding move_item
length-move_item from to q h = omega (
  arith,
  length-insert_at to (get_or q from "" ∷ []) (remove_at from q),
  length-remove_at from q h,
)

-- Moving a track from one place of the queue to another keeps the current track current, and the length
-- of the queue.
pub move_queue_current :
    (from to : ℕ) (s : RemoteSaved)
    → from < length s.queue
    → to < length s.queue
    → (get_elem? (move_queue from to s).queue (move_queue from to s).index
        ≡ get_elem? s.queue s.index)
      × (length (move_queue from to s).queue ≡ length s.queue)
unfolding move_queue
move_queue_current from to s hf ht =
    (move_item_places from to s.index s.queue hf ht, length-move_item from to s.queue hf)

-- Removing another track keeps the current one current.
pub remove_queue_current :
    (i : ℕ) (s : RemoteSaved)
    → i ≢ s.index
    → get_elem? (remove_queue i s).queue (remove_queue i s).index ≡ get_elem? s.queue s.index
unfolding remove_queue
remove_queue_current i s ne = elim (Bool-cases (ltb i s.index)) [
  | inl before ↦
      let back : suc (s.index - 1) ≡ s.index = ground arith in
      rw before (remove_at_after i (s.index - 1) s.queue (ground arith) ∙ rw back)
  | inr after ↦ rw after (remove_at_before i s.index s.queue (ground arith))
]

-- Removing the current track brings up the one behind it, at the same index.
pub remove_queue_next :
    (s : RemoteSaved)
    → get_elem? (remove_queue s.index s).queue (remove_queue s.index s).index
      ≡ get_elem? s.queue (suc s.index)
unfolding remove_queue
remove_queue_next s = ground (arith, remove_at_after s.index s.index s.queue)

pub append_position-le : (p : ℤ) (n : ℕ) → append_position p n ≤ n
unfolding append_position
append_position-le (pos p) n = ground arith
append_position-le (negsuc p) n = omega arith

-- Adding tracks to a queue that is not empty keeps the current one current, wherever they are put.
pub append_queue_current :
    (p : ℤ) (ids : List String) (s : RemoteSaved)
    → 0 < length s.queue
    → get_elem? (append_queue p ids s).queue (append_queue p ids s).index
      ≡ get_elem? s.queue s.index
unfolding append_queue
append_queue_current p ids s h =
    let at : ℕ = append_position p (length s.queue) in
    let within : at ≤ length s.queue = append_position-le p (length s.queue) in
    elim (Bool-cases (leb at s.index)) [
      | inl before ↦
          ground (arith, within, insert_at_after at s.index (s.index + length ids) ids s.queue)
      | inr after ↦ ground (arith, within, insert_at_before at s.index ids s.queue)
    ]
