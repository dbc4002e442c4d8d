-- ===== src/Airplay/Plist/Limits.antt =====
-- A message from the network cannot make the decoder panic, nor build more than it allows.
use harmonia_server.Prelude.{
  ℕ, zero, suc, ◌+◌, ◌-◌, ◌<◌, ◌≤◌, ◌≡◌, refl, ◌≢◌, inl, inr, false, ◌||◌, List, ◌∷◌, arith, ltb,
  length, Bool-cases, ◌⊎◌,
}
use harmonia_server.Airplay.Plist.Values.{
  Plist, boolean, integer, real, blob, text, array, dictionary, Items, Entries, nodes, item_nodes,
  entry_nodes, depth, item_depth, entry_depth, PlistError, invalid_plist, panics, Answer, decoded,
  refused, slice, big_number, read_number,
}
use harmonia_server.Airplay.Plist.Decode.{
  parse_items, new_key, parse_entries, join_item, is_seen, join_entry,
}

-- No panic.
abbrev pub Safe {ℓ} : {A : Type ℓ} → Answer A → Type 0
Safe (decoded a) = Unit {0}
Safe (refused e) = e ≢ panics

-- No panic; and the objects of what was decoded were taken from the budget, and nest within the
-- levels.
abbrev pub Within : ℕ → ℕ → Answer (Plist × ℕ) → Type 0
Within levels budget (decoded (x, left)) = (nodes x + left ≤ budget) × (depth x ≤ levels)
Within levels budget (refused e) = e ≢ panics

abbrev pub ItemsWithin : ℕ → ℕ → Answer (Items × ℕ) → Type 0
ItemsWithin levels budget (decoded (x, left)) =
    (item_nodes x + left ≤ budget) × (item_depth x ≤ levels)
ItemsWithin levels budget (refused e) = e ≢ panics

abbrev pub EntriesWithin : ℕ → ℕ → Answer (Entries × ℕ) → Type 0
EntriesWithin levels budget (decoded (x, left)) =
    (entry_nodes x + left ≤ budget) × (entry_depth x ≤ levels)
EntriesWithin levels budget (refused e) = e ≢ panics

pub invalid-ne-panics : invalid_plist ≢ panics
invalid-ne-panics e = cc

-- A child decoded within the levels, whatever budget it is given.
abbrev pub ChildWithin : ℕ → (ℕ → ℕ → Answer (Plist × ℕ)) → Type 0
ChildWithin levels child = (i budget : ℕ) → Within levels budget (child i budget)

pub slice-Safe : (from count : ℕ) (b : List ℕ) → from + count ≤ length b → Safe (slice from count b)
unfolding slice
slice-Safe from count b h =
    let fits : ltb (length b) (from + count) ≡ false = ground arith in rw fits tt

big_number-Safe : (a : Answer (List ℕ)) → Safe a → Safe (big_number a)
unfolding big_number
big_number-Safe (decoded b) h = tt
big_number-Safe (refused e) h = h

pub read_number-Safe : (offset size : ℕ) (b : List ℕ) → Safe (read_number offset size b)
unfolding read_number
read_number-Safe offset size b =
    elim (Bool-cases
      (ltb size 1 || ltb 8 size || ltb (length b) offset || ltb (length b - offset) size)) [
        | inl bad ↦ rw bad invalid-ne-panics
        | inr fits ↦
            rw fits
              (big_number-Safe (slice offset size b) (slice-Safe offset size b (ground arith)))
      ]

pub Answer-cases {ℓ} :
    {A : Type ℓ} (a : Answer A) → ((x : A) × (a ≡ decoded x)) ⊎ ((e : PlistError) × (a ≡ refused e))
Answer-cases (decoded x) = inl (x, refl)
Answer-cases (refused e) = inr (e, refl)

join_item-ItemsWithin :
    (levels budget left : ℕ) (x : Plist) (a : Answer (Items × ℕ))
    → nodes x + left ≤ budget
    → depth x ≤ levels
    → ItemsWithin levels left a
    → ItemsWithin levels budget (join_item x a)
unfolding join_item item_nodes item_depth
join_item-ItemsWithin levels budget left x (refused e) n d w = w
join_item-ItemsWithin levels budget left x (decoded (xs, rest)) n d (m, f) =
    (omega (arith, n, m), omega (arith, d, f))

pub parse_items-ItemsWithin :
    (levels : ℕ) (child : ℕ → ℕ → Answer (Plist × ℕ)) (k i budget : ℕ)
    → ChildWithin levels child
    → ItemsWithin levels budget (parse_items child k i budget)
unfolding parse_items item_nodes item_depth
parse_items-ItemsWithin levels child zero i budget h = (omega arith, omega arith)
parse_items-ItemsWithin levels child (suc k) i budget h = elim (Answer-cases (child i budget)) [
  | inr (x, e) ↦ rw (e, parse_items) (rw e at (h i budget))
  | inl ((x, left), e) ↦
      let (n, d) : (nodes x + left ≤ budget) × (depth x ≤ levels) = rw e at (h i budget) in
      rw (e, parse_items)
        (join_item-ItemsWithin levels budget left x (parse_items child k (i + 1) left) n d
          (parse_items-ItemsWithin levels child k (i + 1) left h))
]

join_entry-EntriesWithin :
    (levels budget left : ℕ) (key : List ℕ) (x : Plist) (a : Answer (Entries × ℕ))
    → suc (nodes x + left) ≤ budget
    → depth x ≤ levels
    → EntriesWithin levels left a
    → EntriesWithin levels budget (join_entry key x a)
unfolding join_entry entry_nodes entry_depth
join_entry-EntriesWithin levels budget left key x (refused e) n d w = w
join_entry-EntriesWithin levels budget left key x (decoded (es, rest)) n d (m, f) =
    (omega (arith, n, m), omega (arith, d, f))

new_key-Safe : (x : Plist) (seen : List (List ℕ)) → Safe (new_key x seen)
unfolding new_key
new_key-Safe (text k) seen = elim (Bool-cases (is_seen k seen)) [
  | inl old ↦ rw old invalid-ne-panics
  | inr new ↦ rw new tt
]
new_key-Safe (boolean x) seen = invalid-ne-panics
new_key-Safe (integer x) seen = invalid-ne-panics
new_key-Safe (real x) seen = invalid-ne-panics
new_key-Safe (blob x) seen = invalid-ne-panics
new_key-Safe (array x) seen = invalid-ne-panics
new_key-Safe (dictionary x) seen = invalid-ne-panics

nodes_positive : (x : Plist) → 0 < nodes x
unfolding nodes
nodes_positive (boolean x) = omega arith
nodes_positive (integer x) = omega arith
nodes_positive (real x) = omega arith
nodes_positive (blob x) = omega arith
nodes_positive (text x) = omega arith
nodes_positive (array x) = omega arith
nodes_positive (dictionary x) = omega arith

pub parse_entries-EntriesWithin :
    (levels : ℕ) (child : ℕ → ℕ → Answer (Plist × ℕ)) (count k i : ℕ) (seen : List (List ℕ))
    (budget : ℕ)
    → ChildWithin levels child
    → EntriesWithin levels budget (parse_entries child count k i seen budget)
unfolding parse_entries entry_nodes entry_depth
parse_entries-EntriesWithin levels child count zero i seen budget h = (omega arith, omega arith)
parse_entries-EntriesWithin levels child count (suc k) i seen budget h =
    elim (Answer-cases (child i budget)) [
      | inr (x, e) ↦ rw (e, parse_entries) (rw e at (h i budget))
      | inl ((name, left), e) ↦
          let (n, d) : (nodes name + left ≤ budget) × (depth name ≤ levels) =
            rw e at (h i budget) in
          elim (Answer-cases (new_key name seen)) [
            | inr (x, e2) ↦ rw (e, parse_entries, e2) (rw e2 at (new_key-Safe name seen))
            | inl (key, e2) ↦ elim (Answer-cases (child (i + count) left)) [
              | inr (x, e3) ↦ rw (e, parse_entries, e2, e3) (rw e3 at (h (i + count) left))
              | inl ((x, after), e3) ↦
                  let (n3, d3) : (nodes x + after ≤ left) × (depth x ≤ levels) =
                    rw e3 at (h (i + count) left) in
                  rw (e, parse_entries, e2, e3)
                    (join_entry-EntriesWithin levels budget after key x
                      (parse_entries child count k (i + 1) (key ∷ seen) after)
                      (omega (arith, n, n3, nodes_positive name)) d3
                      (parse_entries-EntriesWithin levels child count k (i + 1) (key ∷ seen) after
                        h))
            ]
          ]
    ]
