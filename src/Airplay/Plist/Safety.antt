-- ===== src/Airplay/Plist/Safety.antt =====
-- From the children of an object to whole messages.
use harmonia_server.Prelude.{
  ℕ, suc, ◌+◌, ◌*◌, ◌≤◌, ◌≡◌, inl, inr, true, not, ◌||◌, List, [], arith, if◌then◌else◌, ltb, ◌==◌,
  length, Bool-cases,
}
use harmonia_server.Airplay.Plist.Values.{
  Plist, Items, Entries, nodes, depth, invalid_plist, panics, Answer, decoded, refused, slice,
  read_number,
}
use harmonia_server.Airplay.Plist.Decode.{
  Trailer, has_room, parse_items, parse_entries, child_at, as_array, as_dictionary, as_integer,
  as_real, as_raw, parse_raw, parse_container, parse,
}
use harmonia_server.Airplay.Plist.Limits.{
  Safe, Within, ItemsWithin, EntriesWithin, invalid-ne-panics, ChildWithin, slice-Safe,
  read_number-Safe, Answer-cases, parse_items-ItemsWithin, parse_entries-EntriesWithin,
}

child_at-ChildWithin :
    (levels : ℕ) (parse : ℕ → ℕ → Answer (Plist × ℕ)) (t : Trailer) (b : List ℕ) (p : ℕ)
    → ChildWithin levels parse
    → ChildWithin levels (child_at parse t b p)
unfolding child_at
child_at-ChildWithin levels parse t b p h i budget =
    elim (Answer-cases (read_number (p + i * t.ref_size) t.ref_size b)) [
      | inl (id, e) ↦ rw (e, child_at) (h id budget)
      | inr (x, e) ↦ rw (e, child_at) (rw e at (read_number-Safe (p + i * t.ref_size) t.ref_size b))
    ]

-- One object more than its children.
abbrev pub Built : ℕ → ℕ → Answer (Plist × ℕ) → Type 0
Built levels budget a = Within (suc levels) (suc budget) a

as_array-Built :
    (levels budget : ℕ) (a : Answer (Items × ℕ))
    → ItemsWithin levels budget a
    → Built levels budget (as_array a)
unfolding as_array nodes depth
as_array-Built levels budget (decoded (xs, left)) (n, d) = (omega (arith, n), omega (arith, d))
as_array-Built levels budget (refused e) h = h

as_dictionary-Built :
    (levels budget : ℕ) (a : Answer (Entries × ℕ))
    → EntriesWithin levels budget a
    → Built levels budget (as_dictionary a)
unfolding as_dictionary nodes depth
as_dictionary-Built levels budget (decoded (es, left)) (n, d) = (omega (arith, n), omega (arith, d))
as_dictionary-Built levels budget (refused e) h = h

pub as_integer-Built :
    (levels budget : ℕ) (a : Answer ℕ) → Safe a → Built levels budget (as_integer budget a)
unfolding as_integer nodes depth
as_integer-Built levels budget (decoded n) h = (omega arith, omega arith)
as_integer-Built levels budget (refused e) h = h

pub as_real-Built :
    (levels budget : ℕ) (a : Answer ℕ) → Safe a → Built levels budget (as_real budget a)
unfolding as_real nodes depth
as_real-Built levels budget (decoded n) h = (omega arith, omega arith)
as_real-Built levels budget (refused invalid_plist) h = (omega arith, omega arith)
as_real-Built levels budget (refused panics) h = h

as_raw-Built :
    (levels kind budget : ℕ) (a : Answer (List ℕ))
    → Safe a
    → Built levels budget (as_raw kind budget a)
unfolding as_raw nodes depth
as_raw-Built levels kind budget (refused e) h = h
as_raw-Built levels kind budget (decoded raw) h = elim (Bool-cases (kind == 4)) [
  | inl four ↦ rw four (omega arith, omega arith)
  | inr other ↦ elim (Bool-cases (kind == 5)) [
    | inl five ↦ rw (other, five) (omega arith, omega arith)
    | inr six ↦ rw (other, six) (omega arith, omega arith)
  ]
]

room_inside :
    (t : Trailer) (b : List ℕ) (p size : ℕ)
    → t.table ≤ length b
    → has_room t p size ≡ true
    → p + size ≤ length b
unfolding has_room
room_inside t b p size h e = ground arith

pub parse_raw-Built :
    (levels : ℕ) (t : Trailer) (b : List ℕ) (kind count p budget : ℕ)
    → t.table ≤ length b
    → Built levels budget (parse_raw t b kind count p budget)
unfolding parse_raw
parse_raw-Built levels t b kind count p budget inside =
    let size : ℕ = count * (if kind == 6 then 2 else 1) in
    elim (Bool-cases (ltb (length b) count || not (has_room t p size))) [
      | inl bad ↦ rw bad invalid-ne-panics
      | inr fits ↦ rw fits (
          as_raw-Built levels kind budget (slice p size b)
            (slice-Safe p size b (room_inside t b p size inside (ground arith))))
    ]

pub parse_container-Built :
    (levels : ℕ) (parse : ℕ → ℕ → Answer (Plist × ℕ)) (t : Trailer) (b : List ℕ)
    (kind count p budget : ℕ)
    → ChildWithin levels parse
    → Built levels budget (parse_container parse t b kind count p budget)
unfolding parse_container
parse_container-Built levels parse t b kind count p budget h =
    let refs : ℕ = if kind == 13 then count * 2 else count in
    let child : ChildWithin levels (child_at parse t b p) =
      child_at-ChildWithin levels parse t b p h in
    elim (Bool-cases (ltb 65536 count || not (has_room t p (refs * t.ref_size)))) [
      | inl bad ↦ rw bad invalid-ne-panics
      | inr fits ↦ elim (Bool-cases (kind == 10)) [
        | inl ten ↦
            rw (fits, ten)
              (as_array-Built levels budget (parse_items (child_at parse t b p) count 0 budget)
                (parse_items-ItemsWithin levels (child_at parse t b p) count 0 budget child))
        | inr thirteen ↦
            rw (fits, thirteen)
              (as_dictionary-Built levels budget
                (parse_entries (child_at parse t b p) count count 0 [] budget)
                (parse_entries-EntriesWithin levels (child_at parse t b p) count count 0 [] budget
                  child))
      ]
    ]
