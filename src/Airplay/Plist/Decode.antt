-- ===== src/Airplay/Plist/Decode.antt =====
-- `parse` of plist.go, one step of it after another.
use harmonia_server.Prelude.{
  ℕ, zero, suc, ◌+◌, ◌-◌, ◌*◌, ◌/◌, ◌%◌, ◌^◌, Bool, true, false, not, ◌&&◌, ◌||◌, List, [], ◌∷◌,
  none, some, if◌then◌else◌, ltb, leb, ◌==◌, length, get_elem?,
}
use harmonia_server.Airplay.Plist.Values.{
  Plist, boolean, integer, real, blob, text, array, dictionary, Items, no_items, item, Entries,
  no_entries, entry, invalid_plist, panics, Answer, decoded, refused, nats_eq, slice, read_number,
  units, decode_units,
}

pub record Trailer : Type 0 where
  pub offset_size : ℕ
  pub ref_size : ℕ
  pub objects : ℕ
  pub root : ℕ
  pub table : ℕ

-- `need`
unfoldable pub has_room : Trailer → ℕ → ℕ → Bool
has_room t p size = leb p t.table && leb size (t.table - p)

unfoldable pub join_item : Plist → Answer (Items × ℕ) → Answer (Items × ℕ)
join_item x (decoded (xs, rest)) = decoded (item x xs, rest)
join_item x (refused e) = refused e

-- The children of an array, each with the budget that the ones before have left.
unfoldable pub parse_items : (ℕ → ℕ → Answer (Plist × ℕ)) → ℕ → ℕ → ℕ → Answer (Items × ℕ)
parse_items child zero i budget = decoded (no_items, budget)
parse_items child (suc k) i budget = elim (child i budget) [
  | refused e ↦ refused e
  | decoded x ↦ join_item x.0 (parse_items child k (i + 1) x.1)
]

unfoldable pub is_seen : List ℕ → List (List ℕ) → Bool
is_seen k [] = false
is_seen k (x ∷ xs) = nats_eq x k || is_seen k xs

-- A key is a text that did not come before.
unfoldable pub new_key : Plist → List (List ℕ) → Answer (List ℕ)
new_key (text k) seen = if is_seen k seen then refused invalid_plist else decoded k
new_key _ seen = refused invalid_plist

unfoldable pub join_entry : List ℕ → Plist → Answer (Entries × ℕ) → Answer (Entries × ℕ)
join_entry key x (decoded (es, rest)) = decoded (entry key x es, rest)
join_entry key x (refused e) = refused e

-- The keys and the values of a dictionary of `count` entries.
unfoldable pub parse_entries :
    (ℕ → ℕ → Answer (Plist × ℕ)) → ℕ → ℕ → ℕ → List (List ℕ) → ℕ → Answer (Entries × ℕ)
parse_entries child count zero i seen budget = decoded (no_entries, budget)
parse_entries child count (suc k) i seen budget = elim (child i budget) [
  | refused e ↦ refused e
  | decoded name ↦ elim (new_key name.0 seen) [
    | refused e ↦ refused e
    | decoded key ↦ elim (child (i + count) name.1) [
      | refused e ↦ refused e
      | decoded x ↦ join_entry key x.0 (parse_entries child count k (i + 1) (key ∷ seen) x.1)
    ]
  ]
]

-- `child`, where `parse` decodes an object by its number.
unfoldable pub child_at :
    (ℕ → ℕ → Answer (Plist × ℕ)) → Trailer → List ℕ → ℕ → ℕ → ℕ → Answer (Plist × ℕ)
child_at parse t b p i budget = elim (read_number (p + i * t.ref_size) t.ref_size b) [
  | refused e ↦ refused e
  | decoded id ↦ parse id budget
]

unfoldable pub as_array : Answer (Items × ℕ) → Answer (Plist × ℕ)
as_array (decoded (xs, left)) = decoded (array xs, left)
as_array (refused e) = refused e

unfoldable pub as_dictionary : Answer (Entries × ℕ) → Answer (Plist × ℕ)
as_dictionary (decoded (es, left)) = decoded (dictionary es, left)
as_dictionary (refused e) = refused e

unfoldable pub as_integer : ℕ → Answer ℕ → Answer (Plist × ℕ)
as_integer budget (decoded n) = decoded (integer n, budget)
as_integer budget (refused e) = refused e

-- The error of this read is dropped in Go, where it is then 0.
unfoldable pub as_real : ℕ → Answer ℕ → Answer (Plist × ℕ)
as_real budget (decoded n) = decoded (real n, budget)
as_real budget (refused invalid_plist) = decoded (real 0, budget)
as_real budget (refused panics) = refused panics

unfoldable pub as_raw : ℕ → ℕ → Answer (List ℕ) → Answer (Plist × ℕ)
as_raw kind budget (refused e) = refused e
as_raw kind budget (decoded raw) =
    if kind == 4
    then decoded (blob raw, budget)
    else (if kind == 5
        then decoded (text raw, budget)
        else decoded (text (decode_units (units raw)), budget))

unfoldable pub parse_raw : Trailer → List ℕ → ℕ → ℕ → ℕ → ℕ → Answer (Plist × ℕ)
parse_raw t b kind count p budget =
    let size = count * (if kind == 6 then 2 else 1) in
    if ltb (length b) count || not (has_room t p size)
    then refused invalid_plist
    else as_raw kind budget (slice p size b)

unfoldable pub parse_container :
    (ℕ → ℕ → Answer (Plist × ℕ)) → Trailer → List ℕ → ℕ → ℕ → ℕ → ℕ → Answer (Plist × ℕ)
parse_container parse t b kind count p budget =
    let refs = if kind == 13 then count * 2 else count in
    if ltb 65536 count || not (has_room t p (refs * t.ref_size))
    then refused invalid_plist
    else (if kind == 10
        then as_array (parse_items (child_at parse t b p) count 0 budget)
        else as_dictionary (parse_entries (child_at parse t b p) count count 0 [] budget))

-- `switch tag >> 4`
unfoldable pub parse_value :
    (ℕ → ℕ → Answer (Plist × ℕ)) → Trailer → List ℕ → ℕ → ℕ → ℕ → ℕ → Answer (Plist × ℕ)
parse_value parse t b tag count p budget =
    let kind = tag / 16 in
    if kind == 0
    then (if tag == 8
        then decoded (boolean false, budget)
        else (if tag == 9 then decoded (boolean true, budget) else refused invalid_plist))
    else (if kind == 1
        then (if ltb 3 count || not (has_room t p (2 ^ count))
            then refused invalid_plist
            else as_integer budget (read_number p (2 ^ count) b))
        else (if kind == 2
            then (if not (count == 3) || not (has_room t p 8)
                then refused invalid_plist
                else as_real budget (read_number p 8 b))
            else (if kind == 4 || kind == 5 || kind == 6
                then parse_raw t b kind count p budget
                else (if kind == 10 || kind == 13
                    then parse_container parse t b kind count p budget
                    else refused invalid_plist))))

-- A count of 15 or more is a number of its own.
unfoldable pub parse_long :
    (ℕ → ℕ → Answer (Plist × ℕ)) → Trailer → List ℕ → ℕ → ℕ → ℕ → Answer (Plist × ℕ)
parse_long parse t b tag p budget =
    if leb t.table p then refused invalid_plist else elim (get_elem? b p) [
      | none ↦ refused panics
      | some s ↦
          if not (s / 16 == 1) || ltb 3 (s % 16)
          then refused invalid_plist
          else elim (read_number (p + 1) (2 ^ (s % 16)) b) [
            | refused e ↦ refused e
            | decoded count ↦ parse_value parse t b tag count (p + 1 + 2 ^ (s % 16)) budget
          ]
    ]

unfoldable pub parse_tag :
    (ℕ → ℕ → Answer (Plist × ℕ)) → Trailer → List ℕ → ℕ → ℕ → Answer (Plist × ℕ)
parse_tag parse t b p budget = elim (get_elem? b p) [
  | none ↦ refused panics
  | some tag ↦
      if leb 4 (tag / 16) && tag % 16 == 15
      then parse_long parse t b tag (p + 1) budget
      else parse_value parse t b tag (tag % 16) (p + 1) budget
]

unfoldable pub parse_object :
    (ℕ → ℕ → Answer (Plist × ℕ)) → Trailer → List ℕ → ℕ → ℕ → Answer (Plist × ℕ)
parse_object parse t b id budget =
    elim (read_number (t.table + id * t.offset_size) t.offset_size b) [
      | refused e ↦ refused invalid_plist
      | decoded p ↦
          if ltb p 8 || leb t.table p then refused invalid_plist else parse_tag parse t b p budget
    ]

-- `parse`, with the levels that are left.
unfoldable pub parse : Trailer → List ℕ → ℕ → ℕ → ℕ → Answer (Plist × ℕ)
parse t b zero id budget = refused invalid_plist
parse t b (suc levels) id budget =
    if leb t.objects id || budget == 0
    then refused invalid_plist
    else parse_object (parse t b levels) t b id (budget - 1)
