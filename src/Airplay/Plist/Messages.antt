-- ===== src/Airplay/Plist/Messages.antt =====
-- Whole messages.
use harmonia_server.Prelude.{
  ℕ, zero, suc, ◌+◌, ◌-◌, ◌*◌, ◌/◌, ◌%◌, ◌^◌, ◌<◌, ◌≤◌, ◌≡◌, inl, inr, Bool, true, false, not, ◌&&◌,
  ◌||◌, List, arith, ltb, leb, ◌==◌, length, get_elem?-some, Bool-cases, take,
}
use harmonia_server.Airplay.Plist.Values.{
  Plist, boolean, nodes, depth, Answer, decoded, nats_eq, read_number,
}
use harmonia_server.Airplay.Plist.Decode.{
  Trailer, has_room, parse_value, parse_long, parse_tag, parse_object, parse,
}
use harmonia_server.Airplay.Plist.{plist_magic, trailer, bad_trailer, parse_root, unplist}
use harmonia_server.Airplay.Plist.Limits.{
  Within, invalid-ne-panics, ChildWithin, read_number-Safe, Answer-cases,
}
use harmonia_server.Airplay.Plist.Safety.{
  Built, as_integer-Built, as_real-Built, parse_raw-Built, parse_container-Built,
}

boolean-Built : (levels budget : ℕ) (x : Bool) → Built levels budget (decoded (boolean x, budget))
unfolding nodes depth
boolean-Built levels budget x = (omega arith, omega arith)

parse_value-Built :
    (levels : ℕ) (parse : ℕ → ℕ → Answer (Plist × ℕ)) (t : Trailer) (b : List ℕ)
    (tag count p budget : ℕ)
    → t.table ≤ length b
    → ChildWithin levels parse
    → Built levels budget (parse_value parse t b tag count p budget)
unfolding parse_value
parse_value-Built levels parse t b tag count p budget inside h =
    let kind : ℕ = tag / 16 in
    elim (Bool-cases (kind == 0)) [
      | inl k ↦ elim (Bool-cases (tag == 8)) [
        | inl off ↦ rw (k, off) (boolean-Built levels budget false)
        | inr other ↦ elim (Bool-cases (tag == 9)) [
          | inl on ↦ rw (k, other, on) (boolean-Built levels budget true)
          | inr bad ↦ rw (k, other, bad) invalid-ne-panics
        ]
      ]
      | inr k0 ↦ elim (Bool-cases (kind == 1)) [
        | inl k ↦ elim (Bool-cases (ltb 3 count || not (has_room t p (2 ^ count)))) [
          | inl bad ↦ rw (k0, k, bad) invalid-ne-panics
          | inr fits ↦
              rw (k0, k, fits)
                (as_integer-Built levels budget (read_number p (2 ^ count) b)
                  (read_number-Safe p (2 ^ count) b))
        ]
        | inr k1 ↦ elim (Bool-cases (kind == 2)) [
          | inl k ↦ elim (Bool-cases (not (count == 3) || not (has_room t p 8))) [
            | inl bad ↦ rw (k0, k1, k, bad) invalid-ne-panics
            | inr fits ↦
                rw (k0, k1, k, fits)
                  (as_real-Built levels budget (read_number p 8 b) (read_number-Safe p 8 b))
          ]
          | inr k2 ↦ elim (Bool-cases (kind == 4 || kind == 5 || kind == 6)) [
            | inl k ↦ rw (k0, k1, k2, k) (parse_raw-Built levels t b kind count p budget inside)
            | inr k4 ↦ elim (Bool-cases (kind == 10 || kind == 13)) [
              | inl k ↦
                  rw (k0, k1, k2, k4, k)
                    (parse_container-Built levels parse t b kind count p budget h)
              | inr bad ↦ rw (k0, k1, k2, k4, bad) invalid-ne-panics
            ]
          ]
        ]
      ]
    ]

parse_long-Built :
    (levels : ℕ) (parse : ℕ → ℕ → Answer (Plist × ℕ)) (t : Trailer) (b : List ℕ) (tag p budget : ℕ)
    → t.table ≤ length b
    → ChildWithin levels parse
    → Built levels budget (parse_long parse t b tag p budget)
unfolding parse_long
parse_long-Built levels parse t b tag p budget inside h = elim (Bool-cases (leb t.table p)) [
  | inl out ↦ rw out invalid-ne-panics
  | inr within ↦
      let (s, at) = get_elem?-some b p (ground arith) in
      elim (Bool-cases (not (s / 16 == 1) || ltb 3 (s % 16))) [
        | inl bad ↦ rw (within, at, parse_long, bad) invalid-ne-panics
        | inr fits ↦ elim (Answer-cases (read_number (p + 1) (2 ^ (s % 16)) b)) [
          | inl (count, e) ↦
              rw (within, at, parse_long, fits, e)
                (parse_value-Built levels parse t b tag count (p + 1 + 2 ^ (s % 16)) budget inside
                  h)
          | inr (x, e) ↦
              rw (within, at, parse_long, fits, e)
                (rw e at (read_number-Safe (p + 1) (2 ^ (s % 16)) b))
        ]
      ]
]

parse_tag-Built :
    (levels : ℕ) (parse : ℕ → ℕ → Answer (Plist × ℕ)) (t : Trailer) (b : List ℕ) (p budget : ℕ)
    → t.table ≤ length b
    → p < t.table
    → ChildWithin levels parse
    → Built levels budget (parse_tag parse t b p budget)
unfolding parse_tag
parse_tag-Built levels parse t b p budget inside here h =
    let (tag, at) = get_elem?-some b p (omega arith) in
    elim (Bool-cases (leb 4 (tag / 16) && tag % 16 == 15)) [
      | inl long ↦
          rw (at, parse_tag, long) (parse_long-Built levels parse t b tag (p + 1) budget inside h)
      | inr short ↦
          rw (at, parse_tag, short)
            (parse_value-Built levels parse t b tag (tag % 16) (p + 1) budget inside h)
    ]

parse_object-Built :
    (levels : ℕ) (parse : ℕ → ℕ → Answer (Plist × ℕ)) (t : Trailer) (b : List ℕ) (id budget : ℕ)
    → t.table ≤ length b
    → ChildWithin levels parse
    → Built levels budget (parse_object parse t b id budget)
unfolding parse_object
parse_object-Built levels parse t b id budget inside h =
    elim (Answer-cases (read_number (t.table + id * t.offset_size) t.offset_size b)) [
      | inr (x, e) ↦ rw (e, parse_object) invalid-ne-panics
      | inl (p, e) ↦ elim (Bool-cases (ltb p 8 || leb t.table p)) [
        | inl out ↦ rw (e, parse_object, out) invalid-ne-panics
        | inr within ↦
            rw (e, parse_object, within)
              (parse_tag-Built levels parse t b p budget inside (ground arith) h)
      ]
    ]

parse-Within :
    (t : Trailer) (b : List ℕ) (levels id budget : ℕ)
    → t.table ≤ length b
    → Within levels budget (parse t b levels id budget)
unfolding parse
parse-Within t b zero id budget inside = invalid-ne-panics
parse-Within t b (suc levels) id zero inside = elim (Bool-cases (leb t.objects id)) [
  | inl out ↦ rw out invalid-ne-panics
  | inr known ↦ rw known invalid-ne-panics
]
parse-Within t b (suc levels) id (suc budget) inside =
    elim (Bool-cases (leb t.objects id || suc budget == 0)) [
      | inl out ↦ rw out invalid-ne-panics
      | inr known ↦
          let less : suc budget - 1 ≡ budget = omega arith in
          rw (known, less)
            (parse_object-Built levels (parse t b levels) t b id budget inside
              (λ i n. parse-Within t b levels i n inside))
    ]

parse_root-Within : (b : List ℕ) (t : Trailer) → Within 33 65536 (parse_root b t)
unfolding parse_root bad_trailer
parse_root-Within b t = elim (Bool-cases (bad_trailer (length b) t)) [
  | inl bad ↦ rw bad invalid-ne-panics
  | inr fine ↦ rw fine (parse-Within t b 33 t.root 65536 (ground arith))
]

-- Whatever bytes a peer sends, `unplist` returns: no index or slice is out of range, and a value that
-- it decodes has at most 65536 objects, keys included, nested 33 deep at most.
pub unplist-Within : (b : List ℕ) → Within 33 65536 (unplist b)
unfolding unplist
unplist-Within b =
    elim (Bool-cases
      (ltb (length b) 40 || ltb 2097152 (length b) || not (nats_eq (take 8 b) plist_magic))) [
        | inl bad ↦ rw bad invalid-ne-panics
        | inr fine ↦ rw fine (parse_root-Within b (trailer b))
      ]
