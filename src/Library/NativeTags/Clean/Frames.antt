-- ===== src/Library/NativeTags/Clean/Frames.antt =====
-- The frames of ID3v2.4 come to an end and give clean tags.
use harmonia_server.Prelude.{
  ℕ, ◌+◌, ◌%◌, ◌≢◌, inl, inr, Bool, true, false, not, ◌||◌, ◌&&◌, List, [], ◌∷◌, Option, none, some,
  arith, if◌then◌else◌, ltb, ◌==◌, length, drop, get_or, All, Bool-cases,
}
use harmonia_server.Prelude.Runes.{runes, same_runes}
use harmonia_server.Library.NativeTags.{
  Tags, TagRead, read, not_read, out_of_rounds, max_native_tags,
}
use harmonia_server.Library.NativeTags.Texts.{
  has_bit, from_bits, sync_safe, sync_safe_from, id3_text, read_units, read_marked, read_utf8,
  undo_unsync, id3_genre,
}
use harmonia_server.Library.NativeTags.Encodings.{decode_utf8}
use harmonia_server.Library.NativeTags.Id3.{
  frame_names, name_of, add_values, add_own, add_frame, with_text, inflated, text_of, frame_data,
  read_frame, is_none,
}
use harmonia_server.Library.NativeTags.Clean.{TagIsClean, ReadIsClean, add_native_tag-Clean}

-- A value, or an error that Go has.
abbrev pub IsGo {ℓ} : {A : Type ℓ} → TagRead A → Type 0
IsGo (read a) = Unit {0}
IsGo (not_read e) = e ≢ out_of_rounds

pub sync_safe-IsGo : (b : List ℕ) → IsGo (sync_safe b)
unfolding sync_safe from_bits
sync_safe-IsGo b = elim (Bool-cases (not (length b == 4))) [
  | inl short ↦ rw short (λ e. ground arith)
  | inr four ↦ rw four (bits (sync_safe_from 0 b))
]
  where
    bits : (n : Option ℕ) → IsGo (from_bits n)
    bits none = λ e. ground arith
    bits (some n) = tt

read_units-IsGo : (little : Bool) (b : List ℕ) → IsGo (read_units little b)
unfolding read_units
read_units-IsGo little b = elim (Bool-cases (not (length b % 2 == 0))) [
  | inl odd ↦ rw odd (λ e. ground arith)
  | inr even ↦ rw even tt
]

read_marked-IsGo : (b : List ℕ) → IsGo (read_marked b)
unfolding read_marked
read_marked-IsGo b = elim (Bool-cases (ltb (length b) 2)) [
  | inl short ↦ rw short (λ e. ground arith)
  | inr long ↦ elim (Bool-cases (get_or b 0 0 == 255 && get_or b 1 0 == 254)) [
    | inl little ↦ rw (long, little) (read_units-IsGo true (drop 2 b))
    | inr other ↦ elim (Bool-cases (not (get_or b 0 0 == 254) || not (get_or b 1 0 == 255))) [
      | inl unmarked ↦ rw (long, other, unmarked) (λ e. ground arith)
      | inr big ↦ rw (long, other, big) (read_units-IsGo false (drop 2 b))
    ]
  ]
]

read_utf8-IsGo : (text : Option (List ℕ)) → IsGo (read_utf8 text)
unfolding read_utf8
read_utf8-IsGo none = λ e. ground arith
read_utf8-IsGo (some text) = tt

id3_text-IsGo : (b : List ℕ) → IsGo (id3_text b)
unfolding id3_text
id3_text-IsGo [] = λ e. ground arith
id3_text-IsGo (n ∷ b) = elim (Bool-cases (n == 0)) [
  | inl latin ↦ rw latin tt
  | inr e0 ↦ elim (Bool-cases (n == 3)) [
    | inl utf8 ↦ rw (e0, utf8) (read_utf8-IsGo (decode_utf8 b))
    | inr e3 ↦ elim (Bool-cases (n == 1)) [
      | inl marked ↦ rw (e0, e3, marked) (read_marked-IsGo b)
      | inr e1 ↦ elim (Bool-cases (n == 2)) [
        | inl big ↦ rw (e0, e3, e1, big) (read_units-IsGo false b)
        | inr unknown ↦ rw (e0, e3, e1, unknown) (λ e. ground arith)
      ]
    ]
  ]
]

inflated-IsGo : (frame : Option (List ℕ)) → IsGo (inflated frame)
unfolding inflated
inflated-IsGo none = λ e. ground arith
inflated-IsGo (some frame) = elim (Bool-cases (ltb max_native_tags (length frame))) [
  | inl large ↦ rw large (λ e. ground arith)
  | inr fits ↦ rw fits tt
]

text_of-IsGo : (frame : TagRead (List ℕ)) → IsGo frame → IsGo (text_of frame)
unfolding text_of
text_of-IsGo (not_read e) g = g
text_of-IsGo (read frame) g = id3_text-IsGo frame

frame_data-IsGo :
    (inflate : ℕ → List ℕ → Option (List ℕ)) (format : ℕ) (frame : List ℕ)
    → IsGo (frame_data inflate format frame)
unfolding frame_data
frame_data-IsGo inflate format frame =
    let grouped : List ℕ = if has_bit 6 format then drop 1 frame else frame in
    let measured : List ℕ = if has_bit 0 format then drop 4 grouped else grouped in
    elim (Bool-cases (has_bit 6 format && ltb (length frame) 1)) [
      | inl short ↦ rw short (λ e. ground arith)
      | inr group ↦ elim (Bool-cases (has_bit 0 format && ltb (length grouped) 4)) [
        | inl short ↦ rw (group, short) (λ e. ground arith)
        | inr measure ↦ elim (Bool-cases (has_bit 3 format)) [
          | inl packed ↦
              rw (group, measure, packed) (inflated-IsGo (inflate (max_native_tags + 1) measured))
          | inr plain ↦ rw (group, measure, plain) tt
        ]
      ]
    ]

add_values-Clean :
    (lower : ℕ → ℕ) (genre : Bool) (key : List ℕ) (values : List (List ℕ)) (tags : Tags)
    → All TagIsClean tags
    → All TagIsClean (add_values lower genre key values tags)
unfolding add_values
add_values-Clean lower genre key [] tags a = a
add_values-Clean lower genre key (value ∷ values) tags a =
    add_values-Clean lower genre key values _
      (add_native_tag-Clean lower key (if genre then id3_genre value else value) tags a)

add_frame-Clean :
    (lower : ℕ → ℕ) (id : List ℕ) (key : Option (List ℕ)) (values : List (List ℕ)) (tags : Tags)
    → All TagIsClean tags
    → All TagIsClean (add_frame lower id key values tags)
unfolding add_frame add_own
add_frame-Clean lower id none [] tags a = a
add_frame-Clean lower id none (key ∷ []) tags a = a
add_frame-Clean lower id none (key ∷ value ∷ values) tags a =
    add_values-Clean lower false key (value ∷ values) tags a
add_frame-Clean lower id (some key) values tags a =
    add_values-Clean lower (same_runes id (runes "TCON")) key values tags a

with_text-Clean :
    (lower : ℕ → ℕ) (id : List ℕ) (key : Option (List ℕ)) (values : TagRead (List (List ℕ)))
    (tags : Tags)
    → IsGo values
    → All TagIsClean tags
    → ReadIsClean (with_text lower id key values tags)
unfolding with_text
with_text-Clean lower id key (not_read e) tags g a = g
with_text-Clean lower id key (read values) tags g a = add_frame-Clean lower id key values tags a

pub read_frame-Clean :
    (lower : ℕ → ℕ) (inflate : ℕ → List ℕ → Option (List ℕ)) (flags : ℕ) (id : List ℕ) (format : ℕ)
    (frame : List ℕ) (tags : Tags)
    → All TagIsClean tags
    → ReadIsClean (read_frame lower inflate flags id format frame tags)
unfolding read_frame
read_frame-Clean lower inflate flags id format frame tags a =
    let key : Option (List ℕ) = name_of frame_names id in
    let plain : List ℕ = if has_bit 7 flags || has_bit 1 format then undo_unsync frame else frame in
    elim (Bool-cases (is_none key && not (same_runes id (runes "TXXX")))) [
      | inl unknown ↦ rw unknown a
      | inr known ↦ elim (Bool-cases (has_bit 2 format)) [
        | inl encrypted ↦ rw (known, encrypted) (λ e. ground arith)
        | inr readable ↦
            rw (known, readable)
              (with_text-Clean lower id key (text_of (frame_data inflate format plain)) tags
                (text_of-IsGo _ (frame_data-IsGo inflate format plain)) a)
      ]
    ]
