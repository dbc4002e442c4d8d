-- ===== src/Library/NativeTags/Encodings.antt =====
-- The encodings of texts that the tags use: `utf8.Valid` with the code points it accepts, and
-- `utf16.Decode`.
use harmonia_server.Prelude.{
  ℕ, ◌+◌, ◌-◌, ◌*◌, Bool, ◌&&◌, List, [], ◌∷◌, ◌++◌, Option, none, some, if◌then◌else◌, ltb, leb,
  ◌==◌,
}

-- Inside a code point: how many bytes it still needs, what it is so far, and the range of the next byte.
pub record Partial : Type 0 where
  pub needs : ℕ
  pub value : ℕ
  pub low : ℕ
  pub high : ℕ

pub data Utf8Step : Type 0 where
  invalid : Utf8Step
  inside : Partial → Utf8Step
  complete : ℕ → Utf8Step

unfoldable pub first_byte : ℕ → Utf8Step
first_byte a =
    if ltb a 0x80
    then complete a
    else (if leb 0xc2 a && leb a 0xdf
        then inside (record { needs = 1; value = a - 0xc0; low = 0x80; high = 0xbf })
        else (if leb 0xe0 a && leb a 0xef
            then inside (record {
              needs = 2;
              value = a - 0xe0;
              low = if a == 0xe0 then 0xa0 else 0x80;
              high = if a == 0xed then 0x9f else 0xbf;
            })
            else (if leb 0xf0 a && leb a 0xf4
                then inside (record {
                  needs = 3;
                  value = a - 0xf0;
                  low = if a == 0xf0 then 0x90 else 0x80;
                  high = if a == 0xf4 then 0x8f else 0xbf;
                })
                else invalid)))

unfoldable pub later_byte : Partial → ℕ → Utf8Step
later_byte p a =
    let value = p.value * 64 + (a - 0x80) in
    if leb p.low a && leb a p.high
    then (if p.needs == 1
        then complete value
        else inside (record { needs = p.needs - 1; value = value; low = 0x80; high = 0xbf }))
    else invalid

unfoldable pub prepend : ℕ → Option (List ℕ) → Option (List ℕ)
prepend c none = none
prepend c (some s) = some (c ∷ s)

-- The byte after a step; an invalid one has none.
unfoldable pub next_byte : Utf8Step → ℕ → Utf8Step
next_byte invalid a = invalid
next_byte (complete c) a = first_byte a
next_byte (inside p) a = later_byte p a

unfoldable pub put_complete : Utf8Step → Option (List ℕ) → Option (List ℕ)
put_complete (complete c) rest = prepend c rest
put_complete invalid rest = none
put_complete (inside p) rest = rest

unfoldable pub decode_after : Utf8Step → List ℕ → Option (List ℕ)
decode_after invalid [] = none
decode_after (inside p) [] = none
decode_after (complete c) [] = some []
decode_after step (a ∷ b) = put_complete (next_byte step a) (decode_after (next_byte step a) b)

unfoldable pub decode_utf8 : List ℕ → Option (List ℕ)
decode_utf8 [] = some []
decode_utf8 (a ∷ b) = put_complete (first_byte a) (decode_after (first_byte a) b)

unfoldable pub is_high_half : ℕ → Bool
is_high_half v = leb 0xd800 v && ltb v 0xdc00

unfoldable pub is_low_half : ℕ → Bool
is_low_half v = leb 0xdc00 v && ltb v 0xe000

-- A high surrogate waits for its low one; a surrogate alone becomes U+FFFD.
unfoldable pub emitted_alone : ℕ → List ℕ
emitted_alone v = if is_high_half v then [] else (if is_low_half v then 0xfffd ∷ [] else v ∷ [])

unfoldable pub emitted : Option ℕ → ℕ → List ℕ
emitted none v = emitted_alone v
emitted (some h) v =
    if is_low_half v
    then ((h - 0xd800) * 1024 + (v - 0xdc00) + 0x10000) ∷ []
    else 0xfffd ∷ emitted_alone v

unfoldable pub decode_utf16 : Option ℕ → List ℕ → List ℕ
decode_utf16 none [] = []
decode_utf16 (some h) [] = 0xfffd ∷ []
decode_utf16 waiting (v ∷ s) =
    emitted waiting v ++ decode_utf16 (if is_high_half v then some v else none) s
