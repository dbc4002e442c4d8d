-- ===== src/Airplay/Metadata/Listing.antt =====
-- A reader of DMAP gets the fields of a track back.
use harmonia_server.Prelude.{
  ℕ, zero, suc, ◌+◌, ◌*◌, ◌/◌, ◌%◌, ◌<◌, ◌≡◌, refl, sym, ap, ◌∙◌, List, [], ◌∷◌, ◌++◌, All, arith,
  length, take, drop, append_assoc, Option, none, some, ℤ, if◌then◌else◌, ltb, min, append-nil,
  Bool-cases, inl, inr, false, length-append, take-append, drop-append,
}
use harmonia_server.Prelude.Runes.{runes}
use harmonia_server.Airplay.Dns.{put_16}
use harmonia_server.Airplay.Clock.{put_big}
use harmonia_server.Airplay.Metadata.{
  TrackMetadata, dmap_item, at_least_zero, text_items, number_items, id_items, duration_item,
  track_dmap,
}

abbrev with_item :
    List ℕ → List ℕ → Option (List (List ℕ × List ℕ)) → Option (List (List ℕ × List ℕ))
with_item tag value none = none
with_item tag value (some items) = some ((tag, value) ∷ items)

-- A reader of items: a tag of four bytes, the size in four, and the value.
abbrev pub read_items : ℕ → List ℕ → Option (List (List ℕ × List ℕ))
read_items zero s = none
read_items (suc fuel) [] = some []
read_items (suc fuel) (t0 ∷ t1 ∷ t2 ∷ t3 ∷ a ∷ b ∷ c ∷ d ∷ s) =
    let n = a * 16777216 + b * 65536 + c * 256 + d in
    let rest = read_items fuel (drop n s) in
    if ltb (length s) n then none else with_item (t0 ∷ t1 ∷ t2 ∷ t3 ∷ []) (take n s) rest
read_items (suc fuel) s = none

whole_value : (xs ys : List ℕ) → ltb (length (xs ++ ys)) (length xs) ≡ false
whole_value xs ys = rw (length-append xs ys) (ground arith)

read_items-dmap_item :
    (fuel t0 t1 t2 t3 : ℕ) (value rest : List ℕ)
    → length value < 4294967296
    → read_items (suc fuel) (dmap_item (t0 ∷ t1 ∷ t2 ∷ t3 ∷ []) value ++ rest)
      ≡ with_item (t0 ∷ t1 ∷ t2 ∷ t3 ∷ []) value (read_items fuel rest)
unfolding dmap_item put_big
read_items-dmap_item fuel t0 t1 t2 t3 value rest h =
    let n : ℕ = length value in
    let size : n / 16777216 % 256 * 16777216
          + n / 65536 % 256 * 65536
          + n / 256 % 256 * 256
          + n / 1 % 256
        ≡ n =
      omega arith in
    rw (size, whole_value value rest, drop-append value rest, take-append value rest) refl

-- A field whose tag has four bytes and whose size fits in four.
abbrev IsField : List ℕ × List ℕ → Type 0
IsField (tag, value) = (length tag ≡ 4) × (length value < 4294967296)

read_items-text_items :
    (fields : List (List ℕ × List ℕ))
    → All IsField fields
    → read_items (suc (length fields)) (text_items fields) ≡ some fields
unfolding text_items
read_items-text_items [] h = refl
read_items-text_items ((t0 ∷ t1 ∷ t2 ∷ t3 ∷ [], value) ∷ fields) h =
    read_items-dmap_item (suc (length fields)) t0 t1 t2 t3 value (text_items fields) h.0.1
    ∙ rw (read_items-text_items fields h.1) refl
read_items-text_items (([], value) ∷ fields) h = absurd (omega arith)
read_items-text_items ((a ∷ [], value) ∷ fields) h = absurd (omega arith)
read_items-text_items ((a ∷ b ∷ [], value) ∷ fields) h = absurd (omega arith)
read_items-text_items ((a ∷ b ∷ c ∷ [], value) ∷ fields) h = absurd (omega arith)
read_items-text_items ((a ∷ b ∷ c ∷ d ∷ e ∷ tag, value) ∷ fields) h = absurd (omega arith)

abbrev id_fields : (List ℕ → List ℕ) → List ℕ → List (List ℕ × List ℕ)
id_fields digest [] = []
id_fields digest (c ∷ id) =
    (runes "mper", take 8 (digest (c ∷ id))) ∷ (runes "miid", take 4 (digest (c ∷ id))) ∷ []

abbrev duration_fields : ℕ → List (List ℕ × List ℕ)
duration_fields time =
    if ltb 0 time then (runes "astm", put_big 4 (min (time / 1000000) 4294967295)) ∷ [] else []

-- The fields of a listing in their order.
abbrev pub track_fields : (List ℕ → List ℕ) → TrackMetadata → List (List ℕ × List ℕ)
track_fields digest t =
    (runes "mikd", 2 ∷ [])
    ∷ (runes "asdk", 0 ∷ [])
    ∷ (runes "asac", put_16 (if t.has_artwork then 1 else 0))
    ∷ (runes "minm", t.title)
    ∷ (runes "asar", t.artist)
    ∷ (runes "asal", t.album)
    ∷ (runes "asaa", t.album_artist)
    ∷ (id_fields digest t.id
        ++ ((runes "astn", put_16 (min (at_least_zero t.number) 65535))
            ∷ (runes "asdn", put_16 (min (at_least_zero t.disc) 65535))
            ∷ duration_fields (at_least_zero t.duration)))

text_items-append :
    (xs ys : List (List ℕ × List ℕ)) → text_items (xs ++ ys) ≡ text_items xs ++ text_items ys
unfolding text_items
text_items-append [] ys = refl
text_items-append ((tag, value) ∷ xs) ys =
    ap (λ s. dmap_item tag value ++ s) (text_items-append xs ys)
    ∙ sym (append_assoc (dmap_item tag value) (text_items xs) (text_items ys))

id_items-text_items :
    (digest : List ℕ → List ℕ) (id : List ℕ) → id_items digest id ≡ text_items (id_fields digest id)
unfolding id_items text_items
id_items-text_items digest [] = refl
id_items-text_items digest (c ∷ id) =
    ap (λ s. dmap_item (runes "mper") (take 8 (digest (c ∷ id))) ++ s) (sym (append-nil _))

duration_item-text_items : (time : ℕ) → duration_item time ≡ text_items (duration_fields time)
unfolding duration_item text_items
duration_item-text_items time = elim (Bool-cases (ltb 0 time)) [
  | inl long ↦ rw long (sym (append-nil _))
  | inr short ↦ rw short refl
]

module _ (digest : List ℕ → List ℕ) (t : TrackMetadata) where
  abbrev number_fields : List (List ℕ × List ℕ)
  number_fields =
      (runes "astn", put_16 (min (at_least_zero t.number) 65535))
      ∷ (runes "asdn", put_16 (min (at_least_zero t.disc) 65535))
      ∷ duration_fields (at_least_zero t.duration)

  abbrev own_fields : List (List ℕ × List ℕ)
  own_fields =
      (runes "minm", t.title)
      ∷ (runes "asar", t.artist)
      ∷ (runes "asal", t.album)
      ∷ (runes "asaa", t.album_artist)
      ∷ []

  abbrev both_numbers : List (List ℕ × ℤ)
  both_numbers = (runes "astn", t.number) ∷ (runes "asdn", t.disc) ∷ []

  number_items-text_items :
      number_items both_numbers ++ duration_item (at_least_zero t.duration)
      ≡ text_items number_fields
  unfolding number_items text_items dmap_item put_big put_16
  number_items-text_items =
      ap (λ d. number_items both_numbers ++ d) (duration_item-text_items (at_least_zero t.duration))

  last_items-text_items :
      id_items digest t.id
        ++ (number_items both_numbers ++ duration_item (at_least_zero t.duration))
      ≡ text_items (id_fields digest t.id ++ number_fields)
  last_items-text_items =
      rw (id_items-text_items digest t.id, number_items-text_items)
        (sym (text_items-append (id_fields digest t.id) number_fields))

  track_dmap-track_fields :
      track_dmap digest t ≡ dmap_item (runes "mlit") (text_items (track_fields digest t))
  unfolding track_dmap text_items
  track_dmap-track_fields =
      ap
        (λ x. dmap_item (runes "mlit") (
          dmap_item (runes "mikd") (2 ∷ [])
          ++ (dmap_item (runes "asdk") (0 ∷ [])
              ++ (dmap_item (runes "asac") (put_16 (if t.has_artwork then 1 else 0)) ++ x))))
        (ap (λ z. text_items own_fields ++ z) last_items-text_items
          ∙ sym (text_items-append own_fields (id_fields digest t.id ++ number_fields)))

abbrev HasTag : List ℕ × List ℕ → Type 0
HasTag (tag, value) = length tag ≡ 4

length-dmap_item :
    (tag value rest : List ℕ)
    → length (dmap_item tag value ++ rest) ≡ length tag + (4 + length value) + length rest
unfolding dmap_item put_big
length-dmap_item tag value rest =
    length-append (dmap_item tag value) rest
    ∙ rw (length-append tag (put_big 4 (length value) ++ value)) (omega arith)

text_items-IsField :
    (fields : List (List ℕ × List ℕ))
    → All HasTag fields
    → length (text_items fields) < 4294967296
    → All IsField fields
unfolding text_items
text_items-IsField [] a h = tt
text_items-IsField ((tag, value) ∷ fields) a h =
    let size : length (text_items ((tag, value) ∷ fields))
        ≡ length tag + (4 + length value) + length (text_items fields) =
      length-dmap_item tag value (text_items fields) in
    ((a.0, omega arith), text_items-IsField fields a.1 (omega arith))

duration_fields-HasTag : (time : ℕ) → All HasTag (duration_fields time)
duration_fields-HasTag time = elim (Bool-cases (ltb 0 time)) [
  | inl long ↦ rw long (refl, tt)
  | inr short ↦ rw short tt
]

id_fields-HasTag :
    (digest : List ℕ → List ℕ) (id : List ℕ) (fields : List (List ℕ × List ℕ))
    → All HasTag fields
    → All HasTag (id_fields digest id ++ fields)
id_fields-HasTag digest [] fields a = a
id_fields-HasTag digest (c ∷ id) fields a = (refl, (refl, a))

track_fields-HasTag :
    (digest : List ℕ → List ℕ) (t : TrackMetadata) → All HasTag (track_fields digest t)
track_fields-HasTag digest t = (
  refl,
  (
    refl,
    (
      refl,
      (
        refl,
        (
          refl,
          (
            refl,
            (
              refl,
              id_fields-HasTag digest t.id _
                  (refl, (refl, duration_fields-HasTag (at_least_zero t.duration))),
            ),
          ),
        ),
      ),
    ),
  ),
)

abbrev listed : ℕ → Option (List (List ℕ × List ℕ)) → Option (List (List ℕ × List ℕ))
listed fuel (some ((tag, body) ∷ [])) = read_items fuel body
listed fuel items = none

-- A reader of a listing: one item, and the items in it.
abbrev pub read_listing : ℕ → List ℕ → Option (List (List ℕ × List ℕ))
read_listing fuel b = listed fuel (read_items 2 b)

-- If a listing is shorter than 2 ^ 32 bytes, a reader of DMAP gets all fields of the track back, in their order: the
-- kinds, whether there is artwork, the texts as they are, the digests of an identifier that is not empty, the numbers
-- brought into 16 bits, and a duration that is not 0 in milliseconds.
pub read_listing-track_dmap :
    (digest : List ℕ → List ℕ) (t : TrackMetadata)
    → length (track_dmap digest t) < 4294967296
    → read_listing (suc (length (track_fields digest t))) (track_dmap digest t)
      ≡ some (track_fields digest t)
read_listing-track_dmap digest t h =
    let fields : List (List ℕ × List ℕ) = track_fields digest t in
    let body : List ℕ = text_items fields in
    let whole : track_dmap digest t ≡ dmap_item (runes "mlit") body ++ [] =
      track_dmap-track_fields digest t ∙ sym (append-nil _) in
    let size : length (track_dmap digest t) ≡ 8 + length body =
      ap length whole ∙ (length-dmap_item (runes "mlit") body [] ∙ omega arith) in
    let outer : read_items 2 (dmap_item (runes "mlit") body ++ [])
        ≡ some ((runes "mlit", body) ∷ []) =
      read_items-dmap_item 1 109 108 105 116 body [] (omega arith) in
    ap (read_listing (suc (length fields))) whole
    ∙ (ap (listed (suc (length fields))) outer
        ∙ read_items-text_items fields
            (text_items-IsField fields (track_fields-HasTag digest t) (omega arith)))
