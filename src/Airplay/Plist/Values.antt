-- ===== src/Airplay/Plist/Values.antt =====
-- The values of a property list, and how numbers and texts are read from bytes.
use harmonia_server.Prelude.{
  ℕ, suc, ◌+◌, ◌-◌, ◌*◌, ◌/◌, ◌%◌, Bool, true, false, ◌&&◌, ◌||◌, List, [], ◌∷◌, ◌++◌, max,
  if◌then◌else◌, ltb, leb, ◌==◌, length, take, drop,
}

-- What `unplist` returns for `any`. A text is its UTF-8 bytes, a real number its bits.
mutual
  pub data Plist : Type 0 where
    boolean : Bool → Plist
    integer : ℕ → Plist
    real : ℕ → Plist
    blob : List ℕ → Plist
    text : List ℕ → Plist
    array : Items → Plist
    dictionary : Entries → Plist

  pub data Items : Type 0 where
    no_items : Items
    item : Plist → Items → Items

  pub data Entries : Type 0 where
    no_entries : Entries
    entry : List ℕ → Plist → Entries → Entries

-- How many objects a value is made of, keys included.
unfoldable mutual
  pub nodes : Plist → ℕ
  nodes (boolean x) = 1
  nodes (integer n) = 1
  nodes (real n) = 1
  nodes (blob b) = 1
  nodes (text b) = 1
  nodes (array xs) = suc (item_nodes xs)
  nodes (dictionary es) = suc (entry_nodes es)

  pub item_nodes : Items → ℕ
  item_nodes no_items = 0
  item_nodes (item x xs) = nodes x + item_nodes xs

  pub entry_nodes : Entries → ℕ
  entry_nodes no_entries = 0
  entry_nodes (entry k x es) = suc (nodes x + entry_nodes es)

-- How deep it nests.
unfoldable mutual
  pub depth : Plist → ℕ
  depth (boolean x) = 1
  depth (integer n) = 1
  depth (real n) = 1
  depth (blob b) = 1
  depth (text b) = 1
  depth (array xs) = suc (item_depth xs)
  depth (dictionary es) = suc (entry_depth es)

  pub item_depth : Items → ℕ
  item_depth no_items = 0
  item_depth (item x xs) = max (depth x) (item_depth xs)

  pub entry_depth : Entries → ℕ
  entry_depth no_entries = 0
  entry_depth (entry k x es) = max (depth x) (entry_depth es)

pub data PlistError : Type 0 where
  invalid_plist panics : PlistError

pub data Answer {ℓ} (A : Type ℓ) : Type ℓ where
  decoded : A → Answer A
  refused : PlistError → Answer A

unfoldable pub nats_eq : List ℕ → List ℕ → Bool
nats_eq [] [] = true
nats_eq [] (y ∷ ys) = false
nats_eq (x ∷ xs) [] = false
nats_eq (x ∷ xs) (y ∷ ys) = x == y && nats_eq xs ys

-- `b[from:from+count]`
unfoldable pub slice : ℕ → ℕ → List ℕ → Answer (List ℕ)
slice from count b =
    if ltb (length b) (from + count) then refused panics else decoded (take count (drop from b))

-- `v = v<<8 | uint64(c)` over the bytes.
unfoldable pub big_endian : ℕ → List ℕ → ℕ
big_endian v [] = v
big_endian v (c ∷ cs) = big_endian (v * 256 + c) cs

unfoldable pub big_number : Answer (List ℕ) → Answer ℕ
big_number (decoded b) = decoded (big_endian 0 b)
big_number (refused e) = refused e

-- `binary.BigEndian.Uint64(b[at:])`, inside the message.
unfoldable pub big_at : ℕ → List ℕ → ℕ
big_at offset b = big_endian 0 (take 8 (drop offset b))

-- `read`
unfoldable pub read_number : ℕ → ℕ → List ℕ → Answer ℕ
read_number offset size b =
    if ltb size 1 || ltb 8 size || ltb (length b) offset || ltb (length b - offset) size
    then refused invalid_plist
    else big_number (slice offset size b)

-- `utf8.AppendRune`, for the runes that `utf16.Decode` gives.
unfoldable pub encode_rune : ℕ → List ℕ
encode_rune r =
    if ltb r 0x80
    then r ∷ []
    else (if ltb r 0x800
        then (0xc0 + r / 64) ∷ (0x80 + r % 64) ∷ []
        else (if ltb r 0x10000
            then (0xe0 + r / 4096) ∷ (0x80 + r / 64 % 64) ∷ (0x80 + r % 64) ∷ []
            else (0xf0 + r / 262144)
              ∷ (0x80 + r / 4096 % 64)
              ∷ (0x80 + r / 64 % 64)
              ∷ (0x80 + r % 64)
              ∷ []))

unfoldable pub is_high : ℕ → Bool
is_high u = leb 0xd800 u && ltb u 0xdc00

unfoldable pub is_low : ℕ → Bool
is_low u = leb 0xdc00 u && ltb u 0xe000

-- A unit that is no half of a pair; a lone half becomes U+FFFD.
unfoldable pub lone_unit : ℕ → List ℕ
lone_unit u = encode_rune (if is_high u || is_low u then 0xfffd else u)

-- `string(utf16.Decode(u))`
unfoldable pub decode_units : List ℕ → List ℕ
decode_units [] = []
decode_units (u ∷ []) = lone_unit u
decode_units (u ∷ l ∷ us) =
    let pair = decode_units us in
    let single = decode_units (l ∷ us) in
    if is_high u && is_low l
    then encode_rune ((u - 0xd800) * 1024 + (l - 0xdc00) + 0x10000) ++ pair
    else lone_unit u ++ single

-- `binary.BigEndian.Uint16` over the raw bytes.
unfoldable pub units : List ℕ → List ℕ
units [] = []
units (hi ∷ []) = []
units (hi ∷ lo ∷ b) = (hi * 256 + lo) ∷ units b
