-- ===== src/Media/PageCache.antt =====
-- internal/app/page_cache.go: pages of the library that were built for a revision of it.
pub mod Bounds
pub mod Serves
use harmonia_server.Prelude.{
  ℕ, zero, suc, ◌+◌, ◌-◌, Bool, true, not, ◌||◌, List, [], ◌∷◌, ◌++◌, Option, none, some, String,
  if◌then◌else◌, ltb, length, str_eq,
}

-- `pageEntry`. The data is a text; `size` is its number of bytes.
pub record PageEntry : Type 0 where
  pub revision : String
  pub etag : String
  pub text : String
  pub size : ℕ

-- `pageCache`. The map of entries is a list of its keys and values.
pub record PageCache : Type 0 where
  pub entries : List (String × PageEntry)
  pub order : List String
  pub size : ℕ

unfoldable pub find_entry : String → List (String × PageEntry) → Option PageEntry
find_entry key [] = none
find_entry key ((k, e) ∷ es) = if str_eq k key then some e else find_entry key es

-- The size of an entry, 0 where there is none.
unfoldable pub entry_size : String → List (String × PageEntry) → ℕ
entry_size key [] = 0
entry_size key ((k, e) ∷ es) = if str_eq k key then e.size else entry_size key es

unfoldable pub remove_entry : String → List (String × PageEntry) → List (String × PageEntry)
remove_entry key [] = []
remove_entry key ((k, e) ∷ es) =
    let rest = remove_entry key es in if str_eq k key then rest else (k, e) ∷ rest

-- `a.pages.entries[key] = entry`
unfoldable pub put_entry :
    String → PageEntry → List (String × PageEntry) → List (String × PageEntry)
unfolding remove_entry
put_entry key e es = (key, e) ∷ remove_entry key es

abbrev pub page_limit : ℕ
page_limit = 120

abbrev pub size_limit : ℕ
size_limit = 20000000

unfoldable pub too_large : PageCache → Bool
too_large c = ltb page_limit (length c.order) || ltb size_limit c.size

-- One round of the loop that evicts: the oldest page goes. With no page left Go would panic.
unfoldable pub evict_oldest : PageCache → PageCache
unfolding entry_size remove_entry
evict_oldest c = elim c.order [
  | [] ↦ c
  | old ∷ rest ↦ record {
    entries = remove_entry old c.entries;
    order = rest;
    size = c.size - entry_size old c.entries;
  }
]

-- The loop, on fuel; the flag says that it ended by its condition.
unfoldable pub evict : ℕ → PageCache → PageCache × Bool
unfolding too_large evict_oldest
evict zero c = (c, not (too_large c))
evict (suc fuel) c =
    let rest = evict fuel (evict_oldest c) in if too_large c then rest else (c, true)

unfoldable pub store_page : String → PageEntry → PageCache → PageCache
unfolding find_entry entry_size put_entry
store_page key e c = record {
  entries = put_entry key e c.entries;
  order = elim (find_entry key c.entries) [ some old ↦ c.order | none ↦ c.order ++ (key ∷ []) ];
  size = c.size - entry_size key c.entries + e.size;
}

-- A round takes a page away, so as many rounds as there are pages are enough.
unfoldable pub add_page : String → PageEntry → PageCache → PageCache × Bool
unfolding store_page evict
add_page key e c = let s = store_page key e c in evict (length s.order) s

-- The entry that may be served without building the page again.
unfoldable pub fresh : String → String → PageCache → Option PageEntry
unfolding find_entry
fresh key revision c = elim (find_entry key c.entries) [
  | none ↦ none
  | some e ↦ if str_eq e.revision revision then some e else none
]

pub data PageAnswer : Type 0 where
  not_modified : String → PageAnswer
  page : String → String → PageAnswer
  build_failed : PageAnswer

unfoldable pub answer_page : String → PageEntry → PageAnswer
answer_page if_none_match e =
    if str_eq if_none_match e.etag then not_modified e.etag else page e.etag e.text

-- `servePage`. `build` makes the page of the current state, `sum` is the ETag of a text, and `bytes`
-- its length; they stand for encoding/json and crypto/sha256.
unfoldable pub serve_page :
    Option String
    → (String → String)
    → (String → ℕ)
    → String
    → String
    → String
    → PageCache
    → PageCache × PageAnswer
unfolding fresh add_page answer_page
serve_page build sum bytes key revision if_none_match c = elim (fresh key revision c) [
  | some e ↦ (c, answer_page if_none_match e)
  | none ↦ elim build [
    | none ↦ (c, build_failed)
    | some text ↦
        let e : PageEntry = record {
          revision = revision;
          etag = sum text;
          text = text;
          size = bytes text;
        } in
        ((add_page key e c).0, answer_page if_none_match e)
  ]
]
