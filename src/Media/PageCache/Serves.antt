-- ===== src/Media/PageCache/Serves.antt =====
-- The cache is transparent: what is served is the page that would be built.
use harmonia_server.Prelude.{
  ℕ, zero, suc, ◌≡◌, refl, ap, ◌⊎◌, inl, inr, List, [], ◌∷◌, some, String, arith, str_eq, eq_iff,
  Bool-cases, Option-cases,
}
use harmonia_server.Media.PageCache.{
  PageEntry, PageCache, find_entry, remove_entry, put_entry, too_large, evict_oldest, evict,
  store_page, add_page, fresh, PageAnswer, not_modified, page, answer_page, serve_page,
}

-- `pages key revision` is the text of a page of one revision of the library. Each entry holds the text
-- of its key and revision, and that text's ETag.
abbrev pub Holds :
    (String → String → String) → (String → String) → List (String × PageEntry) → Type 0
Holds pages sum [] = Unit {0}
Holds pages sum ((k, e) ∷ es) =
    (e.text ≡ pages k e.revision) × (e.etag ≡ sum e.text) × Holds pages sum es

remove_entry-Holds :
    (pages : String → String → String) (sum : String → String) (k : String)
    (es : List (String × PageEntry))
    → Holds pages sum es
    → Holds pages sum (remove_entry k es)
unfolding remove_entry
remove_entry-Holds pages sum k [] h = tt
remove_entry-Holds pages sum k ((x, e) ∷ es) (t, g, h) = elim (Bool-cases (str_eq x k)) [
  | inl gone ↦ rw gone (remove_entry-Holds pages sum k es h)
  | inr stays ↦ rw stays (t, g, remove_entry-Holds pages sum k es h)
]

evict_ordered-Holds :
    (pages : String → String → String) (sum : String → String) (c : PageCache) (order : List String)
    → c.order ≡ order
    → Holds pages sum c.entries
    → Holds pages sum (evict_oldest c).entries
unfolding evict_oldest
evict_ordered-Holds pages sum c [] e h = rw (e, evict_oldest) h
evict_ordered-Holds pages sum c (old ∷ rest) e h =
    rw (e, evict_oldest) (remove_entry-Holds pages sum old c.entries h)

evict-Holds :
    (pages : String → String → String) (sum : String → String) (fuel : ℕ) (c : PageCache)
    → Holds pages sum c.entries
    → Holds pages sum (evict fuel c).0.entries
unfolding evict
evict-Holds pages sum zero c h = h
evict-Holds pages sum (suc fuel) c h = elim (Bool-cases (too_large c)) [
  | inl large ↦
      rw large (
        evict-Holds pages sum fuel (evict_oldest c)
          (evict_ordered-Holds pages sum c c.order refl h))
  | inr fits ↦ rw fits h
]

add_page-Holds :
    (pages : String → String → String) (sum : String → String) (key : String) (e : PageEntry)
    (c : PageCache)
    → e.text ≡ pages key e.revision
    → e.etag ≡ sum e.text
    → Holds pages sum c.entries
    → Holds pages sum (add_page key e c).0.entries
unfolding add_page store_page put_entry
add_page-Holds pages sum key e c t g h =
    evict-Holds pages sum _ (store_page key e c)
      (t, g, remove_entry-Holds pages sum key c.entries h)

find_entry-Holds :
    (pages : String → String → String) (sum : String → String) (key : String)
    (es : List (String × PageEntry)) (e : PageEntry)
    → Holds pages sum es
    → find_entry key es ≡ some e
    → (e.text ≡ pages key e.revision) × (e.etag ≡ sum e.text)
unfolding find_entry
find_entry-Holds pages sum key [] e h f = cc
find_entry-Holds pages sum key ((k, x) ∷ es) e (t, g, h) f =
    ground (arith, eq_iff k key, find_entry-Holds pages sum key es e h)

fresh-Holds :
    (pages : String → String → String) (sum : String → String) (key revision : String)
    (c : PageCache) (e : PageEntry)
    → Holds pages sum c.entries
    → fresh key revision c ≡ some e
    → (e.text ≡ pages key revision) × (e.etag ≡ sum (pages key revision))
unfolding fresh
fresh-Holds pages sum key revision c e h f = elim (Option-cases (find_entry key c.entries)) [
  | inl absent ↦ absurd (ground arith)
  | inr (x, found) ↦
      ground (arith, eq_iff x.revision revision, find_entry-Holds pages sum key c.entries x h found)
]

-- The answer to a request for a page: the page and its ETag, or that the client has it already.
abbrev pub Current : String → String → PageAnswer → Type 0
Current text etag a = (a ≡ page etag text) ⊎ (a ≡ not_modified etag)

answer_page-Current :
    (if_none_match text etag : String) (e : PageEntry)
    → e.text ≡ text
    → e.etag ≡ etag
    → Current text etag (answer_page if_none_match e)
unfolding answer_page
answer_page-Current if_none_match text etag e t g =
    elim (Bool-cases (str_eq if_none_match e.etag)) [
      | inl known ↦ rw known (inr (ap not_modified g))
      | inr new ↦ rw (new, t, g) (inl refl)
    ]

-- Whether the page was cached or not, the answer is the page of the current revision of the library,
-- or that the client has just that page; and the cache goes on holding pages of the revisions it
-- names. This is for a cache that holds such pages, and a page that can be built.
pub serve_page-Current :
    (pages : String → String → String) (sum : String → String) (bytes : String → ℕ)
    (key revision if_none_match : String) (c : PageCache)
    → Holds pages sum c.entries
    → Current
        (pages key revision)
        (sum (pages key revision))
        (serve_page (some (pages key revision)) sum bytes key revision if_none_match c).1
      × Holds pages sum
          (serve_page (some (pages key revision)) sum bytes key revision if_none_match c).0.entries
unfolding serve_page
serve_page-Current pages sum bytes key revision if_none_match c h =
    elim (Option-cases (fresh key revision c)) [
      | inr (e, f) ↦
          let (t, g) = fresh-Holds pages sum key revision c e h f in
          rw (f, serve_page) (answer_page-Current if_none_match _ _ e t g, h)
      | inl stale ↦
          let e : PageEntry = record {
            revision = revision;
            etag = sum (pages key revision);
            text = pages key revision;
            size = bytes (pages key revision);
          } in
          rw (stale, serve_page)
            (
              answer_page-Current if_none_match _ _ e refl refl,
              add_page-Holds pages sum key e c refl refl h,
            )
    ]
