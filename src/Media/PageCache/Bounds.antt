-- ===== src/Media/PageCache/Bounds.antt =====
-- The bounds of the page cache, and that its bookkeeping stays right.
use harmonia_server.Prelude.{
  ℕ, zero, suc, ◌+◌, ◌-◌, ◌≤◌, ◌≡◌, refl, ap, ◌∙◌, inl, inr, Bool, true, false, not, ◌&&◌, ◌||◌,
  List, [], ◌∷◌, none, some, String, arith, length, length-append, str_eq, eq_iff, eq_refl,
  contains, contains-snoc, Distinct, Distinct-snoc, Bool-cases, Option-cases,
}
use harmonia_server.Media.PageCache.{
  PageEntry, PageCache, find_entry, entry_size, remove_entry, put_entry, page_limit, size_limit,
  too_large, evict_oldest, evict, store_page, add_page,
}

abbrev pub keys : List (String × PageEntry) → List String
keys [] = []
keys ((k, e) ∷ es) = k ∷ keys es

abbrev pub total : List (String × PageEntry) → ℕ
total [] = 0
total ((k, e) ∷ es) = e.size + total es

-- `order` lists the keys of the entries once each, and `size` is the sum of their sizes.
pub record CacheIsWf (c : PageCache) : Type 0 where
  pub once : Distinct c.order
  pub one_each : Distinct (keys c.entries)
  pub same_keys : (a : String) → contains c.order a ≡ contains (keys c.entries) a
  pub same_length : length c.entries ≡ length c.order
  pub sum : c.size ≡ total c.entries

contains-remove_entry :
    (k a : String) (es : List (String × PageEntry))
    → contains (keys (remove_entry k es)) a ≡ (contains (keys es) a && not (str_eq k a))
unfolding contains remove_entry
contains-remove_entry k a [] = refl
contains-remove_entry k a ((x, e) ∷ es) =
    ground (arith, contains-remove_entry k a es, eq_iff x k, eq_iff x a, eq_iff k a)

Distinct-remove_entry :
    (k : String) (es : List (String × PageEntry))
    → Distinct (keys es)
    → Distinct (keys (remove_entry k es))
unfolding remove_entry
Distinct-remove_entry k [] d = tt
Distinct-remove_entry k ((x, e) ∷ es) (new, d) = elim (Bool-cases (str_eq x k)) [
  | inl gone ↦ rw gone (Distinct-remove_entry k es d)
  | inr stays ↦
      rw stays (ground (arith, contains-remove_entry k x es), Distinct-remove_entry k es d)
]

-- Without the key, nothing is removed.
remove_entry_absent :
    (k : String) (es : List (String × PageEntry))
    → contains (keys es) k ≡ false
    → (remove_entry k es ≡ es) × (entry_size k es ≡ 0)
unfolding contains remove_entry entry_size
remove_entry_absent k [] h = (refl, refl)
remove_entry_absent k ((x, e) ∷ es) h = ground (arith, remove_entry_absent k es)

-- With it, one entry is.
remove_entry_present :
    (k : String) (es : List (String × PageEntry))
    → Distinct (keys es)
    → contains (keys es) k ≡ true
    → (length (remove_entry k es) + 1 ≡ length es)
      × (total (remove_entry k es) + entry_size k es ≡ total es)
unfolding contains remove_entry entry_size
remove_entry_present k [] d h = cc
remove_entry_present k ((x, e) ∷ es) (new, d) h = elim (Bool-cases (str_eq x k)) [
  | inl same ↦
      let here : x ≡ k = ground (arith, eq_iff x k) in
      let (rest, none') = remove_entry_absent k es (rw here at new) in
      rw (same, rest) (omega arith, omega arith)
  | inr other ↦
      let (l, t) = remove_entry_present k es d (ground arith) in
      rw other (omega (arith, l), omega (arith, t))
]

-- The oldest key leaves both lists.
left_keys :
    (old a : String) (rest : List String) (es : List (String × PageEntry))
    → Distinct (old ∷ rest)
    → contains (old ∷ rest) a ≡ contains (keys es) a
    → contains rest a ≡ contains (keys (remove_entry old es)) a
unfolding contains
left_keys old a rest es (new, d) h =
    rw (contains-remove_entry old a es) (ground (arith, eq_iff old a))

-- The oldest key names an entry.
oldest_present :
    (old : String) (rest : List String) (es : List (String × PageEntry))
    → contains (old ∷ rest) old ≡ contains (keys es) old
    → contains (keys es) old ≡ true
unfolding contains
oldest_present old rest es h = ground (arith, eq_refl old)

evict_after :
    (c : PageCache) (old : String) (rest : List String)
    → c.order ≡ old ∷ rest
    → CacheIsWf c
    → CacheIsWf (record {
      entries = remove_entry old c.entries;
      order = rest;
      size = c.size - entry_size old c.entries;
    })
evict_after c old rest e w =
    let once : Distinct (old ∷ rest) = rw e at (w.once) in
    let same : (a : String) → contains (old ∷ rest) a ≡ contains (keys c.entries) a =
      λ a. rw e at (w.same_keys a) in
    let (fewer, less) =
      remove_entry_present old c.entries w.one_each
        (oldest_present old rest c.entries (same old)) in
    record {
      once = once.1;
      one_each = Distinct-remove_entry old c.entries w.one_each;
      same_keys = λ a. left_keys old a rest c.entries once (same a);
      same_length = omega (arith, fewer, w.same_length, ap length e);
      sum = omega (arith, less, w.sum);
    }

evict_ordered :
    (c : PageCache) (order : List String)
    → c.order ≡ order
    → CacheIsWf c
    → CacheIsWf (evict_oldest c) × (length (evict_oldest c).order ≡ length c.order - 1)
unfolding evict_oldest
evict_ordered c [] e w = rw (e, evict_oldest) (w, ap length e)
evict_ordered c (old ∷ rest) e w = rw (e, evict_oldest) (evict_after c old rest e w, omega arith)

-- An empty cache is not too large.
empty_total : (es : List (String × PageEntry)) → length es ≡ 0 → total es ≡ 0
empty_total [] h = refl
empty_total (e ∷ es) h = absurd (omega arith)

-- What the loop leaves: right bookkeeping, and both bounds.
pub record IsBounded (a : PageCache × Bool) : Type 0 where
  pub ended : a.1 ≡ true
  pub right : CacheIsWf a.0
  pub few : length a.0.order ≤ page_limit
  pub small : a.0.size ≤ size_limit

evict-IsBounded :
    (fuel : ℕ) (c : PageCache) → length c.order ≤ fuel → CacheIsWf c → IsBounded (evict fuel c)
unfolding evict too_large
evict-IsBounded zero c h w =
    let nothing : total c.entries ≡ 0 = empty_total c.entries (omega (arith, w.same_length)) in
    record {
      ended = ground (arith, w.sum);
      right = w;
      few = omega arith;
      small = omega (arith, w.sum);
    }
evict-IsBounded (suc fuel) c h w = elim (Bool-cases (too_large c)) [
  | inl large ↦
      let (right, less) = evict_ordered c c.order refl w in
      rw large (evict-IsBounded fuel (evict_oldest c) (omega (arith, less)) right)
  | inr fits ↦
      rw fits (record { ended = refl; right = w; few = ground arith; small = ground arith })
]

find_entry_absent :
    (k : String) (es : List (String × PageEntry))
    → find_entry k es ≡ none
    → contains (keys es) k ≡ false
unfolding find_entry contains
find_entry_absent k [] h = refl
find_entry_absent k ((x, e) ∷ es) h = ground (arith, find_entry_absent k es)

find_entry_present :
    (k : String) (es : List (String × PageEntry)) (e : PageEntry)
    → find_entry k es ≡ some e
    → contains (keys es) k ≡ true
unfolding find_entry contains
find_entry_present k [] e h = cc
find_entry_present k ((x, f) ∷ es) e h = ground (arith, find_entry_present k es e)

stored_keys :
    (k a : String) (es : List (String × PageEntry))
    → contains (k ∷ keys (remove_entry k es)) a ≡ (str_eq k a || contains (keys es) a)
unfolding contains
stored_keys k a es = ground (arith, contains-remove_entry k a es)

-- The key itself is not left behind.
removed_key :
    (k : String) (es : List (String × PageEntry)) → contains (keys (remove_entry k es)) k ≡ false
removed_key k es = ground (arith, contains-remove_entry k k es, eq_refl k)

store_page-CacheIsWf :
    (k : String) (e : PageEntry) (c : PageCache) → CacheIsWf c → CacheIsWf (store_page k e c)
unfolding store_page put_entry
store_page-CacheIsWf k e c w = elim (Option-cases (find_entry k c.entries)) [
  | inl absent ↦
      let new : contains (keys c.entries) k ≡ false = find_entry_absent k c.entries absent in
      let (same, nothing) = remove_entry_absent k c.entries new in
      rw absent (record {
        once = Distinct-snoc c.order k w.once (w.same_keys k ∙ new);
        one_each = (removed_key k c.entries, Distinct-remove_entry k c.entries w.one_each);
        same_keys = λ a.
            ground (arith, stored_keys k a c.entries, contains-snoc c.order k a, w.same_keys a);
        same_length = omega (arith, ap length same, length-append c.order (k ∷ []), w.same_length);
        sum = omega (arith, ap total same, nothing, w.sum);
      })
  | inr (old, found) ↦
      let there : contains (keys c.entries) k ≡ true = find_entry_present k c.entries old found in
      let (fewer, less) = remove_entry_present k c.entries w.one_each there in
      rw found (record {
        once = w.once;
        one_each = (removed_key k c.entries, Distinct-remove_entry k c.entries w.one_each);
        same_keys = λ a. ground (arith, stored_keys k a c.entries, w.same_keys a, eq_iff k a);
        same_length = omega (arith, fewer, w.same_length);
        sum = omega (arith, less, w.sum);
      })
]

-- A page that is added leaves at most 120 pages of at most 20 000 000 bytes together, with right
-- bookkeeping: the loop that evicts ends by its condition and never finds the order empty.
pub add_page-IsBounded :
    (key : String) (e : PageEntry) (c : PageCache) → CacheIsWf c → IsBounded (add_page key e c)
unfolding add_page
add_page-IsBounded key e c w =
    evict-IsBounded _ (store_page key e c) (omega arith) (store_page-CacheIsWf key e c w)
