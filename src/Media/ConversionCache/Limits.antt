-- ===== src/Media/ConversionCache/Limits.antt =====
-- What trimming leaves, and that a file is kept only where there is room for it.
use harmonia_server.Prelude.{
  ℕ, ◌+◌, ◌-◌, ◌≤◌, ◌≡◌, refl, sym, ap, ◌∙◌, inl, inr, Bool, true, false, not, ◌||◌, ◌&&◌, List, [],
  ◌∷◌, none, some, String, arith, if◌then◌else◌, ltb, leb, str_eq, eq_iff, Bool-cases, Option-cases,
}
use harmonia_server.Media.ConversionCache.{
  CacheEntry, CacheEntries, ConversionCache, find_file, put_file, drop_entry, total_size,
  insert_key, sorted_keys, trim_entry, trim_keys, trim_locked, Acquired, kept, temporary,
  converting, rename_failed, is_active, is_waiting, store_file, place_file, acquire_end,
}
use harmonia_server.Media.ConversionCache.Held.{HasKeysOnce, has_key, drop_entry-HasKeysOnce}

drop_entry-missing :
    (key : String) (es : CacheEntries)
    → has_key key es ≡ false
    → total_size (drop_entry key es) ≡ total_size es
unfolding drop_entry total_size
drop_entry-missing key [] n = refl
drop_entry-missing key ((k, e) ∷ es) n = ground (arith, drop_entry-missing key es)

total_size-drop_entry :
    (key : String) (e : CacheEntry) (es : CacheEntries)
    → HasKeysOnce es
    → find_file key es ≡ some e
    → total_size (drop_entry key es) + e.size ≡ total_size es
unfolding drop_entry total_size find_file
total_size-drop_entry key e [] o f = cc
total_size-drop_entry key e ((k, old) ∷ es) o f = elim (Bool-cases (str_eq k key)) [
  | inl same ↦
      let it : k ≡ key = ground (arith, eq_iff k key) in
      let one : old ≡ e = ground arith in
      let n : has_key key es ≡ false = ap (λ x. has_key x es) (sym it) ∙ o.0 in
      rw (same, one) (omega (arith, drop_entry-missing key es n))
  | inr other ↦
      let f2 : find_file key es ≡ some e = ground arith in
      rw other (omega (arith, total_size-drop_entry key e es o.1 f2))
]

find_file-drop_entry :
    (key gone : String) (es : CacheEntries)
    → find_file key (drop_entry gone es) ≡ (if str_eq gone key then none else find_file key es)
unfolding drop_entry find_file
find_file-drop_entry key gone [] = ground arith
find_file-drop_entry key gone ((k, old) ∷ es) =
    ground (arith, eq_iff k gone, eq_iff k key, eq_iff gone key, find_file-drop_entry key gone es)

abbrev in_keys : String → List (String × ℕ) → Bool
in_keys key [] = false
in_keys key ((k, u) ∷ ks) = str_eq k key || in_keys key ks

in_keys-insert_key :
    (key k : String) (u : ℕ) (ks : List (String × ℕ))
    → in_keys key (insert_key k u ks) ≡ (str_eq k key || in_keys key ks)
unfolding insert_key
in_keys-insert_key key k u [] = refl
in_keys-insert_key key k u ((l, v) ∷ ks) = ground (arith, in_keys-insert_key key k u ks)

in_keys-sorted_keys :
    (key : String) (e : CacheEntry) (es : CacheEntries)
    → find_file key es ≡ some e
    → in_keys key (sorted_keys es) ≡ true
unfolding sorted_keys find_file
in_keys-sorted_keys key e [] f = cc
in_keys-sorted_keys key e ((k, old) ∷ es) f =
    ground (arith, in_keys-insert_key key k old.used (sorted_keys es), in_keys-sorted_keys key e es)

-- In use, or neither to be thrown away nor in the way of others.
abbrev pub may_stay : ℕ → ℕ → CacheEntry → Bool
may_stay limit used e = ltb 0 e.active || (not e.pending && leb used limit)

-- The running total is right, and the entries that are not to be looked at any more may stay.
record Settled (limit : ℕ) (ks : List (String × ℕ)) (state : ℕ × CacheEntries) : Type 0 where
  once : HasKeysOnce state.1
  total : state.0 ≡ total_size state.1
  settled :
      (key : String) (e : CacheEntry)
      → find_file key state.1 ≡ some e
      → (in_keys key ks || may_stay limit state.0 e) ≡ true

trim_entry-Settled :
    (removes : String → Bool) (limit : ℕ) (k : String) (u : ℕ) (ks : List (String × ℕ)) (used : ℕ)
    (es : CacheEntries)
    → ((path : String) → removes path ≡ true)
    → Settled limit ((k, u) ∷ ks) (used, es)
    → Settled limit ks (trim_entry removes limit k (find_file k es) (used, es))
unfolding trim_entry
trim_entry-Settled removes limit k u ks used es all s = elim (Option-cases (find_file k es)) [
  | inl missing ↦ rw missing (record {
    once = s.once;
    total = s.total;
    settled = λ key e f. ground (arith, eq_iff k key, missing, s.settled key e f);
  })
  | inr (old, found) ↦
      elim (Bool-cases
        ((old.pending || ltb limit used) && not (ltb 0 old.active) && removes old.path)) [
          | inr stays ↦
              rw (found, stays)
                (record {
                  once = s.once;
                  total = s.total;
                  settled = λ key e f.
                      ground (arith, eq_iff k key, found, stays, all old.path, s.settled key e f);
                })
          | inl goes ↦
              rw (found, goes)
                (record {
                  once = drop_entry-HasKeysOnce k es s.once;
                  total = omega (arith, s.total, total_size-drop_entry k old es s.once found);
                  settled = λ key e f.
                      ground (arith, eq_iff k key, find_file-drop_entry key k es, s.settled key e);
                })
        ]
]

trim_keys-Settled :
    (removes : String → Bool) (limit : ℕ) (ks : List (String × ℕ)) (used : ℕ) (es : CacheEntries)
    → ((path : String) → removes path ≡ true)
    → Settled limit ks (used, es)
    → Settled limit [] (trim_keys removes limit ks (used, es))
unfolding trim_keys
trim_keys-Settled removes limit [] used es all s = s
trim_keys-Settled removes limit ((k, u) ∷ ks) used es all s =
    let one : ℕ × CacheEntries = trim_entry removes limit k (find_file k es) (used, es) in
    trim_keys-Settled removes limit ks one.0 one.1 all
      (trim_entry-Settled removes limit k u ks used es all s)

-- If no removal fails, what trimming leaves is in use, or else is not to be thrown away and the whole is within
-- the limit.
pub trim_locked-may_stay :
    (removes : String → Bool) (limit : ℕ) (c : ConversionCache)
    → HasKeysOnce c.entries
    → ((path : String) → removes path ≡ true)
    → (key : String) (e : CacheEntry) → find_file key (trim_locked removes limit c).entries ≡ some e
    → may_stay limit (total_size (trim_locked removes limit c).entries) e ≡ true
unfolding trim_locked
trim_locked-may_stay removes limit c once all key e f =
    let ks : List (String × ℕ) = sorted_keys c.entries in
    let start : Settled limit ks (total_size c.entries, c.entries) = record {
      once = once;
      total = refl;
      settled = λ k d g. ground (arith, in_keys-sorted_keys k d c.entries g);
    } in
    let s : Settled limit [] (trim_keys removes limit ks (total_size c.entries, c.entries)) =
      trim_keys-Settled removes limit ks (total_size c.entries) c.entries all start in
    ap (λ n. may_stay limit n e) (sym s.total) ∙ s.settled key e f

total_size-put_file :
    (key : String) (e : CacheEntry) (es : CacheEntries)
    → total_size (put_file key e es) ≤ total_size es + e.size
unfolding put_file total_size
total_size-put_file key e [] = omega arith
total_size-put_file key e ((k, old) ∷ es) = ground (arith, total_size-put_file key e es)

-- If the caller gets a file of the cache, the cache is within its limit.
abbrev pub Fits : ℕ → ConversionCache × Acquired → Type 0
Fits limit (c, kept path) = total_size c.entries ≤ limit
Fits limit (c, temporary) = Unit {0}
Fits limit (c, converting) = Unit {0}
Fits limit (c, rename_failed) = Unit {0}

place_file-Fits :
    (renames : Bool) (final key job : String) (size limit now : ℕ) (c : ConversionCache)
    → Fits limit (place_file renames final key job size limit now c)
unfolding place_file store_file
place_file-Fits renames final key job size limit now c =
    let e : CacheEntry = record {
      path = final;
      size = size;
      used = now;
      active = 1;
      pending = false;
    } in
    elim (Bool-cases (ltb limit (total_size c.entries + size) || is_waiting job c.jobs)) [
      | inl full ↦ rw full tt
      | inr room ↦ elim (Bool-cases (is_active (find_file key c.entries))) [
        | inl busy ↦ rw (room, busy) tt
        | inr free ↦ elim (Bool-cases renames) [
          | inl done ↦ rw (room, free, done) (ground (arith, total_size-put_file key e c.entries))
          | inr failed ↦ rw (room, free, failed) tt
        ]
      ]
    ]

-- A converted file is only kept in the cache where all files together are within the limit, whether or not the
-- removals succeed.
pub acquire_end-Fits :
    (removes : String → Bool) (renames : Bool) (final key job : String) (size limit now : ℕ)
    (c : ConversionCache)
    → Fits limit (acquire_end removes renames final key job size limit now c)
unfolding acquire_end
acquire_end-Fits removes renames final key job size limit now c =
    place_file-Fits renames final key job size limit now (trim_locked removes (limit - size) c)
