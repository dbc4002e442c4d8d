-- ===== src/Media/ConversionCache/Held.antt =====
-- The callers that hold a file of the cache: what is counted for an entry, and that a held file stays.
use harmonia_server.Prelude.{
  ℕ, ◌≡◌, refl, ◌∙◌, inl, inr, Bool, false, not, ◌||◌, ◌&&◌, List, [], ◌∷◌, none, some, String,
  arith, if◌then◌else◌, ltb, str_eq, eq_iff, Bool-cases, Option-cases,
}
use harmonia_server.Media.ConversionCache.{
  CacheEntry, CacheEntries, ConversionCache, find_file, put_file, drop_entry, total_size,
  sorted_keys, trim_entry, trim_keys, trim_locked, all_pending,
}

-- What an entry counts; nothing where there is none.
abbrev pub active_of : String → CacheEntries → ℕ
active_of key [] = 0
active_of key ((k, e) ∷ es) = if str_eq k key then e.active else active_of key es

pub active_of-find :
    (key : String) (es : CacheEntries) (e : CacheEntry)
    → find_file key es ≡ some e
    → active_of key es ≡ e.active
unfolding find_file
active_of-find key [] e f = cc
active_of-find key ((k, old) ∷ es) e f = ground (arith, active_of-find key es e)

pub active_of-missing :
    (key : String) (es : CacheEntries) → find_file key es ≡ none → active_of key es ≡ 0
unfolding find_file
active_of-missing key [] f = refl
active_of-missing key ((k, old) ∷ es) f = ground (arith, active_of-missing key es)

pub active_of-put_file :
    (key at_key : String) (e : CacheEntry) (es : CacheEntries)
    → active_of key (put_file at_key e es)
      ≡ (if str_eq at_key key then e.active else active_of key es)
unfolding put_file
active_of-put_file key at_key e [] = refl
active_of-put_file key at_key e ((k, old) ∷ es) =
    ground
      (arith, eq_iff k at_key, eq_iff k key, eq_iff at_key key, active_of-put_file key at_key e es)

-- No key twice.
abbrev pub has_key : String → CacheEntries → Bool
has_key key [] = false
has_key key ((k, e) ∷ es) = str_eq k key || has_key key es

abbrev pub HasKeysOnce : CacheEntries → Type 0
HasKeysOnce [] = Unit {0}
HasKeysOnce ((k, e) ∷ es) = (has_key k es ≡ false) × HasKeysOnce es

active_of-no_key :
    (key : String) (es : CacheEntries) → has_key key es ≡ false → active_of key es ≡ 0
active_of-no_key key [] n = refl
active_of-no_key key ((k, e) ∷ es) n = ground (arith, active_of-no_key key es)

active_of-drop_entry :
    (key gone : String) (es : CacheEntries)
    → HasKeysOnce es
    → active_of gone es ≡ 0
    → active_of key (drop_entry gone es) ≡ active_of key es
unfolding drop_entry
active_of-drop_entry key gone [] o z = refl
active_of-drop_entry key gone ((k, e) ∷ es) o z = ground (
  arith,
  o.0,
  eq_iff k gone,
  eq_iff k key,
  eq_iff gone key,
  active_of-no_key k es,
  active_of-drop_entry key gone es o.1,
)

has_key-drop_entry :
    (key gone : String) (es : CacheEntries)
    → has_key key es ≡ false
    → has_key key (drop_entry gone es) ≡ false
unfolding drop_entry
has_key-drop_entry key gone [] n = refl
has_key-drop_entry key gone ((k, e) ∷ es) n = ground (arith, has_key-drop_entry key gone es)

pub drop_entry-HasKeysOnce :
    (gone : String) (es : CacheEntries) → HasKeysOnce es → HasKeysOnce (drop_entry gone es)
unfolding drop_entry
drop_entry-HasKeysOnce gone [] o = tt
drop_entry-HasKeysOnce gone ((k, e) ∷ es) o = elim (Bool-cases (str_eq k gone)) [
  | inl same ↦ rw same (drop_entry-HasKeysOnce gone es o.1)
  | inr other ↦ rw other (has_key-drop_entry k gone es o.0, drop_entry-HasKeysOnce gone es o.1)
]

has_key-put_file :
    (key at_key : String) (e : CacheEntry) (es : CacheEntries)
    → has_key key (put_file at_key e es) ≡ (str_eq at_key key || has_key key es)
unfolding put_file
has_key-put_file key at_key e [] = refl
has_key-put_file key at_key e ((k, old) ∷ es) =
    ground (arith, eq_iff k at_key, has_key-put_file key at_key e es)

pub put_file-HasKeysOnce :
    (key : String) (e : CacheEntry) (es : CacheEntries)
    → HasKeysOnce es
    → HasKeysOnce (put_file key e es)
unfolding put_file
put_file-HasKeysOnce key e [] o = (refl, tt)
put_file-HasKeysOnce key e ((k, old) ∷ es) o = elim (Bool-cases (str_eq k key)) [
  | inl same ↦ rw same o
  | inr other ↦
      rw (other, has_key-put_file k key e es)
        (ground (arith, o.0, eq_iff k key, eq_iff key k), put_file-HasKeysOnce key e es o.1)
]

has_key-all_pending :
    (key : String) (es : CacheEntries) → has_key key (all_pending es) ≡ has_key key es
unfolding all_pending
has_key-all_pending key [] = refl
has_key-all_pending key ((k, e) ∷ es) = rw (has_key-all_pending key es) refl

pub all_pending-HasKeysOnce : (es : CacheEntries) → HasKeysOnce es → HasKeysOnce (all_pending es)
unfolding all_pending
all_pending-HasKeysOnce [] o = tt
all_pending-HasKeysOnce ((k, e) ∷ es) o =
    (has_key-all_pending k es ∙ o.0, all_pending-HasKeysOnce es o.1)

pub active_of-all_pending :
    (key : String) (es : CacheEntries) → active_of key (all_pending es) ≡ active_of key es
unfolding all_pending
active_of-all_pending key [] = refl
active_of-all_pending key ((k, e) ∷ es) = ground (arith, active_of-all_pending key es)

-- The same keys once each, and the same counts: what trimming keeps.
abbrev pub Same : CacheEntries → CacheEntries → Type 0
Same es fs = HasKeysOnce fs × ((key : String) → active_of key fs ≡ active_of key es)

trim_entry-Same :
    (removes : String → Bool) (limit : ℕ) (key : String) (used : ℕ) (es : CacheEntries)
    → HasKeysOnce es
    → Same es (trim_entry removes limit key (find_file key es) (used, es)).1
unfolding trim_entry
trim_entry-Same removes limit key used es o = elim (Option-cases (find_file key es)) [
  | inl missing ↦ rw missing (o, λ k. refl)
  | inr (e, found) ↦
      elim (Bool-cases ((e.pending || ltb limit used) && not (ltb 0 e.active) && removes e.path)) [
        | inr stays ↦ rw (found, stays) (o, λ k. refl)
        | inl goes ↦
            let z : active_of key es ≡ 0 = active_of-find key es e found ∙ ground arith in
            rw (found, goes)
              (drop_entry-HasKeysOnce key es o, λ k. active_of-drop_entry k key es o z)
      ]
]

trim_keys-Same :
    (removes : String → Bool) (limit : ℕ) (ks : List (String × ℕ)) (used : ℕ) (es : CacheEntries)
    → HasKeysOnce es
    → Same es (trim_keys removes limit ks (used, es)).1
unfolding trim_keys
trim_keys-Same removes limit [] used es o = (o, λ k. refl)
trim_keys-Same removes limit ((k, u) ∷ ks) used es o =
    let one : ℕ × CacheEntries = trim_entry removes limit k (find_file k es) (used, es) in
    let first : Same es one.1 = trim_entry-Same removes limit k used es o in
    let rest : Same one.1 (trim_keys removes limit ks (one.0, one.1)).1 =
      trim_keys-Same removes limit ks one.0 one.1 first.0 in
    (rest.0, λ key. rest.1 key ∙ first.1 key)

pub trim_locked-Same :
    (removes : String → Bool) (limit : ℕ) (c : ConversionCache)
    → HasKeysOnce c.entries
    → Same c.entries (trim_locked removes limit c).entries
unfolding trim_locked
trim_locked-Same removes limit c o =
    trim_keys-Same removes limit (sorted_keys c.entries) (total_size c.entries) c.entries o
