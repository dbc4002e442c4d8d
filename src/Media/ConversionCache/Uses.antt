-- ===== src/Media/ConversionCache/Uses.antt =====
-- What the clients of the cache do, as steps; the counts are right after any of them.
use harmonia_server.Prelude.{
  ℕ, ◌+◌, ◌-◌, ◌<◌, ◌≡◌, sym, ap, ◌∙◌, inl, inr, Bool, true, false, ◌||◌, List, [], ◌∷◌, some,
  String, arith, if◌then◌else◌, ltb, str_eq, eq_iff, eq_refl, Bool-cases, Option-cases,
}
use harmonia_server.Media.ConversionCache.{
  CacheEntry, CacheEntries, ConversionCache, find_file, put_file, total_size, trim_locked, clear,
  Acquired, kept, temporary, converting, rename_failed, acquire_found, acquire_begin, is_active,
  is_waiting, store_file, place_file, acquire_end, end_job, release_entry, release,
}
use harmonia_server.Media.ConversionCache.Held.{
  active_of, active_of-find, active_of-missing, active_of-put_file, HasKeysOnce,
  put_file-HasKeysOnce, all_pending-HasKeysOnce, active_of-all_pending, Same, trim_locked-Same,
}

-- The cache and the keys of the files that clients hold, each as often as it is held.
pub record CacheUse : Type 0 where
  pub cache : ConversionCache
  pub held : List String

abbrev pub holders : String → List String → ℕ
holders key [] = 0
holders key (k ∷ ks) = (if str_eq k key then 1 else 0) + holders key ks

abbrev pub let_go : String → List String → List String
let_go key [] = []
let_go key (k ∷ ks) = if str_eq k key then ks else k ∷ let_go key ks

-- The caller of `Acquire` holds the file that it got from the cache.
abbrev pub taken : String → ConversionCache × Acquired → List String → CacheUse
taken key (c, kept path) held = record { cache = c; held = key ∷ held }
taken key (c, temporary) held = record { cache = c; held = held }
taken key (c, converting) held = record { cache = c; held = held }
taken key (c, rename_failed) held = record { cache = c; held = held }

-- Only a client that holds a file releases it.
pub data Step : CacheUse → CacheUse → Type 0 where
  begins :
      (key job : String) (now : ℕ) (u : CacheUse)
      → Step u (taken key (acquire_begin key job now u.cache) u.held)
  ends :
      (removes : String → Bool) (renames : Bool) (final key job : String) (size limit now : ℕ)
      (u : CacheUse)
      → Step u (taken key (acquire_end removes renames final key job size limit now u.cache) u.held)
  gives_up : (job : String) (u : CacheUse) → Step u (record u { cache = end_job job u.cache })
  releases :
      (removes : String → Bool) (key : String) (limit now : ℕ) (u : CacheUse)
      → 0 < holders key u.held
      → Step u (record { cache = release removes key limit now u.cache; held = let_go key u.held })
  trims :
      (removes : String → Bool) (limit : ℕ) (u : CacheUse)
      → Step u (record u { cache = trim_locked removes limit u.cache })
  clears :
      (removes : String → Bool) (u : CacheUse) → Step u (record u { cache = clear removes u.cache })

pub data Reach (s : CacheUse) : CacheUse → Type 0 where
  here : Reach s s
  next : {t u : CacheUse} → Reach s t → Step t u → Reach s u

-- No key twice, and every entry counts its holders: a held file has an entry.
abbrev pub Counts : CacheEntries → List String → Type 0
Counts es held = HasKeysOnce es × ((key : String) → active_of key es ≡ holders key held)

abbrev pub IsCounted : CacheUse → Type 0
IsCounted u = Counts u.cache.entries u.held

Same-Counts :
    (es fs : CacheEntries) (held : List String) → Same es fs → Counts es held → Counts fs held
Same-Counts es fs held s c = (s.0, λ key. s.1 key ∙ c.1 key)

holders-let_go :
    (key gone : String) (held : List String)
    → 0 < holders gone held
    → holders key (let_go gone held) + (if str_eq gone key then 1 else 0) ≡ holders key held
holders-let_go key gone [] h = absurd (omega arith)
holders-let_go key gone (k ∷ held) h =
    ground (arith, eq_iff k gone, eq_iff k key, eq_iff gone key, holders-let_go key gone held)

-- An entry with the count n in place of the one of a key.
put_file-Counts :
    (key : String) (e : CacheEntry) (es : CacheEntries) (held more : List String)
    → Counts es held
    → e.active ≡ holders key more
    → ((k : String) → str_eq key k ≡ false → holders k held ≡ holders k more)
    → Counts (put_file key e es) more
put_file-Counts key e es held more c a others =
    (put_file-HasKeysOnce key e es c.0, λ k. active_of-put_file k key e es ∙ counted k)
  where
    counted : (k : String) → (if str_eq key k then e.active else active_of k es) ≡ holders k more
    counted k = elim (Bool-cases (str_eq key k)) [
      | inl same ↦
          let it : key ≡ k = ground (arith, eq_iff key k) in
          rw same (a ∙ ap (λ x. holders x more) it)
      | inr other ↦ rw other (c.1 k ∙ others k other)
    ]

acquire_begin-IsCounted :
    (key job : String) (now : ℕ) (u : CacheUse)
    → IsCounted u
    → IsCounted (taken key (acquire_begin key job now u.cache) u.held)
unfolding acquire_begin acquire_found
acquire_begin-IsCounted key job now u c = elim (Option-cases (find_file key u.cache.entries)) [
  | inl missing ↦ rw missing c
  | inr (e, found) ↦ elim (Bool-cases e.pending) [
    | inl waits ↦ rw (found, waits) c
    | inr ready ↦
        let here_once : active_of key u.cache.entries ≡ holders key u.held = c.1 key in
        let grown : e.active + 1 ≡ holders key (key ∷ u.held) =
          ground (arith, eq_refl key, active_of-find key u.cache.entries e found) in
        rw (found, ready)
          (put_file-Counts key _ u.cache.entries u.held (key ∷ u.held) c grown
            (λ k other. ground arith))
  ]
]

place_file-IsCounted :
    (renames : Bool) (final key job : String) (size limit now : ℕ) (c : ConversionCache)
    (held : List String)
    → Counts c.entries held
    → IsCounted (taken key (place_file renames final key job size limit now c) held)
unfolding place_file store_file is_active
place_file-IsCounted renames final key job size limit now c held counts =
    elim (Bool-cases (ltb limit (total_size c.entries + size) || is_waiting job c.jobs)) [
      | inl full ↦ rw full counts
      | inr room ↦ elim (Bool-cases (is_active (find_file key c.entries))) [
        | inl busy ↦ rw (room, busy) counts
        | inr free ↦ rw (room, free) (stored renames (idle free))
      ]
    ]
  where
    idle : is_active (find_file key c.entries) ≡ false → active_of key c.entries ≡ 0
    idle free = elim (Option-cases (find_file key c.entries)) [
      | inl missing ↦ active_of-missing key c.entries missing
      | inr (e, found) ↦
          let quiet : is_active (some e) ≡ false = ap is_active (sym found) ∙ free in
          active_of-find key c.entries e found ∙ ground arith
    ]

    stored :
        (renames : Bool)
        → active_of key c.entries ≡ 0
        → IsCounted (taken key (store_file renames final key job size now c) held)
    stored true z =
        put_file-Counts key _ c.entries held (key ∷ held) counts
          (ground (arith, eq_refl key, counts.1 key)) (λ k other. ground arith)
    stored false z = counts

acquire_end-IsCounted :
    (removes : String → Bool) (renames : Bool) (final key job : String) (size limit now : ℕ)
    (u : CacheUse)
    → IsCounted u
    → IsCounted
        (taken key (acquire_end removes renames final key job size limit now u.cache) u.held)
unfolding acquire_end
acquire_end-IsCounted removes renames final key job size limit now u c =
    place_file-IsCounted renames final key job size limit now _ u.held
      (Same-Counts _ _ _ (trim_locked-Same removes (limit - size) u.cache c.0) c)

release-IsCounted :
    (removes : String → Bool) (key : String) (limit now : ℕ) (u : CacheUse)
    → 0 < holders key u.held
    → IsCounted u
    → Counts (release removes key limit now u.cache).entries (let_go key u.held)
unfolding release release_entry
release-IsCounted removes key limit now u h c =
    Same-Counts _ _ _ (trim_locked-Same removes limit _ counted.0) counted
  where
    counted :
        Counts
          (release_entry key now (find_file key u.cache.entries) u.cache.entries)
          (let_go key u.held)
    counted = elim (Option-cases (find_file key u.cache.entries)) [
      | inl missing ↦
          absurd (ground (arith, c.1 key, active_of-missing key u.cache.entries missing))
      | inr (e, found) ↦
          let less : e.active - 1 ≡ holders key (let_go key u.held) = ground (
            arith,
            eq_refl key,
            c.1 key,
            active_of-find key u.cache.entries e found,
            holders-let_go key key u.held h,
          ) in
          rw found (
            put_file-Counts key _ u.cache.entries u.held (let_go key u.held) c less
              (λ k other. ground (arith, holders-let_go k key u.held h)))
    ]

Step-IsCounted : {u v : CacheUse} → Step u v → IsCounted u → IsCounted v
unfolding end_job clear
Step-IsCounted (begins key job now u) c = acquire_begin-IsCounted key job now u c
Step-IsCounted (ends removes renames final key job size limit now u) c =
    acquire_end-IsCounted removes renames final key job size limit now u c
Step-IsCounted (gives_up job u) c = c
Step-IsCounted (releases removes key limit now u h) c =
    release-IsCounted removes key limit now u h c
Step-IsCounted (trims removes limit u) c =
    Same-Counts _ _ _ (trim_locked-Same removes limit u.cache c.0) c
Step-IsCounted (clears removes u) c =
    Same-Counts _ _ _ (trim_locked-Same removes 0 _ (all_pending-HasKeysOnce u.cache.entries c.0)) (
      all_pending-HasKeysOnce u.cache.entries c.0,
      λ key. active_of-all_pending key u.cache.entries ∙ c.1 key,
    )

-- Whatever clients do in whatever order, from a cache that counts its holders: every entry counts the holders of
-- its file, so the file of a key that is held is in the cache until the last of them lets it go.
pub Reach-IsCounted : {s t : CacheUse} → Reach s t → IsCounted s → IsCounted t
Reach-IsCounted here c = c
Reach-IsCounted (next r step) c = Step-IsCounted step (Reach-IsCounted r c)
