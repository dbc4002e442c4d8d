-- ===== src/Media/ConversionCache.antt =====
-- `Cache` of internal/app/media.go: the files of converted tracks. An operation under the mutex is a
-- function on the entries and the jobs; whether `os.Remove` takes a file away is a parameter.
pub mod Held
pub mod Uses
pub mod Limits
pub mod Arguments
use harmonia_server.Prelude.{
  ℕ, suc, ◌+◌, ◌-◌, Bool, true, false, not, ◌||◌, ◌&&◌, List, [], ◌∷◌, Option, none, some, String,
  if◌then◌else◌, ltb, str_eq,
}

-- `used` is a time.
pub record CacheEntry : Type 0 where
  pub path : String
  pub size : ℕ
  pub used : ℕ
  pub active : ℕ
  pub pending : Bool

abbrev pub CacheEntries : Type 0
CacheEntries = List (String × CacheEntry)

-- A job is a conversion that goes on or whose file its client still reads; `true` if the cache was
-- cleared since.
pub record ConversionCache : Type 0 where
  pub entries : CacheEntries
  pub jobs : List (String × Bool)

unfoldable pub find_file : String → CacheEntries → Option CacheEntry
find_file key [] = none
find_file key ((k, e) ∷ es) = if str_eq k key then some e else find_file key es

unfoldable pub put_file : String → CacheEntry → CacheEntries → CacheEntries
put_file key e [] = (key, e) ∷ []
put_file key e ((k, old) ∷ es) =
    let rest = put_file key e es in if str_eq k key then (k, e) ∷ es else (k, old) ∷ rest

unfoldable pub drop_entry : String → CacheEntries → CacheEntries
drop_entry key [] = []
drop_entry key ((k, e) ∷ es) =
    let rest = drop_entry key es in if str_eq k key then rest else (k, e) ∷ rest

unfoldable pub total_size : CacheEntries → ℕ
total_size [] = 0
total_size ((k, e) ∷ es) = e.size + total_size es

-- The keys, those used longest ago first. `sort.Slice` may leave keys of one time in another order.
unfoldable pub insert_key : String → ℕ → List (String × ℕ) → List (String × ℕ)
insert_key key used [] = (key, used) ∷ []
insert_key key used ((k, u) ∷ ks) =
    let rest = insert_key key used ks in
    if ltb u used then (k, u) ∷ rest else (key, used) ∷ (k, u) ∷ ks

unfoldable pub sorted_keys : CacheEntries → List (String × ℕ)
sorted_keys [] = []
sorted_keys ((k, e) ∷ es) = insert_key k e.used (sorted_keys es)

-- The total and the entries after the look at one of them.
unfoldable pub trim_entry :
    (String → Bool) → ℕ → String → Option CacheEntry → ℕ × CacheEntries → ℕ × CacheEntries
trim_entry removes limit key none (used, es) = (used, es)
trim_entry removes limit key (some e) (used, es) =
    if (e.pending || ltb limit used) && not (ltb 0 e.active) && removes e.path
    then (used - e.size, drop_entry key es)
    else (used, es)

unfoldable pub trim_keys :
    (String → Bool) → ℕ → List (String × ℕ) → ℕ × CacheEntries → ℕ × CacheEntries
trim_keys removes limit [] state = state
trim_keys removes limit ((k, u) ∷ ks) state =
    trim_keys removes limit ks (trim_entry removes limit k (find_file k state.1) state)

unfoldable pub trim_locked : (String → Bool) → ℕ → ConversionCache → ConversionCache
trim_locked removes limit c = record c {
  entries = (trim_keys removes limit (sorted_keys c.entries) (total_size c.entries, c.entries)).1;
}

unfoldable pub all_pending : CacheEntries → CacheEntries
all_pending [] = []
all_pending ((k, e) ∷ es) = (k, record e { pending = true }) ∷ all_pending es

unfoldable pub all_waiting : List (String × Bool) → List (String × Bool)
all_waiting [] = []
all_waiting ((id, w) ∷ jobs) = (id, true) ∷ all_waiting jobs

unfoldable pub clear : (String → Bool) → ConversionCache → ConversionCache
clear removes c =
    trim_locked removes 0 (record { entries = all_pending c.entries; jobs = all_waiting c.jobs })

unfoldable pub drop_job : String → List (String × Bool) → List (String × Bool)
drop_job id [] = []
drop_job id ((i, w) ∷ jobs) =
    let rest = drop_job id jobs in if str_eq i id then rest else (i, w) ∷ rest

unfoldable pub is_waiting : String → List (String × Bool) → Bool
is_waiting id [] = false
is_waiting id ((i, w) ∷ jobs) = if str_eq i id then w else is_waiting id jobs

-- What `Acquire` gives its caller. `kept` is a file of the cache, `temporary` one that goes when the caller is
-- done; `converting` tells that the conversion begins, under a new job.
pub data Acquired : Type 0 where
  kept : String → Acquired
  temporary : Acquired
  converting : Acquired
  rename_failed : Acquired

unfoldable pub acquire_found :
    String → String → ℕ → Option CacheEntry → ConversionCache → ConversionCache × Acquired
acquire_found key job now none c = (record c { jobs = (job, false) ∷ c.jobs }, converting)
acquire_found key job now (some e) c =
    if e.pending then (record c { jobs = (job, false) ∷ c.jobs }, converting) else (
      record c {
        entries = put_file key (record e { active = e.active + 1; used = now }) c.entries;
      },
      kept e.path,
    )

-- The first part of `Acquire`, before the conversion.
unfoldable pub acquire_begin : String → String → ℕ → ConversionCache → ConversionCache × Acquired
acquire_begin key job now c = acquire_found key job now (find_file key c.entries) c

unfoldable pub is_active : Option CacheEntry → Bool
is_active none = false
is_active (some e) = ltb 0 e.active

unfoldable pub store_file :
    Bool → String → String → String → ℕ → ℕ → ConversionCache → ConversionCache × Acquired
store_file renames final key job size now c =
    let e : CacheEntry = record {
      path = final;
      size = size;
      used = now;
      active = 1;
      pending = false;
    } in
    let rest = drop_job job c.jobs in
    if renames
    then (record { entries = put_file key e c.entries; jobs = rest }, kept final)
    else (record c { jobs = rest }, rename_failed)

unfoldable pub place_file :
    Bool → String → String → String → ℕ → ℕ → ℕ → ConversionCache → ConversionCache × Acquired
place_file renames final key job size limit now c =
    if ltb limit (total_size c.entries + size) || is_waiting job c.jobs
    then (c, temporary)
    else (if is_active (find_file key c.entries)
        then (c, temporary)
        else store_file renames final key job size now c)

-- The last part of `Acquire`, after the conversion: the file goes into the cache if there is room.
unfoldable pub acquire_end :
    (String → Bool)
    → Bool
    → String
    → String
    → String
    → ℕ
    → ℕ
    → ℕ
    → ConversionCache
    → ConversionCache × Acquired
acquire_end removes renames final key job size limit now c =
    place_file renames final key job size limit now (trim_locked removes (limit - size) c)

-- A conversion that failed, or a temporary file that is let go.
unfoldable pub end_job : String → ConversionCache → ConversionCache
end_job job c = record c { jobs = drop_job job c.jobs }

unfoldable pub release_entry : String → ℕ → Option CacheEntry → CacheEntries → CacheEntries
release_entry key now none es = es
release_entry key now (some e) es = put_file key (record e { active = e.active - 1; used = now }) es

unfoldable pub release : (String → Bool) → String → ℕ → ℕ → ConversionCache → ConversionCache
release removes key limit now c =
    trim_locked removes limit
      (record c { entries = release_entry key now (find_file key c.entries) c.entries })

-- `Status`: the bytes used, what waits to go and what is in use.
pub record CacheStatus : Type 0 where
  pub used : ℕ
  pub limit : ℕ
  pub pending : ℕ
  pub active : ℕ

unfoldable pub count_waiting : List (String × Bool) → ℕ
count_waiting [] = 0
count_waiting ((id, w) ∷ jobs) = (if w then 1 else 0) + count_waiting jobs

unfoldable pub count_jobs : List (String × Bool) → ℕ
count_jobs [] = 0
count_jobs (job ∷ jobs) = suc (count_jobs jobs)

unfoldable pub count_pending : CacheEntries → ℕ
count_pending [] = 0
count_pending ((k, e) ∷ es) = (if e.pending then 1 else 0) + count_pending es

unfoldable pub count_active : CacheEntries → ℕ
count_active [] = 0
count_active ((k, e) ∷ es) = e.active + count_active es

unfoldable pub status : ℕ → ConversionCache → CacheStatus
status limit c = record {
  used = total_size c.entries;
  limit = limit;
  pending = count_waiting c.jobs + count_pending c.entries;
  active = count_jobs c.jobs + count_active c.entries;
}
