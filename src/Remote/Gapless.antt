-- ===== src/Remote/Gapless.antt =====
-- remote_queue.go: the reader that joins the tracks of the queue into one stream, and what it reports
-- about the track that is heard. Times are nanoseconds in 64 bits with a sign, and wrap where Go's do.
pub mod Timeline
pub mod Heard
pub mod Wellformed
mod Examples
use harmonia_server.Prelude.{
  pos, ℤ, leb_ℤ, ◌+ℤ◌, ◌-ℤ◌, min_ℤ, max_ℤ, quotient, wrap_64, ℕ, ◌+◌, ◌-◌, ◌*◌, ◌/◌, Bool, true,
  false, not, ◌&&◌, ◌||◌, List, [], ◌∷◌, ◌++◌, Option, none, some, String, min, if◌then◌else◌, leb,
  ◌==◌, length, str_eq, strs_eq, bool_eq, get_elem?,
}
use harmonia_server.Remote.State.{RemoteSaved, Remote, World, play, Track, ok, err}
use harmonia_server.Remote.Playback.{track_from_state}
use harmonia_server.Remote.Prefetch.{plan_next}

-- `held` says that the track's PCM is not released yet. `current` and the last of `pending` are one
-- object in Go; only `held` is read of the one, and only the two marks of the other.
pub record QueuedTrack : Type 0 where
  pub saved : RemoteSaved
  pub held : Bool
  pub start : ℕ
  pub frames : ℕ
  pub counted : Bool
  pub completed : Bool

-- `preparedTrack`: a plan that is being converted, or what came of it.
pub data PreparedTrack : Type 0 where
  converting : RemoteSaved → PreparedTrack
  prepared : Option QueuedTrack → PreparedTrack

-- `remoteQueueReader`
pub record Reader : Type 0 where
  pub generation : ℕ
  pub current : QueuedTrack
  pub pending : List QueuedTrack
  pub next : PreparedTrack
  pub eof : Bool
  pub skip_artwork : Bool

unfoldable pub begin_job : Option RemoteSaved → PreparedTrack
begin_job none = prepared none
begin_job (some s) = converting s

-- `prepareTrack`
unfoldable pub prepare_track : (ℕ → ℕ) → String → RemoteSaved → PreparedTrack
unfolding begin_job
prepare_track pick id s = begin_job (plan_next pick id s)

unfoldable pub queued : RemoteSaved → ℕ → QueuedTrack
queued s n = record {
  saved = s;
  held = true;
  start = 0;
  frames = n;
  counted = false;
  completed = false;
}

-- The goroutine of `prepareTrack`. `open_pcm` gives the number of frames, if the file can be converted.
unfoldable pub convert : World → (Track → Option ℕ) → RemoteSaved → Option QueuedTrack
unfolding track_from_state queued
convert w open_pcm s = elim (get_elem? s.queue s.index) [
  | none ↦ none
  | some id ↦ elim (track_from_state w w.tracks id) [
    | err e ↦ none
    | ok t ↦ elim (open_pcm t) [ none ↦ none | some n ↦ if n == 0 then none else some (queued s n) ]
  ]
]

unfoldable pub finish_job : World → (Track → Option ℕ) → PreparedTrack → PreparedTrack
unfolding convert
finish_job w open_pcm (converting s) = prepared (convert w open_pcm s)
finish_job w open_pcm (prepared t) = prepared t

-- `streamQueue`
unfoldable pub stream_queue : (ℕ → ℕ) → String → ℕ → Bool → RemoteSaved → ℕ → Reader
unfolding prepare_track queued
stream_queue pick id frames skip_artwork s generation =
    let first = record (queued s frames) { counted = s.counted } in
    record {
      generation = generation;
      current = first;
      pending = first ∷ [];
      next = prepare_track pick id s;
      eof = false;
      skip_artwork = skip_artwork;
    }

-- The live queue is still the one that the track was planned on.
unfoldable pub same_queue : ℕ → RemoteSaved → Remote → Bool
same_queue generation s r =
    generation == r.generation
    && strs_eq r.saved.queue s.queue
    && str_eq r.saved.repeat s.repeat
    && bool_eq r.saved.shuffle s.shuffle

-- `valid` in `Read`
unfoldable pub may_join : Reader → Remote → Bool
unfolding same_queue
may_join q r =
    same_queue q.generation q.current.saved r
    && not r.saved.waiting
    && r.saved.deadline == 0
    && not r.saved.finish

pub data Joined : Type 0 where
  stream_ends control_failed goes_on : Joined

-- The successor becomes the current track; another one is planned behind it.
unfoldable pub take_over : (ℕ → ℕ) → String → QueuedTrack → Reader → Reader
unfolding prepare_track
take_over pick id t q = record q {
  current = t;
  pending = q.pending ++ (t ∷ []);
  next = prepare_track pick id t.saved;
  eof = false;
}

-- `sent` says whether the receiver took the metadata, and the artwork where it is sent.
unfoldable pub join_next :
    (ℕ → ℕ) → String → (ℕ → Bool) → QueuedTrack → Reader → Remote → Reader × Joined
unfolding may_join take_over
join_next pick id sent t q r =
    if leb 128 (length q.pending) || not (may_join q r)
    then (q, stream_ends)
    else (let next = record t { start = q.current.start + q.current.frames } in
        if sent next.start
        then (take_over pick id next q, goes_on)
        else (record q { next = prepared (some next) }, control_failed))

-- What `Read` does when the current track's PCM is at its end. A successor that is not ready yet is
-- not waited for.
unfoldable pub read_end : (ℕ → ℕ) → String → (ℕ → Bool) → Reader → Remote → Reader × Joined
unfolding join_next
read_end pick id sent q r =
    let ended = record q { eof = true; current = record (q.current) { held = false } } in
    elim q.next [
      | converting s ↦ (ended, stream_ends)
      | prepared none ↦ (ended, stream_ends)
      | prepared (some t) ↦ join_next pick id sent t ended r
    ]

-- `time.Duration(n) * time.Second / airplay.SampleRate`
unfoldable pub frames_time : ℕ → ℤ
unfolding quotient wrap_64
frames_time n = quotient (wrap_64 (n * 1000000000)) 44100

abbrev pub track_end : QueuedTrack → ℤ
track_end t = frames_time (t.start + t.frames)

unfoldable pub elapsed : QueuedTrack → ℕ → ℤ
unfolding ◌-ℤ◌
elapsed t position =
    let start = frames_time t.start in
    min_ℤ (max_ℤ (pos position -ℤ start) (pos 0)) (track_end t -ℤ start)

-- `complete`
abbrev pub is_complete : QueuedTrack → ℕ → Bool
is_complete t position = leb_ℤ (track_end t) (pos position)

-- A play counts after 15 seconds, or at the end of a shorter track.
unfoldable pub count_heard : (QueuedTrack → Bool) → ℕ → QueuedTrack → QueuedTrack
count_heard recorded position t =
    if not t.counted
      && not t.completed
      && (leb_ℤ (pos 15000000000) (t.saved.listened +ℤ elapsed t position)
          || is_complete t position)
    then record t { counted = recorded t }
    else t

-- The queue shows the track that is heard.
unfoldable pub show_heard : ℕ → ℕ → QueuedTrack → Remote → Remote
unfolding same_queue
show_heard generation position t r =
    if same_queue generation t.saved r
    then record r {
      state = play;
      saved = record (r.saved) {
        shuffle_visited =
            if str_eq r.saved.playback_session t.saved.playback_session
            then r.saved.shuffle_visited
            else t.saved.shuffle_visited;
        index = t.saved.index;
        position = t.saved.position +ℤ quotient (elapsed t position) 1000000;
        listened = t.saved.listened +ℤ elapsed t position;
        playback_session = t.saved.playback_session;
        counted = t.counted;
        seeked = t.saved.seeked;
      };
    }
    else r

-- What is left of the pending tracks: the last one stays.
unfoldable pub keep_last : QueuedTrack → List QueuedTrack → List QueuedTrack
keep_last t [] = record t { completed = true } ∷ []
keep_last t (u ∷ us) = u ∷ us

-- `progress`
unfoldable pub progress :
    (QueuedTrack → Bool) → ℕ → ℕ → List QueuedTrack → Remote → List QueuedTrack × Remote
progress recorded generation position [] r = ([], r)
progress recorded generation position (t ∷ ts) r =
    let c = count_heard recorded position t in
    let s = show_heard generation position c r in
    let (rest, last) = progress recorded generation position ts s in
    if is_complete t position then (keep_last c rest, last) else (c ∷ ts, s)
