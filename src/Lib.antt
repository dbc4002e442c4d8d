-- ===== src/Lib.antt =====
-- A verification library for harmonia-server: the AirPlay playback queue, the formats it speaks with a
-- receiver, and what the server keeps of files and answers.
--
-- The server keeps one queue for an AirPlay output. Requests, the ends of tracks, a timer and the
-- goroutine that plays all change it; the mutex `commands` makes each of these one step, so the
-- program is a fold over events in any order (Remote.Events).
--
-- Prelude: the names that all files share; tests on natural numbers, lists, texts, float64 as bit
--   patterns, and signed numbers.
-- Remote.State: the state of internal/app/remote.go (`RemoteSaved`, `Remote`), and the record `World`
--   of what an operation finds around it: the clock, the library, the file system, the receiver, the
--   random source. These are parameters, since their code is not in the repository or is I/O. Two laws
--   are asked of them: a random draw below n is below n, and the rounded (db + 30) / 0.3 of float64 is at most
--   100 for a db that is above -30 and not above 0.
-- Remote.Shuffle: internal/app/remote_shuffle.go and `advanceLocked`.
-- Remote.Playback: `cancelPlayback`, `start`, `startWithPolicy`, `skipFailed`; `trackFromState` of
--   internal/app/http.go.
-- Remote.Requests, Remote.Transport, Remote.Edit, Remote.Editing, Remote.Pairing, Remote.Settings,
--   Remote.Command: the request, its cases by what they touch, internal/app/playback_settings.go, and
--   `Command` with the two steps around the cases.
-- Remote.Loop: the loop of remote.go and what the playing goroutine reports.
-- Remote.Prefetch: the successors that internal/app/remote_queue.go and remote_pcm.go choose.
-- Remote.Restore, Remote.Outputs, Remote.Events: `NewRemote`, `Outputs`, and sequences of events.
-- Remote.Gapless: internal/app/remote_queue.go, the reader that joins tracks without a gap, and what
--   it reports; Remote.Gapless.Wellformed runs it beside all other events.
-- Airplay.Tlv, Airplay.Secure: the pairing messages and the encrypted frames of
--   internal/airplay/wire.go. The cipher is a parameter with two laws: what was sealed opens, and a
--   seal adds 16 bytes.
-- Airplay.Dns, Airplay.Devices: internal/airplay/discovery.go, the messages of multicast DNS, what their
--   records add to the services, and the list of devices. Go goes through the map of services in any
--   order; here it is a list in any order.
-- Airplay.Rtsp: `readMessage` and `exchange` of wire.go. The lines are ASCII; a connection is the list of the
--   bytes that come from it.
-- Airplay.Clock: internal/airplay/clock.go, the packets that it sends for those that come and at each tick.
-- Airplay.Audio, Airplay.Raop: the packets of internal/airplay/audio.go and raop.go, and what `Stream` and
--   `retransmits` of session.go do with them. Encryption is a parameter, and so is when a frame is sent.
-- Airplay.Metadata: what internal/airplay/metadata.go sends of a track, and `syncAudio` of session.go.
-- Airplay.Volume: `parseVolume` of internal/airplay/volume.go, which every volume that `ReadVolume` returns comes
--   from.
-- Airplay.Plist: `unplist` of internal/airplay/plist.go. An index out of range, which panics in Go, is an
--   error of its own.
-- Media.PageCache, Media.Waveform, Media.Wav: internal/app/page_cache.go, the peak writer of
--   waveform.go, and `wavPCM` of remote_pcm.go.
-- Media.ConversionCache: `Cache` of internal/app/media.go. What its mutex makes one step is a function;
--   the clients are steps in any order, and which files can be removed is a parameter.
-- Media.RuleSets: the rule sets of conversions of internal/app/media.go: their checks, their changes, and the
--   rule that a stream uses.
-- Library.NativeTags: internal/app/native_tags.go, on the bytes of a file. zlib is a parameter, and so is
--   the table of lower case letters. Texts in UTF-8 are lists of code points (Prelude.Runes).
-- Library.Rules, Library.Matching: `Validate` and `Match` of the smart playlist rules in internal/app/model.go.
--   Whether a text parses as a number is a parameter, and so are the lower case of a text and what
--   `value` gives for a field.
-- Library.Globs: `globMatch` and `allowed` of internal/app/scan.go. The regular expression is the list of its
--   parts. The loop over the folders takes a round for each character of the path and one more.
-- Config.EnvFile: internal/app/envfile.go, on the lines of the file.
-- The modules named Examples, Found, Converted and Tagged: small data, and the theorems applied to them.
--
-- Loops: `startWithPolicy` runs on fuel, two rounds more than the queue is long, since each skip marks
-- one more track of the queue as failed; `skip_limit` stands for a loop that ran out. `skipFailed` is
-- bounded in Go by the length of the queue. The loops over bytes take as fuel the number of bytes that
-- are left, and each round takes one at least; the eviction loop takes the number of pages. The loops of
-- `untlv` and `wavPCM` would answer with an error if the fuel were short. `unplist` recurses on its 33
-- levels. All else is structural recursion.
--
-- Numbers are natural where the code has checked that they are not negative. The generation wraps
-- at 2 ^ 64. Listened seconds are counted in nanoseconds. The times of the gapless reader
-- have 64 bits with a sign and wrap as Go's do; its theorems on what is heard say how long the stream
-- may be. Texts of errors are constructors.
--
-- Not modelled: how a session of AirPlay is opened and closed, the scanner, the database and the
-- HTTP layer; sockets, files and running FFmpeg.
pub mod Airplay
pub mod Config
pub mod Library
pub mod Media
pub mod Prelude
pub mod Remote
