-- ===== src/Airplay/Clock.antt =====
-- The clock of internal/airplay/clock.go: what it answers to a receiver's packets, what it announces, how it
-- starts and which error it keeps. `ntp` is of audio.go.
pub mod Replies
use harmonia_server.Prelude.{
  ℕ, zero, suc, ◌+◌, ◌*◌, ◌/◌, ◌%◌, ◌^◌, Bool, false, not, ◌||◌, ◌&&◌, List, [], ◌∷◌, ◌++◌, Option,
  none, some, String, if◌then◌else◌, ltb, leb, ◌==◌, length, take, drop, get_or,
}
use harmonia_server.Airplay.Dns.{big_16, put_16}

-- k bytes of a number, the high ones first.
unfoldable pub put_big : ℕ → ℕ → List ℕ
put_big zero n = []
put_big (suc k) n = (n / 256 ^ k % 256) ∷ put_big k n

unfoldable pub zeros : ℕ → List ℕ
zeros zero = []
zeros (suc n) = 0 ∷ zeros n

-- `copy(b[p:], bytes)`
unfoldable pub put_at : ℕ → List ℕ → List ℕ → List ℕ
put_at p bytes b = take p b ++ (bytes ++ drop (p + length bytes) b)

-- A PTP header in a packet of `size` bytes, which the callers give 34 of at least.
unfoldable pub ptp_header : ℕ → ℕ → ℕ → ℕ → List ℕ
unfolding zeros put_big put_16
ptp_header id kind size seq =
    (16 + kind)
    ∷ 2
    ∷ (put_16 size
        ++ (0
            ∷ 0
            ∷ 4
            ∷ (zeros 13
                ++ (put_big 8 id ++ (0 ∷ 1 ∷ (put_16 seq ++ (5 ∷ 0x7f ∷ drop 34 (zeros size))))))))

-- `b[6] |= 2` on the flags of a header
unfoldable pub two_step : List ℕ → List ℕ
unfolding put_at
two_step b = put_at 6 (6 ∷ []) b

-- A time as its seconds since 1970 and nanoseconds.
pub record Moment : Type 0 where
  pub seconds : ℕ
  pub nanos : ℕ

unfoldable pub ptp_time : Moment → List ℕ
unfolding put_big
ptp_time t = put_big 6 t.seconds ++ put_big 4 t.nanos

unfoldable pub ntp : Moment → ℕ
ntp t = (t.seconds + 2208988800) * 4294967296 % 2 ^ 64 + t.nanos * 4294967296 / 1000000000

pub data Socket : Type 0 where
  event general : Socket

-- A packet to a port of the peer; 0 stands for the port that it came from.
pub record Send : Type 0 where
  pub socket : Socket
  pub port : ℕ
  pub bytes : List ℕ

pub record ClockServer : Type 0 where
  pub id : ℕ
  pub ptp : Bool

-- What was sent, and whether the time of the packet is kept as the last probe.
pub record Reply : Type 0 where
  pub sent : List Send
  pub probed : Bool

abbrev pub no_reply : Reply
no_reply = record { sent = []; probed = false }

-- `now` is the time of the arrival and `later` the time at the answer; `sends` tells whether a packet is sent.
unfoldable pub ntp_packet : List ℕ → Moment → Moment → List ℕ
unfolding zeros put_big
ntp_packet b now later =
    0x80
    ∷ 0xd3
    ∷ (take 2 (drop 2 b)
        ++ (zeros 4 ++ (take 8 (drop 24 b) ++ (put_big 8 (ntp now) ++ put_big 8 (ntp later)))))

unfoldable pub ntp_reply : (Send → Bool) → List ℕ → Moment → Moment → Reply
ntp_reply sends b now later =
    let s : Send = record { socket = event; port = 0; bytes = ntp_packet b now later } in
    if not (length b == 32) || not (get_or b 1 0 % 128 == 0x52)
    then no_reply
    else record { sent = s ∷ []; probed = sends s }

-- The request of a peer's delay: its answer, and the follow-up.
unfoldable pub delay_packet : ℕ → ℕ → ℕ → List ℕ → Moment → List ℕ
unfolding put_at
delay_packet id kind seq b t =
    put_at 44 (take 10 (drop 20 b)) (put_at 34 (ptp_time t) (ptp_header id kind 54 seq))

unfoldable pub path_delay : (Send → Bool) → ℕ → List ℕ → Moment → Moment → Reply
unfolding two_step
path_delay sends id b now later =
    let seq = big_16 30 b in
    let first : Send = record {
      socket = event;
      port = 319;
      bytes = two_step (delay_packet id 3 seq b now);
    } in
    let second : Send = record {
      socket = general;
      port = 320;
      bytes = delay_packet id 10 seq b later;
    } in
    if sends first
    then record { sent = first ∷ second ∷ []; probed = sends second }
    else record { sent = first ∷ []; probed = false }

unfoldable pub delay_reply : (Send → Bool) → ℕ → List ℕ → Moment → Reply
delay_reply sends id b now =
    let s : Send = record {
      socket = general;
      port = 320;
      bytes = delay_packet id 9 (big_16 30 b) b now;
    } in
    record { sent = s ∷ []; probed = sends s }

-- The fields of a signalling message, each answered if it asks for unicast.
unfoldable pub signal_packet : ℕ → List ℕ → ℕ → List ℕ
unfolding put_at put_16
signal_packet id b p = put_at 55 (1 ∷ []) (
    put_at 48 (take 6 (drop (p + 4) b)) (
      put_at 46 (put_16 8) (
        put_at 44 (put_16 5)
          (put_at 34 (take 10 (drop 20 b)) (ptp_header id 12 56 (big_16 30 b))))))

unfoldable pub signal_send : ℕ → List ℕ → ℕ → List Send → List Send
signal_send id b p sent =
    if big_16 p b == 4 && leb 6 (big_16 (p + 2) b)
    then sent ++ (record { socket = general; port = 320; bytes = signal_packet id b p } ∷ [])
    else sent

-- A round at an offset with the packets sent so far; none at the end.
unfoldable pub signal_round : ℕ → List ℕ → Option ℕ × List Send → Option ℕ × List Send
signal_round id b (none, sent) = (none, sent)
signal_round id b (some p, sent) =
    let l = big_16 (p + 2) b in
    if ltb (length b) (p + 4) || ltb (length b) (p + 4 + l)
    then (none, sent)
    else (some (p + 4 + l), signal_send id b p sent)

unfoldable pub signal_rounds : ℕ → ℕ → List ℕ → Option ℕ × List Send → List Send
signal_rounds zero id b state = state.1
signal_rounds (suc rounds) id b state = signal_rounds rounds id b (signal_round id b state)

-- A field takes four bytes at least.
unfoldable pub signal_reply : ℕ → List ℕ → Reply
signal_reply id b =
    if ltb (length b) 44
    then no_reply
    else record { sent = signal_rounds (length b) id b (some 44, []); probed = false }

unfoldable pub ptp_reply : (Send → Bool) → ℕ → List ℕ → Moment → Moment → Reply
ptp_reply sends id b now later =
    let kind = get_or b 0 0 % 16 in
    if ltb (length b) 34 || not (get_or b 1 0 % 16 == 2) || ltb (length b) (big_16 2 b)
    then no_reply
    else (if kind == 1
        then delay_reply sends id b now
        else (if kind == 2
            then path_delay sends id b now later
            else (if kind == 12 then signal_reply id b else no_reply)))

-- A packet in `receive`; those of other hosts are passed over.
unfoldable pub receive : (Send → Bool) → ClockServer → Bool → List ℕ → Moment → Moment → Reply
receive sends c from_peer b now later =
    if not from_peer
    then no_reply
    else (if c.ptp then ptp_reply sends c.id b now later else ntp_reply sends b now later)

-- A tick of `announce` with its number, which wraps at 16 bits: an announcement every eighth time, a
-- sync and its follow-up.
unfoldable pub announce_packet : ℕ → ℕ → List ℕ
unfolding put_at put_big put_16
announce_packet id seq = put_at 63 (0x20 ∷ []) (
    put_at 53 (put_big 8 id) (
      put_at 52 (128 ∷ []) (
        put_at 50 (put_16 0x436a)
          (put_at 47 (128 ∷ 6 ∷ 0x21 ∷ []) (put_at 33 (0 ∷ []) (ptp_header id 11 64 seq))))))

unfoldable pub sync_packet : ℕ → ℕ → List ℕ
unfolding put_at two_step
sync_packet id seq = put_at 32 (0 ∷ 0xfd ∷ []) (two_step (ptp_header id 0 44 seq))

unfoldable pub follow_packet : ℕ → ℕ → Moment → List ℕ
unfolding put_at put_16
follow_packet id seq now = put_at 48 (0 ∷ 0x80 ∷ 0xc2 ∷ 0 ∷ 0 ∷ 1 ∷ []) (
    put_at 46 (put_16 28) (
      put_at 44 (put_16 3)
        (put_at 34 (ptp_time now) (put_at 32 (2 ∷ 0xfd ∷ []) (ptp_header id 8 76 seq)))))

abbrev pub announce_at : ℕ → ℕ → Moment → List Send
announce_at id seq now =
    (if seq % 8 == 1
      then record { socket = general; port = 320; bytes = announce_packet id seq } ∷ []
      else [])
    ++ (record { socket = event; port = 319; bytes = sync_packet id seq }
        ∷ record { socket = general; port = 320; bytes = follow_packet id seq now }
        ∷ [])

unfoldable pub announce : ℕ → ℕ → Moment → ℕ × List Send
announce id seq now = let next = (seq + 1) % 65536 in (next, announce_at id next now)

-- `recordError`: the first error before the clock is closed.
unfoldable pub record_error : Bool → Option String → Option String → Option String
record_error closed none failure = failure
record_error closed (some e) none = if closed then none else some e
record_error closed (some e) (some first) = some first

-- `startClock`: `bind` with PTP or without gives a clock, or an error that may be of permission.
pub data Bound : Type 0 where
  bound : Bound
  not_bound : Bool → String → Bound

pub data Started : Type 0 where
  started : Bool → Option String → Started
  not_started : List String → Started

unfoldable pub fall_back : String → Bound → Started
fall_back error bound = started false (some error)
fall_back error (not_bound permission other) = not_started (error ∷ other ∷ [])

unfoldable pub started_with : Bool → Bound → Bound → Started
started_with ptp bound unprivileged = started ptp none
started_with ptp (not_bound permission error) unprivileged =
    if ptp && permission then fall_back error unprivileged else not_started (error ∷ [])

unfoldable pub start_clock : Bool → (Bool → Bound) → Started
start_clock ptp bind = started_with ptp (bind ptp) (bind false)
