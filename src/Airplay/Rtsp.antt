-- ===== src/Airplay/Rtsp.antt =====
-- The RTSP messages of internal/airplay/wire.go: `boundedLine`, `readMessage`, `exchange`, `property` and
-- `pair`. A connection is the list of the bytes that come from it; the lines are ASCII.
pub mod Limits
pub mod Answers
use harmonia_server.Prelude.{
  ℕ, zero, suc, ◌+◌, Bool, true, false, not, ◌||◌, ◌&&◌, List, [], ◌∷◌, ◌++◌, Option, none, some,
  if◌then◌else◌, ltb, leb, ◌==◌, length, take, drop,
}
use harmonia_server.Prelude.Runes.{
  runes, same_runes, trim_space, cut_at, natural, upper_letter, lower_letter, fields_from,
}

-- `out_of_rounds` is no error of Go: it stands for a loop that did not end.
pub data RtspError : Type 0 where
  connection_lost oversized_line oversized_headers invalid_header duplicate_length : RtspError
  invalid_length not_sent invalid_status sequence_mismatch unsupported_auth : RtspError
  pairing_required invalid_answer out_of_rounds : RtspError
  refused : List ℕ → RtspError

pub record Message : Type 0 where
  pub line : List ℕ
  pub header : List (List ℕ × List ℕ)
  pub body : List ℕ

pub data Line : Type 0 where
  line_read : List ℕ → List ℕ → Line
  no_line : RtspError → Line

unfoldable pub lengthen : ℕ → Line → Line
lengthen c (line_read s rest) = line_read (c ∷ s) rest
lengthen c (no_line e) = no_line e

-- A line with its line feed; `room` is how many bytes it may still have.
unfoldable pub read_line : ℕ → List ℕ → Line
read_line room [] = no_line connection_lost
read_line zero (c ∷ b) = no_line oversized_line
read_line (suc room) (c ∷ b) =
    let rest = read_line room b in if c == 10 then line_read (10 ∷ []) b else lengthen c rest

unfoldable pub bounded_line : List ℕ → Line
bounded_line b = read_line 4096 b

-- A byte of a token, in which a header's name is put into its usual form.
unfoldable pub is_token : ℕ → Bool
is_token c =
    (leb 48 c && leb c 57)
    || (leb 65 c && leb c 90)
    || (leb 94 c && leb c 122)
    || c == 33
    || (leb 35 c && leb c 39)
    || c == 42
    || c == 43
    || c == 45
    || c == 46
    || c == 124
    || c == 126

unfoldable pub all_tokens : List ℕ → Bool
all_tokens [] = true
all_tokens (c ∷ s) = is_token c && all_tokens s

unfoldable pub capitals : Bool → List ℕ → List ℕ
capitals upper [] = []
capitals upper (c ∷ s) = (if upper then upper_letter c else lower_letter c) ∷ capitals (c == 45) s

-- `textproto.CanonicalMIMEHeaderKey`
unfoldable pub canonical : List ℕ → List ℕ
canonical key = if all_tokens key then capitals true key else key

unfoldable pub values_of : List ℕ → List (List ℕ × List ℕ) → List (List ℕ)
values_of key [] = []
values_of key ((k, v) ∷ header) =
    let rest = values_of key header in if same_runes k key then v ∷ rest else rest

unfoldable pub first_or : List ℕ → List (List ℕ) → List ℕ
first_or d [] = d
first_or d (v ∷ vs) = v

-- `header.Get`
unfoldable pub get_header : List ℕ → List (List ℕ × List ℕ) → List ℕ
get_header key header = first_or [] (values_of (canonical key) header)

-- The loop over the lines goes on with the bytes of the head so far, the headers and what is left.
pub data HeadRound : Type 0 where
  at_line : ℕ → List (List ℕ × List ℕ) → List ℕ → HeadRound
  head_read : List (List ℕ × List ℕ) → List ℕ → HeadRound
  no_head : RtspError → HeadRound

unfoldable pub add_header :
    ℕ → List (List ℕ × List ℕ) → Option (List ℕ × List ℕ) → List ℕ → HeadRound
add_header total header none rest = no_head invalid_header
add_header total header (some (k, v)) rest =
    at_line total (header ++ ((canonical k, trim_space v) ∷ [])) rest

unfoldable pub take_header : ℕ → List (List ℕ × List ℕ) → Line → HeadRound
take_header total header (no_line e) = no_head e
take_header total header (line_read s rest) =
    if ltb 32768 (total + length s)
    then no_head oversized_headers
    else (if same_runes s (13 ∷ 10 ∷ [])
        then head_read header rest
        else add_header (total + length s) header (cut_at 58 (trim_space s)) rest)

unfoldable pub head_round : HeadRound → HeadRound
head_round (at_line total header b) = take_header total header (bounded_line b)
head_round (head_read header b) = head_read header b
head_round (no_head e) = no_head e

unfoldable pub head_rounds : ℕ → HeadRound → HeadRound
head_rounds zero state = state
head_rounds (suc rounds) state = head_rounds rounds (head_round state)

pub data Received : Type 0 where
  received : Message → List ℕ → Received
  not_received : RtspError → Received

unfoldable pub read_body : List ℕ → List (List ℕ × List ℕ) → List ℕ → Option ℕ → Received
read_body line header b none = not_received invalid_length
read_body line header b (some n) =
    if ltb 2097152 n
    then not_received invalid_length
    else (if ltb (length b) n
        then not_received connection_lost
        else received (record { line = line; header = header; body = take n b }) (drop n b))

unfoldable pub with_length : List ℕ → List (List ℕ × List ℕ) → List ℕ → List (List ℕ) → Received
with_length line header b [] = received (record { line = line; header = header; body = [] }) b
with_length line header b ([] ∷ []) =
    received (record { line = line; header = header; body = [] }) b
with_length line header b ((c ∷ v) ∷ []) = read_body line header b (natural (c ∷ v))
with_length line header b (v ∷ w ∷ vs) = not_received duplicate_length

unfoldable pub after_head : List ℕ → HeadRound → Received
after_head line (at_line total header b) = not_received out_of_rounds
after_head line (no_head e) = not_received e
after_head line (head_read header b) =
    with_length line header b (values_of (runes "Content-Length") header)

-- A line takes a byte at least.
unfoldable pub after_line : Line → Received
after_line (no_line e) = not_received e
after_line (line_read s b) =
    after_head (trim_space s) (head_rounds (suc (length b)) (at_line (length s) [] b))

unfoldable pub read_message : List ℕ → Received
read_message b = after_line (bounded_line b)

-- `legacy` is an AirPlay 1 receiver.
pub record Control : Type 0 where
  pub seq : ℕ
  pub url : List ℕ
  pub id : List ℕ
  pub session : List ℕ
  pub legacy : Bool

unfoldable pub has_break : List ℕ → Bool
has_break [] = false
has_break (c ∷ s) = c == 13 || c == 10 || has_break s

unfoldable pub any_break : List (List ℕ × List ℕ) → Bool
any_break [] = false
any_break ((k, v) ∷ headers) = has_break k || has_break v || any_break headers

unfoldable pub header_line : List ℕ → List ℕ → List ℕ
header_line k v = k ++ (runes ": " ++ (v ++ (13 ∷ 10 ∷ [])))

unfoldable pub line_unless_empty : List ℕ → List ℕ → List ℕ
line_unless_empty k [] = []
line_unless_empty k (c ∷ v) = header_line k (c ∷ v)

unfoldable pub header_lines : List (List ℕ × List ℕ) → List ℕ
header_lines [] = []
header_lines ((k, v) ∷ headers) = header_line k v ++ header_lines headers

unfoldable pub or_path : List ℕ → List ℕ → List ℕ
or_path [] url = url
or_path (c ∷ path) url = c ∷ path

-- The request as it is written; `decimal` is `strconv.Itoa`. Go goes through the further headers in any order.
unfoldable pub request_bytes :
    (ℕ → List ℕ) → Control → List ℕ → List ℕ → List ℕ → List ℕ → List (List ℕ × List ℕ) → List ℕ
request_bytes decimal c method path typ body headers =
    method
    ++ ((32 ∷ path)
        ++ (runes " RTSP/1.0"
            ++ ((13 ∷ 10 ∷ [])
                ++ (header_line (runes "CSeq") (decimal c.seq)
                    ++ (header_line (runes "User-Agent") (
                          if c.legacy
                          then runes "iTunes/12.9.4 (Macintosh; OS X 10.14.4)"
                          else runes "AirPlay/409.16")
                        ++ (header_line (runes "DACP-ID") c.id
                            ++ (header_line (runes "Client-Instance") c.id
                                ++ (line_unless_empty (runes "Session") c.session
                                    ++ (line_unless_empty (runes "Content-Type") typ
                                        ++ (header_lines headers
                                            ++ (header_line (runes "Content-Length")
                                                  (decimal (length body))
                                                ++ ((13 ∷ 10 ∷ []) ++ body))))))))))))

unfoldable pub is_auth : List ℕ → Bool
is_auth status = same_runes status (runes "401") || same_runes status (runes "470")

unfoldable pub check_status : (ℕ → List ℕ) → Control → Message → List ℕ → List (List ℕ) → Received
check_status decimal c m rest (protocol ∷ status ∷ words) =
    let seq = get_header (runes "CSeq") m.header in
    if not (same_runes protocol (runes "RTSP/1.0"))
    then not_received invalid_status
    else (if not (same_runes seq [] || same_runes seq (decimal c.seq))
        then not_received sequence_mismatch
        else (if c.legacy && is_auth status
            then not_received unsupported_auth
            else (if is_auth status
                then not_received pairing_required
                else (if not (same_runes status (runes "200"))
                    then not_received (refused status)
                    else received m rest))))
check_status decimal c m rest words = not_received invalid_status

unfoldable pub check_answer : (ℕ → List ℕ) → Control → Received → Received
check_answer decimal c (not_received e) = not_received e
check_answer decimal c (received m rest) = check_status decimal c m rest (fields_from [] m.line)

-- What an exchange did: the control after it, the bytes that it began to write and the answer.
pub record Exchange : Type 0 where
  pub control : Control
  pub sent : List ℕ
  pub answer : Received

-- `accepts` tells whether all bytes are written; `b` is what the receiver sends.
unfoldable pub exchange :
    (ℕ → List ℕ)
    → (List ℕ → Bool)
    → List ℕ
    → List ℕ
    → List ℕ
    → List ℕ
    → List ℕ
    → List (List ℕ × List ℕ)
    → Control
    → Exchange
exchange decimal accepts b method path typ body headers c =
    let next : Control = record c { seq = c.seq + 1 } in
    let bytes = request_bytes decimal next method (or_path path c.url) typ body headers in
    if any_break headers
    then record { control = next; sent = []; answer = not_received invalid_header }
    else (if accepts bytes
        then record {
          control = next;
          sent = bytes;
          answer = check_answer decimal next (read_message b);
        }
        else record { control = next; sent = bytes; answer = not_received not_sent })
