-- ===== src/Airplay/Found.antt =====
-- Small answers of receivers, and the theorems about them applied.
use harmonia_server.Airplay.Audio.{
  AudioSession, send_frames, send_round, add_sent, send_frame, send_made, mark_first, keep_packet,
  put_packet, drop_packet, rtp_header, resend_range,
}
use harmonia_server.Airplay.Audio.{alac}
use harmonia_server.Airplay.Audio.Samples.{header_bits, unpack, read_samples, read_samples-alac}
use harmonia_server.Prelude.{◌*◌, ◌/◌, take, drop}
use harmonia_server.Airplay.Audio.Window.{IsAfter, last_sent, send_frames-resends}
use harmonia_server.Airplay.Clock.{put_big}
use harmonia_server.Prelude.{Option, ◌+◌, ◌%◌}
use harmonia_server.Airplay.Clock.Replies.{AnswersOf, receive-Answers}
use harmonia_server.Airplay.Clock.{Moment, receive}
use harmonia_server.Airplay.Rtsp.Answers.{Exchanged, exchange-Exchanged}
use harmonia_server.Airplay.Rtsp.Limits.{MessageOf, read_message-MessageOf}
use harmonia_server.Airplay.Rtsp.{read_message, Control, exchange}
use harmonia_server.Prelude.{
  ℕ, ◌-◌, ◌<◌, ◌≡◌, refl, List, [], ◌∷◌, ◌++◌, some, arith, length, zero, suc, true, false, All,
  ◌⊎◌,
}
use harmonia_server.Prelude.Runes.{
  runes, split_at, begin_first, same_runes, trim_suffix, lower_letter,
}
use harmonia_server.Airplay.Dns.{dns_name, query, labels_fit, put_labels, put_16}
use harmonia_server.Airplay.Dns.Names.{AreNonempty, dns_name-query}
use harmonia_server.Airplay.Devices.{Service, devices_from_services}
use harmonia_server.Airplay.Devices.Merged.{
  HasEachIdOnce, best_rank, offered, devices_from_services-best_rank,
}

abbrev asked_name : List ℕ
asked_name = runes "_raop._tcp.local"

abbrev asked_bytes : List ℕ
asked_bytes =
    0 ∷ 0 ∷ 0 ∷ 0 ∷ 0 ∷ 1 ∷ 0 ∷ 0 ∷ 0 ∷ 0 ∷ 0 ∷ 0 ∷ (5 ∷ runes "_raop")
    ++ ((4 ∷ runes "_tcp") ++ ((5 ∷ runes "local") ++ (0 ∷ 0 ∷ 12 ∷ 128 ∷ 1 ∷ [])))

asked_bytes-query : query (asked_name ++ (46 ∷ [])) 12 ≡ some asked_bytes
unfolding query labels_fit put_labels put_16 split_at begin_first same_runes trim_suffix
asked_bytes-query = refl

asked_name-AreNonempty : AreNonempty (split_at 46 asked_name)
unfolding split_at begin_first
asked_name-AreNonempty = (omega arith, (omega arith, (omega arith, tt)))

asked_name-short : length (split_at 46 asked_name) < 128
unfolding split_at begin_first
asked_name-short = omega arith

dns_name-query_example :
    dns_name asked_bytes 12 ≡ some (asked_name ++ (46 ∷ []), length asked_bytes - 4)
dns_name-query_example =
    dns_name-query asked_name 12 asked_bytes asked_bytes-query asked_name-AreNonempty
      asked_name-short

-- One speaker that speaks both protocols.
abbrev kitchen : Service
kitchen = record {
  name = runes "Kitchen";
  host = runes "kitchen.local.";
  port = 7000;
  txt =
      (runes "deviceid", runes "AA:BB:CC:DD:EE:FF")
      ∷ (runes "features", runes "0x445F8A00,0x1C340")
      ∷ [];
}

abbrev old_kitchen : Service
old_kitchen = record kitchen { name = runes "AABBCCDDEEFF@Kitchen"; port = 5000; txt = [] }

abbrev services : List (List ℕ × Service)
services =
    (runes "aabbccddeeff@kitchen._raop._tcp.local.", old_kitchen)
    ∷ (runes "kitchen._airplay._tcp.local.", kitchen)
    ∷ []

abbrev hosts : List (List ℕ × List ℕ)
hosts = (runes "kitchen.local.", runes "10.0.0.2") ∷ []

devices_from_services-best_rank_example :
    HasEachIdOnce (devices_from_services lower_letter services hosts)
    × ((id : List ℕ)
        → best_rank id (devices_from_services lower_letter services hosts)
          ≡ best_rank id (offered lower_letter hosts services))
devices_from_services-best_rank_example =
    devices_from_services-best_rank lower_letter services hosts

-- An answer of a receiver and the exchange that reads it.
abbrev answer_bytes : List ℕ
answer_bytes =
    runes "RTSP/1.0 200 OK"
    ++ (13 ∷ 10 ∷ [])
    ++ (runes "CSeq: 1" ++ (13 ∷ 10 ∷ []) ++ (13 ∷ 10 ∷ []))

read_message-MessageOf_example : MessageOf answer_bytes (read_message answer_bytes)
read_message-MessageOf_example = read_message-MessageOf answer_bytes

abbrev unary : ℕ → List ℕ
unary zero = []
unary (suc n) = 49 ∷ unary n

abbrev first_control : Control
first_control = record {
  seq = 0;
  url = runes "rtsp://10.0.0.2/1";
  id = runes "A1";
  session = [];
  legacy = false;
}

exchange-Exchanged_example : Exchanged unary first_control [] (
    exchange unary
      (λ bytes. true)
      answer_bytes
      (runes "GET")
      (runes "/info")
      []
      []
      []
      first_control)
exchange-Exchanged_example =
    exchange-Exchanged unary (λ bytes. true) answer_bytes (runes "GET") (runes "/info") [] [] []
      first_control

-- A PTP request of a peer's delay.
abbrev delay_request : List ℕ
delay_request =
    18 ∷ 2 ∷ 0 ∷ 44 ∷ 0 ∷ 0 ∷ 0 ∷ 0 ∷ 0 ∷ 0 ∷ 0 ∷ 0 ∷ 0 ∷ 0 ∷ 0 ∷ 0 ∷ 0 ∷ 0 ∷ 0 ∷ 0 ∷ 9 ∷ 9 ∷ 9 ∷ 9
    ∷ 9 ∷ 9 ∷ 9 ∷ 9 ∷ 0 ∷ 1 ∷ 0 ∷ 7 ∷ 5 ∷ 127 ∷ 0 ∷ 0 ∷ 0 ∷ 0 ∷ 0 ∷ 0 ∷ 0 ∷ 0 ∷ 0 ∷ 0 ∷ []

abbrev noon : Moment
noon = record { seconds = 43200; nanos = 5 }

receive-Answers_example :
    All
      (AnswersOf true delay_request)
      (receive (λ s. true) (record { id = 5; ptp = true }) true delay_request noon noon).sent
    × ((true ≡ true)
        ⊎ ((receive (λ s. true) (record { id = 5; ptp = true }) true delay_request noon noon).sent
            ≡ []))
receive-Answers_example =
    receive-Answers (λ s. true) (record { id = 5; ptp = true }) true delay_request noon noon

-- A packet without compression or encryption.
abbrev plain_packet : ℕ → ℕ → ℕ → ℕ → List ℕ → Option (List ℕ)
plain_packet seq stamp ssrc counter pcm = some (rtp_header seq stamp ssrc ++ pcm)

-- A session whose numbers are about to wrap.
abbrev at_wrap : AudioSession
at_wrap = record { seq = 65535; stamp = 4294967295; ssrc = 7; counter = 0; packets = [] }

abbrev first_packet : List ℕ
first_packet = 128 ∷ 224 ∷ 255 ∷ 255 ∷ 255 ∷ 255 ∷ 255 ∷ 255 ∷ 0 ∷ 0 ∷ 0 ∷ 7 ∷ 1 ∷ []

abbrev second_packet : List ℕ
second_packet = 128 ∷ 96 ∷ 0 ∷ 0 ∷ 0 ∷ 0 ∷ 1 ∷ 95 ∷ 0 ∷ 0 ∷ 0 ∷ 7 ∷ 2 ∷ []

abbrev wrapped : AudioSession
wrapped = record {
  seq = 1;
  stamp = 703;
  ssrc = 7;
  counter = 2;
  packets = (0, second_packet) ∷ (65535, first_packet) ∷ [];
}

at_wrap-wrapped :
    send_frames plain_packet ((1 ∷ []) ∷ (2 ∷ []) ∷ []) (some (at_wrap, []))
    ≡ some (wrapped, second_packet ∷ first_packet ∷ [])
unfolding send_frames send_round add_sent send_frame send_made mark_first keep_packet put_packet
    drop_packet rtp_header put_16 put_big
at_wrap-wrapped = refl

send_frames-resends_example :
    IsAfter at_wrap 2 wrapped
    × (resend_range 2 ((wrapped.seq + 65536 - 2) % 65536) wrapped.packets
        ≡ last_sent 2 (second_packet ∷ first_packet ∷ []))
send_frames-resends_example =
    send_frames-resends plain_packet ((1 ∷ []) ∷ (2 ∷ []) ∷ []) (second_packet ∷ first_packet ∷ [])
      at_wrap wrapped 2 (omega arith) (omega arith) (omega arith) at_wrap-wrapped (omega arith)
      (omega arith)

abbrev two_frames : List ℕ
two_frames = 1 ∷ 2 ∷ 255 ∷ 127 ∷ 0 ∷ 128 ∷ 9 ∷ 0 ∷ []

read_samples-alac_example :
    (take 23 (unpack (alac two_frames)) ≡ header_bits)
    × (read_samples 4 (drop 23 (unpack (alac two_frames))) ≡ two_frames)
    × (length (alac two_frames) ≡ (23 + 4 * 16 + 3 + 7) / 8)
read_samples-alac_example =
    read_samples-alac 4 two_frames
      (
        omega arith,
        (
          omega arith,
          (
            omega arith,
            (omega arith, (omega arith, (omega arith, (omega arith, (omega arith, tt))))),
          ),
        ),
      )
      refl
