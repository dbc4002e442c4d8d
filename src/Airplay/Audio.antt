-- ===== src/Airplay/Audio.antt =====
-- The audio packets of internal/airplay: `alac` and `audioPacket` of audio.go, and what `Stream` and `retransmits` of session.go do with the packets, without their timing.
pub mod Samples
pub mod Window
use harmonia_server.Prelude.{
  ℕ, zero, suc, ◌+◌, ◌*◌, ◌/◌, ◌%◌, ◌^◌, min, Bool, not, ◌||◌, List, [], ◌∷◌, ◌++◌, Option, none,
  some, if◌then◌else◌, ltb, ◌==◌, length, take, drop, get_or,
}
use harmonia_server.Airplay.Dns.{big_16, put_16}
use harmonia_server.Airplay.Clock.{put_big}

abbrev pub frames_per_packet : ℕ
frames_per_packet = 352

abbrev pub pcm_bytes : ℕ
pcm_bytes = 1408

-- The bits of a number, the high ones first.
unfoldable pub put_bits : ℕ → ℕ → List ℕ
put_bits zero n = []
put_bits (suc k) n = (n / 2 ^ k % 2) ∷ put_bits k n

-- The samples are 16-bit numbers, the low byte first.
unfoldable pub sample_bits : List ℕ → List ℕ
sample_bits (low ∷ high ∷ pcm) = put_bits 16 (low + 256 * high) ++ sample_bits pcm
sample_bits pcm = []

-- The header of a verbatim stereo element, the samples and the end.
unfoldable pub alac_bits : List ℕ → List ℕ
alac_bits pcm =
    put_bits 3 1
    ++ (put_bits 4 0
        ++ (put_bits 12 0
            ++ (put_bits 1 0
                ++ (put_bits 2 0 ++ (put_bits 1 1 ++ (sample_bits pcm ++ put_bits 3 7))))))

-- Eight bits in a byte, the last byte with zeros behind.
unfoldable pub pack : List ℕ → List ℕ
pack (b7 ∷ b6 ∷ b5 ∷ b4 ∷ b3 ∷ b2 ∷ b1 ∷ b0 ∷ bits) =
    (b7 * 128 + b6 * 64 + b5 * 32 + b4 * 16 + b3 * 8 + b2 * 4 + b1 * 2 + b0) ∷ pack bits
pack [] = []
pack (b7 ∷ bits) =
    (b7 * 128
      + get_or bits 0 0 * 64
      + get_or bits 1 0 * 32
      + get_or bits 2 0 * 16
      + get_or bits 3 0 * 8
      + get_or bits 4 0 * 4
      + get_or bits 5 0 * 2
      + get_or bits 6 0)
    ∷ []

unfoldable pub alac : List ℕ → List ℕ
alac pcm = pack (alac_bits pcm)

unfoldable pub rtp_header : ℕ → ℕ → ℕ → List ℕ
rtp_header seq stamp ssrc = 0x80 ∷ 0x60 ∷ (put_16 seq ++ (put_big 4 stamp ++ put_big 4 ssrc))

-- The counter in eight bytes, the low ones first.
unfoldable pub put_little : ℕ → ℕ → List ℕ
put_little zero n = []
put_little (suc k) n = (n % 256) ∷ put_little k (n / 256)

-- `seal nonce plain aad` is the AEAD under the session's key; no packet for a frame of another size.
unfoldable pub audio_packet :
    (List ℕ → List ℕ → List ℕ → List ℕ) → ℕ → ℕ → ℕ → ℕ → List ℕ → Option (List ℕ)
audio_packet seal seq stamp ssrc counter pcm =
    let header = rtp_header seq stamp ssrc in
    let nonce = put_little 8 counter in
    if not (length pcm == pcm_bytes)
    then none
    else some
        (header ++ (seal (0 ∷ 0 ∷ 0 ∷ 0 ∷ nonce) (alac pcm) (take 8 (drop 4 header)) ++ nonce))

-- The numbers of a session and the packets that it keeps for a receiver that asks again.
pub record AudioSession : Type 0 where
  pub seq : ℕ
  pub stamp : ℕ
  pub ssrc : ℕ
  pub counter : ℕ
  pub packets : List (ℕ × List ℕ)

unfoldable pub packet_of : ℕ → List (ℕ × List ℕ) → Option (List ℕ)
packet_of seq [] = none
packet_of seq ((k, p) ∷ packets) = if k == seq then some p else packet_of seq packets

unfoldable pub drop_packet : ℕ → List (ℕ × List ℕ) → List (ℕ × List ℕ)
drop_packet seq [] = []
drop_packet seq ((k, p) ∷ packets) =
    let rest = drop_packet seq packets in if k == seq then rest else (k, p) ∷ rest

unfoldable pub put_packet : ℕ → List ℕ → List (ℕ × List ℕ) → List (ℕ × List ℕ)
put_packet seq p packets = (seq, p) ∷ drop_packet seq packets

-- The first packet has the marker bit: `packet[1] |= 0x80`.
unfoldable pub mark_first : ℕ → List ℕ → List ℕ
mark_first counter (a ∷ b ∷ packet) = a ∷ (if counter == 0 then b % 128 + 128 else b) ∷ packet
mark_first counter packet = packet

-- A packet is kept, the one 512 numbers before goes, and the numbers wrap.
unfoldable pub keep_packet : List ℕ → AudioSession → AudioSession
keep_packet packet s = record s {
  packets = drop_packet ((s.seq + 65024) % 65536) (put_packet s.seq packet s.packets);
  seq = (s.seq + 1) % 65536;
  stamp = (s.stamp + frames_per_packet) % 4294967296;
  counter = (s.counter + 1) % 2 ^ 64;
}

unfoldable pub send_made : Option (List ℕ) → AudioSession → Option (List ℕ × AudioSession)
send_made none s = none
send_made (some packet) s =
    let marked = mark_first s.counter packet in some (marked, keep_packet marked s)

-- A round of `Stream` on a frame of PCM, and the packet that is sent; `make` is `audioPacket` or `raopPacket`.
unfoldable pub send_frame :
    (ℕ → ℕ → ℕ → ℕ → List ℕ → Option (List ℕ))
    → List ℕ
    → AudioSession
    → Option (List ℕ × AudioSession)
send_frame make pcm s = send_made (make s.seq s.stamp s.ssrc s.counter pcm) s

-- The session and the packets sent so far, the last one first; none after an error.
unfoldable pub add_sent :
    List (List ℕ) → Option (List ℕ × AudioSession) → Option (AudioSession × List (List ℕ))
add_sent sent none = none
add_sent sent (some (packet, s)) = some (s, packet ∷ sent)

unfoldable pub send_round :
    (ℕ → ℕ → ℕ → ℕ → List ℕ → Option (List ℕ))
    → List ℕ
    → Option (AudioSession × List (List ℕ))
    → Option (AudioSession × List (List ℕ))
send_round make pcm none = none
send_round make pcm (some (s, sent)) = add_sent sent (send_frame make pcm s)

unfoldable pub send_frames :
    (ℕ → ℕ → ℕ → ℕ → List ℕ → Option (List ℕ))
    → List (List ℕ)
    → Option (AudioSession × List (List ℕ))
    → Option (AudioSession × List (List ℕ))
send_frames make [] state = state
send_frames make (pcm ∷ pcms) state = send_frames make pcms (send_round make pcm state)

unfoldable pub put_found : Option (List ℕ) → List (List ℕ) → List (List ℕ)
put_found none rest = rest
put_found (some p) rest = p ∷ rest

-- The packets sent for a range of numbers, at most 512 of them.
unfoldable pub resend_range : ℕ → ℕ → List (ℕ × List ℕ) → List (List ℕ)
resend_range zero seq packets = []
resend_range (suc count) seq packets =
    put_found (packet_of seq packets) (resend_range count ((seq + 1) % 65536) packets)

unfoldable pub retransmit : Bool → List ℕ → AudioSession → List (List ℕ)
retransmit from_target b s =
    if ltb (length b) 8 || not from_target || not (get_or b 1 0 % 128 == 0x55)
    then []
    else resend_range (min (big_16 6 b) 512) (big_16 4 b) s.packets
