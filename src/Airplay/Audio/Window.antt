-- ===== src/Airplay/Audio/Window.antt =====
-- The last 512 packets can be asked for again.
use harmonia_server.Prelude.{
  ℕ, zero, suc, ◌+◌, ◌-◌, ◌*◌, ◌%◌, ◌^◌, ◌<◌, ◌≤◌, ◌≡◌, refl, subst, true, false, List, [], ◌∷◌,
  Option, none, some, arith, if◌then◌else◌, ◌==◌, get_elem?, length,
}
use harmonia_server.Airplay.Audio.{
  AudioSession, add_sent, send_round, send_frames, put_found, resend_range, packet_of, drop_packet,
  put_packet, mark_first, keep_packet, send_made, send_frame,
}

packet_of-drop_packet :
    (q gone : ℕ) (packets : List (ℕ × List ℕ))
    → packet_of q (drop_packet gone packets) ≡ (if gone == q then none else packet_of q packets)
unfolding packet_of drop_packet
packet_of-drop_packet q gone [] = ground arith
packet_of-drop_packet q gone ((k, p) ∷ packets) =
    ground (arith, packet_of-drop_packet q gone packets)

packet_of-put_packet :
    (q seq : ℕ) (p : List ℕ) (packets : List (ℕ × List ℕ))
    → packet_of q (put_packet seq p packets) ≡ (if seq == q then some p else packet_of q packets)
unfolding packet_of put_packet
packet_of-put_packet q seq p packets = ground (arith, packet_of-drop_packet q seq packets)

-- The packets sent, the last one first, and the numbers that they had.
pub record Keeps (s : AudioSession) (sent : List (List ℕ)) : Type 0 where
  pub below : s.seq < 65536
  pub window :
      (i : ℕ)
      → i < 512
      → i < length sent
      → packet_of ((s.seq + 65535 - i) % 65536) s.packets ≡ get_elem? sent i

keep_packet-Keeps :
    (p : List ℕ) (s : AudioSession) (sent : List (List ℕ))
    → Keeps s sent
    → Keeps (keep_packet p s) (p ∷ sent)
unfolding keep_packet
keep_packet-Keeps p s sent k = record { below = omega arith; window = kept }
  where
    kept :
        (i : ℕ)
        → i < 512
        → i < length (p ∷ sent)
        → packet_of
            (((s.seq + 1) % 65536 + 65535 - i) % 65536)
            (drop_packet ((s.seq + 65024) % 65536) (put_packet s.seq p s.packets))
          ≡ get_elem? (p ∷ sent) i
    kept zero h l =
        let low : s.seq < 65536 = k.below in
        let key : ((s.seq + 1) % 65536 + 65535 - 0) % 65536 ≡ s.seq = omega arith in
        let new : ((s.seq + 65024) % 65536 == s.seq) ≡ false = ground arith in
        let same : (s.seq == s.seq) ≡ true = ground arith in
        rw
          (
            key,
            packet_of-drop_packet s.seq ((s.seq + 65024) % 65536) (put_packet s.seq p s.packets),
            new,
            packet_of-put_packet s.seq s.seq p s.packets,
            same,
          )
          refl
    kept (suc i) h l =
        let low : s.seq < 65536 = k.below in
        let q : ℕ = (s.seq + 65535 - i) % 65536 in
        let key : ((s.seq + 1) % 65536 + 65535 - suc i) % 65536 ≡ q = omega arith in
        let stays : ((s.seq + 65024) % 65536 == q) ≡ false = ground arith in
        let other : (s.seq == q) ≡ false = ground arith in
        rw
          (
            key,
            packet_of-drop_packet q ((s.seq + 65024) % 65536) (put_packet s.seq p s.packets),
            stays,
            packet_of-put_packet q s.seq p s.packets,
            other,
          )
          (k.window i (omega arith) (omega arith))

-- The numbers of a session after so many packets.
abbrev pub IsAfter : AudioSession → ℕ → AudioSession → Type 0
IsAfter s n t =
    (t.seq ≡ (s.seq + n) % 65536)
    × (t.stamp ≡ (s.stamp + 352 * n) % 4294967296)
    × (t.counter ≡ (s.counter + n) % 2 ^ 64)

abbrev StateKeeps : AudioSession → Option (AudioSession × List (List ℕ)) → Type 0
StateKeeps s none = Unit {0}
StateKeeps s (some (t, sent)) = Keeps t sent × IsAfter s (length sent) t

keep_packet-IsAfter :
    (s t : AudioSession) (n : ℕ) (p : List ℕ) → IsAfter s n t → IsAfter s (suc n) (keep_packet p t)
unfolding keep_packet
keep_packet-IsAfter s t n p a = (omega (arith, a.0), omega (arith, a.1), omega (arith, a.2))

send_round-Keeps :
    (make : ℕ → ℕ → ℕ → ℕ → List ℕ → Option (List ℕ)) (pcm : List ℕ) (s : AudioSession)
    (state : Option (AudioSession × List (List ℕ)))
    → StateKeeps s state
    → StateKeeps s (send_round make pcm state)
unfolding send_round send_frame add_sent send_made
send_round-Keeps make pcm s none k = tt
send_round-Keeps make pcm s (some (t, sent)) k = made (make t.seq t.stamp t.ssrc t.counter pcm)
  where
    made : (packet : Option (List ℕ)) → StateKeeps s (add_sent sent (send_made packet t))
    made none = tt
    made (some packet) =
        let marked : List ℕ = mark_first t.counter packet in
        (keep_packet-Keeps marked t sent k.0, keep_packet-IsAfter s t (length sent) marked k.1)

send_frames-Keeps :
    (make : ℕ → ℕ → ℕ → ℕ → List ℕ → Option (List ℕ)) (pcms : List (List ℕ)) (s : AudioSession)
    (state : Option (AudioSession × List (List ℕ)))
    → StateKeeps s state
    → StateKeeps s (send_frames make pcms state)
unfolding send_frames
send_frames-Keeps make [] s state k = k
send_frames-Keeps make (pcm ∷ pcms) s state k =
    send_frames-Keeps make pcms s _ (send_round-Keeps make pcm s state k)

-- The last n packets sent, the oldest of them first.
abbrev pub last_sent : ℕ → List (List ℕ) → List (List ℕ)
last_sent zero sent = []
last_sent (suc n) sent = put_found (get_elem? sent n) (last_sent n sent)

resend_range-Keeps :
    (t : AudioSession) (sent : List (List ℕ)) (n : ℕ)
    → Keeps t sent
    → n ≤ 512
    → n ≤ length sent
    → resend_range n ((t.seq + 65536 - n) % 65536) t.packets ≡ last_sent n sent
unfolding resend_range
resend_range-Keeps t sent zero k h l = refl
resend_range-Keeps t sent (suc n) k h l =
    let low : t.seq < 65536 = k.below in
    let here : (t.seq + 65536 - suc n) % 65536 ≡ (t.seq + 65535 - n) % 65536 = omega arith in
    let next : ((t.seq + 65535 - n) % 65536 + 1) % 65536 ≡ (t.seq + 65536 - n) % 65536 =
      omega arith in
    rw
      (
        here,
        k.window n (omega arith) (omega arith),
        next,
        resend_range-Keeps t sent n k (omega arith) (omega arith),
      )
      refl

-- After any frames of a new session, whatever the packets are made of: the sequence number, the time stamp and the
-- nonce counter have advanced by the packets sent and wrap at 16, 32 and 64 bits; and a receiver that asks for the
-- last n packets gets just these, the oldest first, for n up to 512.
pub send_frames-resends :
    (make : ℕ → ℕ → ℕ → ℕ → List ℕ → Option (List ℕ)) (pcms sent : List (List ℕ))
    (s t : AudioSession) (n : ℕ)
    → s.seq < 65536
    → s.stamp < 4294967296
    → s.counter < 2 ^ 64
    → send_frames make pcms (some (s, [])) ≡ some (t, sent)
    → n ≤ 512
    → n ≤ length sent
    → IsAfter s (length sent) t
      × (resend_range n ((t.seq + 65536 - n) % 65536) t.packets ≡ last_sent n sent)
send_frames-resends make pcms sent s t n low short few e h l =
    let fresh : Keeps s [] = record { below = low; window = λ i a b. absurd (omega arith) } in
    let start : StateKeeps s (some (s, [])) = (fresh, (omega arith, omega arith, omega arith)) in
    let after : StateKeeps s (some (t, sent)) =
      subst (StateKeeps s) e (send_frames-Keeps make pcms s (some (s, [])) start) in
    (after.1, resend_range-Keeps t sent n after.0 h l)
