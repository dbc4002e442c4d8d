-- ===== src/Airplay/Clock/Replies.antt =====
-- The packets that the clock sends are well formed and answer the packet that came.
use harmonia_server.Prelude.{
  ◌⊎◌, ◌≤◌, ◌&&◌, ap, ◌∙◌, sym, length-append, length-take, length-drop, append_assoc, ℕ, zero, suc,
  ◌+◌, ◌%◌, ◌≡◌, refl, inl, inr, Bool, true, false, not, ◌||◌, List, [], ◌∷◌, ◌++◌, Option, none,
  some, arith, ltb, leb, ◌==◌, length, take, drop, get_or, All, Bool-cases, take-append,
  drop-append,
}
use harmonia_server.Airplay.Dns.{big_16, put_16}
use harmonia_server.Airplay.Clock.{
  put_big, put_at, ptp_header, two_step, Moment, ptp_time, event, Send, ClockServer, delay_packet,
  path_delay, delay_reply, ptp_reply, receive, signal_packet, signal_send, signal_round,
  signal_rounds, signal_reply, ntp_reply, ntp_packet, ntp,
}

-- A PTP packet that says its own length and has the number of the request.
abbrev pub AnswersPtp : List ℕ → Send → Type 0
AnswersPtp b s = (big_16 2 s.bytes ≡ length s.bytes) × (big_16 30 s.bytes ≡ big_16 30 b % 65536)

-- An NTP packet of 32 bytes that gives the request's time back.
abbrev pub AnswersNtp : List ℕ → Send → Type 0
AnswersNtp b s = (length s.bytes ≡ 32) × (take 8 (drop 8 s.bytes) ≡ take 8 (drop 24 b))

length-put_at : (p : ℕ) (x b : List ℕ) → p + length x ≤ length b → length (put_at p x b) ≡ length b
unfolding put_at
length-put_at p x b h = omega (
  arith,
  length-append (take p b) (x ++ drop (p + length x) b),
  length-append x (drop (p + length x) b),
  length-take p b,
  length-drop (p + length x) b,
)

length-ptp_header :
    (id kind seq : ℕ)
    → (length (ptp_header id kind 54 seq) ≡ 54) × (length (ptp_header id kind 56 seq) ≡ 56)
unfolding ptp_header
length-ptp_header id kind seq = (refl, refl)

length-delay_packet :
    (id kind seq : ℕ) (b : List ℕ) (t : Moment) → length (delay_packet id kind seq b t) ≡ 54
unfolding delay_packet ptp_time
length-delay_packet id kind seq b t =
    let head : List ℕ = ptp_header id kind 54 seq in
    let size : length head ≡ 54 = (length-ptp_header id kind seq).0 in
    let timed : length (put_at 34 (ptp_time t) head) ≡ 54 =
      length-put_at 34 (ptp_time t) head (omega (arith, size)) ∙ size in
    length-put_at 44 (take 10 (drop 20 b)) (put_at 34 (ptp_time t) head)
      (omega (arith, timed, length-take 10 (drop 20 b)))
    ∙ timed

delay_packet-Answers :
    (id kind : ℕ) (b : List ℕ) (t : Moment)
    → (big_16 2 (delay_packet id kind (big_16 30 b) b t) ≡ 54)
      × (big_16 30 (delay_packet id kind (big_16 30 b) b t) ≡ big_16 30 b % 65536)
unfolding delay_packet ptp_header ptp_time big_16
delay_packet-Answers id kind b t = (refl, omega arith)

two_step-Answers :
    (id kind : ℕ) (b : List ℕ) (t : Moment)
    → (big_16 2 (two_step (delay_packet id kind (big_16 30 b) b t)) ≡ 54)
      × (big_16 30 (two_step (delay_packet id kind (big_16 30 b) b t)) ≡ big_16 30 b % 65536)
unfolding two_step delay_packet ptp_header ptp_time big_16
two_step-Answers id kind b t = (refl, omega arith)

length-two_step : (b : List ℕ) → 7 ≤ length b → length (two_step b) ≡ length b
unfolding two_step
length-two_step b h = length-put_at 6 (6 ∷ []) b h

signal_packet-Answers :
    (id : ℕ) (b : List ℕ) (p : ℕ)
    → (big_16 2 (signal_packet id b p) ≡ 56)
      × (big_16 30 (signal_packet id b p) ≡ big_16 30 b % 65536)
unfolding signal_packet ptp_header big_16
signal_packet-Answers id b p = (refl, omega arith)

length-signal_packet : (id : ℕ) (b : List ℕ) (p : ℕ) → length (signal_packet id b p) ≡ 56
unfolding signal_packet
length-signal_packet id b p =
    let k0 : List ℕ = ptp_header id 12 56 (big_16 30 b) in
    let k1 : List ℕ = put_at 34 (take 10 (drop 20 b)) k0 in
    let k2 : List ℕ = put_at 44 (put_16 5) k1 in
    let k3 : List ℕ = put_at 46 (put_16 8) k2 in
    let k4 : List ℕ = put_at 48 (take 6 (drop (p + 4) b)) k3 in
    let e0 : length k0 ≡ 56 = (length-ptp_header id 12 (big_16 30 b)).1 in
    let e1 : length k1 ≡ 56 =
      length-put_at 34 (take 10 (drop 20 b)) k0 (omega (arith, e0, length-take 10 (drop 20 b)))
      ∙ e0 in
    let e2 : length k2 ≡ 56 = length-put_at 44 (put_16 5) k1 (omega (arith, e1)) ∙ e1 in
    let e3 : length k3 ≡ 56 = length-put_at 46 (put_16 8) k2 (omega (arith, e2)) ∙ e2 in
    let e4 : length k4 ≡ 56 =
      length-put_at 48 (take 6 (drop (p + 4) b)) k3
        (omega (arith, e3, length-take 6 (drop (p + 4) b)))
      ∙ e3 in
    length-put_at 55 (1 ∷ []) k4 (omega (arith, e4)) ∙ e4

All-snoc {ℓ} :
    {A : Type ℓ} (P : A → Type 0) (xs : List A) (x : A) → All P xs → P x → All P (xs ++ (x ∷ []))
All-snoc P [] x a p = (p, tt)
All-snoc P (y ∷ xs) x a p = (a.0, All-snoc P xs x a.1 p)

module _ (sends : Send → Bool) (id : ℕ) (b : List ℕ) where
  delay_reply-Answers : (now : Moment) → All (AnswersPtp b) (delay_reply sends id b now).sent
  unfolding delay_reply
  delay_reply-Answers now =
      let a : (big_16 2 (delay_packet id 9 (big_16 30 b) b now) ≡ 54)
          × (big_16 30 (delay_packet id 9 (big_16 30 b) b now) ≡ big_16 30 b % 65536) =
        delay_packet-Answers id 9 b now in
      ((a.0 ∙ sym (length-delay_packet id 9 (big_16 30 b) b now), a.1), tt)

  path_delay-Answers :
      (now later : Moment) → All (AnswersPtp b) (path_delay sends id b now later).sent
  unfolding path_delay
  path_delay-Answers now later =
      let seq : ℕ = big_16 30 b in
      let first : Send = record {
        socket = event;
        port = 319;
        bytes = two_step (delay_packet id 3 seq b now);
      } in
      let long : length (two_step (delay_packet id 3 seq b now)) ≡ 54 =
        length-two_step (delay_packet id 3 seq b now)
          (omega (arith, length-delay_packet id 3 seq b now))
        ∙ length-delay_packet id 3 seq b now in
      let one : AnswersPtp b first =
        ((two_step-Answers id 3 b now).0 ∙ sym long, (two_step-Answers id 3 b now).1) in
      elim (Bool-cases (sends first)) [
        | inl went ↦ rw went (
          one,
          (
            (
              (delay_packet-Answers id 10 b later).0 ∙ sym (length-delay_packet id 10 seq b later),
              (delay_packet-Answers id 10 b later).1,
            ),
            tt,
          ),
        )
        | inr failed ↦ rw failed (one, tt)
      ]

  signal_send-Answers :
      (p : ℕ) (sent : List Send)
      → All (AnswersPtp b) sent
      → All (AnswersPtp b) (signal_send id b p sent)
  unfolding signal_send
  signal_send-Answers p sent a = elim (Bool-cases (big_16 p b == 4 && leb 6 (big_16 (p + 2) b))) [
    | inl unicast ↦ rw unicast (
        All-snoc (AnswersPtp b) sent _ a (
          (signal_packet-Answers id b p).0 ∙ sym (length-signal_packet id b p),
          (signal_packet-Answers id b p).1,
        ))
    | inr other ↦ rw other a
  ]

  signal_rounds-Answers :
      (rounds : ℕ) (at_offset : Option ℕ) (sent : List Send)
      → All (AnswersPtp b) sent
      → All (AnswersPtp b) (signal_rounds rounds id b (at_offset, sent))
  unfolding signal_rounds signal_round
  signal_rounds-Answers zero p sent a = a
  signal_rounds-Answers (suc rounds) none sent a = signal_rounds-Answers rounds none sent a
  signal_rounds-Answers (suc rounds) (some p) sent a =
      let l : ℕ = big_16 (p + 2) b in
      elim (Bool-cases (ltb (length b) (p + 4) || ltb (length b) (p + 4 + l))) [
        | inl over ↦ rw over (signal_rounds-Answers rounds none sent a)
        | inr within ↦
            rw within
              (signal_rounds-Answers rounds (some (p + 4 + l)) _ (signal_send-Answers p sent a))
      ]

  signal_reply-Answers : All (AnswersPtp b) (signal_reply id b).sent
  unfolding signal_reply
  signal_reply-Answers = elim (Bool-cases (ltb (length b) 44)) [
    | inl short ↦ rw short tt
    | inr long ↦ rw long (signal_rounds-Answers (length b) (some 44) [] tt)
  ]

  ptp_reply-Answers :
      (now later : Moment) → All (AnswersPtp b) (ptp_reply sends id b now later).sent
  unfolding ptp_reply
  ptp_reply-Answers now later =
      let kind : ℕ = get_or b 0 0 % 16 in
      elim (Bool-cases
        (ltb (length b) 34 || not (get_or b 1 0 % 16 == 2) || ltb (length b) (big_16 2 b))) [
          | inl bad ↦ rw bad tt
          | inr fine ↦ elim (Bool-cases (kind == 1)) [
            | inl delay ↦ rw (fine, delay) (delay_reply-Answers now)
            | inr e1 ↦ elim (Bool-cases (kind == 2)) [
              | inl path ↦ rw (fine, e1, path) (path_delay-Answers now later)
              | inr e2 ↦ elim (Bool-cases (kind == 12)) [
                | inl signal ↦ rw (fine, e1, e2, signal) signal_reply-Answers
                | inr other ↦ rw (fine, e1, e2, other) tt
              ]
            ]
          ]
        ]

take_at : (n : ℕ) (xs ys : List ℕ) → n ≡ length xs → take n (xs ++ ys) ≡ xs
take_at n xs ys e = rw e (take-append xs ys)

drop_at : (n : ℕ) (xs ys : List ℕ) → n ≡ length xs → drop n (xs ++ ys) ≡ ys
drop_at n xs ys e = rw e (drop-append xs ys)

ntp_packet-AnswersNtp :
    (b : List ℕ) (now later : Moment)
    → length b ≡ 32
    → (length (ntp_packet b now later) ≡ 32)
      × (take 8 (drop 8 (ntp_packet b now later)) ≡ take 8 (drop 24 b))
unfolding ntp_packet
ntp_packet-AnswersNtp b now later h =
    let x : List ℕ = take 2 (drop 2 b) in
    let y : List ℕ = take 8 (drop 24 b) in
    let z : List ℕ = put_big 8 (ntp now) ++ put_big 8 (ntp later) in
    let two : length x ≡ 2 = omega (arith, length-take 2 (drop 2 b), length-drop 2 b) in
    let eight : length y ≡ 8 = omega (arith, length-take 8 (drop 24 b), length-drop 24 b) in
    let head : List ℕ = 0x80 ∷ 0xd3 ∷ (x ++ (0 ∷ 0 ∷ 0 ∷ 0 ∷ [])) in
    let same : ntp_packet b now later ≡ head ++ (y ++ z) =
      ap (λ t. 0x80 ∷ 0xd3 ∷ t) (sym (append_assoc x (0 ∷ 0 ∷ 0 ∷ 0 ∷ []) (y ++ z))) in
    let long : length head ≡ 8 = omega (arith, two, length-append x (0 ∷ 0 ∷ 0 ∷ 0 ∷ [])) in
    (
      ap length same ∙ omega (arith, long, eight, length-append head (y ++ z), length-append y z),
      ap (λ t. take 8 (drop 8 t)) same
          ∙ (ap (take 8) (drop_at 8 head (y ++ z) (sym long)) ∙ take_at 8 y z (sym eight)),
    )

ntp_reply-AnswersNtp :
    (sends : Send → Bool) (b : List ℕ) (now later : Moment)
    → All (AnswersNtp b) (ntp_reply sends b now later).sent
unfolding ntp_reply
ntp_reply-AnswersNtp sends b now later =
    elim (Bool-cases (not (length b == 32) || not (get_or b 1 0 % 128 == 0x52))) [
      | inl bad ↦ rw bad tt
      | inr fine ↦ rw fine (ntp_packet-AnswersNtp b now later (ground arith), tt)
    ]

abbrev pub AnswersOf : Bool → List ℕ → Send → Type 0
AnswersOf true b s = AnswersPtp b s
AnswersOf false b s = AnswersNtp b s

-- To whatever packet comes from whichever host, and whatever sending fails: a PTP clock sends packets that
-- say their own length and have the number of the request, and an NTP clock packets of 32 bytes
-- that give the request's time back. Other hosts get no packet.
pub receive-Answers :
    (sends : Send → Bool) (c : ClockServer) (from_peer : Bool) (b : List ℕ) (now later : Moment)
    → All (AnswersOf c.ptp b) (receive sends c from_peer b now later).sent
      × ((from_peer ≡ true) ⊎ ((receive sends c from_peer b now later).sent ≡ []))
unfolding receive
receive-Answers sends c false b now later = (tt, inr refl)
receive-Answers sends c true b now later = elim (Bool-cases c.ptp) [
  | inl ptp ↦ rw ptp (ptp_reply-Answers sends c.id b now later, inl refl)
  | inr plain ↦ rw plain (ntp_reply-AnswersNtp sends b now later, inl refl)
]
