-- ===== src/Airplay/Rtsp/Limits.antt =====
-- Whatever a receiver sends, a message is a part of it of bounded size.
use harmonia_server.Prelude.{
  ℕ, zero, suc, ◌+◌, ◌≤◌, ◌<◌, ◌≡◌, ◌≢◌, refl, sym, ap, ◌∙◌, inl, inr, List, [], ◌∷◌, ◌++◌, Option,
  none, some, arith, ltb, ◌==◌, length, Bool-cases, length-append, append_assoc, length-take,
  take-append-drop,
}
use harmonia_server.Prelude.Runes.{runes, same_runes, trim_space, cut_at, natural}
use harmonia_server.Airplay.Rtsp.{
  out_of_rounds, Line, line_read, no_line, lengthen, read_line, bounded_line, values_of, HeadRound,
  at_line, head_read, no_head, add_header, take_header, head_round, head_rounds, Received, received,
  not_received, read_body, with_length, after_head, after_line, read_message,
}

abbrev LineOf : List ℕ → Line → Type 0
LineOf b (line_read s rest) = (b ≡ s ++ rest) × (0 < length s)
LineOf b (no_line e) = e ≢ out_of_rounds

lengthen-LineOf : (c : ℕ) (b : List ℕ) (l : Line) → LineOf b l → LineOf (c ∷ b) (lengthen c l)
unfolding lengthen
lengthen-LineOf c b (line_read s rest) l = (ap (λ t. c ∷ t) l.0, omega arith)
lengthen-LineOf c b (no_line e) l = l

read_line-LineOf : (room : ℕ) (b : List ℕ) → LineOf b (read_line room b)
unfolding read_line
read_line-LineOf zero [] = λ e. ground arith
read_line-LineOf (suc room) [] = λ e. ground arith
read_line-LineOf zero (c ∷ b) = λ e. ground arith
read_line-LineOf (suc room) (c ∷ b) = elim (Bool-cases (c == 10)) [
  | inl feed ↦ let it : c ≡ 10 = ground arith in rw feed (ap (λ d. d ∷ b) it, omega arith)
  | inr other ↦ rw other (lengthen-LineOf c b (read_line room b) (read_line-LineOf room b))
]

bounded_line-LineOf : (b : List ℕ) → LineOf b (bounded_line b)
unfolding bounded_line
bounded_line-LineOf b = read_line-LineOf 4096 b

-- The head so far is what was taken from the connection, and n lines more are enough.
abbrev HeadOf : List ℕ → ℕ → HeadRound → Type 0
HeadOf all n (at_line total header b) =
    (pre : List ℕ) × (all ≡ pre ++ b) × (length pre ≡ total) × (length b < n)
HeadOf all n (head_read header b) = (pre : List ℕ) × (all ≡ pre ++ b) × (length pre ≤ 32768)
HeadOf all n (no_head e) = e ≢ out_of_rounds

add_header-HeadOf :
    (all : List ℕ) (n total : ℕ) (header : List (List ℕ × List ℕ)) (pair : Option (List ℕ × List ℕ))
    (pre rest : List ℕ)
    → all ≡ pre ++ rest
    → length pre ≡ total
    → length rest < n
    → HeadOf all n (add_header total header pair rest)
unfolding add_header
add_header-HeadOf all n total header none pre rest a t l = λ e. ground arith
add_header-HeadOf all n total header (some (k, v)) pre rest a t l = (pre, a, t, l)

take_header-HeadOf :
    (all : List ℕ) (n total : ℕ) (header : List (List ℕ × List ℕ)) (pre b : List ℕ) (l : Line)
    → all ≡ pre ++ b
    → length pre ≡ total
    → length b < suc n
    → LineOf b l
    → HeadOf all n (take_header total header l)
unfolding take_header
take_header-HeadOf all n total header pre b (no_line e) a t h l = l
take_header-HeadOf all n total header pre b (line_read s rest) a t h l =
    let longer : all ≡ (pre ++ s) ++ rest =
      a ∙ (ap (λ x. pre ++ x) l.0 ∙ sym (append_assoc pre s rest)) in
    let size : length (pre ++ s) ≡ total + length s = omega (arith, length-append pre s) in
    let fewer : length rest < n = ground (arith, l.1, ap length l.0, length-append s rest) in
    elim (Bool-cases (ltb 32768 (total + length s))) [
      | inl large ↦ rw large (λ e. ground arith)
      | inr small ↦ elim (Bool-cases (same_runes s (13 ∷ 10 ∷ []))) [
        | inl blank ↦ rw (small, blank) (pre ++ s, longer, ground (arith, size))
        | inr field ↦
            rw (small, field)
              (add_header-HeadOf all n (total + length s) header (cut_at 58 (trim_space s))
                (pre ++ s) rest longer size fewer)
      ]
    ]

head_rounds-HeadOf :
    (all : List ℕ) (n : ℕ) (state : HeadRound)
    → HeadOf all n state
    → HeadOf all 0 (head_rounds n state)
unfolding head_rounds head_round
head_rounds-HeadOf all zero state h = h
head_rounds-HeadOf all (suc n) state h =
    head_rounds-HeadOf all n (head_round state) (further state h)
  where
    further : (state : HeadRound) → HeadOf all (suc n) state → HeadOf all n (head_round state)
    further (at_line total header b) h =
        take_header-HeadOf all n total header h.0 b (bounded_line b) h.1 h.2 h.3
          (bounded_line-LineOf b)
    further (head_read header b) h = h
    further (no_head e) h = h

-- A head of 32 KB at most, a body of 2 MB at most, and what comes after them; or an error that Go has.
abbrev pub MessageOf : List ℕ → Received → Type 0
MessageOf all (received m rest) =
    (head : List ℕ) × (all ≡ head ++ (m.body ++ rest))
    × (length head ≤ 32768)
    × (length m.body ≤ 2097152)
MessageOf all (not_received e) = e ≢ out_of_rounds

read_body-MessageOf :
    (all line : List ℕ) (header : List (List ℕ × List ℕ)) (pre b : List ℕ) (n : Option ℕ)
    → all ≡ pre ++ b
    → length pre ≤ 32768
    → MessageOf all (read_body line header b n)
unfolding read_body
read_body-MessageOf all line header pre b none a h = λ e. ground arith
read_body-MessageOf all line header pre b (some n) a h = elim (Bool-cases (ltb 2097152 n)) [
  | inl large ↦ rw large (λ e. ground arith)
  | inr small ↦ elim (Bool-cases (ltb (length b) n)) [
    | inl short ↦ rw (small, short) (λ e. ground arith)
    | inr long ↦
        rw (small, long)
          (
            pre,
            a ∙ ap (λ t. pre ++ t) (sym (take-append-drop n b)),
            h,
            ground (arith, length-take n b),
          )
  ]
]

with_length-MessageOf :
    (all line : List ℕ) (header : List (List ℕ × List ℕ)) (pre b : List ℕ) (values : List (List ℕ))
    → all ≡ pre ++ b
    → length pre ≤ 32768
    → MessageOf all (with_length line header b values)
unfolding with_length
with_length-MessageOf all line header pre b [] a h = (pre, a, h, omega arith)
with_length-MessageOf all line header pre b ([] ∷ []) a h = (pre, a, h, omega arith)
with_length-MessageOf all line header pre b ((c ∷ v) ∷ []) a h =
    read_body-MessageOf all line header pre b (natural (c ∷ v)) a h
with_length-MessageOf all line header pre b ([] ∷ w ∷ vs) a h = λ e. ground arith
with_length-MessageOf all line header pre b ((c ∷ v) ∷ w ∷ vs) a h = λ e. ground arith

after_head-MessageOf :
    (all line : List ℕ) (state : HeadRound)
    → HeadOf all 0 state
    → MessageOf all (after_head line state)
unfolding after_head
after_head-MessageOf all line (at_line total header b) h = absurd (omega (arith, h.3))
after_head-MessageOf all line (no_head e) h = h
after_head-MessageOf all line (head_read header b) h =
    with_length-MessageOf all line header h.0 b (values_of (runes "Content-Length") header) h.1 h.2

-- Whatever bytes a receiver sends, the reading of a message ends. A message is what comes next on the connection: a
-- head of at most 32768 bytes and its body of at most 2 MB, and nothing after it is consumed.
pub read_message-MessageOf : (b : List ℕ) → MessageOf b (read_message b)
unfolding read_message after_line
read_message-MessageOf b = first (bounded_line b) (bounded_line-LineOf b)
  where
    first : (l : Line) → LineOf b l → MessageOf b (after_line l)
    first (no_line e) h = h
    first (line_read s rest) h = after_head-MessageOf b (trim_space s) _ (
        head_rounds-HeadOf b (suc (length rest)) (at_line (length s) [] rest)
          (s, h.0, refl, omega arith))
