-- ===== src/Airplay/Rtsp/Answers.antt =====
-- What an exchange accepts as its answer.
use harmonia_server.Prelude.{
  ℕ, ◌+◌, ◌≡◌, ◌⊎◌, refl, ap, ◌∙◌, inl, inr, Bool, true, false, not, ◌||◌, ◌&&◌, List, [], ◌∷◌,
  arith, Bool-cases,
}
use harmonia_server.Prelude.Runes.{runes, same_runes, same_runes→eq, fields_from}
use harmonia_server.Airplay.Rtsp.{
  Message, Received, received, not_received, Control, Exchange, get_header, is_auth, any_break,
  or_path, request_bytes, check_status, check_answer, read_message, exchange,
}

-- An answer that is accepted says 200, and its number is that of the request or is left out.
abbrev pub IsAnswer : (ℕ → List ℕ) → ℕ → Received → Type 0
IsAnswer decimal seq (received m rest) =
    ((words : List (List ℕ)) × (fields_from [] m.line ≡ runes "RTSP/1.0" ∷ runes "200" ∷ words))
    × ((get_header (runes "CSeq") m.header ≡ [])
        ⊎ (get_header (runes "CSeq") m.header ≡ decimal seq))
IsAnswer decimal seq (not_received e) = Unit {0}

module _ (decimal : ℕ → List ℕ) where
  check_status-IsAnswer :
      (c : Control) (m : Message) (rest : List ℕ) (words : List (List ℕ))
      → fields_from [] m.line ≡ words
      → IsAnswer decimal c.seq (check_status decimal c m rest words)
  unfolding check_status
  check_status-IsAnswer c m rest [] e = tt
  check_status-IsAnswer c m rest (protocol ∷ []) e = tt
  check_status-IsAnswer c m rest (protocol ∷ status ∷ words) e =
      let seq : List ℕ = get_header (runes "CSeq") m.header in
      elim (Bool-cases (not (same_runes protocol (runes "RTSP/1.0")))) [
        | inl other ↦ rw other tt
        | inr rtsp ↦ elim (Bool-cases (not (same_runes seq [] || same_runes seq (decimal c.seq)))) [
          | inl wrong ↦ rw (rtsp, wrong) tt
          | inr number ↦ elim (Bool-cases (c.legacy && is_auth status)) [
            | inl old ↦ rw (rtsp, number, old) tt
            | inr e1 ↦ elim (Bool-cases (is_auth status)) [
              | inl auth ↦ rw (rtsp, number, e1, auth) tt
              | inr e2 ↦ elim (Bool-cases (not (same_runes status (runes "200")))) [
                | inl bad ↦ rw (rtsp, number, e1, e2, bad) tt
                | inr fine ↦
                    rw (rtsp, number, e1, e2, fine)
                      (
                        (words, e ∙ both (no_not _ rtsp) (no_not _ fine)),
                        numbered seq (no_not _ number),
                      )
              ]
            ]
          ]
        ]
      ]
    where
      no_not : (b : Bool) → not b ≡ false → b ≡ true
      no_not true n = refl
      no_not false n = cc

      both :
          same_runes protocol (runes "RTSP/1.0") ≡ true
          → same_runes status (runes "200") ≡ true
          → (protocol ∷ status ∷ words) ≡ (runes "RTSP/1.0" ∷ runes "200" ∷ words)
      both p s =
          ap (λ x. x ∷ status ∷ words) (same_runes→eq protocol (runes "RTSP/1.0") p)
          ∙ ap (λ x. runes "RTSP/1.0" ∷ x ∷ words) (same_runes→eq status (runes "200") s)

      numbered :
          (seq : List ℕ)
          → (same_runes seq [] || same_runes seq (decimal c.seq)) ≡ true
          → (seq ≡ []) ⊎ (seq ≡ decimal c.seq)
      numbered seq n = elim (Bool-cases (same_runes seq [])) [
        | inl none_sent ↦ inl (same_runes→eq seq [] none_sent)
        | inr some_sent ↦ inr (same_runes→eq seq (decimal c.seq) (ground arith))
      ]

  check_answer-IsAnswer :
      (c : Control) (r : Received) → IsAnswer decimal c.seq (check_answer decimal c r)
  unfolding check_answer
  check_answer-IsAnswer c (not_received e) = tt
  check_answer-IsAnswer c (received m rest) =
      check_status-IsAnswer c m rest (fields_from [] m.line) refl

  abbrev pub Exchanged : Control → List (List ℕ × List ℕ) → Exchange → Type 0
  Exchanged c headers x =
      (x.control ≡ record c { seq = c.seq + 1 })
      × IsAnswer decimal (c.seq + 1) x.answer
      × ((any_break headers ≡ false) ⊎ (x.sent ≡ []))

  -- Each exchange takes the next number and changes nothing else of the control. Only an RTSP answer with status 200
  -- and with that number, or with no number, is accepted; and nothing is sent if one of the extra headers that the
  -- caller gives has a line break.
  pub exchange-Exchanged :
      (accepts : List ℕ → Bool) (b method path typ body : List ℕ) (headers : List (List ℕ × List ℕ))
      (c : Control)
      → Exchanged c headers (exchange decimal accepts b method path typ body headers c)
  unfolding exchange
  exchange-Exchanged accepts b method path typ body headers c =
      let next : Control = record c { seq = c.seq + 1 } in
      elim (Bool-cases (any_break headers)) [
        | inl broken ↦ rw broken (refl, tt, inr refl)
        | inr whole ↦
            elim (Bool-cases
              (accepts (request_bytes decimal next method (or_path path c.url) typ body headers))) [
                | inl written ↦
                    rw (whole, written)
                      (refl, check_answer-IsAnswer next (read_message b), inl refl)
                | inr failed ↦ rw (whole, failed) (refl, tt, inl refl)
              ]
      ]
