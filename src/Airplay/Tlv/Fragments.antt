-- ===== src/Airplay/Tlv/Fragments.antt =====
-- What `untlv` reads of what `tlv` wrote.
use harmonia_server.Prelude.{
  ℕ, zero, suc, ◌≤◌, ◌≡◌, refl, sym, ap, ◌∙◌, inl, inr, false, List, [], ◌∷◌, ◌++◌, append-nil,
  append_assoc, arith, min, if◌then◌else◌, ltb, ◌==◌, length, take, drop, length-append,
  length-take, length-drop, take-append-drop, Bool-cases, take-append, drop-append,
}
use harmonia_server.Airplay.Tlv.{
  fragments, put_value, tlv, lookup, extend, needs_pairing, rejected, parsed, failed, check_error,
  untlv_loop, untlv, invalid_tlv, Parsed,
}

lookup-extend :
    (t tag : ℕ) (piece : List ℕ) (m : List (ℕ × List ℕ))
    → lookup t (extend tag piece m) ≡ (if tag == t then lookup t m ++ piece else lookup t m)
unfolding lookup extend
lookup-extend t tag piece [] = ground arith
lookup-extend t tag piece ((k, v) ∷ m) = ground (arith, lookup-extend t tag piece m)

-- All that the values of one tag hold, in order.
unfoldable pub value_of : ℕ → List (ℕ × List ℕ) → List ℕ
value_of t [] = []
value_of t ((tag, v) ∷ values) = (if tag == t then v else []) ++ value_of t values

-- After some of the input: the map has grown by what `more` says, and the fuel is still enough.
abbrev After : ℕ → List (ℕ × List ℕ) → List ℕ → List ℕ → (ℕ → List ℕ) → Type 0
After fuel m b rest more =
    (n : ℕ) × (m' : List (ℕ × List ℕ)) × (untlv_loop fuel m b ≡ untlv_loop n m' rest)
    × (length rest ≤ n)
    × ((t : ℕ) → lookup t m' ≡ lookup t m ++ more t)

-- One piece is read back.
piece_read :
    (fuel tag n : ℕ) (m : List (ℕ × List ℕ)) (piece rest : List ℕ)
    → n ≡ length piece
    → untlv_loop (suc fuel) m (tag ∷ n ∷ (piece ++ rest))
      ≡ untlv_loop fuel (extend tag piece m) rest
unfolding untlv_loop
piece_read fuel tag n m piece rest e =
    rw (e, take-append piece rest, drop-append piece rest)
      (let fits : ltb (length (piece ++ rest)) (length piece) ≡ false =
          ground (arith, length-append piece rest) in
        rw fits)

-- The value that a map has grown by, for one tag.
abbrev grown : ℕ → List ℕ → ℕ → List ℕ
grown tag v t = if tag == t then v else []

grown_pieces :
    (t tag : ℕ) (v : List ℕ) (m : List (ℕ × List ℕ))
    → lookup t (extend tag (take 255 v) m) ++ grown tag (drop 255 v) t ≡ lookup t m ++ grown tag v t
grown_pieces t tag v m = elim (Bool-cases (tag == t)) [
  | inl same ↦
      rw (lookup-extend t tag (take 255 v) m, same)
        (append_assoc (lookup t m) (take 255 v) (drop 255 v)
          ∙ ap (λ (u : List ℕ). lookup t m ++ u) (take-append-drop 255 v))
  | inr other ↦ rw (lookup-extend t tag (take 255 v) m, other)
]

After-step :
    (fuel k : ℕ) (m m' : List (ℕ × List ℕ)) (b c rest : List ℕ) (more all : ℕ → List ℕ)
    → untlv_loop fuel m b ≡ untlv_loop k m' c
    → ((t : ℕ) → lookup t m' ++ more t ≡ lookup t m ++ all t)
    → After k m' c rest more
    → After fuel m b rest all
After-step fuel k m m' b c rest more all e grow (n, m2, e2, len, look) =
    (n, m2, e ∙ e2, len, λ t. look t ∙ grow t)

grown_nothing : (tag t : ℕ) (v : List ℕ) → v ≡ v ++ grown tag [] t
grown_nothing tag t v = ground (arith, append-nil v)

fragments-After :
    (k fuel tag : ℕ) (m : List (ℕ × List ℕ)) (v rest : List ℕ)
    → length v ≤ k
    → length (fragments k tag v ++ rest) ≤ fuel
    → After fuel m (fragments k tag v ++ rest) rest (grown tag v)
unfolding fragments
fragments-After zero fuel tag m [] rest h b =
    (fuel, m, refl, b, λ t. grown_nothing tag t (lookup t m))
fragments-After zero fuel tag m (x ∷ xs) rest h b = absurd (omega arith)
fragments-After (suc k) fuel tag m [] rest h b =
    (fuel, m, refl, b, λ t. grown_nothing tag t (lookup t m))
fragments-After (suc k) zero tag m (x ∷ xs) rest h b = absurd (omega arith)
fragments-After (suc k) (suc fuel) tag m (x ∷ xs) rest h b =
    let v : List ℕ = x ∷ xs in
    let more : List ℕ = fragments k tag (drop 255 v) in
    let joined : (take 255 v ++ more) ++ rest ≡ take 255 v ++ (more ++ rest) =
      append_assoc (take 255 v) more rest in
    After-step (suc fuel) fuel m (extend tag (take 255 v) m)
      (tag ∷ min 255 (length v) ∷ ((take 255 v ++ more) ++ rest)) (more ++ rest) rest
      (grown tag (drop 255 v)) (grown tag v)
      (rw joined (
        piece_read fuel tag (min 255 (length v)) m (take 255 v) (more ++ rest)
          (sym (length-take 255 v))))
      (λ t. grown_pieces t tag v m)
      (fragments-After k fuel tag (extend tag (take 255 v) m) (drop 255 v) rest
        (omega (arith, length-drop 255 v))
        (omega (arith, ap length joined, length-append (take 255 v) (more ++ rest))))

put_value-After :
    (fuel tag : ℕ) (m : List (ℕ × List ℕ)) (v rest : List ℕ)
    → length (put_value tag v ++ rest) ≤ fuel
    → After fuel m (put_value tag v ++ rest) rest (grown tag v)
unfolding put_value
put_value-After zero tag m [] rest b = absurd (omega arith)
put_value-After (suc fuel) tag m [] rest b =
    After-step (suc fuel) fuel m (extend tag [] m) (tag ∷ 0 ∷ rest) rest rest (grown tag [])
      (grown tag []) (piece_read fuel tag 0 m [] rest refl)
      (λ t. ground (arith, lookup-extend t tag [] m, append-nil (lookup t m)))
      (
        fuel,
        extend tag [] m,
        refl,
        omega arith,
        λ t. grown_nothing tag t (lookup t (extend tag [] m)),
      )
put_value-After fuel tag m (x ∷ xs) rest b =
    fragments-After (length (x ∷ xs)) fuel tag m (x ∷ xs) rest (omega arith) b

tlv-After :
    (fuel : ℕ) (m : List (ℕ × List ℕ)) (vs : List (ℕ × List ℕ))
    → length (tlv vs) ≤ fuel
    → After fuel m (tlv vs) [] (λ t. value_of t vs)
unfolding tlv value_of
tlv-After fuel m [] b = (fuel, m, refl, omega arith, λ t. sym (append-nil (lookup t m)))
tlv-After fuel m ((tag, v) ∷ vs) b =
    let (n, m1, e1, len1, look1) = put_value-After fuel tag m v (tlv vs) b in
    let (n2, m2, e2, len2, look2) = tlv-After n m1 vs len1 in
    (
      n2,
      m2,
      e1 ∙ e2,
      len2,
      λ t.
          look2 t
          ∙ ap (λ (u : List ℕ). u ++ value_of t vs) (look1 t)
          ∙ append_assoc (lookup t m) (grown tag v t) (value_of t vs),
    )

-- Whatever the tags and however long the values, `untlv` reads back what `tlv` wrote: each tag has
-- the bytes of all its values, in order. This is so if no error code is among them, under tag 7.
pub untlv-tlv :
    (vs : List (ℕ × List ℕ))
    → value_of 7 vs ≡ []
    → (m : List (ℕ × List ℕ)) × (untlv (tlv vs) ≡ parsed m) × ((t : ℕ) → lookup t m ≡ value_of t vs)
unfolding untlv untlv_loop check_error lookup
untlv-tlv vs quiet =
    let (n, m, e, len, look) = tlv-After (length (tlv vs)) [] vs (omega arith) in
    (m, e ∙ rw (look 7, quiet), look)

-- A message that carries an error code is refused with it, whatever else it carries.
pub untlv-tlv_refused :
    (vs : List (ℕ × List ℕ)) (code : ℕ) (more : List ℕ)
    → value_of 7 vs ≡ code ∷ more
    → untlv (tlv vs) ≡ failed (if code == 2 then needs_pairing else rejected code)
unfolding untlv untlv_loop check_error lookup
untlv-tlv_refused vs code more says =
    let (n, m, e, len, look) = tlv-After (length (tlv vs)) [] vs (omega arith) in
    e ∙ rw (look 7, says)

-- More fuel than the length of the message changes nothing.
pub untlv_loop_more :
    (fuel more : ℕ) (m : List (ℕ × List ℕ)) (b : List ℕ)
    → length b ≤ fuel
    → length b ≤ more
    → untlv_loop fuel m b ≡ untlv_loop more m b
unfolding untlv_loop
untlv_loop_more zero zero m [] h k = refl
untlv_loop_more zero (suc more) m [] h k = refl
untlv_loop_more (suc fuel) zero m [] h k = refl
untlv_loop_more (suc fuel) (suc more) m [] h k = refl
untlv_loop_more zero more m (x ∷ xs) h k = absurd (omega arith)
untlv_loop_more (suc fuel) zero m (x ∷ xs) h k = absurd (omega arith)
untlv_loop_more (suc fuel) (suc more) m (x ∷ []) h k = refl
untlv_loop_more (suc fuel) (suc more) m (x ∷ n ∷ b) h k =
    ap (λ (r : Parsed). if ltb (length b) n then failed invalid_tlv else r)
      (untlv_loop_more fuel more (extend x (take n b) m) (drop n b) (omega (arith, length-drop n b))
        (omega (arith, length-drop n b)))
