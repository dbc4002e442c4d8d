-- ===== src/Airplay/Dns/Names.antt =====
-- The question that is asked is read as its name.
use harmonia_server.Prelude.{
  ℕ, zero, suc, ◌+◌, ◌-◌, ◌<◌, ◌≡◌, refl, sym, ap, ◌∙◌, inl, inr, true, false, ◌||◌, List, [], ◌∷◌,
  ◌++◌, none, some, arith, ltb, leb, ◌==◌, length, drop, All, Bool-cases, length-append,
  take-append, drop-append, append_assoc, append-nil,
}
use harmonia_server.Prelude.Runes.{split_at, begin_first, join_with, trim_suffix, same_runes}
use harmonia_server.Airplay.Dns.{
  at_label, named, end_or, read_label, name_round, end_name, name_rounds, dns_name, put_16,
  labels_fit, put_labels, query,
}

-- What a split gives is joined to the same text, and is not empty.
split_at-some : (c : ℕ) (s : List ℕ) → (x : List ℕ) × (xs : List (List ℕ)) × (split_at c s ≡ x ∷ xs)
unfolding split_at begin_first
split_at-some c [] = ([], [], refl)
split_at-some c (d ∷ s) =
    let r : (x : List ℕ) × (xs : List (List ℕ)) × (split_at c s ≡ x ∷ xs) = split_at-some c s in
    elim (Bool-cases (d == c)) [
      | inl e ↦ rw e ([], split_at c s, refl)
      | inr e ↦ rw (e, r.2) (d ∷ r.0, r.1, refl)
    ]

join_with-begin_first :
    (c d : ℕ) (x : List ℕ) (xs : List (List ℕ))
    → join_with (c ∷ []) (begin_first d (x ∷ xs)) ≡ d ∷ join_with (c ∷ []) (x ∷ xs)
unfolding join_with begin_first
join_with-begin_first c d x [] = refl
join_with-begin_first c d x (y ∷ xs) = refl

join_with-empty :
    (c : ℕ) (x : List ℕ) (xs : List (List ℕ))
    → join_with (c ∷ []) ([] ∷ x ∷ xs) ≡ c ∷ join_with (c ∷ []) (x ∷ xs)
unfolding join_with
join_with-empty c x xs = refl

pub join_with-split_at : (c : ℕ) (s : List ℕ) → join_with (c ∷ []) (split_at c s) ≡ s
unfolding split_at join_with
join_with-split_at c [] = refl
join_with-split_at c (d ∷ s) =
    let r : (x : List ℕ) × (xs : List (List ℕ)) × (split_at c s ≡ x ∷ xs) = split_at-some c s in
    let whole : join_with (c ∷ []) (r.0 ∷ r.1) ≡ s =
      ap (join_with (c ∷ [])) (sym r.2) ∙ join_with-split_at c s in
    elim (Bool-cases (d == c)) [
      | inl e ↦
          let same : d ≡ c = ground arith in
          rw (e, r.2, same) (join_with-empty c r.0 r.1 ∙ ap (λ t. c ∷ t) whole)
      | inr e ↦ rw (e, r.2) (join_with-begin_first c d r.0 r.1 ∙ ap (λ t. d ∷ t) whole)
    ]

-- To go on behind the first part of what is left.
drop-further : (p q : ℕ) (b x y : List ℕ) → q ≡ p + length x → drop p b ≡ x ++ y → drop q b ≡ y
drop-further zero q b x y h e = let z : q ≡ length x = omega arith in rw (z, e) (drop-append x y)
drop-further (suc p) zero b x y h e = absurd (omega arith)
drop-further (suc p) (suc q) [] [] y h e = e
drop-further (suc p) (suc q) [] (c ∷ x) y h e = cc
drop-further (suc p) (suc q) (d ∷ b) x y h e = drop-further p q b x y (omega arith) e

read_label-end :
    (p : ℕ) (done : List (List ℕ)) (rest : List ℕ)
    → read_label p done none (0 ∷ rest) ≡ named done (p + 1)
unfolding read_label end_or
read_label-end p done rest = refl

abbrev pub AreNonempty : List (List ℕ) → Type 0
AreNonempty = All (λ (x : List ℕ). 0 < length x)

name_rounds-named :
    (b : List ℕ) (rounds : ℕ) (labels : List (List ℕ)) (end : ℕ)
    → name_rounds b rounds (named labels end) ≡ end_name (named labels end)
unfolding name_rounds name_round
name_rounds-named b zero labels end = refl
name_rounds-named b (suc rounds) labels end = name_rounds-named b rounds labels end

read_label-label :
    (p : ℕ) (done : List (List ℕ)) (x tail : List ℕ)
    → 0 < length x
    → leb (length x) 63 ≡ true
    → read_label p done none (length x ∷ (x ++ tail))
      ≡ at_label (p + 1 + length x) (done ++ (x ∷ [])) none
unfolding read_label
read_label-label p done x tail n f =
    let e0 : (length x == 0) ≡ false = ground arith in
    let e192 : leb 192 (length x) ≡ false = ground arith in
    let fits : (ltb 63 (length x) || ltb (length (x ++ tail)) (length x)) ≡ false =
      ground (arith, length-append x tail) in
    rw (e0, e192, fits, take-append x tail) refl

-- From where the labels stand, the rounds read them.
name_rounds-put_labels :
    (b : List ℕ) (ls done : List (List ℕ)) (rest : List ℕ) (p rounds : ℕ)
    → drop p b ≡ put_labels ls ++ (0 ∷ rest)
    → AreNonempty ls
    → labels_fit ls ≡ true
    → length ls < rounds
    → name_rounds b rounds (at_label p done none)
      ≡ some (join_with (46 ∷ []) (done ++ ls) ++ (46 ∷ []), p + length (put_labels ls) + 1)
unfolding name_rounds name_round put_labels labels_fit end_name
name_rounds-put_labels b ls done rest p zero e n f h = absurd (omega arith)
name_rounds-put_labels b [] done rest p (suc rounds) e n f h =
    let last : p + 0 + 1 ≡ p + 1 = omega arith in
    rw
      (
        e,
        read_label-end p done rest,
        name_rounds-named b rounds done (p + 1),
        append-nil done,
        last,
      )
      refl
name_rounds-put_labels b (x ∷ ls) done rest p (suc rounds) e n f h =
    let q : ℕ = p + 1 + length x in
    let tail : List ℕ = put_labels ls ++ (0 ∷ rest) in
    let here : drop p b ≡ length x ∷ (x ++ tail) =
      e ∙ ap (λ t. length x ∷ t) (append_assoc x (put_labels ls) (0 ∷ rest)) in
    let there : drop q b ≡ tail = drop-further p q b (length x ∷ x) tail (omega arith) here in
    let total : p + suc (length (x ++ put_labels ls)) + 1 ≡ q + length (put_labels ls) + 1 =
      omega (arith, length-append x (put_labels ls)) in
    rw
      (
        here,
        read_label-label p done x tail n.0 (ground arith),
        total,
        sym (append_assoc done (x ∷ []) ls),
      )
      (name_rounds-put_labels b ls (done ++ (x ∷ [])) rest q rounds there n.1 (ground arith)
        (omega arith))

trim_suffix-dot : (s : List ℕ) → trim_suffix (46 ∷ []) (s ++ (46 ∷ [])) ≡ s
unfolding trim_suffix same_runes
trim_suffix-dot [] = refl
trim_suffix-dot (c ∷ []) = elim (Bool-cases (46 == c)) [ inl e ↦ rw e refl | inr e ↦ rw e refl ]
trim_suffix-dot (c ∷ d ∷ s) = elim (Bool-cases (46 == c)) [
  | inl e ↦ rw (e, trim_suffix-dot (d ∷ s)) refl
  | inr e ↦ rw (e, trim_suffix-dot (d ∷ s)) refl
]

abbrev asked : List ℕ → ℕ → List ℕ
asked s typ = put_labels (split_at 46 s) ++ (0 ∷ (put_16 typ ++ put_16 0x8001))

abbrev packet : List ℕ → ℕ → List ℕ
packet s typ = 0 ∷ 0 ∷ 0 ∷ 0 ∷ 0 ∷ 1 ∷ 0 ∷ 0 ∷ 0 ∷ 0 ∷ 0 ∷ 0 ∷ asked s typ

query-long :
    (s : List ℕ) (typ : ℕ) → labels_fit (split_at 46 s) ≡ false → query (s ++ (46 ∷ [])) typ ≡ none
unfolding query
query-long s typ f = rw (trim_suffix-dot s, f) refl

query-packet :
    (s : List ℕ) (typ : ℕ)
    → labels_fit (split_at 46 s) ≡ true
    → query (s ++ (46 ∷ [])) typ ≡ some (packet s typ)
unfolding query
query-packet s typ f = rw (trim_suffix-dot s, f) refl

length-packet :
    (s : List ℕ) (typ : ℕ)
    → length (packet s typ) - 4 ≡ 12 + length (put_labels (split_at 46 s)) + 1
unfolding put_16
length-packet s typ =
    omega (arith, length-append (put_labels (split_at 46 s)) (0 ∷ (put_16 typ ++ put_16 0x8001)))

dns_name-packet :
    (s : List ℕ) (typ : ℕ)
    → AreNonempty (split_at 46 s)
    → labels_fit (split_at 46 s) ≡ true
    → length (split_at 46 s) < 128
    → dns_name (packet s typ) 12 ≡ some (s ++ (46 ∷ []), length (packet s typ) - 4)
unfolding dns_name
dns_name-packet s typ n f h =
    name_rounds-put_labels (packet s typ) (split_at 46 s) [] (put_16 typ ++ put_16 0x8001) 12 128
      refl n f h
    ∙ rw (join_with-split_at 46 s, length-packet s typ) refl

-- A question about a name with a dot at its end is asked and read back as that name, to the place of its type, if
-- no label is empty and there are fewer than 128 of them.
pub dns_name-query :
    (s : List ℕ) (typ : ℕ) (b : List ℕ)
    → query (s ++ (46 ∷ [])) typ ≡ some b
    → AreNonempty (split_at 46 s)
    → length (split_at 46 s) < 128
    → dns_name b 12 ≡ some (s ++ (46 ∷ []), length b - 4)
dns_name-query s typ b e n h = elim (Bool-cases (labels_fit (split_at 46 s))) [
  | inr long ↦ let no : none ≡ some b = sym (query-long s typ long) ∙ e in cc
  | inl fits ↦
      let same : some (packet s typ) ≡ some b = sym (query-packet s typ fits) ∙ e in
      let it : packet s typ ≡ b = cc in rw (sym it) (dns_name-packet s typ n fits h)
]
