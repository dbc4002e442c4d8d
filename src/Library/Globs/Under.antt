-- ===== src/Library/Globs/Under.antt =====
-- What is in an ignored folder is ignored.
use harmonia_server.Prelude.{
  ℕ, zero, suc, ◌+◌, ◌≤◌, ◌<◌, ◌≡◌, refl, sym, ap, ◌∙◌, inl, inr, Bool, true, false, ◌||◌, List, [],
  ◌∷◌, ◌++◌, Option, none, some, arith, ◌==◌, length, length-append, Bool-cases, Option-cases,
}
use harmonia_server.Library.Globs.{
  Piece, matches, parent_of, parent, match_upwards, glob_match, any_match, trim_slashes,
  with_slashes, translate, no_stars, Patterns, allowed,
}

parent-child : (p rest : List ℕ) → parent rest ≡ none → parent (p ++ (47 ∷ rest)) ≡ some p
unfolding parent parent_of
parent-child [] rest e = rw e refl
parent-child (c ∷ p) rest e = rw (parent-child p rest e) refl

parent-deeper :
    (p rest up : List ℕ) → parent rest ≡ some up → parent (p ++ (47 ∷ rest)) ≡ some (p ++ (47 ∷ up))
unfolding parent parent_of
parent-deeper [] rest up e = rw e refl
parent-deeper (c ∷ p) rest up e = rw (parent-deeper p rest up e) refl

parent-shorter : (p up : List ℕ) → parent p ≡ some up → length up < length p
unfolding parent parent_of
parent-shorter [] up e = cc
parent-shorter (c ∷ p) up e = elim (Option-cases (parent p)) [
  | inl none_above ↦
      let top : parent_of c none ≡ some up = ap (parent_of c) (sym none_above) ∙ e in
      elim (Bool-cases (c == 47)) [
        | inl slash ↦
            let it : some [] ≡ some up = sym (rw slash refl) ∙ top in
            let empty : [] ≡ up = cc in rw (sym empty) (omega arith)
        | inr other ↦ let no : none ≡ some up = sym (rw other refl) ∙ top in cc
      ]
  | inr (q, above) ↦
      let it : some (c ∷ q) ≡ some up = ap (parent_of c) (sym above) ∙ e in
      let same : c ∷ q ≡ up = cc in rw (sym same) (omega (arith, parent-shorter p q above))
]

or_true : (a b : Bool) → b ≡ true → (a || b) ≡ true
or_true true b e = refl
or_true false b e = e

-- More rounds find no less.
match_upwards-more :
    (rounds more : ℕ) (ps : List Piece) (p : Option (List ℕ))
    → rounds ≤ more
    → match_upwards rounds ps p ≡ true
    → match_upwards more ps p ≡ true
unfolding match_upwards
match_upwards-more zero more ps p h m = cc
match_upwards-more (suc rounds) zero ps p h m = absurd (omega arith)
match_upwards-more (suc rounds) (suc more) ps none h m = cc
match_upwards-more (suc rounds) (suc more) ps (some p) h m =
    ground (arith, match_upwards-more rounds more ps (parent p))

match_upwards-under :
    (rounds more : ℕ) (ps : List Piece) (p rest : List ℕ)
    → rounds + length rest < more
    → match_upwards rounds ps (some p) ≡ true
    → match_upwards more ps (some (p ++ (47 ∷ rest))) ≡ true
unfolding match_upwards
match_upwards-under rounds zero ps p rest h m = absurd (omega arith)
match_upwards-under rounds (suc more) ps p rest h m = elim (Option-cases (parent rest)) [
  | inl child ↦ rw (parent-child p rest child) (
      or_true (matches ps (p ++ (47 ∷ rest))) (match_upwards more ps (some p))
        (match_upwards-more rounds more ps (some p) (omega arith) m))
  | inr (up, deeper) ↦ rw (parent-deeper p rest up deeper) (
      or_true (matches ps (p ++ (47 ∷ rest))) (match_upwards more ps (some (p ++ (47 ∷ up))))
        (match_upwards-under rounds more ps p up (omega (arith, parent-shorter rest up deeper)) m))
]

-- A round for each character and one more are enough: with more of them the answer is the same.
match_upwards_enough :
    (rounds more : ℕ) (ps : List Piece) (p : List ℕ)
    → length p < rounds
    → rounds ≤ more
    → match_upwards more ps (some p) ≡ match_upwards rounds ps (some p)
unfolding match_upwards
match_upwards_enough zero more ps p h m = absurd (omega arith)
match_upwards_enough (suc rounds) zero ps p h m = absurd (omega arith)
match_upwards_enough (suc rounds) (suc more) ps p h m = elim (Option-cases (parent p)) [
  | inl top ↦ rw top (ap (λ b. matches ps p || b) (nothing rounds more))
  | inr (up, above) ↦ rw above (
      ap (λ b. matches ps p || b)
        (match_upwards_enough rounds more ps up (omega (arith, parent-shorter p up above))
          (omega arith)))
]
  where
    nothing : (m n : ℕ) → match_upwards n ps none ≡ match_upwards m ps none
    nothing zero zero = refl
    nothing zero (suc n) = refl
    nothing (suc m) zero = refl
    nothing (suc m) (suc n) = refl

glob_match-under :
    (pattern p rest : List ℕ)
    → trim_slashes p ≡ p
    → trim_slashes (p ++ (47 ∷ rest)) ≡ p ++ (47 ∷ rest)
    → glob_match pattern p ≡ true
    → glob_match pattern (p ++ (47 ∷ rest)) ≡ true
unfolding glob_match
glob_match-under pattern p rest plain whole m =
    let ps : List Piece = translate no_stars (trim_slashes (with_slashes pattern)) in
    let here : match_upwards (suc (length p)) ps (some p) ≡ true =
      ap (λ q. match_upwards (suc (length q)) ps (some q)) (sym plain) ∙ m in
    rw whole (
      match_upwards-under (suc (length p)) _ ps p rest (omega (arith, length-append p (47 ∷ rest)))
        here)

any_match-under :
    (patterns : List (List ℕ)) (p rest : List ℕ)
    → trim_slashes p ≡ p
    → trim_slashes (p ++ (47 ∷ rest)) ≡ p ++ (47 ∷ rest)
    → any_match patterns p ≡ true
    → any_match patterns (p ++ (47 ∷ rest)) ≡ true
unfolding any_match
any_match-under [] p rest plain whole m = cc
any_match-under (r ∷ rs) p rest plain whole m =
    ground (arith, glob_match-under r p rest plain whole, any_match-under rs p rest plain whole)

-- If a folder is ignored, nothing in it is scanned, at any depth and whatever is kept. (Neither path begins or ends
-- with a slash.)
pub allowed-under :
    (s : Patterns) (p rest : List ℕ)
    → trim_slashes p ≡ p
    → trim_slashes (p ++ (47 ∷ rest)) ≡ p ++ (47 ∷ rest)
    → any_match s.ignore p ≡ true
    → allowed s (p ++ (47 ∷ rest)) ≡ false
unfolding allowed
allowed-under s p rest plain whole m = rw (any_match-under s.ignore p rest plain whole m) refl
