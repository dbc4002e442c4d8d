-- ===== src/Library/NativeTags/Clean.antt =====
-- What is in the tags that a file gives.
pub mod Frames
pub mod Rounds
pub mod Wholes
use harmonia_server.Prelude.{
  ℕ, zero, suc, ◌+◌, ◌≡◌, ◌≢◌, ◌⊎◌, refl, inl, inr, false, ◌||◌, List, [], ◌∷◌, ◌++◌, Option, none,
  some, arith, ltb, length, drop, All, Bool-cases,
}
use harmonia_server.Prelude.Runes.{
  same_runes, is_space, trim_left, trim_right, end_with, trim_space,
}
use harmonia_server.Library.NativeTags.{
  Tags, TagRead, read, not_read, out_of_rounds, append_tag, is_picture, is_empty, add_native_tag,
  take_comment, read_field, read_fields, only_tags, read_counted, read_comments, take_field,
  add_comment, and_left, comment_pair, map_runes,
}
use harmonia_server.Library.NativeTags.Encodings.{decode_utf8}

trim_left-begins :
    (s : List ℕ)
    → (trim_left s ≡ []) ⊎ ((c : ℕ) × (t : List ℕ) × (trim_left s ≡ c ∷ t) × (is_space c ≡ false))
unfolding trim_left
trim_left-begins [] = inl refl
trim_left-begins (c ∷ s) = elim (Bool-cases (is_space c)) [
  | inl space ↦ rw space (trim_left-begins s)
  | inr other ↦ rw other (inr (c, s, refl, other))
]

trim_right-end_with :
    (c : ℕ) (s : List ℕ) → trim_right s ≡ s → trim_right (end_with c s) ≡ end_with c s
unfolding trim_right end_with
trim_right-end_with c [] e = elim (Bool-cases (is_space c)) [
  | inl space ↦ rw space refl
  | inr other ↦ rw (other, other) refl
]
trim_right-end_with c (d ∷ s) e = rw e refl

trim_right-twice : (s : List ℕ) → trim_right (trim_right s) ≡ trim_right s
unfolding trim_right
trim_right-twice [] = refl
trim_right-twice (c ∷ s) = trim_right-end_with c (trim_right s) (trim_right-twice s)

end_with-begins : (c : ℕ) (s : List ℕ) → is_space c ≡ false → (t : List ℕ) × (end_with c s ≡ c ∷ t)
unfolding end_with
end_with-begins c [] e = ([], rw e refl)
end_with-begins c (d ∷ s) e = (d ∷ s, refl)

trim_space-of_other :
    (c : ℕ) (t : List ℕ) → is_space c ≡ false → trim_left (trim_right (c ∷ t)) ≡ trim_right (c ∷ t)
unfolding trim_right trim_left
trim_space-of_other c t e =
    let b : (u : List ℕ) × (end_with c (trim_right t) ≡ c ∷ u) =
      end_with-begins c (trim_right t) e in
    rw (b.1, e) refl

-- A text without the space around it has none.
pub trim_space-twice : (s : List ℕ) → trim_space (trim_space s) ≡ trim_space s
unfolding trim_space trim_left trim_right
trim_space-twice s = elim (trim_left-begins s) [
  | inl e ↦ rw e refl
  | inr (c, t, e, n) ↦ rw (e, trim_space-of_other c t n, trim_right-twice (c ∷ t)) refl
]

abbrev pub ValueIsClean : List ℕ → Type 0
ValueIsClean v = (is_empty v ≡ false) × (trim_space v ≡ v)

abbrev pub TagIsClean : List ℕ × List (List ℕ) → Type 0
TagIsClean (key, values) =
    (is_picture key ≡ false) × (is_empty key ≡ false) × All ValueIsClean values

-- Clean tags, or an error that Go has.
abbrev pub ReadIsClean : TagRead Tags → Type 0
ReadIsClean (read tags) = All TagIsClean tags
ReadIsClean (not_read e) = e ≢ out_of_rounds

All-snoc {ℓ} :
    {A : Type ℓ} (P : A → Type 0) (xs : List A) (x : A) → All P xs → P x → All P (xs ++ (x ∷ []))
All-snoc P [] x a p = (p, tt)
All-snoc P (y ∷ xs) x a p = (a.0, All-snoc P xs x a.1 p)

append_tag-Clean :
    (key value : List ℕ) (tags : Tags)
    → is_picture key ≡ false
    → is_empty key ≡ false
    → ValueIsClean value
    → All TagIsClean tags
    → All TagIsClean (append_tag key value tags)
unfolding append_tag
append_tag-Clean key value [] p e v a = ((p, e, (v, tt)), tt)
append_tag-Clean key value ((k, vs) ∷ tags) p e v a = elim (Bool-cases (same_runes k key)) [
  | inl same ↦ rw same ((a.0.0, a.0.1, All-snoc ValueIsClean vs value a.0.2 v), a.1)
  | inr other ↦ rw other (a.0, append_tag-Clean key value tags p e v a.1)
]

pub add_native_tag-Clean :
    (lower : ℕ → ℕ) (key value : List ℕ) (tags : Tags)
    → All TagIsClean tags
    → All TagIsClean (add_native_tag lower key value tags)
unfolding add_native_tag
add_native_tag-Clean lower key value tags a =
    let k : List ℕ = map_runes lower (trim_space key) in
    let v : List ℕ = trim_space value in
    elim (Bool-cases (is_picture k || is_empty k || is_empty v)) [
      | inl passed ↦ rw passed a
      | inr kept ↦ rw kept (
          append_tag-Clean k v tags (ground arith) (ground arith)
            (ground arith, trim_space-twice value) a)
    ]

-- The same for a round of the loops, with the bytes that are left.
abbrev pub LeftIsClean {ℓ} : {A : Type ℓ} → TagRead (A × Tags) → Type 0
LeftIsClean (read (b, tags)) = All TagIsClean tags
LeftIsClean (not_read e) = e ≢ out_of_rounds

take_comment-Clean :
    (lower : ℕ → ℕ) (field : Option (List ℕ × List ℕ)) (tags : Tags)
    → All TagIsClean tags
    → LeftIsClean (take_comment lower field tags)
unfolding take_comment and_left add_comment
take_comment-Clean lower none tags a = λ e. ground arith
take_comment-Clean lower (some (v, b)) tags a = added (comment_pair (decode_utf8 v))
  where
    added :
        (pair : Option (List ℕ × List ℕ)) → LeftIsClean (and_left b (add_comment lower pair tags))
    added none = λ e. ground arith
    added (some (key, value)) = add_native_tag-Clean lower key value tags a

read_fields-Clean :
    (lower : ℕ → ℕ) (count : ℕ) (state : TagRead (List ℕ × Tags))
    → LeftIsClean state
    → LeftIsClean (read_fields lower count state)
unfolding read_fields read_field
read_fields-Clean lower zero state a = a
read_fields-Clean lower (suc count) (not_read e) a = read_fields-Clean lower count (not_read e) a
read_fields-Clean lower (suc count) (read (b, tags)) a =
    read_fields-Clean lower count (take_comment lower (take_field b) tags)
      (take_comment-Clean lower (take_field b) tags a)

only_tags-Clean :
    (state : TagRead (List ℕ × Tags)) → LeftIsClean state → ReadIsClean (only_tags state)
unfolding only_tags
only_tags-Clean (not_read e) a = a
only_tags-Clean (read (b, tags)) a = a

pub read_comments-Clean :
    (lower : ℕ → ℕ) (b : List ℕ) (tags : Tags)
    → All TagIsClean tags
    → ReadIsClean (read_comments lower b tags)
unfolding read_comments read_counted
read_comments-Clean lower b tags a = counted (take_field b)
  where
    counted : (field : Option (List ℕ × List ℕ)) → ReadIsClean (read_counted lower field tags)
    counted none = λ e. ground arith
    counted (some (vendor, c)) = elim (Bool-cases (ltb (length c) 4)) [
      | inl short ↦ rw short (λ e. ground arith)
      | inr long ↦ rw long (only_tags-Clean _ (read_fields-Clean lower _ (read (drop 4 c, tags)) a))
    ]
