-- ===== src/Prelude/Runes.antt =====
-- Texts as the list of their code points, and what package strings does with such texts. Valid UTF-8
-- and its code points are the same text.
use Prim.Native.Nat.{ℕ, ◌+◌, ◌-◌, ◌*◌}
use Prim.Native.Char.{code}
use Prim.Native.String.{String}
use mathlib.Core.Path.{◌≡◌, refl}
use native.Mathlib.Omega.{arith}
use mathlib.Core.Bool.{Bool, true, false, ◌||◌, ◌&&◌}
use mathlib.Core.List.{List, [], ◌∷◌, ◌++◌}
use mathlib.Core.Option.{Option, none, some}
use harmonia_server.Prelude.Tests.{if◌then◌else◌, leb, ◌==◌}

-- A literal's code points.
abbrev pub runes : String → List ℕ
runes String.[] = []
runes (String.◌∷◌ c s) = code c ∷ runes s

unfoldable pub same_runes : List ℕ → List ℕ → Bool
same_runes [] [] = true
same_runes [] (y ∷ ys) = false
same_runes (x ∷ xs) [] = false
same_runes (x ∷ xs) (y ∷ ys) = x == y && same_runes xs ys

pub same_runes_refl : (xs : List ℕ) → same_runes xs xs ≡ true
unfolding same_runes
same_runes_refl [] = refl
same_runes_refl (x ∷ xs) = ground (arith, same_runes_refl xs)

pub same_runes→eq : (xs ys : List ℕ) → same_runes xs ys ≡ true → xs ≡ ys
unfolding same_runes
same_runes→eq [] [] e = refl
same_runes→eq [] (y ∷ ys) e = cc
same_runes→eq (x ∷ xs) [] e = cc
same_runes→eq (x ∷ xs) (y ∷ ys) e = ground (arith, same_runes→eq xs ys)

pub same_runes_comm : (xs ys : List ℕ) → same_runes xs ys ≡ same_runes ys xs
unfolding same_runes
same_runes_comm [] [] = refl
same_runes_comm [] (y ∷ ys) = refl
same_runes_comm (x ∷ xs) [] = refl
same_runes_comm (x ∷ xs) (y ∷ ys) = ground (arith, same_runes_comm xs ys)

-- `unicode.IsSpace`
unfoldable pub is_space : ℕ → Bool
is_space c =
    (leb 9 c && leb c 13)
    || c == 32
    || c == 0x85
    || c == 0xa0
    || c == 0x1680
    || (leb 0x2000 c && leb c 0x200a)
    || c == 0x2028
    || c == 0x2029
    || c == 0x202f
    || c == 0x205f
    || c == 0x3000

unfoldable pub trim_left : List ℕ → List ℕ
trim_left [] = []
trim_left (c ∷ s) = if is_space c then trim_left s else c ∷ s

-- A space before a text of spaces only goes with them.
unfoldable pub end_with : ℕ → List ℕ → List ℕ
end_with c [] = if is_space c then [] else c ∷ []
end_with c (d ∷ s) = c ∷ d ∷ s

unfoldable pub trim_right : List ℕ → List ℕ
trim_right [] = []
trim_right (c ∷ s) = end_with c (trim_right s)

-- `strings.TrimSpace`
unfoldable pub trim_space : List ℕ → List ℕ
trim_space s = trim_right (trim_left s)

unfoldable pub has_prefix : List ℕ → List ℕ → Bool
has_prefix [] s = true
has_prefix (p ∷ ps) [] = false
has_prefix (p ∷ ps) (c ∷ s) = p == c && has_prefix ps s

unfoldable pub cut_further : ℕ → Option (List ℕ × List ℕ) → Option (List ℕ × List ℕ)
cut_further c none = none
cut_further c (some (before, after)) = some (c ∷ before, after)

-- `strings.Cut` at a separator of one character
unfoldable pub cut_at : ℕ → List ℕ → Option (List ℕ × List ℕ)
cut_at separator [] = none
cut_at separator (c ∷ s) =
    let rest = cut_further c (cut_at separator s) in if c == separator then some ([], s) else rest

unfoldable pub begin_first : ℕ → List (List ℕ) → List (List ℕ)
begin_first c [] = (c ∷ []) ∷ []
begin_first c (x ∷ xs) = (c ∷ x) ∷ xs

-- `strings.Split` at a separator of one character
unfoldable pub split_at : ℕ → List ℕ → List (List ℕ)
split_at separator [] = [] ∷ []
split_at separator (c ∷ s) =
    let rest = split_at separator s in if c == separator then [] ∷ rest else begin_first c rest

-- The value of decimal digits; none for another character or for no digit at all.
unfoldable pub digits_from : ℕ → List ℕ → Option ℕ
digits_from n [] = some n
digits_from n (c ∷ s) =
    let rest = digits_from (n * 10 + (c - 48)) s in if leb 48 c && leb c 57 then rest else none

unfoldable pub map_runes : (ℕ → ℕ) → List ℕ → List ℕ
map_runes f [] = []
map_runes f (c ∷ s) = f c ∷ map_runes f s

-- `strings.TrimSuffix`, and whether it takes anything off.
unfoldable pub has_suffix : List ℕ → List ℕ → Bool
has_suffix suffix [] = same_runes suffix []
has_suffix suffix (c ∷ s) = same_runes suffix (c ∷ s) || has_suffix suffix s

unfoldable pub trim_suffix : List ℕ → List ℕ → List ℕ
trim_suffix suffix [] = []
trim_suffix suffix (c ∷ s) = if same_runes suffix (c ∷ s) then [] else c ∷ trim_suffix suffix s

-- `strings.Join`
unfoldable pub join_with : List ℕ → List (List ℕ) → List ℕ
join_with separator [] = []
join_with separator (x ∷ []) = x
join_with separator (x ∷ y ∷ xs) = x ++ (separator ++ join_with separator (y ∷ xs))

-- `strings.ReplaceAll` of a character by nothing
unfoldable pub without : ℕ → List ℕ → List ℕ
without d [] = []
without d (c ∷ s) = let rest = without d s in if c == d then rest else c ∷ rest

-- The letters of ASCII in the other case.
unfoldable pub lower_letter : ℕ → ℕ
lower_letter c = if leb 65 c && leb c 90 then c + 32 else c

unfoldable pub upper_letter : ℕ → ℕ
upper_letter c = if leb 97 c && leb c 122 then c - 32 else c

-- A map from texts to texts; a missing key has the empty text.
unfoldable pub text_of_key : List ℕ → List (List ℕ × List ℕ) → List ℕ
text_of_key key [] = []
text_of_key key ((k, v) ∷ m) = if same_runes k key then v else text_of_key key m

unfoldable pub put_text : List ℕ → List ℕ → List (List ℕ × List ℕ) → List (List ℕ × List ℕ)
put_text key v [] = (key, v) ∷ []
put_text key v ((k, w) ∷ m) =
    let rest = put_text key v m in if same_runes k key then (k, v) ∷ m else (k, w) ∷ rest

unfoldable pub digits : List ℕ → Option ℕ
digits [] = none
digits (c ∷ s) = digits_from 0 (c ∷ s)

unfoldable pub zero_only : Option ℕ → Option ℕ
zero_only none = none
zero_only (some n) = if n == 0 then some 0 else none

-- `strconv.Atoi` where it gives a number that is not negative. Its bound is far above the numbers asked for.
unfoldable pub natural : List ℕ → Option ℕ
natural [] = none
natural (c ∷ s) =
    if c == 43 then digits s else (if c == 45 then zero_only (digits s) else digits (c ∷ s))

unfoldable pub add_field : List ℕ → List (List ℕ) → List (List ℕ)
add_field [] fs = fs
add_field (c ∷ s) fs = (c ∷ s) ∷ fs

-- `strings.Fields`: the word so far is kept until a space ends it.
unfoldable pub fields_from : List ℕ → List ℕ → List (List ℕ)
fields_from word [] = add_field word []
fields_from word (c ∷ s) =
    let rest = fields_from (if is_space c then [] else word ++ (c ∷ [])) s in
    if is_space c then add_field word rest else rest
