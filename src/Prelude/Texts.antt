-- ===== src/Prelude/Texts.antt =====
-- Texts and lists of texts: equality as a test, membership, and lists without repetition.
use mathlib.Core.Logic.{inl, inr}
use Prim.Native.Nat.{ℕ, zero, suc, ◌≤◌, ◌<◌}
use Prim.Native.String.{String}
use mathlib.Core.Path.{◌≡◌, refl}
use mathlib.Core.Logic.{inl, inr}
use mathlib.Core.Bool.{Bool, true, false, ◌||◌, ◌&&◌, not}
use mathlib.Core.Option.{some}
use mathlib.Core.List.{List, [], ◌∷◌, ◌++◌}
use native.Mathlib.Omega.{arith}
use text.Mathlib.Text.{◌==◌}
pub use text.Mathlib.Text.{starts_with}
pub use text.Mathlib.TextEquality.{eq_iff}
pub use text.Mathlib.TextPositions.{eq_refl}
use harmonia_server.Prelude.Lists.{get_elem?, length}
use harmonia_server.Prelude.Tests.{if◌then◌else◌, Bool-cases}

abbrev pub str_eq : String → String → Bool
str_eq a b = a == b

unfoldable pub contains : List String → String → Bool
contains [] a = false
contains (x ∷ xs) a = str_eq x a || contains xs a

abbrev pub Distinct : List String → Type 0
Distinct [] = Unit {0}
Distinct (x ∷ xs) = (contains xs x ≡ false) × Distinct xs

pub contains-append :
    (xs ys : List String) (a : String) → contains (xs ++ ys) a ≡ (contains xs a || contains ys a)
unfolding contains
contains-append [] ys a = refl
contains-append (x ∷ xs) ys a = ground (arith, contains-append xs ys a)

pub contains-snoc :
    (xs : List String) (x a : String) → contains (xs ++ (x ∷ [])) a ≡ (contains xs a || str_eq x a)
unfolding contains
contains-snoc [] x a = ground arith
contains-snoc (y ∷ xs) x a = ground (arith, contains-snoc xs x a)

pub Distinct-snoc :
    (xs : List String) (a : String)
    → Distinct xs
    → contains xs a ≡ false
    → Distinct (xs ++ (a ∷ []))
unfolding contains
Distinct-snoc [] a d h = (refl, tt)
Distinct-snoc (x ∷ xs) a d h = (
  ground (arith, contains-snoc xs a x, eq_iff a x, eq_iff x a),
  Distinct-snoc xs a d.1 (ground arith),
)

pub contains-get_elem? :
    (xs : List String) (i : ℕ) (a : String) → get_elem? xs i ≡ some a → contains xs a ≡ true
unfolding contains
contains-get_elem? [] i a e = cc
contains-get_elem? (x ∷ xs) zero a e = ground (arith, eq_iff x a)
contains-get_elem? (x ∷ xs) (suc i) a e = ground (arith, contains-get_elem? xs i a)

-- How many entries of the second list are not in the first.
unfoldable pub outside : List String → List String → ℕ
outside seen [] = 0
outside seen (x ∷ xs) = if contains seen x then outside seen xs else suc (outside seen xs)

pub outside-le-length : (seen xs : List String) → outside seen xs ≤ length xs
unfolding outside
outside-le-length seen [] = omega arith
outside-le-length seen (x ∷ xs) = ground (arith, outside-le-length seen xs)

-- More seen, fewer outside.
pub outside_mono :
    (seen more xs : List String)
    → ((a : String) → contains seen a ≡ true → contains more a ≡ true)
    → outside more xs ≤ outside seen xs
unfolding outside
outside_mono seen more [] h = omega arith
outside_mono seen more (x ∷ xs) h = ground (arith, h x, outside_mono seen more xs h)

pub outside-lt :
    (seen more xs : List String) (a : String)
    → ((b : String) → contains seen b ≡ true → contains more b ≡ true)
    → contains more a ≡ true
    → contains seen a ≡ false
    → contains xs a ≡ true
    → outside more xs < outside seen xs
unfolding outside contains
outside-lt seen more [] a h m s e = cc
outside-lt seen more (x ∷ xs) a h m s e =
    ground (arith, h x, eq_iff x a, outside_mono seen more xs h, outside-lt seen more xs a h m s)

pub outside-zero :
    (seen xs : List String) (a : String)
    → outside seen xs ≡ 0
    → contains xs a ≡ true
    → contains seen a ≡ true
unfolding outside contains
outside-zero seen [] a z e = cc
outside-zero seen (x ∷ xs) a z e = ground (arith, eq_iff x a, outside-zero seen xs a)

pub outside_some :
    (seen xs : List String)
    → 0 < outside seen xs
    → (a : String) × (contains xs a ≡ true) × (contains seen a ≡ false)
unfolding outside contains
outside_some seen [] h = absurd (omega arith)
outside_some seen (x ∷ xs) h = elim (Bool-cases (contains seen x)) [
  | inr new ↦ (x, ground (arith, eq_refl x), new)
  | inl old ↦ later (outside_some seen xs (rw old at h))
]
  where
    later :
        ((a : String) × (contains xs a ≡ true) × (contains seen a ≡ false))
        → (a : String) × ((str_eq x a || contains xs a) ≡ true) × (contains seen a ≡ false)
    later (a, m, s) = (a, ground arith, s)

abbrev pub bool_eq : Bool → Bool → Bool
bool_eq true b = b
bool_eq false b = not b

-- `slices.Equal`
unfoldable pub strs_eq : List String → List String → Bool
strs_eq [] [] = true
strs_eq [] (y ∷ ys) = false
strs_eq (x ∷ xs) [] = false
strs_eq (x ∷ xs) (y ∷ ys) = str_eq x y && strs_eq xs ys

pub strs_eq→eq : (xs ys : List String) → strs_eq xs ys ≡ true → xs ≡ ys
unfolding strs_eq
strs_eq→eq [] [] h = refl
strs_eq→eq [] (y ∷ ys) h = cc
strs_eq→eq (x ∷ xs) [] h = cc
strs_eq→eq (x ∷ xs) (y ∷ ys) h = ground (arith, eq_iff x y, strs_eq→eq xs ys)
