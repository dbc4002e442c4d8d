-- ===== src/Library/Globs.antt =====
-- `globMatch` and `allowed` of internal/app/scan.go: which files of a source are scanned. The pattern is the
-- list of its bytes, the path the list of its code points; the system is not Windows.
pub mod Under
use harmonia_server.Prelude.{
  ℕ, zero, suc, ◌+◌, Bool, true, false, not, ◌&&◌, ◌||◌, List, [], ◌∷◌, ◌++◌, Option, none, some,
  if◌then◌else◌, ◌==◌, length,
}

-- The parts of the regular expression that is made: a byte that stands for itself, `[^/]`, `[^/]*`, `.*` and
-- `(?:.*/)?`.
pub data Piece : Type 0 where
  literal : ℕ → Piece
  one_character any_part any_text any_folders : Piece

-- The stars that have been read and are not written yet.
pub data Stars : Type 0 where
  no_stars one_star two_stars : Stars

unfoldable pub plain_pieces : ℕ → List Piece
plain_pieces c = if c == 42 then [] else (if c == 63 then one_character ∷ [] else literal c ∷ [])

unfoldable pub pieces_at : Stars → ℕ → List Piece
pieces_at no_stars c = plain_pieces c
pieces_at one_star c = if c == 42 then [] else any_part ∷ plain_pieces c
pieces_at two_stars c = if c == 47 then any_folders ∷ [] else any_text ∷ plain_pieces c

unfoldable pub stars_after : Stars → ℕ → Stars
stars_after one_star c = if c == 42 then two_stars else no_stars
stars_after stars c = if c == 42 then one_star else no_stars

unfoldable pub translate : Stars → List ℕ → List Piece
translate no_stars [] = []
translate one_star [] = any_part ∷ []
translate two_stars [] = any_text ∷ []
translate stars (c ∷ s) = pieces_at stars c ++ translate (stars_after stars c) s

-- What `rest` accepts behind characters of one part of the path, behind any characters of one line, and
-- behind such characters and a slash.
unfoldable pub after_part : (List ℕ → Bool) → List ℕ → Bool
after_part rest [] = rest []
after_part rest (c ∷ s) = rest (c ∷ s) || (not (c == 47) && after_part rest s)

unfoldable pub after_text : (List ℕ → Bool) → List ℕ → Bool
after_text rest [] = rest []
after_text rest (c ∷ s) = rest (c ∷ s) || (not (c == 10) && after_text rest s)

unfoldable pub after_folders : (List ℕ → Bool) → List ℕ → Bool
after_folders rest [] = false
after_folders rest (c ∷ s) = (c == 47 && rest s) || (not (c == 10) && after_folders rest s)

unfoldable pub at_character : (ℕ → Bool) → (List ℕ → Bool) → List ℕ → Bool
at_character test rest [] = false
at_character test rest (c ∷ s) = test c && rest s

unfoldable pub at_end : List ℕ → Bool
at_end [] = true
at_end (c ∷ s) = false

-- `MatchString` of the expression between `^` and `$`
unfoldable pub matches : List Piece → List ℕ → Bool
matches [] p = at_end p
matches (literal d ∷ ps) p = at_character (λ c. c == d) (matches ps) p
matches (one_character ∷ ps) p = at_character (λ c. not (c == 47)) (matches ps) p
matches (any_part ∷ ps) p = after_part (matches ps) p
matches (any_text ∷ ps) p = after_text (matches ps) p
matches (any_folders ∷ ps) p = matches ps p || after_folders (matches ps) p

unfoldable pub with_slashes : List ℕ → List ℕ
with_slashes [] = []
with_slashes (c ∷ s) = (if c == 92 then 47 else c) ∷ with_slashes s

unfoldable pub no_slashes_before : List ℕ → List ℕ
no_slashes_before [] = []
no_slashes_before (c ∷ s) = if c == 47 then no_slashes_before s else c ∷ s

unfoldable pub unless_slash : ℕ → List ℕ → List ℕ
unless_slash c [] = if c == 47 then [] else c ∷ []
unless_slash c (d ∷ s) = c ∷ d ∷ s

unfoldable pub no_slashes_behind : List ℕ → List ℕ
no_slashes_behind [] = []
no_slashes_behind (c ∷ s) = unless_slash c (no_slashes_behind s)

-- `strings.Trim(p, "/")`
unfoldable pub trim_slashes : List ℕ → List ℕ
trim_slashes p = no_slashes_behind (no_slashes_before p)

unfoldable pub parent_of : ℕ → Option (List ℕ) → Option (List ℕ)
parent_of c none = if c == 47 then some [] else none
parent_of c (some p) = some (c ∷ p)

-- What comes before the last slash.
unfoldable pub parent : List ℕ → Option (List ℕ)
parent [] = none
parent (c ∷ s) = parent_of c (parent s)

-- The loop over the path and the folders that it is in.
unfoldable mutual
  pub match_upwards : ℕ → List Piece → Option (List ℕ) → Bool
  match_upwards zero ps p = false
  match_upwards (suc rounds) ps none = false
  match_upwards (suc rounds) ps (some p) = matches ps p || match_upwards rounds ps (parent p)

-- Each round takes a character at least.
unfoldable pub glob_match : List ℕ → List ℕ → Bool
glob_match pattern p =
    let trimmed = trim_slashes p in
    match_upwards (suc (length trimmed)) (translate no_stars (trim_slashes (with_slashes pattern)))
      (some trimmed)

unfoldable pub any_match : List (List ℕ) → List ℕ → Bool
any_match [] p = false
any_match (r ∷ rs) p = glob_match r p || any_match rs p

pub record Patterns : Type 0 where
  pub ignore : List (List ℕ)
  pub keep : List (List ℕ)

unfoldable pub is_empty_list : List (List ℕ) → Bool
is_empty_list [] = true
is_empty_list (r ∷ rs) = false

unfoldable pub allowed : Patterns → List ℕ → Bool
allowed s p = if any_match s.ignore p then false else is_empty_list s.keep || any_match s.keep p
