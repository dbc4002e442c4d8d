-- ===== src/Library/Matching.antt =====
-- `Rule.Match`, `compare` and `missing` of internal/app/model.go: which tracks a smart playlist has.
pub mod Bounded
pub mod Complements
use harmonia_server.Prelude.{
  ℕ, Bool, true, false, not, ◌&&◌, ◌||◌, List, [], ◌∷◌, Option, none, some, String, if◌then◌else◌,
  str_eq, starts_with,
}
use Prim.Native.Nat.{Ordering}
use Prim.Native.String.{compare as compare_texts}
use text.Mathlib.Text.{find?}
use harmonia_server.Library.Rules.{
  RuleValue, Rule, rule, Rules, no_rules, more_rules, is_some, is_empty_test,
}

-- What `value` gives for a field; a number is a float64 by its bits.
pub data FieldValue : Type 0 where
  no_value : FieldValue
  text_field : String → FieldValue
  number_field : ℕ → FieldValue
  other_field : String → FieldValue

-- What the code takes from Go: `strings.ToLower`, whether `strings.TrimSpace` leaves nothing, `fmt.Sprint` of a
-- number and of a rule's value, the finite number that such a text is, `<` on float64, the path with slashes,
-- and a field's name without `tag:`.
pub record GoTexts : Type 0 where
  pub lower : String → String
  pub is_blank : String → Bool
  pub print_number : ℕ → String
  pub print_value : RuleValue → String
  pub numeric : String → Option ℕ
  pub float_lt : ℕ → ℕ → Bool
  pub is_zero : ℕ → Bool
  pub slashes : String → String
  pub tag_name : String → String

-- A track by its tags and by what `value` gives for its fields.
pub record Fields : Type 0 where
  pub tags : String → List String
  pub field : String → FieldValue

unfoldable pub shown : GoTexts → FieldValue → String
shown go no_value = ""
shown go (text_field s) = s
shown go (number_field n) = go.print_number n
shown go (other_field s) = s

unfoldable pub holds_text : String → String → Bool
holds_text s part = is_some (find? s part)

-- The order of two values by the operators that ask for it.
unfoldable pub by_order : Ordering → String → Bool
by_order Ordering.lt op = str_eq op "ne" || str_eq op "lt" || str_eq op "lte"
by_order Ordering.eq op = str_eq op "eq" || str_eq op "gte" || str_eq op "lte"
by_order Ordering.gt op = str_eq op "ne" || str_eq op "gt" || str_eq op "gte"

unfoldable pub float_order : GoTexts → ℕ → ℕ → Ordering
float_order go a b =
    if go.float_lt b a then Ordering.gt else (if go.float_lt a b then Ordering.lt else Ordering.eq)

unfoldable pub with_number : GoTexts → ℕ → Option ℕ → String → Bool
with_number go a none op = false
with_number go a (some b) op = by_order (float_order go a b) op

unfoldable pub ordered : GoTexts → FieldValue → String → String → Bool
ordered go (number_field n) b op = with_number go n (go.numeric b) op
ordered go v b op = by_order (compare_texts (go.lower (shown go v)) (go.lower b)) op

unfoldable pub has_value : FieldValue → Bool
has_value no_value = false
has_value v = true

-- The second value by its text.
unfoldable pub compare : GoTexts → FieldValue → String → String → Bool
compare go v b op =
    let holds = holds_text (go.lower (shown go v)) (go.lower b) in
    if not (has_value v)
    then str_eq op "ne"
    else (if str_eq op "contains" || str_eq op "notContains"
        then (if str_eq op "notContains" then not holds else holds)
        else ordered go v b op)

unfoldable pub missing : GoTexts → FieldValue → String → Bool
missing go no_value f = true
missing go (text_field s) f = go.is_blank s
missing go (number_field n) f = go.is_zero n && not (str_eq f "playCount")
missing go (other_field s) f = false

unfoldable pub all_blank : GoTexts → List String → Bool
all_blank go [] = true
all_blank go (v ∷ vs) = go.is_blank v && all_blank go vs

unfoldable pub any_compares : GoTexts → List String → String → String → Bool
any_compares go [] b op = false
any_compares go (v ∷ vs) b op = compare go (text_field v) b op || any_compares go vs b op

-- A negative operator asks for the positive one and turns the answer round.
unfoldable pub positive : String → String
positive op = if str_eq op "ne" then "eq" else (if str_eq op "notContains" then "contains" else op)

unfoldable pub match_tag : GoTexts → List String → String → String → Bool
match_tag go values op b =
    let negative = str_eq op "ne" || str_eq op "notContains" in
    let found = any_compares go values b (positive op) in
    if is_empty_test op
    then (if str_eq op "isEmpty" then all_blank go values else not (all_blank go values))
    else (if found then not negative else negative)

unfoldable pub match_leaf : GoTexts → Fields → String → String → RuleValue → Bool
match_leaf go t f op v =
    let gone = missing go (t.field f) f in
    let b = if str_eq f "path" then go.slashes (go.print_value v) else go.print_value v in
    if starts_with f "tag:"
    then match_tag go (t.tags (go.tag_name f)) op (go.print_value v)
    else (if is_empty_test op
        then (if str_eq op "isEmpty" then gone else not gone)
        else compare go (t.field f) b op)

unfoldable mutual
  pub match_rule : GoTexts → Fields → Rule → Bool
  match_rule go t (rule mode rules f op v) =
      let group = match_group go t mode rules in
      if str_eq mode "" then match_leaf go t f op v else group

  pub match_group : GoTexts → Fields → String → Rules → Bool
  match_group go t mode no_rules = str_eq mode "all"
  match_group go t mode (more_rules r rs) =
      let m = match_rule go t r in
      let rest = match_group go t mode rs in
      if str_eq mode "all" && not m then false else (if str_eq mode "any" && m then true else rest)
