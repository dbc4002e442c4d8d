-- ===== src/Library/Rules.antt =====
-- `Rule` and `Rule.Validate` of internal/app/model.go. A request may nest rules as it likes; what is
-- accepted is small.
pub mod Accepted
use harmonia_server.Prelude.{
  ℕ, ◌+◌, Bool, true, false, not, ◌&&◌, ◌||◌, Option, none, some, String, if◌then◌else◌, ltb,
  str_eq, starts_with,
}
use text.Mathlib.Text.{find?}
use Prim.Native.String.{◌++◌}

-- `Value any`, as JSON gives it. A number of JSON is finite.
pub data RuleValue : Type 0 where
  text_value : String → RuleValue
  number_value other_value : RuleValue

mutual
  pub data Rule : Type 0 where
    rule : String → Rules → String → String → RuleValue → Rule

  pub data Rules : Type 0 where
    no_rules : Rules
    more_rules : Rule → Rules → Rules

pub data RuleError : Type 0 where
  too_many invalid_group invalid_path tag_required unknown_field invalid_operator : RuleError
  invalid_number : RuleError

-- The number of rules that were counted so far, or the error.
pub data Counted : Type 0 where
  counted : ℕ → Counted
  rejected : RuleError → Counted

unfoldable pub is_some : Option ℕ → Bool
is_some none = false
is_some (some _) = true

-- `strings.Contains(list, "|"+name+"|")`
unfoldable pub is_listed : String → String → Bool
unfolding is_some
is_listed list name = is_some (find? list ("|" ++ name ++ "|"))

unfoldable pub is_empty_test : String → Bool
is_empty_test op = str_eq op "isEmpty" || str_eq op "isNotEmpty"

-- `numeric`; `parses` says whether `strconv.ParseFloat` gives a finite number.
unfoldable pub is_numeric : (String → Bool) → RuleValue → Bool
is_numeric parses (text_value s) = parses s
is_numeric parses number_value = true
is_numeric parses other_value = false

unfoldable pub is_text : RuleValue → Bool
is_text (text_value s) = not (str_eq s "")
is_text _ = false

unfoldable pub check_path : String → RuleValue → Option RuleError
unfolding is_listed
check_path op v =
    if is_empty_test op
    then none
    else (if not (is_text v) || not (is_listed "|contains|notContains|eq|ne|" op)
        then some invalid_path
        else none)

unfoldable pub check_operator : (String → Bool) → String → String → RuleValue → Option RuleError
unfolding is_listed
check_operator parses field op v =
    if not (is_listed "|contains|notContains|eq|ne|gt|gte|lt|lte|" op)
    then (if is_empty_test op then none else some invalid_operator)
    else (if is_listed "|year|duration|playCount|addedAt|disc|number|bitrate|sampleRate|bpm|" field
          && not (is_numeric parses v)
        then some invalid_number
        else none)

-- A rule that is no group.
unfoldable pub check_leaf : (String → Bool) → String → String → RuleValue → Option RuleError
unfolding is_listed
check_leaf parses field op v =
    if str_eq field "path"
    then check_path op v
    else (if str_eq field "tag:"
        then some tag_required
        else (if not (
                is_listed
                  "|title|artist|album|albumArtist|genre|year|duration|playCount|addedAt|disc|number|bitrate|sampleRate|bpm|key|favorite|format|"
                  field)
              && not (starts_with field "tag:")
            then some unknown_field
            else check_operator parses field op v))

unfoldable pub count_leaf : ℕ → Option RuleError → Counted
count_leaf n none = counted n
count_leaf n (some e) = rejected e

unfoldable pub is_group : Rule → Bool
is_group (rule mode cs field op v) = not (str_eq mode "")

unfoldable pub has_rules : Rules → Bool
has_rules no_rules = false
has_rules (more_rules r rs) = true

-- `if e := walk(c, d); e != nil { return e }`
unfoldable pub then_count : Counted → (ℕ → Counted) → Counted
then_count (counted n) next = next n
then_count (rejected e) next = rejected e

-- `walk`, with the count as an argument and a result.
unfoldable mutual
  pub walk : (String → Bool) → Rule → ℕ → ℕ → Counted
  walk parses (rule mode cs field op v) depth count =
      let inside = walk_all parses cs depth (count + 1) in
      if ltb 30 (count + 1) || ltb 4 depth
      then rejected too_many
      else (if str_eq mode ""
          then count_leaf (count + 1) (check_leaf parses field op v)
          else (if not (str_eq mode "all") && not (str_eq mode "any") || not (has_rules cs)
              then rejected invalid_group
              else inside))

  pub walk_all : (String → Bool) → Rules → ℕ → ℕ → Counted
  walk_all parses no_rules depth count = counted count
  walk_all parses (more_rules r rs) depth count =
      then_count (walk parses r (if is_group r then depth + 1 else depth) count)
        (λ n. walk_all parses rs depth n)

-- `Validate`
unfoldable pub validate_rule : (String → Bool) → Rule → Counted
validate_rule parses r = walk parses r 1 0
