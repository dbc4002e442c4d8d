-- ===== src/Library/Examples.antt =====
-- A small playlist of two rules, and the theorem about `Validate` applied to it.
use harmonia_server.Library.Matching.Complements.{every_rule, some_rule, match_rule-Complements}
use harmonia_server.Library.Matching.{GoTexts, Fields, match_rule, no_value}
use harmonia_server.Prelude.{◌≤◌, ◌≡◌, refl, Bool, false, String, none, not, str_eq, [], ◌∷◌}
use harmonia_server.Library.Rules.{
  Rule, rule, no_rules, more_rules, text_value, number_value, other_value, validate_rule, walk,
  is_group, has_rules, count_leaf, check_leaf, check_operator, is_listed, is_some, is_numeric,
  then_count, RuleValue,
}
use harmonia_server.Library.Rules.{counted}
use harmonia_server.Library.Rules.Accepted.{group_levels}
use harmonia_server.Library.Matching.Bounded.{total_nodes, without_ignored, validate_rule-bounded}

abbrev no_numbers : String → Bool
no_numbers s = false

abbrev loved_jazz : Rule
loved_jazz =
    rule "all"
      (more_rules (rule "" no_rules "genre" "eq" (text_value "Jazz"))
        (more_rules (rule "" no_rules "year" "gte" number_value) no_rules))
      "" "" other_value

-- A rule that is no group passes whatever hangs below it.
leaf_with_rules :
    validate_rule no_numbers (
      rule ""
        (more_rules (rule "odd" no_rules "" "" other_value) no_rules)
        "genre"
        "eq"
        (text_value "Jazz"))
    ≡ counted 1
unfolding validate_rule walk then_count is_group count_leaf check_leaf check_operator is_listed
    is_some is_numeric
leaf_with_rules = refl

-- The test for a listed operator is a search in one text, so two operators with a bar between pass it.
joined_operators : check_operator no_numbers "title" "gt|gte" (text_value "x") ≡ none
unfolding check_operator is_listed is_some
joined_operators = refl

-- A track with one genre, whose values are compared as they are.
abbrev plain_go : GoTexts
plain_go = record {
  lower = λ s. s;
  is_blank = λ s. str_eq s "";
  print_number = λ n. "";
  print_value = shown_value;
  numeric = λ s. none;
  float_lt = λ a b. false;
  is_zero = λ n. false;
  slashes = λ s. s;
  tag_name = λ s. "genre";
}
  where
    shown_value : RuleValue → String
    shown_value (text_value s) = s
    shown_value v = ""

abbrev jazz_track : Fields
jazz_track = record { tags = λ key. "Jazz" ∷ []; field = λ f. no_value }

match_rule-Complements_example :
    (match_rule plain_go jazz_track (rule "all" no_rules "" "" other_value)
      ≡ every_rule (match_rule plain_go jazz_track) no_rules)
    × (match_rule plain_go jazz_track (rule "any" no_rules "" "" other_value)
        ≡ some_rule (match_rule plain_go jazz_track) no_rules)
    × (match_rule plain_go jazz_track (rule "" no_rules "tag:genre" "ne" (text_value "Jazz"))
        ≡ not (
            match_rule plain_go jazz_track (rule "" no_rules "tag:genre" "eq" (text_value "Jazz"))))
    × (match_rule plain_go jazz_track
          (rule "" no_rules "tag:genre" "notContains" (text_value "Jazz"))
        ≡ not (
            match_rule plain_go jazz_track
              (rule "" no_rules "tag:genre" "contains" (text_value "Jazz"))))
    × (match_rule plain_go jazz_track
          (rule "" no_rules "tag:genre" "isNotEmpty" (text_value "Jazz"))
        ≡ not (
            match_rule plain_go jazz_track
              (rule "" no_rules "tag:genre" "isEmpty" (text_value "Jazz"))))
match_rule-Complements_example =
    match_rule-Complements plain_go jazz_track no_rules no_rules "tag:genre" "" ""
      (text_value "Jazz") other_value refl

validate_rule-bounded_example :
    (match_rule plain_go jazz_track (without_ignored loved_jazz)
      ≡ match_rule plain_go jazz_track loved_jazz)
    × (total_nodes (without_ignored loved_jazz) ≡ 3)
    × (3 ≤ 30)
    × (group_levels (without_ignored loved_jazz) ≤ 4)
unfolding validate_rule then_count walk is_group has_rules count_leaf check_leaf check_operator
    is_listed is_some is_numeric
validate_rule-bounded_example =
    validate_rule-bounded no_numbers plain_go jazz_track loved_jazz 3 refl
