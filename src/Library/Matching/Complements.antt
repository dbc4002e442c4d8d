-- ===== src/Library/Matching/Complements.antt =====
-- A group is the conjunction or the disjunction of its rules, and a negative rule on a tag the complement of the
-- positive one.
use harmonia_server.Prelude.{
  ◌≡◌, refl, Bool, true, false, not, ◌&&◌, ◌||◌, arith, String, starts_with,
}
use harmonia_server.Library.Rules.{
  RuleValue, Rule, rule, Rules, no_rules, more_rules, is_empty_test,
}
use harmonia_server.Library.Matching.{
  GoTexts, Fields, positive, match_tag, match_leaf, match_rule, match_group,
}

abbrev pub every_rule : (Rule → Bool) → Rules → Bool
every_rule p no_rules = true
every_rule p (more_rules r rs) = p r && every_rule p rs

abbrev pub some_rule : (Rule → Bool) → Rules → Bool
some_rule p no_rules = false
some_rule p (more_rules r rs) = p r || some_rule p rs

module _ (go : GoTexts) (t : Fields) where
  match_group-every : (rs : Rules) → match_group go t "all" rs ≡ every_rule (match_rule go t) rs
  unfolding match_group
  match_group-every no_rules = refl
  match_group-every (more_rules r rs) = ground (arith, match_group-every rs)

  match_group-some : (rs : Rules) → match_group go t "any" rs ≡ some_rule (match_rule go t) rs
  unfolding match_group
  match_group-some no_rules = refl
  match_group-some (more_rules r rs) = ground (arith, match_group-some rs)

  -- A group matches a track if all of its rules do, or any of them, as its mode says; and on a tag the operators ne,
  -- notContains and isNotEmpty match exactly the tracks that eq, contains and isEmpty do not.
  pub match_rule-Complements :
      (rs none_used : Rules) (f g op : String) (v w : RuleValue)
      → starts_with f "tag:" ≡ true
      → (match_rule go t (rule "all" rs g op w) ≡ every_rule (match_rule go t) rs)
        × (match_rule go t (rule "any" rs g op w) ≡ some_rule (match_rule go t) rs)
        × (match_rule go t (rule "" none_used f "ne" v)
            ≡ not (match_rule go t (rule "" none_used f "eq" v)))
        × (match_rule go t (rule "" none_used f "notContains" v)
            ≡ not (match_rule go t (rule "" none_used f "contains" v)))
        × (match_rule go t (rule "" none_used f "isNotEmpty" v)
            ≡ not (match_rule go t (rule "" none_used f "isEmpty" v)))
  unfolding match_rule match_leaf match_tag positive is_empty_test
  match_rule-Complements rs none_used f g op v w tag = (
    match_group-every rs,
    match_group-some rs,
    rw tag (ground arith),
    rw tag (ground arith),
    rw tag refl,
  )
