-- ===== src/Library/Matching/Bounded.antt =====
-- What `Validate` accepts, told by what `Match` reads. `Validate` does not look at rules that hang below a rule which is
-- no group, and neither does `Match`.
use harmonia_server.Prelude.{
  ℕ, suc, ◌+◌, ◌≤◌, ◌≡◌, refl, inl, inr, Bool, String, arith, if◌then◌else◌, str_eq, Bool-cases,
}
use harmonia_server.Library.Rules.{Rule, rule, Rules, no_rules, more_rules, counted, validate_rule}
use harmonia_server.Library.Rules.Accepted.{
  rule_nodes, all_nodes, group_levels, all_levels, validate_rule-counted,
}
use harmonia_server.Library.Matching.{GoTexts, Fields, match_rule, match_group}

-- All rules of a rule, wherever they hang.
unfoldable mutual
  pub total_nodes : Rule → ℕ
  total_nodes (rule mode cs field op v) = suc (total_all cs)

  pub total_all : Rules → ℕ
  total_all no_rules = 0
  total_all (more_rules r rs) = total_nodes r + total_all rs

-- The rule without what hangs below rules that are no groups.
unfoldable mutual
  pub without_ignored : Rule → Rule
  without_ignored (rule mode cs field op v) =
      let inside = all_without cs in
      rule mode (if str_eq mode "" then no_rules else inside) field op v

  pub all_without : Rules → Rules
  all_without no_rules = no_rules
  all_without (more_rules r rs) = more_rules (without_ignored r) (all_without rs)

mutual
  unfolding total_nodes without_ignored rule_nodes

  total_nodes-without_ignored : (r : Rule) → total_nodes (without_ignored r) ≡ rule_nodes r
  total_nodes-without_ignored (rule mode cs field op v) = elim (Bool-cases (str_eq mode "")) [
    | inl leaf ↦ rw leaf refl
    | inr group ↦ rw (group, total_all-all_without cs) refl
  ]

  total_all-all_without : (rs : Rules) → total_all (all_without rs) ≡ all_nodes rs
  total_all-all_without no_rules = refl
  total_all-all_without (more_rules r rs) =
      rw (total_nodes-without_ignored r, total_all-all_without rs) refl

mutual
  unfolding without_ignored group_levels

  group_levels-without_ignored : (r : Rule) → group_levels (without_ignored r) ≡ group_levels r
  group_levels-without_ignored (rule mode cs field op v) = elim (Bool-cases (str_eq mode "")) [
    | inl leaf ↦ rw leaf refl
    | inr group ↦ rw (group, all_levels-all_without cs) refl
  ]

  all_levels-all_without : (rs : Rules) → all_levels (all_without rs) ≡ all_levels rs
  all_levels-all_without no_rules = refl
  all_levels-all_without (more_rules r rs) =
      rw (group_levels-without_ignored r, all_levels-all_without rs) refl

module _ (go : GoTexts) (t : Fields) where
  mutual
    unfolding match_rule without_ignored

    match_rule-without_ignored :
        (r : Rule) → match_rule go t (without_ignored r) ≡ match_rule go t r
    match_rule-without_ignored (rule mode cs field op v) = elim (Bool-cases (str_eq mode "")) [
      | inl leaf ↦ rw leaf refl
      | inr group ↦ rw group (match_group-all_without mode cs)
    ]

    match_group-all_without :
        (mode : String) (rs : Rules)
        → match_group go t mode (all_without rs) ≡ match_group go t mode rs
    match_group-all_without mode no_rules = refl
    match_group-all_without mode (more_rules r rs) =
        rw (match_rule-without_ignored r, match_group-all_without mode rs) refl

-- A rule that `Validate` accepts matches as it does without all that hangs below rules which are no groups; and without
-- these it has at most 30 rules in all, as many as were counted, in at most four levels of groups.
pub validate_rule-bounded :
    (parses : String → Bool) (go : GoTexts) (t : Fields) (r : Rule) (n : ℕ)
    → validate_rule parses r ≡ counted n
    → (match_rule go t (without_ignored r) ≡ match_rule go t r)
      × (total_nodes (without_ignored r) ≡ n)
      × (n ≤ 30)
      × (group_levels (without_ignored r) ≤ 4)
validate_rule-bounded parses go t r n h =
    let (same, few, nested) = validate_rule-counted parses r n h in
    let total : total_nodes (without_ignored r) ≡ rule_nodes r = total_nodes-without_ignored r in
    (
      match_rule-without_ignored go t r,
      omega arith,
      omega arith,
      rw (group_levels-without_ignored r) nested,
    )
