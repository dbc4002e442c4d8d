-- ===== src/Library/Rules/Accepted.antt =====
-- What `Validate` accepts.
use harmonia_server.Prelude.{
  ℕ, suc, ◌+◌, ◌≤◌, ◌≡◌, refl, inl, inr, ◌⊎◌, ◌≢◌, Bool, false, not, ◌&&◌, ◌||◌, Option, none, some,
  String, arith, max, if◌then◌else◌, ltb, str_eq, Bool-cases,
}
use harmonia_server.Library.Rules.{
  Rule, rule, Rules, no_rules, more_rules, RuleError, too_many, invalid_group, Counted, counted,
  rejected, count_leaf, check_leaf, is_group, has_rules, walk, walk_all, validate_rule, then_count,
}

-- The rules that are looked at when tracks are matched: those of a group, and the group itself.
unfoldable mutual
  pub rule_nodes : Rule → ℕ
  rule_nodes (rule mode cs field op v) = if str_eq mode "" then 1 else suc (all_nodes cs)

  pub all_nodes : Rules → ℕ
  all_nodes no_rules = 0
  all_nodes (more_rules r rs) = rule_nodes r + all_nodes rs

-- How many groups nest.
unfoldable mutual
  pub group_levels : Rule → ℕ
  group_levels (rule mode cs field op v) = if str_eq mode "" then 0 else suc (all_levels cs)

  pub all_levels : Rules → ℕ
  all_levels no_rules = 0
  all_levels (more_rules r rs) = max (group_levels r) (all_levels rs)

count_leaf-counted : (n m : ℕ) (e : Option RuleError) → count_leaf n e ≡ counted m → m ≡ n
unfolding count_leaf
count_leaf-counted n m none h = cc
count_leaf-counted n m (some e) h = cc

Counted-cases : (a : Counted) → ((n : ℕ) × (a ≡ counted n)) ⊎ ((e : RuleError) × (a ≡ rejected e))
Counted-cases (counted n) = inl (n, refl)
Counted-cases (rejected e) = inr (e, refl)

rejected-ne-counted : (e : RuleError) (n : ℕ) → rejected e ≢ counted n
rejected-ne-counted e n h = cc

leaf_levels : (r : Rule) → is_group r ≡ false → group_levels r ≡ 0
unfolding is_group group_levels
leaf_levels (rule mode cs field op v) h = ground arith

mutual
  unfolding walk then_count rule_nodes group_levels

  walk-counted :
      (parses : String → Bool) (r : Rule) (depth count n : ℕ)
      → walk parses r depth count ≡ counted n
      → (n ≡ count + rule_nodes r) × (depth + group_levels r ≤ 5) × (n ≤ 30) × (depth ≤ 4)
  walk-counted parses (rule mode cs field op v) depth count n h =
      elim (Bool-cases (ltb 30 (count + 1) || ltb 4 depth)) [
        | inl over ↦ absurd (rejected-ne-counted too_many n (rw over at h))
        | inr fits ↦ elim (Bool-cases (str_eq mode "")) [
          | inl leaf ↦
              let same : n ≡ count + 1 =
                count_leaf-counted (count + 1) n (check_leaf parses field op v)
                  (rw (fits, leaf) at h) in
              rw leaf (omega (arith, same), ground arith, ground (arith, same), ground arith)
          | inr group ↦
              elim (Bool-cases
                (not (str_eq mode "all") && not (str_eq mode "any") || not (has_rules cs))) [
                  | inl bad ↦
                      absurd (rejected-ne-counted invalid_group n (rw (fits, group, bad) at h))
                  | inr good ↦
                      let (same, nested, few) =
                        walk_all-counted parses cs depth (count + 1) n (ground arith) (ground arith)
                          (rw (fits, group, good) at h) in
                      rw group (omega (arith, same), omega (arith, nested), few, ground arith)
                ]
        ]
      ]

  walk_all-counted :
      (parses : String → Bool) (rs : Rules) (depth count n : ℕ)
      → depth ≤ 4
      → count ≤ 30
      → walk_all parses rs depth count ≡ counted n
      → (n ≡ count + all_nodes rs) × (depth + all_levels rs ≤ 4) × (n ≤ 30)
  walk_all-counted parses no_rules depth count n d c h = (ground arith, omega arith, ground arith)
  walk_all-counted parses (more_rules r rs) depth count n d c h =
      let inside : ℕ = if is_group r then depth + 1 else depth in
      elim (Counted-cases (walk parses r inside count)) [
        | inr (e, bad) ↦ absurd (rejected-ne-counted e n (rw (bad, then_count) at h))
        | inl (m, good) ↦
            let (same, nested, few, deep) = walk-counted parses r inside count m good in
            let (same2, nested2, few2) =
              walk_all-counted parses rs depth m n d few (rw (good, then_count) at h) in
            (
              omega (arith, same, same2),
              elim (Bool-cases (is_group r)) [
                | inl group ↦ omega (arith, nested2, rw group at nested)
                | inr leaf ↦ omega (arith, nested2, d, leaf_levels r leaf)
              ],
              few2,
            )
      ]

-- What `Validate` accepts has at most 30 rules that are looked at, groups among them, in at most four levels of
-- groups; and the count that it ends with is the number of those rules.
pub validate_rule-counted :
    (parses : String → Bool) (r : Rule) (n : ℕ)
    → validate_rule parses r ≡ counted n
    → (n ≡ rule_nodes r) × (rule_nodes r ≤ 30) × (group_levels r ≤ 4)
unfolding validate_rule
validate_rule-counted parses r n h =
    let (same, nested, few, deep) = walk-counted parses r 1 0 n h in
    (omega (arith, same), omega (arith, same, few), omega (arith, nested))
