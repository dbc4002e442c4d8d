-- ===== src/Media/RuleSets/Accepted.antt =====
-- The stored sets are only ever those that were accepted, and a stream only uses their rules.
use harmonia_server.Prelude.{
  ℕ, ◌≡◌, refl, sym, ap, ◌∙◌, inl, inr, Bool, true, false, List, [], ◌∷◌, ◌++◌, none, some, String,
  All, arith, str_eq, Bool-cases, Option-cases, ◌⊎◌, ℤ, subst, pos, negsuc, ◌≤◌,
}
use harmonia_server.Library.Rules.{is_listed}
use harmonia_server.Media.RuleSets.{
  ConversionRule, RuleSet, name_required, check_rule, or_check, check_rules, check_set, Method,
  posts, puts, deletes, has_set, replace_set, delete_set, Changed, changed, unchanged, change_found,
  change_checked, rule_sets, is_number, is_within, is_rate, join_bars, GoNumbers, TrackFormat,
  rule_matches, first_rule, matched,
}

-- The integer is a natural number from low to high.
abbrev pub IsBetween : ℕ → ℕ → ℤ → Type 0
IsBetween low high (pos n) = (low ≤ n) × (n ≤ high)
IsBetween low high (negsuc n) = ⊥

module _ (encoders : List String) where
  -- A conversion that FFmpeg can be asked for.
  pub record RuleIsValid (r : ConversionRule) : Type 0 where
    pub encoded : is_listed (join_bars encoders) r.codec ≡ true
    pub named : str_eq r.codec "" ≡ false
    pub rate :
        (r.output_sample_rate ≡ pos 0)
        ⊎ (r.output_sample_rate ≡ pos 22050)
        ⊎ (r.output_sample_rate ≡ pos 44100)
        ⊎ (r.output_sample_rate ≡ pos 48000)
    pub opus :
        str_eq r.codec "opus" ≡ true
        → (r.output_sample_rate ≡ pos 0) ⊎ (r.output_sample_rate ≡ pos 48000)
    pub bitrate :
        str_eq r.codec "wav" ≡ false
        → str_eq r.codec "flac" ≡ false
        → IsBetween 64 320 r.output_bitrate

  is_number-pos : (n : ℕ) (z : ℤ) → is_number n z ≡ true → z ≡ pos n
  unfolding is_number
  is_number-pos n (pos m) e = let same : m ≡ n = ground arith in ap pos same
  is_number-pos n (negsuc m) e = cc

  is_within-IsBetween : (z : ℤ) → is_within 64 320 z ≡ true → IsBetween 64 320 z
  unfolding is_within
  is_within-IsBetween (pos m) e = ground arith
  is_within-IsBetween (negsuc m) e = cc

  is_rate-one :
      (z : ℤ) → is_rate z ≡ true → (z ≡ pos 0) ⊎ (z ≡ pos 22050) ⊎ (z ≡ pos 44100) ⊎ (z ≡ pos 48000)
  unfolding is_rate
  is_rate-one z e = elim (Bool-cases (is_number 0 z)) [
    | inl h ↦ inl (is_number-pos 0 z h)
    | inr h ↦ elim (Bool-cases (is_number 22050 z)) [
      | inl k ↦ inr (inl (is_number-pos 22050 z k))
      | inr k ↦ elim (Bool-cases (is_number 44100 z)) [
        | inl l ↦ inr (inr (inl (is_number-pos 44100 z l)))
        | inr l ↦ inr (inr (inr (is_number-pos 48000 z (ground arith))))
      ]
    ]
  ]

  check_rule-Valid : (r : ConversionRule) → check_rule encoders r ≡ none → RuleIsValid r
  unfolding check_rule
  check_rule-Valid r e = record {
    encoded = ground arith;
    named = ground arith;
    rate = is_rate-one r.output_sample_rate (ground arith);
    opus = λ opus. elim (Bool-cases (is_number 0 r.output_sample_rate)) [
      | inl h ↦ inl (is_number-pos 0 r.output_sample_rate h)
      | inr h ↦ inr (is_number-pos 48000 r.output_sample_rate (ground arith))
    ];
    bitrate = λ wav flac. is_within-IsBetween r.output_bitrate (ground arith);
  }

  check_rules-Valid :
      (rs : List ConversionRule) → check_rules encoders rs ≡ none → All RuleIsValid rs
  unfolding check_rules or_check
  check_rules-Valid [] e = tt
  check_rules-Valid (r ∷ rs) e = elim (Option-cases (check_rule encoders r)) [
    | inl fine ↦ (check_rule-Valid r fine, check_rules-Valid rs (sym (rw fine refl) ∙ e))
    | inr (error, wrong) ↦ let no : some error ≡ none = sym (rw wrong refl) ∙ e in cc
  ]

  first_rule-Valid :
      (test : ConversionRule → Bool) (rs : List ConversionRule) (r : ConversionRule)
      → All RuleIsValid rs
      → first_rule test rs ≡ some r
      → RuleIsValid r
  unfolding first_rule
  first_rule-Valid test [] r a e = cc
  first_rule-Valid test (q ∷ rs) r a e = elim (Bool-cases (test q)) [
    | inl fits ↦
        let here : some q ≡ some r = sym (rw fits refl) ∙ e in
        let same : q ≡ r = cc in subst RuleIsValid same a.0
    | inr other ↦ first_rule-Valid test rs r a.1 (sym (rw other refl) ∙ e)
  ]

  module _ (is_blank : String → Bool) where
    -- A set with a name and with rules that can be used.
    abbrev pub SetIsValid : RuleSet → Type 0
    SetIsValid set = (is_blank set.name ≡ false) × All RuleIsValid set.rules

    abbrev pub ChangedIsValid : Changed → Type 0
    ChangedIsValid (changed sets) = All SetIsValid sets
    ChangedIsValid (unchanged e) = Unit {0}

    check_set-Valid : (set : RuleSet) → check_set is_blank encoders set ≡ none → SetIsValid set
    unfolding check_set
    check_set-Valid set e = elim (Bool-cases (is_blank set.name)) [
      | inl blank ↦ let no : some name_required ≡ none = sym (rw blank refl) ∙ e in cc
      | inr named ↦ (named, check_rules-Valid set.rules (sym (rw named refl) ∙ e))
    ]

    replace_set-Valid :
        (id : String) (set : RuleSet) (sets : List RuleSet)
        → SetIsValid set
        → All SetIsValid sets
        → All SetIsValid (replace_set id set sets)
    unfolding replace_set
    replace_set-Valid id set [] v a = tt
    replace_set-Valid id set (s ∷ sets) v a = elim (Bool-cases (str_eq s.id id)) [
      | inl same ↦ rw same (v, a.1)
      | inr other ↦ rw other (a.0, replace_set-Valid id set sets v a.1)
    ]

    delete_set-Valid :
        (id : String) (sets : List RuleSet)
        → All SetIsValid sets
        → All SetIsValid (delete_set id sets)
    unfolding delete_set
    delete_set-Valid id [] a = tt
    delete_set-Valid id (s ∷ sets) a = elim (Bool-cases (str_eq s.id id)) [
      | inl same ↦ rw same a.1
      | inr other ↦ rw other (a.0, delete_set-Valid id sets a.1)
    ]

    append-Valid :
        (sets : List RuleSet) (set : RuleSet)
        → All SetIsValid sets
        → SetIsValid set
        → All SetIsValid (sets ++ (set ∷ []))
    append-Valid [] set a v = (v, tt)
    append-Valid (s ∷ sets) set a v = (a.0, append-Valid sets set a.1 v)

    change_found-Valid :
        (method : Method) (id fresh : String) (set : RuleSet) (sets : List RuleSet)
        → check_set is_blank encoders set ≡ none
        → All SetIsValid sets
        → ChangedIsValid (change_found method id fresh set sets)
    unfolding change_found
    change_found-Valid posts id fresh set sets e a = append-Valid sets _ a (check_set-Valid set e)
    change_found-Valid puts id fresh set sets e a = elim (Bool-cases (has_set id sets)) [
      | inl found ↦ rw found (replace_set-Valid id set sets (check_set-Valid set e) a)
      | inr missing ↦ rw missing tt
    ]
    change_found-Valid deletes id fresh set sets e a = elim (Bool-cases (has_set id sets)) [
      | inl found ↦ rw found (delete_set-Valid id sets a)
      | inr missing ↦ rw missing tt
    ]

    checked-Valid :
        (method : Method) (id fresh : String) (set : RuleSet) (sets : List RuleSet)
        → All SetIsValid sets
        → ChangedIsValid (change_checked (check_set is_blank encoders set) method id fresh set sets)
    unfolding change_checked
    checked-Valid method id fresh set sets a =
        elim (Option-cases (check_set is_blank encoders set)) [
          | inl fine ↦ rw fine (change_found-Valid method id fresh set sets fine a)
          | inr (e, wrong) ↦ rw wrong tt
        ]

    -- Whatever is posted, put or deleted.
    rule_sets-Valid :
        (method : Method) (id fresh : String) (set : RuleSet) (sets : List RuleSet)
        → All SetIsValid sets
        → ChangedIsValid (rule_sets is_blank encoders method id fresh set sets)
    unfolding rule_sets change_checked change_found
    rule_sets-Valid posts id fresh set sets a = checked-Valid posts id fresh set sets a
    rule_sets-Valid puts id fresh set sets a = checked-Valid puts id fresh set sets a
    rule_sets-Valid deletes id fresh set sets a = elim (Bool-cases (has_set id sets)) [
      | inl found ↦ rw found (delete_set-Valid id sets a)
      | inr missing ↦ rw missing tt
    ]

    -- The sets after any requests, from none at first.
    pub data Stored : List RuleSet → Type 0 where
      no_sets : Stored []
      asked :
          (method : Method) (id fresh : String) (set : RuleSet) (sets after : List RuleSet)
          → Stored sets
          → rule_sets is_blank encoders method id fresh set sets ≡ changed after
          → Stored after

    Stored-Valid : (sets : List RuleSet) → Stored sets → All SetIsValid sets
    Stored-Valid _ no_sets = tt
    Stored-Valid _ (asked method id fresh set sets after before e) =
        subst ChangedIsValid e (rule_sets-Valid method id fresh set sets (Stored-Valid sets before))

    found-Valid :
        (go : GoNumbers) (t : TrackFormat) (sets : List RuleSet) (id : String) (r : ConversionRule)
        → All SetIsValid sets
        → matched go t sets id ≡ some r
        → RuleIsValid r
    unfolding matched
    found-Valid go t [] id r a e = cc
    found-Valid go t (set ∷ sets) id r a e = elim (Bool-cases (str_eq set.id id)) [
      | inl here ↦ first_rule-Valid (rule_matches go t) set.rules r a.0.1 (sym (rw here refl) ∙ e)
      | inr other ↦ found-Valid go t sets id r a.1 (sym (rw other refl) ∙ e)
    ]

    -- Whatever rule sets were posted, put and deleted while FFmpeg's encoders stayed the same: the rule that a
    -- stream is converted by has an encoder that stands between bars in the list of them, a sampling rate of the
    -- four that are allowed, with Opus only 0 or 48000, and a bitrate from 64 to 320 unless it is WAV or FLAC.
    pub matched-Valid :
        (go : GoNumbers) (t : TrackFormat) (sets : List RuleSet) (id : String) (r : ConversionRule)
        → Stored sets
        → matched go t sets id ≡ some r
        → RuleIsValid r
    matched-Valid go t sets id r stored e = found-Valid go t sets id r (Stored-Valid sets stored) e
