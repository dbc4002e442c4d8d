-- ===== src/Media/RuleSets.antt =====
-- The rule sets of conversions in internal/app/media.go: `matched`, the checks of `ruleSets` and its change of the
-- stored sets.
pub mod Accepted
use harmonia_server.Prelude.{
  ℕ, Bool, true, false, not, ◌&&◌, ◌||◌, List, [], ◌∷◌, ◌++◌, Option, none, some, String, ℤ, pos,
  negsuc, if◌then◌else◌, ltb, ◌==◌, str_eq,
}
use Prim.Native.String.{◌++◌ as ◌<>◌}
use harmonia_server.Library.Rules.{is_listed}
use harmonia_server.Library.Matching.{GoTexts, number_field, compare}

-- The tests of a rule beside the conversion that it asks for.
pub record ConversionRule : Type 0 where
  pub formats : Option (List String)
  pub format : String
  pub bitrate_op : String
  pub bitrate : ℤ
  pub sample_rate_op : String
  pub sample_rate : ℤ
  pub codec : String
  pub output_bitrate : ℤ
  pub output_sample_rate : ℤ

pub record RuleSet : Type 0 where
  pub id : String
  pub name : String
  pub rules : List ConversionRule

-- What is asked of a track.
pub record TrackFormat : Type 0 where
  pub format : String
  pub bitrate : ℕ
  pub sample_rate : ℕ

-- `same_fold` is `strings.EqualFold`.
unfoldable pub any_fold : (String → String → Bool) → String → List String → Bool
any_fold same_fold format [] = false
any_fold same_fold format (f ∷ fs) = same_fold f format || any_fold same_fold format fs

unfoldable pub formats_of : ConversionRule → Option (List String) → List String
formats_of r (some fs) = fs
formats_of r none = if str_eq r.format "" then [] else r.format ∷ []

unfoldable pub matches_format : (String → String → Bool) → String → List String → Bool
matches_format same_fold format [] = true
matches_format same_fold format (f ∷ fs) = any_fold same_fold format (f ∷ fs)

-- How Go compares texts, makes a number a float64 and prints an integer.
pub record GoNumbers : Type 0 where
  pub same_fold : String → String → Bool
  pub texts : GoTexts
  pub to_float : ℕ → ℕ
  pub print_int : ℤ → String

-- No operator asks for nothing.
unfoldable pub passes : GoNumbers → ℕ → ℤ → String → Bool
passes go a b op =
    str_eq op "" || compare go.texts (number_field (go.to_float a)) (go.print_int b) op

unfoldable pub rule_matches : GoNumbers → TrackFormat → ConversionRule → Bool
rule_matches go t r =
    matches_format go.same_fold t.format (formats_of r r.formats)
    && passes go t.bitrate r.bitrate r.bitrate_op
    && passes go t.sample_rate r.sample_rate r.sample_rate_op

unfoldable pub first_rule : (ConversionRule → Bool) → List ConversionRule → Option ConversionRule
first_rule test [] = none
first_rule test (r ∷ rs) = if test r then some r else first_rule test rs

unfoldable pub matched : GoNumbers → TrackFormat → List RuleSet → String → Option ConversionRule
matched go t [] id = none
matched go t (set ∷ sets) id =
    let later = matched go t sets id in
    if str_eq set.id id then first_rule (rule_matches go t) set.rules else later

pub data SetError : Type 0 where
  name_required unsupported_encoder invalid_sample_rate opus_sample_rate invalid_bitrate : SetError
  invalid_comparison not_found : SetError

unfoldable pub is_number : ℕ → ℤ → Bool
is_number n (pos m) = m == n
is_number n (negsuc m) = false

unfoldable pub is_within : ℕ → ℕ → ℤ → Bool
is_within low high (pos m) = not (ltb m low) && not (ltb high m)
is_within low high (negsuc m) = false

unfoldable pub bars_behind : List String → String
bars_behind [] = "|"
bars_behind (e ∷ es) = "|" <> (e <> bars_behind es)

-- The encoders between bars.
unfoldable pub join_bars : List String → String
join_bars [] = "||"
join_bars (e ∷ es) = bars_behind (e ∷ es)

unfoldable pub is_rate : ℤ → Bool
is_rate rate =
    is_number 0 rate || is_number 22050 rate || is_number 44100 rate || is_number 48000 rate

unfoldable pub is_operator : String → Bool
is_operator op = str_eq op "" || is_listed "|eq|gt|gte|lt|lte|" op

unfoldable pub check_rule : List String → ConversionRule → Option SetError
check_rule encoders r =
    let rate = r.output_sample_rate in
    if not (is_listed (join_bars encoders) r.codec) || str_eq r.codec ""
    then some unsupported_encoder
    else (if not (is_rate rate)
        then some invalid_sample_rate
        else (if str_eq r.codec "opus" && not (is_number 0 rate) && not (is_number 48000 rate)
            then some opus_sample_rate
            else (if not (str_eq r.codec "wav")
                  && not (str_eq r.codec "flac")
                  && not (is_within 64 320 r.output_bitrate)
                then some invalid_bitrate
                else (if not (is_operator r.bitrate_op) || not (is_operator r.sample_rate_op)
                    then some invalid_comparison
                    else none))))

unfoldable pub or_check : Option SetError → Option SetError → Option SetError
or_check none rest = rest
or_check (some e) rest = some e

unfoldable pub check_rules : List String → List ConversionRule → Option SetError
check_rules encoders [] = none
check_rules encoders (r ∷ rs) = or_check (check_rule encoders r) (check_rules encoders rs)

-- `is_blank` tells whether `strings.TrimSpace` leaves nothing.
unfoldable pub check_set : (String → Bool) → List String → RuleSet → Option SetError
check_set is_blank encoders set =
    if is_blank set.name then some name_required else check_rules encoders set.rules

pub data Method : Type 0 where
  posts puts deletes : Method

unfoldable pub has_set : String → List RuleSet → Bool
has_set id [] = false
has_set id (s ∷ sets) = str_eq s.id id || has_set id sets

unfoldable pub replace_set : String → RuleSet → List RuleSet → List RuleSet
replace_set id set [] = []
replace_set id set (s ∷ sets) =
    let rest = replace_set id set sets in
    if str_eq s.id id then record set { id = s.id } ∷ sets else s ∷ rest

unfoldable pub delete_set : String → List RuleSet → List RuleSet
delete_set id [] = []
delete_set id (s ∷ sets) =
    let rest = delete_set id sets in if str_eq s.id id then sets else s ∷ rest

-- The sets after the request, or the error. `fresh` is the new identifier.
pub data Changed : Type 0 where
  changed : List RuleSet → Changed
  unchanged : SetError → Changed

unfoldable pub change_found : Method → String → String → RuleSet → List RuleSet → Changed
change_found posts id fresh set sets = changed (sets ++ (record set { id = fresh } ∷ []))
change_found puts id fresh set sets =
    if has_set id sets then changed (replace_set id set sets) else unchanged not_found
change_found deletes id fresh set sets =
    if has_set id sets then changed (delete_set id sets) else unchanged not_found

unfoldable pub change_checked :
    Option SetError → Method → String → String → RuleSet → List RuleSet → Changed
change_checked (some e) method id fresh set sets = unchanged e
change_checked none method id fresh set sets = change_found method id fresh set sets

-- A deletion has no body to check.
unfoldable pub rule_sets :
    (String → Bool) → List String → Method → String → String → RuleSet → List RuleSet → Changed
rule_sets is_blank encoders deletes id fresh set sets =
    change_checked none deletes id fresh set sets
rule_sets is_blank encoders method id fresh set sets =
    change_checked (check_set is_blank encoders set) method id fresh set sets
