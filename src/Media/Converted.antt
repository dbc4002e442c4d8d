-- ===== src/Media/Converted.antt =====
-- A small cache of converted files, and the theorems about it applied.
use harmonia_server.Prelude.{◌≡◌, refl, true, false, Bool, [], ◌∷◌, String, some, arith}
use harmonia_server.Media.ConversionCache.{
  CacheEntry, ConversionCache, acquire_begin, acquire_end, find_file, trim_locked, total_size,
  trim_keys, trim_entry, sorted_keys, insert_key, drop_entry,
}
use harmonia_server.Media.ConversionCache.Uses.{
  CacheUse, taken, begins, here, next, IsCounted, Reach-IsCounted,
}
use harmonia_server.Media.RuleSets.{
  ConversionRule, RuleSet, posts, GoNumbers, TrackFormat, rule_sets, change_checked, change_found,
  check_set, check_rules, check_rule, or_check, is_rate, is_number, is_within, is_operator,
  join_bars, bars_behind, matched, first_rule, rule_matches, matches_format, any_fold, formats_of,
  passes,
}
use harmonia_server.Media.RuleSets.Accepted.{RuleIsValid, Stored, no_sets, asked, matched-Valid}
use harmonia_server.Library.Rules.{is_listed, is_some}
use harmonia_server.Prelude.{str_eq, pos, none, List}
use harmonia_server.Media.ConversionCache.Limits.{
  may_stay, trim_locked-may_stay, Fits, acquire_end-Fits,
}

abbrev song : CacheEntry
song = record { path = "/cache/a.mp3"; size = 70; used = 5; active = 0; pending = false }

abbrev two_songs : ConversionCache
two_songs = record {
  entries = ("a.mp3", song) ∷ ("b.mp3", record song { path = "/cache/b.mp3"; used = 3 }) ∷ [];
  jobs = [];
}

abbrev removes_all : String → Bool
removes_all path = true

abbrev unused : CacheUse
unused = record { cache = two_songs; held = [] }

unused-IsCounted : IsCounted unused
unused-IsCounted = ((refl, (refl, tt)), λ key. ground arith)

abbrev read_a : CacheUse
read_a = taken "a.mp3" (acquire_begin "a.mp3" "job" 9 two_songs) []

Reach-IsCounted_example : IsCounted read_a
Reach-IsCounted_example =
    Reach-IsCounted (next here (begins "a.mp3" "job" 9 unused)) unused-IsCounted

acquire_end-Fits_example :
    Fits 100 (acquire_end removes_all true "/cache/c.mp3" "c.mp3" "job" 50 100 9 two_songs)
acquire_end-Fits_example =
    acquire_end-Fits removes_all true "/cache/c.mp3" "c.mp3" "job" 50 100 9 two_songs

song_stays : find_file "a.mp3" (trim_locked removes_all 100 two_songs).entries ≡ some song
unfolding find_file trim_locked total_size trim_keys trim_entry sorted_keys insert_key drop_entry
song_stays = refl

trim_locked-may_stay_example :
    may_stay 100 (total_size (trim_locked removes_all 100 two_songs).entries) song ≡ true
trim_locked-may_stay_example =
    trim_locked-may_stay removes_all 100 two_songs (refl, (refl, tt)) (λ path. refl) "a.mp3" song
      song_stays

-- FLAC files become Opus of 160 kbps.
abbrev to_opus : ConversionRule
to_opus = record {
  formats = none;
  format = "flac";
  bitrate_op = "";
  bitrate = pos 0;
  sample_rate_op = "";
  sample_rate = pos 0;
  codec = "opus";
  output_bitrate = pos 160;
  output_sample_rate = pos 48000;
}

abbrev mobile : RuleSet
mobile = record { id = "1"; name = "Mobile"; rules = to_opus ∷ [] }

abbrev two_encoders : List String
two_encoders = "mp3" ∷ "opus" ∷ []

abbrev is_unnamed : String → Bool
is_unnamed s = str_eq s ""

abbrev go_numbers : GoNumbers
go_numbers = record {
  same_fold = str_eq;
  texts = record {
    lower = λ s. s;
    is_blank = is_unnamed;
    print_number = λ n. "";
    print_value = λ v. "";
    numeric = λ s. none;
    float_lt = λ a b. false;
    is_zero = λ n. false;
    slashes = λ s. s;
    tag_name = λ s. s;
  };
  to_float = λ n. n;
  print_int = λ z. "";
}

abbrev flac_track : TrackFormat
flac_track = record { format = "flac"; bitrate = 900; sample_rate = 44100 }

mobile-Stored : Stored two_encoders is_unnamed (mobile ∷ [])
unfolding rule_sets change_checked change_found check_set check_rules check_rule or_check is_rate
    is_number is_within is_operator join_bars bars_behind is_listed is_some
mobile-Stored = asked posts "" "1" mobile [] (mobile ∷ []) no_sets refl

mobile_found : matched go_numbers flac_track (mobile ∷ []) "1" ≡ some to_opus
unfolding matched first_rule rule_matches matches_format any_fold formats_of passes
mobile_found = refl

matched-Valid_example : RuleIsValid two_encoders to_opus
matched-Valid_example =
    matched-Valid two_encoders is_unnamed go_numbers flac_track (mobile ∷ []) "1" to_opus
      mobile-Stored mobile_found
