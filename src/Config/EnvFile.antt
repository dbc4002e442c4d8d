-- ===== src/Config/EnvFile.antt =====
-- `LoadEnvFile` of internal/app/envfile.go. A file is the list of its lines as `bufio.Scanner` gives them, and whether
-- the scanner failed; the environment is a list of keys and values.
pub mod Extends
use harmonia_server.Prelude.{
  ℕ, ◌+◌, Bool, true, false, not, ◌&&◌, ◌||◌, List, [], ◌∷◌, ◌++◌, Option, none, some,
  if◌then◌else◌, leb, ◌==◌,
}
use harmonia_server.Prelude.Runes.{runes, same_runes, trim_space, has_prefix, cut_at, put_text}

abbrev pub Environment : Type 0
Environment = List (List ℕ × List ℕ)

pub data EnvError : Type 0 where
  expected_pair unterminated unexpected_text : ℕ → EnvError
  scanner_failed : EnvError
  not_set : List ℕ → EnvError

pub data Setting : Type 0 where
  skipped : Setting
  setting : List ℕ → List ℕ → Setting
  wrong : EnvError → Setting

-- A letter or an underscore, or a digit behind one.
unfoldable pub is_key : Bool → List ℕ → Bool
is_key later [] = true
is_key later (c ∷ s) =
    (c == 95
      || (leb 65 c && leb c 90)
      || (leb 97 c && leb c 122)
      || (later && leb 48 c && leb c 57))
    && is_key true s

unfoldable pub is_missing : List ℕ → Bool
is_missing [] = true
is_missing (c ∷ s) = false

unfoldable pub quoted : ℕ → List ℕ → Option (List ℕ × List ℕ) → Setting
quoted line key none = wrong (unterminated line)
quoted line key (some (value, after)) =
    let tail = trim_space after in
    if not (is_missing tail) && not (has_prefix (35 ∷ []) tail)
    then wrong (unexpected_text line)
    else setting key value

-- What comes before a space and a number sign.
unfoldable pub before_comment : List ℕ → Option (List ℕ)
before_comment [] = none
before_comment (c ∷ s) =
    if has_prefix (32 ∷ 35 ∷ []) (c ∷ s) then some [] else longer c (before_comment s)
  where
    longer : ℕ → Option (List ℕ) → Option (List ℕ)
    longer c none = none
    longer c (some s) = some (c ∷ s)

unfoldable pub plain_value : List ℕ → Option (List ℕ) → List ℕ
plain_value value none = value
plain_value value (some before) = trim_space before

unfoldable pub read_value : ℕ → List ℕ → List ℕ → Setting
read_value line key [] = setting key []
read_value line key (q ∷ value) =
    if q == 39 || q == 34
    then quoted line key (cut_at q value)
    else setting key (plain_value (q ∷ value) (before_comment (q ∷ value)))

unfoldable pub read_pair : ℕ → Option (List ℕ × List ℕ) → Setting
read_pair line none = wrong (expected_pair line)
read_pair line (some (key, value)) =
    let k = trim_space key in
    if is_missing k || not (is_key false k)
    then wrong (expected_pair line)
    else read_value line k (trim_space value)

unfoldable pub without_prefix : List ℕ → List ℕ → List ℕ
without_prefix [] s = s
without_prefix (p ∷ ps) [] = []
without_prefix (p ∷ ps) (c ∷ s) = without_prefix ps s

unfoldable pub trim_prefix : List ℕ → List ℕ → List ℕ
trim_prefix p s = if has_prefix p s then without_prefix p s else s

unfoldable pub read_setting : ℕ → List ℕ → Setting
read_setting line s =
    let text = trim_space (trim_prefix (0xfeff ∷ []) s) in
    if is_missing text || has_prefix (35 ∷ []) text
    then skipped
    else read_pair line (cut_at 61 (trim_prefix (runes "export ") text))

pub data Values : Type 0 where
  values : Environment → Values
  bad_file : EnvError → Values

unfoldable pub add_setting : Setting → Environment → Values
add_setting skipped m = values m
add_setting (setting key value) m = values (put_text key value m)
add_setting (wrong e) m = bad_file e

unfoldable pub read_lines : ℕ → List (List ℕ) → Values → Values
read_lines line [] v = v
read_lines line (s ∷ lines) (bad_file e) = read_lines (line + 1) lines (bad_file e)
read_lines line (s ∷ lines) (values m) =
    read_lines (line + 1) lines (add_setting (read_setting (line + 1) s) m)

unfoldable pub is_set : List ℕ → Environment → Bool
is_set key [] = false
is_set key ((k, v) ∷ env) = same_runes k key || is_set key env

-- The environment after the call, with the error if there is one.
pub record EnvLoaded : Type 0 where
  pub env : Environment
  pub error : Option EnvError

-- `sets` tells whether `os.Setenv` takes a key, whose value it sets or replaces; Go goes through the values in any
-- order.
unfoldable pub set_values : (List ℕ → Bool) → Environment → Environment → EnvLoaded
set_values sets [] env = record { env = env; error = none }
set_values sets ((key, value) ∷ more) env =
    let next = set_values sets more (if is_set key env then env else put_text key value env) in
    if is_set key env || sets key then next else record { env = env; error = some (not_set key) }

unfoldable pub apply_values : (List ℕ → Bool) → Bool → Values → Environment → EnvLoaded
apply_values sets fails (bad_file e) env = record { env = env; error = some e }
apply_values sets fails (values m) env =
    if fails then record { env = env; error = some scanner_failed } else set_values sets m env

-- A file that is not there changes nothing.
unfoldable pub load_env_file :
    (List ℕ → Bool) → Bool → Option (List (List ℕ)) → Environment → EnvLoaded
load_env_file sets fails none env = record { env = env; error = none }
load_env_file sets fails (some lines) env =
    apply_values sets fails (read_lines 0 lines (values [])) env
