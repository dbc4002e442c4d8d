-- ===== src/Config/EnvFile/Extends.antt =====
-- The file of settings only adds to the environment.
use harmonia_server.Prelude.{
  ℕ, ◌+◌, ◌≡◌, refl, sym, ◌∙◌, inl, inr, Bool, true, false, not, ◌&&◌, ◌||◌, List, [], ◌∷◌, ◌++◌,
  Option, none, some, arith, ◌==◌, Bool-cases, append_assoc, append-nil,
}
use harmonia_server.Prelude.Runes.{runes, same_runes, trim_space, has_prefix, cut_at, put_text}
use harmonia_server.Config.EnvFile.{
  Environment, Setting, skipped, setting, wrong, is_key, is_missing, quoted, read_value, read_pair,
  trim_prefix, read_setting, Values, values, bad_file, add_setting, read_lines, is_set, set_values,
  apply_values, load_env_file,
}

-- The environment as it was, with new keys behind it that are names.
abbrev pub IsName : List ℕ × List ℕ → Type 0
IsName (key, value) = is_key false key ≡ true

abbrev pub AllNames : Environment → Type 0
AllNames [] = Unit {0}
AllNames (entry ∷ env) = IsName entry × AllNames env

abbrev pub Extends : Environment → Environment → Type 0
Extends env after = (more : Environment) × (after ≡ env ++ more) × AllNames more

abbrev SettingIsNamed : Setting → Type 0
SettingIsNamed skipped = Unit {0}
SettingIsNamed (setting key value) = is_key false key ≡ true
SettingIsNamed (wrong e) = Unit {0}

quoted-Named :
    (line : ℕ) (key : List ℕ) (parts : Option (List ℕ × List ℕ))
    → is_key false key ≡ true
    → SettingIsNamed (quoted line key parts)
unfolding quoted
quoted-Named line key none k = tt
quoted-Named line key (some (value, after)) k =
    elim (Bool-cases
      (not (is_missing (trim_space after)) && not (has_prefix (35 ∷ []) (trim_space after)))) [
        | inl text ↦ rw text tt
        | inr fine ↦ rw fine k
      ]

read_value-Named :
    (line : ℕ) (key value : List ℕ)
    → is_key false key ≡ true
    → SettingIsNamed (read_value line key value)
unfolding read_value
read_value-Named line key [] k = k
read_value-Named line key (q ∷ value) k = elim (Bool-cases (q == 39 || q == 34)) [
  | inl quote ↦ rw quote (quoted-Named line key (cut_at q value) k)
  | inr plain ↦ rw plain k
]

read_pair-Named :
    (line : ℕ) (pair : Option (List ℕ × List ℕ)) → SettingIsNamed (read_pair line pair)
unfolding read_pair
read_pair-Named line none = tt
read_pair-Named line (some (key, value)) =
    elim (Bool-cases (is_missing (trim_space key) || not (is_key false (trim_space key)))) [
      | inl bad ↦ rw bad tt
      | inr fine ↦
          rw fine (read_value-Named line (trim_space key) (trim_space value) (ground arith))
    ]

read_setting-Named : (line : ℕ) (s : List ℕ) → SettingIsNamed (read_setting line s)
unfolding read_setting
read_setting-Named line s =
    let text : List ℕ = trim_space (trim_prefix (0xfeff ∷ []) s) in
    elim (Bool-cases (is_missing text || has_prefix (35 ∷ []) text)) [
      | inl passed ↦ rw passed tt
      | inr pair ↦ rw pair (read_pair-Named line (cut_at 61 (trim_prefix (runes "export ") text)))
    ]

put_text-AllNames :
    (key value : List ℕ) (m : Environment)
    → is_key false key ≡ true
    → AllNames m
    → AllNames (put_text key value m)
unfolding put_text
put_text-AllNames key value [] k a = (k, tt)
put_text-AllNames key value ((old, v) ∷ m) k a = elim (Bool-cases (same_runes old key)) [
  | inl same ↦ rw same (a.0, a.1)
  | inr other ↦ rw other (a.0, put_text-AllNames key value m k a.1)
]

abbrev ValuesAreNamed : Values → Type 0
ValuesAreNamed (values m) = AllNames m
ValuesAreNamed (bad_file e) = Unit {0}

add_setting-Named :
    (s : Setting) (m : Environment)
    → SettingIsNamed s
    → AllNames m
    → ValuesAreNamed (add_setting s m)
unfolding add_setting
add_setting-Named skipped m n a = a
add_setting-Named (setting key value) m n a = put_text-AllNames key value m n a
add_setting-Named (wrong e) m n a = tt

read_lines-Named :
    (line : ℕ) (lines : List (List ℕ)) (v : Values)
    → ValuesAreNamed v
    → ValuesAreNamed (read_lines line lines v)
unfolding read_lines
read_lines-Named line [] v n = n
read_lines-Named line (s ∷ lines) (bad_file e) n = read_lines-Named (line + 1) lines (bad_file e) n
read_lines-Named line (s ∷ lines) (values m) n =
    read_lines-Named (line + 1) lines (add_setting (read_setting (line + 1) s) m)
      (add_setting-Named (read_setting (line + 1) s) m (read_setting-Named (line + 1) s) n)

put_text_fresh :
    (key value : List ℕ) (env : Environment)
    → is_set key env ≡ false
    → put_text key value env ≡ env ++ ((key, value) ∷ [])
unfolding put_text is_set
put_text_fresh key value [] n = refl
put_text_fresh key value ((old, v) ∷ env) n =
    let other : same_runes old key ≡ false = ground arith in
    let fresh : is_set key env ≡ false = ground arith in
    rw (other, put_text_fresh key value env fresh) refl

set_values-Extends :
    (sets : List ℕ → Bool) (m env : Environment)
    → AllNames m
    → Extends env (set_values sets m env).env
unfolding set_values
set_values-Extends sets [] env a = ([], sym (append-nil env), tt)
set_values-Extends sets ((key, value) ∷ m) env a = elim (Bool-cases (is_set key env)) [
  | inl old ↦ rw old (set_values-Extends sets m env a.1)
  | inr fresh ↦ elim (Bool-cases (sets key)) [
    | inl took ↦
        let longer : Environment = env ++ ((key, value) ∷ []) in
        let rest : Extends longer (set_values sets m longer).env =
          set_values-Extends sets m longer a.1 in
        rw (fresh, took, put_text_fresh key value env fresh)
          (
            (key, value) ∷ rest.0,
            rest.1 ∙ append_assoc env ((key, value) ∷ []) rest.0,
            (a.0, rest.2),
          )
    | inr failed ↦ rw (fresh, failed) ([], sym (append-nil env), tt)
  ]
]

apply_values-Extends :
    (sets : List ℕ → Bool) (fails : Bool) (v : Values) (env : Environment)
    → ValuesAreNamed v
    → Extends env (apply_values sets fails v env).env
unfolding apply_values
apply_values-Extends sets fails (bad_file e) env n = ([], sym (append-nil env), tt)
apply_values-Extends sets true (values m) env n = ([], sym (append-nil env), tt)
apply_values-Extends sets false (values m) env n = set_values-Extends sets m env n

-- Whatever the file holds and whatever fails, no setting of the environment is changed or lost, though setting a
-- variable would replace it: what is added stands behind what was there, and each new key is a letter or an
-- underscore with letters, digits and underscores.
pub load_env_file-Extends :
    (sets : List ℕ → Bool) (fails : Bool) (file : Option (List (List ℕ))) (env : Environment)
    → Extends env (load_env_file sets fails file env).env
unfolding load_env_file
load_env_file-Extends sets fails none env = ([], sym (append-nil env), tt)
load_env_file-Extends sets fails (some lines) env =
    apply_values-Extends sets fails (read_lines 0 lines (values [])) env
      (read_lines-Named 0 lines (values []) tt)
