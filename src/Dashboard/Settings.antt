-- ===== src/Dashboard/Settings.antt =====
-- The settings of api/dashboard.py: what `GET /api/settings` shows of them, with the secrets
-- masked, and what `POST /api/settings` changes in assistant.env and in the process. The session
-- was checked before. The file is none if none is found; the updates have no key twice.
use tinysocs.Prelude.Core.{
  ℕ, zero, suc, ◌-◌, Bool, true, false, not, ◌&&◌, ◌||◌, Option, none, some, List, [], ◌∷◌, String,
  map, ltb, eqb, if◌then◌else◌,
}
use tinysocs.Prelude.Equality.{contains, nat_eq}
use tinysocs.Prelude.Lists.{length, drop}
use tinysocs.Prelude.Dict.{Dict, lookup, insert, keys}
use tinysocs.Prelude.Strings.{codes}
use tinysocs.Prelude.Text.{Text, text_eq, strip, strip_prefix, lstrip_char, rstrip_char}
use tinysocs.Dashboard.EnvFile.{splitlines, key_of, write_env_file}

abbrev pub settings_keys : List Text
settings_keys =
    codes "LLM_MODE"
    ∷ codes "OPENAI_API_KEY"
    ∷ codes "OPENAI_MODEL"
    ∷ codes "ANTHROPIC_API_KEY"
    ∷ codes "ANTHROPIC_MODEL"
    ∷ codes "OFFLINE_LLM_URL"
    ∷ codes "OFFLINE_LLM_MODEL"
    ∷ codes "SIEM_URL"
    ∷ codes "SIEM_USER"
    ∷ codes "SIEM_PASS"
    ∷ codes "SIEM_SSL_VERIFY"
    ∷ codes "SIEM_CA_CERT"
    ∷ codes "WEBHOOK_URL"
    ∷ codes "WEBHOOK_ENABLED"
    ∷ codes "NOTIFY_SLACK"
    ∷ codes "SLACK_WEBHOOK_URL"
    ∷ codes "ABUSEIPDB_API_KEY"
    ∷ codes "OTX_API_KEY"
    ∷ codes "GREYNOISE_API_KEY"
    ∷ codes "WINLOG_RETENTION_DAYS"
    ∷ codes "ALERT_RETENTION_DAYS"
    ∷ []

abbrev pub secret_keys : List Text
secret_keys =
    codes "OPENAI_API_KEY"
    ∷ codes "ANTHROPIC_API_KEY"
    ∷ codes "SIEM_PASS"
    ∷ codes "ABUSEIPDB_API_KEY"
    ∷ codes "OTX_API_KEY"
    ∷ codes "GREYNOISE_API_KEY"
    ∷ []

unfoldable pub is_secret : Text → Bool
is_secret key = contains secret_keys key

unfoldable pub is_setting : Text → Bool
is_setting key = contains settings_keys key

-- The environment of the process, the file, and what depends on the settings.
pub record Config : Type 0 where
  pub environ : Dict Text Text
  pub env_file : Option Text
  pub ca_pem_cache : Option Text
  pub chat_sessions : List Text

pub data Answer : Type 0 where
  unchanged : Answer
  updated : List Text → Answer
  failed : ℕ → String → Answer

abbrev strip_char : ℕ → Text → Text
strip_char ch s = rstrip_char ch (lstrip_char ch s)

-- The text after the first '='.
unfoldable pub after_equals : Text → Text
after_equals [] = []
after_equals (c ∷ s) = let rest = after_equals s in if eqb c b'=' then s else rest

abbrev pub value_of : Text → Text
value_of line = strip_char 39 (strip_char 34 (strip (after_equals (strip line))))

abbrev pub read_line : Option Text → Text → Dict Text Text → Dict Text Text
read_line none line d = d
read_line (some k) line d = insert k (value_of line) d

unfoldable pub read_lines : List Text → Dict Text Text → Dict Text Text
read_lines [] d = d
read_lines (line ∷ lines) d = read_lines lines (read_line (key_of line) line d)

-- `_read_env_file` of the file, or no values.
abbrev pub read_env_file : Option Text → Dict Text Text
read_env_file none = []
read_env_file (some text) = read_lines (splitlines text) []

unfoldable pub stars : ℕ → Text → Text
stars zero rest = rest
stars (suc n) rest = b'*' ∷ stars n rest

unfoldable pub mask : Text → Text
mask val =
    let hidden = length val - 4 in
    if ltb 4 (length val) then stars hidden (drop hidden val) else codes "****"

abbrev pub shown_value : Text → Text → Text
shown_value key [] = []
shown_value key (c ∷ val) = if is_secret key then mask (c ∷ val) else c ∷ val

abbrev pub get_or : Text → Option Text → Text
get_or default none = default
get_or default (some v) = v

abbrev pub value_in : Config → Text → Text
value_in s key = get_or (get_or [] (lookup key (read_env_file s.env_file))) (lookup key s.environ)

unfoldable pub api_settings_get : Config → Dict Text Text
api_settings_get s = map (λ key. (key, shown_value key (value_in s key))) settings_keys

abbrev pub is_kept_back : Text → Text → Bool
is_kept_back key [] = is_secret key
is_kept_back key (c ∷ v) = is_secret key && contains (c ∷ v) b'*'

unfoldable pub filter_updates : Dict Text Text → Dict Text Text
filter_updates [] = []
filter_updates ((k, v) ∷ updates) =
    let rest = filter_updates updates in
    if is_setting k && not (is_kept_back k (strip v)) then (k, strip v) ∷ rest else rest

unfoldable pub apply_updates : Dict Text Text → Dict Text Text → Dict Text Text
apply_updates [] environ = environ
apply_updates ((k, v) ∷ updates) environ = apply_updates updates (insert k v environ)

abbrev pub begins : Text → Text → Bool
begins prefix s = elim (strip_prefix prefix s) [ none ↦ false | some rest ↦ true ]

unfoldable pub any_begins : Text → List Text → Bool
any_begins prefix [] = false
any_begins prefix (k ∷ ks) = begins prefix k || any_begins prefix ks

abbrev pub is_llm : List Text → Bool
is_llm ks =
    any_begins (codes "LLM_") ks
    || (any_begins (codes "OPENAI_") ks
        || (any_begins (codes "ANTHROPIC_") ks || any_begins (codes "OFFLINE_") ks))

-- The file after its write; none is an exception.
abbrev pub write_file : Bool → Dict Text Text → Option Text → Option (Option Text)
write_file writes updates none = some none
write_file false updates (some text) = none
write_file true updates (some text) = some (some (write_env_file updates text))

abbrev pub apply_written : Dict Text Text → Config → Option (Option Text) → Answer × Config
apply_written updates s none = (failed 500 "Failed to write env file", s)
apply_written updates s (some file) = (
  updated (keys updates),
  record {
    environ = apply_updates updates s.environ;
    env_file = file;
    ca_pem_cache = if any_begins (codes "SIEM_") (keys updates) then none else s.ca_pem_cache;
    chat_sessions = if is_llm (keys updates) then [] else s.chat_sessions;
  },
)

abbrev pub post_filtered : Bool → Dict Text Text → Config → Answer × Config
post_filtered writes [] s = (unchanged, s)
post_filtered writes (u ∷ us) s = apply_written (u ∷ us) s (write_file writes (u ∷ us) s.env_file)

unfoldable pub api_settings_post : Bool → Dict Text Text → Config → Answer × Config
api_settings_post writes updates s = post_filtered writes (filter_updates updates) s
