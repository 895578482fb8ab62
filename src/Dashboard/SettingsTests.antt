-- ===== src/Dashboard/SettingsTests.antt =====
-- The settings on concrete data.
use tinysocs.Prelude.Core.{◌≡◌, refl, true, false, some, [], ◌∷◌, ◌++◌}
use tinysocs.Prelude.Dict.{lookup}
use tinysocs.Prelude.Strings.{codes}
use tinysocs.Prelude.Text.{Text, text_eq}
use tinysocs.Dashboard.Settings.{
  is_secret, Config, Answer, unchanged, failed, updated, mask, read_env_file, api_settings_get,
  api_settings_post,
}
use tinysocs.Dashboard.Masked.{api_settings_post-api_settings_get}

abbrev some_config : Config
some_config = record {
  environ = (codes "SIEM_PASS", codes "abcdefgh") ∷ [];
  env_file = some (codes "SIEM_URL = \"http://a\"");
  ca_pem_cache = some (codes "pem");
  chat_sessions = codes "c1" ∷ [];
}

mask_long : mask (codes "abcdefgh") ≡ codes "****efgh"
unfolding mask tinysocs.Dashboard.Settings.stars
mask_long = refl

mask_short : mask (codes "abc") ≡ codes "****"
unfolding mask
mask_short = refl

read_quoted : read_env_file (some_config.env_file) ≡ (codes "SIEM_URL", codes "http://a") ∷ []
unfolding tinysocs.Dashboard.Settings.read_lines tinysocs.Dashboard.EnvFile.lines_from
    tinysocs.Dashboard.EnvFile.key_of tinysocs.Prelude.Text.strip
    tinysocs.Dashboard.EnvFile.before_equals tinysocs.Prelude.Dict.insert
    tinysocs.Prelude.Text.rstrip_char tinysocs.Prelude.Text.lstrip_char
    tinysocs.Dashboard.Settings.after_equals
read_quoted = refl

-- A secret with an asterisk in it cannot be set.
post_asterisk :
    (api_settings_post true ((codes "SIEM_PASS", codes "new*pass") ∷ []) some_config).0 ≡ unchanged
unfolding api_settings_post tinysocs.Dashboard.Settings.filter_updates
    tinysocs.Dashboard.Settings.is_setting text_eq tinysocs.Prelude.Text.strip is_secret
    tinysocs.Prelude.Equality.nat_eq
post_asterisk = refl

-- A line break in a value adds a line, with a key that is no setting.
post_line_break :
    lookup (codes "FEED_KEY") (
      read_env_file
        (api_settings_post true
          ((codes "SIEM_USER", codes "u" ++ 10 ∷ codes "FEED_KEY=k") ∷ [])
          some_config).1.env_file)
    ≡ some (codes "k")
unfolding lookup api_settings_post tinysocs.Dashboard.Settings.filter_updates
    tinysocs.Dashboard.Settings.is_setting text_eq tinysocs.Prelude.Text.strip is_secret
    tinysocs.Dashboard.Settings.read_lines tinysocs.Dashboard.Settings.after_equals
    tinysocs.Dashboard.EnvFile.lines_from tinysocs.Dashboard.EnvFile.write_env_file
    tinysocs.Dashboard.EnvFile.update_lines tinysocs.Dashboard.EnvFile.join_lines
    tinysocs.Dashboard.EnvFile.key_of tinysocs.Dashboard.EnvFile.before_equals
    tinysocs.Dashboard.EnvFile.new_lines tinysocs.Prelude.Dict.insert
    tinysocs.Prelude.Text.lstrip_char tinysocs.Prelude.Text.rstrip_char
post_line_break = refl

-- The write fails, and the process keeps its environment.
post_fails :
    api_settings_post false ((codes "SIEM_PASS", codes "new") ∷ []) some_config
    ≡ (failed 500 "Failed to write env file", some_config)
unfolding api_settings_post tinysocs.Dashboard.Settings.filter_updates
    tinysocs.Dashboard.Settings.is_setting text_eq tinysocs.Prelude.Text.strip is_secret
    tinysocs.Prelude.Equality.nat_eq
post_fails = refl

api_settings_post-api_settings_get_example :
    lookup
      (codes "SIEM_PASS")
      (api_settings_post true (api_settings_get some_config) some_config).1.environ
    ≡ lookup (codes "SIEM_PASS") some_config.environ
unfolding is_secret text_eq
api_settings_post-api_settings_get_example =
    api_settings_post-api_settings_get true some_config (codes "SIEM_PASS") refl
