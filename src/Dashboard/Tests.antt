-- ===== src/Dashboard/Tests.antt =====
-- The accounts of the dashboard on concrete data.
use tinysocs.Prelude.Core.{◌≡◌, ◌≢◌, refl, ℕ, ◌≤◌, true, false, none, some, List, [], ◌∷◌, arith}
use tinysocs.Prelude.Lists.{length, keep}
use tinysocs.Prelude.Dict.{lookup, insert, drop_if}
use tinysocs.Prelude.Strings.{codes}
use tinysocs.Prelude.Text.{Text, text_eq, strip, strip_prefix}
use tinysocs.Auth.{is_ascii}
use tinysocs.Dashboard.Session.{
  no_sessions, Event, creating, validating, run, step, create_session_token, validate_session,
}
use tinysocs.Dashboard.Gate.{
  bearer, upper, is_public, enforce_dashboard_session, verify_dashboard_session,
}
use tinysocs.Dashboard.EnvFile.{
  write_env_file, lines_from, join_lines, before_equals, key_of, update_lines, new_lines,
  first_value,
}
use tinysocs.Dashboard.Login.{
  Portal, ok, get_admin_password, check_rate_limit, record_login_attempt, api_auth_login, rate_max,
}
use tinysocs.Dashboard.Passwords.{
  api_setup_password, api_auth_change_password, api_change_password, replace_first, mint,
}
use tinysocs.Dashboard.Deadline.{deadlines, no_deadlines}
use tinysocs.Dashboard.Admitted.{Verdict, enforce_dashboard_session-Verdict}
use tinysocs.Dashboard.Renewal.{validate_session-stays}
use tinysocs.Dashboard.Attempts.{in_minute}
use tinysocs.Dashboard.BruteForce.{Call, tries, api_auth_login-limit}
use tinysocs.Dashboard.Accounts
use tinysocs.Dashboard.Accounts.{
  Request, logging_in, calling, asking_status, setting_up, changing, posting, serve, MayChange,
  Guesses, serve-MayChange,
}
use tinysocs.Dashboard.FirstBoot.{run-first_boot}

abbrev some_token : Text
some_token = codes "t1"

abbrev some_header : Text
some_header = codes "Bearer t1"

abbrev some_events : List Event
some_events = creating some_token 10 11 ∷ validating some_token 2000000000 ∷ []

admitted :
    (enforce_dashboard_session false
      (codes "get")
      (codes "/api/rules")
      some_header
      5000000000
      (run some_events no_sessions)).0
    ≡ true
unfolding enforce_dashboard_session text_eq upper is_public bearer strip_prefix validate_session
    strip lookup run step create_session_token drop_if insert
admitted = refl

enforce_dashboard_session-Verdict_example :
    Verdict some_events
      (codes "get")
      (codes "/api/rules")
      some_header
      5000000000
      (enforce_dashboard_session false
        (codes "get")
        (codes "/api/rules")
        some_header
        5000000000
        (run some_events no_sessions)).0
enforce_dashboard_session-Verdict_example =
    enforce_dashboard_session-Verdict some_events (codes "get") (codes "/api/rules") some_header
      5000000000

some_deadline : deadlines true some_events no_deadlines some_token ≡ some 5600000000
unfolding deadlines text_eq
some_deadline = refl

validate_session-stays_example :
    (validate_session some_token 5000000000 (run some_events no_sessions)).0 ≡ true
validate_session-stays_example =
    validate_session-stays some_events b't' (b'1' ∷ []) 5000000000 5600000000 (omega arith)
      (omega arith) some_deadline (omega arith)

abbrev fresh : Portal
fresh = record {
  sessions = no_sessions;
  attempts = [];
  siem_pass = [];
  env_file = some (codes "# keys\nSIEM_PASS=\n");
  setup_token = none;
}

abbrev some_ip : Text
some_ip = codes "10.0.0.9"

abbrev call_at : ℕ → Call
call_at t = record {
  ip = some_ip;
  password = codes "guess";
  new_token = some_token;
  checked = t;
  recorded = t;
  start = t;
  now = t;
}

abbrev seven : List Call
seven =
    call_at 1 ∷ call_at 2 ∷ call_at 3 ∷ call_at 4 ∷ call_at 5 ∷ call_at 6 ∷ call_at 60000006 ∷ []

five_pass : tries some_ip seven fresh [] ≡ 1 ∷ 2 ∷ 3 ∷ 4 ∷ 5 ∷ 60000006 ∷ []
unfolding tries api_auth_login check_rate_limit lookup get_admin_password strip first_value
    lines_from strip_prefix record_login_attempt insert text_eq
five_pass = refl

api_auth_login-limit_example : length (keep (in_minute 1) (tries some_ip seven fresh [])) ≤ rate_max
api_auth_login-limit_example = api_auth_login-limit some_ip seven fresh 1 (omega arith) refl

-- The first boot: the status is asked, a token is guessed, a login fails; then the setup.
abbrev some_guesses : List Request
some_guesses =
    asking_status (codes "s3t")
    ∷ setting_up (codes "wrong") (codes "other") true (codes "evil-password")
    ∷ logging_in (call_at 7)
    ∷ []

abbrev drawn_token : Text
drawn_token = codes "s3t"

abbrev set_up : Request
set_up = setting_up (codes " s3t ") (codes "other") true (codes "a-long-password")

wrong_guess : codes "wrong" ≢ codes "s3t"
wrong_guess = λ e. cc

guess_drawn :
    mint (codes "other") (serve (asking_status drawn_token) fresh).1.setup_token ≡ drawn_token
unfolding serve tinysocs.Dashboard.Passwords.api_password_status get_admin_password strip
    first_value lines_from strip_prefix
guess_drawn = refl

stripped_guess : strip (codes "wrong") ≡ codes "wrong"
unfolding strip
stripped_guess = refl

fresh_unset : get_admin_password fresh ≡ []
unfolding get_admin_password strip first_value lines_from strip_prefix
fresh_unset = refl

not_guessed :
    ¬ Guesses
      (setting_up (codes "wrong") (codes "other") true (codes "evil-password"))
      (serve (asking_status drawn_token) fresh).1
not_guessed h = wrong_guess (ground (arith, h, stripped_guess, guess_drawn))

run-first_boot_example :
    (get_admin_password (Accounts.run some_guesses fresh) ≡ [])
    × ((verify_dashboard_session some_header 9 (Accounts.run some_guesses fresh).sessions).0
        ≡ false)
run-first_boot_example =
    run-first_boot some_guesses fresh some_header 9 (λ h. h, (not_guessed, (λ h. h, tt)))
      fresh_unset refl

abbrev booted : Portal
booted = (serve set_up (serve (asking_status drawn_token) fresh).1).1

booted_password : get_admin_password booted ≡ codes "a-long-password"
unfolding serve get_admin_password strip api_setup_password
    tinysocs.Dashboard.Passwords.api_password_status first_value lines_from strip_prefix text_eq
booted_password = refl

booted_file : booted.env_file ≡ some (codes "# keys\nSIEM_PASS=a-long-password\n")
unfolding serve api_setup_password get_admin_password strip
    tinysocs.Dashboard.Passwords.api_password_status first_value lines_from strip_prefix text_eq
    write_env_file update_lines join_lines key_of before_equals lookup new_lines
booted_file = refl

status_unset : get_admin_password (serve (asking_status drawn_token) fresh).1 ≡ []
unfolding serve get_admin_password strip tinysocs.Dashboard.Passwords.api_password_status
    first_value lines_from strip_prefix
status_unset = refl

serve-MayChange_example : MayChange set_up (serve (asking_status drawn_token) fresh).1
serve-MayChange_example =
    serve-MayChange set_up (serve (asking_status drawn_token) fresh).1
      (λ e. ground (arith, booted_password, status_unset, e))

-- A portal where somebody is logged in.
abbrev entered : Portal
entered = record {
  sessions = record { active = (some_token, 1000) ∷ []; gc_counter = 0 };
  attempts = [];
  siem_pass = codes "old-password";
  env_file = none;
  setup_token = none;
}

-- The settings set the password with a session alone.
posted_password :
    get_admin_password
      (serve
        (posting some_header 20 true ((codes "SIEM_PASS", codes "posted-pass") ∷ []))
        entered).1
    ≡ codes "posted-pass"
unfolding get_admin_password strip serve verify_dashboard_session bearer strip_prefix
    validate_session lookup text_eq tinysocs.Dashboard.Settings.api_settings_post
    tinysocs.Dashboard.Settings.filter_updates tinysocs.Dashboard.Settings.is_setting
    tinysocs.Dashboard.Settings.is_secret tinysocs.Prelude.Equality.nat_eq
    tinysocs.Dashboard.Settings.apply_updates insert
posted_password = refl

changed :
    (api_change_password some_header 20 true
      (codes "old-password")
      (codes " new-password ")
      entered).0
    ≡ ok
unfolding api_change_password verify_dashboard_session bearer strip_prefix validate_session strip
    lookup text_eq get_admin_password
changed = refl

changed_ascii : is_ascii (strip (codes " new-password ")) ≡ true
unfolding strip
changed_ascii = refl

not_limited : (check_rate_limit some_ip 30 entered.attempts).0 ≡ false
unfolding check_rate_limit lookup
not_limited = refl

padded :
    (api_auth_change_password some_header 20 true
      (codes "old-password")
      (codes " new-password ")
      entered).0
    ≡ ok
unfolding api_auth_change_password verify_dashboard_session bearer strip_prefix validate_session
    strip lookup text_eq get_admin_password
padded = refl

padded_strip : strip (codes " new-password ") ≡ codes "new-password"
unfolding strip
padded_strip = refl

abbrev waiting : Portal
waiting = record fresh { setup_token = some drawn_token }

foreign : (api_setup_password drawn_token (codes "other") true (codes "pässwört1") waiting).0 ≡ ok
unfolding api_setup_password get_admin_password strip first_value lines_from strip_prefix text_eq
foreign = refl

foreign_ascii : is_ascii (strip (codes "pässwört1")) ≡ false
unfolding strip
foreign_ascii = refl
