-- ===== src/Dashboard/Login.antt =====
-- The state of the accounts of api/dashboard.py, and the login with its rate limit. The fields of a
-- request's body are texts ("" where one is missing; the handlers raise on other values of these
-- fields). Tokens that are drawn are arguments.
use tinysocs.Prelude.Core.{
  ℕ, ◌+◌, Bool, true, false, ◌&&◌, String, Option, none, some, List, [], ◌∷◌, ◌++◌, ltb, leb,
  if◌then◌else◌,
}
use tinysocs.Prelude.Equality.{◌==◌, string_eq}
use tinysocs.Prelude.Lists.{length, keep}
use tinysocs.Prelude.Dict.{Dict, lookup, insert, drop_if}
use tinysocs.Prelude.Strings.{codes}
use tinysocs.Prelude.Text.{Text, text_eq, strip}
use tinysocs.Auth.{is_ascii}
use tinysocs.Dashboard.Session.{Sessions, create_session_token}
use tinysocs.Dashboard.EnvFile.{splitlines, first_value}

-- The state: the sessions, `_login_attempts`, SIEM_PASS in the environment ("" if unset),
-- assistant.env (none if there is none) and `_setup_token`.
pub record Portal : Type 0 where
  pub sessions : Sessions
  pub attempts : Dict Text (List ℕ)
  pub siem_pass : Text
  pub env_file : Option Text
  pub setup_token : Option Text

pub data Answer : Type 0 where
  ok : Answer
  token : Text → Answer
  failed : ℕ → String → Answer
  type_error : Answer

abbrev pub rate_window : ℕ
rate_window = 60000000

abbrev pub rate_max : ℕ
rate_max = 5

abbrev pub or_empty : Option (List ℕ) → List ℕ
or_empty none = []
or_empty (some ts) = ts

-- `now - t < _RATE_LIMIT_WINDOW`
abbrev pub recent : ℕ → ℕ → Bool
recent now t = ltb now (t + rate_window)

abbrev pub recent_attempts : ℕ → Text → Dict Text (List ℕ) → List ℕ
recent_attempts now ip d = keep (recent now) (or_empty (lookup ip d))

unfoldable pub check_rate_limit : Text → ℕ → Dict Text (List ℕ) → Bool × Dict Text (List ℕ)
check_rate_limit ip now d =
    let attempts = recent_attempts now ip d in
    (leb rate_max (length attempts), insert ip attempts d)

-- `not v or v[-1] < cutoff`
abbrev pub is_stale : ℕ → List ℕ → Bool
is_stale now [] = true
is_stale now (t ∷ []) = ltb (t + rate_window) now
is_stale now (t ∷ u ∷ ts) = is_stale now (u ∷ ts)

unfoldable pub record_login_attempt : Text → ℕ → Dict Text (List ℕ) → Dict Text (List ℕ)
record_login_attempt ip now d =
    let d' = insert ip (or_empty (lookup ip d) ++ now ∷ []) d in
    if ltb 1000 (length d') then drop_if (is_stale now) d' else d'

-- `hmac.compare_digest` of two texts; none is its TypeError on text that is not ASCII.
abbrev pub compare_digest : Text → Text → Option Bool
compare_digest a b = if is_ascii a && is_ascii b then some (a == b) else none

abbrev pub or_file : Text → Option Text → Text
or_file (c ∷ pw) file = c ∷ pw
or_file [] none = []
or_file [] (some text) = first_value (codes "SIEM_PASS=") (splitlines text)

unfoldable pub get_admin_password : Portal → Text
get_admin_password p = or_file (strip p.siem_pass) p.env_file

-- What follows the rate limit: the comparison with the password that is set.
abbrev pub login_if : Option Bool → Text → ℕ → ℕ → Portal → Answer × Portal
login_if none new_token start now p = (type_error, p)
login_if (some false) new_token start now p = (failed 401 "Invalid password", p)
login_if (some true) new_token start now p =
    (token new_token, record p { sessions = create_session_token new_token start now p.sessions })

abbrev pub login_with : Text → Text → Text → ℕ → ℕ → Portal → Answer × Portal
login_with [] password new_token start now p = (failed 503 "No admin password configured.", p)
login_with (c ∷ pw) password new_token start now p =
    login_if (compare_digest password (c ∷ pw)) new_token start now p

-- The clock is read four times: for the limit, for the attempt, for the session and for its
-- collection.
unfoldable pub api_auth_login : Text → Text → Text → ℕ → ℕ → ℕ → ℕ → Portal → Answer × Portal
api_auth_login ip password new_token checked recorded start now p =
    let (limited, attempts) = check_rate_limit ip checked p.attempts in
    if limited
    then (
      failed 429 "Too many login attempts. Try again in 60 seconds.",
      record p { attempts = attempts },
    )
    else let q = record p { attempts = record_login_attempt ip recorded attempts } in
      login_with (get_admin_password q) password new_token start now q
