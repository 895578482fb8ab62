-- ===== src/Dashboard/Gate.antt =====
-- The session checks of api/dashboard.py: the middleware `_enforce_dashboard_session` with its
-- public routes, `_verify_dashboard_session` and `/api/auth/check`. Methods are ASCII, as HTTP has it.
use tinysocs.Prelude.Core.{
  ℕ, zero, suc, ◌-◌, Bool, true, false, ◌&&◌, Option, none, some, List, [], ◌∷◌, leb, if◌then◌else◌,
}
use tinysocs.Prelude.Equality.{◌==◌}
use tinysocs.Prelude.Lists.{any}
use tinysocs.Prelude.Strings.{codes}
use tinysocs.Prelude.Text.{Text, text_eq, strip, strip_prefix}
use tinysocs.Dashboard.Session.{Sessions, validate_session}

-- The header up to its first blank is "Bearer"; what follows it, stripped.
unfoldable pub bearer : Text → Option Text
bearer auth = elim (strip_prefix (codes "Bearer ") auth) [
  | none ↦ none
  | some rest ↦ some (strip rest)
]

abbrev pub validate_bearer : Option Text → ℕ → Sessions → Bool × Sessions
validate_bearer none now s = (false, s)
validate_bearer (some token) now s = validate_session token now s

-- false is the HTTPException 401.
unfoldable pub verify_dashboard_session : Text → ℕ → Sessions → Bool × Sessions
verify_dashboard_session auth now s = validate_bearer (bearer auth) now s

unfoldable pub upper : Text → Text
upper [] = []
upper (c ∷ s) = (if leb b'a' c && leb c b'z' then c - 32 else c) ∷ upper s

abbrev pub public_routes : List (Text × Text)
public_routes =
    (codes "GET", codes "/")
    ∷ (codes "GET", codes "/favicon.ico")
    ∷ (codes "POST", codes "/api/auth/login")
    ∷ (codes "GET", codes "/api/auth/check")
    ∷ (codes "GET", codes "/api/settings/password-status")
    ∷ (codes "POST", codes "/api/settings/setup-password")
    ∷ (codes "POST", codes "/api/nodes/register")
    ∷ []

unfoldable pub is_public : Text → Text → Bool
is_public method path = any (λ r. r.0 == method && r.1 == path) public_routes

abbrev pub or_root : Text → Text
or_root [] = codes "/"
or_root (c ∷ path) = c ∷ path

abbrev pub head_as_get : Text → Text
head_as_get method = if method == codes "HEAD" then codes "GET" else method

-- Whether the request is passed on; the answer is 401 if it is not.
unfoldable pub enforce_dashboard_session :
    Bool → Text → Text → Text → ℕ → Sessions → Bool × Sessions
enforce_dashboard_session true method path auth now s = (true, s)
enforce_dashboard_session false method path auth now s =
    if upper method == codes "OPTIONS"
    then (true, s)
    else if is_public (head_as_get (upper method)) (or_root path)
    then (true, s)
    else validate_bearer (bearer auth) now s

-- `s.replace(pattern, "")`: the first argument of the helper counts the characters of an
-- occurrence that are still to be skipped.
unfoldable pub remove_from : ℕ → Text → ℕ → Text → Text
remove_from n pattern skip [] = []
remove_from n pattern (suc skip) (c ∷ s) = remove_from n pattern skip s
remove_from n pattern zero (c ∷ s) = elim (strip_prefix pattern (c ∷ s)) [
  | some rest ↦ remove_from n pattern (n - 1) s
  | none ↦ c ∷ remove_from n pattern zero s
]

abbrev pub checked_token : Text → Text
checked_token authorization = elim (strip_prefix (codes "Bearer ") authorization) [
  | none ↦ authorization
  | some rest ↦ remove_from 7 (codes "Bearer ") 0 authorization
]

unfoldable pub api_auth_check : Text → ℕ → Sessions → Bool × Sessions
unfolding remove_from
api_auth_check authorization now s = validate_session (checked_token authorization) now s
