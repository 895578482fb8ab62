-- ===== src/Dashboard/Passwords.antt =====
-- The first-boot setup and the two password changes of api/dashboard.py. `writes` is false when the
-- file cannot be written, which then stays as it is. Texts of a request's body are as in the login.
use tinysocs.Prelude.Core.{
  ℕ, Bool, true, false, Option, none, some, List, [], ◌∷◌, ◌++◌, ltb, if◌then◌else◌,
}
use tinysocs.Prelude.Equality.{◌==◌, string_eq}
use tinysocs.Prelude.Lists.{length}
use tinysocs.Prelude.Strings.{codes}
use tinysocs.Prelude.Text.{Text, text_eq, strip, strip_prefix}
use tinysocs.Dashboard.Gate.{verify_dashboard_session}
use tinysocs.Dashboard.EnvFile.{splitlines, file_text, assignment, write_env_file}
use tinysocs.Dashboard.Login.{
  Portal, Answer, ok, failed, type_error, compare_digest, get_admin_password,
}

-- The first line that sets SIEM_PASS is replaced; none if there is none.
unfoldable pub replace_first : Text → Text → List Text → Option (List Text)
replace_first prefix line' [] = none
replace_first prefix line' (line ∷ lines) =
    let rest = replace_first prefix line' lines in
    elim (strip_prefix prefix (strip line)) [
      | some v ↦ some (line' ∷ lines)
      | none ↦ elim rest [ none ↦ none | some ls ↦ some (line ∷ ls) ]
    ]

abbrev pub or_append : Text → List Text → Option (List Text) → List Text
or_append line' lines none = lines ++ line' ∷ []
or_append line' lines (some ls) = ls

abbrev pub rewrite_file : Text → Text → Text
rewrite_file new_password text =
    let line' = assignment (codes "SIEM_PASS") new_password in
    let lines = splitlines text in
    file_text (or_append line' lines (replace_first (codes "SIEM_PASS=") line' lines))

-- A write of an existing file that fails is an exception, after the environment has changed and
-- before the sessions are cleared.
abbrev pub finish_change : Bool → Text → Option Text → Portal → Answer × Portal
finish_change writes new_password none p =
    (ok, record p { siem_pass = new_password; sessions = record p.sessions { active = [] } })
finish_change writes new_password (some text) p =
    if writes
    then (
      ok,
      record p {
        siem_pass = new_password;
        env_file = some (rewrite_file new_password text);
        sessions = record p.sessions { active = [] };
      },
    )
    else (failed 500 "Internal Server Error", record p { siem_pass = new_password })

abbrev pub auth_change_if : Option Bool → Bool → Text → Portal → Answer × Portal
auth_change_if none writes new_password p = (type_error, p)
auth_change_if (some false) writes new_password p = (failed 401 "Current password is incorrect", p)
auth_change_if (some true) writes new_password p =
    if ltb (length new_password) 8
    then (failed 400 "New password must be at least 8 characters", p)
    else finish_change writes new_password p.env_file p

unfoldable pub api_auth_change_password : Text → ℕ → Bool → Text → Text → Portal → Answer × Portal
api_auth_change_password auth now writes current new_password p =
    let (valid, sessions) = verify_dashboard_session auth now p.sessions in
    let q = record p { sessions = sessions } in
    if valid
    then auth_change_if (compare_digest current (get_admin_password q)) writes new_password q
    else (failed 401 "Not authenticated", q)

-- `drawn` is the token that is drawn if none was.
abbrev pub mint : Text → Option Text → Text
mint drawn none = drawn
mint drawn (some t) = t

-- `_write_env_file` if there is a file, and then the environment.
abbrev pub store_password : Bool → Text → Option Text → Portal → Answer × Portal
store_password writes new_password none p = (ok, record p { siem_pass = new_password })
store_password writes new_password (some text) p =
    if writes
    then (
      ok,
      record p {
        siem_pass = new_password;
        env_file = some (write_env_file ((codes "SIEM_PASS", new_password) ∷ []) text);
      },
    )
    else (failed 500 "Failed to write env file", p)

abbrev pub setup_if : Option Bool → Bool → Text → Portal → Answer × Portal
setup_if none writes new_password p = (type_error, p)
setup_if (some false) writes new_password p = (failed 403 "Invalid or missing setup token.", p)
setup_if (some true) writes new_password p =
    if ltb (length new_password) 8
    then (failed 400 "Password must be at least 8 characters.", p)
    else store_password writes new_password p.env_file p

-- An empty token is refused before one is minted.
abbrev pub setup_with : Text → Text → Bool → Text → Portal → Answer × Portal
setup_with [] drawn writes new_password p = (failed 403 "Invalid or missing setup token.", p)
setup_with (c ∷ provided) drawn writes new_password p =
    let minted = mint drawn p.setup_token in
    setup_if (compare_digest (c ∷ provided) minted) writes new_password
      (record p { setup_token = some minted })

abbrev pub setup_unset : Text → Text → Text → Bool → Text → Portal → Answer × Portal
setup_unset [] provided drawn writes new_password p =
    setup_with (strip provided) drawn writes (strip new_password) p
setup_unset (c ∷ pw) provided drawn writes new_password p =
    (failed 400 "Password already configured. Use Change Password instead.", p)

unfoldable pub api_setup_password : Text → Text → Bool → Text → Portal → Answer × Portal
api_setup_password provided drawn writes new_password p =
    setup_unset (get_admin_password p) provided drawn writes new_password p

-- Whether a password is configured; the setup token is minted if none is.
unfoldable pub api_password_status : Text → Portal → Bool × Portal
api_password_status drawn p = elim (get_admin_password p) [
  | [] ↦ (false, record p { setup_token = some (mint drawn p.setup_token) })
  | c ∷ pw ↦ (true, p)
]

abbrev pub change_if : Option Bool → Bool → Text → Text → Portal → Answer × Portal
change_if none writes old_password new_password p = (type_error, p)
change_if (some false) writes old_password new_password p =
    (failed 401 "Current password is incorrect.", p)
change_if (some true) writes old_password new_password p =
    if ltb (length new_password) 8
    then (failed 400 "New password must be at least 8 characters.", p)
    else if new_password == old_password
    then (failed 400 "New password must differ from current password.", p)
    else store_password writes new_password p.env_file p

abbrev pub change_from : Text → Bool → Text → Text → Portal → Answer × Portal
change_from [] writes old_password new_password p = (failed 403 "password_not_set", p)
change_from (c ∷ pw) writes old_password new_password p =
    change_if (compare_digest old_password (c ∷ pw)) writes old_password (strip new_password) p

unfoldable pub api_change_password : Text → ℕ → Bool → Text → Text → Portal → Answer × Portal
api_change_password auth now writes old_password new_password p =
    let (valid, sessions) = verify_dashboard_session auth now p.sessions in
    let q = record p { sessions = sessions } in
    if valid
    then change_from (get_admin_password q) writes old_password new_password q
    else (failed 401 "Not authenticated", q)
