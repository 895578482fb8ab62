-- ===== src/Dashboard/Accounts.antt =====
-- The requests that can move the password, and the time before it is set.
use tinysocs.Prelude.Core.{
  ◌≡◌, ◌≢◌, ◌⊎◌, refl, inl, inr, ◌∙◌, ℕ, Bool, true, false, Option, none, some, List, [], ◌∷◌,
  arith, if◌then◌else◌, Bool-cases,
}
use tinysocs.Prelude.Equality.{beq-cases}
use tinysocs.Prelude.Dict.{Dict, lookup}
use tinysocs.Prelude.Strings.{codes}
use tinysocs.Prelude.Text.{Text, text_eq, strip}
use tinysocs.Dashboard.Gate.{verify_dashboard_session}
use tinysocs.Dashboard.Login.{
  Portal, Answer, ok, failed, compare_digest, get_admin_password, login_if, login_with,
  api_auth_login, check_rate_limit, record_login_attempt,
}
use tinysocs.Dashboard.Settings
use tinysocs.Dashboard.Settings.{Config, get_or, api_settings_post}
use tinysocs.Dashboard.BruteForce.{Call, call}
use tinysocs.Dashboard.Passwords.{
  mint, setup_if, setup_with, setup_unset, api_setup_password, api_password_status, auth_change_if,
  api_auth_change_password, change_if, change_from, api_change_password,
}

-- The requests that touch the accounts, outside the demo mode. `posting` saves settings. `rewriting`
-- is any other request that a session admits and that writes assistant.env (the handlers of sites,
-- retention and notifications), with the file that it leaves. `calling` is any other request that a
-- session admits.
pub data Request : Type 0 where
  logging_in : Call → Request
  calling : Text → ℕ → Request
  asking_status : Text → Request
  setting_up : Text → Text → Bool → Text → Request
  auth_changing : Text → ℕ → Bool → Text → Text → Request
  changing : Text → ℕ → Bool → Text → Text → Request
  posting : Text → ℕ → Bool → Dict Text Text → Request
  rewriting : Text → ℕ → Option Text → Request

abbrev pub call_with : Text → ℕ → Portal → Answer × Portal
call_with auth now p =
    let (valid, sessions) = verify_dashboard_session auth now p.sessions in
    (if valid then ok else failed 401 "Not authenticated", record p { sessions = sessions })

-- What the settings share with the accounts: of the environment the password, and the file.
abbrev pub config_of : Portal → Config
config_of p = record {
  environ = (codes "SIEM_PASS", p.siem_pass) ∷ [];
  env_file = p.env_file;
  ca_pem_cache = none;
  chat_sessions = [];
}

abbrev pub with_config : Settings.Answer × Config → Portal → Answer × Portal
with_config (Settings.failed code message, c) p = (failed code message, p)
with_config (Settings.unchanged, c) p = (ok, p)
with_config (Settings.updated ks, c) p = (
  ok,
  record p { siem_pass = get_or [] (lookup (codes "SIEM_PASS") c.environ); env_file = c.env_file },
)

abbrev pub post_settings : Text → ℕ → Bool → Dict Text Text → Portal → Answer × Portal
post_settings auth now writes updates p =
    let (valid, sessions) = verify_dashboard_session auth now p.sessions in
    let q : Portal = record p { sessions = sessions } in
    if valid
    then with_config (api_settings_post writes updates (config_of q)) q
    else (failed 401 "Not authenticated", q)

abbrev pub rewrite_with : Text → ℕ → Option Text → Portal → Answer × Portal
rewrite_with auth now file p =
    let (valid, sessions) = verify_dashboard_session auth now p.sessions in
    if valid
    then (ok, record p { sessions = sessions; env_file = file })
    else (failed 401 "Not authenticated", record p { sessions = sessions })

abbrev pub show_status : Bool × Portal → Answer × Portal
show_status (configured, p) = (ok, p)

unfoldable pub serve : Request → Portal → Answer × Portal
serve (logging_in c) p = call c p
serve (calling auth now) p = call_with auth now p
serve (asking_status drawn) p = show_status (api_password_status drawn p)
serve (setting_up provided drawn writes new_password) p =
    api_setup_password provided drawn writes new_password p
serve (auth_changing auth now writes current new_password) p =
    api_auth_change_password auth now writes current new_password p
serve (changing auth now writes old_password new_password) p =
    api_change_password auth now writes old_password new_password p
serve (posting auth now writes updates) p = post_settings auth now writes updates p
serve (rewriting auth now file) p = rewrite_with auth now file p

unfoldable pub run : List Request → Portal → Portal
run [] p = p
run (r ∷ requests) p = run requests (serve r p).1

-- A setup with the setup token while no password is set; a change with a session and the password;
-- settings and other writes of the file with a session.
abbrev pub MayChange : Request → Portal → Type 0
MayChange (setting_up provided drawn writes new_password) p =
    (get_admin_password p ≡ []) × (strip provided ≡ mint drawn p.setup_token)
MayChange (auth_changing auth now writes current new_password) p =
    ((verify_dashboard_session auth now p.sessions).0 ≡ true) × (current ≡ get_admin_password p)
MayChange (changing auth now writes old_password new_password) p =
    ((verify_dashboard_session auth now p.sessions).0 ≡ true)
    × (old_password ≡ get_admin_password p)
MayChange (posting auth now writes updates) p =
    (verify_dashboard_session auth now p.sessions).0 ≡ true
MayChange (rewriting auth now file) p = (verify_dashboard_session auth now p.sessions).0 ≡ true
MayChange r p = ⊥

compare_digest-true : (a b : Text) → compare_digest a b ≡ some true → a ≡ b
compare_digest-true a b h = elim (beq-cases a b) [
  | inl (_, same) ↦ same
  | inr (e, _) ↦ absurd (ground arith)
]

-- The parts of the state that hold the password stay.
abbrev pub Same : Portal → Portal → Type 0
Same p q = (p.siem_pass ≡ q.siem_pass) × (p.env_file ≡ q.env_file)

pub Same-password : (p q : Portal) → Same p q → get_admin_password p ≡ get_admin_password q
unfolding get_admin_password
Same-password p q (e, f) = rw (e, f) refl

login_with-Same :
    (pw password t : Text) (start now : ℕ) (q : Portal)
    → Same (login_with pw password t start now q).1 q
login_with-Same [] password t start now q = (refl, refl)
login_with-Same (c ∷ pw) password t start now q = go (compare_digest password (c ∷ pw))
  where
    go : (o : Option Bool) → Same (login_if o t start now q).1 q
    go none = (refl, refl)
    go (some true) = (refl, refl)
    go (some false) = (refl, refl)

call-Same : (c : Call) (p : Portal) → Same (call c p).1 p
unfolding api_auth_login
call-Same c p = elim (Bool-cases (check_rate_limit c.ip c.checked p.attempts).0) [
  | inl e ↦ rw e (refl, refl)
  | inr e ↦
      let q : Portal = record p {
        attempts =
            record_login_attempt c.ip c.recorded (check_rate_limit c.ip c.checked p.attempts).1;
      } in
      rw e (login_with-Same (get_admin_password q) c.password c.new_token c.start c.now q)
]

api_password_status-Same : (drawn : Text) (p : Portal) → Same (api_password_status drawn p).1 p
unfolding api_password_status
api_password_status-Same drawn p = ground arith

setup_with-Same :
    (provided drawn : Text) (writes : Bool) (new_password : Text) (p : Portal)
    → Same (setup_with provided drawn writes new_password p).1 p
      ⊎ (provided ≡ mint drawn p.setup_token)
setup_with-Same [] drawn writes new_password p = inl (refl, refl)
setup_with-Same (c ∷ provided) drawn writes new_password p =
    go (compare_digest (c ∷ provided) (mint drawn p.setup_token)) refl
  where
    go :
        (o : Option Bool)
        → compare_digest (c ∷ provided) (mint drawn p.setup_token) ≡ o
        → Same
            (setup_if o writes new_password
              (record p { setup_token = some (mint drawn p.setup_token) })).1
            p
          ⊎ (c ∷ provided ≡ mint drawn p.setup_token)
    go none e = inl (refl, refl)
    go (some false) e = inl (refl, refl)
    go (some true) e = inr (compare_digest-true _ _ e)

setup_unset-Same :
    (pw provided drawn : Text) (writes : Bool) (new_password : Text) (p : Portal)
    → Same (setup_unset pw provided drawn writes new_password p).1 p
      ⊎ ((pw ≡ []) × (strip provided ≡ mint drawn p.setup_token))
setup_unset-Same (c ∷ pw) provided drawn writes new_password p = inl (refl, refl)
setup_unset-Same [] provided drawn writes new_password p =
    elim (setup_with-Same (strip provided) drawn writes (strip new_password) p) [
      | inl kept ↦ inl kept
      | inr guessed ↦ inr (refl, guessed)
    ]

auth_change_if-Same :
    (o : Option Bool) (writes : Bool) (new_password : Text) (q : Portal)
    → Same (auth_change_if o writes new_password q).1 q ⊎ (o ≡ some true)
auth_change_if-Same none writes new_password q = inl (refl, refl)
auth_change_if-Same (some false) writes new_password q = inl (refl, refl)
auth_change_if-Same (some true) writes new_password q = inr refl

change_from-Same :
    (pw : Text) (writes : Bool) (old_password new_password : Text) (q : Portal)
    → Same (change_from pw writes old_password new_password q).1 q ⊎ (old_password ≡ pw)
change_from-Same [] writes old_password new_password q = inl (refl, refl)
change_from-Same (c ∷ pw) writes old_password new_password q =
    go (compare_digest old_password (c ∷ pw)) refl
  where
    go :
        (o : Option Bool)
        → compare_digest old_password (c ∷ pw) ≡ o
        → Same (change_if o writes old_password (strip new_password) q).1 q
          ⊎ (old_password ≡ c ∷ pw)
    go none e = inl (refl, refl)
    go (some false) e = inl (refl, refl)
    go (some true) e = inr (compare_digest-true _ _ e)

-- The state once the session was checked, which holds the same password.
abbrev checked : Text → ℕ → Portal → Portal
checked auth now p = record p { sessions = (verify_dashboard_session auth now p.sessions).1 }

checked-password :
    (auth : Text) (now : ℕ) (p : Portal)
    → get_admin_password (checked auth now p) ≡ get_admin_password p
checked-password auth now p = Same-password (checked auth now p) p (refl, refl)

-- Every request keeps the password, or is one that may change it.
pub serve-Same : (r : Request) (p : Portal) → Same (serve r p).1 p ⊎ MayChange r p
unfolding serve api_setup_password api_auth_change_password api_change_password
serve-Same (logging_in c) p = inl (call-Same c p)
serve-Same (calling auth now) p = inl (refl, refl)
serve-Same (asking_status drawn) p = inl (api_password_status-Same drawn p)
serve-Same (setting_up provided drawn writes new_password) p =
    setup_unset-Same (get_admin_password p) provided drawn writes new_password p
serve-Same (auth_changing auth now writes current new_password) p =
    elim (Bool-cases (verify_dashboard_session auth now p.sessions).0) [
      | inr e ↦ inl (rw e (refl, refl))
      | inl e ↦
          let q = checked auth now p in
          let o = compare_digest current (get_admin_password q) in
          elim (auth_change_if-Same o writes new_password q) [
            | inl kept ↦ inl (rw e kept)
            | inr equal ↦ inr (e, compare_digest-true _ _ equal ∙ checked-password auth now p)
          ]
    ]
serve-Same (changing auth now writes old_password new_password) p =
    elim (Bool-cases (verify_dashboard_session auth now p.sessions).0) [
      | inr e ↦ inl (rw e (refl, refl))
      | inl e ↦
          let q = checked auth now p in
          elim (change_from-Same (get_admin_password q) writes old_password new_password q) [
            | inl kept ↦ inl (rw e kept)
            | inr equal ↦ inr (e, equal ∙ checked-password auth now p)
          ]
    ]
serve-Same (posting auth now writes updates) p =
    elim (Bool-cases (verify_dashboard_session auth now p.sessions).0) [
      | inr e ↦ inl (rw e (refl, refl))
      | inl e ↦ inr e
    ]
serve-Same (rewriting auth now file) p =
    elim (Bool-cases (verify_dashboard_session auth now p.sessions).0) [
      | inr e ↦ inl (rw e (refl, refl))
      | inl e ↦ inr e
    ]

-- The admin password is moved by nothing but the first-boot setup, with the setup token and while
-- none is set; the two changes, with a valid session and the current password; and, with a valid
-- session alone, the settings and the other requests that write assistant.env. So it is also when
-- a write of the file fails.
pub serve-MayChange :
    (r : Request) (p : Portal)
    → get_admin_password (serve r p).1 ≢ get_admin_password p
    → MayChange r p
serve-MayChange r p moved = elim (serve-Same r p) [
  | inl kept ↦ absurd (moved (Same-password (serve r p).1 p kept))
  | inr may ↦ may
]

-- No password is set and nobody is logged in.
abbrev pub IsClosed : Portal → Type 0
IsClosed p = (get_admin_password p ≡ []) × (p.sessions.active ≡ [])

-- A setup with the setup token of its time.
abbrev pub Guesses : Request → Portal → Type 0
Guesses (setting_up provided drawn writes new_password) p =
    strip provided ≡ mint drawn p.setup_token
Guesses r p = ⊥

-- No setup of the sequence has the setup token of its time.
abbrev pub NoGuess : List Request → Portal → Type 0
NoGuess [] p = Unit
NoGuess (r ∷ requests) p = (¬ Guesses r p) × NoGuess requests (serve r p).1
