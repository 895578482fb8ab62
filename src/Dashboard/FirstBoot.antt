-- ===== src/Dashboard/FirstBoot.antt =====
-- api/dashboard.py before the first password is set.
use tinysocs.Prelude.Core.{
  ◌≡◌, refl, inl, inr, ap, ◌∙◌, ℕ, Bool, true, false, Option, none, some, List, [], ◌∷◌, arith, ltb,
  Bool-cases,
}
use tinysocs.Prelude.Lists.{length}
use tinysocs.Prelude.Dict.{lookup, lookup-nil}
use tinysocs.Prelude.Text.{Text, text_eq, strip}
use tinysocs.Dashboard.Session.{Sessions, check_expiry, validate_session}
use tinysocs.Dashboard.Gate.{bearer, validate_bearer, verify_dashboard_session}
use tinysocs.Dashboard.Login.{
  Portal, compare_digest, get_admin_password, login_with, api_auth_login, check_rate_limit,
  record_login_attempt,
}
use tinysocs.Dashboard.BruteForce.{Call, call}
use tinysocs.Dashboard.Passwords.{
  mint, store_password, setup_if, setup_with, setup_unset, api_setup_password, api_password_status,
  api_auth_change_password, api_change_password,
}
use tinysocs.Dashboard.Accounts.{
  Request, logging_in, calling, asking_status, setting_up, auth_changing, changing, posting,
  rewriting, serve, run, MayChange, Guesses, Same-password, serve-Same, IsClosed, NoGuess,
}

-- Without sessions no header is valid, and checking it changes nothing.
validate_bearer-none :
    (o : Option Text) (now : ℕ) (s : Sessions)
    → s.active ≡ []
    → validate_bearer o now s ≡ (false, s)
unfolding validate_session
validate_bearer-none none now s h = refl
validate_bearer-none (some []) now s h = refl
validate_bearer-none (some (c ∷ t)) now s h =
    let missing : lookup (c ∷ t) s.active ≡ none = rw h (lookup-nil {V = ℕ} (c ∷ t)) in
    ap (check_expiry (c ∷ t) now s) missing

verify-none :
    (auth : Text) (now : ℕ) (s : Sessions)
    → s.active ≡ []
    → verify_dashboard_session auth now s ≡ (false, s)
unfolding verify_dashboard_session
verify-none auth now s h = validate_bearer-none (bearer auth) now s h

login_with-sessions :
    (pw password t : Text) (start now : ℕ) (q : Portal)
    → pw ≡ []
    → (login_with pw password t start now q).1.sessions ≡ q.sessions
login_with-sessions [] password t start now q h = refl
login_with-sessions (c ∷ pw) password t start now q h = cc

call-sessions :
    (c : Call) (p : Portal) → get_admin_password p ≡ [] → (call c p).1.sessions ≡ p.sessions
unfolding api_auth_login
call-sessions c p h = elim (Bool-cases (check_rate_limit c.ip c.checked p.attempts).0) [
  | inl e ↦ rw e refl
  | inr e ↦
      let q : Portal = record p {
        attempts =
            record_login_attempt c.ip c.recorded (check_rate_limit c.ip c.checked p.attempts).1;
      } in
      rw e (
        login_with-sessions (get_admin_password q) c.password c.new_token c.start c.now q
          (Same-password q p (refl, refl) ∙ h))
]

store_password-sessions :
    (writes : Bool) (new_password : Text) (file : Option Text) (p : Portal)
    → (store_password writes new_password file p).1.sessions ≡ p.sessions
store_password-sessions writes new_password none p = refl
store_password-sessions true new_password (some text) p = refl
store_password-sessions false new_password (some text) p = refl

setup_if-sessions :
    (o : Option Bool) (writes : Bool) (new_password : Text) (p : Portal)
    → (setup_if o writes new_password p).1.sessions ≡ p.sessions
setup_if-sessions none writes new_password p = refl
setup_if-sessions (some false) writes new_password p = refl
setup_if-sessions (some true) writes new_password p =
    elim (Bool-cases (ltb (length new_password) 8)) [
      | inl e ↦ rw e refl
      | inr e ↦ rw e (store_password-sessions writes new_password p.env_file p)
    ]

setup_unset-sessions :
    (pw provided drawn : Text) (writes : Bool) (new_password : Text) (p : Portal)
    → (setup_unset pw provided drawn writes new_password p).1.sessions ≡ p.sessions
setup_unset-sessions (c ∷ pw) provided drawn writes new_password p = refl
setup_unset-sessions [] provided drawn writes new_password p = go (strip provided)
  where
    go : (t : Text) → (setup_with t drawn writes (strip new_password) p).1.sessions ≡ p.sessions
    go [] = refl
    go (c ∷ t) =
        setup_if-sessions (compare_digest (c ∷ t) (mint drawn p.setup_token)) writes
          (strip new_password) (record p { setup_token = some (mint drawn p.setup_token) })

serve-no_sessions : (r : Request) (p : Portal) → IsClosed p → (serve r p).1.sessions.active ≡ []
unfolding serve api_setup_password api_auth_change_password api_change_password api_password_status
serve-no_sessions (logging_in c) p h = ap (λ s. s.active) (call-sessions c p h.0) ∙ h.1
serve-no_sessions (calling auth now) p h = rw (verify-none auth now p.sessions h.1) h.1
serve-no_sessions (asking_status drawn) p h = ground (arith, h)
serve-no_sessions (setting_up provided drawn writes new_password) p h =
    ap (λ s. s.active)
      (setup_unset-sessions (get_admin_password p) provided drawn writes new_password p)
    ∙ h.1
serve-no_sessions (auth_changing auth now writes current new_password) p h =
    rw (verify-none auth now p.sessions h.1) h.1
serve-no_sessions (changing auth now writes old_password new_password) p h =
    rw (verify-none auth now p.sessions h.1) h.1
serve-no_sessions (posting auth now writes updates) p h =
    rw (verify-none auth now p.sessions h.1) h.1
serve-no_sessions (rewriting auth now file) p h = rw (verify-none auth now p.sessions h.1) h.1

-- While nobody is logged in, only a setup with the token may change the password.
MayChange-Guesses : (r : Request) (p : Portal) → IsClosed p → MayChange r p → Guesses r p
MayChange-Guesses (logging_in c) p h may = may
MayChange-Guesses (calling auth now) p h may = may
MayChange-Guesses (asking_status drawn) p h may = may
MayChange-Guesses (setting_up provided drawn writes new_password) p h may = may.1
MayChange-Guesses (auth_changing auth now writes current new_password) p h may =
    let none_valid = verify-none auth now p.sessions h.1 in absurd (ground (arith, may.0))
MayChange-Guesses (changing auth now writes old_password new_password) p h may =
    let none_valid = verify-none auth now p.sessions h.1 in absurd (ground (arith, may.0))
MayChange-Guesses (posting auth now writes updates) p h may =
    let none_valid = verify-none auth now p.sessions h.1 in absurd (ground (arith, may))
MayChange-Guesses (rewriting auth now file) p h may =
    let none_valid = verify-none auth now p.sessions h.1 in absurd (ground (arith, may))

serve-IsClosed : (r : Request) (p : Portal) → ¬ Guesses r p → IsClosed p → IsClosed (serve r p).1
serve-IsClosed r p no_guess h = elim (serve-Same r p) [
  | inl kept ↦ (Same-password (serve r p).1 p kept ∙ h.0, serve-no_sessions r p h)
  | inr may ↦ absurd (no_guess (MayChange-Guesses r p h may))
]

run-IsClosed :
    (requests : List Request) (p : Portal)
    → NoGuess requests p
    → IsClosed p
    → IsClosed (run requests p)
unfolding run
run-IsClosed [] p n h = h
run-IsClosed (r ∷ requests) p n h =
    run-IsClosed requests (serve r p).1 n.1 (serve-IsClosed r p n.0 h)

-- From a state with no password and no sessions, whatever requests come, as long as no setup
-- carries the setup token: the password stays unset, and no header passes the session check.
pub run-first_boot :
    (requests : List Request) (p : Portal) (auth : Text) (now : ℕ)
    → NoGuess requests p
    → get_admin_password p ≡ []
    → p.sessions.active ≡ []
    → (get_admin_password (run requests p) ≡ [])
      × ((verify_dashboard_session auth now (run requests p).sessions).0 ≡ false)
run-first_boot requests p auth now n h s =
    let closed = run-IsClosed requests p n (h, s) in
    (closed.0, rw (verify-none auth now (run requests p).sessions closed.1) refl)
