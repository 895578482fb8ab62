-- ===== src/Dashboard/Relogin.antt =====
-- What a password change means for the next login.
use tinysocs.Prelude.Core.{
  ◌≡◌, refl, ap, inl, inr, ◌∙◌, ℕ, ◌≤◌, Bool, true, false, Option, none, some, [], ◌∷◌, arith, ltb,
  Bool-cases,
}
use tinysocs.Prelude.Equality.{◌==◌, beq-cases, beq_refl}
use tinysocs.Prelude.Lists.{length}
use tinysocs.Prelude.Text.{Text, text_eq, strip}
use tinysocs.Prelude.Text.Strip.{strip-strip}
use tinysocs.Auth.{is_ascii}
use tinysocs.Dashboard.Gate.{verify_dashboard_session}
use tinysocs.Dashboard.Login.{
  Portal, ok, token, or_file, compare_digest, get_admin_password, login_if, login_with,
  api_auth_login, check_rate_limit, record_login_attempt,
}
use tinysocs.Dashboard.Passwords.{store_password, change_if, change_from, api_change_password}
use tinysocs.Dashboard.Accounts.{Same-password}

-- A token is answered for one password, of ASCII characters.
login_with-token :
    (pw password t u : Text) (start now : ℕ) (q : Portal)
    → (login_with pw password t start now q).0 ≡ token u
    → (password ≡ pw) × (is_ascii pw ≡ true)
login_with-token [] password t u start now q h = cc
login_with-token (c ∷ pw) password t u start now q h = go (compare_digest password (c ∷ pw)) refl h
  where
    go :
        (o : Option Bool)
        → compare_digest password (c ∷ pw) ≡ o
        → (login_if o t start now q).0 ≡ token u
        → (password ≡ c ∷ pw) × (is_ascii (c ∷ pw) ≡ true)
    go none e h = cc
    go (some false) e h = cc
    go (some true) e h = elim (beq-cases password (c ∷ pw)) [
      | inl (_, same) ↦ (same, ground arith)
      | inr (differ, _) ↦ absurd (ground arith)
    ]

-- A login that is answered with a token had the admin password, which is of ASCII characters.
pub api_auth_login_sound :
    (ip password t u : Text) (checked recorded start now : ℕ) (p : Portal)
    → (api_auth_login ip password t checked recorded start now p).0 ≡ token u
    → (password ≡ get_admin_password p) × (is_ascii (get_admin_password p) ≡ true)
unfolding api_auth_login
api_auth_login_sound ip password t u checked recorded start now p h =
    elim (Bool-cases (check_rate_limit ip checked p.attempts).0) [
      | inl e ↦ absurd (ground arith)
      | inr e ↦
          let q : Portal = record p {
            attempts = record_login_attempt ip recorded (check_rate_limit ip checked p.attempts).1;
          } in
          let held = login_with-token (get_admin_password q) password t u start now q (rw e at h) in
          let same = Same-password q p (refl, refl) in (held.0 ∙ same, rw (← same) held.1)
    ]

-- The password that is stored is in the environment.
pub store_password-ok :
    (writes : Bool) (new_password : Text) (file : Option Text) (p : Portal)
    → (store_password writes new_password file p).0 ≡ ok
    → ((store_password writes new_password file p).1.siem_pass ≡ new_password)
      × ((store_password writes new_password file p).1.attempts ≡ p.attempts)
store_password-ok writes new_password none p h = (refl, refl)
store_password-ok true new_password (some text) p h = (refl, refl)
store_password-ok false new_password (some text) p h = cc

pub change_if-ok :
    (o : Option Bool) (writes : Bool) (old_password new_password : Text) (p : Portal)
    → (change_if o writes old_password new_password p).0 ≡ ok
    → ((change_if o writes old_password new_password p).1.siem_pass ≡ new_password)
      × ((change_if o writes old_password new_password p).1.attempts ≡ p.attempts)
      × (8 ≤ length new_password)
change_if-ok none writes old_password new_password p h = cc
change_if-ok (some false) writes old_password new_password p h = cc
change_if-ok (some true) writes old_password new_password p h =
    elim (Bool-cases (ltb (length new_password) 8)) [
      | inl short ↦ absurd (ground arith)
      | inr long ↦ elim (Bool-cases (new_password == old_password)) [
        | inl same ↦ absurd (ground arith)
        | inr differ ↦
            let stored =
              store_password-ok writes new_password p.env_file p (rw (long, differ) at h) in
            rw (long, differ) (stored.0, stored.1, ground arith)
      ]
    ]

change_from-ok :
    (pw : Text) (writes : Bool) (old_password new_password : Text) (p : Portal)
    → (change_from pw writes old_password new_password p).0 ≡ ok
    → ((change_from pw writes old_password new_password p).1.siem_pass ≡ strip new_password)
      × ((change_from pw writes old_password new_password p).1.attempts ≡ p.attempts)
      × (8 ≤ length (strip new_password))
change_from-ok [] writes old_password new_password p h = cc
change_from-ok (c ∷ pw) writes old_password new_password p h =
    change_if-ok (compare_digest old_password (c ∷ pw)) writes old_password (strip new_password) p h

api_change_password-ok :
    (auth : Text) (at : ℕ) (writes : Bool) (old_password new_password : Text) (p : Portal)
    → (api_change_password auth at writes old_password new_password p).0 ≡ ok
    → ((api_change_password auth at writes old_password new_password p).1.siem_pass
        ≡ strip new_password)
      × ((api_change_password auth at writes old_password new_password p).1.attempts ≡ p.attempts)
      × (8 ≤ length (strip new_password))
unfolding api_change_password
api_change_password-ok auth at writes old_password new_password p h =
    elim (Bool-cases (verify_dashboard_session auth at p.sessions).0) [
      | inr e ↦ absurd (ground arith)
      | inl e ↦
          let q : Portal = record p {
            sessions = (verify_dashboard_session auth at p.sessions).1;
          } in
          rw e
            (change_from-ok (get_admin_password q) writes old_password new_password q (rw e at h))
    ]

login_with-same :
    (pw t : Text) (start now : ℕ) (q : Portal)
    → 8 ≤ length pw
    → is_ascii pw ≡ true
    → (login_with pw pw t start now q).0 ≡ token t
login_with-same [] t start now q long ascii = absurd (omega arith)
login_with-same (c ∷ pw) t start now q long ascii =
    let same : compare_digest (c ∷ pw) (c ∷ pw) ≡ some true = rw (ascii, beq_refl (c ∷ pw)) refl in
    rw same refl

-- An environment whose password is stripped and not empty is what the login compares with.
pub get_admin_password-env :
    (p : Portal) (s : Text)
    → p.siem_pass ≡ strip s
    → 8 ≤ length (strip s)
    → get_admin_password p ≡ strip s
unfolding get_admin_password
get_admin_password-env p s e long = rw (e, strip-strip s) (go (strip s) long)
  where
    go : (pw : Text) → 8 ≤ length pw → or_file pw p.env_file ≡ pw
    go [] long = absurd (omega arith)
    go (c ∷ pw) long = refl

-- After a password change in the settings that was answered with ok, the new password, without the
-- white space around it, logs in from every address that the rate limit lets through, if it is of
-- ASCII characters.
pub api_auth_login-api_change_password :
    (auth : Text) (at : ℕ) (writes : Bool) (old_password new_password : Text) (p : Portal)
    (ip t : Text) (checked recorded start now : ℕ)
    → (api_change_password auth at writes old_password new_password p).0 ≡ ok
    → is_ascii (strip new_password) ≡ true
    → (check_rate_limit ip checked p.attempts).0 ≡ false
    → (api_auth_login ip
        (strip new_password)
        t
        checked
        recorded
        start
        now
        (api_change_password auth at writes old_password new_password p).1).0
      ≡ token t
unfolding api_auth_login
api_auth_login-api_change_password auth at writes old_password new_password p ip t checked recorded
      start now h ascii few =
    let done = api_change_password-ok auth at writes old_password new_password p h in
    let p' = (api_change_password auth at writes old_password new_password p).1 in
    let few' = ap (λ d. (check_rate_limit ip checked d).0) done.1 ∙ few in
    let q : Portal = record p' {
      attempts = record_login_attempt ip recorded (check_rate_limit ip checked p'.attempts).1;
    } in
    let admin = get_admin_password-env q new_password done.0 done.2 in
    rw (few', admin) (login_with-same (strip new_password) t start now q done.2 ascii)
