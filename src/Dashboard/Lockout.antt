-- ===== src/Dashboard/Lockout.antt =====
-- Unusual passwords in the handlers of api/dashboard.py.
use tinysocs.Prelude.Core.{
  ◌≡◌, ◌≢◌, refl, sym, ap, inl, inr, ◌∙◌, ℕ, ◌≤◌, Bool, true, false, Option, none, some, [], ◌∷◌,
  arith, ltb, Bool-cases,
}
use tinysocs.Prelude.Lists.{length}
use tinysocs.Prelude.Text.{Text, text_eq, strip}
use tinysocs.Auth.{is_ascii}
use tinysocs.Dashboard.Gate.{verify_dashboard_session}
use tinysocs.Dashboard.Login.{
  Portal, ok, token, or_file, compare_digest, get_admin_password, api_auth_login,
}
use tinysocs.Dashboard.Passwords.{
  mint, setup_if, setup_with, setup_unset, api_setup_password, finish_change, auth_change_if,
  api_auth_change_password,
}
use tinysocs.Dashboard.Relogin.{api_auth_login_sound, store_password-ok, get_admin_password-env}

auth_change_if-ok :
    (o : Option Bool) (writes : Bool) (new_password : Text) (p : Portal)
    → (auth_change_if o writes new_password p).0 ≡ ok
    → (auth_change_if o writes new_password p).1.siem_pass ≡ new_password
auth_change_if-ok none writes new_password p h = cc
auth_change_if-ok (some false) writes new_password p h = cc
auth_change_if-ok (some true) writes new_password p h =
    elim (Bool-cases (ltb (length new_password) 8)) [
      | inl short ↦ absurd (ground arith)
      | inr long ↦ rw long (go p.env_file (rw long at h))
    ]
  where
    go :
        (file : Option Text)
        → (finish_change writes new_password file p).0 ≡ ok
        → (finish_change writes new_password file p).1.siem_pass ≡ new_password
    go none e = refl
    go (some text) e = ground arith

api_auth_change_password-ok :
    (auth : Text) (at : ℕ) (writes : Bool) (current new_password : Text) (p : Portal)
    → (api_auth_change_password auth at writes current new_password p).0 ≡ ok
    → (api_auth_change_password auth at writes current new_password p).1.siem_pass ≡ new_password
unfolding api_auth_change_password
api_auth_change_password-ok auth at writes current new_password p h =
    elim (Bool-cases (verify_dashboard_session auth at p.sessions).0) [
      | inr e ↦ absurd (ground arith)
      | inl e ↦
          let q : Portal = record p {
            sessions = (verify_dashboard_session auth at p.sessions).1;
          } in
          rw e (
            auth_change_if-ok (compare_digest current (get_admin_password q)) writes new_password q
              (rw e at h))
    ]

get_admin_password-stripped :
    (p : Portal) → strip p.siem_pass ≢ [] → get_admin_password p ≡ strip p.siem_pass
unfolding get_admin_password
get_admin_password-stripped p solid = go (strip p.siem_pass) solid
  where
    go : (pw : Text) → pw ≢ [] → or_file pw p.env_file ≡ pw
    go [] n = absurd (n refl)
    go (c ∷ pw) n = refl

-- After a change by /api/auth/change-password that was answered with ok, a new password with
-- white space around it, and with more than that, never logs in as it was typed: it is stored as it
-- is, and compared without the white space.
pub api_auth_login-padded :
    (auth : Text) (at : ℕ) (writes : Bool) (current new_password : Text) (p : Portal)
    (ip t u : Text) (checked recorded start now : ℕ)
    → (api_auth_change_password auth at writes current new_password p).0 ≡ ok
    → strip new_password ≢ []
    → strip new_password ≢ new_password
    → (api_auth_login ip new_password t checked recorded start now
        (api_auth_change_password auth at writes current new_password p).1).0
      ≢ token u
api_auth_login-padded auth at writes current new_password p ip t u checked recorded start now h
      solid padded answer =
    let p' = (api_auth_change_password auth at writes current new_password p).1 in
    let stored = api_auth_change_password-ok auth at writes current new_password p h in
    let admin = get_admin_password-stripped p' (rw stored solid) ∙ ap strip stored in
    let held = api_auth_login_sound ip new_password t u checked recorded start now p' answer in
    padded (sym (held.0 ∙ admin))

setup_if-ok :
    (o : Option Bool) (writes : Bool) (new_password : Text) (p : Portal)
    → (setup_if o writes new_password p).0 ≡ ok
    → ((setup_if o writes new_password p).1.siem_pass ≡ new_password) × (8 ≤ length new_password)
setup_if-ok none writes new_password p h = cc
setup_if-ok (some false) writes new_password p h = cc
setup_if-ok (some true) writes new_password p h = elim (Bool-cases (ltb (length new_password) 8)) [
  | inl short ↦ absurd (ground arith)
  | inr long ↦
      rw long ((store_password-ok writes new_password p.env_file p (rw long at h)).0, ground arith)
]

setup_unset-ok :
    (pw provided drawn : Text) (writes : Bool) (new_password : Text) (p : Portal)
    → (setup_unset pw provided drawn writes new_password p).0 ≡ ok
    → ((setup_unset pw provided drawn writes new_password p).1.siem_pass ≡ strip new_password)
      × (8 ≤ length (strip new_password))
setup_unset-ok (c ∷ pw) provided drawn writes new_password p h = cc
setup_unset-ok [] provided drawn writes new_password p h = go (strip provided) h
  where
    go :
        (t : Text)
        → (setup_with t drawn writes (strip new_password) p).0 ≡ ok
        → ((setup_with t drawn writes (strip new_password) p).1.siem_pass ≡ strip new_password)
          × (8 ≤ length (strip new_password))
    go [] e = cc
    go (c ∷ t) e =
        setup_if-ok (compare_digest (c ∷ t) (mint drawn p.setup_token)) writes (strip new_password)
          (record p { setup_token = some (mint drawn p.setup_token) }) e

-- A first password with a character that is not ASCII is accepted by the setup, and then no
-- login succeeds, with whatever password: `compare_digest` raises a TypeError.
pub api_setup_password-locked_out :
    (provided drawn : Text) (writes : Bool) (new_password : Text) (p : Portal)
    (ip password t u : Text) (checked recorded start now : ℕ)
    → (api_setup_password provided drawn writes new_password p).0 ≡ ok
    → is_ascii (strip new_password) ≡ false
    → (api_auth_login ip password t checked recorded start now
        (api_setup_password provided drawn writes new_password p).1).0
      ≢ token u
unfolding api_setup_password
api_setup_password-locked_out provided drawn writes new_password p ip password t u checked recorded
      start now h foreign answer =
    let p' = (setup_unset (get_admin_password p) provided drawn writes new_password p).1 in
    let stored = setup_unset-ok (get_admin_password p) provided drawn writes new_password p h in
    let admin = get_admin_password-env p' new_password stored.0 stored.1 in
    let held = api_auth_login_sound ip password t u checked recorded start now p' answer in
    let ascii : is_ascii (strip new_password) ≡ true = rw (← admin) held.1 in ground arith
