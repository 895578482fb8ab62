-- ===== src/Dashboard/Session.antt =====
-- `_create_session_token` and `_validate_session` of api/dashboard.py. Times are whole
-- microseconds, and each reading of the clock is an argument. The token that is drawn is one too.
use tinysocs.Prelude.Core.{
  ℕ, ◌+◌, Bool, true, false, ◌||◌, Option, none, some, List, [], ◌∷◌, ltb, leb, if◌then◌else◌,
}
use tinysocs.Prelude.Lists.{length}
use tinysocs.Prelude.Dict.{Dict, lookup, insert, erase, drop_if}
use tinysocs.Prelude.Text.{Text, text_eq}

-- `_active_sessions` (token to expiry) and `_session_gc_counter`.
pub record Sessions : Type 0 where
  pub active : Dict Text ℕ
  pub gc_counter : ℕ

abbrev pub no_sessions : Sessions
no_sessions = record { active = []; gc_counter = 0 }

abbrev pub session_ttl : ℕ
session_ttl = 3600000000

abbrev pub max_sessions : ℕ
max_sessions = 500

-- The clock is read for the expiry first, and for the collection after it.
unfoldable pub create_session_token : Text → ℕ → ℕ → Sessions → Sessions
create_session_token token start now s = record s {
  active = drop_if (λ exp. ltb exp now) (insert token (start + session_ttl) s.active);
}

-- The periodic collection, after the counter went up.
abbrev pub collect : ℕ → ℕ → Dict Text ℕ → Sessions
collect now counter d =
    if leb 50 counter || ltb max_sessions (length d)
    then record { active = drop_if (λ exp. leb exp now) d; gc_counter = 0 }
    else record { active = d; gc_counter = counter }

-- What follows the search for a token.
abbrev pub check_expiry : Text → ℕ → Sessions → Option ℕ → Bool × Sessions
check_expiry token now s none = (false, s)
check_expiry token now s (some expiry) =
    if ltb expiry now
    then (false, record s { active = erase token s.active })
    else (true, collect now (s.gc_counter + 1) (insert token (now + session_ttl) s.active))

unfoldable pub validate_session : Text → ℕ → Sessions → Bool × Sessions
validate_session [] now s = (false, s)
validate_session (c ∷ token) now s = check_expiry (c ∷ token) now s (lookup (c ∷ token) s.active)

-- What happens to the sessions: a login, a check of a token, a change of the password.
pub data Event : Type 0 where
  creating : Text → ℕ → ℕ → Event
  validating : Text → ℕ → Event
  clearing : Event

unfoldable pub step : Event → Sessions → Sessions
step (creating token start now) s = create_session_token token start now s
step (validating token now) s = (validate_session token now s).1
step clearing s = record s { active = [] }

unfoldable pub run : List Event → Sessions → Sessions
run [] s = s
run (e ∷ events) s = run events (step e s)
