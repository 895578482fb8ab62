-- ===== src/Dashboard/Entries.antt =====
-- The dict of sessions under the collections, and that no token is in it twice.
use tinysocs.Prelude.Core.{
  ℕ, ◌+◌, ◌||◌, Option, none, some, List, [], ◌∷◌, ltb, leb, Bool-cases, inl, inr,
}
use tinysocs.Prelude.Lists.{length}
use tinysocs.Prelude.Dict.{
  Dict, lookup, NodupKeys, insert-NodupKeys, drop_if-NodupKeys, erase-NodupKeys,
}
use tinysocs.Prelude.Text.{Text, text_eq}
use tinysocs.Dashboard.Session.{
  Sessions, session_ttl, max_sessions, create_session_token, collect, check_expiry,
  validate_session, Event, creating, validating, clearing, step, run,
}

collect-NodupKeys : (now n : ℕ) (d : Dict Text ℕ) → NodupKeys d → NodupKeys (collect now n d).active
collect-NodupKeys now n d h = elim (Bool-cases (leb 50 n || ltb max_sessions (length d))) [
  | inl e ↦ rw e (drop_if-NodupKeys _ d h)
  | inr e ↦ rw e h
]

check_expiry-NodupKeys :
    (token : Text) (now : ℕ) (s : Sessions) (o : Option ℕ)
    → NodupKeys s.active
    → NodupKeys (check_expiry token now s o).1.active
check_expiry-NodupKeys token now s none h = h
check_expiry-NodupKeys token now s (some x) h = elim (Bool-cases (ltb x now)) [
  | inl e ↦ rw e (erase-NodupKeys token s.active h)
  | inr e ↦ rw e (collect-NodupKeys now (s.gc_counter + 1) _ (insert-NodupKeys token _ s.active h))
]

pub step-NodupKeys : (e : Event) (s : Sessions) → NodupKeys s.active → NodupKeys (step e s).active
unfolding step create_session_token validate_session
step-NodupKeys (creating token start now) s h =
    drop_if-NodupKeys _ _ (insert-NodupKeys token (start + session_ttl) s.active h)
step-NodupKeys (validating [] now) s h = h
step-NodupKeys (validating (c ∷ token) now) s h =
    check_expiry-NodupKeys (c ∷ token) now s (lookup (c ∷ token) s.active) h
step-NodupKeys clearing s h = tt

pub run-NodupKeys :
    (events : List Event) (s : Sessions) → NodupKeys s.active → NodupKeys (run events s).active
unfolding run
run-NodupKeys [] s h = h
run-NodupKeys (e ∷ events) s h = run-NodupKeys events (step e s) (step-NodupKeys e s h)
