-- ===== src/Dashboard/Deadline.antt =====
-- The sessions against their specification: each token has a deadline, which nothing but its own
-- use moves. The dict, its collections and its counter do not show.
use tinysocs.Prelude.Core.{
  ◌≡◌, ◌⊎◌, refl, ap, ℕ, ◌+◌, ◌≤◌, Bool, true, false, not, ◌&&◌, ◌||◌, Option, none, some, List, [],
  ◌∷◌, arith, ltb, leb, if◌then◌else◌, Bool-cases, inl, inr,
}
use tinysocs.Prelude.Equality.{◌==◌, beq-cases}
use tinysocs.Prelude.Lists.{length}
use tinysocs.Prelude.Dict.{
  Dict, lookup, insert, erase, lookup-insert, lookup-erase, lookup-nil, NodupKeys, drop_if,
  lookup-drop_if, insert-NodupKeys,
}
use tinysocs.Prelude.Text.{Text, text_eq}
use tinysocs.Dashboard.Entries.{step-NodupKeys}
use tinysocs.Dashboard.Session.{
  Sessions, no_sessions, session_ttl, max_sessions, create_session_token, collect, check_expiry,
  validate_session, Event, creating, validating, clearing, step, run,
}

abbrev pub is_empty : Text → Bool
is_empty [] = true
is_empty (c ∷ s) = false

-- A deadline that has not passed: at the deadline itself the `strict` reading says that it has.
abbrev pub is_alive : Bool → ℕ → Option ℕ → Bool
is_alive strict now none = false
is_alive true now (some e) = ltb now e
is_alive false now (some e) = leb now e

abbrev Deadlines : Type 0
Deadlines = Text → Option ℕ

-- One event on the deadlines.
abbrev pub move_deadline : Bool → Event → (Text → Option ℕ) → Text → Option ℕ
move_deadline strict (creating token start now) f t =
    if t == token then some (start + session_ttl) else f t
move_deadline strict (validating token now) f t =
    if t == token && (not (is_empty token) && is_alive strict now (f token))
    then some (now + session_ttl)
    else f t
move_deadline strict clearing f t = none

unfoldable pub deadlines : Bool → List Event → (Text → Option ℕ) → Text → Option ℕ
deadlines strict [] f = f
deadlines strict (e ∷ events) f = deadlines strict events (move_deadline strict e f)

-- A token that is in the dict has its deadline there.
abbrev Below : Option ℕ → Option ℕ → Type 0
Below found o = (found ≡ none) ⊎ (found ≡ o)

Below-drop_if :
    (p : ℕ → Bool) (t : Text) (d : Dict Text ℕ) (o : Option ℕ)
    → NodupKeys d
    → Below (lookup t d) o
    → Below (lookup t (drop_if p d)) o
Below-drop_if p t d o u (inl h) = inl (rw (lookup-drop_if p t d u, h) refl)
Below-drop_if p t d none u (inr h) = inl (rw (lookup-drop_if p t d u, h) refl)
Below-drop_if p t d (some e) u (inr h) = elim (Bool-cases (p e)) [
  | inl gone ↦ inl (rw (lookup-drop_if p t d u, h, gone) refl)
  | inr stays ↦ inr (rw (lookup-drop_if p t d u, h, stays) refl)
]

Below-collect :
    (now n : ℕ) (t : Text) (d : Dict Text ℕ) (o : Option ℕ)
    → NodupKeys d
    → Below (lookup t d) o
    → Below (lookup t (collect now n d).active) o
Below-collect now n t d o u h = elim (Bool-cases (leb 50 n || ltb max_sessions (length d))) [
  | inl e ↦ rw e (Below-drop_if _ t d o u h)
  | inr e ↦ rw e h
]

Below-insert :
    (t token : Text) (x : ℕ) (d : Dict Text ℕ) (o : Option ℕ)
    → Below (lookup t d) o
    → Below (lookup t (insert token x d)) (if t == token then some x else o)
Below-insert t token x d o h = elim (Bool-cases (t == token)) [
  | inl e ↦ inr (rw (lookup-insert t token x d, e) refl)
  | inr e ↦ rw (lookup-insert t token x d, e) h
]

Below-erase :
    (t token : Text) (d : Dict Text ℕ) (o : Option ℕ)
    → Below (lookup t d) o
    → Below (lookup t (erase token d)) o
Below-erase t token d o h = elim (Bool-cases (t == token)) [
  | inl e ↦ inl (rw (lookup-erase t token d, e) refl)
  | inr e ↦ rw (lookup-erase t token d, e) h
]

check_expiry-Below :
    (c : ℕ) (rest : Text) (now : ℕ) (s : Sessions) (f : Text → Option ℕ) (t : Text) (o : Option ℕ)
    → lookup (c ∷ rest) s.active ≡ o
    → NodupKeys s.active
    → Below (lookup t s.active) (f t)
    → Below
        (lookup t (check_expiry (c ∷ rest) now s o).1.active)
        (move_deadline false (validating (c ∷ rest) now) f t)
check_expiry-Below c rest now s f t none found u h = elim (beq-cases t (c ∷ rest)) [
  | inl (e, same) ↦ inl (rw same found)
  | inr (e, _) ↦ rw e h
]
check_expiry-Below c rest now s f t (some x) found u h =
    let token : Text = c ∷ rest in
    elim (Bool-cases (ltb x now)) [
      | inl late ↦ rw late (elim (beq-cases t token) [
        | inl (e, _) ↦ inl (rw (lookup-erase t token s.active, e) refl)
        | inr (e, _) ↦ rw e (Below-erase t token s.active (f t) h)
      ])
      | inr fresh ↦ rw fresh (
          Below-collect now (s.gc_counter + 1) t (insert token (now + session_ttl) s.active) _
            (insert-NodupKeys token _ s.active u)
            (elim (beq-cases t token) [
              | inl (e, same) ↦ elim h [
                | inl missing ↦ absurd (ground (arith, ap (λ z. lookup z s.active) same))
                | inr kept ↦ ground (
                  arith,
                  ap (λ z. lookup z s.active) same,
                  ap f same,
                  lookup-insert t token (now + session_ttl) s.active,
                )
              ]
              | inr (e, _) ↦ rw (lookup-insert t token (now + session_ttl) s.active, e) h
            ]))
    ]

step-Below :
    (e : Event) (s : Sessions) (f : Text → Option ℕ) (t : Text)
    → NodupKeys s.active
    → Below (lookup t s.active) (f t)
    → Below (lookup t (step e s).active) (move_deadline false e f t)
unfolding step create_session_token validate_session
step-Below (creating token start now) s f t u h =
    Below-drop_if _ t _ _ (insert-NodupKeys token (start + session_ttl) s.active u)
      (Below-insert t token (start + session_ttl) s.active (f t) h)
step-Below (validating [] now) s f t u h = ground (arith, h)
step-Below (validating (c ∷ token) now) s f t u h =
    check_expiry-Below c token now s f t (lookup (c ∷ token) s.active) refl u h
step-Below clearing s f t u h = inl (lookup-nil t)

run-Below :
    (events : List Event) (s : Sessions) (f : Text → Option ℕ) (t : Text)
    → NodupKeys s.active
    → Below (lookup t s.active) (f t)
    → Below (lookup t (run events s).active) (deadlines false events f t)
unfolding run deadlines
run-Below [] s f t u h = h
run-Below (e ∷ events) s f t u h =
    run-Below events (step e s) (move_deadline false e f) t (step-NodupKeys e s u)
      (step-Below e s f t u h)

abbrev pub no_deadlines : Text → Option ℕ
no_deadlines t = none

check_expiry-true :
    (token : Text) (now : ℕ) (s : Sessions) (o : Option ℕ)
    → (check_expiry token now s o).0 ≡ true
    → (x : ℕ) × (o ≡ some x) × (now ≤ x)
check_expiry-true token now s none h = cc
check_expiry-true token now s (some x) h = (x, refl, ground arith)

-- Whatever happened to the sessions since the start, a token that is accepted was created by a
-- login, no change of the password has cleared the sessions since, and its deadline, an hour after
-- its creation or its last accepted use, has not passed.
pub validate_session-deadline :
    (events : List Event) (t : Text) (now : ℕ)
    → (validate_session t now (run events no_sessions)).0 ≡ true
    → (e : ℕ) × (deadlines false events no_deadlines t ≡ some e) × (now ≤ e)
unfolding validate_session
validate_session-deadline events [] now h = cc
validate_session-deadline events (c ∷ rest) now h =
    let s = run events no_sessions in
    let t : Text = c ∷ rest in
    let (x, found, early) = check_expiry-true t now s (lookup t s.active) h in
    elim (run-Below events no_sessions no_deadlines t tt (inl (lookup-nil t))) [
      | inl missing ↦ absurd (ground arith)
      | inr kept ↦ (x, ground arith, early)
    ]
