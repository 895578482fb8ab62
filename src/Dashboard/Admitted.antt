-- ===== src/Dashboard/Admitted.antt =====
-- Which requests the middleware passes on, over the whole history of the sessions.
use tinysocs.Prelude.Core.{
  ◌≡◌, ◌⊎◌, refl, inl, inr, ℕ, ◌≤◌, ◌<◌, Bool, true, false, some, List, ◌∷◌, arith, Bool-cases,
  Option-cases,
}
use tinysocs.Prelude.Equality.{◌==◌, beq-cases, ne_of_beq}
use tinysocs.Prelude.Strings.{codes}
use tinysocs.Prelude.Text.{Text, text_eq}
use tinysocs.Dashboard.Session.{no_sessions, Event, run}
use tinysocs.Dashboard.Deadline.{deadlines, no_deadlines, validate_session-deadline}
use tinysocs.Dashboard.Renewal.{Ordered, last_reading, validate_session-stays}
use tinysocs.Dashboard.Gate.{
  bearer, validate_bearer, upper, is_public, or_root, head_as_get, enforce_dashboard_session,
}

-- The header carries a token that was issued and whose deadline has not passed.
abbrev pub HasSession : List Event → Text → ℕ → Type 0
HasSession events auth now =
    (t : Text) × (e : ℕ) × (bearer auth ≡ some t)
    × (deadlines false events no_deadlines t ≡ some e)
    × (now ≤ e)

HasSession-validate :
    (events : List Event) (auth : Text) (now : ℕ)
    → (validate_bearer (bearer auth) now (run events no_sessions)).0 ≡ true
    → HasSession events auth now
HasSession-validate events auth now h = elim (Option-cases (bearer auth)) [
  | inl e ↦ absurd (ground arith)
  | inr (t, e) ↦
      let (x, found, early) = validate_session-deadline events t now (ground arith) in
      (t, x, e, found, early)
]

-- The same with a deadline that lies ahead, where no reading of the clock was before an earlier one.
abbrev pub HasLiveSession : List Event → Text → ℕ → Type 0
HasLiveSession events auth now =
    (c : ℕ) × (rest : Text) × (e : ℕ) × (bearer auth ≡ some (c ∷ rest))
    × Ordered 0 events
    × (last_reading 0 events ≤ now)
    × (deadlines true events no_deadlines (c ∷ rest) ≡ some e)
    × (now < e)

abbrev pub IsOpen : Text → Text → Type 0
IsOpen method path =
    (upper method ≡ codes "OPTIONS")
    ⊎ (is_public (head_as_get (upper method)) (or_root path) ≡ true)

-- What an answer of the middleware says about the request.
abbrev pub Verdict : List Event → Text → Text → Text → ℕ → Bool → Type 0
Verdict events method path auth now true = IsOpen method path ⊎ HasSession events auth now
Verdict events method path auth now false =
    (¬ IsOpen method path) × (¬ HasLiveSession events auth now)

HasLiveSession-validate :
    (events : List Event) (auth : Text) (now : ℕ)
    → HasLiveSession events auth now
    → (validate_bearer (bearer auth) now (run events no_sessions)).0 ≡ true
HasLiveSession-validate events auth now (c, rest, e, sent, o, le, d, ahead) =
    rw sent (validate_session-stays events c rest now e o le d ahead)

Verdict-validate :
    (events : List Event) (method path auth : Text) (now : ℕ) (answer : Bool)
    → (upper method == codes "OPTIONS") ≡ false
    → is_public (head_as_get (upper method)) (or_root path) ≡ false
    → (validate_bearer (bearer auth) now (run events no_sessions)).0 ≡ answer
    → Verdict events method path auth now answer
Verdict-validate events method path auth now true e closed h =
    inr (HasSession-validate events auth now h)
Verdict-validate events method path auth now false e closed h = (
  λ o. elim o [
    | inl options ↦ ne_of_beq (upper method) (codes "OPTIONS") e options
    | inr public ↦ absurd (ground arith)
  ],
  λ live. let passes = HasLiveSession-validate events auth now live in absurd (ground arith),
)

-- Outside the demo mode the middleware passes a request on, after any history of the sessions, only
-- if it is an OPTIONS request, goes to a public route, or carries a bearer token that a login has
-- issued, that has not been cleared since, and whose deadline, an hour after its issue or its last
-- use, has not passed. It refuses a request only if it is neither an OPTIONS request nor goes to a
-- public route, and carries no such token with a deadline that lies ahead, or the clock went back.
pub enforce_dashboard_session-Verdict :
    (events : List Event) (method path auth : Text) (now : ℕ)
    → Verdict events method path auth now
        (enforce_dashboard_session false method path auth now (run events no_sessions)).0
unfolding enforce_dashboard_session
enforce_dashboard_session-Verdict events method path auth now =
    elim (beq-cases (upper method) (codes "OPTIONS")) [
      | inl (b, same) ↦ rw b (inl (inl same))
      | inr (e, _) ↦ elim (Bool-cases (is_public (head_as_get (upper method)) (or_root path))) [
        | inl open_route ↦ rw (e, open_route) (inl (inr open_route))
        | inr closed ↦
            rw (e, closed)
              (Verdict-validate events method path auth now
                (validate_bearer (bearer auth) now (run events no_sessions)).0 e closed refl)
      ]
    ]
