-- ===== src/Dashboard/Renewal.antt =====
-- A session of api/dashboard.py that is used again and again.
use tinysocs.Prelude.Core.{
  ◌≡◌, ◌⊎◌, refl, sym, ap, ◌∙◌, ℕ, ◌+◌, ◌≤◌, ◌<◌, max, Bool, true, false, ◌&&◌, ◌||◌, Option, none,
  some, List, [], ◌∷◌, arith, ltb, leb, if◌then◌else◌, Bool-cases, inl, inr,
}
use tinysocs.Prelude.Equality.{◌==◌, beq-cases}
use tinysocs.Prelude.Lists.{length}
use tinysocs.Prelude.Dict.{
  Dict, lookup, insert, lookup-insert, lookup-erase, NodupKeys, drop_if, unless, lookup-drop_if,
  insert-NodupKeys,
}
use tinysocs.Prelude.Text.{Text, text_eq}
use tinysocs.Dashboard.Entries.{step-NodupKeys}
use tinysocs.Dashboard.Session.{
  Sessions, no_sessions, session_ttl, max_sessions, create_session_token, collect, check_expiry,
  validate_session, Event, creating, validating, clearing, step, run,
}
use tinysocs.Dashboard.Deadline.{is_alive, move_deadline, deadlines, no_deadlines}

-- The readings of the clock do not go back.
abbrev pub Ordered : ℕ → List Event → Type 0
Ordered clock [] = Unit
Ordered clock (creating token start now ∷ events) =
    (clock ≤ start) × (start ≤ now) × Ordered now events
Ordered clock (validating token now ∷ events) = (clock ≤ now) × Ordered now events
Ordered clock (clearing ∷ events) = Ordered clock events

abbrev pub clock_after : ℕ → Event → ℕ
clock_after clock (creating token start now) = now
clock_after clock (validating token now) = now
clock_after clock clearing = clock

abbrev pub last_reading : ℕ → List Event → ℕ
last_reading clock [] = clock
last_reading clock (e ∷ events) = last_reading (clock_after clock e) events

-- A deadline that is not behind the clock is in the dict, or a later one is.
abbrev Kept : ℕ → Option ℕ → Option ℕ → Type 0
Kept clock found none = Unit
Kept clock none (some e) = e ≤ clock
Kept clock (some x) (some e) = e ≤ max clock x

Kept-later : (a b : ℕ) (found o : Option ℕ) → a ≤ b → Kept a found o → Kept b found o
Kept-later a b found none le h = tt
Kept-later a b none (some e) le h = omega arith
Kept-later a b (some x) (some e) le h = omega arith

Kept-unless :
    (p : ℕ → Bool) (now : ℕ) (found o : Option ℕ)
    → ((x : ℕ) → p x ≡ true → x ≤ now)
    → Kept now found o
    → Kept now (unless p found) o
Kept-unless p now found none q h = tt
Kept-unless p now none (some e) q h = h
Kept-unless p now (some x) (some e) q h = elim (Bool-cases (p x)) [
  | inl gone ↦ rw gone (omega (arith, q x gone))
  | inr stays ↦ rw stays h
]

Kept-drop_if :
    (p : ℕ → Bool) (now : ℕ) (t : Text) (d : Dict Text ℕ) (o : Option ℕ)
    → ((x : ℕ) → p x ≡ true → x ≤ now)
    → NodupKeys d
    → Kept now (lookup t d) o
    → Kept now (lookup t (drop_if p d)) o
Kept-drop_if p now t d o q u h = rw (lookup-drop_if p t d u) (Kept-unless p now (lookup t d) o q h)

Kept-collect :
    (now n : ℕ) (t : Text) (d : Dict Text ℕ) (o : Option ℕ)
    → NodupKeys d
    → Kept now (lookup t d) o
    → Kept now (lookup t (collect now n d).active) o
Kept-collect now n t d o u h = elim (Bool-cases (leb 50 n || ltb max_sessions (length d))) [
  | inl e ↦ rw e (Kept-drop_if _ now t d o (λ x q. ground arith) u h)
  | inr e ↦ rw e h
]

-- A deadline that has passed is kept, whatever is found.
Kept-dead : (now : ℕ) (found o : Option ℕ) → is_alive true now o ≡ false → Kept now found o
Kept-dead now found none h = tt
Kept-dead now none (some e) h = ground arith
Kept-dead now (some x) (some e) h = ground arith

-- A token that is missing, or whose entry has expired, has no deadline ahead.
dead-Kept :
    (now : ℕ) (found o : Option ℕ)
    → is_alive true now found ≡ false
    → Kept now found o
    → is_alive true now o ≡ false
dead-Kept now found none m h = refl
dead-Kept now none (some e) m h = ground arith
dead-Kept now (some x) (some e) m h = ground arith

Kept-insert :
    (t token : Text) (x now : ℕ) (d : Dict Text ℕ) (f : Text → Option ℕ) (b : Bool)
    → (t ≡ token → (b ≡ true) ⊎ (is_alive true now (f t) ≡ false))
    → Kept now (lookup t d) (f t)
    → Kept now (lookup t (insert token x d)) (if t == token && b then some x else f t)
Kept-insert t token x now d f b q h = elim (beq-cases t token) [
  | inl (e, same) ↦
      rw (lookup-insert t token x d, e)
        (elim (Bool-cases b) [
          | inl y ↦ rw y (omega arith)
          | inr n ↦
              rw n (elim (q same) [ inl y ↦ cc | inr dead ↦ Kept-dead now (some x) (f t) dead ])
        ])
  | inr (e, _) ↦ rw (lookup-insert t token x d, e) h
]

check_expiry-Kept :
    (c : ℕ) (rest : Text) (now : ℕ) (s : Sessions) (f : Text → Option ℕ) (t : Text) (o : Option ℕ)
    → lookup (c ∷ rest) s.active ≡ o
    → NodupKeys s.active
    → Kept now (lookup t s.active) (f t)
    → Kept now
        (lookup t (check_expiry (c ∷ rest) now s o).1.active)
        (move_deadline true (validating (c ∷ rest) now) f t)
check_expiry-Kept c rest now s f t none found u h =
    let token : Text = c ∷ rest in
    elim (beq-cases t token) [
      | inl (e, same) ↦
          let here = ap (λ z. lookup z s.active) same ∙ found in
          let dead = dead-Kept now (lookup t s.active) (f t) (rw here refl) h in
          let dead' = sym (ap (λ z. is_alive true now (f z)) same) ∙ dead in rw (e, dead') h
      | inr (e, _) ↦ rw e h
    ]
check_expiry-Kept c rest now s f t (some x) found u h =
    let token : Text = c ∷ rest in
    elim (Bool-cases (ltb x now)) [
      | inl late ↦ rw late (elim (beq-cases t token) [
        | inl (e, same) ↦
            let here = ap (λ z. lookup z s.active) same ∙ found in
            let dead = dead-Kept now (lookup t s.active) (f t) (rw here (ground arith)) h in
            let dead' = sym (ap (λ z. is_alive true now (f z)) same) ∙ dead in
            rw (e, dead') (Kept-dead now _ (f t) dead)
        | inr (e, _) ↦ rw (e, lookup-erase t token s.active, e) h
      ])
      | inr fresh ↦ rw fresh (
          Kept-collect now (s.gc_counter + 1) t (insert token (now + session_ttl) s.active) _
            (insert-NodupKeys token _ s.active u)
            (Kept-insert t token (now + session_ttl) now s.active f
              (true && is_alive true now (f token)) (λ same. ground (arith, ap f same)) h))
    ]

step-Kept :
    (clock : ℕ) (e : Event) (s : Sessions) (f : Text → Option ℕ) (t : Text)
    → Ordered clock (e ∷ [])
    → NodupKeys s.active
    → Kept clock (lookup t s.active) (f t)
    → Kept (clock_after clock e) (lookup t (step e s).active) (move_deadline true e f t)
unfolding step create_session_token validate_session
step-Kept clock (creating token start now) s f t o u h =
    Kept-drop_if _ now t _ _ (λ x q. ground arith)
      (insert-NodupKeys token (start + session_ttl) s.active u)
      (elim (beq-cases t token) [
        | inl (e, same) ↦ rw (lookup-insert t token (start + session_ttl) s.active, e) (omega arith)
        | inr (e, _) ↦
            rw (lookup-insert t token (start + session_ttl) s.active, e)
              (Kept-later clock now _ _ (omega arith) h)
      ])
step-Kept clock (validating [] now) s f t o u h =
    ground (arith, Kept-later clock now (lookup t s.active) (f t) o.0 h)
step-Kept clock (validating (c ∷ token) now) s f t o u h =
    check_expiry-Kept c token now s f t (lookup (c ∷ token) s.active) refl u
      (Kept-later clock now _ _ o.0 h)
step-Kept clock clearing s f t o u h = tt

run-Kept :
    (clock : ℕ) (events : List Event) (s : Sessions) (f : Text → Option ℕ) (t : Text)
    → Ordered clock events
    → NodupKeys s.active
    → Kept clock (lookup t s.active) (f t)
    → Kept (last_reading clock events) (lookup t (run events s).active) (deadlines true events f t)
unfolding run deadlines
run-Kept clock [] s f t o u h = h
run-Kept clock (creating token start now ∷ events) s f t o u h =
    let e = creating token start now in
    run-Kept now events (step e s) (move_deadline true e f) t o.2 (step-NodupKeys e s u)
      (step-Kept clock e s f t (o.0, o.1, tt) u h)
run-Kept clock (validating token now ∷ events) s f t o u h =
    let e = validating token now in
    run-Kept now events (step e s) (move_deadline true e f) t o.1 (step-NodupKeys e s u)
      (step-Kept clock e s f t (o.0, tt) u h)
run-Kept clock (clearing ∷ events) s f t o u h =
    run-Kept clock events (step clearing s) (move_deadline true clearing f) t o
      (step-NodupKeys clearing s u) (step-Kept clock clearing s f t tt u h)

Kept-ahead :
    (clock e : ℕ) (found o : Option ℕ)
    → o ≡ some e
    → clock < e
    → Kept clock found o
    → (x : ℕ) × (found ≡ some x) × (e ≤ x)
Kept-ahead clock e found none p ahead h = cc
Kept-ahead clock e none (some d) p ahead h = absurd (ground arith)
Kept-ahead clock e (some x) (some d) p ahead h = (x, refl, ground arith)

-- A client that logs in and then calls within the hour each time stays logged in: if the clock
-- does not go back, a token whose deadline (moved by every use before it) lies ahead is accepted,
-- however many sessions there are and whatever the collections removed.
pub validate_session-stays :
    (events : List Event) (c : ℕ) (rest : Text) (now e : ℕ)
    → Ordered 0 events
    → last_reading 0 events ≤ now
    → deadlines true events no_deadlines (c ∷ rest) ≡ some e
    → now < e
    → (validate_session (c ∷ rest) now (run events no_sessions)).0 ≡ true
unfolding validate_session
validate_session-stays events c rest now e o le d ahead =
    let t : Text = c ∷ rest in
    let kept = run-Kept 0 events no_sessions no_deadlines t o tt tt in
    let (x, found, later) = Kept-ahead (last_reading 0 events) e _ _ d (omega arith) kept in
    rw found (ground arith)
