-- ===== src/Dashboard/BruteForce.antt =====
-- The calls of the login of api/dashboard.py by one address.
use tinysocs.Prelude.Core.{
  ◌≡◌, ◌⊎◌, refl, inl, inr, ap, ◌∙◌, ℕ, ◌≤◌, ◌<◌, Bool, true, false, Option, none, some, List, [],
  ◌∷◌, ◌++◌, arith, eqb, if◌then◌else◌, Bool-cases,
}
use tinysocs.Prelude.Equality.{◌==◌, beq-cases}
use tinysocs.Prelude.Lists.{length, keep}
use tinysocs.Prelude.Dict.{Dict, lookup-nil, NodupKeys, insert-NodupKeys}
use tinysocs.Prelude.Text.{Text, text_eq}
use tinysocs.Dashboard.Login.{
  Portal, Answer, ok, token, failed, type_error, rate_max, recent, recent_attempts,
  check_rate_limit, record_login_attempt, login_if, login_with, compare_digest, api_auth_login,
  get_admin_password,
}
use tinysocs.Dashboard.Attempts.{
  Tracks, Tracks-later, Tracks-check, Tracks-record, bucket_of, noted,
  record_login_attempt-NodupKeys, IsSpaced, IsSpaced-add, in_minute,
}

-- A call of the login: its address, its password, the token that is drawn and the four readings of
-- the clock.
pub record Call : Type 0 where
  pub ip : Text
  pub password : Text
  pub new_token : Text
  pub checked : ℕ
  pub recorded : ℕ
  pub start : ℕ
  pub now : ℕ

abbrev pub call : Call → Portal → Answer × Portal
call c p = api_auth_login c.ip c.password c.new_token c.checked c.recorded c.start c.now p

abbrev pub is_limited : Answer → Bool
is_limited (failed status message) = eqb status 429
is_limited ok = false
is_limited (token t) = false
is_limited type_error = false

-- The times at which the calls of an address were recorded, those that were not answered with 429,
-- after those of the list.
abbrev pub note : Text → Call → Answer → List ℕ → List ℕ
note ip c a log = if is_limited a then log else if ip == c.ip then log ++ c.recorded ∷ [] else log

unfoldable pub tries : Text → List Call → Portal → List ℕ → List ℕ
tries ip [] p log = log
tries ip (c ∷ calls) p log = tries ip calls (call c p).1 (note ip c (call c p).0 log)

abbrev pub Ordered : ℕ → List Call → Type 0
Ordered clock [] = Unit
Ordered clock (c ∷ calls) =
    (clock ≤ c.checked) × (c.checked ≤ c.recorded) × Ordered c.recorded calls

login_if-attempts :
    (o : Option Bool) (t : Text) (start now : ℕ) (p : Portal)
    → ((login_if o t start now p).1.attempts ≡ p.attempts)
      × (is_limited (login_if o t start now p).0 ≡ false)
login_if-attempts none t start now p = (refl, refl)
login_if-attempts (some false) t start now p = (refl, refl)
login_if-attempts (some true) t start now p = (refl, refl)

login_with-attempts :
    (pw password t : Text) (start now : ℕ) (p : Portal)
    → ((login_with pw password t start now p).1.attempts ≡ p.attempts)
      × (is_limited (login_with pw password t start now p).0 ≡ false)
login_with-attempts [] password t start now p = (refl, refl)
login_with-attempts (c ∷ pw) password t start now p =
    login_if-attempts (compare_digest password (c ∷ pw)) t start now p

-- What a call does to the attempts.
call-attempts :
    (c : Call) (p : Portal)
    → let (limited, d) = check_rate_limit c.ip c.checked p.attempts in
      ((limited ≡ true) × (is_limited (call c p).0 ≡ true) × ((call c p).1.attempts ≡ d))
      ⊎ ((limited ≡ false)
          × (is_limited (call c p).0 ≡ false)
          × ((call c p).1.attempts ≡ record_login_attempt c.ip c.recorded d))
unfolding api_auth_login
call-attempts c p = elim (Bool-cases (check_rate_limit c.ip c.checked p.attempts).0) [
  | inl e ↦ inl (e, rw e refl, rw e refl)
  | inr e ↦
      let q : Portal = record p {
        attempts =
            record_login_attempt c.ip c.recorded (check_rate_limit c.ip c.checked p.attempts).1;
      } in
      let rest =
        login_with-attempts (get_admin_password q) c.password c.new_token c.start c.now q in
      inr (e, rw e rest.1, rw e rest.0)
]

record Inv (ip : Text) (clock : ℕ) (log : List ℕ) (d : Dict Text (List ℕ)) : Type 0 where
  nodup : NodupKeys d
  tracks : Tracks clock log (bucket_of ip d)
  spaced : IsSpaced log

-- An address that the limit lets through has less than five recent tries.
few_recent :
    (ip : Text) (clock now : ℕ) (log : List ℕ) (d : Dict Text (List ℕ))
    → clock ≤ now
    → Tracks clock log (bucket_of ip d)
    → (check_rate_limit ip now d).0 ≡ false
    → length (keep (recent now) log) < rate_max
unfolding check_rate_limit
few_recent ip clock now log d le h e = rw (h.same now le) (ground arith)

IsSpaced-noted :
    (ip k : Text) (clock checked now : ℕ) (log : List ℕ) (d : Dict Text (List ℕ))
    → clock ≤ checked
    → checked ≤ now
    → (check_rate_limit k checked d).0 ≡ false
    → Tracks clock log (bucket_of ip d)
    → IsSpaced log
    → IsSpaced (noted ip k now log)
IsSpaced-noted ip k clock checked now log d le le' e h s = elim (beq-cases ip k) [
  | inr (differ, _) ↦ rw differ s
  | inl (equal, same) ↦
      let passed = ap (λ z. (check_rate_limit z checked d).0) same ∙ e in
      rw equal (IsSpaced-add checked now log le' (few_recent ip clock checked log d le h passed) s)
]

check_rate_limit-NodupKeys :
    (k : Text) (now : ℕ) (d : Dict Text (List ℕ))
    → NodupKeys d
    → NodupKeys (check_rate_limit k now d).1
unfolding check_rate_limit
check_rate_limit-NodupKeys k now d u = insert-NodupKeys k (recent_attempts now k d) d u

call-Inv :
    (ip : Text) (clock : ℕ) (log : List ℕ) (c : Call) (p : Portal)
    → clock ≤ c.checked
    → c.checked ≤ c.recorded
    → Inv ip clock log p.attempts
    → Inv ip c.recorded (note ip c (call c p).0 log) (call c p).1.attempts
call-Inv ip clock log c p le le' h =
    let d = (check_rate_limit c.ip c.checked p.attempts).1 in
    let checked = Tracks-check ip c.ip clock c.checked log p.attempts le h.tracks in
    let nodup = check_rate_limit-NodupKeys c.ip c.checked p.attempts h.nodup in
    let later = Tracks-later c.checked c.recorded log (bucket_of ip d) le' checked in
    elim (call-attempts c p) [
      | inl (limited, answer, after) ↦
          rw (answer, after) (record { nodup = nodup; tracks = later; spaced = h.spaced })
      | inr (through, answer, after) ↦
          rw (answer, after)
            (record {
              nodup = record_login_attempt-NodupKeys c.ip c.recorded d nodup;
              tracks = Tracks-record ip c.ip c.recorded log d nodup later;
              spaced =
                  IsSpaced-noted ip c.ip clock c.checked c.recorded log p.attempts le le' through
                    h.tracks h.spaced;
            })
    ]

tries-IsSpaced :
    (ip : Text) (clock : ℕ) (calls : List Call) (p : Portal) (log : List ℕ)
    → Ordered clock calls
    → Inv ip clock log p.attempts
    → IsSpaced (tries ip calls p log)
unfolding tries
tries-IsSpaced ip clock [] p log o h = h.spaced
tries-IsSpaced ip clock (c ∷ calls) p log o h =
    tries-IsSpaced ip c.recorded calls (call c p).1 (note ip c (call c p).0 log) o.2
      (call-Inv ip clock log c p o.0 o.1 h)

no_tries : (ip : Text) → Inv ip 0 [] []
no_tries ip = record {
  nodup = tt;
  tracks =
      rw (lookup-nil {V = List ℕ} ip) (record { same = λ now le. refl; rising = tt; past = tt });
  spaced = λ w. omega arith;
}

-- Whatever calls of the login come from whatever addresses, with right and wrong passwords, at most
-- five of an address within any 60 seconds get an answer other than 429: if the clock does not go
-- back and no attempts are held at the start.
pub api_auth_login-limit :
    (ip : Text) (calls : List Call) (p : Portal) (w : ℕ)
    → Ordered 0 calls
    → p.attempts ≡ []
    → length (keep (in_minute w) (tries ip calls p [])) ≤ rate_max
api_auth_login-limit ip calls p w o e = tries-IsSpaced ip 0 calls p [] o (rw e (no_tries ip)) w
