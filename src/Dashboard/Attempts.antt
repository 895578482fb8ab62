-- ===== src/Dashboard/Attempts.antt =====
-- The times noted by the rate limit of the login of api/dashboard.py, against those let through.
use tinysocs.Prelude.Core.{
  ◌≡◌, refl, inl, inr, sym, ◌∙◌, ℕ, ◌+◌, ◌≤◌, ◌<◌, Bool, true, ◌&&◌, Option, none, some, List, [],
  ◌∷◌, ◌++◌, arith, ltb, leb, if◌then◌else◌, Bool-cases,
}
use tinysocs.Prelude.Equality.{◌==◌, beq-cases}
use tinysocs.Prelude.Lists.{
  length, keep, All, All-keep, All-append, length-append, keep-append, keep-keep, length-keep_mono,
}
use tinysocs.Prelude.Dict.{
  Dict, lookup, insert, lookup-insert, NodupKeys, insert-NodupKeys, unless, lookup-drop_if,
  drop_if-NodupKeys,
}
use tinysocs.Prelude.Text.{Text, text_eq}
use tinysocs.Dashboard.Login.{
  rate_window, rate_max, or_empty, recent, recent_attempts, check_rate_limit, is_stale,
  record_login_attempt,
}

-- No time is before an earlier one of the list.
abbrev pub Rising : List ℕ → Type 0
Rising [] = Unit
Rising (t ∷ ts) = All (λ u. t ≤ u) ts × Rising ts

Rising-keep : (p : ℕ → Bool) (ts : List ℕ) → Rising ts → Rising (keep p ts)
Rising-keep p [] h = tt
Rising-keep p (t ∷ ts) h = elim (Bool-cases (p t)) [
  | inl e ↦ rw e (All-keep (λ u. t ≤ u) p ts h.0, Rising-keep p ts h.1)
  | inr e ↦ rw e (Rising-keep p ts h.1)
]

Rising-append : (ts : List ℕ) (n : ℕ) → Rising ts → All (λ t. t ≤ n) ts → Rising (ts ++ n ∷ [])
Rising-append [] n h le = (tt, tt)
Rising-append (t ∷ ts) n h le =
    (All-append (λ u. t ≤ u) ts (n ∷ []) h.0 (le.0, tt), Rising-append ts n h.1 le.1)

All-le : (a b : ℕ) (ts : List ℕ) → a ≤ b → All (λ t. t ≤ a) ts → All (λ t. t ≤ b) ts
All-le a b [] le h = tt
All-le a b (t ∷ ts) le h = (omega arith, All-le a b ts le h.1)

-- The bucket of an address against the times at which its tries were let through, up to a time.
pub record Tracks (clock : ℕ) (log bucket : List ℕ) : Type 0 where
  pub same : (now : ℕ) → clock ≤ now → keep (recent now) log ≡ keep (recent now) bucket
  pub rising : Rising bucket
  pub past : All (λ t. t ≤ clock) bucket

pub Tracks-later :
    (a b : ℕ) (log bucket : List ℕ) → a ≤ b → Tracks a log bucket → Tracks b log bucket
Tracks-later a b log bucket le h = record {
  same = λ now q. h.same now (omega arith);
  rising = h.rising;
  past = All-le a b bucket le h.past;
}

Tracks-prune :
    (now : ℕ) (log bucket : List ℕ)
    → Tracks now log bucket
    → Tracks now log (keep (recent now) bucket)
Tracks-prune now log bucket h = record {
  same = λ later q.
      h.same later q ∙ sym (keep-keep (recent later) (recent now) (λ t. λ r. ground arith) bucket);
  rising = Rising-keep (recent now) bucket h.rising;
  past = All-keep (λ t. t ≤ now) (recent now) bucket h.past;
}

Tracks-add :
    (now : ℕ) (log bucket : List ℕ)
    → Tracks now log bucket
    → Tracks now (log ++ now ∷ []) (bucket ++ now ∷ [])
Tracks-add now log bucket h = record {
  same = λ later q.
      rw
        (
          keep-append (recent later) log (now ∷ []),
          keep-append (recent later) bucket (now ∷ []),
          h.same later q,
        )
        refl;
  rising = Rising-append bucket now h.rising h.past;
  past = All-append (λ t. t ≤ now) bucket (now ∷ []) h.past (omega arith, tt);
}

is_stale-keep :
    (n now : ℕ) (ts : List ℕ)
    → n ≤ now
    → Rising ts
    → is_stale n ts ≡ true
    → keep (recent now) ts ≡ []
is_stale-keep n now [] le h s = refl
is_stale-keep n now (t ∷ []) le h s = ground arith
is_stale-keep n now (t ∷ u ∷ ts) le h s = ground (arith, is_stale-keep n now (u ∷ ts) le h.1 s)

Tracks-stale :
    (now : ℕ) (log bucket : List ℕ)
    → is_stale now bucket ≡ true
    → Tracks now log bucket
    → Tracks now log []
Tracks-stale now log bucket s h = record {
  same = λ later q. h.same later q ∙ is_stale-keep now later bucket q h.rising s;
  rising = tt;
  past = tt;
}

abbrev pub bucket_of : Text → Dict Text (List ℕ) → List ℕ
bucket_of ip d = or_empty (lookup ip d)

pub bucket_of-insert :
    (ip k : Text) (ts : List ℕ) (d : Dict Text (List ℕ))
    → bucket_of ip (insert k ts d) ≡ (if ip == k then ts else bucket_of ip d)
bucket_of-insert ip k ts d = elim (Bool-cases (ip == k)) [
  | inl e ↦ rw (lookup-insert ip k ts d, e) refl
  | inr e ↦ rw (lookup-insert ip k ts d, e) refl
]

Tracks-unless :
    (now : ℕ) (log : List ℕ) (o : Option (List ℕ))
    → Tracks now log (or_empty o)
    → Tracks now log (or_empty (unless (is_stale now) o))
Tracks-unless now log none h = h
Tracks-unless now log (some ts) h = elim (Bool-cases (is_stale now ts)) [
  | inl gone ↦ rw gone (Tracks-stale now log ts gone h)
  | inr stays ↦ rw stays h
]

pub Tracks-check :
    (ip k : Text) (clock now : ℕ) (log : List ℕ) (d : Dict Text (List ℕ))
    → clock ≤ now
    → Tracks clock log (bucket_of ip d)
    → Tracks now log (bucket_of ip (check_rate_limit k now d).1)
unfolding check_rate_limit
Tracks-check ip k clock now log d le h = elim (beq-cases ip k) [
  | inl (e, same) ↦
      rw (bucket_of-insert ip k (recent_attempts now k d) d, e, ← same)
        (Tracks-prune now log (bucket_of ip d) (Tracks-later clock now log _ le h))
  | inr (e, _) ↦
      rw (bucket_of-insert ip k (recent_attempts now k d) d, e) (Tracks-later clock now log _ le h)
]

-- The times once a try of the address `k` at the time `now` was let through.
abbrev pub noted : Text → Text → ℕ → List ℕ → List ℕ
noted ip k now log = if ip == k then log ++ now ∷ [] else log

pub Tracks-record :
    (ip k : Text) (now : ℕ) (log : List ℕ) (d : Dict Text (List ℕ))
    → NodupKeys d
    → Tracks now log (bucket_of ip d)
    → Tracks now (noted ip k now log) (bucket_of ip (record_login_attempt k now d))
unfolding record_login_attempt
Tracks-record ip k now log d u h =
    let d' = insert k (bucket_of k d ++ now ∷ []) d in
    let added : Tracks now (noted ip k now log) (bucket_of ip d') = elim (beq-cases ip k) [
      | inl (e, same) ↦
          rw (bucket_of-insert ip k (bucket_of k d ++ now ∷ []) d, e, ← same)
            (Tracks-add now log (bucket_of ip d) h)
      | inr (e, _) ↦ rw (bucket_of-insert ip k (bucket_of k d ++ now ∷ []) d, e) h
    ] in
    elim (Bool-cases (ltb 1000 (length d'))) [
      | inl e ↦
          rw (e, lookup-drop_if (is_stale now) ip d' (insert-NodupKeys k _ d u))
            (Tracks-unless now _ (lookup ip d') added)
      | inr e ↦ rw e added
    ]

pub record_login_attempt-NodupKeys :
    (k : Text) (now : ℕ) (d : Dict Text (List ℕ))
    → NodupKeys d
    → NodupKeys (record_login_attempt k now d)
unfolding record_login_attempt
record_login_attempt-NodupKeys k now d u =
    let d' = insert k (bucket_of k d ++ now ∷ []) d in
    elim (Bool-cases (ltb 1000 (length d'))) [
      | inl e ↦ rw e (drop_if-NodupKeys _ d' (insert-NodupKeys k _ d u))
      | inr e ↦ rw e (insert-NodupKeys k _ d u)
    ]

-- The minute that starts at `w`.
abbrev pub in_minute : ℕ → ℕ → Bool
in_minute w t = leb w t && ltb t (w + rate_window)

-- No minute has more than five of the times.
abbrev pub IsSpaced : List ℕ → Type 0
IsSpaced log = (w : ℕ) → length (keep (in_minute w) log) ≤ rate_max

pub IsSpaced-add :
    (checked now : ℕ) (log : List ℕ)
    → checked ≤ now
    → length (keep (recent checked) log) < rate_max
    → IsSpaced log
    → IsSpaced (log ++ now ∷ [])
IsSpaced-add checked now log le few h w = elim (Bool-cases (in_minute w now)) [
  | inl e ↦
      rw (keep-append (in_minute w) log (now ∷ []), e)
        (ground (
          arith,
          length-append (keep (in_minute w) log) (now ∷ []),
          length-keep_mono (in_minute w) (recent checked) (λ t. λ p. ground arith) log,
        ))
  | inr e ↦
      rw (keep-append (in_minute w) log (now ∷ []), e)
        (ground (arith, length-append (keep (in_minute w) log) [], h w))
]
