-- ===== src/Intel/Quota.antt =====
-- The web requests of a provider of agent/threat_intel.py under its quota.
use mathlib.Core.List.{append-nil, append_assoc}
use tinysocs.Prelude.Core.{
  ◌≡◌, ◌≢◌, refl, sym, ap, ◌∙◌, ℕ, ◌+◌, ◌≤◌, Bool, true, ◌&&◌, List, [], ◌∷◌, ◌++◌, arith, ltb, leb,
  if◌then◌else◌, Bool-cases, inl, inr,
}
use tinysocs.Prelude.Lists.{length, keep, length-append, keep-append, keep-keep, length-keep_mono}
use tinysocs.Intel.{
  rate_window, Usage, is_recent, quota_remaining, is_available, record_call, start_lookup,
}

-- The times of the lookups of a provider that make a web request, and its state after them.
unfoldable pub lookups : List (Bool × ℕ) → Usage → List ℕ × Usage
lookups [] u = ([], u)
lookups ((configured, now) ∷ calls) u =
    let (asks, next) = start_lookup configured now u in
    let (times, last) = lookups calls next in (if asks then now ∷ times else times, last)

abbrev pub IsRising : ℕ → List (Bool × ℕ) → Type 0
IsRising clock [] = Unit
IsRising clock ((configured, now) ∷ calls) = (clock ≤ now) × IsRising now calls

abbrev pub is_within : ℕ → ℕ → Bool
is_within start t = leb start t && ltb t (start + rate_window)

-- The noted times against all times of web requests up to a clock.
record Tracks (clock : ℕ) (log : List ℕ) (u : Usage) : Type 0 where
  pub same :
      (now : ℕ) → clock ≤ now → keep (is_recent now) log ≡ keep (is_recent now) u.call_timestamps
  pub bound : (start : ℕ) → length (keep (is_within start) log) ≤ u.rate_limit

Tracks-later : (a b : ℕ) (log : List ℕ) (u : Usage) → a ≤ b → Tracks a log u → Tracks b log u
Tracks-later a b log u le h = record { same = λ now q. h.same now (omega arith); bound = h.bound }

-- A window that holds a time has only times that are recent then.
within-recent :
    (start now : ℕ) (log : List ℕ)
    → is_within start now ≡ true
    → length (keep (is_within start) log) ≤ length (keep (is_recent now) log)
within-recent start now log e =
    length-keep_mono (is_within start) (is_recent now) (λ t. λ q. ground arith) log

length-keep_snoc :
    (p : ℕ → Bool) (xs : List ℕ) (x : ℕ)
    → length (keep p (xs ++ x ∷ [])) ≡ length (keep p xs) + (if p x then 1 else 0)
length-keep_snoc p xs x =
    rw (keep-append p xs (x ∷ []), length-append (keep p xs) (keep p (x ∷ []))) (ground arith)

record_call-Tracks :
    (now : ℕ) (log : List ℕ) (u : Usage)
    → quota_remaining now u ≢ 0
    → Tracks now log u
    → Tracks now (log ++ now ∷ []) (record_call now u)
unfolding record_call quota_remaining
record_call-Tracks now log u left h = record {
  same = λ later q.
      keep-append (is_recent later) log (now ∷ [])
      ∙ ap (λ l. l ++ keep (is_recent later) (now ∷ [])) (h.same later q)
      ∙ sym (keep-append (is_recent later) u.call_timestamps (now ∷ []))
      ∙ sym (
          keep-keep (is_recent later) (is_recent now) (λ t. λ r. ground arith)
            (u.call_timestamps ++ now ∷ []));
  bound = λ start. elim (Bool-cases (is_within start now)) [
    | inl e ↦
        let before = within-recent start now log e in
        let noted = ap (λ l. length l) (h.same now (omega arith)) in
        rw (length-keep_snoc (is_within start) log now, e) (omega arith)
    | inr e ↦
        let before = h.bound start in
        rw (length-keep_snoc (is_within start) log now, e) (omega arith)
  ];
}

rate_limit-record_call : (now : ℕ) (u : Usage) → (record_call now u).rate_limit ≡ u.rate_limit
unfolding record_call
rate_limit-record_call now u = refl

lookups-bound :
    (calls : List (Bool × ℕ)) (clock : ℕ) (log : List ℕ) (u : Usage)
    → IsRising clock calls
    → Tracks clock log u
    → (start : ℕ) → length (keep (is_within start) (log ++ (lookups calls u).0)) ≤ u.rate_limit
unfolding lookups start_lookup
lookups-bound [] clock log u r h start = rw (append-nil log) (h.bound start)
lookups-bound ((configured, now) ∷ calls) clock log u r h start =
    let here = Tracks-later clock now log u r.0 h in
    elim (Bool-cases (is_available configured now u)) [
      | inl e ↦
          rw (e, ← append_assoc log (now ∷ []) (lookups calls (record_call now u)).0)
            (omega (
              arith,
              rate_limit-record_call now u,
              lookups-bound calls now (log ++ now ∷ []) (record_call now u) r.1
                  (record_call-Tracks now log u (λ z. absurd (ground arith)) here) start,
            ))
      | inr e ↦ rw e (lookups-bound calls now log u r.1 here start)
    ]

-- Of the lookups of a provider that has noted none yet, made at times that do not go back, no more
-- than the provider's limit make a web request within any 24 hours.
pub lookups-limit :
    (calls : List (Bool × ℕ)) (u : Usage)
    → u.call_timestamps ≡ []
    → IsRising 0 calls
    → (start : ℕ) → length (keep (is_within start) (lookups calls u).0) ≤ u.rate_limit
lookups-limit calls u none_noted r start =
    lookups-bound calls 0 [] u r
      (record { same = λ now q. rw none_noted refl; bound = λ from. omega arith }) start
