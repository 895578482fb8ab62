-- ===== src/Auth/NoReplay.antt =====
-- The replay cache: what it prevents, and what it does not.
use tinysocs.Prelude.Core.{
  ◌≡◌, ◌≢◌, refl, sym, ap, subst, ◌∙◌, ℕ, ◌+◌, ◌≤◌, ◌<◌, Bool, true, false, none, some, List, [],
  ◌∷◌, arith, Option-cases, inl, inr,
}
use native.Mathlib.Nat.{le_refl}
use mathlib.Core.Option.{some-injective}
use tinysocs.Prelude.Dict
use tinysocs.Prelude.Dict.{Dict}
use tinysocs.Prelude.Int.{pos, ◌-ℤ◌, abs, ltb_ℤ}
use tinysocs.Prelude.Text.{Text, strip, parse_int, text_eq}
use tinysocs.Auth.{
  Headers, Replay, Verdict, accepted, unauthorized, unexpired, gc, check_replay, normalize_sig,
  candidates, match_message, verify_hmac, check_time, check_signature,
}
use tinysocs.Auth.Accept.{Passed, verify_hmac-Passed, Passed-verify_hmac}

lookup-unexpired :
    (now : ℕ) (msg : Text) (d : Dict Text ℕ) (exp : ℕ)
    → Dict.lookup msg d ≡ some exp
    → now < exp
    → Dict.lookup msg (unexpired now d) ≡ some exp
unfolding unexpired Dict.lookup
lookup-unexpired now msg [] exp e h = cc
lookup-unexpired now msg ((m, x) ∷ d) exp e h = ground (arith, lookup-unexpired now msg d exp)

lookup-gc :
    (now : ℕ) (msg : Text) (r : Replay) (exp : ℕ)
    → Dict.lookup msg r.cache ≡ some exp
    → now < exp
    → Dict.lookup msg (gc now r).cache ≡ some exp
unfolding gc
lookup-gc now msg r exp e h = ground (arith, lookup-unexpired now msg r.cache exp)

-- A live entry outlives every check made before it expires.
check_replay-keeps :
    (protect : Bool) (now : ℕ) (m msg : Text) (r : Replay) (exp : ℕ)
    → Dict.lookup msg r.cache ≡ some exp
    → now < exp
    → Dict.lookup msg (check_replay protect now m r).1.cache ≡ some exp
unfolding check_replay
check_replay-keeps false now m msg r exp e h = e
check_replay-keeps true now m msg r exp e h =
    ground (arith, lookup-gc now msg r exp, Dict.lookup-insert msg m (now + 300) (gc now r).cache)

check_replay-refuses :
    (now : ℕ) (msg : Text) (r : Replay) (exp : ℕ)
    → Dict.lookup msg r.cache ≡ some exp
    → now < exp
    → (check_replay true now msg r).0 ≡ unauthorized "Replay detected"
unfolding check_replay
check_replay-refuses now msg r exp e h = ground (arith, lookup-gc now msg r exp)

check_replay-stores :
    (now : ℕ) (msg : Text) (r : Replay)
    → (check_replay true now msg r).0 ≡ accepted
    → Dict.lookup msg (check_replay true now msg r).1.cache ≡ some (now + 300)
unfolding check_replay
check_replay-stores now msg r e =
    ground (arith, Dict.lookup-insert msg msg (now + 300) (gc now r).cache)

pub lookup-unexpired-none :
    (now : ℕ) (msg : Text) (d : Dict Text ℕ)
    → Dict.lookup msg d ≡ none
    → Dict.lookup msg (unexpired now d) ≡ none
unfolding unexpired Dict.lookup
lookup-unexpired-none now msg [] e = refl
lookup-unexpired-none now msg ((m, x) ∷ d) e = ground (arith, lookup-unexpired-none now msg d)

lookup-unexpired_dead :
    (now : ℕ) (msg : Text) (d : Dict Text ℕ) (exp : ℕ)
    → Dict.NodupKeys d
    → Dict.lookup msg d ≡ some exp
    → exp ≤ now
    → Dict.lookup msg (unexpired now d) ≡ none
unfolding unexpired Dict.lookup
lookup-unexpired_dead now msg [] exp u e h = cc
lookup-unexpired_dead now msg ((m, x) ∷ d) exp u e h =
    ground (arith, lookup-unexpired-none now msg d, lookup-unexpired_dead now msg d exp, u.0, u.1)

unexpired-NodupKeys :
    (now : ℕ) (d : Dict Text ℕ) → Dict.NodupKeys d → Dict.NodupKeys (unexpired now d)
unfolding unexpired
unexpired-NodupKeys now [] u = tt
unexpired-NodupKeys now ((m, x) ∷ d) u =
    ground (arith, unexpired-NodupKeys now d u.1, lookup-unexpired-none now m d u.0)

gc-NodupKeys : (now : ℕ) (r : Replay) → Dict.NodupKeys r.cache → Dict.NodupKeys (gc now r).cache
unfolding gc
gc-NodupKeys now r u = ground (arith, unexpired-NodupKeys now r.cache u)

-- The cache is a dict: no key twice.
check_replay-NodupKeys :
    (protect : Bool) (now : ℕ) (m : Text) (r : Replay)
    → Dict.NodupKeys r.cache
    → Dict.NodupKeys (check_replay protect now m r).1.cache
unfolding check_replay
check_replay-NodupKeys false now m r u = u
check_replay-NodupKeys true now m r u = ground (
  arith,
  gc-NodupKeys now r u,
  Dict.insert-NodupKeys m (now + 300) (gc now r).cache (gc-NodupKeys now r u),
)

check_replay-expired :
    (now : ℕ) (msg : Text) (r : Replay) (exp : ℕ)
    → Dict.NodupKeys r.cache
    → Dict.lookup msg r.cache ≡ some exp
    → exp ≤ now
    → (check_replay true now msg r).0 ≡ accepted
unfolding check_replay gc
check_replay-expired now msg r exp u e h =
    ground (arith, lookup-unexpired_dead now msg r.cache exp u e h)

still_in_range :
    (skew now t : ℕ)
    → 300 ≤ skew
    → now ≤ t
    → ltb_ℤ (pos skew) (abs (pos now -ℤ pos t)) ≡ false
    → ltb_ℤ (pos skew) (abs (pos (now + 300) -ℤ pos t)) ≡ false
unfolding ◌-ℤ◌ abs
still_in_range skew now t wide ahead h = ground arith

module _ (calc_mac : Text → Text → Text) (secret : Text) (skew : ℕ) where
  -- The checks of a process, one after another, at their times.
  unfoldable pub serve : List (Headers × ℕ) → Replay → Replay
  serve [] r = r
  serve ((h, now) ∷ rest) r = serve rest (verify_hmac calc_mac secret skew true h now r).1

  abbrev pub AllBefore : ℕ → List (Headers × ℕ) → Type 0
  AllBefore t [] = Unit
  AllBefore t ((h, now) ∷ rest) = (now < t) × AllBefore t rest

  verify_hmac-keeps :
      (h : Headers) (now : ℕ) (msg : Text) (r : Replay) (exp : ℕ)
      → Dict.lookup msg r.cache ≡ some exp
      → now < exp
      → Dict.lookup msg (verify_hmac calc_mac secret skew true h now r).1.cache ≡ some exp
  unfolding verify_hmac check_time check_signature
  verify_hmac-keeps h now msg r exp e lt =
      elim (Option-cases (
        match_message calc_mac secret (normalize_sig (strip h.signature))
          (candidates (strip h.timestamp) (strip h.nonce)))) [
            | inl q ↦ ground arith
            | inr (m, q) ↦ ground (arith, check_replay-keeps true now m msg r exp)
          ]

  serve-keeps :
      (reqs : List (Headers × ℕ)) (msg : Text) (r : Replay) (exp : ℕ)
      → AllBefore exp reqs
      → Dict.lookup msg r.cache ≡ some exp
      → Dict.lookup msg (serve reqs r).cache ≡ some exp
  unfolding serve
  serve-keeps [] msg r exp b e = e
  serve-keeps ((h, now) ∷ rest) msg r exp b e =
      serve-keeps rest msg _ exp b.1 (verify_hmac-keeps h now msg r exp e b.0)

  -- A request that was accepted is refused when its headers come again within 300 seconds, by
  -- whichever other requests, accepted or not, the process has served in between.
  pub verify_hmac-no_replay :
      (h : Headers) (now later : ℕ) (r : Replay) (between : List (Headers × ℕ))
      → (verify_hmac calc_mac secret skew true h now r).0 ≡ accepted
      → later < now + 300
      → AllBefore (now + 300) between
      → let r' = serve between (verify_hmac calc_mac secret skew true h now r).1 in
        (verify_hmac calc_mac secret skew true h later r').0 ≢ accepted
  verify_hmac-no_replay h now later r between e lt b again =
      let (msg, p, step) = verify_hmac-Passed calc_mac secret skew true h now r e in
      let stored =
        check_replay-stores now msg r (ap (λ (x : Verdict × Replay). x.0) (sym step) ∙ e) in
      let s : Replay = (verify_hmac calc_mac secret skew true h now r).1 in
      let kept =
        serve-keeps between msg s (now + 300) b
          (ap (λ (x : Verdict × Replay). Dict.lookup msg x.1.cache) step ∙ stored) in
      let (msg', p', step') =
        verify_hmac-Passed calc_mac secret skew true h later (serve between s) again in
      let same : msg ≡ msg' = cc (p.found, p'.found) in
      let refused = check_replay-refuses later msg (serve between s) (now + 300) kept lt in
      cc (refused, step', same, again)

  -- But with a skew of 300 seconds or more, a request whose timestamp is not behind the clock when
  -- it is accepted is accepted a second time 300 seconds later: the entry of the replay cache
  -- expires before the timestamp does.
  pub verify_hmac-replay_window :
      (h : Headers) (now t : ℕ) (r : Replay)
      → Dict.NodupKeys r.cache
      → 300 ≤ skew
      → parse_int (strip h.timestamp) ≡ some (pos t)
      → now ≤ t
      → (verify_hmac calc_mac secret skew true h now r).0 ≡ accepted
      → let r' = (verify_hmac calc_mac secret skew true h now r).1 in
        (verify_hmac calc_mac secret skew true h (now + 300) r').0 ≡ accepted
  verify_hmac-replay_window h now t r u wide stamp ahead e =
      let (msg, p, step) = verify_hmac-Passed calc_mac secret skew true h now r e in
      let s : Replay = (check_replay true now msg r).1 in
      let first : (check_replay true now msg r).0 ≡ accepted =
        ap (λ (x : Verdict × Replay). x.0) (sym step) ∙ e in
      let same : p.stamp ≡ pos t = some-injective _ _ (sym p.parsed ∙ stamp) in
      let again : Passed calc_mac secret skew h (now + 300) msg = record {
        present = p.present;
        stamp = pos t;
        parsed = stamp;
        in_range =
            still_in_range skew now t wide ahead
              (subst (λ x. ltb_ℤ (pos skew) (abs (pos now -ℤ x)) ≡ false) same p.in_range);
        ascii = p.ascii;
        found = p.found;
      } in
      rw step (
        rw (Passed-verify_hmac calc_mac secret skew true h (now + 300) s msg again) (
          check_replay-expired (now + 300) msg s (now + 300)
            (check_replay-NodupKeys true now msg r u) (check_replay-stores now msg r first)
            (le_refl (now + 300))))
