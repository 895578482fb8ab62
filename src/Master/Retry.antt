-- ===== src/Master/Retry.antt =====
-- `_try_call` and `_fetch_node_agg_async`: a call that may raise, tried a bounded number of times.
-- A call takes the world to its answer (none if it raises) and the world after it; the waits
-- between attempts change nothing that is modelled.
use tinysocs.Prelude.Core.{
  ◌≡◌, refl, ◌<◌, ℕ, zero, suc, Option, none, some, arith, ◌↔◌, Option-cases, inl, inr,
}

abbrev pub Call {ℓ} : Type ℓ → Type ℓ → Type ℓ
Call W A = W → Option A × W

module _ {ℓ} {W A : Type ℓ} where
  -- none is the RuntimeError "failed after N tries".
  unfoldable pub try_call : Call W A → ℕ → Call W A
  try_call fn zero w = (none, w)
  try_call fn (suc tries) w =
      let (r, w') = fn w in elim r [ some a ↦ (some a, w') | none ↦ try_call fn tries w' ]

  -- The inner attempt of `_fetch_node_agg_async`: GET, and POST only if GET raised.
  unfoldable pub get_or_post : Call W A → Call W A → Call W A
  get_or_post get post w = let (r, w') = get w in elim r [ some a ↦ (some a, w') | none ↦ post w' ]

  -- `_fetch_node_agg_async`, with MASTER_RETRIES attempts; none is the reply with `ok` False.
  unfoldable pub fetch_node_agg : Call W A → Call W A → ℕ → Call W A
  fetch_node_agg get post zero w = (none, w)
  fetch_node_agg get post (suc attempts) w =
      let (r, w1) = get w in
      let (r', w2) = post w1 in
      elim r [
        | some a ↦ (some a, w1)
        | none ↦ elim r' [ some a ↦ (some a, w2) | none ↦ fetch_node_agg get post attempts w2 ]
      ]

  -- The first `k` calls, from one world to another, all raise.
  abbrev pub Raises : Call W A → ℕ → W → W → Type ℓ
  Raises fn zero w w' = w ≡ w'
  Raises fn (suc k) w w' = ((fn w).0 ≡ none) × Raises fn k (fn w).1 w'

  -- One of the first `n` calls is the first that does not raise, and this is its answer.
  abbrev pub FirstAnswer : Call W A → ℕ → W → A → W → Type ℓ
  FirstAnswer fn n w a w' = (k : ℕ) × (v : W) × (k < n) × Raises fn k w v × (fn v ≡ (some a, w'))

  try_call-first :
      (fn : Call W A) (n : ℕ) (w : W) (a : A) (w' : W)
      → try_call fn n w ≡ (some a, w')
      → FirstAnswer fn n w a w'
  unfolding try_call
  try_call-first fn zero w a w' e = cc
  try_call-first fn (suc n) w a w' e = elim (Option-cases (fn w).0) [
    | inl f ↦
        let (k, v, lt, r, h) = try_call-first fn n (fn w).1 a w' (rw (f, try_call) at e) in
        (suc k, v, omega arith, (f, r), h)
    | inr (b, f) ↦ (0, w, omega arith, refl, ground arith)
  ]

  first-try_call :
      (fn : Call W A) (n k : ℕ) (w v : W) (a : A) (w' : W)
      → k < n
      → Raises fn k w v
      → fn v ≡ (some a, w')
      → try_call fn n w ≡ (some a, w')
  unfolding try_call
  first-try_call fn zero k w v a w' lt r h = absurd (omega arith)
  first-try_call fn (suc n) zero w v a w' lt r h = ground arith
  first-try_call fn (suc n) (suc k) w v a w' lt r h =
      rw (r.0, try_call) (first-try_call fn n k (fn w).1 v a w' (omega arith) r.1 h)

  -- `_try_call` answers exactly what the first of its `tries` calls that does not raise answers,
  -- and makes no further call; it raises only if all of them do.
  pub try_call_iff :
      (fn : Call W A) (n : ℕ) (w : W) (a : A) (w' : W)
      → (try_call fn n w ≡ (some a, w')) ↔ FirstAnswer fn n w a w'
  try_call_iff fn n w a w' =
      (try_call-first fn n w a w', λ (k, v, lt, r, h). first-try_call fn n k w v a w' lt r h)

  -- Fetching a node's evidence is `_try_call` on "GET, and POST if GET raises".
  pub fetch_node_agg-try_call :
      (get post : Call W A) (n : ℕ) (w : W)
      → fetch_node_agg get post n w ≡ try_call (get_or_post get post) n w
  unfolding fetch_node_agg try_call get_or_post
  fetch_node_agg-try_call get post zero w = refl
  fetch_node_agg-try_call get post (suc n) w = elim (Option-cases (get w).0) [
    | inr (a, f) ↦ ground arith
    | inl f ↦ ground (arith, fetch_node_agg-try_call get post n (post (get w).1).1)
  ]
