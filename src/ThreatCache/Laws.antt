-- ===== src/ThreatCache/Laws.antt =====
-- What the cache promises: a stored answer is served until its TTL is over, never later, and the
-- table stays within its size.
use tinysocs.Prelude.Core.{
  ◌≡◌, refl, ℕ, ◌+◌, ◌*◌, ◌≤◌, Bool, true, not, String, Option, some, List, [], ◌∷◌, ◌++◌, arith,
  Option-cases, inl, inr,
}
use tinysocs.Prelude.Equality.{string_eq, beq_refl}
use tinysocs.Prelude.Lists.{length, length-keep-le, All-keep}
use tinysocs.ThreatCache.{
  Key, Row, new_row, Table, matches, find, delete, lapsed, micros, max_entries, get, put,
  cleanup_expired, clear, Command, getting, putting, cleaning, clearing, perform, run,
}
use tinysocs.ThreatCache.Rows.{Until, Lacks-delete, maybe_evict-length, maybe_evict-newest}

pub matches_refl : (k : Key) (text : String) (t ttl : ℕ) → matches k (new_row k text t ttl) ≡ true
unfolding matches
matches_refl k text t ttl = rw (beq_refl k.ioc_type, beq_refl k.ioc_value, beq_refl k.provider) refl

module _ {ℓ} {V : Type ℓ} (dumps : V → Option String) (loads : String → Option V) where
  -- An answer that `put` stores under a key is what `get` serves for that key at every later time
  -- within its TTL, if `json.loads` undoes `json.dumps` on it, both calls reach SQLite, no row is
  -- from a later time than the `put` and the table is within its size.
  pub get-put :
      (k : Key) (v w : V) (text : String) (ttl now later : ℕ) (rs : Table)
      → dumps v ≡ some text
      → loads text ≡ some w
      → Until now rs
      → length rs ≤ max_entries
      → later ≤ now + ttl * micros
      → (get dumps loads true k later (put dumps loads true k v ttl now rs)).0 ≡ some w
  unfolding get put delete
  get-put k v w text ttl now later rs d l u small fresh =
      let row = new_row k text now ttl in
      let found =
        maybe_evict-newest k (delete k rs) row
          (All-keep (λ r. r.cached_at ≤ now) (λ r. not (matches k r)) rs u) (Lacks-delete k rs)
          (matches_refl k text now ttl)
          (omega (arith, length-keep-le (λ r. not (matches k r)) rs)) in
      rw (d, found) (ground arith)

  -- The row under which `get` serves an answer is of the table, and is not older than its TTL.
  pub get_fresh :
      (opens : Bool) (k : Key) (now : ℕ) (rs : Table) (v : V)
      → (get dumps loads opens k now rs).0 ≡ some v
      → (r : Row) × (find k rs ≡ some r)
        × (loads r.result_json ≡ some v)
        × (now ≤ r.cached_at + r.ttl_seconds * micros)
  unfolding get
  get_fresh opens k now rs v e = elim (Option-cases (find k rs)) [
    | inl f ↦ absurd (ground arith)
    | inr (r, f) ↦ (r, f, ground arith, ground arith)
  ]

  perform-length :
      (c : Command V) (rs : Table)
      → length rs ≤ max_entries
      → length (perform dumps loads c rs) ≤ max_entries
  unfolding perform get put cleanup_expired clear delete
  perform-length (getting opens k now) rs small = elim (Option-cases (find k rs)) [
    | inl f ↦ ground arith
    | inr (r, f) ↦ ground (arith, length-keep-le (λ s. not (matches k s)) rs)
  ]
  perform-length (putting opens k v ttl now) rs small = elim (Option-cases (dumps v)) [
    | inl f ↦ ground arith
    | inr (text, f) ↦
        ground (arith, maybe_evict-length (delete k rs ++ new_row k text now ttl ∷ []))
  ]
  perform-length (cleaning opens now) rs small =
      ground (arith, length-keep-le (λ r. not (lapsed now r)) rs)
  perform-length (clearing opens) rs small = ground arith

  -- However the cache is used from empty, its table never holds more than 100000 rows: no
  -- operation makes it hold more than it did, except `put`, which evicts.
  pub run-length :
      (commands : List (Command V)) (rs : Table)
      → length rs ≤ max_entries
      → length (run dumps loads commands rs) ≤ max_entries
  unfolding run
  run-length [] rs small = small
  run-length (c ∷ commands) rs small =
      run-length commands (perform dumps loads c rs) (perform-length c rs small)
