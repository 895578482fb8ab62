-- ===== src/Node/Buckets.antt =====
-- The buckets of the rate limits stay within their maximum.
use tinysocs.Prelude.Core.{
  ℕ, ◌+◌, ◌≤◌, String, List, [], ◌∷◌, ◌++◌, arith, leb, ltb, ◌||◌, Bool-cases, inl, inr,
}
use tinysocs.Prelude.Equality.{string_eq, beq-cases}
use tinysocs.Prelude.Lists.{length, keep, length-append, length-keep-le}
use tinysocs.Prelude.Dict.{Dict, lookup, insert}
use tinysocs.Node.Rate.{
  Bucket, or_empty, recent, is_stale, drop_stale, collect, rate_limit, Limits, check_write_rate,
  check_read_rate, write_max, read_max, Request, writing, reading, serve,
}

-- No bucket holds more times than the maximum.
abbrev pub IsWithin : ℕ → Dict String Bucket → Type 0
IsWithin m [] = Unit
IsWithin m ((_, b) ∷ d) = (length b ≤ m) × IsWithin m d

IsWithin-insert :
    (m : ℕ) (ip : String) (b : Bucket) (d : Dict String Bucket)
    → length b ≤ m
    → IsWithin m d
    → IsWithin m (insert ip b d)
unfolding insert
IsWithin-insert m ip b [] h w = (h, tt)
IsWithin-insert m ip b ((j, c) ∷ d) h w = elim (beq-cases ip j) [
  | inl (e, _) ↦ rw e (h, w.1)
  | inr (e, _) ↦ rw e (w.0, IsWithin-insert m ip b d h w.1)
]

IsWithin-drop_stale :
    (m now : ℕ) (d : Dict String Bucket) → IsWithin m d → IsWithin m (drop_stale now d)
unfolding drop_stale
IsWithin-drop_stale m now [] w = tt
IsWithin-drop_stale m now ((ip, b) ∷ d) w = elim (Bool-cases (is_stale now b)) [
  | inl e ↦ rw e (IsWithin-drop_stale m now d w.1)
  | inr e ↦ rw e (w.0, IsWithin-drop_stale m now d w.1)
]

IsWithin-collect :
    (m now counter : ℕ) (d : Dict String Bucket)
    → IsWithin m d
    → IsWithin m (collect now counter d).1
IsWithin-collect m now counter d w = elim (Bool-cases (leb 100 counter || ltb 1000 (length d))) [
  | inl e ↦ rw e (IsWithin-drop_stale m now d w)
  | inr e ↦ rw e w
]

lookup-IsWithin :
    (m : ℕ) (ip : String) (d : Dict String Bucket)
    → IsWithin m d
    → length (or_empty (lookup ip d)) ≤ m
unfolding lookup
lookup-IsWithin m ip [] w = omega arith
lookup-IsWithin m ip ((j, b) ∷ d) w = elim (beq-cases ip j) [
  | inl (e, _) ↦ rw e w.0
  | inr (e, _) ↦ rw e (lookup-IsWithin m ip d w.1)
]

IsWithin-rate_limit :
    (m : ℕ) (ip : String) (now counter : ℕ) (d : Dict String Bucket)
    → IsWithin m d
    → IsWithin m (rate_limit m ip now counter d).1.1
unfolding rate_limit
IsWithin-rate_limit m ip now counter d w =
    let bucket = keep (recent now) (or_empty (lookup ip d)) in
    elim (Bool-cases (leb m (length bucket))) [
      | inl e ↦ rw e (
          IsWithin-insert m ip bucket d
            (omega (
              arith,
              length-keep-le (recent now) (or_empty (lookup ip d)),
              lookup-IsWithin m ip d w,
            ))
            w)
      | inr e ↦ rw e (
          IsWithin-collect m now (counter + 1) (insert ip (bucket ++ now ∷ []) d) (
            IsWithin-insert m ip (bucket ++ now ∷ []) d
              (ground (arith, length-append bucket (now ∷ []))) w))
    ]

-- Whatever requests come, no address has more than 100 times in its write bucket or more than 200
-- in its read bucket, if none had before.
pub serve-IsWithin :
    (requests : List Request) (l : Limits)
    → IsWithin write_max l.write_buckets
    → IsWithin read_max l.read_buckets
    → IsWithin write_max (serve requests l).write_buckets
      × IsWithin read_max (serve requests l).read_buckets
unfolding serve check_write_rate check_read_rate
serve-IsWithin [] l w r = (w, r)
serve-IsWithin (writing ip now ∷ requests) l w r =
    serve-IsWithin requests (check_write_rate ip now l).1
      (IsWithin-rate_limit write_max ip now l.counter l.write_buckets w) r
serve-IsWithin (reading ip now ∷ requests) l w r =
    serve-IsWithin requests (check_read_rate ip now l).1 w
      (IsWithin-rate_limit read_max ip now l.counter l.read_buckets r)
