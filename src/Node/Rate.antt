-- ===== src/Node/Rate.antt =====
-- `_rate_limit` with its write and read limits. Times and windows are whole microseconds; the test
-- `t > now - window` is written without the subtraction. One counter serves both dicts.
use tinysocs.Prelude.Core.{
  ℕ, ◌+◌, Bool, true, false, ◌||◌, String, Option, none, some, List, [], ◌∷◌, ◌++◌, ltb, leb,
  if◌then◌else◌,
}
use tinysocs.Prelude.Equality.{string_eq}
use tinysocs.Prelude.Lists.{length, keep}
use tinysocs.Prelude.Dict.{Dict, lookup, insert}

abbrev pub Bucket : Type 0
Bucket = List ℕ

abbrev pub write_max : ℕ
write_max = 100

abbrev pub read_max : ℕ
read_max = 200

abbrev pub window : ℕ
window = 60000000

abbrev pub or_empty : Option Bucket → Bucket
or_empty none = []
or_empty (some b) = b

abbrev pub recent : ℕ → ℕ → Bool
recent now t = ltb now (t + window)

-- `not v or v[-1] < cutoff`
abbrev pub is_stale : ℕ → Bucket → Bool
is_stale now [] = true
is_stale now (t ∷ []) = ltb (t + window) now
is_stale now (t ∷ u ∷ ts) = is_stale now (u ∷ ts)

unfoldable pub drop_stale : ℕ → Dict String Bucket → Dict String Bucket
drop_stale now [] = []
drop_stale now ((ip, b) ∷ d) =
    let rest = drop_stale now d in if is_stale now b then rest else (ip, b) ∷ rest

-- The garbage collection, after the counter went up.
abbrev pub collect : ℕ → ℕ → Dict String Bucket → ℕ × Dict String Bucket
collect now counter d =
    if leb 100 counter || ltb 1000 (length d) then (0, drop_stale now d) else (counter, d)

-- false is the 429.
unfoldable pub rate_limit :
    ℕ → String → ℕ → ℕ → Dict String Bucket → Bool × (ℕ × Dict String Bucket)
rate_limit max_req ip now counter d =
    let bucket = keep (recent now) (or_empty (lookup ip d)) in
    if leb max_req (length bucket)
    then (false, (counter, insert ip bucket d))
    else (true, collect now (counter + 1) (insert ip (bucket ++ now ∷ []) d))

pub record Limits : Type 0 where
  pub counter : ℕ
  pub write_buckets : Dict String Bucket
  pub read_buckets : Dict String Bucket

unfoldable pub check_write_rate : String → ℕ → Limits → Bool × Limits
check_write_rate ip now l =
    let (ok, (counter, d)) = rate_limit write_max ip now l.counter l.write_buckets in
    (ok, record { counter = counter; write_buckets = d; read_buckets = l.read_buckets })

unfoldable pub check_read_rate : String → ℕ → Limits → Bool × Limits
check_read_rate ip now l =
    let (ok, (counter, d)) = rate_limit read_max ip now l.counter l.read_buckets in
    (ok, record { counter = counter; write_buckets = l.write_buckets; read_buckets = d })

-- Requests one after another, each to a write or a read endpoint.
pub data Request : Type 0 where
  writing : String → ℕ → Request
  reading : String → ℕ → Request

unfoldable pub serve : List Request → Limits → Limits
unfolding check_write_rate check_read_rate
serve [] l = l
serve (writing ip now ∷ requests) l = serve requests (check_write_rate ip now l).1
serve (reading ip now ∷ requests) l = serve requests (check_read_rate ip now l).1
