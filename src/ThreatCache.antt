-- ===== src/ThreatCache.antt =====
-- agent/threat_cache.py (src/tinysocs): the TTL cache of threat intelligence answers. The SQLite
-- table is the list of its rows, whose order no caller sees. Times are whole microseconds, and a
-- TTL is a number of whole seconds. `opens` is false when SQLite raises on the connection.
pub mod Rows
pub mod Laws
pub mod Stats
pub mod Tests
use tinysocs.Prelude.Core.{
  ℕ, ◌+◌, ◌-◌, ◌*◌, Bool, true, false, not, ◌&&◌, String, Option, none, some, List, [], ◌∷◌, ◌++◌,
  ltb, leb, if◌then◌else◌,
}
use tinysocs.Prelude.Equality.{◌==◌, string_eq}
use tinysocs.Prelude.Lists.{length, keep, drop}
use tinysocs.Prelude.Sort.{sort}
use tinysocs.Prelude.Dict.{Dict, lookup, insert}

pub record Key : Type 0 where
  pub ioc_type : String
  pub ioc_value : String
  pub provider : String

pub record Row : Type 0 where
  pub key : Key
  pub result_json : String
  pub cached_at : ℕ
  pub ttl_seconds : ℕ

abbrev pub new_row : Key → String → ℕ → ℕ → Row
new_row k text now ttl = record { key = k; result_json = text; cached_at = now; ttl_seconds = ttl }

abbrev pub Table : Type 0
Table = List Row

abbrev pub max_entries : ℕ
max_entries = 100000

abbrev pub micros : ℕ
micros = 1000000

-- `WHERE ioc_type = ? AND ioc_value = ? AND provider = ?`
unfoldable pub matches : Key → Row → Bool
matches k r =
    k.ioc_type == r.key.ioc_type && (k.ioc_value == r.key.ioc_value && k.provider == r.key.provider)

unfoldable pub find : Key → Table → Option Row
find k [] = none
find k (r ∷ rs) = if matches k r then some r else find k rs

unfoldable pub delete : Key → Table → Table
delete k rs = keep (λ r. not (matches k r)) rs

-- `time.time() - cached_at > ttl`; a clock that was set back makes no row expire.
abbrev pub expired : ℕ → Row → Bool
expired now r = ltb (r.ttl_seconds * micros) (now - r.cached_at)

-- `(cached_at + ttl_seconds) < now`
abbrev pub lapsed : ℕ → Row → Bool
lapsed now r = ltb (r.cached_at + r.ttl_seconds * micros) now

abbrev pub older : Row → Row → Bool
older a b = leb a.cached_at b.cached_at

-- `DELETE ... ORDER BY cached_at ASC LIMIT excess`; SQLite is free to order rows of one time.
unfoldable pub maybe_evict : Table → Table
maybe_evict rs =
    if ltb max_entries (length rs)
    then drop (length rs - max_entries + 1000) (sort older rs)
    else rs

-- What `json.dumps(..., default=str)` and `json.loads` do; none is an exception.
module _ {ℓ} {V : Type ℓ} (dumps : V → Option String) (loads : String → Option V) where
  abbrev read_row : Key → ℕ → Table → Option Row → Option V × Table
  read_row k now rs none = (none, rs)
  read_row k now rs (some r) =
      if expired now r then (none, delete k rs) else (loads r.result_json, rs)

  unfoldable pub get : Bool → Key → ℕ → Table → Option V × Table
  get opens k now rs = if opens then read_row k now rs (find k rs) else (none, rs)

  abbrev store_row : Key → ℕ → ℕ → Table → Option String → Table
  store_row k ttl now rs none = rs
  store_row k ttl now rs (some text) = maybe_evict (delete k rs ++ new_row k text now ttl ∷ [])

  -- `INSERT OR REPLACE`: the row of the key goes, and the new row comes last.
  unfoldable pub put : Bool → Key → V → ℕ → ℕ → Table → Table
  put opens k v ttl now rs = if opens then store_row k ttl now rs (dumps v) else rs

-- The number of rows removed, and the table.
unfoldable pub cleanup_expired : Bool → ℕ → Table → ℕ × Table
cleanup_expired opens now rs =
    if opens then (length (keep (lapsed now) rs), keep (λ r. not (lapsed now r)) rs) else (0, rs)

pub record CacheStats : Type 0 where
  pub total_entries : ℕ
  pub valid_entries : ℕ
  pub expired_entries : ℕ
  pub by_provider : Dict String ℕ

abbrev bump : Option ℕ → ℕ
bump none = 1
bump (some n) = n + 1

-- `SELECT provider, COUNT(*) ... GROUP BY provider`
unfoldable pub group_by_provider : Table → Dict String ℕ
group_by_provider [] = []
group_by_provider (r ∷ rs) =
    let groups = group_by_provider rs in
    insert r.key.provider (bump (lookup r.key.provider groups)) groups

-- none is the answer with the error.
unfoldable pub stats : Bool → ℕ → Table → Option CacheStats
stats opens now rs =
    let valid = keep (λ r. not (lapsed now r)) rs in
    if opens
    then some (record {
      total_entries = length rs;
      valid_entries = length valid;
      expired_entries = length rs - length valid;
      by_provider = group_by_provider valid;
    })
    else none

unfoldable pub clear : Bool → Table → Table
clear opens rs = if opens then [] else rs

-- The calls that a caller makes, one after another: each holds the cache's lock throughout.
pub data Command {ℓ} (V : Type ℓ) : Type ℓ where
  getting : Bool → Key → ℕ → Command V
  putting : Bool → Key → V → ℕ → ℕ → Command V
  cleaning : Bool → ℕ → Command V
  clearing : Bool → Command V

module _ {ℓ} {V : Type ℓ} (dumps : V → Option String) (loads : String → Option V) where
  unfoldable pub perform : Command V → Table → Table
  unfolding get put cleanup_expired clear
  perform (getting opens k now) rs = (get dumps loads opens k now rs).1
  perform (putting opens k v ttl now) rs = put dumps loads opens k v ttl now rs
  perform (cleaning opens now) rs = (cleanup_expired opens now rs).1
  perform (clearing opens) rs = clear opens rs

  unfoldable pub run : List (Command V) → Table → Table
  unfolding perform
  run [] rs = rs
  run (c ∷ commands) rs = run commands (perform c rs)
