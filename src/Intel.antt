-- ===== src/Intel.antt =====
-- agent/threat_intel.py (src/tinysocs): the quota of a provider, the threat level of the providers'
-- answers, and the enrichment of one indicator with the cache of agent/threat_cache.py. The web
-- requests are parameters. Times are whole microseconds, numbers of an answer whole. One value says
-- whether the cache opens during an enrichment, one time stands for its reads and one for its writes.
pub mod Levels
pub mod Quota
pub mod Enrich
pub mod Alert
pub mod AlertLevel
pub mod Tests
use tinysocs.Prelude.Core.{
  ℕ, ◌+◌, ◌-◌, Bool, true, false, not, ◌&&◌, ◌||◌, String, Option, none, some, List, [], ◌∷◌, ◌++◌,
  ltb, if◌then◌else◌,
}
use tinysocs.Prelude.Equality.{◌==◌, string_eq}
use tinysocs.Prelude.Lists.{length, keep}
use tinysocs.Prelude.Dict.{Dict, lookup, insert}
use tinysocs.Prelude.Int.{ℤ, pos, negsuc}
use tinysocs.Prelude.Strings.{codes}
use tinysocs.Prelude.Text.{Text, text_eq, lower}
use tinysocs.ThreatCache.{Key, Table, get, put}

-- The values of an answer that the threat level reads; none is a value that is not a number.
-- `usable` is false for an empty answer and for one with an error.
pub record Report : Type 0 where
  pub usable : Bool
  pub score : Option ℤ
  pub classification : Text
  pub pulses : Option ℤ
  pub reputation : Option ℤ

pub data Level : Type 0 where
  no_threat low medium high : Level

-- `max(max_score, score)` for a `max_score` that is never negative
abbrev pub raise_to : ℕ → Option ℤ → ℕ
raise_to m none = m
raise_to m (some (negsuc n)) = m
raise_to m (some (pos n)) = if ltb m n then n else m

abbrev pub is_above : ℕ → Option ℤ → Bool
is_above bound none = false
is_above bound (some (negsuc n)) = false
is_above bound (some (pos n)) = ltb bound n

-- `rep < -1`
abbrev pub is_bad : Option ℤ → Bool
is_bad none = false
is_bad (some (pos n)) = false
is_bad (some (negsuc n)) = ltb 0 n

abbrev pub max_of : ℕ → ℕ → ℕ
max_of m n = if ltb m n then n else m

abbrev pub is_malicious : Report → Bool
is_malicious r = lower r.classification == codes "malicious"

-- The score after one answer.
abbrev pub add_score : Report → ℕ → ℕ
add_score r m =
    let scored = raise_to m r.score in
    let pulsed = if is_above 5 r.pulses then max_of scored 50 else scored in
    if is_bad r.reputation then max_of pulsed 60 else pulsed

-- The loop: the highest score, and whether an answer says that the indicator is malicious.
unfoldable pub scan : Dict String Report → ℕ × Bool → ℕ × Bool
scan [] state = state
scan ((provider, r) ∷ results) (m, malicious) =
    scan results (if r.usable then (add_score r m, malicious || is_malicious r) else (m, malicious))

abbrev pub level_of : ℕ × Bool → Level
level_of (m, malicious) =
    if malicious || ltb 75 m
    then high
    else if ltb 25 m
    then medium
    else if ltb 0 m
    then low
    else no_threat

unfoldable pub compute_threat_level : Dict String Report → Level
compute_threat_level results = level_of (scan results (0, false))

abbrev pub rate_window : ℕ
rate_window = 86400000000

-- The calls of a provider that it has noted, and its limit.
pub record Usage : Type 0 where
  pub call_timestamps : List ℕ
  pub rate_limit : ℕ

abbrev pub is_recent : ℕ → ℕ → Bool
is_recent now t = ltb now (t + rate_window)

unfoldable pub quota_remaining : ℕ → Usage → ℕ
quota_remaining now u = u.rate_limit - length (keep (is_recent now) u.call_timestamps)

abbrev pub is_available : Bool → ℕ → Usage → Bool
is_available configured now u = configured && ltb 0 (quota_remaining now u)

-- The new time is noted, then the old ones go.
unfoldable pub record_call : ℕ → Usage → Usage
record_call now u = record u {
  call_timestamps = keep (is_recent now) (u.call_timestamps ++ now ∷ []);
}

-- The start of each lookup of a provider: whether it makes its web request.
unfoldable pub start_lookup : Bool → ℕ → Usage → Bool × Usage
start_lookup configured now u =
    if is_available configured now u then (true, record_call now u) else (false, u)

-- What a provider's lookup gives: it raises or takes too long, it gives nothing, or an answer that
-- has an error or not.
pub data Reply : Type 0 where
  raised silent : Reply
  replied : Bool → Report → Reply

abbrev pub fresh : Reply → Option Report
fresh raised = none
fresh silent = none
fresh (replied true r) = none
fresh (replied false r) = some r

abbrev pub key_for : String → String → String → Key
key_for ioc_type ioc_value p = record { ioc_type = ioc_type; ioc_value = ioc_value; provider = p }

abbrev pub ttl_of : String → ℕ
ttl_of ioc_type = if ioc_type == "ip" then 86400 else 604800

abbrev pub is_known : String → Bool
is_known ioc_type = ioc_type == "ip" || (ioc_type == "domain" || ioc_type == "hash")

abbrev pub is_given : Option Report → Bool
is_given none = false
is_given (some r) = true

abbrev pub note : String → Option Report → Dict String Report → Dict String Report
note p none results = results
note p (some r) results = insert p r results

pub record Composite : Type 0 where
  pub results : Dict String Report
  pub threat_level : Level

abbrev pub composite : Dict String Report → Composite
composite results = record { results = results; threat_level = compute_threat_level results }

module _ (dumps : Report → Option String) (loads : String → Option Report)
    (ioc_type ioc_value : String) (opens : Bool) where
  unfoldable pub read_cache :
      ℕ → List String → Dict String Report → Table → Dict String Report × Table
  read_cache now [] results rows = (results, rows)
  read_cache now (p ∷ providers) results rows =
      let (cached, next) = get dumps loads opens (key_for ioc_type ioc_value p) now rows in
      read_cache now providers (note p cached results) next

  abbrev pub put_if : ℕ → String → Option Report → Table → Table
  put_if now p none rows = rows
  put_if now p (some r) rows =
      put dumps loads opens (key_for ioc_type ioc_value p) r (ttl_of ioc_type) now rows

  unfoldable pub store_replies :
      (String → Reply) → ℕ → List String → Dict String Report → Table → Dict String Report × Table
  store_replies ask now [] results rows = (results, rows)
  store_replies ask now (p ∷ providers) results rows =
      store_replies ask now providers (note p (fresh (ask p)) results)
        (put_if now p (fresh (ask p)) rows)

  -- `[p for p in providers if p.name not in composite.results]`
  abbrev pub uncached : Dict String Report → List String → List String
  uncached results providers = keep (λ p. not (is_given (lookup p results))) providers

  -- The live lookups, of the kinds of indicator that have one.
  abbrev pub look_up :
      (String → Reply) → ℕ → List String → Dict String Report × Table → Dict String Report × Table
  look_up ask now providers (results, rows) =
      if is_known ioc_type
      then store_replies ask now (uncached results providers) results rows
      else (results, rows)

  unfoldable pub enrich_ioc : (String → Reply) → ℕ → ℕ → List String → Table → Composite × Table
  enrich_ioc ask now later providers rows =
      let (results, next) = look_up ask later providers (read_cache now providers [] rows) in
      (composite results, next)
