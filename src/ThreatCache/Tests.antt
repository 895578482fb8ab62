-- ===== src/ThreatCache/Tests.antt =====
-- The cache on concrete tables.
use tinysocs.Prelude.Core.{◌≡◌, refl, true, false, String, none, some, List, [], ◌∷◌, arith}
use tinysocs.Prelude.Equality.{string_eq}
use tinysocs.Prelude.Dict.{values}
use tinysocs.ThreatCache.{
  Key, Row, Table, new_row, max_entries, get, put, find, stats, CacheStats, cleanup_expired,
  Command, getting, putting, cleaning, clearing, run,
}
use tinysocs.ThreatCache.Laws.{get-put}

abbrev address : Key
address = record { ioc_type = "ip"; ioc_value = "203.0.113.7"; provider = "abuseipdb" }

abbrev other : Key
other = record { ioc_type = "ip"; ioc_value = "203.0.113.8"; provider = "otx" }

abbrev two_rows : Table
two_rows = new_row address "{}" 1000000 60 ∷ new_row other "[]" 2000000 5 ∷ []

get-put_example :
    (get some some true address 9000000 (put some some true address "{1}" 60 3000000 two_rows)).0
    ≡ some "{1}"
get-put_example =
    get-put some some address "{1}" "{1}" "{1}" 60 3000000 9000000 two_rows refl refl
      (omega arith, (omega arith, tt)) (omega arith) (omega arith)

served : (get {V = String} some some true other 5000000 two_rows).0 ≡ some "[]"
unfolding get find tinysocs.ThreatCache.matches string_eq
served = refl

-- The TTL of five seconds is over.
not_served : (get {V = String} some some true other 7000001 two_rows).0 ≡ none
unfolding get find tinysocs.ThreatCache.matches string_eq
not_served = refl

abbrev some_commands : List (Command String)
some_commands =
    putting true address "{1}" 60 3000000
    ∷ getting true other 9000000
    ∷ cleaning true 9000000
    ∷ putting false other "{}" 5 9000000
    ∷ []

abbrev two_stats : CacheStats
two_stats = record {
  total_entries = 2;
  valid_entries = 1;
  expired_entries = 1;
  by_provider = ("abuseipdb", 1) ∷ [];
}

stats_run : stats true 7000001 two_rows ≡ some two_stats
unfolding stats tinysocs.ThreatCache.group_by_provider tinysocs.Prelude.Dict.insert
    tinysocs.Prelude.Dict.lookup
stats_run = refl
