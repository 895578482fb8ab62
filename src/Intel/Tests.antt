-- ===== src/Intel/Tests.antt =====
-- The providers and the threat level on concrete data.
use tinysocs.Prelude.Core.{
  max, ◌≡◌, refl, true, false, Bool, ℕ, String, Option, none, some, List, [], ◌∷◌, ◌++◌,
  if◌then◌else◌,
}
use tinysocs.Prelude.Equality.{◌==◌, string_eq}
use tinysocs.Prelude.Dict.{lookup}
use tinysocs.Prelude.Int.{pos, negsuc}
use tinysocs.Prelude.Strings.{codes}
use tinysocs.Engine.Document.{text, object, Fields, field, end}
use tinysocs.Intel.Alert.{extract_hashes, is_hash}
use tinysocs.Prelude.Text.{Text, text_eq}
use tinysocs.Intel.{
  Report, Level, low, medium, high, no_threat, max_of, compute_threat_level, Usage, Reply, raised,
  silent, replied, fresh, enrich_ioc,
}
use tinysocs.Intel.Levels.{rank, compute_threat_level-append}
use tinysocs.Intel.Quota.{lookups}
use tinysocs.Intel.Enrich.{cached, or_else, lookup-enrich_ioc}

abbrev scored : ℕ → Report
scored n = record {
  usable = true;
  score = some (pos n);
  classification = codes "unknown";
  pulses = none;
  reputation = none;
}

abbrev noisy : Report
noisy = record (scored 0) { classification = codes "Malicious" }

-- A score of 25 is still low.
level_25 : compute_threat_level (("abuseipdb", scored 25) ∷ []) ≡ low
unfolding compute_threat_level tinysocs.Intel.scan tinysocs.Prelude.Text.text_eq
    tinysocs.Prelude.Text.lower
level_25 = refl

level_26 : compute_threat_level (("abuseipdb", scored 26) ∷ []) ≡ medium
unfolding compute_threat_level tinysocs.Intel.scan tinysocs.Prelude.Text.text_eq
    tinysocs.Prelude.Text.lower
level_26 = refl

level_malicious : compute_threat_level (("greynoise", noisy) ∷ []) ≡ high
unfolding compute_threat_level tinysocs.Intel.scan tinysocs.Prelude.Text.text_eq
    tinysocs.Prelude.Text.lower
level_malicious = refl

level_reputation :
    compute_threat_level (("otx", record (scored 0) { reputation = some (negsuc 1) }) ∷ []) ≡ medium
unfolding compute_threat_level tinysocs.Intel.scan tinysocs.Prelude.Text.text_eq
    tinysocs.Prelude.Text.lower
level_reputation = refl

compute_threat_level-append_example :
    rank (compute_threat_level ((("a", scored 30) ∷ []) ++ (("b", noisy) ∷ [])))
    ≡ max
        (rank (compute_threat_level (("a", scored 30) ∷ [])))
        (rank (compute_threat_level (("b", noisy) ∷ [])))
compute_threat_level-append_example =
    compute_threat_level-append (("a", scored 30) ∷ []) (("b", noisy) ∷ [])

abbrev new_usage : Usage
new_usage = record { call_timestamps = []; rate_limit = 2 }

abbrev some_calls : List (Bool × ℕ)
some_calls = (true, 5) ∷ (true, 6) ∷ (true, 7) ∷ (true, 86400000005) ∷ []

third_lookup_waits : (lookups some_calls new_usage).0 ≡ 5 ∷ 6 ∷ 86400000005 ∷ []
unfolding lookups tinysocs.Intel.start_lookup tinysocs.Intel.quota_remaining
    tinysocs.Intel.record_call
third_lookup_waits = refl

-- Only one report can be stored here.
abbrev dump : Report → Option String
dump r = some "thirty"

abbrev load : String → Option Report
load s = some (scored 30)

abbrev ask : String → Reply
ask p = if p == "otx" then raised else replied false (scored 90)

lookup-enrich_ioc_example :
    lookup "greynoise"
      (enrich_ioc dump load "ip" "1.2.3.4" true ask 5 6 ("otx" ∷ "greynoise" ∷ []) []).0.results
    ≡ or_else (cached dump load "ip" "1.2.3.4" true 5 "greynoise" []) (fresh (ask "greynoise"))
unfolding string_eq
lookup-enrich_ioc_example =
    lookup-enrich_ioc dump load "ip" "1.2.3.4" true ask 5 6 ("otx" ∷ "greynoise" ∷ []) [] refl
      "greynoise" refl

abbrev sysmon_hash : Text
sysmon_hash = codes "MD5=0123456789ABCDEF0123456789abcdef,IMPHASH=0"

-- Of the list of hashes that Sysmon writes, those of a known length.
hashes_of_sysmon :
    extract_hashes
      (field (codes "body") (object (field (codes "Hashes") (text sysmon_hash) end)) end)
    ≡ codes "0123456789abcdef0123456789abcdef" ∷ []
unfolding extract_hashes tinysocs.Intel.Alert.add_values tinysocs.Intel.Alert.parts_of
    tinysocs.Engine.Document.find_field text_eq tinysocs.Prelude.Text.split_on
    tinysocs.Prelude.Text.strip tinysocs.Intel.Alert.after_equals tinysocs.Prelude.Equality.nat_eq
    is_hash tinysocs.Intel.Alert.all_hex tinysocs.Engine.Document.extract_parts
    tinysocs.Prelude.Text.lower
hashes_of_sysmon = refl
