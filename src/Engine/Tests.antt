-- ===== src/Engine/Tests.antt =====
-- The detections on concrete documents.
use tinysocs.Prelude.Core.{◌≡◌, refl, true, String, none, some, List, [], ◌∷◌, map}
use tinysocs.Prelude.Dict.{Dict, lookup}
use tinysocs.Prelude.Int.{pos}
use tinysocs.Prelude.Strings.{codes}
use tinysocs.Prelude.Text.{Text, text_eq}
use tinysocs.Engine.Document.{
  Value, null, text, flag, number, fraction, items, item, no_items, object, Fields, end, field,
  values_eq, extract,
}
use tinysocs.Engine.Run.{
  normalize_ip, evidence, Shown, value, hits, Rule, Finding, matched, Sample, key_for, buckets,
  run_rule, run_detections,
}
use tinysocs.Engine.Buckets.{Reports, run_rule-threshold}

abbrev show_dict : Value → Text
show_dict v = codes "{}"

abbrev no_name : Value → Value
no_name ip = null

abbrev from_ip : String → Fields
from_ip ip =
    field (codes "source") (object (field (codes "ip") (text (codes ip)) end))
      (field (codes "user") (object (field (codes "name") (text (codes "eve")) end)) end)

abbrev burst : Rule
burst = record {
  id = codes "burst";
  description = codes "d";
  index = codes "i";
  kql = codes "q";
  threshold = some (pos 2);
  group_by = none;
}

abbrev some_hits : List Fields
some_hits = from_ip "::1" ∷ from_ip "9.9.9.9" ∷ from_ip "127.0.0.1" ∷ []

abbrev local_key : List Value
local_key = text (codes "127.0.0.1") ∷ text (codes "eve") ∷ []

extract_nested : extract (from_ip "a") (codes "source.ip") ≡ text (codes "a")
unfolding tinysocs.Engine.Document.extract_parts tinysocs.Prelude.Text.split_on
    tinysocs.Engine.Document.find_field text_eq
extract_nested = refl

extract_missing : extract (from_ip "a") (codes "user.name.first") ≡ null
unfolding tinysocs.Engine.Document.extract_parts tinysocs.Prelude.Text.split_on
    tinysocs.Engine.Document.find_field text_eq
extract_missing = refl

-- The two spellings of the loopback address are one bucket.
bucket_of_loopbacks :
    buckets (pos 2) (
      map
        (λ doc. key_for show_dict no_name (codes "source.ip" ∷ codes "user.name" ∷ []) doc)
        some_hits)
    ≡ (local_key, (local_key, 2)) ∷ []
unfolding buckets tinysocs.Prelude.Dict.drop_if tinysocs.Engine.Run.counter
    tinysocs.Prelude.Dict.insert values_eq tinysocs.Engine.Document.ends_with text_eq normalize_ip
    tinysocs.Engine.Document.extract_parts tinysocs.Prelude.Text.split_on
    tinysocs.Engine.Document.find_field tinysocs.Prelude.Text.strip lookup
bucket_of_loopbacks = refl

-- True, 1 and 1.0 are equal as keys, and the first of them is reported.
bucket_of_equals :
    buckets
      (pos 2)
      ((flag true ∷ []) ∷ (number (pos 1) ∷ []) ∷ (fraction (some (pos 1)) (codes "1.0") ∷ []) ∷ [])
    ≡ (number (pos 1) ∷ [], (flag true ∷ [], 3)) ∷ []
unfolding buckets tinysocs.Prelude.Dict.drop_if tinysocs.Engine.Run.counter
    tinysocs.Prelude.Dict.insert values_eq tinysocs.Prelude.Json.int_eq
    native.Mathlib.Decide.ℕ_discrete lookup
bucket_of_equals = refl

-- A list in a group field has no hash.
run_rule_raises :
    run_rule show_dict no_name
      (record burst { group_by = some (codes "tags" ∷ []) })
      (some (pos 1))
      (field (codes "tags") (items (item (text (codes "a")) no_items)) end ∷ [])
    ≡ none
unfolding run_rule tinysocs.Prelude.Json.int_eq native.Mathlib.Decide.ℕ_discrete
    tinysocs.Engine.Document.all_hashable tinysocs.Engine.Document.is_hashable
    tinysocs.Engine.Document.ends_with text_eq tinysocs.Engine.Document.extract_parts
    tinysocs.Prelude.Text.split_on tinysocs.Engine.Document.find_field
run_rule_raises = refl

evidence_local :
    evidence show_dict no_name (codes "source.ip" ∷ codes "user.name" ∷ []) local_key 2
    ≡ (codes "ip", value (text (codes "127.0.0.1")))
      ∷ (codes "user", value (text (codes "eve")))
      ∷ (codes "ip_rdns", value null)
      ∷ (codes "count", hits 2)
      ∷ []
unfolding evidence tinysocs.Prelude.Dict.insert tinysocs.Engine.Run.add_fields text_eq
evidence_local = refl

-- The process of a hit is a text, which has no `get`.
run_detections_raises :
    run_detections show_dict no_name
      (λ index kql. field (codes "process") (text (codes "cmd.exe")) end ∷ [])
      (record burst { threshold = none } ∷ [])
    ≡ none
unfolding run_detections run_rule tinysocs.Engine.Run.sample_all tinysocs.Engine.Document.find_field
    text_eq
run_detections_raises = refl

run_detections_lists :
    run_detections show_dict no_name
      (λ index kql. end ∷ [])
      (record burst { threshold = some (pos 0) } ∷ [])
    ≡ some (
        matched (codes "burst") (codes "d") 1 (
          record {
            timestamp = text (codes "-");
            process = text (codes "-");
            cmd = text (codes "-");
          }
          ∷ [])
        ∷ [])
unfolding run_detections run_rule tinysocs.Prelude.Json.int_eq native.Mathlib.Decide.ℕ_discrete
    tinysocs.Engine.Run.sample_all tinysocs.Engine.Document.find_field
run_detections_lists = refl

run_rule-threshold_example :
    Reports show_dict no_name burst
      (pos 2)
      some_hits
      (run_rule show_dict no_name burst (some (pos 2)) some_hits)
unfolding tinysocs.Prelude.Json.int_eq native.Mathlib.Decide.ℕ_discrete
    tinysocs.Engine.Document.all_hashable tinysocs.Engine.Document.is_hashable
    tinysocs.Engine.Document.ends_with text_eq normalize_ip tinysocs.Engine.Document.extract_parts
    tinysocs.Prelude.Text.split_on tinysocs.Engine.Document.find_field tinysocs.Prelude.Text.strip
run_rule-threshold_example = run_rule-threshold show_dict no_name burst (pos 2) some_hits refl refl
