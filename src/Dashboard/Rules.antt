-- ===== src/Dashboard/Rules.antt =====
-- The creation and the upload of custom rules in api/dashboard.py. The values of a rule are texts,
-- but for those that the code uses otherwise; a value that is absent is none. The check of a query
-- by OpenSearch is a parameter.
use tinysocs.Prelude.Core.{
  ℕ, Bool, true, false, not, ◌&&◌, ◌||◌, Option, none, some, List, [], ◌∷◌, ◌++◌, String, map,
  if◌then◌else◌,
}
use tinysocs.Prelude.Equality.{◌==◌, contains}
use tinysocs.Prelude.Dict.{keys}
use tinysocs.Prelude.Int.{ℤ, pos}
use tinysocs.Prelude.Strings.{codes}
use tinysocs.Prelude.Text.{Text, text_eq, strip, lower}
use tinysocs.Dashboard.RuleStore.{CustomRule, Rules, is_empty, save_custom_rules}

-- A rule as it is sent. `threshold` is `some none` where `int()` raises on the value.
pub record Given : Type 0 where
  pub id : Option Text
  pub description : Option Text
  pub index : Option Text
  pub time_field : Option Text
  pub kql : Option Text
  pub group_by : Option (List Text)
  pub threshold : Option (Option ℤ)
  pub severity : Option Text
  pub category : Option Text
  pub enabled : Option Bool

pub data Outcome : Type 0 where
  created : CustomRule → Outcome
  done : Text → Outcome
  added : List Text → Outcome
  failed : ℕ → String → Outcome

abbrev pub given : Option Text → Text → Text
given none default = default
given (some s) default = s

abbrev pub given_bool : Option Bool → Bool
given_bool none = true
given_bool (some b) = b

abbrev pub given_threshold : Option (Option ℤ) → Option ℤ
given_threshold none = some (pos 1)
given_threshold (some t) = t

abbrev pub given_group : Option (List Text) → List Text
given_group none = codes "host.name" ∷ []
given_group (some g) = g

abbrev pub ids : List CustomRule → List Text
ids rules = map (λ r. r.id) rules

abbrev pub clean_index : Given → Text
clean_index g = strip (given g.index (codes "tinysocs-winlog-*"))

abbrev pub clean_rule : Text → Text → ℤ → Text → Text → Given → CustomRule
clean_rule rule_id kql threshold source now_iso g = record {
  id = rule_id;
  description = strip (given g.description []);
  index = clean_index g;
  time_field = strip (given g.time_field (codes "@timestamp"));
  kql = kql;
  group_by = given_group g.group_by;
  threshold = threshold;
  severity = lower (given g.severity (codes "medium"));
  category = lower (given g.category (codes "custom"));
  enabled = given_bool g.enabled;
  source = source;
  created_at = now_iso;
  updated_at = none;
}

abbrev pub is_given : Option Text → Bool
is_given none = false
is_given (some s) = true

-- None of the required fields is missing.
abbrev pub is_complete : Given → Bool
is_complete g = is_given g.id && (is_given g.description && (is_given g.kql && is_given g.severity))

-- `int()` raises before the rule is stored.
abbrev pub store_rule : Option ℤ → Bool → Text → Text → Text → Given → Rules → Outcome × Rules
store_rule none writes rule_id kql now_iso g s = (failed 500 "Internal Server Error", s)
store_rule (some t) writes rule_id kql now_iso g s =
    let clean = clean_rule rule_id kql t (codes "custom") now_iso g in
    (created clean, save_custom_rules writes (s.custom ++ clean ∷ []) s)

unfoldable pub api_rules_create :
    (Text → Text → Bool) → Bool → Bool → Text → Given → Rules → Outcome × Rules
api_rules_create is_valid skip_validation writes now_iso g s =
    let rule_id = strip (given g.id []) in
    let kql = strip (given g.kql []) in
    if not (is_complete g)
    then (failed 400 "Missing required fields", s)
    else if rule_id == []
    then (failed 400 "Rule ID cannot be empty", s)
    else if contains (ids s.custom) rule_id
    then (failed 409 "Custom rule already exists", s)
    else if contains (keys s.builtin) rule_id
    then (failed 409 "Rule ID conflicts with a built-in rule", s)
    else if not skip_validation && not (is_valid kql (clean_index g))
    then (failed 422 "KQL validation failed", s)
    else store_rule (given_threshold g.threshold) writes rule_id kql now_iso g s

-- Whether an uploaded rule is skipped, with the identifiers that are taken.
abbrev pub is_skipped : List Text → List Text → Given → Bool
is_skipped existing builtin g =
    let rid = strip (given g.id []) in
    is_empty (given g.id [])
    || (contains existing rid || (contains builtin rid || is_empty (given g.kql [])))

-- The rules of a pack in their order; the flag is false if `int()` raised, which stops the loop.
unfoldable pub upload_all :
    List Text
    → Text
    → Text
    → List Given
    → List Text
    → List CustomRule
    → (Bool × List Text) × List CustomRule
upload_all builtin source now_iso [] existing custom = ((true, []), custom)
upload_all builtin source now_iso (g ∷ gs) existing custom =
    let rid = strip (given g.id []) in
    let skipped = upload_all builtin source now_iso gs existing custom in
    let stored : ℤ → (Bool × List Text) × List CustomRule = λ t.
      let clean = clean_rule rid (strip (given g.kql [])) t source now_iso g in
      let ((fine, added_ids), rules) =
        upload_all builtin source now_iso gs (rid ∷ existing) (custom ++ clean ∷ []) in
      ((fine, rid ∷ added_ids), rules) in
    if is_skipped existing builtin g
    then skipped
    else elim (given_threshold g.threshold) [ none ↦ ((false, []), custom) | some t ↦ stored t ]

abbrev pub finish_upload : Bool → (Bool × List Text) × List CustomRule → Rules → Outcome × Rules
finish_upload writes ((false, added_ids), rules) s =
    (failed 500 "Internal Server Error", record s { custom = rules })
finish_upload writes ((true, added_ids), rules) s =
    (added added_ids, save_custom_rules writes rules s)

-- `rules` is the list of dicts that the content was parsed to.
unfoldable pub api_rules_upload : Bool → Text → Text → List Given → Rules → Outcome × Rules
api_rules_upload writes pack_name now_iso rules s =
    finish_upload writes
      (upload_all (keys s.builtin) pack_name now_iso rules (ids s.custom) s.custom) s
