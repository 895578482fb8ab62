-- ===== src/Dashboard/RuleStore.antt =====
-- Where the custom rules are: the list of api/dashboard.py, its file, and the dict RULES of
-- agent/detections/registry.py, which is built again from a file at each change. The two programs
-- look for the file on their own. The packaged rules are parsed by a YAML library, so the dict of
-- them is a value. A file is its list of rules; one that no JSON is written to does not occur,
-- and a file has one name.
use tinysocs.Prelude.Core.{
  Bool, true, false, not, ◌&&◌, ◌||◌, Option, none, some, List, [], ◌∷◌, if◌then◌else◌,
}
use tinysocs.Prelude.Dict.{Dict, lookup, insert}
use tinysocs.Prelude.Int.{ℤ}
use tinysocs.Prelude.Text.{Text, text_eq}

pub record CustomRule : Type 0 where
  pub id : Text
  pub description : Text
  pub index : Text
  pub time_field : Text
  pub kql : Text
  pub group_by : List Text
  pub threshold : ℤ
  pub severity : Text
  pub category : Text
  pub enabled : Bool
  pub source : Text
  pub created_at : Text
  pub updated_at : Option Text

-- A rule of the engine.
pub record Rule : Type 0 where
  pub id : Text
  pub description : Text
  pub index : Text
  pub time_field : Text
  pub kql : Text
  pub group_by : List Text
  pub threshold : ℤ
  pub severity : Text
  pub category : Text

-- The list in memory; the file that the dashboard chose and all such files; the places where the
-- registry looks: TINYSOCS_CUSTOM_RULES, the file under PROGRAMDATA ("" for a variable that is not
-- set) and the one in the working directory; the packaged rules; and RULES.
pub record Rules : Type 0 where
  pub custom : List CustomRule
  pub path : Text
  pub files : Dict Text (List CustomRule)
  pub custom_env : Text
  pub program_data_file : Text
  pub cwd_file : Text
  pub builtin : Dict Text Rule
  pub registry : Dict Text Rule

abbrev pub is_empty : Text → Bool
is_empty [] = true
is_empty (c ∷ s) = false

abbrev is_some {ℓ} : {A : Type ℓ} → Option A → Bool
is_some none = false
is_some (some a) = true

unfoldable pub is_file : Text → Dict Text (List CustomRule) → Bool
is_file path files = not (is_empty path) && is_some (lookup path files)

-- `_resolve_custom_rules_path`
abbrev pub resolve_custom_rules_path : Rules → Option Text
resolve_custom_rules_path s =
    if is_file s.custom_env s.files
    then some s.custom_env
    else if is_file s.program_data_file s.files
    then some s.program_data_file
    else if is_file s.cwd_file s.files
    then some s.cwd_file
    else none

abbrev pub rule_of : CustomRule → Rule
rule_of r = record {
  id = r.id;
  description = r.description;
  index = r.index;
  time_field = r.time_field;
  kql = r.kql;
  group_by = r.group_by;
  threshold = r.threshold;
  severity = r.severity;
  category = r.category;
}

abbrev pub merge_one : CustomRule → Dict Text Rule → Dict Text Rule
merge_one r rules = if is_empty r.id || not r.enabled then rules else insert r.id (rule_of r) rules

-- `load_custom_rules`, onto the rules before it: a later rule with an identifier wins.
unfoldable pub merge_custom : List CustomRule → Dict Text Rule → Dict Text Rule
merge_custom [] rules = rules
merge_custom (r ∷ custom) rules = merge_custom custom (merge_one r rules)

abbrev or_no_rules : Option (List CustomRule) → List CustomRule
or_no_rules none = []
or_no_rules (some rules) = rules

abbrev pub rules_at : Option Text → Dict Text (List CustomRule) → List CustomRule
rules_at none files = []
rules_at (some path) files = or_no_rules (lookup path files)

-- The packaged rules and the custom rules that the registry finds.
unfoldable pub reload_rules : Rules → Dict Text Rule
reload_rules s = merge_custom (rules_at (resolve_custom_rules_path s) s.files) s.builtin

unfoldable pub get_rule : Text → Rules → Option Rule
get_rule rule_id s = lookup rule_id s.registry

abbrev written : Bool → List CustomRule → Rules → Rules
written writes rules s = record s {
  custom = rules;
  files = if writes then insert s.path rules s.files else s.files;
}

-- The write of the file may fail, which is passed over; the registry is told in any case.
abbrev pub save_custom_rules : Bool → List CustomRule → Rules → Rules
save_custom_rules writes rules s =
    let s' = written writes rules s in record s' { registry = reload_rules s' }
