-- ===== src/Dashboard/RuleEdits.antt =====
-- The change, deletion and switching of custom rules in api/dashboard.py.
use tinysocs.Prelude.Core.{Bool, true, not, ◌&&◌, Option, none, some, List, [], ◌∷◌, if◌then◌else◌}
use tinysocs.Prelude.Equality.{◌==◌}
use tinysocs.Prelude.Int.{ℤ}
use tinysocs.Prelude.Text.{Text, text_eq, strip}
use tinysocs.Dashboard.Rules.{Outcome, created, done, failed}
use tinysocs.Dashboard.RuleStore.{CustomRule, Rules, save_custom_rules}

-- The fields that an update may set.
pub record Updates : Type 0 where
  pub description : Option Text
  pub kql : Option Text
  pub index : Option Text
  pub time_field : Option Text
  pub severity : Option Text
  pub category : Option Text
  pub threshold : Option ℤ
  pub group_by : Option (List Text)
  pub enabled : Option Bool

abbrev pub set_or {ℓ} : {A : Type ℓ} → Option A → A → A
set_or none old = old
set_or (some new) old = new

abbrev pub updated : Text → Updates → CustomRule → CustomRule
updated now_iso u r = record r {
  description = set_or u.description r.description;
  kql = set_or u.kql r.kql;
  index = set_or u.index r.index;
  time_field = set_or u.time_field r.time_field;
  severity = set_or u.severity r.severity;
  category = set_or u.category r.category;
  threshold = set_or u.threshold r.threshold;
  group_by = set_or u.group_by r.group_by;
  enabled = set_or u.enabled r.enabled;
  updated_at = some now_iso;
}

unfoldable pub find_rule : Text → List CustomRule → Option CustomRule
find_rule rule_id [] = none
find_rule rule_id (r ∷ rules) = if r.id == rule_id then some r else find_rule rule_id rules

-- The first rule with the identifier under a function.
unfoldable pub change_rule : Text → (CustomRule → CustomRule) → List CustomRule → List CustomRule
change_rule rule_id f [] = []
change_rule rule_id f (r ∷ rules) =
    if r.id == rule_id then f r ∷ rules else r ∷ change_rule rule_id f rules

unfoldable pub pop_rule : Text → List CustomRule → List CustomRule
pop_rule rule_id [] = []
pop_rule rule_id (r ∷ rules) = if r.id == rule_id then rules else r ∷ pop_rule rule_id rules

-- The query that an update has to check, if it sets one.
abbrev pub is_valid_update : (Text → Text → Bool) → Option Text → Updates → CustomRule → Bool
is_valid_update is_valid none u r = true
is_valid_update is_valid (some kql) u r = is_valid (strip kql) (strip (set_or u.index r.index))

abbrev pub update_found :
    (Text → Text → Bool)
    → Bool
    → Bool
    → Text
    → Updates
    → Option CustomRule
    → Rules
    → Outcome × Rules
update_found is_valid skip_validation writes now_iso u none s =
    (failed 404 "Custom rule not found", s)
update_found is_valid skip_validation writes now_iso u (some r) s =
    if not skip_validation && not (is_valid_update is_valid u.kql u r)
    then (failed 422 "KQL validation failed", s)
    else (
      created (updated now_iso u r),
      save_custom_rules writes (change_rule r.id (updated now_iso u) s.custom) s,
    )

unfoldable pub api_rules_update :
    (Text → Text → Bool) → Bool → Bool → Text → Text → Updates → Rules → Outcome × Rules
api_rules_update is_valid skip_validation writes now_iso rule_id u s =
    update_found is_valid skip_validation writes now_iso u (find_rule rule_id s.custom) s

abbrev pub delete_found : Bool → Option CustomRule → Rules → Outcome × Rules
delete_found writes none s = (failed 404 "Custom rule not found", s)
delete_found writes (some r) s = (done r.id, save_custom_rules writes (pop_rule r.id s.custom) s)

unfoldable pub api_rules_delete : Bool → Text → Rules → Outcome × Rules
api_rules_delete writes rule_id s = delete_found writes (find_rule rule_id s.custom) s

abbrev pub toggled : CustomRule → CustomRule
toggled r = record r { enabled = not r.enabled }

abbrev pub toggle_found : Bool → Option CustomRule → Rules → Outcome × Rules
toggle_found writes none s = (failed 404 "Custom rule not found", s)
toggle_found writes (some r) s =
    (done r.id, save_custom_rules writes (change_rule r.id toggled s.custom) s)

unfoldable pub api_rules_toggle : Bool → Text → Rules → Outcome × Rules
api_rules_toggle writes rule_id s = toggle_found writes (find_rule rule_id s.custom) s
