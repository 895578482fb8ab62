-- ===== src/Dashboard/RuleTests.antt =====
-- The custom rules of the dashboard on concrete data.
use tinysocs.Prelude.Core.{◌≡◌, refl, true, false, none, some, List, [], ◌∷◌, String, Bool}
use tinysocs.Prelude.Dict.{lookup}
use tinysocs.Prelude.Int.{pos}
use tinysocs.Prelude.Strings.{codes}
use tinysocs.Prelude.Text.{Text, text_eq}
use tinysocs.Dashboard.Rules.{
  Given, Outcome, failed, added, api_rules_create, ids, api_rules_upload,
}
use tinysocs.Dashboard.RuleEdits.{find_rule}
use tinysocs.Dashboard.RuleIds.{IsTidy}
use tinysocs.Dashboard.RuleRun.{
  Request, creating, uploading, deleting, toggling, run, serve, run-IsTidy,
}
use tinysocs.Dashboard.Registry.{shown, IsShared, get_rule-serve}
use tinysocs.Dashboard.RuleStore.{CustomRule, Rule, Rules, get_rule}

abbrev accept_all : Text → Text → Bool
accept_all kql index = true

abbrev given_rule : String → Given
given_rule name = record {
  id = some (codes name);
  description = some (codes "d");
  index = none;
  time_field = none;
  kql = some (codes "a:b");
  group_by = none;
  threshold = none;
  severity = some (codes "high");
  category = none;
  enabled = none;
}

-- The threshold is no number.
abbrev bad_rule : Given
bad_rule = record (given_rule "r9") { threshold = some none }

abbrev packaged_rule : Rule
packaged_rule = record {
  id = codes "p";
  description = [];
  index = [];
  time_field = [];
  kql = codes "*";
  group_by = [];
  threshold = pos 1;
  severity = [];
  category = [];
}

abbrev some_rules : Rules
some_rules = record {
  custom = [];
  path = codes "d.json";
  files = [];
  custom_env = [];
  program_data_file = codes "d.json";
  cwd_file = codes "c.json";
  builtin = (codes "p", packaged_rule) ∷ [];
  registry = (codes "p", packaged_rule) ∷ [];
}

abbrev some_requests : List (Request × Bool × Text)
some_requests =
    (creating false (given_rule " r1 "), true, codes "t1")
    ∷ (
      uploading (codes "pack") (given_rule "r2" ∷ given_rule "p" ∷ bad_rule ∷ []),
      true,
      codes "t2",
    )
    ∷ (toggling (codes "r1"), false, codes "t3")
    ∷ (deleting (codes "r2"), true, codes "t4")
    ∷ []

create_packaged :
    (api_rules_create accept_all false true [] (given_rule " p") some_rules).0
    ≡ failed 409 "Rule ID conflicts with a built-in rule"
unfolding api_rules_create text_eq tinysocs.Prelude.Text.strip
create_packaged = refl

-- The rule before the one that raises is in memory but not in the file.
upload_raises_memory :
    ids
      (api_rules_upload true
        (codes "pack")
        []
        (given_rule "r2" ∷ bad_rule ∷ [])
        some_rules).1.custom
    ≡ codes "r2" ∷ []
unfolding api_rules_upload tinysocs.Dashboard.Rules.upload_all text_eq tinysocs.Prelude.Text.strip
upload_raises_memory = refl

upload_raises_file :
    (api_rules_upload true (codes "pack") [] (given_rule "r2" ∷ bad_rule ∷ []) some_rules).1.files
    ≡ []
unfolding api_rules_upload tinysocs.Dashboard.Rules.upload_all text_eq tinysocs.Prelude.Text.strip
upload_raises_file = refl

-- A blank identifier, which a creation refuses.
upload_blank :
    (api_rules_upload true (codes "pack") [] (given_rule " " ∷ []) some_rules).0 ≡ added ([] ∷ [])
unfolding api_rules_upload tinysocs.Dashboard.Rules.upload_all text_eq tinysocs.Prelude.Text.strip
upload_blank = refl

get_rule_toggled : get_rule (codes "r1") (run accept_all (some_requests) some_rules) ≡ none
unfolding get_rule lookup tinysocs.Dashboard.RuleStore.merge_custom run serve
    tinysocs.Dashboard.RuleEdits.api_rules_delete find_rule
    tinysocs.Dashboard.RuleEdits.api_rules_toggle api_rules_upload
    tinysocs.Dashboard.Rules.upload_all api_rules_create text_eq tinysocs.Prelude.Text.strip
    tinysocs.Dashboard.RuleEdits.change_rule tinysocs.Dashboard.RuleEdits.pop_rule
    tinysocs.Dashboard.RuleStore.reload_rules tinysocs.Dashboard.RuleStore.is_file
    tinysocs.Prelude.Dict.insert
get_rule_toggled = refl

run-IsTidy_example : IsTidy (run accept_all some_requests some_rules)
run-IsTidy_example = run-IsTidy accept_all some_requests some_rules (tt, tt)

-- PROGRAMDATA is not set, and the registry does not look where the dashboard writes.
abbrev other_rules : Rules
other_rules = record some_rules { program_data_file = [] }

get_rule_elsewhere :
    get_rule
      (codes "r1")
      (serve accept_all (creating false (given_rule "r1")) true (codes "t") other_rules).1
    ≡ none
unfolding lookup text_eq get_rule serve api_rules_create tinysocs.Prelude.Text.strip
    tinysocs.Dashboard.RuleStore.reload_rules tinysocs.Dashboard.RuleStore.merge_custom
    tinysocs.Dashboard.RuleStore.is_file tinysocs.Prelude.Dict.insert
get_rule_elsewhere = refl

some-IsShared : IsShared some_rules
unfolding lookup text_eq tinysocs.Dashboard.RuleStore.is_file tinysocs.Prelude.Dict.insert
some-IsShared = refl

get_rule-serve_example :
    get_rule
      (codes "r1")
      (serve accept_all (creating false (given_rule "r1")) true (codes "t") some_rules).1
    ≡ shown
        (find_rule
          (codes "r1")
          (serve accept_all
            (creating false (given_rule "r1"))
            true
            (codes "t")
            some_rules).1.custom)
        (lookup (codes "r1") some_rules.builtin)
unfolding serve api_rules_create text_eq tinysocs.Prelude.Text.strip
get_rule-serve_example =
    get_rule-serve accept_all (creating false (given_rule "r1")) (codes "t") some_rules (tt, tt)
      some-IsShared refl (codes "r1")
