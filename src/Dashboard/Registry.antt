-- ===== src/Dashboard/Registry.antt =====
-- The registry of agent/detections/registry.py against the custom rules of api/dashboard.py.
use tinysocs.Prelude.Core.{
  ◌≡◌, refl, ◌∙◌, Bool, true, false, not, ◌&&◌, ◌||◌, Option, none, some, List, [], ◌∷◌, arith,
  if◌then◌else◌, Bool-cases, inl, inr,
}
use tinysocs.Prelude.Equality.{◌==◌, contains, beq-cases, beq_refl}
use tinysocs.Prelude.Dict.{Dict, lookup, insert, lookup-insert, keys}
use tinysocs.Prelude.Int.{ℤ}
use tinysocs.Prelude.Text.{Text, text_eq, strip}
use tinysocs.Dashboard.Rules.{
  Given, Outcome, created, done, added, failed, given, given_threshold, ids, clean_index,
  is_complete, store_rule, api_rules_create, upload_all, finish_upload, api_rules_upload,
}
use tinysocs.Dashboard.RuleEdits.{
  Updates, find_rule, is_valid_update, update_found, api_rules_update, delete_found,
  api_rules_delete, toggle_found, api_rules_toggle,
}
use tinysocs.Dashboard.RuleIds.{IsUnique, IsTidy}
use tinysocs.Dashboard.RuleRun.{
  Request, creating, uploading, updating, deleting, toggling, serve, serve-IsTidy,
}
use tinysocs.Dashboard.RuleStore.{
  CustomRule, Rule, Rules, get_rule, reload_rules, save_custom_rules, is_empty, is_file,
  merge_custom, merge_one, resolve_custom_rules_path, rule_of,
}

-- What the dashboard shows for an identifier: an enabled custom rule, or else the packaged rule.
abbrev pub shown : Option CustomRule → Option Rule → Option Rule
shown none packaged = packaged
shown (some r) packaged = if is_empty r.id || not r.enabled then packaged else some (rule_of r)

find_rule-none :
    (rule_id : Text) (xs : List CustomRule)
    → contains (ids xs) rule_id ≡ false
    → find_rule rule_id xs ≡ none
unfolding find_rule
find_rule-none rule_id [] h = refl
find_rule-none rule_id (x ∷ xs) h = elim (beq-cases x.id rule_id) [
  | inl (b, e) ↦ ground arith
  | inr (b, n) ↦ rw b (find_rule-none rule_id xs (ground arith))
]

lookup-merge_one :
    (rule_id : Text) (r : CustomRule) (rules : Dict Text Rule)
    → lookup rule_id (merge_one r rules)
      ≡ (if rule_id == r.id then shown (some r) (lookup rule_id rules) else lookup rule_id rules)
lookup-merge_one rule_id r rules = elim (Bool-cases (is_empty r.id || not r.enabled)) [
  | inl e ↦ rw e (ground arith)
  | inr e ↦ rw e (lookup-insert rule_id r.id (rule_of r) rules)
]

lookup-merge_custom :
    (rule_id : Text) (xs : List CustomRule) (rules : Dict Text Rule)
    → IsUnique xs
    → lookup rule_id (merge_custom xs rules) ≡ shown (find_rule rule_id xs) (lookup rule_id rules)
unfolding merge_custom find_rule
lookup-merge_custom rule_id [] rules u = refl
lookup-merge_custom rule_id (x ∷ xs) rules u =
    let rest = lookup-merge_custom rule_id xs (merge_one x rules) u.1 in
    elim (beq-cases x.id rule_id) [
      | inl (b, e) ↦
          let none_left : find_rule rule_id xs ≡ none = find_rule-none rule_id xs (rw (← e) u.0) in
          rest ∙ rw (none_left, lookup-merge_one rule_id x rules, b, e, beq_refl rule_id) refl
      | inr (b, n) ↦ rest ∙ rw (lookup-merge_one rule_id x rules, b) (ground arith)
    ]

abbrev pub is_accepted : Outcome → Bool
is_accepted (created r) = true
is_accepted (done rule_id) = true
is_accepted (added rule_ids) = true
is_accepted (failed code message) = false

-- Once the dashboard's file exists, the registry finds it.
abbrev pub IsShared : Rules → Type 0
IsShared s = resolve_custom_rules_path (record s { files = insert s.path [] s.files }) ≡ some s.path

is_file-insert :
    (p path : Text) (a b : List CustomRule) (files : Dict Text (List CustomRule))
    → is_file p (insert path a files) ≡ is_file p (insert path b files)
unfolding is_file
is_file-insert p path a b files =
    ground (arith, lookup-insert p path a files, lookup-insert p path b files)

save-registry :
    (rules : List CustomRule) (s : Rules)
    → IsShared s
    → (save_custom_rules true rules s).registry ≡ merge_custom rules s.builtin
unfolding reload_rules
save-registry rules s shared =
    let found : resolve_custom_rules_path (record s { files = insert s.path rules s.files })
        ≡ some s.path =
      rw
        (
          is_file-insert s.custom_env s.path rules [] s.files,
          is_file-insert s.program_data_file s.path rules [] s.files,
          is_file-insert s.cwd_file s.path rules [] s.files,
        )
        shared in
    rw (found, lookup-insert s.path s.path rules s.files, beq_refl s.path) refl

-- An accepted request leaves RULES as what is in memory, over the packaged rules.
abbrev IsSaved : Rules → Outcome × Rules → Type 0
IsSaved before (o, after) =
    is_accepted o ≡ true → after.registry ≡ merge_custom after.custom before.builtin

guard-IsSaved :
    (s : Rules) (refuses : Bool) (o : Outcome) (rest : Outcome × Rules)
    → is_accepted o ≡ false
    → IsSaved s rest
    → IsSaved s (if refuses then (o, s) else rest)
guard-IsSaved s true o rest f h a = cc
guard-IsSaved s false o rest f h a = h a

store_rule-IsSaved :
    (o : Option ℤ) (rule_id kql now_iso : Text) (g : Given) (s : Rules)
    → IsShared s
    → IsSaved s (store_rule o true rule_id kql now_iso g s)
store_rule-IsSaved none rule_id kql now_iso g s sh a = cc
store_rule-IsSaved (some t) rule_id kql now_iso g s sh a = save-registry _ s sh

finish_upload-IsSaved :
    (r : (Bool × List Text) × List CustomRule) (s : Rules)
    → IsShared s
    → IsSaved s (finish_upload true r s)
finish_upload-IsSaved ((false, added_ids), rules) s sh a = cc
finish_upload-IsSaved ((true, added_ids), rules) s sh a = save-registry rules s sh

delete_found-IsSaved :
    (o : Option CustomRule) (s : Rules) → IsShared s → IsSaved s (delete_found true o s)
delete_found-IsSaved none s sh a = cc
delete_found-IsSaved (some r) s sh a = save-registry _ s sh

toggle_found-IsSaved :
    (o : Option CustomRule) (s : Rules) → IsShared s → IsSaved s (toggle_found true o s)
toggle_found-IsSaved none s sh a = cc
toggle_found-IsSaved (some r) s sh a = save-registry _ s sh

module _ (is_valid : Text → Text → Bool) where
  create-IsSaved :
      (skip : Bool) (now_iso : Text) (g : Given) (s : Rules)
      → IsShared s
      → IsSaved s (api_rules_create is_valid skip true now_iso g s)
  unfolding api_rules_create
  create-IsSaved skip now_iso g s sh =
      let rule_id = strip (given g.id []) in
      let kql = strip (given g.kql []) in
      guard-IsSaved s (not (is_complete g)) _ _ refl (
        guard-IsSaved s (rule_id == []) _ _ refl (
          guard-IsSaved s (contains (ids s.custom) rule_id) _ _ refl (
            guard-IsSaved s (contains (keys s.builtin) rule_id) _ _ refl (
              guard-IsSaved s (not skip && not (is_valid kql (clean_index g))) _ _ refl
                (store_rule-IsSaved (given_threshold g.threshold) rule_id kql now_iso g s sh)))))

  update_found-IsSaved :
      (skip : Bool) (now_iso : Text) (u : Updates) (o : Option CustomRule) (s : Rules)
      → IsShared s
      → IsSaved s (update_found is_valid skip true now_iso u o s)
  update_found-IsSaved skip now_iso u none s sh a = cc
  update_found-IsSaved skip now_iso u (some r) s sh a =
      guard-IsSaved s (not skip && not (is_valid_update is_valid u.kql u r)) _ _ refl
        (λ stored. save-registry _ s sh) a

  serve-IsSaved :
      (r : Request) (now_iso : Text) (s : Rules)
      → IsShared s
      → IsSaved s (serve is_valid r true now_iso s)
  unfolding serve api_rules_upload api_rules_update api_rules_delete api_rules_toggle
  serve-IsSaved (creating skip g) now_iso s sh = create-IsSaved skip now_iso g s sh
  serve-IsSaved (uploading pack_name gs) now_iso s sh =
      finish_upload-IsSaved
        (upload_all (keys s.builtin) pack_name now_iso gs (ids s.custom) s.custom) s sh
  serve-IsSaved (updating skip rule_id u) now_iso s sh =
      update_found-IsSaved skip now_iso u (find_rule rule_id s.custom) s sh
  serve-IsSaved (deleting rule_id) now_iso s sh =
      delete_found-IsSaved (find_rule rule_id s.custom) s sh
  serve-IsSaved (toggling rule_id) now_iso s sh =
      toggle_found-IsSaved (find_rule rule_id s.custom) s sh

  -- After a request that is accepted and whose write succeeds, the registry has, for each
  -- identifier, the rule that the dashboard then lists: the enabled custom rule, or else the
  -- packaged rule. The identifiers were unique and apart from the packaged ones, and the registry
  -- finds the file that the dashboard writes, once it is there.
  pub get_rule-serve :
      (r : Request) (now_iso : Text) (s : Rules)
      → IsTidy s
      → IsShared s
      → is_accepted (serve is_valid r true now_iso s).0 ≡ true
      → (rule_id : Text)
      → get_rule rule_id (serve is_valid r true now_iso s).1
        ≡ shown
            (find_rule rule_id (serve is_valid r true now_iso s).1.custom)
            (lookup rule_id s.builtin)
  unfolding get_rule
  get_rule-serve r now_iso s t sh a rule_id =
      let after = (serve is_valid r true now_iso s).1 in
      rw (serve-IsSaved r now_iso s sh a) (
        lookup-merge_custom rule_id after.custom s.builtin
          (serve-IsTidy is_valid r true now_iso s t).0)
