-- ===== src/Dashboard/TriageTests.antt =====
-- The triage of alerts on concrete data.
use tinysocs.Prelude.Core.{◌≡◌, refl, true, false, Bool, none, some, []}
use tinysocs.Prelude.Strings.{codes}
use tinysocs.Prelude.Text.{Text, text_eq, strip}
use tinysocs.Dashboard.Triage.{
  Entry, Desk, Detection, Answer, failed, marked, removed, load_allowlists, api_detection_status,
  api_detection_normal, api_allowlist_remove, annotate,
}
use tinysocs.Dashboard.Allowed.{
  annotate-api_detection_normal, api_allowlist_remove-api_detection_normal,
}

abbrev some_desk : Desk
some_desk = record { alert_states = []; allowlist = some []; feedback = [] }

abbrev some_detection : Detection
some_detection = record { rule_id = codes "TS-1"; host = codes "PC"; expected = false }

abbrev same_text : Text → Text → Bool
same_text a b = false

status_invalid :
    (api_detection_status [] (codes "a1") (codes "closed") some_desk).0
    ≡ failed 400 "Invalid status"
unfolding api_detection_status text_eq
status_invalid = refl

-- The host is listed already, but its entry is not found in another case.
remove_other_case :
    (api_allowlist_remove true
      (codes "TS-1")
      (codes "host")
      (codes "pc")
      (api_detection_normal true true [] (codes "a1") (codes "TS-1") (codes "PC") [] some_desk).1).0
    ≡ failed 404 "Entry not found"
unfolding api_allowlist_remove strip load_allowlists api_detection_normal
    tinysocs.Dashboard.Triage.any_entry text_eq
remove_other_case = refl

-- A file that does not parse is written anew.
normal_unreadable :
    (api_detection_normal true true []
      (codes "a1")
      (codes "TS-1")
      (codes "PC")
      []
      (record some_desk { allowlist = none })).0
    ≡ marked false
unfolding api_detection_normal strip tinysocs.Dashboard.Triage.any_entry load_allowlists
normal_unreadable = refl

annotate-api_detection_normal_example :
    (annotate same_text
      (load_allowlists
        (api_detection_normal true false []
          (codes "a1")
          (codes " TS-1")
          (codes "pc ")
          []
          some_desk).1.allowlist)
      some_detection).expected
    ≡ true
unfolding api_detection_normal strip tinysocs.Dashboard.Triage.any_entry load_allowlists
    tinysocs.Prelude.Text.lower
annotate-api_detection_normal_example =
    annotate-api_detection_normal same_text true false [] (codes "a1") (codes " TS-1") (codes "pc ")
      [] some_desk some_detection refl refl refl

api_allowlist_remove-api_detection_normal_example :
    let after =
      (api_detection_normal true true [] (codes "a1") (codes "TS-1") (codes "PC") [] some_desk).1 in
    let (answer, last) =
      api_allowlist_remove true (codes "TS-1") (codes "host") (codes "PC") after in
    (answer ≡ removed 1) × (load_allowlists last.allowlist ≡ load_allowlists some_desk.allowlist)
unfolding api_detection_normal strip tinysocs.Dashboard.Triage.any_entry load_allowlists
api_allowlist_remove-api_detection_normal_example =
    api_allowlist_remove-api_detection_normal true true [] (codes "a1") (codes "TS-1") (codes "PC")
      [] some_desk refl
