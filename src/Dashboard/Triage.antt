-- ===== src/Dashboard/Triage.antt =====
-- The triage of api/dashboard.py: the states of alerts, the allowlist of the customer, and the
-- marking of expected alerts. The allowlist file is none where YAML does not parse it; an entry's
-- value that is missing is the empty text. The writes of the states and of the feedback may fail,
-- which is passed over. The match of a pattern by the standard library is a parameter.
use tinysocs.Prelude.Core.{
  ℕ, Bool, true, false, not, ◌&&◌, ◌||◌, Option, none, some, List, [], ◌∷◌, ◌++◌, String, map,
  if◌then◌else◌, eqb, ◌-◌,
}
use tinysocs.Prelude.Equality.{◌==◌, contains}
use tinysocs.Prelude.Lists.{length, keep}
use tinysocs.Prelude.Dict.{Dict, lookup, insert}
use tinysocs.Prelude.Strings.{codes}
use tinysocs.Prelude.Text.{Text, text_eq, strip, lower}

pub record Entry : Type 0 where
  pub rule_id : Text
  pub scope : Text
  pub value : Text
  pub note : Text
  pub added_by : Text
  pub added_at : Text

pub record AlertState : Type 0 where
  pub status : Option Text
  pub tags : List Text
  pub updated_at : Option Text

-- A record of a false positive.
pub record Feedback : Type 0 where
  pub ts : Text
  pub alert_id : Text
  pub rule_id : Text
  pub host : Text
  pub note : Text

pub record Desk : Type 0 where
  pub alert_states : Dict Text AlertState
  pub allowlist : Option (List Entry)
  pub feedback : List Feedback

pub record Detection : Type 0 where
  pub rule_id : Text
  pub host : Text
  pub expected : Bool

pub data Answer : Type 0 where
  status_set : Text → Answer
  tags_set : List Text → Answer
  marked : Bool → Answer
  removed : ℕ → Answer
  failed : ℕ → String → Answer

abbrev pub is_empty : Text → Bool
is_empty [] = true
is_empty (c ∷ s) = false

abbrev pub is_entry : Entry → Bool
is_entry e = not (is_empty e.rule_id) && not (is_empty e.scope)

-- `_load_allowlists`
unfoldable pub load_allowlists : Option (List Entry) → List Entry
load_allowlists none = []
load_allowlists (some entries) = keep is_entry entries

-- `_alert_states[alert_id]`, or what a handler puts there first
abbrev pub state_or : AlertState → Option AlertState → AlertState
state_or first none = first
state_or first (some s) = s

abbrev pub statuses : List Text
statuses = codes "new" ∷ codes "acknowledged" ∷ codes "dismissed" ∷ []

abbrev pub empty_state : Option Text → AlertState
empty_state status = record { status = status; tags = []; updated_at = none }

abbrev pub set_state : Text → AlertState → Desk → Desk
set_state alert_id s d = record d { alert_states = insert alert_id s d.alert_states }

unfoldable pub api_detection_status : Text → Text → Text → Desk → Answer × Desk
api_detection_status now_iso alert_id status d =
    let old = state_or (empty_state none) (lookup alert_id d.alert_states) in
    if contains statuses status
    then (
      status_set status,
      set_state alert_id (record old { status = some status; updated_at = some now_iso }) d,
    )
    else (failed 400 "Invalid status", d)

unfoldable pub clean_tags : List Text → List Text
clean_tags [] = []
clean_tags (t ∷ ts) =
    let rest = clean_tags ts in if is_empty (strip t) then rest else strip t ∷ rest

-- `tags` is none where the body holds something else than a list.
unfoldable pub api_detection_tags : Text → Text → Option (List Text) → Desk → Answer × Desk
api_detection_tags now_iso alert_id none d = (failed 400 "tags must be a list", d)
api_detection_tags now_iso alert_id (some tags) d =
    let old = state_or (empty_state (some (codes "new"))) (lookup alert_id d.alert_states) in
    (
      tags_set (clean_tags tags),
      set_state alert_id (record old { tags = clean_tags tags; updated_at = some now_iso }) d,
    )

abbrev pub lists_host : Text → Text → Entry → Bool
lists_host rule_id host e =
    e.rule_id == rule_id && (e.scope == codes "host" && lower e.value == lower host)

unfoldable pub any_entry : (Entry → Bool) → List Entry → Bool
any_entry p [] = false
any_entry p (e ∷ entries) = p e || any_entry p entries

abbrev pub default_note : Text → Text
default_note [] = codes "Marked as normal from the dashboard"
default_note (c ∷ note) = c ∷ note

abbrev pub host_entry : Text → Text → Text → Text → Entry
host_entry now_iso rule_id host note = record {
  rule_id = rule_id;
  scope = codes "host";
  value = host;
  note = default_note note;
  added_by = codes "dashboard";
  added_at = now_iso;
}

abbrev pub add_expected : List Text → List Text
add_expected tags = if contains tags (codes "expected") then tags else tags ++ codes "expected" ∷ []

-- The feedback, if its file can be written, and the state of the alert.
abbrev pub dismiss : Bool → Feedback → Desk → Desk
dismiss logs f d =
    let old = state_or (empty_state none) (lookup f.alert_id d.alert_states) in
    set_state f.alert_id
      (record old {
        status = some (codes "dismissed");
        tags = add_expected old.tags;
        updated_at = some f.ts;
      })
      (record d { feedback = if logs then d.feedback ++ f ∷ [] else d.feedback })

-- What is done once rule and host are there: `exists` is whether the host is listed already.
abbrev pub mark_normal : Bool → Bool → Bool → Feedback → Desk → Answer × Desk
mark_normal true saves logs f d = (marked true, dismiss logs f d)
mark_normal false false logs f d = (failed 500 "Could not save", d)
mark_normal false true logs f d =
    let entries = load_allowlists d.allowlist ++ host_entry f.ts f.rule_id f.host f.note ∷ [] in
    (marked false, dismiss logs f (record d { allowlist = some entries }))

abbrev pub normal_given : Bool → Bool → Feedback → Desk → Answer × Desk
normal_given saves logs f d =
    if is_empty f.rule_id || is_empty f.host
    then (failed 400 "rule_id and host are required", d)
    else mark_normal (any_entry (lists_host f.rule_id f.host) (load_allowlists d.allowlist)) saves
        logs f d

-- The flags say whether the allowlist and the feedback can be written.
unfoldable pub api_detection_normal :
    Bool → Bool → Text → Text → Text → Text → Text → Desk → Answer × Desk
api_detection_normal saves logs now_iso alert_id rule_id host note d =
    normal_given saves logs
      (record {
        ts = now_iso;
        alert_id = alert_id;
        rule_id = strip rule_id;
        host = strip host;
        note = strip note;
      })
      d

abbrev pub is_named : Text → Text → Text → Entry → Bool
is_named rule_id scope value e = e.rule_id == rule_id && (e.scope == scope && e.value == value)

abbrev pub save_kept : Bool → List Entry → List Entry → Desk → Answer × Desk
save_kept saves kept entries d =
    if eqb (length kept) (length entries)
    then (failed 404 "Entry not found", d)
    else if saves
    then (removed (length (entries) - length kept), record d { allowlist = some kept })
    else (failed 500 "Could not save", d)

unfoldable pub api_allowlist_remove : Bool → Text → Text → Text → Desk → Answer × Desk
api_allowlist_remove saves rule_id scope value d =
    let entries = load_allowlists d.allowlist in
    let kept = keep (λ e. not (is_named (strip rule_id) (strip scope) (strip value) e)) entries in
    if is_empty (strip rule_id) || is_empty (strip scope)
    then (failed 400 "rule_id and scope are required", d)
    else save_kept saves kept entries d

module _ (fnmatch : Text → Text → Bool) where
  abbrev pub covers : Detection → Entry → Bool
  covers det e =
      e.rule_id == det.rule_id
      && (not (is_empty (lower det.host))
          && ((e.scope == codes "host" && lower det.host == lower e.value)
              || (e.scope == codes "host_pattern" && fnmatch (lower det.host) (lower e.value))))

  -- One detection; `expected` is never taken back.
  abbrev pub annotate : List Entry → Detection → Detection
  annotate entries det = record det { expected = any_entry (covers det) entries || det.expected }

  -- `_annotate_expected`
  unfoldable pub annotate_expected : Option (List Entry) → List Detection → List Detection
  annotate_expected file detections = map (λ det. annotate (load_allowlists file) det) detections
