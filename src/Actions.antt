-- ===== src/Actions.antt =====
-- actions/executor.py (src/tinysocs): the guided response engine, its in-memory action store and
-- its audit log. The runbook texts are in `Actions.Runbook`, the proofs in the modules below.
pub mod Runbook
pub mod Commands
pub mod Invariant
pub mod Trail
mod Tests
pub mod Bot
pub mod Queue
pub mod Listing
pub mod Resolve
use tinysocs.Prelude.Core.{
  ◌≡◌, Bool, true, false, String, ◌<>◌, Option, none, some, ℕ, List, [], ◌∷◌, ◌++◌, if◌then◌else◌,
}
use tinysocs.Prelude.Lists.{length, keep, take}
use tinysocs.Prelude.Dict
use tinysocs.Prelude.Dict.{Dict}
use tinysocs.Prelude.Equality.{◌==◌, string_eq}
use tinysocs.Prelude.Json.{Json, Fields}
use tinysocs.Prelude.Sort.{sort}
use tinysocs.Prelude.Strings.{str_le}
use tinysocs.Actions.Runbook.{build_runbook}

pub data Status : Type 0 where
  staged acknowledged dismissed : Status

unfoldable pub status_text : Status → String
status_text staged = "staged"
status_text acknowledged = "acknowledged"
status_text dismissed = "dismissed"

-- The record that `stage_action` builds.
pub record Action : Type 0 where
  pub action_id : String
  pub action : String
  pub params : Fields
  pub who : String
  pub status : Status
  pub runbook : List String
  pub staged_at : String
  pub resolved_at : Option String
  pub resolved_by : Option String
  pub resolution : Option String

-- The lines of the audit log. Each has the action's id and the time of writing.
pub data Audit : Type 0 where
  response_staged : String → String → Fields → Option String → ℕ → String → Audit
  response_acknowledged : String → String → String → Audit
  response_dismissed : String → String → String → String → Audit

-- The module's dict `_actions` and the audit file.
pub record Store : Type 0 where
  pub actions : Dict String Action
  pub audit : List Audit

abbrev pub init : Store
init = record { actions = []; audit = [] }

pub data Error : Type 0 where
  value_error : String → Error
  os_error : Error

pub data Result {ℓ} (A : Type ℓ) : Type ℓ where
  ok : A → Result A
  err : Error → Result A

-- What a call reads of the world: the clock when it is stamped and when it is audited, and
-- whether the audit file can be written.
pub record World : Type 0 where
  pub now : String
  pub audit_now : String
  pub writable : Bool

-- `_write_audit`, after the state has changed: a failing write raises and undoes nothing.
write_audit : World → Audit → Action → Store → Result Action × Store
write_audit w entry r s =
    if w.writable then (ok r, record s { audit = s.audit ++ (entry ∷ []) }) else (err os_error, s)

-- `who or "system"`
abbrev or_system : Option String → String
or_system none = "system"
or_system (some who) = if who == "" then "system" else who

-- The `dry_run` argument is not used by the code.
module _ (format_value : Json → String) where
  abbrev pub new_action : String → String → Fields → Option String → World → Action
  new_action action_id action params who w = record {
    action_id = action_id;
    action = action;
    params = params;
    who = or_system who;
    status = staged;
    runbook = build_runbook format_value action params;
    staged_at = w.now;
    resolved_at = none;
    resolved_by = none;
    resolution = none;
  }

  unfoldable pub stage_action :
      String → String → Fields → Option String → World → Store → Result Action × Store
  unfolding write_audit
  stage_action action_id action params who w s =
      let r = new_action action_id action params who w in
      write_audit w (response_staged action_id action params who (length r.runbook) w.audit_now) r
        (record s { actions = Dict.insert action_id r s.actions })

-- The two ways to resolve an action share their guards.
abbrev not_found : String → Error
not_found action_id = value_error ("Action " <> action_id <> " not found")

abbrev not_staged : String → Status → Error
not_staged action_id status =
    value_error ("Action " <> action_id <> " is '" <> status_text status <> "', not 'staged'")

-- The update of the record in place.
abbrev pub resolved_action : Status → String → String → World → Action → Action
resolved_action status by text w r = record r {
  status = status;
  resolved_at = some w.now;
  resolved_by = some by;
  resolution = some text;
}

-- The rest of the call, for the record that was found: the guard, the update, the audit line.
resolve_found :
    Status → String → String → Audit → World → Store → String → Action → Result Action × Store
unfolding write_audit
resolve_found status by text entry w s action_id r = elim r.status [
  | staged ↦
      let r' = resolved_action status by text w r in
      write_audit w entry r' (record s { actions = Dict.insert action_id r' s.actions })
  | other ↦ (err (not_staged action_id other), s)
]

resolve : Status → String → String → Audit → World → Store → String → Result Action × Store
unfolding resolve_found
resolve status by text entry w s action_id = elim (Dict.lookup action_id s.actions) [
  | none ↦ (err (not_found action_id), s)
  | some r ↦ resolve_found status by text entry w s action_id r
]

abbrev pub approve_text : String
approve_text = "Operator acknowledged — manual remediation in progress"

abbrev pub reject_text : String → String → String
reject_text rejected_by reason =
    "Dismissed by " <> rejected_by <> (if reason == "" then "" else ": " <> reason)

unfoldable pub approve_action : String → String → World → Store → Result Action × Store
unfolding resolve
approve_action action_id approved_by w s =
    resolve acknowledged approved_by approve_text
      (response_acknowledged action_id approved_by w.audit_now) w s action_id

unfoldable pub reject_action : String → String → String → World → Store → Result Action × Store
unfolding resolve
reject_action action_id rejected_by reason w s =
    resolve dismissed rejected_by (reject_text rejected_by reason)
      (response_dismissed action_id rejected_by reason w.audit_now) w s action_id

unfoldable pub get_action : String → Store → Option Action
get_action action_id s = Dict.lookup action_id s.actions

-- `if status: items = [...]`: None and "" filter nothing.
abbrev pub wanted : (Action → String) → Option String → Action → Bool
wanted field none a = true
wanted field (some v) a = if v == "" then true else field a == v

-- Newest first: `a` may stand before `b` if it was not staged earlier.
abbrev pub newer : Action → Action → Bool
newer a b = str_le b.staged_at a.staged_at

unfoldable pub list_actions : Option String → Option String → ℕ → Store → List Action
list_actions status action limit s =
    let items = keep (wanted (λ a. status_text a.status) status) (Dict.values s.actions) in
    let items' = keep (wanted (λ a. a.action) action) items in take limit (sort newer items')
