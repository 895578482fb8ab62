-- ===== src/Actions/Commands.antt =====
-- Sequences of calls on the action store, and the laws of one call.
use tinysocs.Prelude.Core.{
  ◌≡◌, ◌≢◌, String, Option, none, some, List, [], ◌∷◌, arith, if◌then◌else◌, Option-cases, inl, inr,
}
use tinysocs.Prelude.Dict
use tinysocs.Prelude.Equality.{◌==◌, string_eq}
use tinysocs.Prelude.Json.{Json, Fields}
use tinysocs.Actions.{
  response_acknowledged, response_dismissed, approve_text, reject_text, Audit, new_action,
  resolved_action, Status, staged, acknowledged, dismissed, Action, Store, World, stage_action,
  resolve, resolve_found, approve_action, reject_action,
}

-- A call of the module, with what it reads of the world.
pub data Command : Type 0 where
  stage : String → String → Fields → Option String → World → Command
  approve : String → String → World → Command
  reject : String → String → String → World → Command

abbrev pub target : Command → String
target (stage i _ _ _ _) = i
target (approve i _ _) = i
target (reject i _ _ _) = i

abbrev pub update : Status → String → String → World → Option Action → Option Action
update status by text w none = none
update status by text w (some r) = elim r.status [
  | staged ↦ some (resolved_action status by text w r)
  | _ ↦ some r
]

lookup-resolve_found :
    (status : Status) (by text : String) (entry : Audit) (w : World) (s : Store) (i : String)
    (r : Action) (j : String)
    → Dict.lookup i s.actions ≡ some r
    → Dict.lookup j (resolve_found status by text entry w s i r).1.actions
      ≡ (if j == i then update status by text w (some r) else Dict.lookup j s.actions)
unfolding resolve_found
lookup-resolve_found status by text entry w s i r j e =
    ground (arith, Dict.lookup-insert j i (resolved_action status by text w r) s.actions)

-- What a resolving call does to the record of any id.
lookup-resolve :
    (status : Status) (by text : String) (entry : Audit) (w : World) (s : Store) (i j : String)
    → Dict.lookup j (resolve status by text entry w s i).1.actions ≡ (
        if j == i
        then update status by text w (Dict.lookup i s.actions)
        else Dict.lookup j s.actions)
unfolding resolve
lookup-resolve status by text entry w s i j = elim (Option-cases (Dict.lookup i s.actions)) [
  | inl e ↦ rw (e, resolve) (ground arith)
  | inr (r, e) ↦ rw (e, resolve) (lookup-resolve_found status by text entry w s i r j e)
]

pub lookup-approve_action :
    (i by : String) (w : World) (s : Store) (j : String)
    → Dict.lookup j (approve_action i by w s).1.actions ≡ (
        if j == i
        then update acknowledged by approve_text w (Dict.lookup i s.actions)
        else Dict.lookup j s.actions)
unfolding approve_action
lookup-approve_action i by w s j =
    lookup-resolve acknowledged by approve_text (response_acknowledged i by w.audit_now) w s i j

pub lookup-reject_action :
    (i by reason : String) (w : World) (s : Store) (j : String)
    → Dict.lookup j (reject_action i by reason w s).1.actions ≡ (
        if j == i
        then update dismissed by (reject_text by reason) w (Dict.lookup i s.actions)
        else Dict.lookup j s.actions)
unfolding reject_action
lookup-reject_action i by reason w s j =
    lookup-resolve dismissed by (reject_text by reason) (response_dismissed i by reason w.audit_now)
      w s i j

pub lookup-stage_action :
    (format_value : Json → String) (i action : String) (params : Fields) (who : Option String)
    (w : World) (s : Store) (j : String)
    → Dict.lookup j (stage_action format_value i action params who w s).1.actions ≡ (
        if j == i
        then some (new_action format_value i action params who w)
        else Dict.lookup j s.actions)
unfolding stage_action
lookup-stage_action format_value i action params who w s j =
    ground (arith, Dict.lookup-insert j i (new_action format_value i action params who w) s.actions)

module _ (format_value : Json → String) where
  unfoldable pub perform : Command → Store → Store
  perform (stage i action params who w) s = (stage_action format_value i action params who w s).1
  perform (approve i by w) s = (approve_action i by w s).1
  perform (reject i by reason w) s = (reject_action i by reason w s).1

  unfoldable pub run : List Command → Store → Store
  run [] s = s
  run (c ∷ cs) s = run cs (perform c s)

  -- The action is there and its recommendation was acknowledged or dismissed.
  abbrev pub IsResolved : String → Action → Store → Type 0
  IsResolved i r s = (Dict.lookup i s.actions ≡ some r) × (r.status ≢ staged)

  -- `stage_action` of this command would give a new action the same id.
  abbrev pub Restages : String → Command → Type 0
  Restages i (stage j _ _ _ _) = i ≡ j
  Restages i _ = ⊥

  abbrev pub NoneRestages : String → List Command → Type 0
  NoneRestages i [] = Unit
  NoneRestages i (c ∷ cs) = (¬ Restages i c) × NoneRestages i cs

  perform-IsResolved :
      (i : String) (r : Action) (c : Command) (s : Store)
      → ¬ Restages i c
      → IsResolved i r s
      → IsResolved i r (perform c s)
  unfolding perform
  perform-IsResolved i r (stage j action params who w) s n h =
      ground (arith, lookup-stage_action format_value j action params who w s i)
  perform-IsResolved i r (approve j by w) s n h = ground (arith, lookup-approve_action j by w s i)
  perform-IsResolved i r (reject j by reason w) s n h =
      ground (arith, lookup-reject_action j by reason w s i)

  -- Once an action is acknowledged or dismissed, its record never changes again, whatever calls
  -- follow and whether or not they raise, as long as no call stages a new action under its id.
  pub run-IsResolved :
      (i : String) (r : Action) (cs : List Command) (s : Store)
      → NoneRestages i cs
      → IsResolved i r s
      → IsResolved i r (run cs s)
  unfolding run
  run-IsResolved i r [] s n h = h
  run-IsResolved i r (c ∷ cs) s n h =
      run-IsResolved i r cs (perform c s) n.1 (perform-IsResolved i r c s n.0 h)
