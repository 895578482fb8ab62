-- ===== src/Actions/Trail.antt =====
-- The audit log tells the whole story: replaying it gives the status of every action.
use tinysocs.Prelude.Core.{
  ◌≡◌, refl, String, Option-cases, inl, inr, Option, none, some, List, [], ◌∷◌, ◌++◌, arith, true,
  false, if◌then◌else◌,
}
use tinysocs.Prelude.Dict
use tinysocs.Prelude.Dict.{Dict}
use tinysocs.Prelude.Equality.{◌==◌, string_eq}
use tinysocs.Prelude.Json.{Json}
use tinysocs.Actions.Runbook.{build_runbook}
use tinysocs.Prelude.Lists.{length}
use tinysocs.Actions.{
  approve_text, reject_text, err, os_error, Status, staged, acknowledged, dismissed, Action, Audit,
  response_staged, response_acknowledged, response_dismissed, Store, init, World, new_action,
  resolved_action, stage_action, approve_action, reject_action, resolve, resolve_found,
}
use tinysocs.Actions.Commands.{Command, stage, approve, reject, perform, run}

-- The status of one id after one more line of the log.
abbrev pub read_line : String → Option Status → Audit → Option Status
read_line i old (response_staged j _ _ _ _ _) = if i == j then some staged else old
read_line i old (response_acknowledged j _ _) = if i == j then some acknowledged else old
read_line i old (response_dismissed j _ _ _) = if i == j then some dismissed else old

abbrev pub replay : String → Option Status → List Audit → Option Status
replay i old [] = old
replay i old (entry ∷ log) = replay i (read_line i old entry) log

replay-snoc :
    (i : String) (old : Option Status) (log : List Audit) (entry : Audit)
    → replay i old (log ++ (entry ∷ [])) ≡ read_line i (replay i old log) entry
replay-snoc i old [] entry = refl
replay-snoc i old (e ∷ log) entry = replay-snoc i (read_line i old e) log entry

abbrev pub status_of : Option Action → Option Status
status_of none = none
status_of (some r) = some r.status

-- The log agrees with the store.
pub record IsAudited (s : Store) : Type 0 where
  pub agrees : (i : String) → status_of (Dict.lookup i s.actions) ≡ replay i none s.audit

-- The world of a call lets its audit line be written.
abbrev pub IsWritable : Command → Type 0
IsWritable (stage _ _ _ _ w) = w.writable ≡ true
IsWritable (approve _ _ w) = w.writable ≡ true
IsWritable (reject _ _ _ w) = w.writable ≡ true

abbrev pub AllWritable : List Command → Type 0
AllWritable [] = Unit
AllWritable (c ∷ cs) = IsWritable c × AllWritable cs

resolve_found-agrees :
    (status : Status) (by text : String) (entry : Audit) (w : World) (s : Store) (i : String)
    (r : Action) (j : String)
    → Dict.lookup i s.actions ≡ some r
    → w.writable ≡ true
    → ((old : Option Status) → read_line j old entry ≡ (if j == i then some status else old))
    → status_of (Dict.lookup j s.actions) ≡ replay j none s.audit
    → let s' = (resolve_found status by text entry w s i r).1 in
      status_of (Dict.lookup j s'.actions) ≡ replay j none s'.audit
unfolding resolve_found
resolve_found-agrees status by text entry w s i r j e ok reads h = ground (
  arith,
  Dict.lookup-insert j i (resolved_action status by text w r) s.actions,
  replay-snoc j none s.audit entry,
  reads (replay j none s.audit),
)

resolve-agrees :
    (status : Status) (by text : String) (entry : Audit) (w : World) (s : Store) (i j : String)
    → w.writable ≡ true
    → ((old : Option Status) → read_line j old entry ≡ (if j == i then some status else old))
    → status_of (Dict.lookup j s.actions) ≡ replay j none s.audit
    → let s' = (resolve status by text entry w s i).1 in
      status_of (Dict.lookup j s'.actions) ≡ replay j none s'.audit
unfolding resolve
resolve-agrees status by text entry w s i j ok reads h =
    elim (Option-cases (Dict.lookup i s.actions)) [
      | inl e ↦ rw (e, resolve) h
      | inr (r, e) ↦
          rw (e, resolve) (resolve_found-agrees status by text entry w s i r j e ok reads h)
    ]

module _ (format_value : Json → String) where
  perform-IsAudited :
      (c : Command) (s : Store) → IsWritable c → IsAudited s → IsAudited (perform format_value c s)
  unfolding perform stage_action approve_action reject_action
  perform-IsAudited (stage i action params who w) s ok h = record {
    agrees = λ j. ground (
      arith,
      Dict.lookup-insert j i (new_action format_value i action params who w) s.actions,
      replay-snoc j none s.audit (
          response_staged i action params who (length (build_runbook format_value action params))
            w.audit_now),
      h.agrees j,
    );
  }
  perform-IsAudited (approve i by w) s ok h = record {
    agrees =
        λ j. resolve-agrees acknowledged by approve_text _ w s i j ok (λ old. refl) (h.agrees j);
  }
  perform-IsAudited (reject i by reason w) s ok h = record {
    agrees = λ j.
        resolve-agrees dismissed by (reject_text by reason) _ w s i j ok (λ old. refl) (h.agrees j);
  }

  run-IsAudited :
      (cs : List Command) (s : Store)
      → AllWritable cs
      → IsAudited s
      → IsAudited (run format_value cs s)
  unfolding run
  run-IsAudited [] s ok h = h
  run-IsAudited (c ∷ cs) s ok h = run-IsAudited cs _ ok.1 (perform-IsAudited c s ok.0 h)

  -- After any calls from the empty store whose audit lines could be written, replaying the audit
  -- log gives exactly the status that each action has in the store (none for an unknown id).
  pub audit_complete :
      (cs : List Command)
      → AllWritable cs
      → (i : String)
      → status_of (Dict.lookup i (run format_value cs init).actions)
        ≡ replay i none (run format_value cs init).audit
  audit_complete cs ok =
      (run-IsAudited cs init ok (record { agrees = λ i. rw Dict.lookup-nil refl })).agrees

-- If the audit file cannot be written, acknowledging a staged action raises OSError, and yet the
-- action is acknowledged from then on, with no line in the log.
pub approve_action-unaudited :
    (i by : String) (w : World) (s : Store) (r : Action)
    → w.writable ≡ false
    → Dict.lookup i s.actions ≡ some r
    → r.status ≡ staged
    → ((approve_action i by w s).0 ≡ err os_error)
      × (status_of (Dict.lookup i (approve_action i by w s).1.actions) ≡ some acknowledged)
      × ((approve_action i by w s).1.audit ≡ s.audit)
unfolding approve_action resolve resolve_found
approve_action-unaudited i by w s r shut e st =
    ground
      (arith, Dict.lookup-insert i i (resolved_action acknowledged by approve_text w r) s.actions)
