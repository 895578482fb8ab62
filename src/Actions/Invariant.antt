-- ===== src/Actions/Invariant.antt =====
-- The well-formedness of the action store, which every call keeps.
use tinysocs.Prelude.Core.{
  ◌≡◌, ◌≢◌, refl, sym, subst, inl, inr, String, Option, none, some, List, [], ◌∷◌, arith,
  if◌then◌else◌,
}
use tinysocs.Prelude.Dict
use tinysocs.Prelude.Equality.{◌==◌, string_eq, beq-cases}
use tinysocs.Prelude.Json.{Json}
use tinysocs.Actions.{
  Status, staged, acknowledged, dismissed, approve_text, reject_text, Action, Store, init, World,
}
use tinysocs.Actions.Commands.{
  Command, stage, approve, reject, perform, run, update, lookup-stage_action, lookup-approve_action,
  lookup-reject_action,
}

-- The resolution fields are all empty while the action is staged, and all filled afterwards.
abbrev pub IsSettled : Action → Type 0
IsSettled r = elim r.status [
  | staged ↦ (r.resolved_at ≡ none) × (r.resolved_by ≡ none) × (r.resolution ≡ none)
  | _ ↦ (r.resolved_at ≢ none) × (r.resolved_by ≢ none) × (r.resolution ≢ none)
]

-- An action is stored under its own id.
abbrev pub Good : String → Option Action → Type 0
Good i none = Unit
Good i (some r) = (r.action_id ≡ i) × IsSettled r

pub record IsValid (s : Store) : Type 0 where
  pub good : (i : String) → Good i (Dict.lookup i s.actions)

pub init-IsValid : IsValid init
init-IsValid = record { good = λ i. rw Dict.lookup-nil tt }

Good-update :
    (status : Status) (by text : String) (w : World) (i : String) (o : Option Action)
    → status ≢ staged
    → Good i o
    → Good i (update status by text w o)
Good-update status by text w i none n g = tt
Good-update status by text w i (some r) n g = ground arith

-- A call that replaces the record of one id keeps the others' records good.
Good-if :
    (j i : String) (o p : Option Action) → Good j o → Good i p → Good i (if i == j then o else p)
Good-if j i o p g h = elim (beq-cases i j) [
  | inl (t, e) ↦ rw t (subst (λ k. Good k o) (sym e) g)
  | inr (f, n) ↦ rw f h
]

module _ (format_value : Json → String) where
  -- Every call keeps the store valid, whether it succeeds or raises.
  pub perform-IsValid : (c : Command) (s : Store) → IsValid s → IsValid (perform format_value c s)
  unfolding perform
  perform-IsValid (stage j action params who w) s v = record {
    good = λ i. rw lookup-stage_action (Good-if j i _ _ (refl, (refl, refl, refl)) (v.good i));
  }
  perform-IsValid (approve j by w) s v = record {
    good = λ i. rw lookup-approve_action (
        Good-if j i _ _ (Good-update acknowledged by approve_text w j _ (λ e. cc) (v.good j))
          (v.good i));
  }
  perform-IsValid (reject j by reason w) s v = record {
    good = λ i. rw lookup-reject_action (
        Good-if j i _ _
          (Good-update dismissed by (reject_text by reason) w j _ (λ e. cc) (v.good j)) (v.good i));
  }

  run-IsValid : (cs : List Command) (s : Store) → IsValid s → IsValid (run format_value cs s)
  unfolding run
  run-IsValid [] s v = v
  run-IsValid (c ∷ cs) s v = run-IsValid cs _ (perform-IsValid c s v)

  -- After any sequence of calls from the empty store, each action is stored under its own id, and
  -- its three resolution fields are all empty exactly while it is staged, all filled otherwise.
  pub reachable-IsValid : (cs : List Command) → IsValid (run format_value cs init)
  reachable-IsValid cs = run-IsValid cs init init-IsValid
