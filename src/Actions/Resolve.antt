-- ===== src/Actions/Resolve.antt =====
-- What a resolving call answers, and that no action is resolved twice.
use tinysocs.Prelude.Core.{
  ◌≡◌, ◌≢◌, sym, ap, ◌∙◌, String, none, some, arith, Option-cases, inl, inr,
}
use tinysocs.Prelude.Dict
use tinysocs.Prelude.Equality.{string_eq}
use tinysocs.Actions.{
  Status, staged, acknowledged, dismissed, Action, Audit, Store, World, ok, err, resolved_action,
  approve_text, reject_text, resolve, resolve_found, approve_action, reject_action, not_staged,
  not_found,
}

resolve_found-once :
    (status : Status) (by text : String) (entry : Audit) (w : World) (s : Store) (i : String)
    (r r' : Action)
    → (resolve_found status by text entry w s i r).0 ≡ ok r'
    → let s' = (resolve_found status by text entry w s i r).1 in
      (r.status ≡ staged) × (r'.status ≡ status) × (Dict.lookup i s'.actions ≡ some r')
unfolding resolve_found
resolve_found-once status by text entry w s i r r' e =
    ground (arith, Dict.lookup-insert i i (resolved_action status by text w r) s.actions)

resolve-found :
    (status : Status) (by text : String) (entry : Audit) (w : World) (s : Store) (i : String)
    (r : Action)
    → Dict.lookup i s.actions ≡ some r
    → resolve status by text entry w s i ≡ resolve_found status by text entry w s i r
unfolding resolve
resolve-found status by text entry w s i r e = rw (e, resolve)

resolve-missing :
    (status : Status) (by text : String) (entry : Audit) (w : World) (s : Store) (i : String)
    → Dict.lookup i s.actions ≡ none
    → resolve status by text entry w s i ≡ (err (not_found i), s)
unfolding resolve
resolve-missing status by text entry w s i e = rw (e, resolve)

resolve-settled :
    (status : Status) (by text : String) (entry : Audit) (w : World) (s : Store) (i : String)
    (r : Action)
    → Dict.lookup i s.actions ≡ some r
    → r.status ≢ staged
    → resolve status by text entry w s i ≡ (err (not_staged i r.status), s)
unfolding resolve_found
resolve-settled status by text entry w s i r e n =
    resolve-found status by text entry w s i r e ∙ ground arith

resolve-once :
    (status : Status) (by text : String) (entry : Audit) (w : World) (s : Store) (i : String)
    (r' : Action)
    → (resolve status by text entry w s i).0 ≡ ok r'
    → let s' = (resolve status by text entry w s i).1 in
      (r'.status ≡ status) × (Dict.lookup i s'.actions ≡ some r')
resolve-once status by text entry w s i r' e = elim (Option-cases (Dict.lookup i s.actions)) [
  | inl f ↦ cc (resolve-missing status by text entry w s i f)
  | inr (r, f) ↦
      let found = resolve-found status by text entry w s i r f in
      rw found (
        (resolve_found-once status by text entry w s i r r' (rw found at e)).1,
        (resolve_found-once status by text entry w s i r r' (rw found at e)).2,
      )
]

pub approve_action-missing :
    (i by : String) (w : World) (s : Store)
    → Dict.lookup i s.actions ≡ none
    → approve_action i by w s ≡ (err (not_found i), s)
unfolding approve_action
approve_action-missing i by w s e = resolve-missing acknowledged by approve_text _ w s i e

approve_action-settled :
    (i by : String) (w : World) (s : Store) (r : Action) (status : Status)
    → Dict.lookup i s.actions ≡ some r
    → r.status ≡ status
    → status ≢ staged
    → approve_action i by w s ≡ (err (not_staged i status), s)
unfolding approve_action
approve_action-settled i by w s r status e st n =
    resolve-settled acknowledged by approve_text _ w s i r e (λ f. n (sym st ∙ f))
    ∙ ap (λ (x : Status). (err (not_staged i x), s)) st

reject_action-settled :
    (i by reason : String) (w : World) (s : Store) (r : Action) (status : Status)
    → Dict.lookup i s.actions ≡ some r
    → r.status ≡ status
    → status ≢ staged
    → reject_action i by reason w s ≡ (err (not_staged i status), s)
unfolding reject_action
reject_action-settled i by reason w s r status e st n =
    resolve-settled dismissed by (reject_text by reason) _ w s i r e (λ f. n (sym st ∙ f))
    ∙ ap (λ (x : Status). (err (not_staged i x), s)) st

approve_action-once :
    (i by : String) (w : World) (s : Store) (r : Action)
    → (approve_action i by w s).0 ≡ ok r
    → (r.status ≡ acknowledged) × (Dict.lookup i (approve_action i by w s).1.actions ≡ some r)
unfolding approve_action
approve_action-once i by w s r e = resolve-once acknowledged by approve_text _ w s i r e

reject_action-once :
    (i by reason : String) (w : World) (s : Store) (r : Action)
    → (reject_action i by reason w s).0 ≡ ok r
    → (r.status ≡ dismissed) × (Dict.lookup i (reject_action i by reason w s).1.actions ≡ some r)
unfolding reject_action
reject_action-once i by reason w s r e =
    resolve-once dismissed by (reject_text by reason) _ w s i r e

-- Whoever resolves an action first wins: after a call of `approve_action` or of `reject_action`
-- that succeeds, every later call of either on the same id raises the ValueError that names the
-- status it has now, and changes nothing.
pub resolve_first_wins :
    (i by reason by' reason' : String) (w w' : World) (s : Store) (r : Action)
    → ((approve_action i by w s).0 ≡ ok r
        → let s' = (approve_action i by w s).1 in
          (approve_action i by' w' s' ≡ (err (not_staged i acknowledged), s'))
          × (reject_action i by' reason' w' s' ≡ (err (not_staged i acknowledged), s')))
      × ((reject_action i by reason w s).0 ≡ ok r
          → let s' = (reject_action i by reason w s).1 in
            (approve_action i by' w' s' ≡ (err (not_staged i dismissed), s'))
            × (reject_action i by' reason' w' s' ≡ (err (not_staged i dismissed), s')))
resolve_first_wins i by reason by' reason' w w' s r = (
  λ e.
      let (st, at) = approve_action-once i by w s r e in
      (
        approve_action-settled i by' w' _ r acknowledged at st (λ f. cc),
        reject_action-settled i by' reason' w' _ r acknowledged at st (λ f. cc),
      ),
  λ e.
      let (st, at) = reject_action-once i by reason w s r e in
      (
        approve_action-settled i by' w' _ r dismissed at st (λ f. cc),
        reject_action-settled i by' reason' w' _ r dismissed at st (λ f. cc),
      ),
)
