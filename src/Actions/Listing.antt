-- ===== src/Actions/Listing.antt =====
-- What `list_actions` returns.
use mathlib.Core.List.{Perm}
use tinysocs.Prelude.Core.{◌≡◌, refl, Bool, ◌&&◌, String, Option, ℕ, List, [], ◌∷◌, arith}
use tinysocs.Prelude.Lists.{keep, take}
use tinysocs.Prelude.Dict
use tinysocs.Prelude.Sort.{sort, IsSorted, sort-IsSorted, sort-perm}
use tinysocs.Prelude.Strings.{str_le_total}
use tinysocs.Actions.{Action, Store, status_text, wanted, newer, list_actions}

keep-keep :
    (p q : Action → Bool) (xs : List Action) → keep q (keep p xs) ≡ keep (λ a. p a && q a) xs
keep-keep p q [] = refl
keep-keep p q (x ∷ xs) = ground (arith, keep-keep p q xs)

-- An action passes both filters of the call; None and "" filter nothing.
abbrev pub matches : Option String → Option String → Action → Bool
matches status action a =
    wanted (λ r. status_text r.status) status a && wanted (λ r. r.action) action a

-- `list_actions` returns the first `limit` of the actions that pass both filters, arranged so that
-- no action stands before one that was staged later: all those actions are arranged, each as often
-- as it is stored.
pub list_actions-eq-take :
    (status action : Option String) (limit : ℕ) (s : Store)
    → (ys : List Action) × Perm ys (keep (matches status action) (Dict.values s.actions))
      × IsSorted newer ys
      × (list_actions status action limit s ≡ take limit ys)
unfolding list_actions
list_actions-eq-take status action limit s =
    let by_status = wanted (λ (r : Action). status_text r.status) status in
    let by_action = wanted (λ (r : Action). r.action) action in
    let items = keep by_action (keep by_status (Dict.values s.actions)) in
    (
      sort newer items,
      rw (← keep-keep by_status by_action (Dict.values s.actions)) (sort-perm newer items),
      sort-IsSorted newer (λ a b h. str_le_total b.staged_at a.staged_at h) items,
      refl,
    )
