-- ===== src/Dashboard/RuleIds.antt =====
-- The identifiers of the custom rules of api/dashboard.py.
use tinysocs.Prelude.Core.{
  ◌≡◌, refl, ap, false, ◌||◌, List, [], ◌∷◌, ◌++◌, arith, Bool-cases, inl, inr,
}
use tinysocs.Prelude.Equality.{◌==◌, contains}
use tinysocs.Prelude.Lists.{All}
use tinysocs.Prelude.Dict.{keys}
use tinysocs.Prelude.Text.{Text, text_eq}
use tinysocs.Dashboard.Rules.{ids}
use tinysocs.Dashboard.RuleEdits.{change_rule, pop_rule}
use tinysocs.Dashboard.RuleStore.{CustomRule, Rules}

abbrev pub IsUnique : List CustomRule → Type 0
IsUnique [] = Unit
IsUnique (r ∷ rules) = (contains (ids rules) r.id ≡ false) × IsUnique rules

abbrev pub IsApart : List Text → List CustomRule → Type 0
IsApart builtin = All (λ r. contains builtin r.id ≡ false)

-- No identifier is twice in the custom rules, and none is that of a packaged rule.
abbrev pub IsTidy : Rules → Type 0
IsTidy s = IsUnique s.custom × IsApart (keys s.builtin) s.custom

contains-append :
    (a : Text) (xs ys : List Text) → contains (xs ++ ys) a ≡ (contains xs a || contains ys a)
contains-append a [] ys = refl
contains-append a (x ∷ xs) ys = ground (arith, contains-append a xs ys)

ids-append : (xs ys : List CustomRule) → ids (xs ++ ys) ≡ ids xs ++ ids ys
ids-append [] ys = refl
ids-append (x ∷ xs) ys = ap (λ l. x.id ∷ l) (ids-append xs ys)

pub contains-snoc :
    (a : Text) (xs : List CustomRule) (r : CustomRule)
    → contains (ids (xs ++ r ∷ [])) a ≡ (contains (ids xs) a || a == r.id)
contains-snoc a xs r =
    rw (ids-append xs (r ∷ []), contains-append a (ids xs) (r.id ∷ [])) (ground arith)

pub IsUnique-snoc :
    (xs : List CustomRule) (r : CustomRule)
    → IsUnique xs
    → contains (ids xs) r.id ≡ false
    → IsUnique (xs ++ r ∷ [])
IsUnique-snoc [] r u h = (refl, tt)
IsUnique-snoc (x ∷ xs) r u h =
    (ground (arith, contains-snoc x.id xs r, u.0), IsUnique-snoc xs r u.1 (ground arith))

pub ids-change_rule :
    (rule_id : Text) (f : CustomRule → CustomRule)
    → ((r : CustomRule) → (f r).id ≡ r.id)
    → (xs : List CustomRule) → ids (change_rule rule_id f xs) ≡ ids xs
unfolding change_rule
ids-change_rule rule_id f same [] = refl
ids-change_rule rule_id f same (x ∷ xs) = ground (arith, same x, ids-change_rule rule_id f same xs)

-- Both are about the identifiers only.
pub IsUnique-ids : (xs ys : List CustomRule) → ids xs ≡ ids ys → IsUnique xs → IsUnique ys
IsUnique-ids [] [] e u = tt
IsUnique-ids [] (y ∷ ys) e u = cc
IsUnique-ids (x ∷ xs) [] e u = cc
IsUnique-ids (x ∷ xs) (y ∷ ys) e u =
    let tails : ids xs ≡ ids ys = cc in
    let heads : x.id ≡ y.id = cc in (rw (← heads, ← tails) u.0, IsUnique-ids xs ys tails u.1)

pub IsApart-ids :
    (builtin : List Text) (xs ys : List CustomRule)
    → ids xs ≡ ids ys
    → IsApart builtin xs
    → IsApart builtin ys
IsApart-ids builtin [] [] e u = tt
IsApart-ids builtin [] (y ∷ ys) e u = cc
IsApart-ids builtin (x ∷ xs) [] e u = cc
IsApart-ids builtin (x ∷ xs) (y ∷ ys) e u =
    let tails : ids xs ≡ ids ys = cc in
    let heads : x.id ≡ y.id = cc in (rw (← heads) u.0, IsApart-ids builtin xs ys tails u.1)

pub IsUnique-pop_rule :
    (rule_id : Text) (xs : List CustomRule)
    → IsUnique xs
    → IsUnique (pop_rule rule_id xs)
      × ((a : Text) → contains (ids xs) a ≡ false → contains (ids (pop_rule rule_id xs)) a ≡ false)
unfolding pop_rule
IsUnique-pop_rule rule_id [] u = (tt, λ a h. h)
IsUnique-pop_rule rule_id (x ∷ xs) u = elim (Bool-cases (x.id == rule_id)) [
  | inl e ↦ rw e (u.1, λ a h. ground arith)
  | inr e ↦
      let rest = IsUnique-pop_rule rule_id xs u.1 in
      rw e ((rest.1 x.id u.0, rest.0), λ a h. ground (arith, rest.1 a))
]

pub IsApart-pop_rule :
    (builtin : List Text) (rule_id : Text) (xs : List CustomRule)
    → IsApart builtin xs
    → IsApart builtin (pop_rule rule_id xs)
unfolding pop_rule
IsApart-pop_rule builtin rule_id [] h = tt
IsApart-pop_rule builtin rule_id (x ∷ xs) h = elim (Bool-cases (x.id == rule_id)) [
  | inl e ↦ rw e h.1
  | inr e ↦ rw e (h.0, IsApart-pop_rule builtin rule_id xs h.1)
]
