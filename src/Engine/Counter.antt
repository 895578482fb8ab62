-- ===== src/Engine/Counter.antt =====
-- The counts of `collections.Counter`, as agent/detections/engine.py uses it.
use tinysocs.Prelude.Core.{
  ◌≡◌, refl, ◌∙◌, ℕ, suc, ◌+◌, Option, none, some, List, [], ◌∷◌, arith, if◌then◌else◌, inl, inr,
}
use tinysocs.Prelude.Equality.{◌==◌, beq-cases}
use tinysocs.Prelude.Lists.{length}
use tinysocs.Prelude.Dict.{Dict, lookup, insert, lookup-insert, NodupKeys, insert-NodupKeys}
use tinysocs.Engine.Document.{Value, values_eq, canonical_key}
use tinysocs.Engine.Run.{bump, counter}

-- The keys of a form, in their order.
unfoldable pub matching : List Value → List (List Value) → List (List Value)
matching form [] = []
matching form (k ∷ ks) =
    let rest = matching form ks in if form == canonical_key k then k ∷ rest else rest

-- A count and some more keys of the form.
abbrev pub add_to : Option (List Value × ℕ) → List (List Value) → Option (List Value × ℕ)
add_to none [] = none
add_to none (k ∷ ks) = some (k, suc (length ks))
add_to (some (j, n)) ks = some (j, n + length ks)

pub counter-NodupKeys :
    (ks : List (List Value)) (d : Dict (List Value) (List Value × ℕ))
    → NodupKeys d
    → NodupKeys (counter ks d)
unfolding counter
counter-NodupKeys [] d u = u
counter-NodupKeys (k ∷ ks) d u =
    let form = canonical_key k in
    counter-NodupKeys ks (insert form (bump k (lookup form d)) d)
      (insert-NodupKeys form (bump k (lookup form d)) d u)

add_to-bump :
    (o : Option (List Value × ℕ)) (k : List Value) (ks : List (List Value))
    → add_to (some (bump k o)) ks ≡ add_to o (k ∷ ks)
add_to-bump none k ks = ground arith
add_to-bump (some (j, n)) k ks = ground arith

add_to-nil : (o : Option (List Value × ℕ)) → o ≡ add_to o []
add_to-nil none = refl
add_to-nil (some (j, n)) = ground arith

pub lookup-counter :
    (form : List Value) (ks : List (List Value)) (d : Dict (List Value) (List Value × ℕ))
    → lookup form (counter ks d) ≡ add_to (lookup form d) (matching form ks)
unfolding counter matching
lookup-counter form [] d = add_to-nil (lookup form d)
lookup-counter form (k ∷ ks) d =
    let own = canonical_key k in
    lookup-counter form ks (insert own (bump k (lookup own d)) d)
    ∙ rw (lookup-insert form own (bump k (lookup own d)) d) (elim (beq-cases form own) [
      | inl (b, e) ↦ rw (b, ← e) (add_to-bump (lookup form d) k (matching form ks))
      | inr (b, n) ↦ rw b refl
    ])
