-- ===== src/Prelude/Dict.antt =====
-- Python dicts in insertion order, as association lists.
use tinysocs.Prelude.Core.{
  ◌≡◌, refl, inl, inr, Bool, Option, none, some, List, [], ◌∷◌, arith, if◌then◌else◌, Bool-cases,
}
use tinysocs.Prelude.Equality.{Eq, ◌==◌, beq-cases}

abbrev pub Dict {ℓ κ} : Type ℓ → Type κ → Type (ℓ ⊔ κ)
Dict K V = List (K × V)

abbrev pub keys {ℓ κ} : {K : Type ℓ} {V : Type κ} → Dict K V → List K
keys [] = []
keys ((k, _) ∷ d) = k ∷ keys d

abbrev pub values {ℓ κ} : {K : Type ℓ} {V : Type κ} → Dict K V → List V
values [] = []
values ((_, v) ∷ d) = v ∷ values d

module _ {ℓ κ} {K : Type ℓ} {V : Type κ} ⦃e : Eq K⦄ where
  -- `d.get(k)`
  unfoldable pub lookup : K → Dict K V → Option V
  lookup k [] = none
  lookup k ((j, v) ∷ d) = if k == j then some v else lookup k d

  -- `d[k] = v`: a present key keeps its place.
  unfoldable pub insert : K → V → Dict K V → Dict K V
  insert k v [] = (k, v) ∷ []
  insert k v ((j, w) ∷ d) = if k == j then (j, v) ∷ d else (j, w) ∷ insert k v d

  -- `d.pop(k, None)`. Every entry of the key goes; a real dict has at most one.
  unfoldable pub erase : K → Dict K V → Dict K V
  erase k [] = []
  erase k ((j, w) ∷ d) = let rest = erase k d in if k == j then rest else (j, w) ∷ rest

  abbrev pub NodupKeys : Dict K V → Type κ
  NodupKeys [] = Unit
  NodupKeys ((k, _) ∷ d) = (lookup k d ≡ none) × NodupKeys d

  pub lookup-nil : (k : K) → lookup k [] ≡ none
  unfolding lookup
  lookup-nil k = refl

  pub lookup-cons :
      (j k : K) (v : V) (d : Dict K V)
      → lookup j ((k, v) ∷ d) ≡ (if j == k then some v else lookup j d)
  unfolding lookup
  lookup-cons j k v d = refl

  pub lookup-insert :
      (j k : K) (v : V) (d : Dict K V)
      → lookup j (insert k v d) ≡ (if j == k then some v else lookup j d)
  unfolding insert lookup
  lookup-insert j k v [] = refl
  lookup-insert j k v ((i, w) ∷ d) = ground (arith, lookup-insert j k v d)

  pub lookup-erase :
      (j k : K) (d : Dict K V) → lookup j (erase k d) ≡ (if j == k then none else lookup j d)
  unfolding erase lookup
  lookup-erase j k [] = ground arith
  lookup-erase j k ((i, w) ∷ d) = ground (arith, lookup-erase j k d)

  pub insert-NodupKeys : (k : K) (v : V) (d : Dict K V) → NodupKeys d → NodupKeys (insert k v d)
  unfolding insert
  insert-NodupKeys k v [] _ = (lookup-nil k, tt)
  insert-NodupKeys k v ((j, _) ∷ d) (fresh, u) =
      ground (arith, insert-NodupKeys k v d u, lookup-insert j k v d)

-- The entries but those whose value meets the test.
unfoldable pub drop_if {ℓ κ} : {K : Type ℓ} {V : Type κ} → (V → Bool) → Dict K V → Dict K V
drop_if p [] = []
drop_if p ((k, v) ∷ d) = let rest = drop_if p d in if p v then rest else (k, v) ∷ rest

-- What a search finds once those entries are gone.
abbrev pub unless {κ} : {V : Type κ} → (V → Bool) → Option V → Option V
unless p none = none
unless p (some v) = if p v then none else some v

module _ {ℓ κ} {K : Type ℓ} {V : Type κ} ⦃e : Eq K⦄ where
  drop_if-Lacks :
      (p : V → Bool) (k : K) (d : Dict K V) → lookup k d ≡ none → lookup k (drop_if p d) ≡ none
  unfolding lookup drop_if
  drop_if-Lacks p k [] h = refl
  drop_if-Lacks p k ((j, v) ∷ d) h = ground (arith, drop_if-Lacks p k d)

  pub lookup-drop_if :
      (p : V → Bool) (k : K) (d : Dict K V)
      → NodupKeys d
      → lookup k (drop_if p d) ≡ unless p (lookup k d)
  unfolding lookup drop_if
  lookup-drop_if p k [] h = refl
  lookup-drop_if p k ((j, v) ∷ d) h = elim (beq-cases k j) [
    | inl (e, same) ↦ rw e (elim (Bool-cases (p v)) [
      | inl gone ↦ rw gone (drop_if-Lacks p k d (rw same h.0))
      | inr stays ↦ rw (stays, e) refl
    ])
    | inr (e, _) ↦ ground (arith, lookup-drop_if p k d h.1)
  ]

  pub drop_if-NodupKeys : (p : V → Bool) (d : Dict K V) → NodupKeys d → NodupKeys (drop_if p d)
  unfolding drop_if
  drop_if-NodupKeys p [] h = tt
  drop_if-NodupKeys p ((j, v) ∷ d) h = elim (Bool-cases (p v)) [
    | inl gone ↦ rw gone (drop_if-NodupKeys p d h.1)
    | inr stays ↦ rw stays (drop_if-Lacks p j d h.0, drop_if-NodupKeys p d h.1)
  ]

  pub erase-NodupKeys : (k : K) (d : Dict K V) → NodupKeys d → NodupKeys (erase k d)
  unfolding erase
  erase-NodupKeys k [] h = tt
  erase-NodupKeys k ((j, v) ∷ d) h = elim (Bool-cases (k == j)) [
    | inl gone ↦ rw gone (erase-NodupKeys k d h.1)
    | inr stays ↦ rw stays (ground (arith, lookup-erase j k d), erase-NodupKeys k d h.1)
  ]

pub ruleset dict_laws = (lookup-nil, lookup-insert, lookup-erase)
