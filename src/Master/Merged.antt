-- ===== src/Master/Merged.antt =====
-- What `merge_evidence` makes of the evidence: one entry for each rule and host, with the largest
-- count and at most ten exemplars.
use mathlib.Core.Option.{none-ne-some, some-injective}
use tinysocs.Prelude.Core.{
  ◌≡◌, refl, sym, ap, subst, ◌∙◌, ℕ, ◌-◌, ◌≤◌, max, String, Option, none, some, List, [], ◌∷◌,
  arith, if◌then◌else◌, inl, inr,
}
use tinysocs.Prelude.Equality.{Eq, ◌==◌, beq-cases}
use tinysocs.Prelude.Lists.{length, take, All, length-append, length-take}
use tinysocs.Prelude.Json.{Json}
use tinysocs.Prelude.Dict.{
  Dict, values, lookup, insert, lookup-insert, lookup-nil, NodupKeys, insert-NodupKeys,
}
use tinysocs.Master.Merge.{
  DetectionEvidence, Key, key_eq, key, merged, merge_into, concat, merge_by_key, merge_evidence,
}

-- The counts of the evidence with a key.
abbrev pub counts : Key → List DetectionEvidence → List ℕ
counts k [] = []
counts k (ev ∷ evs) = let rest = counts k evs in if k == key ev then ev.count ∷ rest else rest

abbrev pub larger : Option ℕ → Option ℕ → Option ℕ
larger none b = b
larger (some m) none = some m
larger (some m) (some n) = some (max m n)

abbrev pub maximum : List ℕ → Option ℕ
maximum [] = none
maximum (n ∷ ns) = larger (some n) (maximum ns)

abbrev pub count_of : Option DetectionEvidence → Option ℕ
count_of none = none
count_of (some ev) = some ev.count

larger_assoc : (a b c : Option ℕ) → larger a (larger b c) ≡ larger (larger a b) c
larger_assoc none b c = refl
larger_assoc (some m) none c = refl
larger_assoc (some m) (some n) none = refl
larger_assoc (some m) (some n) (some o) = ground arith

larger-none : (o : Option ℕ) → larger o none ≡ o
larger-none none = refl
larger-none (some m) = refl

count_of-merged :
    (dumps : Json → String) (ev : DetectionEvidence) (o : Option DetectionEvidence)
    → some (merged dumps ev o).count ≡ larger (count_of o) (some ev.count)
count_of-merged dumps ev none = refl
count_of-merged dumps ev (some cur) = refl

merge_into-count :
    (dumps : Json → String) (by_key : Dict Key DetectionEvidence) (evs : List DetectionEvidence)
    (k : Key)
    → count_of (lookup k (merge_into dumps by_key evs))
      ≡ larger (count_of (lookup k by_key)) (maximum (counts k evs))
unfolding merge_into
merge_into-count dumps by_key [] k = sym (larger-none (count_of (lookup k by_key)))
merge_into-count dumps by_key (ev ∷ evs) k =
    let m = merged dumps ev (lookup (key ev) by_key) in
    merge_into-count dumps (insert (key ev) m by_key) evs k ∙ (elim (beq-cases k (key ev)) [
      | inl (e, p) ↦
          let top = maximum (counts k evs) in
          let before = lookup k by_key in
          rw (lookup-insert k (key ev) m by_key, e)
            (subst
              (λ j.
                larger (some (merged dumps ev (lookup j by_key)).count) top
                ≡ larger (count_of before) (larger (some ev.count) top))
              p
              (ap (λ x. larger x top) (count_of-merged dumps ev before)
                ∙ sym (larger_assoc (count_of before) (some ev.count) top)))
      | inr (e, _) ↦ rw (lookup-insert k (key ev) m by_key, e) refl
    ])

-- The entry that `merge_evidence` makes for a rule and a host has the largest count of the evidence
-- for them in all batches, and there is an entry exactly if there is such evidence.
pub merge_by_key-count :
    (dumps : Json → String) (batches : List (List DetectionEvidence)) (k : Key)
    → count_of (lookup k (merge_by_key dumps batches)) ≡ maximum (counts k (concat batches))
unfolding merge_by_key
merge_by_key-count dumps batches k =
    merge_into-count dumps [] (concat batches) k ∙ rw (lookup-nil {V = DetectionEvidence} k) refl

abbrev pub IsSmall : DetectionEvidence → Type 0
IsSmall ev = length ev.exemplars ≤ 10

IsSmall-merged :
    (dumps : Json → String) (ev : DetectionEvidence) (o : Option DetectionEvidence)
    → ((cur : DetectionEvidence) → o ≡ some cur → IsSmall cur)
    → IsSmall (merged dumps ev o)
IsSmall-merged dumps ev none h = omega (arith, length-take 10 ev.exemplars)
IsSmall-merged dumps ev (some cur) h = ground (
  arith,
  h cur refl,
  length-append cur.exemplars (take (10 - length cur.exemplars) ev.exemplars),
  length-take (10 - length cur.exemplars) ev.exemplars,
)

module _ {ℓ κ} {K : Type ℓ} ⦃e : Eq K⦄ {V : Type κ} (P : V → Type 0) where
  All-lookup : (k : K) (v : V) (d : Dict K V) → All P (values d) → lookup k d ≡ some v → P v
  unfolding lookup
  All-lookup k v [] h f = absurd (none-ne-some v f)
  All-lookup k v ((j, w) ∷ d) h f = elim (beq-cases k j) [
    | inl (t, _) ↦ subst P (some-injective w v (rw (t, lookup) at f)) h.0
    | inr (t, _) ↦ All-lookup k v d h.1 (rw (t, lookup) at f)
  ]

  All-insert :
      (k : K) (v : V) (d : Dict K V) → P v → All P (values d) → All P (values (insert k v d))
  unfolding insert
  All-insert k v [] p h = (p, tt)
  All-insert k v ((j, w) ∷ d) p h = elim (beq-cases k j) [
    | inl (t, _) ↦ rw t (p, h.1)
    | inr (t, _) ↦ rw t (h.0, All-insert k v d p h.1)
  ]

-- An entry for each key, each with few exemplars.
abbrev pub IsTidy : Dict Key DetectionEvidence → Type 0
IsTidy by_key = All IsSmall (values by_key) × NodupKeys by_key

merge_into-IsTidy :
    (dumps : Json → String) (by_key : Dict Key DetectionEvidence) (evs : List DetectionEvidence)
    → IsTidy by_key
    → IsTidy (merge_into dumps by_key evs)
unfolding merge_into
merge_into-IsTidy dumps by_key [] h = h
merge_into-IsTidy dumps by_key (ev ∷ evs) (small, u) =
    let m = merged dumps ev (lookup (key ev) by_key) in
    merge_into-IsTidy dumps (insert (key ev) m by_key) evs (
      All-insert IsSmall (key ev) m by_key
          (IsSmall-merged dumps ev (lookup (key ev) by_key)
            (λ cur f. All-lookup IsSmall (key ev) cur by_key small f))
          small,
      insert-NodupKeys (key ev) m by_key u,
    )

-- `merge_evidence` returns at most ten exemplars with each entry, and never two entries for one
-- rule and host, whatever the nodes sent.
pub merge_evidence-IsTidy :
    (dumps : Json → String) (batches : List (List DetectionEvidence))
    → All IsSmall (merge_evidence dumps batches) × NodupKeys (merge_by_key dumps batches)
unfolding merge_evidence merge_by_key
merge_evidence-IsTidy dumps batches = merge_into-IsTidy dumps [] (concat batches) (tt, tt)
