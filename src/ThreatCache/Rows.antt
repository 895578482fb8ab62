-- ===== src/ThreatCache/Rows.antt =====
-- The rows of the cache's table under a delete, a sort by time and an eviction.
use tinysocs.Prelude.Core.{
  ◌≡◌, refl, ℕ, zero, suc, ◌+◌, ◌-◌, ◌≤◌, true, false, some, [], ◌∷◌, ◌++◌, arith, ltb, ltb→lt,
  Bool-cases, inl, inr,
}
use tinysocs.Prelude.Lists.{length, drop, All, length-append}
use tinysocs.Prelude.Sort.{sort, insert_sorted}
use tinysocs.ThreatCache.{Key, Row, Table, matches, find, delete, older, maybe_evict, max_entries}

-- No row has the key.
abbrev pub Lacks : Key → Table → Type 0
Lacks k = All (λ r. matches k r ≡ false)

-- No row is from after the given time.
abbrev pub Until : ℕ → Table → Type 0
Until now = All (λ r. r.cached_at ≤ now)

pub Lacks-delete : (k : Key) (rs : Table) → Lacks k (delete k rs)
unfolding delete
Lacks-delete k [] = tt
Lacks-delete k (r ∷ rs) = ground (arith, Lacks-delete k rs)

pub find-snoc :
    (k : Key) (rs : Table) (r : Row)
    → Lacks k rs
    → matches k r ≡ true
    → find k (rs ++ r ∷ []) ≡ some r
unfolding find
find-snoc k [] r h m = ground arith
find-snoc k (s ∷ rs) r h m = rw h.0 (find-snoc k rs r h.1 m)

module _ {κ} (P : Row → Type κ) where
  All-drop : (n : ℕ) (rs : Table) → All P rs → All P (drop n rs)
  All-drop zero rs h = h
  All-drop (suc n) [] h = tt
  All-drop (suc n) (r ∷ rs) h = All-drop n rs h.1

  All-insert_sorted : (r : Row) (rs : Table) → P r → All P rs → All P (insert_sorted older r rs)
  unfolding insert_sorted
  All-insert_sorted r [] h hs = (h, tt)
  All-insert_sorted r (s ∷ rs) h hs = elim (Bool-cases (older r s)) [
    | inl e ↦ rw e (h, hs)
    | inr e ↦ rw e (hs.0, All-insert_sorted r rs h hs.1)
  ]

  All-sort : (rs : Table) → All P rs → All P (sort older rs)
  unfolding sort
  All-sort [] h = tt
  All-sort (r ∷ rs) h = All-insert_sorted r (sort older rs) h.0 (All-sort rs h.1)

insert_sorted-snoc :
    (r s : Row) (rs : Table)
    → r.cached_at ≤ s.cached_at
    → insert_sorted older r (rs ++ s ∷ []) ≡ insert_sorted older r rs ++ s ∷ []
unfolding insert_sorted
insert_sorted-snoc r s [] h = ground arith
insert_sorted-snoc r s (t ∷ rs) h = ground (arith, insert_sorted-snoc r s rs h)

-- The newest row comes last.
sort-snoc :
    (rs : Table) (s : Row)
    → Until s.cached_at rs
    → sort older (rs ++ s ∷ []) ≡ sort older rs ++ s ∷ []
unfolding sort insert_sorted
sort-snoc [] s h = refl
sort-snoc (r ∷ rs) s h = rw (sort-snoc rs s h.1) (insert_sorted-snoc r s (sort older rs) h.0)

length-insert_sorted : (r : Row) (rs : Table) → length (insert_sorted older r rs) ≡ suc (length rs)
unfolding insert_sorted
length-insert_sorted r [] = refl
length-insert_sorted r (s ∷ rs) = ground (arith, length-insert_sorted r rs)

length-sort : (rs : Table) → length (sort older rs) ≡ length rs
unfolding sort
length-sort [] = refl
length-sort (r ∷ rs) = omega (arith, length-insert_sorted r (sort older rs), length-sort rs)

length-drop : (n : ℕ) (rs : Table) → length (drop n rs) ≡ length rs - n
length-drop zero rs = omega arith
length-drop (suc n) [] = omega arith
length-drop (suc n) (r ∷ rs) = omega (arith, length-drop n rs)

drop-snoc :
    (n : ℕ) (rs : Table) (s : Row) → n ≤ length rs → drop n (rs ++ s ∷ []) ≡ drop n rs ++ s ∷ []
drop-snoc zero rs s h = refl
drop-snoc (suc n) [] s h = absurd (omega arith)
drop-snoc (suc n) (r ∷ rs) s h = drop-snoc n rs s (omega arith)

pub maybe_evict-length : (rs : Table) → length (maybe_evict rs) ≤ max_entries
unfolding maybe_evict
maybe_evict-length rs =
    ground (arith, length-drop (length rs - max_entries + 1000) (sort older rs), length-sort rs)

-- The newest row stays, after some table of the rows before it.
pub maybe_evict-newest :
    (k : Key) (rs : Table) (s : Row)
    → Until s.cached_at rs
    → Lacks k rs
    → matches k s ≡ true
    → length rs ≤ max_entries
    → find k (maybe_evict (rs ++ s ∷ [])) ≡ some s
unfolding maybe_evict
maybe_evict-newest k rs s u l m small =
    let more = rs ++ s ∷ [] in
    let excess = length more - max_entries + 1000 in
    elim (Bool-cases (ltb max_entries (length more))) [
      | inr e ↦ rw e (find-snoc k rs s l m)
      | inl e ↦
          rw
            (
              e,
              sort-snoc rs s u,
              drop-snoc excess (sort older rs) s (
                  omega (
                    arith,
                    length-sort rs,
                    length-append rs (s ∷ []),
                    ltb→lt max_entries (length more) e,
                  )),
            )
            (find-snoc k (drop excess (sort older rs)) s
              (All-drop (λ r. matches k r ≡ false) excess (sort older rs)
                (All-sort (λ r. matches k r ≡ false) rs l))
              m)
    ]
