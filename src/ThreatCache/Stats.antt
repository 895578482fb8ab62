-- ===== src/ThreatCache/Stats.antt =====
-- The cache's statistics and its cleanup agree.
use tinysocs.Prelude.Core.{
  ◌≡◌, refl, ap, ◌∙◌, ℕ, suc, ◌+◌, true, not, String, Option, some, List, [], ◌∷◌, arith, inl, inr,
}
use tinysocs.Prelude.Equality.{string_eq, beq-cases}
use tinysocs.Prelude.Lists.{length, keep, length-keep-le}
use tinysocs.Prelude.Dict.{Dict, lookup, insert, values}
use tinysocs.ThreatCache.{
  Table, bump, lapsed, CacheStats, group_by_provider, stats, cleanup_expired,
}

pub sum : List ℕ → ℕ
sum [] = 0
sum (n ∷ ns) = n + sum ns

sum-bump :
    (p : String) (d : Dict String ℕ) (o : Option ℕ)
    → lookup p d ≡ o
    → sum (values (insert p (bump o) d)) ≡ suc (sum (values d))
unfolding sum insert lookup
sum-bump p [] o h = ground arith
sum-bump p ((q, n) ∷ d) o h = elim (beq-cases p q) [
  | inl (e, _) ↦ ground arith
  | inr (e, _) ↦ rw e (omega (arith, sum-bump p d o (rw (e, lookup) at h)))
]

sum-group_by_provider : (rs : Table) → sum (values (group_by_provider rs)) ≡ length rs
unfolding sum group_by_provider
sum-group_by_provider [] = refl
sum-group_by_provider (r ∷ rs) =
    sum-bump r.key.provider (group_by_provider rs) _ refl ∙ ap suc (sum-group_by_provider rs)

-- The two ways to count: by an expiry test and by its negation.
keep-split :
    (now : ℕ) (rs : Table)
    → length (keep (lapsed now) rs) + length (keep (λ r. not (lapsed now r)) rs) ≡ length rs
keep-split now [] = refl
keep-split now (r ∷ rs) = ground (arith, keep-split now rs)

-- What `stats` reports adds up: the valid and the expired entries to the total, and the entries of
-- the providers to the valid ones; and `cleanup_expired` at that time removes as many rows as
-- `stats` calls expired and leaves as many as it calls valid.
pub stats-cleanup_expired :
    (now : ℕ) (rs : Table) (s : CacheStats)
    → stats true now rs ≡ some s
    → (s.valid_entries + s.expired_entries ≡ s.total_entries)
      × (sum (values s.by_provider) ≡ s.valid_entries)
      × ((cleanup_expired true now rs).0 ≡ s.expired_entries)
      × (length (cleanup_expired true now rs).1 ≡ s.valid_entries)
unfolding stats cleanup_expired
stats-cleanup_expired now rs s e =
    let valid = keep (λ r. not (lapsed now r)) rs in
    (
      ground (arith, length-keep-le (λ r. not (lapsed now r)) rs),
      ground (arith, sum-group_by_provider valid),
      ground (arith, keep-split now rs),
      ground arith,
    )
