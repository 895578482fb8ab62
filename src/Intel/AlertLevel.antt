-- ===== src/Intel/AlertLevel.antt =====
-- The threat level of an alert of agent/enrich.py, over its indicators.
use tinysocs.Prelude.Core.{◌≡◌, ℕ, Option, none, some, List, [], ◌∷◌, String, arith, max}
use tinysocs.Prelude.Dict.{Dict}
use tinysocs.Prelude.Text.{Text, text_eq}
use tinysocs.Intel.{Level, Report, Composite}
use tinysocs.Intel.Levels.{rank}
use tinysocs.Intel.Alert.{Enrichment, raise_level, add_given, add_result, add_results}

-- What one answer counts for.
abbrev counts_for : Composite → Dict String Report → ℕ
counts_for c [] = 0
counts_for c (r ∷ rs) = rank c.threat_level

abbrev weight : Option Composite → ℕ
weight none = 0
weight (some c) = counts_for c c.results

highest : List (Text × Option Composite) → ℕ
highest [] = 0
highest ((ioc, c) ∷ results) = max (weight c) (highest results)

rank-raise_level : (new old : Level) → rank (raise_level new old) ≡ max (rank old) (rank new)
rank-raise_level new old = ground arith

rank-add_given :
    (ioc : Text) (c : Composite) (rs : Dict String Report) (e : Enrichment)
    → rank (add_given ioc c rs e).threat_level ≡ max (rank e.threat_level) (counts_for c rs)
rank-add_given ioc c [] e = omega arith
rank-add_given ioc c (r ∷ rs) e = rank-raise_level c.threat_level e.threat_level

rank-add_result :
    (ioc : Text) (c : Option Composite) (e : Enrichment)
    → rank (add_result ioc c e).threat_level ≡ max (rank e.threat_level) (weight c)
rank-add_result ioc none e = omega arith
rank-add_result ioc (some c) e = rank-add_given ioc c c.results e

-- The level after all answers is the highest of those that have results.
rank-add_results :
    (results : List (Text × Option Composite)) (e : Enrichment)
    → rank (add_results results e).threat_level ≡ max (rank e.threat_level) (highest results)
unfolding add_results highest
rank-add_results [] e = omega arith
rank-add_results ((ioc, c) ∷ results) e =
    omega (arith, rank-add_results results (add_result ioc c e), rank-add_result ioc c e)
