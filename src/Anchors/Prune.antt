-- ===== src/Anchors/Prune.antt =====
-- Pruning touches old daily indices only.
use tinysocs.Prelude.Core.{◌≡◌, Bool, true, false, String, Option, none, some, List}
use tinysocs.Prelude.Equality.{string_eq}
use tinysocs.Prelude.Lists.{All}
use tinysocs.Anchors.{OpenSearch, Pruned}
use tinysocs.Anchors.Service.{Documented}

module _ (victim : String → Bool) where
  abbrev AllVictims : List String → Type 0
  AllVictims = All (λ v. victim v ≡ true)

  pub Reported : Option Pruned → Type 0
  Reported none = Unit
  Reported (some p) = AllVictims p.found × AllVictims p.errors

  module _ {S : Type 0} (api : OpenSearch S) (has_index has_alias : String → S → Bool)
      (d : Documented api has_index has_alias) where
    -- What a pruning may do, also one that raises: an index that is no victim stays as it is, and
    -- only victims are reported.
    Spares : S → Option Pruned × S → Type 0
    Spares before (o, s) =
        ((x : String) → victim x ≡ false → has_index x s ≡ has_index x before) × Reported o
