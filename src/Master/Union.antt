-- ===== src/Master/Union.antt =====
-- `deep_union`, key by key.
use tinysocs.Prelude.Core.{◌≡◌, refl, String, Option, none, some, inl, inr}
use tinysocs.Prelude.Equality.{string_eq, beq-cases}
use tinysocs.Prelude.Json.{Json, Fields, end, field, get, put, get-put}
use tinysocs.Master.Merge.{deep_union, combine}

-- No key twice, as in every Python dict.
abbrev pub HasUniqueKeys : Fields → Type 0
HasUniqueKeys end = Unit
HasUniqueKeys (field k v d) = (get k d ≡ none) × HasUniqueKeys d

-- The value of a key in both objects.
abbrev pub united : (Json → String) → Option Json → Option Json → Option Json
united dumps o none = o
united dumps o (some v) = some (combine dumps o v)

-- Under every key `deep_union` holds the first object's value if the second has none, and
-- otherwise what becomes of both values, for a second object with no key twice.
pub get-deep_union :
    (dumps : Json → String) (a b : Fields) (k : String)
    → HasUniqueKeys b
    → get k (deep_union dumps a b) ≡ united dumps (get k a) (get k b)
unfolding deep_union get
get-deep_union dumps a end k u = refl
get-deep_union dumps a (field j v b) k (fresh, u) = elim (beq-cases k j) [
  | inl (e, p) ↦
      rw
        (
          get-deep_union dumps (put j (combine dumps (get j a) v) a) b k u,
          get-put k j (combine dumps (get j a) v) a,
          e,
          p,
          fresh,
        )
        refl
  | inr (e, _) ↦
      rw
        (
          get-deep_union dumps (put j (combine dumps (get j a) v) a) b k u,
          get-put k j (combine dumps (get j a) v) a,
          e,
        )
        refl
]
