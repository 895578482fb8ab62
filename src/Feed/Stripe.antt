-- ===== src/Feed/Stripe.antt =====
-- api/feed.py (src/tinysocs): `_verify_stripe_signature`, over a header of characters below 256.
use tinysocs.Prelude.Core.{
  ◌≡◌, ℕ, ◌+◌, ◌-◌, ◌≤◌, Bool, true, false, not, ◌&&◌, ◌||◌, String, Option, none, some, List, [],
  ◌∷◌, ◌++◌, arith, ltb, eqb, if◌then◌else◌, Option-cases, inl, inr,
}
use tinysocs.Prelude.Equality.{◌==◌, contains, string_eq}
use tinysocs.Prelude.Int.{ℤ, pos_part, neg_part}
use tinysocs.Prelude.Strings.{codes}
use tinysocs.Prelude.Text.{Text, text_eq, is_digit, split_on, parse_int}
use tinysocs.Feed.Gate.{Mac}

-- `kv.split("=", 1)` of a part that has a "="
unfoldable pub split_eq : Text → Option (Text × Text)
split_eq [] = none
split_eq (c ∷ s) =
    let rest = split_eq s in
    if eqb c b'=' then some ([], s) else elim rest [ none ↦ none | some (a, b) ↦ some (c ∷ a, b) ]

unfoldable pub pairs : List Text → List (Text × Text)
pairs [] = []
pairs (kv ∷ kvs) = elim (split_eq kv) [ none ↦ pairs kvs | some p ↦ p ∷ pairs kvs ]

-- The values of a name, in order.
unfoldable pub values_of : Text → List (Text × Text) → List Text
values_of k [] = []
values_of k ((j, v) ∷ ps) = let rest = values_of k ps in if j == k then v ∷ rest else rest

-- `dict(pairs).get(k, "")`: the last value.
unfoldable pub last_or_empty : List Text → Text
last_or_empty [] = []
last_or_empty (v ∷ []) = v
last_or_empty (v ∷ w ∷ vs) = last_or_empty (w ∷ vs)

-- `str.isdigit`, which also takes the superscripts one, two and three.
abbrev is_digit_like : ℕ → Bool
is_digit_like c = is_digit c || (eqb c 178 || (eqb c 179 || eqb c 185))

abbrev all_digits : Text → Bool
all_digits [] = true
all_digits (c ∷ s) = is_digit_like c && all_digits s

abbrev isdigit : Text → Bool
isdigit [] = false
isdigit (c ∷ s) = all_digits (c ∷ s)

-- `abs(now - ts)`
abbrev pub distance : ℕ → ℤ → ℕ
distance now ts = (now + neg_part ts - pos_part ts) + (pos_part ts - (now + neg_part ts))

-- The dictionary entry `t`.
unfoldable pub timestamp_of : Text → Text
timestamp_of header = last_or_empty (values_of (codes "t") (pairs (split_on b',' header)))

unfoldable pub candidates_of : Text → List Text
candidates_of header = values_of (codes "v1") (pairs (split_on b',' header))

abbrev all_ascii : Text → Bool
all_ascii [] = true
all_ascii (c ∷ s) = ltb c 128 && all_ascii s

-- `any(hmac.compare_digest(want, c) for c in candidates)`; none is the TypeError for a candidate that
-- is not ASCII.
unfoldable pub any_match : Text → List Text → Option Bool
any_match want [] = some false
any_match want (c ∷ cs) =
    let rest = any_match want cs in
    if not (all_ascii c) then none else if want == c then some true else rest

any_match-contains :
    (want : Text) (cs : List Text) → any_match want cs ≡ some true → contains cs want ≡ true
unfolding any_match
any_match-contains want [] h = absurd (ground arith)
any_match-contains want (c ∷ cs) h = ground (arith, any_match-contains want cs)

-- none is an exception: of `any_match`, or the ValueError of `int` on a digit that is no decimal.
unfoldable pub verify_stripe_signature : Mac → ℕ → Text → Text → String → ℕ → Option Bool
verify_stripe_signature mac now payload header secret tolerance =
    let ts = timestamp_of header in
    if header == [] || secret == ""
    then some false
    else if not (isdigit ts)
    then some false
    else elim (parse_int ts) [
      | none ↦ none
      | some n ↦
          if ltb tolerance (distance now n)
          then some false
          else any_match (mac secret (ts ++ b'.' ∷ payload)) (candidates_of header)
    ]

-- A header is accepted only if its timestamp is a number within the tolerance of the clock and one
-- of its `v1` values is the code of that timestamp and the body under a secret that is not empty.
pub verify_stripe_signature_sound :
    (mac : Mac) (now : ℕ) (payload header : Text) (secret : String) (tolerance : ℕ)
    → verify_stripe_signature mac now payload header secret tolerance ≡ some true
    → (n : ℤ) × (parse_int (timestamp_of header) ≡ some n)
      × (distance now n ≤ tolerance)
      × (contains (candidates_of header) (mac secret (timestamp_of header ++ b'.' ∷ payload))
          ≡ true)
      × ((secret == "") ≡ false)
unfolding verify_stripe_signature
verify_stripe_signature_sound mac now payload header secret tolerance h =
    elim (Option-cases (parse_int (timestamp_of header))) [
      | inl e ↦ absurd (ground arith)
      | inr (n, e) ↦ (
        n,
        e,
        ground arith,
        any_match-contains (mac secret (timestamp_of header ++ b'.' ∷ payload))
            (candidates_of header) (ground arith),
        ground arith,
      )
    ]
