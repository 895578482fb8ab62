-- ===== src/Engine/Buckets.antt =====
-- The findings of a rule with a threshold.
use tinysocs.Prelude.Core.{
  ◌≡◌, refl, ◌∙◌, ℕ, suc, true, false, Option, none, some, List, [], ◌∷◌, map, arith, if◌then◌else◌,
}
use tinysocs.Prelude.Equality.{◌==◌}
use tinysocs.Prelude.Lists.{length}
use tinysocs.Prelude.Dict.{
  Dict, lookup, lookup-nil, NodupKeys, unless, lookup-drop_if, drop_if-NodupKeys,
}
use tinysocs.Prelude.Int.{ℤ, pos, ltb_ℤ}
use tinysocs.Prelude.Json.{int_eq}
use tinysocs.Prelude.Text.{Text}
use tinysocs.Engine.Document.{Value, Fields, values_eq, all_hashable}
use tinysocs.Engine.Run.{
  counter, buckets, Rule, Finding, group_fields, key_for, finding_of, run_rule,
}
use tinysocs.Engine.Counter.{matching, add_to, lookup-counter, counter-NodupKeys}

-- What a rule reports of equal keys: the first of them and their number, if they are as many as the
-- threshold.
abbrev pub reported : ℤ → List (List Value) → Option (List Value × ℕ)
reported t [] = none
reported t (k ∷ ks) = let n = suc (length ks) in if ltb_ℤ (pos n) t then none else some (k, n)

unless-reported :
    (t : ℤ) (ks : List (List Value))
    → unless (λ b. ltb_ℤ (pos b.1) t) (add_to none ks) ≡ reported t ks
unless-reported t [] = refl
unless-reported t (k ∷ ks) = ground arith

pub lookup-buckets :
    (t : ℤ) (form : List Value) (ks : List (List Value))
    → lookup form (buckets t ks) ≡ reported t (matching form ks)
unfolding buckets
lookup-buckets t form ks =
    lookup-drop_if (λ b. ltb_ℤ (pos b.1) t) form (counter ks []) (counter-NodupKeys ks [] tt)
    ∙ rw (lookup-counter form ks [], lookup-nil form) (unless-reported t (matching form ks))

buckets-NodupKeys : (t : ℤ) (ks : List (List Value)) → NodupKeys (buckets t ks)
unfolding buckets
buckets-NodupKeys t ks =
    drop_if-NodupKeys (λ b. ltb_ℤ (pos b.1) t) (counter ks []) (counter-NodupKeys ks [] tt)

-- What a rule reports: the findings of buckets, one for each form of a key that as many hits as the
-- threshold have, made from the first of these keys and their number.
pub record Reports (str_value : Value → Text) (rdns : Value → Value) (r : Rule) (t : ℤ)
    (hs : List Fields) (found : Option (List Finding)) : Type 0 where
  pub counts : Dict (List Value) (List Value × ℕ)
  pub result : found ≡ some (map (λ b. finding_of str_value rdns r hs b.1) counts)
  pub once : NodupKeys counts
  pub count_of :
      (form : List Value)
      → lookup form counts
        ≡ reported t
            (matching form (map (λ doc. key_for str_value rdns (group_fields r.group_by) doc) hs))

-- A rule with a threshold other than 0, of whose hits no group field is a dict or a list, does not
-- raise. It reports exactly the keys, equal ones as one, that at least one hit and as many hits as
-- the threshold have, each in one finding, which is made from the first of the equal keys and the
-- number of the hits with them.
pub run_rule-threshold :
    (str_value : Value → Text) (rdns : Value → Value) (r : Rule) (t : ℤ) (hs : List Fields)
    → (t == pos 0) ≡ false
    → all_hashable (map (λ doc. key_for str_value rdns (group_fields r.group_by) doc) hs) ≡ true
    → Reports str_value rdns r t hs (run_rule str_value rdns r (some t) hs)
unfolding run_rule
run_rule-threshold str_value rdns r t hs positive hashable =
    let ks = map (λ doc. key_for str_value rdns (group_fields r.group_by) doc) hs in
    record {
      counts = buckets t ks;
      result = rw (positive, hashable) refl;
      once = buckets-NodupKeys t ks;
      count_of = λ form. lookup-buckets t form ks;
    }
