-- ===== src/Master/Merge.antt =====
-- orchestrator/master.py (src/tinysocs): `merge_evidence`, for evidence that the nodes' answers were
-- parsed into, whose counts are at least 0.
use tinysocs.Prelude.Core.{
  ℕ, ◌-◌, max, Bool, false, ◌||◌, String, Option, none, some, List, [], ◌∷◌, ◌++◌, ltb,
  if◌then◌else◌,
}
use tinysocs.Prelude.Equality.{Eq, ◌==◌, string_eq, option_eq}
use tinysocs.Prelude.Lists.{length, take}
use tinysocs.Prelude.Json.{
  Json, Items, Fields, str, arr, obj, nil, cons, end, field, get, put, int_of, json_eq, int_eq,
}
use tinysocs.Prelude.Dict.{Dict, values, lookup, insert}

pub record DetectionEvidence : Type 0 where
  pub rule : String
  pub window : String
  pub host : Option String
  pub count : ℕ
  pub summary : Fields
  pub exemplars : List Json

-- `key not in seen`: numbers and truth values are equal by their values.
abbrev same_key : Json → Json → Bool
same_key a b = elim (int_of a) [
  | none ↦ a == b
  | some n ↦ elim (int_of b) [ none ↦ false | some m ↦ n == m ]
]

abbrev is_seen : Json → List Json → Bool
is_seen k [] = false
is_seen k (s ∷ seen) = same_key k s || is_seen k seen

-- The key of an item is its text for a list or an object, `dumps` being `json.dumps`, and the item
-- itself for any other.
abbrev pub key_of : (Json → String) → Json → Json
key_of dumps (arr xs) = str (dumps (arr xs))
key_of dumps (obj d) = str (dumps (obj d))
key_of dumps v = v

-- The first item of each key.
unfoldable pub unique : (Json → String) → List Json → Items → Items
unique dumps seen nil = nil
unique dumps seen (cons x xs) =
    let without = unique dumps seen xs in
    let rest = unique dumps (key_of dumps x ∷ seen) xs in
    if is_seen (key_of dumps x) seen then without else cons x rest

unfoldable pub append_items : Items → Items → Items
append_items nil ys = ys
append_items (cons x xs) ys = cons x (append_items xs ys)

unfoldable mutual
  -- `deep_union`: the second value wins, but lists are joined and objects are merged.
  pub deep_union : (Json → String) → Fields → Fields → Fields
  deep_union dumps a end = a
  deep_union dumps a (field k v b) = deep_union dumps (put k (combine dumps (get k a) v) a) b

  -- The value of a key after the second object's value for it.
  pub combine : (Json → String) → Option Json → Json → Json
  combine dumps (some (arr xs)) (arr ys) = arr (unique dumps [] (append_items xs ys))
  combine dumps (some (obj a)) (obj b) = obj (deep_union dumps a b)
  combine dumps o v = v

abbrev pub Key : Type 0
Key = String × Option String

Key-discrete : Discrete Key
Key-discrete = hlevel (string_eq.dec)

instance unfoldable pub key_eq : Eq Key
unfolding Key-discrete
key_eq = record { dec = Key-discrete }

abbrev pub key : DetectionEvidence → Key
key ev = (ev.rule, ev.host)

-- The first evidence of a key, and evidence onto that before it.
abbrev pub first : DetectionEvidence → DetectionEvidence
first ev = record {
  rule = ev.rule;
  window = ev.window;
  host = ev.host;
  count = ev.count;
  summary = ev.summary;
  exemplars = take 10 ev.exemplars;
}

abbrev pub more_exemplars : List Json → List Json → List Json
more_exemplars cur exemplars =
    if ltb (length cur) 10 then cur ++ take (10 - length cur) exemplars else cur

abbrev pub onto : (Json → String) → DetectionEvidence → DetectionEvidence → DetectionEvidence
onto dumps cur ev = record {
  rule = cur.rule;
  window = cur.window;
  host = cur.host;
  count = max cur.count ev.count;
  summary = deep_union dumps cur.summary ev.summary;
  exemplars = more_exemplars cur.exemplars ev.exemplars;
}

abbrev pub merged :
    (Json → String) → DetectionEvidence → Option DetectionEvidence → DetectionEvidence
merged dumps ev none = first ev
merged dumps ev (some cur) = onto dumps cur ev

unfoldable pub merge_into :
    (Json → String)
    → Dict Key DetectionEvidence
    → List DetectionEvidence
    → Dict Key DetectionEvidence
merge_into dumps by_key [] = by_key
merge_into dumps by_key (ev ∷ evs) =
    merge_into dumps (insert (key ev) (merged dumps ev (lookup (key ev) by_key)) by_key) evs

abbrev pub concat : List (List DetectionEvidence) → List DetectionEvidence
concat [] = []
concat (b ∷ bs) = b ++ concat bs

unfoldable pub merge_by_key :
    (Json → String) → List (List DetectionEvidence) → Dict Key DetectionEvidence
merge_by_key dumps batches = merge_into dumps [] (concat batches)

unfoldable pub merge_evidence :
    (Json → String) → List (List DetectionEvidence) → List DetectionEvidence
merge_evidence dumps batches = values (merge_by_key dumps batches)
