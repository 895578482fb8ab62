-- ===== src/Engine/Run.antt =====
-- agent/detections/engine.py: the findings of each rule over its hits.
use tinysocs.Prelude.Core.{
  ℕ, suc, ◌||◌, Option, none, some, List, [], ◌∷◌, ◌++◌, map, eqb, ltb, if◌then◌else◌,
}
use tinysocs.Prelude.Equality.{◌==◌}
use tinysocs.Prelude.Lists.{length, take}
use tinysocs.Prelude.Dict.{Dict, lookup, insert, drop_if}
use tinysocs.Prelude.Int.{ℤ, pos, ltb_ℤ}
use tinysocs.Prelude.Json.{int_eq}
use tinysocs.Prelude.Strings.{codes}
use tinysocs.Prelude.Text.{Text, text_eq, strip}
use tinysocs.Engine.Document.{
  Fields, Value, all_hashable, end, ends_with, extract, find_field, get_field, is_truthy, loopback,
  canonical_key, flag, fraction, items, null, number, object, or_value, show_ℤ, text, values_eq,
}

infixl 10 ◌>>=◌
abbrev ◌>>=◌ {ℓ κ} : {A : Type ℓ} {B : Type κ} → Option A → (A → Option B) → Option B
none >>= f = none
some a >>= f = f a

-- The first of the equal keys stays, with their number.
abbrev pub bump : List Value → Option (List Value × ℕ) → List Value × ℕ
bump k none = (k, 1)
bump k (some (j, n)) = (j, suc n)

-- `collections.Counter`, onto the counts before, by the form of the keys.
unfoldable pub counter :
    List (List Value) → Dict (List Value) (List Value × ℕ) → Dict (List Value) (List Value × ℕ)
counter [] counts = counts
counter (k ∷ ks) counts =
    let form = canonical_key k in counter ks (insert form (bump k (lookup form counts)) counts)

-- The buckets that are not under the threshold.
unfoldable pub buckets : ℤ → List (List Value) → Dict (List Value) (List Value × ℕ)
buckets threshold ks = drop_if (λ b. ltb_ℤ (pos b.1) threshold) (counter ks [])

pub record Rule : Type 0 where
  pub id : Text
  pub description : Text
  pub index : Text
  pub kql : Text
  pub threshold : Option ℤ
  pub group_by : Option (List Text)

pub data Shown : Type 0 where
  value : Value → Shown
  hits : ℕ → Shown

pub record Sample : Type 0 where
  pub timestamp : Value
  pub process : Value
  pub cmd : Value

pub data Finding : Type 0 where
  bucket : Text → Text → Dict Text Shown → List Fields → Finding
  matched : Text → Text → ℕ → List Sample → Finding

abbrev pub underscored : Text → Text
underscored s = map (λ c. if eqb c b'.' then b'_' else c) s

abbrev pub evidence_name : Text → Text
evidence_name fld =
    if fld == codes "source.ip"
    then codes "ip"
    else if fld == codes "user.name"
    then codes "user"
    else underscored fld

-- The group fields with their values, and the address that is looked up.
unfoldable pub add_fields :
    List Text → List Value → Dict Text Shown → Value → Dict Text Shown × Value
add_fields [] vs ev ip = (ev, ip)
add_fields (fld ∷ flds) [] ev ip = (ev, ip)
add_fields (fld ∷ flds) (v ∷ vs) ev ip =
    add_fields flds vs (insert (evidence_name fld) (value v) ev)
      (if fld == codes "source.ip" then or_value v ip else ip)

-- `r.get("group_by") or [...]`
abbrev pub group_fields : Option (List Text) → List Text
group_fields none = codes "source.ip" ∷ codes "user.name" ∷ []
group_fields (some []) = codes "source.ip" ∷ codes "user.name" ∷ []
group_fields (some (f ∷ fs)) = f ∷ fs

abbrev pub or_dash : Value → Value
or_dash v = or_value v (text (codes "-"))

-- `(x or {}).get`: a value that is neither false nor a dict has no `get`.
abbrev pub get_dict : Value → Option Fields
get_dict (object fs) = some fs
get_dict null = some end
get_dict (text s) = if is_truthy (text s) then none else some end
get_dict (flag b) = if b then none else some end
get_dict (number n) = if is_truthy (number n) then none else some end
get_dict (fraction n s) = if is_truthy (fraction n s) then none else some end
get_dict (items vs) = if is_truthy (items vs) then none else some end

-- `.get("event_data", {}).get`: only a key that is missing stands for the empty dict.
abbrev pub get_event_data : Option Value → Option Fields
get_event_data none = some end
get_event_data (some (object fs)) = some fs
get_event_data (some null) = none
get_event_data (some (text s)) = none
get_event_data (some (flag b)) = none
get_event_data (some (number n)) = none
get_event_data (some (fraction n s)) = none
get_event_data (some (items vs)) = none

abbrev pub shorten : Value → Value
shorten null = null
shorten (text s) = if ltb 140 (length s) then text (take 140 s ++ codes "â€¦") else text s
shorten (flag b) = flag b
shorten (number n) = number n
shorten (fraction n s) = fraction n s
shorten (items vs) = items vs
shorten (object fs) = object fs

abbrev pub sample_of : Fields → Fields → Fields → Sample
sample_of h process event_data =
    let command = get_field (codes "command_line") process in
    record {
      timestamp = or_dash (get_field (codes "@timestamp") h);
      process = or_dash (get_field (codes "name") process);
      cmd = shorten (or_value (get_field (codes "CommandLine") event_data) (or_dash command));
    }

abbrev pub sample_hit : Fields → Option Sample
sample_hit h = do
  process ← get_dict (get_field (codes "process") h)
  winlog ← get_dict (get_field (codes "winlog") h)
  event_data ← get_event_data (find_field (codes "event_data") winlog)
  some (sample_of h process event_data)

unfoldable pub sample_all : List Fields → Option (List Sample)
sample_all [] = some []
sample_all (h ∷ hs) = do s ← sample_hit h; rest ← sample_all hs; some (s ∷ rest)

abbrev pub short_sample : List Fields → Option (List Sample)
short_sample hs = sample_all (take 10 hs)

abbrev pub list_if : Rule → List Fields → Option (List Sample) → Option (List Finding)
list_if r hs none = none
list_if r hs (some samples) = some (matched r.id r.description (length hs) samples ∷ [])

-- A rule with no threshold.
abbrev pub list_hits : Rule → List Fields → Option (List Finding)
list_hits r [] = some []
list_hits r (h ∷ hs) = list_if r (h ∷ hs) (short_sample (h ∷ hs))

module _ (str_value : Value → Text) (rdns : Value → Value) where
  unfoldable pub normalize_ip : Value → Value
  normalize_ip null = null
  normalize_ip (text s) = if s == [] || s == codes "-" then null else loopback (strip s)
  normalize_ip (number n) = loopback (strip (show_ℤ n))
  normalize_ip (flag b) = if b then text (codes "True") else text (codes "False")
  normalize_ip (fraction n s) = loopback (strip s)
  normalize_ip (object fs) = loopback (strip (str_value (object fs)))
  normalize_ip (items vs) = loopback (strip (str_value (items vs)))

  abbrev pub value_for : Fields → Text → Value
  value_for doc fld =
      if ends_with (codes ".ip") fld then normalize_ip (extract doc fld) else extract doc fld

  abbrev pub key_for : List Text → Fields → List Value
  key_for flds doc = map (λ fld. value_for doc fld) flds

  abbrev pub with_rdns : Dict Text Shown × Value → Dict Text Shown
  with_rdns (ev, ip) = if is_truthy ip then insert (codes "ip_rdns") (value (rdns ip)) ev else ev

  unfoldable pub evidence : List Text → List Value → ℕ → Dict Text Shown
  evidence flds key n = insert (codes "count") (hits n) (with_rdns (add_fields flds key [] null))

  abbrev pub finding_of : Rule → List Fields → List Value × ℕ → Finding
  finding_of r hs (key, n) =
      bucket r.id r.description (evidence (group_fields r.group_by) key n) (take 10 hs)

  abbrev pub count_hits : Rule → ℤ → List Fields → Option (List Finding)
  count_hits r threshold hs =
      let ks = map (λ doc. key_for (group_fields r.group_by) doc) hs in
      if all_hashable ks then some (map (λ b. finding_of r hs b.1) (buckets threshold ks)) else none

  -- A threshold of 0 is as good as none.
  unfoldable pub run_rule : Rule → Option ℤ → List Fields → Option (List Finding)
  run_rule r none hs = list_hits r hs
  run_rule r (some t) hs = if t == pos 0 then list_hits r hs else count_hits r t hs

  unfoldable pub run_detections : (Text → Text → List Fields) → List Rule → Option (List Finding)
  run_detections find_hits [] = some []
  run_detections find_hits (r ∷ rules) = do
    found ← run_rule r r.threshold (find_hits r.index r.kql)
    rest ← run_detections find_hits rules
    some (found ++ rest)
