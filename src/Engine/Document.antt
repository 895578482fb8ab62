-- ===== src/Engine/Document.antt =====
-- The hits of a search in agent/detections/engine.py: their values, and what is read out of them.
-- agent/detections/engine.py (src/tinysocs): the detections over the hits of each rule. The search,
-- the reverse lookup of an address and the text of a dict or a list are parameters; the rules are those that
-- the YAML library has parsed; none is an exception. A value is what the JSON of a hit can hold: a
-- float is the integer that it equals, if it equals one, with its text as `str` gives it.
use tinysocs.Prelude.Core.{
  zero, suc, Bool, true, false, not, ◌&&◌, ◌||◌, Option, none, some, List, [], ◌∷◌, map,
  if◌then◌else◌,
}
use tinysocs.Prelude.Equality.{Eq, ◌==◌}
use tinysocs.Prelude.Int.{ℤ, pos, negsuc}
use tinysocs.Prelude.Json.{int_eq}
use tinysocs.Prelude.Strings.{codes}
use tinysocs.Prelude.Text.{Text, text_eq, show, split_on}

mutual
  pub data Value : Type 0 where
    null : Value
    text : Text → Value
    flag : Bool → Value
    number : ℤ → Value
    fraction : Option ℤ → Text → Value
    object : Fields → Value
    items : Items → Value

  pub data Fields : Type 0 where
    end : Fields
    field : Text → Value → Fields → Fields

  pub data Items : Type 0 where
    no_items : Items
    item : Value → Items → Items

ℤ-discrete : Discrete ℤ
ℤ-discrete = int_eq.dec

Text-discrete : Discrete Text
Text-discrete = text_eq.dec

Value-discrete : Discrete Value
Value-discrete = hlevel (ℤ-discrete, Text-discrete)

Values-discrete : Discrete (List Value)
Values-discrete = hlevel Value-discrete

-- The equality of the tuples that a counter has as keys.
instance unfoldable pub values_eq : Eq (List Value)
unfolding ℤ-discrete Text-discrete Value-discrete Values-discrete
values_eq = record { dec = Values-discrete }

unfoldable pub find_field : Text → Fields → Option Value
find_field name end = none
find_field name (field n v fs) = if n == name then some v else find_field name fs

abbrev pub or_null : Option Value → Value
or_null none = null
or_null (some v) = v

-- `d.get(name)`
abbrev pub get_field : Text → Fields → Value
get_field name fs = or_null (find_field name fs)

unfoldable pub extract_parts : List Text → Value → Value
extract_parts [] cur = cur
extract_parts (part ∷ parts) null = null
extract_parts (part ∷ parts) (text s) = null
extract_parts (part ∷ parts) (flag b) = null
extract_parts (part ∷ parts) (number n) = null
extract_parts (part ∷ parts) (fraction n s) = null
extract_parts (part ∷ parts) (items vs) = null
extract_parts (part ∷ parts) (object fs) = extract_parts parts (get_field part fs)

abbrev pub extract : Fields → Text → Value
extract doc path = extract_parts (split_on b'.' path) (object doc)

-- `str(n)`
abbrev pub show_ℤ : ℤ → Text
show_ℤ (pos n) = show n
show_ℤ (negsuc n) = b'-' ∷ show (suc n)

abbrev pub loopback : Text → Value
loopback s =
    if s == codes "::1" || s == codes "0:0:0:0:0:0:0:1" then text (codes "127.0.0.1") else text s

unfoldable pub ends_with : Text → Text → Bool
ends_with suffix [] = suffix == []
ends_with suffix (c ∷ s) = let rest = ends_with suffix s in suffix == c ∷ s || rest

-- The value in a condition.
abbrev pub is_truthy : Value → Bool
is_truthy null = false
is_truthy (text []) = false
is_truthy (text (c ∷ s)) = true
is_truthy (number (pos zero)) = false
is_truthy (number (pos (suc n))) = true
is_truthy (number (negsuc n)) = true
is_truthy (flag b) = b
is_truthy (fraction none s) = true
is_truthy (fraction (some n) s) = not (n == pos 0)
is_truthy (items no_items) = false
is_truthy (items (item v vs)) = true
is_truthy (object end) = false
is_truthy (object (field n v fs)) = true

-- `x or y`
abbrev pub or_value : Value → Value → Value
or_value x y = if is_truthy x then x else y

-- A dict or a list, which has no hash.
abbrev pub is_container : Value → Bool
is_container (object fs) = true
is_container (items vs) = true
is_container null = false
is_container (text s) = false
is_container (flag b) = false
is_container (number n) = false
is_container (fraction n s) = false

-- A tuple with a dict or a list in it is no key.
unfoldable pub is_hashable : List Value → Bool
is_hashable [] = true
is_hashable (v ∷ vs) = not (is_container v) && is_hashable vs

unfoldable pub all_hashable : List (List Value) → Bool
all_hashable [] = true
all_hashable (k ∷ ks) = is_hashable k && all_hashable ks

-- Values that are equal as keys have the same form: True is 1, False is 0, 2.0 is 2.
abbrev pub canonical : Value → Value
canonical null = null
canonical (text s) = text s
canonical (flag true) = number (pos 1)
canonical (flag false) = number (pos 0)
canonical (number n) = number n
canonical (fraction none s) = fraction none s
canonical (fraction (some n) s) = number n
canonical (object fs) = object fs
canonical (items vs) = items vs

abbrev pub canonical_key : List Value → List Value
canonical_key vs = map (λ v. canonical v) vs
