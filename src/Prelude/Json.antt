-- ===== src/Prelude/Json.antt =====
-- JSON values, which the code holds as Python's None, bool, int, str, list and dict.
-- Floats do not occur: the code reads no fractional number of its JSON inputs.
use tinysocs.Prelude.Core.{
  ◌≡◌, refl, arith, Bool, true, false, String, Option, none, some, zero, if◌then◌else◌,
}
use tinysocs.Prelude.Equality.{Eq, ◌==◌, string_eq, nat_eq}
use tinysocs.Prelude.Int.{ℤ, pos}
use native.Mathlib.Decide.{ℕ_discrete}

ℤ-discrete : Discrete ℤ
ℤ-discrete = hlevel ℕ_discrete

instance unfoldable pub int_eq : Eq ℤ
unfolding ℤ-discrete
int_eq = record { dec = ℤ-discrete }

String-discrete : Discrete String
String-discrete = string_eq.dec

mutual
  pub data Json : Type 0 where
    null : Json
    bool : Bool → Json
    num : ℤ → Json
    str : String → Json
    arr : Items → Json
    obj : Fields → Json

  pub data Items : Type 0 where
    nil : Items
    cons : Json → Items → Items

  pub data Fields : Type 0 where
    end : Fields
    field : String → Json → Fields → Fields

pub Json-discrete : Discrete Json
Json-discrete = hlevel (ℤ-discrete, String-discrete)

instance unfoldable pub json_eq : Eq Json
unfolding Json-discrete ℤ-discrete String-discrete
json_eq = record { dec = Json-discrete }

-- `d.get(k)`
unfoldable pub get : String → Fields → Option Json
get k end = none
get k (field j v d) = if k == j then some v else get k d

-- The integer that a value is for Python's arithmetic and `==`: True is 1 and False is 0.
abbrev pub int_of : Json → Option ℤ
int_of (num n) = some n
int_of (bool true) = some (pos 1)
int_of (bool false) = some (pos 0)
int_of _ = none

-- A value that may be None.
abbrev pub opt_str : Option String → Json
opt_str none = null
opt_str (some s) = str s

-- `d[k] = v`
unfoldable pub put : String → Json → Fields → Fields
put k v end = field k v end
put k v (field j w d) = if k == j then field j v d else field j w (put k v d)

pub get-put :
    (j k : String) (v : Json) (d : Fields)
    → get j (put k v d) ≡ (if j == k then some v else get j d)
unfolding get put
get-put j k v end = refl
get-put j k v (field i w d) = ground (arith, get-put j k v d)

-- Python's truth of a value.
abbrev pub truthy : Json → Bool
truthy null = false
truthy (bool b) = b
truthy (num (pos zero)) = false
truthy (num n) = true
truthy (str s) = if s == "" then false else true
truthy (arr nil) = false
truthy (arr xs) = true
truthy (obj end) = false
truthy (obj d) = true
