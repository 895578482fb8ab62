-- ===== src/Anchors/Service.antt =====
-- What orchestrator/anchors.py relies on of OpenSearch, as documented for its index and alias
-- requests while no one else changes the indices.
use tinysocs.Prelude.Core.{
  ◌≡◌, refl, ℕ, Bool, true, false, String, Option, none, some, List, [], ◌∷◌, ltb, eqb, arith,
  if◌then◌else◌,
}
use tinysocs.Prelude.Equality.{◌==◌, contains, string_eq}
use tinysocs.Anchors.{OpenSearch, AliasAction, remove, add, is_success, ◌>>=◌}

-- Whether an index has the alias after actions, which are carried out in order; the removal from an
-- index that has it not, or is not there, changes nothing (`must_exist` is false).
unfoldable pub holds_after : String → List AliasAction → Bool → Bool
holds_after x [] b = b
holds_after x (remove idx ∷ actions) b = holds_after x actions (if x == idx then false else b)
holds_after x (add idx ∷ actions) b = holds_after x actions (if x == idx then true else b)

pub record Documented {S : Type 0} (api : OpenSearch S) (has_index has_alias : String → S → Bool)
    : Type 0 where
  pub head_finds :
      (name : String) (s : S) (code : ℕ)
      → (api.head name s).0 ≡ some code
      → eqb code 200 ≡ true
      → has_index name (api.head name s).1 ≡ true
  pub put_creates :
      (name : String) (s : S) (code : ℕ)
      → (api.put name s).0 ≡ some code
      → is_success code ≡ true
      → has_index name (api.put name s).1 ≡ true
  pub settings_keeps :
      (name x : String) (s : S) → has_index x (api.put_settings name s).1 ≡ has_index x s
  pub alias_keeps : (x : String) (s : S) → has_index x (api.get_alias s).1 ≡ has_index x s
  pub alias_missing :
      (x : String) (s : S) (code : ℕ) (names : List String)
      → (api.get_alias s).0 ≡ some (code, names)
      → eqb code 404 ≡ true
      → has_alias x (api.get_alias s).1 ≡ false
  pub alias_names :
      (x : String) (s : S) (code : ℕ) (names : List String)
      → (api.get_alias s).0 ≡ some (code, names)
      → ltb code 400 ≡ true
      → has_alias x (api.get_alias s).1 ≡ contains names x
  pub post_keeps :
      (x : String) (actions : List AliasAction) (s : S)
      → has_index x (api.post_aliases actions s).1 ≡ has_index x s
  pub post_applies :
      (x : String) (actions : List AliasAction) (s : S) (code : ℕ)
      → (api.post_aliases actions s).0 ≡ some code
      → is_success code ≡ true
      → has_alias x (api.post_aliases actions s).1 ≡ holds_after x actions (has_alias x s)
  pub cat_keeps : (x : String) (s : S) → has_index x (api.cat_indices s).1 ≡ has_index x s
  pub delete_keeps :
      (name x : String) (s : S)
      → (x == name) ≡ false
      → has_index x (api.delete name s).1 ≡ has_index x s

-- What holds of the result and the state if no exception ends the call.
abbrev pub Ok : {A S : Type 0} → (A → S → Type 0) → Option A × S → Type 0
Ok {A} P (o, s) = (a : A) → o ≡ some a → P a s

pub then-Ok :
    {A B S : Type 0} (P : A → S → Type 0) (Q : B → S → Type 0) (r : Option A × S)
    (f : A → S → Option B × S)
    → Ok P r
    → ((a : A) (s : S) → P a s → Ok Q (f a s))
    → Ok Q (r >>= f)
then-Ok P Q (none, s) f p k b h = absurd (ground arith)
then-Ok P Q (some a, s) f p k b h = k a s (p a refl) b h
