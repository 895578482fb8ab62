-- ===== src/Anchors.antt =====
-- orchestrator/anchors.py (src/tinysocs): the daily index behind the anchors' alias and the pruning
-- of old ones. OpenSearch is a parameter: a state of its own and a function for each request, which
-- gives the status code, or none where the request raises. What the code relies on is in Service.
pub mod Service
pub mod Alias
pub mod Prune
pub mod Tests
use tinysocs.Prelude.Core.{
  ℕ, ◌+◌, Bool, true, false, not, ◌&&◌, String, Option, none, some, List, [], ◌∷◌, ◌++◌, ltb, leb,
  eqb, if◌then◌else◌,
}
use tinysocs.Prelude.Equality.{◌==◌, string_eq}
use tinysocs.Prelude.Lists.{keep}

pub data AliasAction : Type 0 where
  remove : String → AliasAction
  add : String → AliasAction

-- HEAD and PUT of an index, PUT of its settings, GET of the alias with the keys of the answer, POST
-- of the actions on the alias, GET of the names of the daily indices and DELETE of an index.
pub record OpenSearch (S : Type 0) : Type 0 where
  pub head : String → S → Option ℕ × S
  pub put : String → S → Option ℕ × S
  pub put_settings : String → S → Option ℕ × S
  pub get_alias : S → Option (ℕ × List String) × S
  pub post_aliases : List AliasAction → S → Option ℕ × S
  pub cat_indices : S → Option (ℕ × List String) × S
  pub delete : String → S → Option ℕ × S

-- What follows a call; an exception ends the function.
infixl 10 ◌>>=◌
abbrev pub ◌>>=◌ : {A B S : Type 0} → Option A × S → (A → S → Option B × S) → Option B × S
(none, s) >>= f = (none, s)
(some a, s) >>= f = f a s

abbrev pub is_success : ℕ → Bool
is_success code = leb 200 code && ltb code 300

-- A status that is no success is a RuntimeError.
abbrev pub checked : {S : Type 0} → ℕ → S → Option ℕ × S
checked code s = if is_success code then (some code, s) else (none, s)

-- A 404 stands for no names; `raise_for_status` raises for any other error.
abbrev pub names_of : {S : Type 0} → ℕ × List String → S → Option (List String) × S
names_of (code, names) s =
    if eqb code 404 then (some [], s) else if ltb code 400 then (some names, s) else (none, s)

unfoldable pub removals : String → List String → List AliasAction
removals target [] = []
removals target (idx ∷ current) =
    let rest = removals target current in if idx == target then rest else remove idx ∷ rest

-- The actions of `_update_alias_exclusive`.
unfoldable pub alias_actions : String → List String → List AliasAction
alias_actions target current = removals target current ++ add target ∷ []

pub record Ensured : Type 0 where
  pub index : String
  pub created : Bool
  pub switched_from : List String

pub record Pruned : Type 0 where
  pub found : List String
  pub errors : List String

-- `date_of` gives the day number of a daily index's name, none for any other name; an index is a
-- victim if its day is before today less the retention.
unfoldable pub is_victim : (String → Option ℕ) → ℕ → ℕ → String → Bool
is_victim date_of today retention_days name = elim (date_of name) [
  | none ↦ false
  | some d ↦ ltb (d + retention_days) today
]

module _ {S : Type 0} (api : OpenSearch S) where
  unfoldable pub index_exists : String → S → Option Bool × S
  index_exists name s = api.head name s >>= λ code s'. (some (eqb code 200), s')

  unfoldable pub create_index : String → S → Option ℕ × S
  create_index name s = api.put name s >>= checked

  -- A failure, also one that raises, is only printed.
  unfoldable pub ensure_replicas : String → S → S
  ensure_replicas name s = (api.put_settings name s).1

  unfoldable pub get_alias_indices : S → Option (List String) × S
  get_alias_indices s = api.get_alias s >>= names_of

  unfoldable pub update_alias_exclusive : String → List String → S → Option ℕ × S
  update_alias_exclusive target current s =
      api.post_aliases (alias_actions target current) s >>= checked

  abbrev pub ensured : String → Bool → List String → Ensured
  ensured idx existed current = record {
    index = idx;
    created = not existed;
    switched_from = keep (λ x. not (x == idx)) current;
  }

  -- Once the index is there.
  unfoldable pub switch : String → Bool → S → Option Ensured × S
  switch idx existed s = get_alias_indices (ensure_replicas idx s) >>= λ current s'.
      update_alias_exclusive idx current s' >>= λ code s''.
      (some (ensured idx existed current), s'')

  abbrev pub after_head : String → Bool → S → Option Ensured × S
  after_head idx true s = switch idx true s
  after_head idx false s = create_index idx s >>= λ code s'. switch idx false s'

  -- `idx` is the index of today.
  unfoldable pub ensure_alias_today : String → S → Option Ensured × S
  ensure_alias_today idx s = index_exists idx s >>= after_head idx

  abbrev pub with_deleted : String → ℕ → Pruned → S → Option Pruned × S
  with_deleted name code p s =
      if is_success code
      then (some (record { found = name ∷ p.found; errors = p.errors }), s)
      else (some (record { found = p.found; errors = name ∷ p.errors }), s)

  -- The loop over the victims.
  unfoldable pub delete_all : List String → S → Option Pruned × S
  delete_all [] s = (some (record { found = []; errors = [] }), s)
  delete_all (name ∷ victims) s =
      api.delete name s >>= λ code s'. delete_all victims s' >>= with_deleted name code

  abbrev pub listed : ℕ × List String → S → Option (List String) × S
  listed (code, names) s = if ltb code 400 then (some names, s) else (none, s)

  abbrev pub prune_victims : Bool → List String → S → Option Pruned × S
  prune_victims true victims s = (some (record { found = victims; errors = [] }), s)
  prune_victims false victims s = delete_all victims s

  unfoldable pub prune_old_indices : (String → Option ℕ) → ℕ → ℕ → Bool → S → Option Pruned × S
  prune_old_indices date_of today retention_days dry s = (api.cat_indices s >>= listed) >>= λ names.
      prune_victims dry (keep (is_victim date_of today retention_days) names)
