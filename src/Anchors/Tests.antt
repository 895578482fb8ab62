-- ===== src/Anchors/Tests.antt =====
-- One day of the anchors' indices, with a service that keeps the names of the indices and of those
-- with the alias.
use tinysocs.Prelude.Core.{
  ◌≡◌, refl, sym, ap, subst, ◌∙◌, ℕ, Bool, true, false, not, String, Option, none, some, List, [],
  ◌∷◌, arith, eqb, Bool-cases, inl, inr, if◌then◌else◌,
}
use tinysocs.Prelude.Equality.{◌==◌, contains, string_eq, beq_refl, beq-cases}
use tinysocs.Prelude.Lists.{keep}
use tinysocs.Anchors.{
  OpenSearch, AliasAction, remove, add, Ensured, Pruned, index_exists, ensure_alias_today,
  is_success, is_victim, prune_old_indices,
}
use tinysocs.Anchors.Service.{holds_after, Documented}
use tinysocs.Anchors.Alias.{ensure_alias_today-exclusive}

record Cluster : Type 0 where
  pub indices : List String
  pub holders : List String

abbrev apply_actions : List AliasAction → List String → List String
apply_actions [] holders = holders
apply_actions (remove idx ∷ actions) holders =
    apply_actions actions (keep (λ h. not (h == idx)) holders)
apply_actions (add idx ∷ actions) holders = apply_actions actions (idx ∷ holders)

abbrev with_index : String → Cluster → Cluster
with_index name c = record { indices = name ∷ c.indices; holders = c.holders }

abbrev with_actions : List AliasAction → Cluster → Cluster
with_actions actions c = record { indices = c.indices; holders = apply_actions actions c.holders }

abbrev without : String → Cluster → Cluster
without name c = record {
  indices = keep (λ x. not (x == name)) c.indices;
  holders = keep (λ x. not (x == name)) c.holders;
}

abbrev service : OpenSearch Cluster
service = record {
  head = λ name c. (some (if contains c.indices name then 200 else 404), c);
  put = λ name c. if contains c.indices name then (some 400, c) else (some 200, with_index name c);
  put_settings = λ name c. (none, c);
  get_alias = λ c. (some (200, c.holders), c);
  post_aliases = λ actions c. (some 200, with_actions actions c);
  cat_indices = λ c. (some (200, c.indices), c);
  delete = λ name c. (some 200, without name c);
}

abbrev has_index : String → Cluster → Bool
has_index x c = contains c.indices x

abbrev has_alias : String → Cluster → Bool
has_alias x c = contains c.holders x

contains-keep :
    (x name : String) (xs : List String)
    → contains (keep (λ y. not (y == name)) xs) x ≡ (if x == name then false else contains xs x)
contains-keep x name [] = ground arith
contains-keep x name (y ∷ xs) = elim (beq-cases y name) [
  | inl (e, p) ↦
      rw e (ground (arith, contains-keep x name xs, subst (λ z. (x == y) ≡ (x == z)) p refl))
  | inr (e, n) ↦ rw e (elim (beq-cases x y) [
    | inl (f, q) ↦ rw (f, subst (λ z. (z == name) ≡ false) (sym q) e) refl
    | inr (f, m) ↦ rw f (contains-keep x name xs)
  ])
]

contains-apply_actions :
    (x : String) (actions : List AliasAction) (holders : List String)
    → contains (apply_actions actions holders) x ≡ holds_after x actions (contains holders x)
unfolding holds_after
contains-apply_actions x [] holders = refl
contains-apply_actions x (remove idx ∷ actions) holders =
    contains-apply_actions x actions (keep (λ h. not (h == idx)) holders)
    ∙ rw (contains-keep x idx holders) refl
contains-apply_actions x (add idx ∷ actions) holders =
    contains-apply_actions x actions (idx ∷ holders)
    ∙ elim (Bool-cases (x == idx)) [ inl e ↦ rw e refl | inr e ↦ rw e refl ]

abbrev names_in : Option (ℕ × List String) → List String
names_in none = []
names_in (some (code, names)) = names

abbrev status_in : Option (ℕ × List String) → ℕ
status_in none = 0
status_in (some (code, names)) = code

found : (b : Bool) → eqb (if b then 200 else 404) 200 ≡ true → b ≡ true
found true h = refl
found false h = absurd (ground arith)

told_code : (a code n : ℕ) → some a ≡ some code → eqb code n ≡ true → eqb a n ≡ true
told_code a code n h e = ground arith

abbrev reply : ℕ → List String → Option (ℕ × List String)
reply code names = some (code, names)

not_missing :
    (code : ℕ) (hs names : List String) → reply 200 hs ≡ reply code names → eqb code 404 ≡ true → ⊥
not_missing code hs names h e = ground (arith, ap status_in h)

service-Documented : Documented service has_index has_alias
service-Documented = record {
  head_finds = λ name s code h e. found (contains s.indices name) (told_code _ code 200 h e);
  put_creates = λ name s code h e. elim (Bool-cases (contains s.indices name)) [
    | inl f ↦ rw f f
    | inr f ↦ rw f (rw (beq_refl name) refl)
  ];
  settings_keeps = λ name x s. refl;
  alias_keeps = λ x s. refl;
  alias_missing = λ x s code names h e. absurd (not_missing code s.holders names h e);
  alias_names = λ x s code names h e. ap (λ r. contains (names_in r) x) h;
  post_keeps = λ x actions s. refl;
  post_applies = λ x actions s code h e. contains-apply_actions x actions s.holders;
  cat_keeps = λ x s. refl;
  delete_keeps = λ name x s h. contains-keep x name s.indices ∙ rw h refl;
}

abbrev some_cluster : Cluster
some_cluster = record { indices = "a-1" ∷ "a-2" ∷ "other" ∷ []; holders = "a-1" ∷ "a-2" ∷ [] }

abbrev report : Ensured
report = record { index = "a-3"; created = true; switched_from = "a-1" ∷ "a-2" ∷ [] }

ensured : (ensure_alias_today service "a-3" some_cluster).0 ≡ some report
unfolding ensure_alias_today index_exists string_eq tinysocs.Anchors.create_index
    tinysocs.Anchors.switch tinysocs.Anchors.get_alias_indices
    tinysocs.Anchors.update_alias_exclusive tinysocs.Anchors.ensure_replicas
ensured = refl

-- The index cannot be created if HEAD does not find it although it is there.
abbrev blind : OpenSearch Cluster
blind = record service { head = λ name c. (some 503, c) }

blind_raises : (ensure_alias_today blind "a-1" some_cluster).0 ≡ none
unfolding ensure_alias_today index_exists tinysocs.Anchors.create_index string_eq
blind_raises = refl

ensure_alias_today-exclusive_example :
    ((index_exists service "a-3" some_cluster).0 ≡ some (not report.created))
    × (has_index "a-3" (ensure_alias_today service "a-3" some_cluster).1 ≡ true)
    × ((x : String) → has_alias x (ensure_alias_today service "a-3" some_cluster).1 ≡ (x == "a-3"))
ensure_alias_today-exclusive_example =
    ensure_alias_today-exclusive service has_index has_alias service-Documented "a-3" some_cluster
      report ensured

abbrev day_of : String → Option ℕ
day_of name = if name == "a-1" then some 1 else if name == "a-2" then some 2 else none

-- The index of the first day goes.
pruned :
    (prune_old_indices service day_of 40 38 false some_cluster).0
    ≡ some (record { found = "a-1" ∷ []; errors = [] })
unfolding prune_old_indices tinysocs.Anchors.delete_all is_victim string_eq
pruned = refl
