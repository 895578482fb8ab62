-- ===== src/Anchors/Alias.antt =====
-- After `ensure_alias_today` the alias stands for today's index alone.
use tinysocs.Prelude.Core.{
  ◌≡◌, refl, ◌∙◌, subst, ℕ, Bool, true, false, not, ◌&&◌, ◌||◌, String, some, List, [], ◌∷◌, ◌++◌,
  arith, eqb, ltb, Bool-cases, inl, inr, if◌then◌else◌,
}
use tinysocs.Prelude.Equality.{◌==◌, contains, string_eq, beq-cases}
use tinysocs.Anchors.{
  OpenSearch, add, removals, alias_actions, is_success, index_exists, create_index, ensure_replicas,
  get_alias_indices, update_alias_exclusive, Ensured, switch, after_head, ensure_alias_today,
  checked, names_of,
}
use tinysocs.Anchors.Service.{holds_after, Documented, Ok, then-Ok}

holds_after-actions :
    (target x : String) (current : List String) (b : Bool)
    → holds_after x (removals target current ++ add target ∷ []) b
      ≡ (x == target || (b && not (contains current x)))
unfolding holds_after removals
holds_after-actions target x [] b = ground arith
holds_after-actions target x (idx ∷ current) b = elim (beq-cases idx target) [
  | inl (e, p) ↦ rw e (
      ground
        (arith, holds_after-actions target x current b, subst (λ y. (x == idx) ≡ (x == y)) p refl))
  | inr (e, n) ↦
      rw e (ground (arith, holds_after-actions target x current (if x == idx then false else b)))
]

exclusive : (b c : Bool) → b ≡ c → (a : Bool) → (a || (b && not c)) ≡ a
exclusive true c p true = ground arith
exclusive true c p false = ground arith
exclusive false c p true = ground arith
exclusive false c p false = ground arith

module _ {S : Type 0} (api : OpenSearch S) (has_index has_alias : String → S → Bool) where
  abbrev Here : String → S → Type 0
  Here idx s = has_index idx s ≡ true

  -- The index is there and the alias is where the answer says.
  abbrev Listed : String → ℕ × List String → S → Type 0
  Listed idx (code, names) s =
      Here idx s
      × (eqb code 404 ≡ true → (x : String) → has_alias x s ≡ false)
      × (ltb code 400 ≡ true → (x : String) → has_alias x s ≡ contains names x)

  abbrev Lists : String → List String → S → Type 0
  Lists idx current s = Here idx s × ((x : String) → has_alias x s ≡ contains current x)

  abbrev pub IsExclusive : String → S → Type 0
  IsExclusive idx s = (has_index idx s ≡ true) × ((x : String) → has_alias x s ≡ (x == idx))

  names_of-Lists :
      (idx : String) (reply : ℕ × List String) (s : S)
      → Listed idx reply s
      → Ok (Lists idx) (names_of reply s)
  names_of-Lists idx (code, names) s (here, missing, named) = elim (Bool-cases (eqb code 404)) [
    | inl e ↦ rw e (λ current h. (here, λ x. missing e x ∙ ground arith))
    | inr e ↦ elim (Bool-cases (ltb code 400)) [
      | inl f ↦ rw (e, f) (λ current h. (here, λ x. named f x ∙ ground arith))
      | inr f ↦ rw (e, f) (λ current h. absurd (ground arith))
    ]
  ]

module _ {S : Type 0} (api : OpenSearch S) (has_index has_alias : String → S → Bool)
    (d : Documented api has_index has_alias) where
  get_alias_indices-Lists :
      (idx : String) (s : S)
      → Here api has_index has_alias idx s
      → Ok (Lists api has_index has_alias idx) (get_alias_indices api s)
  unfolding get_alias_indices
  get_alias_indices-Lists idx s here =
      then-Ok (Listed api has_index has_alias idx) (Lists api has_index has_alias idx)
        (api.get_alias s) names_of
        (λ reply h. (
          d.alias_keeps idx s ∙ here,
          λ e x. d.alias_missing x s reply.0 reply.1 h e,
          λ e x. d.alias_names x s reply.0 reply.1 h e,
        ))
        (names_of-Lists api has_index has_alias idx)

  update_alias_exclusive-IsExclusive :
      (idx : String) (current : List String) (s : S)
      → Lists api has_index has_alias idx current s
      → Ok
          (λ code. IsExclusive api has_index has_alias idx)
          (update_alias_exclusive api idx current s)
  unfolding update_alias_exclusive alias_actions
  update_alias_exclusive-IsExclusive idx current s (here, named) =
      let actions = alias_actions idx current in
      then-Ok (λ code s'. is_success code ≡ true → IsExclusive api has_index has_alias idx s')
        (λ code. IsExclusive api has_index has_alias idx) (api.post_aliases actions s) checked
        (λ code h e. (
          d.post_keeps idx actions s ∙ here,
          λ x.
              d.post_applies x actions s code h e
              ∙ holds_after-actions idx x current (has_alias x s)
              ∙ exclusive (has_alias x s) (contains current x) (named x) (x == idx),
        ))
        (λ code s' posted. elim (Bool-cases (is_success code)) [
          | inl e ↦ rw e (λ a h. posted e)
          | inr e ↦ rw e (λ a h. absurd (ground arith))
        ])

  switch-IsExclusive :
      (idx : String) (existed : Bool) (s : S)
      → Here api has_index has_alias idx s
      → Ok
          (λ report s'. (report.created ≡ not existed) × IsExclusive api has_index has_alias idx s')
          (switch api idx existed s)
  unfolding switch ensure_replicas
  switch-IsExclusive idx existed s here =
      let Q : Ensured → S → Type 0 =
        λ report s'. (report.created ≡ not existed) × IsExclusive api has_index has_alias idx s' in
      let s1 = ensure_replicas api idx s in
      then-Ok (Lists api has_index has_alias idx) Q (get_alias_indices api s1) _
        (get_alias_indices-Lists idx s1 (d.settings_keeps idx idx s ∙ here))
        (λ current s2 listed.
          then-Ok (λ code. IsExclusive api has_index has_alias idx) Q
            (update_alias_exclusive api idx current s2) _
            (update_alias_exclusive-IsExclusive idx current s2 listed)
            (λ code s3 done report h. (ground arith, done)))

  create_index-Here :
      (idx : String) (s : S)
      → Ok (λ code. Here api has_index has_alias idx) (create_index api idx s)
  unfolding create_index
  create_index-Here idx s =
      then-Ok (λ code s'. is_success code ≡ true → Here api has_index has_alias idx s')
        (λ code. Here api has_index has_alias idx) (api.put idx s) checked
        (λ code h e. d.put_creates idx s code h e)
        (λ code s' created. elim (Bool-cases (is_success code)) [
          | inl e ↦ rw e (λ a h. created e)
          | inr e ↦ rw e (λ a h. absurd (ground arith))
        ])

  index_exists-Here :
      (idx : String) (s : S)
      → Ok
          (λ existed s'. existed ≡ true → Here api has_index has_alias idx s')
          (index_exists api idx s)
  unfolding index_exists
  index_exists-Here idx s =
      let Q : Bool → S → Type 0 =
        λ existed s'. existed ≡ true → Here api has_index has_alias idx s' in
      then-Ok (λ code s'. eqb code 200 ≡ true → Here api has_index has_alias idx s') Q
        (api.head idx s) _ (λ code h e. d.head_finds idx s code h e)
        (λ code s' found existed h e. found (ground arith))

  Switched : Bool → String → Ensured → S → Type 0
  Switched existed idx report s =
      (report.created ≡ not existed) × IsExclusive api has_index has_alias idx s

  after_head-Switched :
      (idx : String) (existed : Bool) (s : S)
      → (existed ≡ true → Here api has_index has_alias idx s)
      → Ok (Switched existed idx) (after_head api idx existed s)
  unfolding Switched
  after_head-Switched idx true s here = switch-IsExclusive idx true s (here refl)
  after_head-Switched idx false s here =
      then-Ok (λ code. Here api has_index has_alias idx) (Switched false idx)
        (create_index api idx s) _ (create_index-Here idx s)
        (λ code s' created. switch-IsExclusive idx false s' created)

-- If OpenSearch does as documented and `ensure_alias_today` does not raise, then today's index
-- exists and it is the one index with the alias; the answer says that it was created exactly if
-- the HEAD request did not find it.
pub ensure_alias_today-exclusive :
    {S : Type 0} (api : OpenSearch S) (has_index has_alias : String → S → Bool)
    → Documented api has_index has_alias
    → (idx : String) (s : S) (report : Ensured) → (ensure_alias_today api idx s).0 ≡ some report
    → ((index_exists api idx s).0 ≡ some (not report.created))
      × (has_index idx (ensure_alias_today api idx s).1 ≡ true)
      × ((x : String) → has_alias x (ensure_alias_today api idx s).1 ≡ (x == idx))
unfolding ensure_alias_today Switched
ensure_alias_today-exclusive api has_index has_alias d idx s report h =
    then-Ok
      (λ existed s'.
        ((index_exists api idx s).0 ≡ some existed)
        × (existed ≡ true → Here api has_index has_alias idx s'))
      (λ answer s'.
        ((index_exists api idx s).0 ≡ some (not answer.created))
        × (has_index idx s' ≡ true)
        × ((x : String) → has_alias x s' ≡ (x == idx)))
      (index_exists api idx s) (after_head api idx)
      (λ existed e. (e, index_exists-Here api has_index has_alias d idx s existed e))
      (λ existed s' found answer e.
        let (told, done) =
          after_head-Switched api has_index has_alias d idx existed s' found.1 answer e in
        (found.0 ∙ ground (arith, told), done.0, done.1))
      report h
