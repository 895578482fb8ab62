-- ===== src/Intel/Enrich.antt =====
-- What the enrichment of an indicator holds for each provider.
use tinysocs.Prelude.Core.{
  ◌≡◌, ◌⊎◌, refl, ap, sym, ◌∙◌, ℕ, Bool, true, false, not, ◌&&◌, String, Option, none, some, List,
  [], ◌∷◌, arith, if◌then◌else◌, Bool-cases, Option-cases, inl, inr,
}
use tinysocs.Prelude.Equality.{◌==◌, string_eq, contains, beq-cases, beq_refl}
use tinysocs.Prelude.Dict.{Dict, lookup, lookup-insert, lookup-nil}
use tinysocs.ThreatCache.{Key, Row, Table, matches, find, delete, expired, get}
use tinysocs.Intel.{
  Report, Reply, fresh, key_for, is_known, is_given, note, read_cache, put_if, store_replies,
  uncached, enrich_ioc,
}

abbrev pub or_else : Option Report → Option Report → Option Report
or_else none other = other
or_else (some r) other = some r

lookup-note :
    (p q : String) (o : Option Report) (results : Dict String Report)
    → lookup p (note q o results)
      ≡ (if p == q then or_else o (lookup p results) else lookup p results)
lookup-note p q none results = ground arith
lookup-note p q (some r) results = lookup-insert p q r results

-- Keys of two providers never have a row in common.
find-delete_other :
    (ioc_type ioc_value p q : String)
    → (p == q) ≡ false
    → (rs : Table)
    → find (key_for ioc_type ioc_value p) (delete (key_for ioc_type ioc_value q) rs)
      ≡ find (key_for ioc_type ioc_value p) rs
unfolding find delete matches
find-delete_other ioc_type ioc_value p q n [] = refl
find-delete_other ioc_type ioc_value p q n (r ∷ rs) =
    let rest = find-delete_other ioc_type ioc_value p q n rs in
    elim (beq-cases q r.key.provider) [
      | inl (b, e) ↦ let np : (p == r.key.provider) ≡ false = rw (← e) n in ground (arith, rest)
      | inr (b, e) ↦ ground (arith, rest)
    ]

find-delete : (k : Key) (rs : Table) → find k (delete k rs) ≡ none
unfolding find delete
find-delete k [] = refl
find-delete k (r ∷ rs) = ground (arith, find-delete k rs)

or_else-if :
    (b : Bool) (o other : Option Report)
    → (if b then or_else o (or_else o other) else or_else o other) ≡ or_else o other
or_else-if true none other = refl
or_else-if true (some r) other = refl
or_else-if false o other = refl

both :
    (o other : Option Report)
    → (if not (is_given (or_else o none)) then or_else other (or_else o none) else or_else o none)
      ≡ or_else o other
both none none = refl
both none (some r) = refl
both (some r) other = refl

module _ (dumps : Report → Option String) (loads : String → Option Report)
    (ioc_type ioc_value : String) (opens : Bool) where
  abbrev pub cached : ℕ → String → Table → Option Report
  cached now p rows = (get dumps loads opens (key_for ioc_type ioc_value p) now rows).0

  abbrev after : ℕ → String → Table → Table
  after now p rows = (get dumps loads opens (key_for ioc_type ioc_value p) now rows).1

  -- What a read gives, by the row that it finds.
  from_row : ℕ → Option Row → Option Report
  from_row now none = none
  from_row now (some r) = if expired now r then none else loads r.result_json

  get-from_row :
      (k : Key) (now : ℕ) (rows : Table)
      → (get dumps loads true k now rows).0 ≡ from_row now (find k rows)
  unfolding get from_row
  get-from_row k now rows = elim (Option-cases (find k rows)) [
    | inl e ↦ rw e refl
    | inr (r, e) ↦ elim (Bool-cases (expired now r)) [
      | inl old ↦ rw (e, old) refl
      | inr new ↦ rw (e, new) refl
    ]
  ]

  table-get :
      (k : Key) (now : ℕ) (rows : Table)
      → ((get dumps loads true k now rows).1 ≡ rows)
        ⊎ (((get dumps loads true k now rows).1 ≡ delete k rows)
            × (from_row now (find k rows) ≡ none))
  unfolding get from_row
  table-get k now rows = elim (Option-cases (find k rows)) [
    | inl e ↦ inl (rw e refl)
    | inr (r, e) ↦ elim (Bool-cases (expired now r)) [
      | inl old ↦ inr (rw (e, old) (refl, refl))
      | inr new ↦ inl (rw (e, new) refl)
    ]
  ]

  from_row-delete :
      (now : ℕ) (p q : String) (rows : Table)
      → from_row now (find (key_for ioc_type ioc_value q) rows) ≡ none
      → from_row now
          (find (key_for ioc_type ioc_value p) (delete (key_for ioc_type ioc_value q) rows))
        ≡ from_row now (find (key_for ioc_type ioc_value p) rows)
  unfolding from_row
  from_row-delete now p q rows gone = elim (beq-cases p q) [
    | inl (b, same) ↦
        rw same
          (ap (λ o. from_row now o) (find-delete (key_for ioc_type ioc_value q) rows) ∙ sym gone)
    | inr (b, n) ↦ ap (λ o. from_row now o) (find-delete_other ioc_type ioc_value p q b rows)
  ]

  -- The read of one provider changes what the cache has for no provider.
  cached-after :
      (now : ℕ) (p q : String) (rows : Table) → cached now p (after now q rows) ≡ cached now p rows
  unfolding get
  cached-after now p q rows = elim (Bool-cases opens) [
    | inl o ↦
        let k = key_for ioc_type ioc_value p in
        rw o (
          get-from_row k now (get dumps loads true (key_for ioc_type ioc_value q) now rows).1
          ∙ elim (table-get (key_for ioc_type ioc_value q) now rows) [
            | inl same ↦ ap (λ t. from_row now (find k t)) same
            | inr (less, gone) ↦
                ap (λ t. from_row now (find k t)) less ∙ from_row-delete now p q rows gone
          ]
          ∙ sym (get-from_row k now rows))
    | inr o ↦ rw o refl
  ]

  lookup-read_cache :
      (now : ℕ) (p : String) (ps : List String) (results : Dict String Report) (rows : Table)
      → lookup p (read_cache dumps loads ioc_type ioc_value opens now ps results rows).0 ≡ (
          if contains ps p
          then or_else (cached now p rows) (lookup p results)
          else lookup p results)
  unfolding read_cache
  lookup-read_cache now p [] results rows = refl
  lookup-read_cache now p (q ∷ ps) results rows =
      let rest =
        lookup-read_cache now p ps (note q (cached now q rows) results) (after now q rows) in
      rest
      ∙ rw (cached-after now p q rows, lookup-note p q (cached now q rows) results)
          (elim (beq-cases p q) [
            | inl (b, e) ↦
                rw (b, ← e) (or_else-if (contains ps p) (cached now p rows) (lookup p results))
            | inr (b, n) ↦ rw b refl
          ])

  lookup-store_replies :
      (ask : String → Reply) (now : ℕ) (p : String) (ps : List String)
      (results : Dict String Report) (rows : Table)
      → lookup p (store_replies dumps loads ioc_type ioc_value opens ask now ps results rows).0
        ≡ (if contains ps p then or_else (fresh (ask p)) (lookup p results) else lookup p results)
  unfolding store_replies
  lookup-store_replies ask now p [] results rows = refl
  lookup-store_replies ask now p (q ∷ ps) results rows =
      lookup-store_replies ask now p ps (note q (fresh (ask q)) results)
        (put_if dumps loads ioc_type ioc_value opens now q (fresh (ask q)) rows)
      ∙ rw (lookup-note p q (fresh (ask q)) results) (elim (beq-cases p q) [
        | inl (b, e) ↦ rw (b, ← e) (or_else-if (contains ps p) (fresh (ask p)) (lookup p results))
        | inr (b, n) ↦ rw b refl
      ])

  contains-uncached :
      (p : String) (results : Dict String Report) (ps : List String)
      → contains (uncached dumps loads ioc_type ioc_value opens results ps) p
        ≡ (contains ps p && not (is_given (lookup p results)))
  contains-uncached p results [] = refl
  contains-uncached p results (q ∷ ps) =
      let rest = contains-uncached p results ps in
      elim (beq-cases p q) [
        | inl (b, e) ↦ rw (← e) (ground (arith, rest, beq_refl p))
        | inr (b, n) ↦ ground (arith, rest)
      ]

  -- The enrichment of an address, a domain or a hash holds for each of the providers what the cache
  -- had for it, or else its answer; it holds none if the provider's lookup raised, took too long,
  -- gave nothing or gave an error, whatever became of the other providers' lookups.
  pub lookup-enrich_ioc :
      (ask : String → Reply) (now later : ℕ) (ps : List String) (rows : Table)
      → is_known ioc_type ≡ true
      → (p : String) → contains ps p ≡ true
      → lookup p (enrich_ioc dumps loads ioc_type ioc_value opens ask now later ps rows).0.results
        ≡ or_else (cached now p rows) (fresh (ask p))
  unfolding enrich_ioc
  lookup-enrich_ioc ask now later ps rows known p h =
      let found = read_cache dumps loads ioc_type ioc_value opens now ps [] rows in
      rw known (
        lookup-store_replies ask later p (uncached dumps loads ioc_type ioc_value opens found.0 ps)
          found.0 found.1
        ∙ rw (contains-uncached p found.0 ps, lookup-read_cache now p ps [] rows, h, lookup-nil p)
            (both (cached now p rows) (fresh (ask p))))
