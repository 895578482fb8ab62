-- ===== src/Ledger/Chain.antt =====
-- What a verified ledger file is, described without the loop: the cores that its lines record,
-- newest first, each naming the hash of the one before it and counting up from 0.
use tinysocs.Prelude.Core.{
  ◌≡◌, refl, subst, ◌↔◌, true, String, Option, none, some, List, [], ◌∷◌, arith,
}
use mathlib.Core.Option.{some-injective}
use tinysocs.Prelude.Equality.{◌==◌, string_eq, option_eq}
use tinysocs.Prelude.Int.{ℤ, pos, negsuc, ◌+ℤ◌}
use tinysocs.Prelude.Json.{Json, num, str, int_of, opt_str, json_eq, int_eq}
use tinysocs.Ledger.{
  Core, Line, blank, garbled, parsed, report, core_of, entry_get, digest, check_entry, verify_from,
  verify_chain,
}

abbrev pub last_seq : List Core → ℤ
last_seq [] = negsuc 0
last_seq (c ∷ cs) = last_seq cs +ℤ pos 1

module _ (canon : Json → String) (sha256_hex : String → String) where
  abbrev pub last_head : List Core → Option String
  last_head [] = none
  last_head (c ∷ cs) = some (digest canon sha256_hex c)

  abbrev pub IsChain : List Core → Type 0
  IsChain [] = Unit
  IsChain (c ∷ cs) =
      (c.head_prev ≡ opt_str (last_head cs))
      × (int_of c.sequence ≡ some (last_seq cs +ℤ pos 1))
      × IsChain cs

  -- The cores of the lines, onto those read before; none if a line is no entry, or its stored
  -- hash is not that of its core.
  unfoldable pub read_back : List Core → List Line → Option (List Core)
  read_back cs [] = some cs
  read_back cs (blank ∷ lines) = read_back cs lines
  read_back cs (garbled ∷ lines) = none
  read_back cs (parsed e ∷ lines) = elim (core_of e) [
    | none ↦ none
    | some c ↦ elim (entry_get "head_sha256" e == str (digest canon sha256_hex c)) [
      | true ↦ read_back (c ∷ cs) lines
      | _ ↦ none
    ]
  ]

  -- The lines record a chain with this last sequence number and head.
  abbrev pub Records : List Core → List Line → Json → Option String → Type 0
  Records cs lines s h =
      (ds : List Core) × (read_back cs lines ≡ some ds)
      × IsChain ds
      × (s ≡ num (last_seq ds))
      × (h ≡ last_head ds)

  -- An entry that the loop passes: its hash, its link and its number are right.
  abbrev Passes : List Core → Json → List Line → Json → Option String → Core → Type 0
  Passes cs v lines s h c =
      (core_of v ≡ some c)
      × (entry_get "head_sha256" v ≡ str (digest canon sha256_hex c))
      × (c.head_prev ≡ opt_str (last_head cs))
      × (int_of c.sequence ≡ some (last_seq cs +ℤ pos 1))
      × (verify_from canon sha256_hex (last_head (c ∷ cs)) (last_seq (c ∷ cs)) lines
          ≡ report true s h)

  verify_from-Passes :
      (cs : List Core) (v : Json) (lines : List Line) (s : Json) (h : Option String)
      → verify_from canon sha256_hex (last_head cs) (last_seq cs) (parsed v ∷ lines)
        ≡ report true s h
      → (c : Core) × Passes cs v lines s h c
  unfolding verify_from check_entry
  verify_from-Passes cs v lines s h e = ground arith

  Passes-verify_from :
      (cs : List Core) (v : Json) (lines : List Line) (s : Json) (h : Option String) (c : Core)
      → Passes cs v lines s h c
      → verify_from canon sha256_hex (last_head cs) (last_seq cs) (parsed v ∷ lines)
        ≡ report true s h
  unfolding verify_from check_entry
  Passes-verify_from cs v lines s h c e = ground arith

  verify_from-Records :
      (cs : List Core) (lines : List Line) (s : Json) (h : Option String)
      → IsChain cs
      → verify_from canon sha256_hex (last_head cs) (last_seq cs) lines ≡ report true s h
      → Records cs lines s h
  unfolding verify_from read_back
  verify_from-Records cs [] s h c e = (cs, refl, c, cc, cc)
  verify_from-Records cs (blank ∷ lines) s h c e = verify_from-Records cs lines s h c e
  verify_from-Records cs (garbled ∷ lines) s h c e = cc
  verify_from-Records cs (parsed v ∷ lines) s h c e =
      let (k, passes) = verify_from-Passes cs v lines s h e in
      let (found, hash, prev, count, rest) = passes in
      let (ds, r, d, p, q) = verify_from-Records (k ∷ cs) lines s h (prev, count, c) rest in
      (ds, ground arith, d, p, q)

  pub read_back-parsed :
      (cs : List Core) (v : Json) (lines : List Line) (c : Core)
      → core_of v ≡ some c
      → entry_get "head_sha256" v ≡ str (digest canon sha256_hex c)
      → read_back cs (parsed v ∷ lines) ≡ read_back (c ∷ cs) lines
  unfolding read_back
  read_back-parsed cs v lines c e h = ground arith

  pub read_back-entry :
      (cs : List Core) (v : Json) (lines : List Line) (ds : List Core)
      → read_back cs (parsed v ∷ lines) ≡ some ds
      → (c : Core) × (core_of v ≡ some c)
        × (entry_get "head_sha256" v ≡ str (digest canon sha256_hex c))
        × (read_back (c ∷ cs) lines ≡ some ds)
  unfolding read_back
  read_back-entry cs v lines ds e = ground arith

  -- A chain onto which the lines are read was a chain before.
  pub read_back-IsChain :
      (cs : List Core) (lines : List Line) (ds : List Core)
      → read_back cs lines ≡ some ds
      → IsChain ds
      → IsChain cs
  unfolding read_back
  read_back-IsChain cs [] ds e c = subst IsChain (cc) c
  read_back-IsChain cs (blank ∷ lines) ds e c = read_back-IsChain cs lines ds e c
  read_back-IsChain cs (garbled ∷ lines) ds e c = cc
  read_back-IsChain cs (parsed v ∷ lines) ds e c =
      let (k, found, hash, rest) = read_back-entry cs v lines ds e in
      (read_back-IsChain (k ∷ cs) lines ds rest c).2

  Records-verify_from :
      (cs : List Core) (lines : List Line) (s : Json) (h : Option String)
      → Records cs lines s h
      → verify_from canon sha256_hex (last_head cs) (last_seq cs) lines ≡ report true s h
  unfolding verify_from read_back
  Records-verify_from cs [] s h (ds, r, c, p, q) = rw (p, q, some-injective _ _ r)
  Records-verify_from cs (blank ∷ lines) s h r = Records-verify_from cs lines s h r
  Records-verify_from cs (garbled ∷ lines) s h (ds, r, c, p, q) = cc
  Records-verify_from cs (parsed v ∷ lines) s h (ds, r, c, p, q) =
      let (k, found, hash, rest) = read_back-entry cs v lines ds r in
      let (prev, count, older) = read_back-IsChain (k ∷ cs) lines ds rest c in
      Passes-verify_from cs v lines s h k
        (found, hash, prev, count, Records-verify_from (k ∷ cs) lines s h (ds, rest, c, p, q))

  -- `verify_chain` accepts a file, with a last sequence number and a head, exactly when every line
  -- that is not blank is an entry whose stored hash is that of its five core fields, each entry
  -- names the hash of the one before it (the first names none) and counts up from 0; the number
  -- and the head are then those of the last entry.
  pub verify_chain_iff :
      (lines : List Line) (s : Json) (h : Option String)
      → (verify_chain canon sha256_hex lines ≡ report true s h) ↔ Records [] lines s h
  unfolding verify_chain
  verify_chain_iff lines s h =
      (verify_from-Records [] lines s h tt, Records-verify_from [] lines s h)
