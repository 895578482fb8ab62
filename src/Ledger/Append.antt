-- ===== src/Ledger/Append.antt =====
-- Appending: the file that `append_entry` leaves is one that `verify_chain` accepts.
use tinysocs.Prelude.Core.{
  ◌≡◌, refl, ap, ◌∙◌, true, String, Option, none, some, List, [], ◌∷◌, ◌++◌, arith,
}
use mathlib.Core.Option.{some-injective}
use tinysocs.Prelude.Equality.{string_eq}
use tinysocs.Prelude.Int.{ℤ, negsuc, ◌+ℤ◌}
use tinysocs.Prelude.Json.{Json, num, obj, Fields, end, field, get}
use tinysocs.Ledger.{
  Core, Line, blank, garbled, parsed, Ledger, empty, report, core_of, core_fields, entry_get,
  digest, entry_line, next_core, head_text, next_seq, append_entry, verify_chain,
}
use tinysocs.Ledger.Chain.{
  last_seq, IsChain, read_back, read_back-entry, read_back-parsed, verify_chain_iff,
}

module _ (canon : Json → String) (sha256_hex : String → String) where
  abbrev pointer : List Core → Option (ℤ × String)
  pointer [] = none
  pointer (c ∷ cs) = some (last_seq (c ∷ cs), digest canon sha256_hex c)

  -- The lines record a chain, and the head pointer is that of its last entry.
  abbrev pub IsConsistent : Ledger → Type 0
  IsConsistent l =
      (cs : List Core) × (read_back canon sha256_hex [] l.lines ≡ some cs)
      × IsChain canon sha256_hex cs
      × (l.head ≡ pointer cs)

  core_of-entry : (c : Core) (rest : Fields) → core_of (obj (core_fields c rest)) ≡ some c
  unfolding core_of get string_eq
  core_of-entry c rest = refl

  entry_get-head :
      (c : Core) (v : Json)
      → entry_get "head_sha256" (obj (core_fields c (field "head_sha256" v end))) ≡ v
  unfolding entry_get get string_eq
  entry_get-head c v = refl

  read_back-snoc :
      (cs : List Core) (lines : List Line) (ds : List Core) (c : Core)
      → read_back canon sha256_hex cs lines ≡ some ds
      → read_back canon sha256_hex cs (lines ++ entry_line canon sha256_hex c ∷ []) ≡ some (c ∷ ds)
  unfolding read_back
  read_back-snoc cs [] ds c e =
      read_back-parsed canon sha256_hex cs _ [] c (core_of-entry c _) (entry_get-head c _)
      ∙ ap (λ (x : List Core). some (c ∷ x)) (some-injective _ _ e)
  read_back-snoc cs (blank ∷ lines) ds c e = read_back-snoc cs lines ds c e
  read_back-snoc cs (garbled ∷ lines) ds c e = cc
  read_back-snoc cs (parsed v ∷ lines) ds c e =
      let (k, found, hash, rest) = read_back-entry canon sha256_hex cs v lines ds e in
      read_back-parsed canon sha256_hex cs v (lines ++ entry_line canon sha256_hex c ∷ []) k found
        hash
      ∙ read_back-snoc (k ∷ cs) lines ds c rest

  -- `append_entry` keeps a file and its head pointer consistent.
  pub append_entry-IsConsistent :
      (node_id now : String) (payload : Json) (l : Ledger)
      → IsConsistent l
      → IsConsistent (append_entry canon sha256_hex node_id now payload l)
  unfolding append_entry ◌+ℤ◌
  append_entry-IsConsistent node_id now payload l ([], r, c, p) = (
    next_core canon sha256_hex node_id now payload l ∷ [],
    read_back-snoc [] l.lines [] _ r,
    (ground arith, ground arith, tt),
    ground arith,
  )
  append_entry-IsConsistent node_id now payload l (k ∷ cs, r, c, p) = (
    next_core canon sha256_hex node_id now payload l ∷ k ∷ cs,
    read_back-snoc [] l.lines (k ∷ cs) _ r,
    (ground arith, ground arith, c),
    ground arith,
  )

  abbrev pub seq_of : Option (ℤ × String) → ℤ
  seq_of none = negsuc 0
  seq_of (some (seq, _)) = seq

  verify_chain-IsConsistent :
      (l : Ledger)
      → IsConsistent l
      → verify_chain canon sha256_hex l.lines
        ≡ report true (num (seq_of l.head)) (head_text canon sha256_hex l.head)
  verify_chain-IsConsistent l ([], r, c, p) =
      (verify_chain_iff canon sha256_hex _ _ _).1 ([], r, c, ground arith, ground arith)
  verify_chain-IsConsistent l (k ∷ cs, r, c, p) =
      (verify_chain_iff canon sha256_hex _ _ _).1 (k ∷ cs, r, c, ground arith, ground arith)

  -- After `append_entry` on a consistent ledger, `verify_chain` accepts the file, with the sequence
  -- number after that of the old head pointer and the hash of the new entry, which are also what
  -- the new head pointer holds, and the ledger is consistent again.
  pub verify_chain-append_entry :
      (node_id now : String) (payload : Json) (l : Ledger)
      → IsConsistent l
      → let l' = append_entry canon sha256_hex node_id now payload l in
        let seq = next_seq canon sha256_hex l.head in
        let hash = digest canon sha256_hex (next_core canon sha256_hex node_id now payload l) in
        (verify_chain canon sha256_hex l'.lines ≡ report true (num seq) (some hash))
        × (l'.head ≡ some (seq, hash))
        × IsConsistent l'
  verify_chain-append_entry node_id now payload l k =
      let k' = append_entry-IsConsistent node_id now payload l k in
      (unfold append_entry in verify_chain-IsConsistent _ k', unfold append_entry in refl, k')

  -- Appends of any payloads, one after another, each at its own time.
  pub append_all : String → List (String × Json) → Ledger → Ledger
  append_all node_id [] l = l
  append_all node_id ((now, payload) ∷ rest) l =
      append_all node_id rest (append_entry canon sha256_hex node_id now payload l)

  append_all-IsConsistent :
      (node_id : String) (entries : List (String × Json)) (l : Ledger)
      → IsConsistent l
      → IsConsistent (append_all node_id entries l)
  unfolding append_all
  append_all-IsConsistent node_id [] l k = k
  append_all-IsConsistent node_id ((now, payload) ∷ rest) l k =
      append_all-IsConsistent node_id rest _ (append_entry-IsConsistent node_id now payload l k)

  -- A ledger that starts empty and is written by `append_entry` alone is always accepted by
  -- `verify_chain`, with the number and the hash of its head pointer (-1 and none if nothing was
  -- appended).
  pub verify_chain-append_all :
      (node_id : String) (entries : List (String × Json))
      → let l = append_all node_id entries empty in
        verify_chain canon sha256_hex l.lines
        ≡ report true (num (seq_of l.head)) (head_text canon sha256_hex l.head)
  verify_chain-append_all node_id entries =
      verify_chain-IsConsistent _
        (append_all-IsConsistent node_id entries empty ([], unfold read_back in refl, tt, refl))
