-- ===== src/Ledger/Truncate.antt =====
-- What `verify_chain` alone cannot see: a cut at the end of the file.
use tinysocs.Prelude.Core.{◌≡◌, refl, ◌∙◌, true, String, Option, some, List, [], ◌∷◌, ◌++◌}
use tinysocs.Prelude.Json.{Json, num}
use tinysocs.Ledger.{Core, Line, blank, garbled, parsed, report, verify_chain}
use tinysocs.Ledger.Chain.{
  last_head, last_seq, read_back, read_back-entry, read_back-parsed, read_back-IsChain,
  verify_chain_iff,
}

module _ (canon : Json → String) (sha256_hex : String → String) where
  read_back-prefix :
      (cs : List Core) (xs ys : List Line) (ds : List Core)
      → read_back canon sha256_hex cs (xs ++ ys) ≡ some ds
      → (es : List Core) × (read_back canon sha256_hex cs xs ≡ some es)
        × (read_back canon sha256_hex es ys ≡ some ds)
  unfolding read_back
  read_back-prefix cs [] ys ds e = (cs, refl, e)
  read_back-prefix cs (blank ∷ xs) ys ds e = read_back-prefix cs xs ys ds e
  read_back-prefix cs (garbled ∷ xs) ys ds e = cc
  read_back-prefix cs (parsed v ∷ xs) ys ds e =
      let (k, found, hash, rest) = read_back-entry canon sha256_hex cs v (xs ++ ys) ds e in
      let (es, p, q) = read_back-prefix (k ∷ cs) xs ys ds rest in
      (es, unfold read_back in (read_back-parsed canon sha256_hex cs v xs k found hash ∙ p), q)

  -- If `verify_chain` accepts a file, it accepts every file that is left after lines are cut from
  -- its end, with the number and the head of the last entry left: only a head that is kept
  -- elsewhere, such as an anchor, shows the cut.
  pub verify_chain-prefix :
      (xs ys : List Line) (s : Json) (h : Option String)
      → verify_chain canon sha256_hex (xs ++ ys) ≡ report true s h
      → (es : List Core) × (read_back canon sha256_hex [] xs ≡ some es)
        × (verify_chain canon sha256_hex xs
            ≡ report true (num (last_seq es)) (last_head canon sha256_hex es))
  verify_chain-prefix xs ys s h e =
      let (ds, r, c, _, _) = (verify_chain_iff canon sha256_hex (xs ++ ys) s h).0 e in
      let (es, p, q) = read_back-prefix [] xs ys ds r in
      (
        es,
        p,
        (verify_chain_iff canon sha256_hex xs _ _).1
            (es, p, read_back-IsChain canon sha256_hex es ys ds q c, refl, refl),
      )
