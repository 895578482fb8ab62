-- ===== src/Ledger/Tamper.antt =====
-- Tamper evidence: what an anchored head says about the whole file.
use tinysocs.Prelude.Core.{
  ◌≡◌, refl, ap, ◌≢◌, ◌⊎◌, inl, inr, true, String, Option, none, some, List, [], ◌∷◌,
}
use tinysocs.Prelude.Json.{Json, Json-discrete, opt_str}
use tinysocs.Ledger.{Core, Line, report, digest, verify_chain}
use tinysocs.Ledger.Chain.{last_head, IsChain, read_back, verify_chain_iff}

Core-discrete : Discrete Core
Core-discrete = hlevel Json-discrete

opt_str-injective : (g h : Option String) → opt_str g ≡ opt_str h → g ≡ h
opt_str-injective none none e = refl
opt_str-injective none (some h) e = cc
opt_str-injective (some g) none e = cc
opt_str-injective (some g) (some h) e = cc

module _ (canon : Json → String) (sha256_hex : String → String) where
  -- Two different cores with the same hash.
  abbrev pub Collision : Type 0
  Collision =
      (a : Core) × (b : Core) × (a ≢ b) × (digest canon sha256_hex a ≡ digest canon sha256_hex b)

  IsChain-eq :
      (cs ds : List Core)
      → IsChain canon sha256_hex cs
      → IsChain canon sha256_hex ds
      → last_head canon sha256_hex cs ≡ last_head canon sha256_hex ds
      → (cs ≡ ds) ⊎ Collision
  IsChain-eq [] [] c d e = inl refl
  IsChain-eq [] (b ∷ ds) c d e = cc
  IsChain-eq (a ∷ cs) [] c d e = cc
  IsChain-eq (a ∷ cs) (b ∷ ds) c d e = onto (Core-discrete a b) (λ same.
      IsChain-eq cs ds c.2 d.2
        (opt_str-injective _ _ (cc (ap (λ (k : Core). k.head_prev) same, c.0, d.0))))
    where
      onto : Dec (a ≡ b) → (a ≡ b → (cs ≡ ds) ⊎ Collision) → (a ∷ cs ≡ b ∷ ds) ⊎ Collision
      onto (yes same) rest = elim (rest same) [ inl tail ↦ inl (cc) | inr hit ↦ inr hit ]
      onto (no differ) rest = inr (a, b, differ, cc)

  -- If `verify_chain` accepts two files of a node with the same head, then both record the same
  -- entries in the same order, or two different entries with the same hash are at hand: no entry
  -- can be changed, inserted, dropped or moved under an anchored head without a hash collision.
  pub verify_chain-tamper :
      (xs ys : List Line) (s t : Json) (h : Option String)
      → verify_chain canon sha256_hex xs ≡ report true s h
      → verify_chain canon sha256_hex ys ≡ report true t h
      → (read_back canon sha256_hex [] xs ≡ read_back canon sha256_hex [] ys) ⊎ Collision
  verify_chain-tamper xs ys s t h p q =
      let (cs, r, c, _, u) = (verify_chain_iff canon sha256_hex xs s h).0 p in
      let (ds, w, d, _, v) = (verify_chain_iff canon sha256_hex ys t h).0 q in
      elim (IsChain-eq cs ds c d (cc)) [ inl same ↦ inl (cc) | inr hit ↦ inr hit ]
