-- ===== src/Node/Bearer.antt =====
-- The life of a bearer token.
use tinysocs.Prelude.Core.{
  ◌≡◌, refl, ap, ◌∙◌, Bool, true, false, not, String, none, some, List, [], ◌∷◌, ◌++◌, arith, ltb,
  Bool-cases, inl, inr,
}
use tinysocs.Prelude.Equality.{◌==◌, string_eq, beq_refl}
use tinysocs.Prelude.Lists.{length, keep, All}
use tinysocs.Node.Token.{
  HecToken, Tokens, used, load_hec_tokens, create_hec_token, use_token, verify_bearer_token,
  revoke_hec_token,
}

module _ (sha256 : String → String) where
  -- No token has the hash.
  abbrev pub Unknown : String → List HecToken → Type 0
  Unknown raw = All (λ t. (sha256 raw == t.token_hash) ≡ false)

  use_token-Unknown :
      (raw now : String) (ts : List HecToken) → Unknown raw ts → use_token sha256 raw now ts ≡ none
  unfolding use_token
  use_token-Unknown raw now [] h = refl
  use_token-Unknown raw now (t ∷ ts) h = rw (h.0, use_token-Unknown raw now ts h.1) refl

  use_token-last :
      (raw now : String) (ts : List HecToken) (t : HecToken)
      → Unknown raw ts
      → (sha256 raw == t.token_hash) ≡ true
      → (us : List HecToken) × (use_token sha256 raw now (ts ++ t ∷ []) ≡ some us)
  unfolding use_token
  use_token-last raw now [] t h e = (used now t ∷ [], rw e refl)
  use_token-last raw now (u ∷ ts) t h e =
      let (us, f) = use_token-last raw now ts t h.1 e in (u ∷ us, rw (h.0, f) refl)

  Unknown-keep :
      (raw id : String) (ts : List HecToken) (t : HecToken)
      → Unknown raw ts
      → (t.id == id) ≡ true
      → Unknown raw (keep (λ u. not (u.id == id)) (ts ++ t ∷ []))
  Unknown-keep raw id [] t h e = rw e tt
  Unknown-keep raw id (u ∷ ts) t h e = elim (Bool-cases (u.id == id)) [
    | inl f ↦ rw f (Unknown-keep raw id ts t h.1 e)
    | inr f ↦ rw f (h.0, Unknown-keep raw id ts t h.1 e)
  ]

  load-revoke :
      (writes : Bool) (id : String) (s : Tokens)
      → load_hec_tokens (revoke_hec_token writes id s).1
        ≡ keep (λ t. not (t.id == id)) (load_hec_tokens s)
  unfolding revoke_hec_token load_hec_tokens
  load-revoke writes id s =
      elim (Bool-cases (
        ltb (length (keep (λ t. not (t.id == id)) (load_hec_tokens s)))
          (length (load_hec_tokens s)))) [ inl e ↦ rw e refl | inr e ↦ rw e refl ]

  bearer-some :
      (writes : Bool) (raw now : String) (s : Tokens) (us : List HecToken)
      → use_token sha256 raw now (load_hec_tokens s) ≡ some us
      → (verify_bearer_token sha256 writes raw now s).0 ≡ true
  unfolding verify_bearer_token
  bearer-some writes raw now s us e = ground arith

  bearer-none :
      (writes : Bool) (raw now : String) (s : Tokens)
      → use_token sha256 raw now (load_hec_tokens s) ≡ none
      → (verify_bearer_token sha256 writes raw now s).0 ≡ false
  unfolding verify_bearer_token
  bearer-none writes raw now s e = ground arith

  -- A bearer token is accepted once it has been created and refused once it has been revoked by
  -- its id, whichever of the writes fail, if no other token has its hash.
  pub verify_bearer_token-lifecycle :
      (w1 w2 w3 : Bool) (id raw name now later : String) (s : Tokens)
      → Unknown raw (load_hec_tokens s)
      → ((verify_bearer_token sha256 w3 raw later
            (create_hec_token sha256 w1 id raw name now s).1).0
          ≡ true)
        × ((verify_bearer_token sha256 w3 raw later
              (revoke_hec_token w2 id (create_hec_token sha256 w1 id raw name now s).1).1).0
            ≡ false)
  unfolding create_hec_token load_hec_tokens
  verify_bearer_token-lifecycle w1 w2 w3 id raw name now later s h =
      let t : HecToken = record {
        id = id;
        token_hash = sha256 raw;
        name = name;
        created = now;
        last_used = none;
      } in
      let s' = (create_hec_token sha256 w1 id raw name now s).1 in
      let (us, f) = use_token-last raw later (load_hec_tokens s) t h (beq_refl (sha256 raw)) in
      let gone =
        use_token-Unknown raw later (keep (λ u. not (u.id == id)) (load_hec_tokens s'))
          (Unknown-keep raw id (load_hec_tokens s) t h (beq_refl id)) in
      (
        bearer-some w3 raw later s' us f,
        bearer-none w3 raw later (revoke_hec_token w2 id s').1
            (ap (use_token sha256 raw later) (load-revoke w2 id s') ∙ gone),
      )
