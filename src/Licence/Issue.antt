-- ===== src/Licence/Issue.antt =====
-- A token of `issue` is read back by `verify_key`.
use mathlib.Core.Option.{some-injective}
use tinysocs.Prelude.Core.{
  ◌≡◌, ◌≢◌, refl, sym, ℕ, true, false, String, Option, some, [], ◌∷◌, ◌++◌, arith, eqb,
  if◌then◌else◌, Bool-cases, inl, inr,
}
use tinysocs.Prelude.Equality.{contains, string_eq}
use tinysocs.Prelude.Int.{ℤ, pos, ltb_ℤ}
use tinysocs.Prelude.Lists.{All, All-append}
use tinysocs.Prelude.Json.{Json, Fields, str, obj, get, truthy}
use tinysocs.Prelude.Text.{Text, text_eq, strip, lstrip, rstrip, is_space}
use tinysocs.Licence.{
  Ops, expired, valid, exp_of, split_dot, check_parts, verify_key, payload_of, tiers, expiry, issue,
}

abbrev IsSolid : Text → Type 0
IsSolid = All (λ c. is_space c ≡ false)

lstrip-IsSolid : (s : Text) → IsSolid s → lstrip s ≡ s
unfolding lstrip
lstrip-IsSolid [] h = refl
lstrip-IsSolid (c ∷ s) h = rw h.0 refl

rstrip-IsSolid : (s : Text) → IsSolid s → rstrip s ≡ s
unfolding rstrip
rstrip-IsSolid [] h = refl
rstrip-IsSolid (c ∷ []) h = rw h.0 refl
rstrip-IsSolid (c ∷ d ∷ s) h = rw (rstrip-IsSolid (d ∷ s) h.1, rstrip) refl

strip-IsSolid : (s : Text) → IsSolid s → strip s ≡ s
unfolding strip
strip-IsSolid s h = rw (lstrip-IsSolid s h) (rstrip-IsSolid s h)

abbrev HasNoDot : Text → Type 0
HasNoDot = All (λ c. eqb c b'.' ≡ false)

split_dot-append : (s t : Text) → HasNoDot s → split_dot (s ++ b'.' ∷ t) ≡ some (s, t)
unfolding split_dot
split_dot-append [] t h = refl
split_dot-append (c ∷ s) t h = rw (h.0, split_dot-append s t h.1) refl

dot-IsSolid : is_space b'.' ≡ false
unfolding is_space
dot-IsSolid = refl

payload_of-k :
    (tier key_id : String) (sub : Json) (sites : ℤ) (now : ℕ) (exp : ℤ) (nonce : String)
    → get "k" (payload_of tier key_id sub sites now exp nonce) ≡ some (str key_id)
unfolding get payload_of string_eq
payload_of-k tier key_id sub sites now exp nonce = refl

payload_of-exp :
    (tier key_id : String) (sub : Json) (sites : ℤ) (now : ℕ) (exp : ℤ) (nonce : String)
    → exp_of (payload_of tier key_id sub sites now exp nonce) ≡ some exp
unfolding exp_of get payload_of string_eq
payload_of-exp tier key_id sub sites now exp nonce = refl

truthy-str : (s : String) → s ≢ "" → truthy (str s) ≡ true
truthy-str s h = ground arith

module _ {Public Private Signature : Type 0} (ops : Ops Public Private Signature) where
  -- What the libraries do with a payload that is signed with a key: base64 writes neither a dot nor
  -- white space, decoding undoes encoding, and the public key verifies what the private key signs.
  abbrev pub WorksOn : Public → Private → Fields → Type 0
  WorksOn key priv p =
      IsSolid (ops.encode_payload p)
      × HasNoDot (ops.encode_payload p)
      × IsSolid (ops.encode_signature (ops.sign priv p))
      × (ops.decode_payload (ops.encode_payload p) ≡ some (obj p))
      × (ops.decode_signature (ops.encode_signature (ops.sign priv p)) ≡ some (ops.sign priv p))
      × (ops.verify key (ops.sign priv p) p ≡ true)

  issued-token :
      (tier key_id : String) (sub : Json) (nonce : String) (sites : ℤ) (period_days now : ℕ)
      (exp : Option ℤ) (priv : Private) (token : Text)
      → ops.load_private key_id ≡ some priv
      → issue ops tier key_id sub sites period_days exp now nonce ≡ some token
      → ops.encode_payload (payload_of tier key_id sub sites now (expiry exp now period_days) nonce)
          ++ b'.'
            ∷ ops.encode_signature (
                ops.sign priv
                  (payload_of tier key_id sub sites now (expiry exp now period_days) nonce))
        ≡ token
  unfolding issue
  issued-token tier key_id sub nonce sites period_days now exp priv token lp e =
      elim (Bool-cases (contains tiers tier)) [
        | inl c ↦ some-injective _ _ (rw (c, lp) at e)
        | inr c ↦ absurd (ground arith)
      ]

  check_parts-payload :
      (later : ℕ) (p : Fields) (a b : Text) (key_id : String) (exp : ℤ) (key : Public)
      (sig : Signature)
      → get "k" p ≡ some (str key_id)
      → key_id ≢ ""
      → exp_of p ≡ some exp
      → ops.decode_payload a ≡ some (obj p)
      → ops.load_public (str key_id) ≡ some key
      → ops.decode_signature b ≡ some sig
      → ops.verify key sig p ≡ true
      → check_parts ops later (some (a, b)) ≡ (if ltb_ℤ exp (pos later) then expired p else valid p)
  check_parts-payload later p a b key_id exp key sig k ne x d l ds v =
      rw (d, k, truthy-str key_id ne, l, ds, v, x) refl

  -- The token that `issue` mints for a known tier is read by `verify_key` as its payload: valid up
  -- to the second of its expiry, expired from then on. The key id is not empty, both key files are
  -- there, and for this payload base64 writes neither white space nor a dot into it, decoding undoes
  -- encoding and the public key verifies the private key's signature.
  pub verify_key-issue :
      (tier key_id : String) (sub : Json) (nonce : String) (sites : ℤ) (period_days now later : ℕ)
      (exp : Option ℤ) (priv : Private) (key : Public) (token : Text)
      → ops.load_private key_id ≡ some priv
      → ops.load_public (str key_id) ≡ some key
      → key_id ≢ ""
      → WorksOn key priv (payload_of tier key_id sub sites now (expiry exp now period_days) nonce)
      → issue ops tier key_id sub sites period_days exp now nonce ≡ some token
      → verify_key ops later token ≡ (
          if ltb_ℤ (expiry exp now period_days) (pos later)
          then expired (payload_of tier key_id sub sites now (expiry exp now period_days) nonce)
          else valid (payload_of tier key_id sub sites now (expiry exp now period_days) nonce))
  unfolding verify_key issue
  verify_key-issue tier key_id sub nonce sites period_days now later exp priv key token lp lk ne
        (solid, no_dot, sig_solid, d, ds, v) e =
      let p = payload_of tier key_id sub sites now (expiry exp now period_days) nonce in
      let a = ops.encode_payload p in
      let b = ops.encode_signature (ops.sign priv p) in
      let exp' = expiry exp now period_days in
      rw
        (
          sym (issued-token tier key_id sub nonce sites period_days now exp priv token lp e),
          strip-IsSolid (a ++ b'.' ∷ b)
              (All-append (λ c. is_space c ≡ false) a (b'.' ∷ b) solid (dot-IsSolid, sig_solid)),
          split_dot-append a b no_dot,
        )
        (check_parts-payload later p a b key_id exp' key (ops.sign priv p)
          (payload_of-k tier key_id sub sites now exp' nonce) ne
          (payload_of-exp tier key_id sub sites now exp' nonce) d lk ds v)
