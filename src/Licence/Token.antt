-- ===== src/Licence/Token.antt =====
-- The licence token: what a granted tier proves about it, and the round trip from `issue`.
use tinysocs.Prelude.Core.{
  ◌≡◌, ◌≢◌, refl, ap, subst, ℕ, ◌*◌, true, false, Option, none, some, [], arith, Bool-cases,
  Option-cases, inl, inr,
}
use tinysocs.Prelude.Equality.{string_eq, beq-cases}
use tinysocs.Prelude.Int.{ℤ, pos, ltb_ℤ, ◌≤ℤ◌, ◌+ℤ◌, int_laws}
use tinysocs.Prelude.Json.{Json, Fields, null, num, str, obj, arr, bool, get, truthy}
use tinysocs.Prelude.Text.{Text, text_eq, strip}
use tinysocs.Licence.{
  Ops, Verdict, malformed, undecodable, missing_key_id, no_public_key, bad_signature, expired,
  valid, raised, or_null, exp_of, check_expiry, split_dot, check_signature, check_key,
  check_payload, verify_key, within_grace, grant, effective_tier,
}

-- The verdict is on this payload, whose signature was found good.
abbrev pub Accepts : Verdict → Fields → Type 0
Accepts (valid q) p = q ≡ p
Accepts (expired q) p = q ≡ p
Accepts _ p = true ≡ false

Accepts-check_expiry :
    (now : ℕ) (p q : Fields) (e : Option ℤ) → Accepts (check_expiry now p e) q → p ≡ q
Accepts-check_expiry now p q none h = absurd (ground arith)
Accepts-check_expiry now p q (some e) h = elim (Bool-cases (ltb_ℤ e (pos now))) [
  | inl f ↦ rw f at h
  | inr f ↦ rw f at h
]

module _ {Public Private Signature : Type 0} (ops : Ops Public Private Signature) where
  -- The token carries the payload with a signature that the key of its `k` verifies.
  abbrev pub IsAuthentic : Text → Fields → Type 0
  IsAuthentic token p =
      (p_part : Text) × (sig_part : Text) × (key : Public) × (sig : Signature) × (split_dot
          (strip token)
        ≡ some (p_part, sig_part))
      × (ops.decode_payload p_part ≡ some (obj p))
      × (ops.load_public (or_null (get "k" p)) ≡ some key)
      × (ops.decode_signature sig_part ≡ some sig)
      × (ops.verify key sig p ≡ true)

  check_signature_sound :
      (now : ℕ) (p q : Fields) (key : Public) (o : Option Signature)
      → Accepts (check_signature ops now p key o) q
      → (p ≡ q) × (sig : Signature) × (o ≡ some sig) × (ops.verify key sig p ≡ true)
  check_signature_sound now p q key none h = absurd (ground arith)
  check_signature_sound now p q key (some sig) h = elim (Bool-cases (ops.verify key sig p)) [
    | inl e ↦ (Accepts-check_expiry now p q (exp_of p) (rw e at h), sig, refl, e)
    | inr e ↦ absurd (ground arith)
  ]

  check_key_sound :
      (now : ℕ) (p q : Fields) (s : Text) (o : Option Public)
      → Accepts (check_key ops now p s o) q
      → (p ≡ q)
        × (key : Public) × (sig : Signature) × (o ≡ some key)
        × (ops.decode_signature s ≡ some sig)
        × (ops.verify key sig p ≡ true)
  check_key_sound now p q s none h = absurd (ground arith)
  check_key_sound now p q s (some key) h =
      let (e, sig, d, v) = check_signature_sound now p q key (ops.decode_signature s) h in
      (e, key, sig, refl, d, v)

  check_payload_sound :
      (now : ℕ) (q : Fields) (s : Text) (o : Option Json)
      → Accepts (check_payload ops now s o) q
      → (key : Public) × (sig : Signature) × (o ≡ some (obj q))
        × (ops.load_public (or_null (get "k" q)) ≡ some key)
        × (ops.decode_signature s ≡ some sig)
        × (ops.verify key sig q ≡ true)
  check_payload_sound now q s none h = absurd (ground arith)
  check_payload_sound now q s (some (obj p)) h = elim (Bool-cases (truthy (or_null (get "k" p)))) [
    | inl e ↦
        let (same, key, sig, l, d, v) =
          check_key_sound now p q s (ops.load_public (or_null (get "k" p))) (rw e at h) in
        (
          key,
          sig,
          ap (λ x. some (obj x)) same,
          subst (λ x. ops.load_public (or_null (get "k" x)) ≡ some key) same l,
          d,
          subst (λ x. ops.verify key sig x ≡ true) same v,
        )
    | inr e ↦ absurd (ground arith)
  ]
  check_payload_sound now q s (some null) h = absurd (ground arith)
  check_payload_sound now q s (some (bool _)) h = absurd (ground arith)
  check_payload_sound now q s (some (num _)) h = absurd (ground arith)
  check_payload_sound now q s (some (str _)) h = absurd (ground arith)
  check_payload_sound now q s (some (arr _)) h = absurd (ground arith)

  pub verify_key_sound :
      (now : ℕ) (token : Text) (q : Fields)
      → Accepts (verify_key ops now token) q
      → IsAuthentic token q
  unfolding verify_key
  verify_key_sound now token q h = elim (Option-cases (split_dot (strip token))) [
    | inl e ↦ absurd (ground arith)
    | inr (ps, e) ↦
        let (p_part, s) = ps in
        let (key, sig, d, l, g, v) =
          check_payload_sound now q s (ops.decode_payload p_part) (rw e at h) in
        (p_part, s, key, sig, e, d, l, g, v)
  ]

-- A payload called valid has not expired.
pub Fresh : ℕ → Verdict → Type 0
Fresh now (valid p) = (e : ℤ) × (exp_of p ≡ some e) × (pos now ≤ℤ e)
Fresh now _ = Unit

Fresh-check_expiry :
    (now : ℕ) (p : Fields) (o : Option ℤ) → exp_of p ≡ o → Fresh now (check_expiry now p o)
unfolding Fresh
Fresh-check_expiry now p none h = tt
Fresh-check_expiry now p (some e) h = elim (Bool-cases (ltb_ℤ e (pos now))) [
  | inl f ↦ rw f tt
  | inr f ↦ rw f (e, h, ground arith)
]

module _ {Public Private Signature : Type 0} (ops : Ops Public Private Signature) where
  Fresh-check_signature :
      (now : ℕ) (p : Fields) (key : Public) (o : Option Signature)
      → Fresh now (check_signature ops now p key o)
  unfolding Fresh
  Fresh-check_signature now p key none = tt
  Fresh-check_signature now p key (some sig) = elim (Bool-cases (ops.verify key sig p)) [
    | inl e ↦ rw e (Fresh-check_expiry now p (exp_of p) refl)
    | inr e ↦ rw e tt
  ]

  Fresh-check_key :
      (now : ℕ) (p : Fields) (s : Text) (o : Option Public) → Fresh now (check_key ops now p s o)
  unfolding Fresh
  Fresh-check_key now p s none = tt
  Fresh-check_key now p s (some key) = Fresh-check_signature now p key (ops.decode_signature s)

  Fresh-check_payload :
      (now : ℕ) (s : Text) (o : Option Json) → Fresh now (check_payload ops now s o)
  unfolding Fresh
  Fresh-check_payload now s none = tt
  Fresh-check_payload now s (some (obj p)) = elim (Bool-cases (truthy (or_null (get "k" p)))) [
    | inl e ↦ rw e (Fresh-check_key now p s (ops.load_public (or_null (get "k" p))))
    | inr e ↦ rw e tt
  ]
  Fresh-check_payload now s (some null) = tt
  Fresh-check_payload now s (some (bool _)) = tt
  Fresh-check_payload now s (some (num _)) = tt
  Fresh-check_payload now s (some (str _)) = tt
  Fresh-check_payload now s (some (arr _)) = tt

  pub Fresh-verify_key : (now : ℕ) (token : Text) → Fresh now (verify_key ops now token)
  unfolding Fresh verify_key
  Fresh-verify_key now token = elim (Option-cases (split_dot (strip token))) [
    | inl e ↦ rw e tt
    | inr (ps, e) ↦ rw e (Fresh-check_payload now ps.1 (ops.decode_payload ps.0))
  ]

  -- The payload has not been over for longer than the days of grace.
  abbrev pub InGrace : ℕ → ℕ → Fields → Type 0
  InGrace grace_days now p =
      (e : ℤ) × (exp_of p ≡ some e) × (pos now ≤ℤ e +ℤ pos (grace_days * 86400))

  within_grace-InGrace :
      (grace_days now : ℕ) (p : Fields)
      → within_grace grace_days now p ≡ true
      → InGrace grace_days now p
  within_grace-InGrace grace_days now p h = elim (Option-cases (exp_of p)) [
    | inl e ↦ absurd (ground arith)
    | inr (e, f) ↦ (e, f, ground arith)
  ]

  pub grant-paid :
      (grace_days now : ℕ) (v : Verdict) (t : Json)
      → Fresh now v
      → grant grace_days now v ≡ some t
      → t ≢ str "free"
      → (p : Fields) × Accepts v p × (get "tier" p ≡ some t) × InGrace grace_days now p
  unfolding Fresh
  grant-paid grace_days now (valid p) t (e, h, le) g paid = (p, refl, g, (e, h, omega int_laws))
  grant-paid grace_days now (expired p) t fresh g paid =
      elim (Bool-cases (within_grace grace_days now p)) [
        | inr e ↦ absurd (ground arith)
        | inl e ↦ elim (Option-cases (get "tier" p)) [
          | inl f ↦ absurd (ground arith)
          | inr (u, f) ↦ (p, refl, ground arith, within_grace-InGrace grace_days now p e)
        ]
      ]
  grant-paid grace_days now malformed t fresh g paid = absurd (ground arith)
  grant-paid grace_days now undecodable t fresh g paid = absurd (ground arith)
  grant-paid grace_days now (missing_key_id p) t fresh g paid = absurd (ground arith)
  grant-paid grace_days now (no_public_key p) t fresh g paid = absurd (ground arith)
  grant-paid grace_days now (bad_signature p) t fresh g paid = absurd (ground arith)
  grant-paid grace_days now raised t fresh g paid = absurd (ground arith)

  -- A tier other than "free" is granted only to a token that carries an authentic payload with
  -- that tier, at most the days of grace after it expires.
  pub effective_tier-paid :
      (grace_days now : ℕ) (token : Text) (t : Json)
      → effective_tier ops grace_days now token ≡ some t
      → t ≢ str "free"
      → (p : Fields) × IsAuthentic ops token p × (get "tier" p ≡ some t) × InGrace grace_days now p
  unfolding effective_tier
  effective_tier-paid grace_days now token t g paid = elim (beq-cases token []) [
    | inl (e, _) ↦ absurd (ground arith)
    | inr (e, _) ↦
        let (p, a, h, i) =
          grant-paid grace_days now (verify_key ops now token) t (Fresh-verify_key now token)
            (rw e at g) paid in
        (p, verify_key_sound ops now token p a, h, i)
  ]
