-- ===== src/Feed/Paid.antt =====
-- What a redirect of the gate proves: a paid pack or a live channel only for an authentic key that
-- is in its period or in grace and is not revoked.
use tinysocs.Prelude.Core.{
  ◌≡◌, ◌≢◌, ◌⊎◌, refl, sym, ap, subst, ◌∙◌, ℕ, true, false, String, Option, none, some, [], arith,
  Bool-cases, Option-cases, inl, inr,
}
use tinysocs.Prelude.Equality.{◌==◌, beq-cases, string_eq}
use tinysocs.Prelude.Json.{Json, Fields, null, num, bool, arr, obj, str, get}
use tinysocs.Prelude.Text.{Text, text_eq}
use tinysocs.Licence.{
  Ops, Verdict, malformed, undecodable, missing_key_id, no_public_key, bad_signature, expired,
  valid, raised, tier_or_free, verify_key, effective_tier,
}
use tinysocs.Licence.Token.{
  Accepts, IsAuthentic, InGrace, Fresh, Fresh-verify_key, verify_key_sound, grant-paid,
}
use tinysocs.Licence.Access.{can_access-paid, can_access-free_more, free-not_pro, free-not_msp}
use tinysocs.Feed.Store.{LicenceStore, is_revoked}
use tinysocs.Feed.Gate.{
  BlobUrl, Config, redirect, nonce_of, resolve_verdict, resolve_tier, json_access, decide,
  feed_mint,
}

tier_or_free-paid :
    (p : Fields) (t : Json) → tier_or_free p ≡ t → t ≢ str "free" → get "tier" p ≡ some t
tier_or_free-paid p t h paid = elim (Option-cases (get "tier" p)) [
  | inl e ↦ absurd (ground arith)
  | inr (u, e) ↦ ground arith
]

module _ {Public Private Signature : Type 0} (ops : Ops Public Private Signature) where
  -- The payload behind a tier that is not free.
  abbrev PaidBy : ℕ → ℕ → Text → Json → Json → Type 0
  PaidBy grace_days now key t nonce =
      (p : Fields) × IsAuthentic ops key p
      × (get "tier" p ≡ some t)
      × InGrace ops grace_days now p
      × (nonce ≡ nonce_of p)

  paid_by :
      (g now : ℕ) (key : Text) (v : Verdict) (p : Fields) (t n : Json)
      → verify_key ops now key ≡ v
      → ((q : Fields) × Accepts v q × (get "tier" q ≡ some t) × InGrace ops g now q)
      → ((q : Fields) → Accepts v q → p ≡ q)
      → n ≡ nonce_of p
      → PaidBy g now key t n
  paid_by g now key v p t n e (q, a, h, i) same k = (
    q,
    verify_key_sound ops now key q (subst (λ w. Accepts w q) (sym e) a),
    h,
    i,
    subst (λ x. n ≡ nonce_of x) (same q a) k,
  )

  resolve_verdict-paid :
      (grace_days now : ℕ) (key : Text) (v : Verdict) (t nonce : Json)
      → (key == []) ≡ false
      → verify_key ops now key ≡ v
      → resolve_verdict ops grace_days now key v ≡ some (t, nonce)
      → t ≢ str "free"
      → PaidBy grace_days now key t nonce
  unfolding effective_tier
  resolve_verdict-paid g now key (valid p) t n ne e h paid =
      let granted = tier_or_free-paid p t (ground arith) paid in
      paid_by g now key (valid p) p t n e
        (grant-paid ops g now (valid p) t (subst (Fresh now) e (Fresh-verify_key ops now key))
          granted paid)
        (λ q same. same) (ground arith)
  resolve_verdict-paid g now key (expired p) t n ne e h paid =
      elim (Option-cases (effective_tier ops g now key)) [
        | inl f ↦ absurd (ground arith)
        | inr (u, f) ↦
            paid_by g now key (expired p) p t n e
              (grant-paid ops g now (expired p) t
                (subst (Fresh now) e (Fresh-verify_key ops now key)) (ground arith) paid)
              (λ q same. same) (ground arith)
      ]
  resolve_verdict-paid g now key malformed t n ne e h paid = absurd (ground arith)
  resolve_verdict-paid g now key undecodable t n ne e h paid = absurd (ground arith)
  resolve_verdict-paid g now key (missing_key_id p) t n ne e h paid = absurd (ground arith)
  resolve_verdict-paid g now key (no_public_key p) t n ne e h paid = absurd (ground arith)
  resolve_verdict-paid g now key (bad_signature p) t n ne e h paid = absurd (ground arith)
  resolve_verdict-paid g now key raised t n ne e h paid = absurd (ground arith)

  resolve_tier-paid :
      (grace_days now : ℕ) (key : Text) (t nonce : Json)
      → resolve_tier ops grace_days now key ≡ some (t, nonce)
      → t ≢ str "free"
      → PaidBy grace_days now key t nonce
  unfolding resolve_tier
  resolve_tier-paid g now key t n h paid = elim (beq-cases key []) [
    | inl (e, _) ↦ absurd (ground arith)
    | inr (e, _) ↦
        resolve_verdict-paid g now key (verify_key ops now key) t n e refl (rw e at h) paid
  ]

pub IsPaid : String → Type 0
IsPaid t = (t ≡ "pro") ⊎ (t ≡ "msp")

pub text_of : Json → String
text_of (str s) = s
text_of _ = ""

text-injective : (s t : String) → str s ≡ str t → s ≡ t
unfolding text_of
text-injective s t h = ap text_of h

differ : {s : String} (t : String) → ◌==◌ {A = String} "free" t ≡ false → s ≡ "free" → s ≢ t
differ t no_match is_free is_t = elim (beq-cases "free" t) [
  | inl (e, _) ↦ absurd (ground arith)
  | inr (_, n) ↦ n (sym is_free ∙ is_t)
]

pub IsPaid-not_free : (s : String) → IsPaid s → str s ≢ str "free"
unfolding IsPaid
IsPaid-not_free s (inl e) h = differ "pro" free-not_pro (text-injective s "free" h) e
IsPaid-not_free s (inr e) h = differ "msp" free-not_msp (text-injective s "free" h) e

json_access-IsPaid :
    (t : Json) (pack_id channel : String)
    → json_access t pack_id channel ≡ true
    → (pack_id ≢ "base") ⊎ (channel ≡ "live")
    → (s : String) × (t ≡ str s) × IsPaid s
unfolding IsPaid
json_access-IsPaid (str s) pack_id channel h more =
    (s, refl, can_access-paid s pack_id channel h more)
json_access-IsPaid null pack_id channel h more =
    absurd (ground (arith, can_access-free_more pack_id channel more))
json_access-IsPaid (bool _) pack_id channel h more =
    absurd (ground (arith, can_access-free_more pack_id channel more))
json_access-IsPaid (num _) pack_id channel h more =
    absurd (ground (arith, can_access-free_more pack_id channel more))
json_access-IsPaid (arr _) pack_id channel h more =
    absurd (ground (arith, can_access-free_more pack_id channel more))
json_access-IsPaid (obj _) pack_id channel h more =
    absurd (ground (arith, can_access-free_more pack_id channel more))

decide-IsPaid :
    (c : Config) (store : LicenceStore) (now : ℕ) (pack_id channel : String)
    (o : Option (Json × Json)) (url : BlobUrl)
    → decide c store now pack_id channel o ≡ redirect url
    → (pack_id ≢ "base") ⊎ (channel ≡ "live")
    → (s : String) × (nonce : Json) × (o ≡ some (str s, nonce))
      × IsPaid s
      × (is_revoked nonce store ≡ false)
decide-IsPaid c store now pack_id channel none url h more = absurd (ground arith)
decide-IsPaid c store now pack_id channel (some (t, n)) url h more =
    elim (Bool-cases (is_revoked n store)) [
      | inl e ↦ absurd (ground (arith, can_access-free_more pack_id channel more))
      | inr e ↦
          let (s, same, paid) = json_access-IsPaid t pack_id channel (ground arith) more in
          (s, n, ap (λ x. some (x, n)) same, paid, e)
    ]

module _ {Public Private Signature : Type 0} (ops : Ops Public Private Signature) where
  -- A redirect to a pack other than the base pack, or to a live one, is answered only to a token
  -- with an authentic payload of tier "pro" or "msp" that expired at most the days of grace ago and
  -- whose nonce the store has not revoked.
  pub feed_mint-IsPaid :
      (c : Config) (store : LicenceStore) (now : ℕ) (pack_id channel : String) (licence : Text)
      (url : BlobUrl)
      → feed_mint ops c store now pack_id channel licence ≡ redirect url
      → (pack_id ≢ "base") ⊎ (channel ≡ "live")
      → (s : String) × (p : Fields) × IsPaid s
        × IsAuthentic ops licence p
        × (get "tier" p ≡ some (str s))
        × InGrace ops c.grace_days now p
        × (is_revoked (nonce_of p) store ≡ false)
  unfolding feed_mint
  feed_mint-IsPaid c store now pack_id channel licence url h more =
      let (s, n, o, paid, live) =
        decide-IsPaid c store now pack_id channel (resolve_tier ops c.grace_days now licence) url
          (ground arith) more in
      let (p, a, t, i, same) =
        resolve_tier-paid ops c.grace_days now licence (str s) n o (IsPaid-not_free s paid) in
      (s, p, paid, a, t, i, subst (λ x. is_revoked x store ≡ false) same live)
