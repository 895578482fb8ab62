-- ===== src/Feed/Supersede.antt =====
-- The webhook and the gate together: an update of a subscription kills the customer's older keys,
-- and a request without a good signature changes nothing.
use mathlib.Core.Option.{some-injective}
use tinysocs.Prelude.Core.{
  ◌≡◌, ◌≢◌, ◌⊎◌, refl, sym, ap, subst, ◌∙◌, ℕ, Bool, true, false, String, Option, none, some, List,
  arith, Bool-cases, Option-cases, inl, inr,
}
use tinysocs.Prelude.Equality.{◌==◌, string_eq, beq-cases}
use tinysocs.Prelude.Json.{Json, Fields, obj, end, get, truthy, json_eq}
use tinysocs.Prelude.Text.{Text}
use tinysocs.Prelude.Dict.{lookup}
use tinysocs.Licence.{Ops, LicenceRequest, verify_key, issue, or_null}
use tinysocs.Licence.Token.{IsAuthentic}
use tinysocs.Feed.Store.{LicenceStore, Issue, save, record_issue, revoke_subscription, is_revoked}
use tinysocs.Feed.Revoked.{revoke_subscription-is_revoked}
use tinysocs.Feed.Gate.{BlobUrl, Config, redirect, nonce_of, feed_mint}
use tinysocs.Feed.Paid.{feed_mint-IsPaid}
use tinysocs.Feed.Stripe.{verify_stripe_signature}
use tinysocs.Feed.Webhook.{
  Env, crash, error, payload_in, supersede, after_revoke, store_token, store_payload, recorded,
  stripe_webhook,
}

record_issue-is_revoked :
    (writes : Bool) (p : Fields) (token : Text) (now : ℕ) (s : LicenceStore) (nonce : Json)
    → is_revoked nonce (record_issue writes p token now s).1 ≡ is_revoked nonce s
unfolding record_issue save is_revoked
record_issue-is_revoked writes p token now s nonce =
    elim (Bool-cases (truthy (or_null (get "nonce" p)))) [
      | inl e ↦ ground arith
      | inr e ↦ rw e refl
    ]

fields_of : Json → Fields
fields_of (obj p) = p
fields_of _ = end

true-ne-false : true ≢ false
true-ne-false h = ground arith

module _ {Public Private Signature : Type 0} (ops : Ops Public Private Signature) where
  recorded-store :
      (req : LicenceRequest) (token : Text) (o : Bool × LicenceStore)
      → (recorded req token o).1 ≡ o.1
  recorded-store req token (true, s) = refl
  recorded-store req token (false, s) = refl

  store_payload-is_revoked :
      (e : Env) (req : LicenceRequest) (token : Text) (o : Option Fields) (s : LicenceStore)
      (nonce : Json)
      → is_revoked nonce (store_payload e req token o s).1 ≡ is_revoked nonce s
  store_payload-is_revoked e req token none s nonce = refl
  store_payload-is_revoked e req token (some p) s nonce =
      rw (recorded-store req token (record_issue e.second_write p token e.now s))
        (record_issue-is_revoked e.second_write p token e.now s nonce)

  store_token-is_revoked :
      (e : Env) (req : LicenceRequest) (o : Option Text) (s : LicenceStore) (nonce : Json)
      → is_revoked nonce (store_token ops e req o s).1 ≡ is_revoked nonce s
  store_token-is_revoked e req none s nonce = refl
  store_token-is_revoked e req (some token) s nonce =
      store_payload-is_revoked e req token (payload_in (verify_key ops e.now token)) s nonce

  after_revoke-is_revoked :
      (e : Env) (req : LicenceRequest) (o : Option (List Json) × LicenceStore) (nonce : Json)
      → is_revoked nonce (after_revoke ops e req o).1 ≡ is_revoked nonce o.1
  after_revoke-is_revoked e req (none, s) nonce = refl
  after_revoke-is_revoked e req (some _, s) nonce =
      store_token-is_revoked e req
        (issue ops req.tier e.key_id req.sub req.sites 365 (some req.exp) e.now e.nonce) s nonce

  supersede-is_revoked :
      (e : Env) (req : LicenceRequest) (s : LicenceStore) (nonce : Json) (rec : Issue)
      → (req.tier == "free") ≡ false
      → truthy req.sub ≡ true
      → lookup nonce s.memory.issued ≡ some rec
      → rec.sub ≡ req.sub
      → truthy nonce ≡ true
      → is_revoked nonce (supersede ops e req s).1 ≡ true
  unfolding supersede
  supersede-is_revoked e req s nonce rec paid known h same real =
      rw (paid, after_revoke-is_revoked e req (revoke_subscription e.first_write req.sub s) nonce)
        (revoke_subscription-is_revoked e.first_write req.sub s nonce rec known h same real)

  -- A token carries one payload.
  IsAuthentic-unique :
      (token : Text) (p q : Fields) → IsAuthentic ops token p → IsAuthentic ops token q → p ≡ q
  unfolding fields_of
  IsAuthentic-unique token p q (a, b, _, _, e, d, _, _, _) (a', b', _, _, e', d', _, _, _) =
      let same = ap (λ x. x.0) (some-injective (a, b) (a', b') (sym e ∙ e')) in
      ap fields_of (
        some-injective (obj p) (obj q)
          (sym d ∙ subst (λ x. ops.decode_payload x ≡ some (obj q)) (sym same) d'))

  -- Once the webhook has superseded the keys of a customer for a paid tier, whether its writes
  -- succeed or not, the gate redirects no authentic key that was recorded for the customer before
  -- to a pack other than the base pack, or to a live one. The customer id and the key's nonce are
  -- taken not to be empty.
  pub feed_mint-supersede :
      (c : Config) (e : Env) (req : LicenceRequest) (s : LicenceStore) (now : ℕ)
      (pack_id channel : String) (licence : Text) (p : Fields) (rec : Issue) (url : BlobUrl)
      → (req.tier == "free") ≡ false
      → truthy req.sub ≡ true
      → IsAuthentic ops licence p
      → lookup (nonce_of p) s.memory.issued ≡ some rec
      → rec.sub ≡ req.sub
      → truthy (nonce_of p) ≡ true
      → (pack_id ≢ "base") ⊎ (channel ≡ "live")
      → feed_mint ops c (supersede ops e req s).1 now pack_id channel licence ≢ redirect url
  feed_mint-supersede c e req s now pack_id channel licence p rec url paid known a h same real more
        r =
      let (_, q, _, b, _, _, live) =
        feed_mint-IsPaid ops c (supersede ops e req s).1 now pack_id channel licence url r more in
      let dead = supersede-is_revoked e req s (nonce_of p) rec paid known h same real in
      let revived =
        subst (λ x. is_revoked (nonce_of x) (supersede ops e req s).1 ≡ false)
          (IsAuthentic-unique licence q p b a) live in
      true-ne-false (sym dead ∙ revived)

  -- A request whose signature is not accepted leaves the store as it is and is answered with an
  -- error.
  pub stripe_webhook-unsigned :
      (e : Env) (body signature : Text) (s : LicenceStore)
      → verify_stripe_signature e.mac e.now body signature e.secret 300 ≢ some true
      → ((stripe_webhook ops e body signature s).1 ≡ s)
        × (((code : ℕ) × ((stripe_webhook ops e body signature s).0 ≡ error code))
            ⊎ ((stripe_webhook ops e body signature s).0 ≡ crash))
  unfolding stripe_webhook
  stripe_webhook-unsigned e body signature s bad = elim (beq-cases e.secret "") [
    | inl (f, _) ↦ rw f (refl, inl (503, refl))
    | inr (f, _) ↦
        elim (Option-cases (verify_stripe_signature e.mac e.now body signature e.secret 300)) [
          | inl g ↦ rw (f, g) (refl, inr refl)
          | inr (true, g) ↦ absurd (bad g)
          | inr (false, g) ↦ rw (f, g) (refl, inl (401, refl))
        ]
  ]
