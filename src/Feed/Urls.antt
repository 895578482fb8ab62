-- ===== src/Feed/Urls.antt =====
-- The URL of a redirect and the blob route that serves it.
use tinysocs.Prelude.Core.{
  ◌≡◌, refl, ℕ, ◌+◌, Bool, not, String, Option, none, some, arith, ltb, if◌then◌else◌, Bool-cases,
  Option-cases, inl, inr,
}
use tinysocs.Prelude.Equality.{beq_refl, string_eq}
use tinysocs.Prelude.Json.{Json, str}
use tinysocs.Prelude.Text.{Text, text_eq}
use tinysocs.Licence.{Ops}
use tinysocs.Feed.Store.{LicenceStore, is_revoked}
use tinysocs.Feed.Gate.{
  BlobUrl, Config, redirect, message, json_access, resolve_tier, resolve_version, decide, mint,
  sign_blob_url, verify_blob_url, feed_mint, feed_blob, canonical, plain, refused,
}

-- The URL is one of the server's secret, for the present time and the TTL.
IsSigned : Config → ℕ → BlobUrl → Type 0
IsSigned c now url =
    (key : String) × (c.url_secret ≡ some key)
    × (url.exp ≡ now + c.url_ttl)
    × (url.sig ≡ c.mac key (message url.pack_id url.version url.exp))

mint-IsSigned :
    (c : Config) (now : ℕ) (pack_id : String) (o : Option String) (url : BlobUrl)
    → mint c now pack_id o ≡ redirect url
    → IsSigned c now url
unfolding IsSigned sign_blob_url
mint-IsSigned c now pack_id none url h = absurd (ground arith)
mint-IsSigned c now pack_id (some version) url h = elim (Option-cases c.url_secret) [
  | inl e ↦ absurd (ground arith)
  | inr (key, e) ↦ (key, e, ground arith, ground arith)
]

decide-IsSigned :
    (c : Config) (store : LicenceStore) (now : ℕ) (pack_id channel : String)
    (o : Option (Json × Json)) (url : BlobUrl)
    → decide c store now pack_id channel o ≡ redirect url
    → IsSigned c now url
decide-IsSigned c store now pack_id channel none url h = absurd (ground arith)
decide-IsSigned c store now pack_id channel (some (t, n)) url h =
    elim (Bool-cases (json_access (if is_revoked n store then str "free" else t) pack_id channel)) [
      | inl e ↦
          mint-IsSigned c now pack_id (resolve_version (c.packs pack_id) channel) url (rw e at h)
      | inr e ↦ absurd (ground arith)
    ]

verify_blob_url-IsSigned :
    (c : Config) (now later : ℕ) (url : BlobUrl)
    → IsSigned c now url
    → verify_blob_url c.mac c.url_secret later url ≡ some (not (ltb (now + c.url_ttl) later))
unfolding IsSigned verify_blob_url
verify_blob_url-IsSigned c now later url (key, e, x, s) = elim (Bool-cases (ltb url.exp later)) [
  | inl f ↦ rw f (ground arith)
  | inr f ↦
      rw (f, e, s, beq_refl (c.mac key (message url.pack_id url.version url.exp))) (ground arith)
]

module _ {Public Private Signature : Type 0} (ops : Ops Public Private Signature) where
  -- The URL of a redirect is served by the blob route of the same server up to its TTL after the
  -- redirect, the canonical file first and 404 if there is neither file, and answered with 403 from
  -- then on.
  pub feed_blob-feed_mint :
      (c : Config) (store : LicenceStore) (now later : ℕ) (pack_id channel : String)
      (licence : Text) (url : BlobUrl) (has : String → Bool)
      → feed_mint ops c store now pack_id channel licence ≡ redirect url
      → feed_blob c later url has ≡ (
          if ltb (now + c.url_ttl) later
          then refused 403
          else if has "pack.yml.canonical"
          then canonical
          else if has "pack.yml"
          then plain
          else refused 404)
  unfolding feed_mint feed_blob
  feed_blob-feed_mint c store now later pack_id channel licence url has h =
      let signed =
        decide-IsSigned c store now pack_id channel (resolve_tier ops c.grace_days now licence) url
          (ground arith) in
      rw (verify_blob_url-IsSigned c now later url signed)
        (elim (Bool-cases (ltb (now + c.url_ttl) later)) [ inl e ↦ rw e refl | inr e ↦ rw e refl ])
