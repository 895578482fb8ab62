-- ===== src/Feed/Gate.antt =====
-- api/feed.py (src/tinysocs): the entitlement gate, the version of a pack and the signed URLs. The
-- clock is read once for a request. A file that is missing or not readable is none.
use tinysocs.Prelude.Core.{
  ℕ, ◌+◌, Bool, true, false, not, ◌&&◌, String, Option, none, some, List, [], ◌∷◌, ◌++◌, ltb,
  if◌then◌else◌,
}
use tinysocs.Prelude.Equality.{◌==◌, string_eq}
use tinysocs.Prelude.Json.{Json, Fields, null, str, get}
use tinysocs.Prelude.Sort.{sort}
use tinysocs.Prelude.Strings.{codes, str_le}
use tinysocs.Prelude.Text.{Text, text_eq, show}
use tinysocs.Licence.{
  Ops, Verdict, malformed, undecodable, missing_key_id, no_public_key, bad_signature, expired,
  valid, raised, or_null, tier_or_free, verify_key, effective_tier, can_access,
}
use tinysocs.Feed.Store.{LicenceStore, is_revoked}

-- The part of a redirect's URL that the blob route reads.
pub record BlobUrl : Type 0 where
  pub pack_id : String
  pub version : String
  pub exp : ℕ
  pub sig : Text

-- `f"{pack_id}/{version}/{exp}"`
unfoldable pub message : String → String → ℕ → Text
message pack_id version exp = codes pack_id ++ b'/' ∷ (codes version ++ b'/' ∷ show exp)

-- HMAC-SHA256 of a text under a secret, as hexadecimal digits.
abbrev pub Mac : Type 0
Mac = String → Text → Text

-- none is the 503 of a server with no secret.
unfoldable pub sign_blob_url : Mac → Option String → String → String → ℕ → Option BlobUrl
sign_blob_url mac secret pack_id version exp = elim secret [
  | none ↦ none
  | some key ↦ some (record {
    pack_id = pack_id;
    version = version;
    exp = exp;
    sig = mac key (message pack_id version exp);
  })
]

-- For a signature of ASCII characters: `compare_digest` raises on any other.
unfoldable pub verify_blob_url : Mac → Option String → ℕ → BlobUrl → Option Bool
verify_blob_url mac secret now url = if ltb url.exp now then some false else elim secret [
  | none ↦ none
  | some key ↦ some (mac key (message url.pack_id url.version url.exp) == url.sig)
]

pub record Index : Type 0 where
  pub latest : Option String
  pub snapshot : Option String

-- `index.json` and the version directories of a pack.
pub record PackDir : Type 0 where
  pub index : Option Index
  pub versions : Option (List String)

-- The last and the last but one, read from an ascending list.
unfoldable pub pick : Bool → List String → Option String
pick live [] = none
pick live (v ∷ []) = some v
pick live (v ∷ w ∷ []) = some (if live then w else v)
pick live (v ∷ w ∷ x ∷ vs) = pick live (w ∷ x ∷ vs)

unfoldable pub resolve_version : PackDir → String → Option String
resolve_version dir channel = elim dir.index [
  | some i ↦ if channel == "live" then i.latest else i.snapshot
  | none ↦ elim dir.versions [ none ↦ none | some vs ↦ pick (channel == "live") (sort str_le vs) ]
]

-- `payload.get("nonce")`
abbrev pub nonce_of : Fields → Json
nonce_of p = or_null (get "nonce" p)

pub data Response : Type 0 where
  redirect : BlobUrl → Response
  status : ℕ → Response
  crash : Response

module _ {Public Private Signature : Type 0} (ops : Ops Public Private Signature) where
  abbrev pub resolve_verdict : ℕ → ℕ → Text → Verdict → Option (Json × Json)
  resolve_verdict grace_days now key (valid p) = some (tier_or_free p, nonce_of p)
  resolve_verdict grace_days now key (expired p) = elim (effective_tier ops grace_days now key) [
    | none ↦ none
    | some t ↦ some (t, nonce_of p)
  ]
  resolve_verdict grace_days now key malformed = some (str "free", null)
  resolve_verdict grace_days now key undecodable = some (str "free", null)
  resolve_verdict grace_days now key (missing_key_id p) = some (str "free", nonce_of p)
  resolve_verdict grace_days now key (no_public_key p) = some (str "free", nonce_of p)
  resolve_verdict grace_days now key (bad_signature p) = some (str "free", nonce_of p)
  resolve_verdict grace_days now key raised = none

  -- The tier and the nonce; none is an exception of `verify_key`.
  unfoldable pub resolve_tier : ℕ → ℕ → Text → Option (Json × Json)
  resolve_tier grace_days now key =
      if key == []
      then some (str "free", null)
      else resolve_verdict grace_days now key (verify_key ops now key)

-- `entitlement` treats a tier that is no text as an unknown one.
abbrev pub json_access : Json → String → String → Bool
json_access (str t) = can_access t
json_access _ = can_access "free"

pub record Config : Type 0 where
  pub mac : Mac
  pub url_secret : Option String
  pub url_ttl : ℕ
  pub grace_days : ℕ
  pub packs : String → PackDir

abbrev pub respond : Option BlobUrl → Response
respond none = status 503
respond (some url) = redirect url

abbrev pub mint : Config → ℕ → String → Option String → Response
mint c now pack_id none = status 404
mint c now pack_id (some version) =
    respond (sign_blob_url c.mac c.url_secret pack_id version (now + c.url_ttl))

-- The decision for a tier and a nonce.
abbrev pub decide : Config → LicenceStore → ℕ → String → String → Option (Json × Json) → Response
decide c store now pack_id channel none = crash
decide c store now pack_id channel (some (tier, nonce)) =
    if not (json_access (if is_revoked nonce store then str "free" else tier) pack_id channel)
    then status 403
    else mint c now pack_id (resolve_version (c.packs pack_id) channel)

module _ {Public Private Signature : Type 0} (ops : Ops Public Private Signature) where
  unfoldable pub feed_mint : Config → LicenceStore → ℕ → String → String → Text → Response
  feed_mint c store now pack_id channel licence =
      if not (channel == "live") && not (channel == "snapshot")
      then status 400
      else decide c store now pack_id channel (resolve_tier ops c.grace_days now licence)

-- The file that `feed_blob` sends, if it sends one.
pub data Served : Type 0 where
  canonical : Served
  plain : Served
  refused : ℕ → Served

-- `has` tells which files of the pack's directory exist.
abbrev pub serve : (String → Bool) → Option Bool → Served
serve has none = refused 503
serve has (some false) = refused 403
serve has (some true) =
    if has "pack.yml.canonical" then canonical else if has "pack.yml" then plain else refused 404

unfoldable pub feed_blob : Config → ℕ → BlobUrl → (String → Bool) → Served
feed_blob c now url has = serve has (verify_blob_url c.mac c.url_secret now url)
