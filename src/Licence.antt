-- ===== src/Licence.antt =====
-- scripts/licence.py and scripts/stripe_pricing.py: the entitlement of a tier, the licence token
-- and the map from a Stripe price to a tier. A payload is the JSON object that the token carries.
pub mod Access
pub mod Token
pub mod Issue
pub mod Tests
use tinysocs.Prelude.Core.{
  ◌≡◌, ℕ, ◌+◌, ◌*◌, Bool, true, false, not, ◌&&◌, ◌||◌, String, Option, none, some, List, [], ◌∷◌,
  ◌++◌, ltb, leb, eqb, if◌then◌else◌,
}
use tinysocs.Prelude.Equality.{◌==◌, contains, string_eq, option_eq}
use tinysocs.Prelude.Int.{ℤ, pos, ltb_ℤ, ◌+ℤ◌, ◌*ℤ◌}
use tinysocs.Prelude.Json.{
  Json, Fields, null, num, str, obj, arr, bool, field, end, get, int_of, truthy,
}
use tinysocs.Prelude.Text.{Text, text_eq, strip}

pub record Entitlement : Type 0 where
  pub packs : List String
  pub channel : String
  pub premium : Bool

unfoldable pub entitlement : String → Entitlement
entitlement tier =
    if tier == "pro"
    then record {
      packs = "base" ∷ "m365-pack" ∷ "persistence-premium" ∷ [];
      channel = "live";
      premium = true;
    }
    else if tier == "msp"
    then record {
      packs = "base" ∷ "m365-pack" ∷ "persistence-premium" ∷ "federation" ∷ [];
      channel = "live";
      premium = true;
    }
    else record { packs = "base" ∷ []; channel = "snapshot"; premium = false }

unfoldable pub can_access : String → String → String → Bool
can_access tier pack_id channel =
    let ent = entitlement tier in
    if not (contains ent.packs pack_id)
    then false
    else if channel == "live" && not (ent.channel == "live")
    then false
    else true

-- `token.split(".", 1)`; none is the ValueError when there is no dot.
unfoldable pub split_dot : Text → Option (Text × Text)
split_dot [] = none
split_dot (c ∷ s) =
    let rest = split_dot s in
    if eqb c b'.' then some ([], s) else elim rest [ none ↦ none | some (a, b) ↦ some (c ∷ a, b) ]

-- base64, JSON and ed25519 from the libraries, and the key files of a directory. A function that
-- may raise answers none.
pub record Ops (Public Private Signature : Type 0) : Type 0 where
  pub encode_payload : Fields → Text
  pub decode_payload : Text → Option Json
  pub encode_signature : Signature → Text
  pub decode_signature : Text → Option Signature
  pub load_public : Json → Option Public
  pub load_private : String → Option Private
  pub sign : Private → Fields → Signature
  pub verify : Public → Signature → Fields → Bool

-- The answers of `verify_key`; `raised` is an exception that it lets through.
pub data Verdict : Type 0 where
  malformed : Verdict
  undecodable : Verdict
  missing_key_id : Fields → Verdict
  no_public_key : Fields → Verdict
  bad_signature : Fields → Verdict
  expired : Fields → Verdict
  valid : Fields → Verdict
  raised : Verdict

abbrev pub or_null : Option Json → Json
or_null none = null
or_null (some v) = v

-- `payload.get("exp", 0)`; none is a value that `<` refuses to compare.
unfoldable pub exp_of : Fields → Option ℤ
exp_of p = elim (get "exp" p) [ none ↦ some (pos 0) | some v ↦ int_of v ]

abbrev pub check_expiry : ℕ → Fields → Option ℤ → Verdict
check_expiry now p none = raised
check_expiry now p (some e) = if ltb_ℤ e (pos now) then expired p else valid p

abbrev pub tier_or_free : Fields → Json
tier_or_free p = elim (get "tier" p) [ none ↦ str "free" | some t ↦ t ]

abbrev pub within_grace : ℕ → ℕ → Fields → Bool
within_grace grace_days now p = elim (exp_of p) [
  | none ↦ false
  | some e ↦ not (ltb_ℤ (e +ℤ pos (grace_days * 86400)) (pos now))
]

-- none is an exception, also the KeyError of a payload without a tier.
abbrev pub grant : ℕ → ℕ → Verdict → Option Json
grant grace_days now (valid p) = get "tier" p
grant grace_days now (expired p) =
    some (if within_grace grace_days now p then tier_or_free p else str "free")
grant grace_days now raised = none
grant grace_days now _ = some (str "free")

-- The fields in the order in which `json.dumps(sort_keys=True)` writes them.
unfoldable pub payload_of : String → String → Json → ℤ → ℕ → ℤ → String → Fields
payload_of tier key_id sub sites now exp nonce = field "exp" (num exp) (
    field "iat" (num (pos now)) (
      field "k" (str key_id) (
        field "nonce" (str nonce)
          (field "sites" (num sites) (field "sub" sub (field "tier" (str tier) end))))))

abbrev tiers : List String
tiers = "free" ∷ "pro" ∷ "msp" ∷ []

abbrev expiry : Option ℤ → ℕ → ℕ → ℤ
expiry none now period_days = pos (now + period_days * 86400)
expiry (some e) now period_days = e

module _ {Public Private Signature : Type 0} (ops : Ops Public Private Signature) where
  -- A signature part that is no base64 raises, and nothing catches it.
  abbrev check_signature : ℕ → Fields → Public → Option Signature → Verdict
  check_signature now p pub_key none = raised
  check_signature now p pub_key (some sig) =
      if ops.verify pub_key sig p then check_expiry now p (exp_of p) else bad_signature p

  abbrev check_key : ℕ → Fields → Text → Option Public → Verdict
  check_key now p sig_part none = no_public_key p
  check_key now p sig_part (some pub_key) =
      check_signature now p pub_key (ops.decode_signature sig_part)

  abbrev check_payload : ℕ → Text → Option Json → Verdict
  check_payload now sig_part (some (obj p)) =
      if not (truthy (or_null (get "k" p)))
      then missing_key_id p
      else check_key now p sig_part (ops.load_public (or_null (get "k" p)))
  check_payload now sig_part none = undecodable
  check_payload now sig_part (some _) = raised

  abbrev check_parts : ℕ → Option (Text × Text) → Verdict
  check_parts now none = malformed
  check_parts now (some (p_part, sig_part)) = check_payload now sig_part (ops.decode_payload p_part)

  unfoldable pub verify_key : ℕ → Text → Verdict
  verify_key now token = check_parts now (split_dot (strip token))

  -- The tier of `effective_tier`, without the note for the console.
  unfoldable pub effective_tier : ℕ → ℕ → Text → Option Json
  effective_tier grace_days now token =
      if token == [] then some (str "free") else grant grace_days now (verify_key now token)

  -- The token for a nonce that is drawn; none is an unknown tier or a missing key file.
  unfoldable pub issue : String → String → Json → ℤ → ℕ → Option ℤ → ℕ → String → Option Text
  issue tier key_id sub sites period_days exp now nonce =
      let payload = payload_of tier key_id sub sites now (expiry exp now period_days) nonce in
      if not (contains tiers tier) then none else elim (ops.load_private key_id) [
        | none ↦ none
        | some priv ↦
            some
              (ops.encode_payload payload ++ (b'.' ∷ ops.encode_signature (ops.sign priv payload)))
      ]

-- `scripts/stripe_pricing.py`: the price ids that the environment configures.
pub record Prices : Type 0 where
  pub price_pro : Option String
  pub price_msp : Option String

-- The variable is set to a text that is not empty, and that text is the price.
unfoldable pub is_price : Option String → String → Bool
is_price none price_id = false
is_price (some pid) price_id = not (pid == "") && pid == price_id

-- The map of `price_map` looked up: the msp entry overwrites a pro entry with the same id.
unfoldable pub tier_for_price : Prices → String → String
tier_for_price prices price_id =
    if is_price prices.price_msp price_id
    then "msp"
    else if is_price prices.price_pro price_id
    then "pro"
    else "free"

pub record LicenceRequest : Type 0 where
  pub tier : String
  pub sites : ℤ
  pub sub : Json
  pub exp : ℤ

unfoldable pub sites_per_unit : String → ℕ
sites_per_unit tier = if tier == "pro" then 1 else if tier == "msp" then 5 else 0

unfoldable pub resolve_subscription : Prices → String → ℤ → Json → ℤ → LicenceRequest
resolve_subscription prices price_id quantity customer_id current_period_end =
    let tier = tier_for_price prices price_id in
    record {
      tier = tier;
      sites = quantity *ℤ pos (sites_per_unit tier);
      sub = customer_id;
      exp = current_period_end;
    }
