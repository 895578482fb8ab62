-- ===== src/Feed/Webhook.antt =====
-- api/feed.py (src/tinysocs): the Stripe webhook, from the event to the store.
use tinysocs.Prelude.Core.{
  ℕ, Bool, true, false, ◌||◌, String, Option, none, some, List, if◌then◌else◌,
}
use tinysocs.Prelude.Equality.{◌==◌, string_eq}
use tinysocs.Prelude.Int.{ℤ, pos}
use tinysocs.Prelude.Json.{
  Json, Fields, num, str, arr, obj, nil, cons, end, get, int_of, truthy, json_eq,
}
use tinysocs.Prelude.Strings.{codes}
use tinysocs.Prelude.Text.{Text, parse_int}
use tinysocs.Licence.{
  Ops, Verdict, malformed, undecodable, missing_key_id, no_public_key, bad_signature, expired,
  valid, raised, verify_key, issue, Prices, LicenceRequest, resolve_subscription,
}
use tinysocs.Feed.Store.{LicenceStore, record_issue, revoke_subscription}
use tinysocs.Feed.Gate.{Mac}
use tinysocs.Feed.Stripe.{verify_stripe_signature}

pub data Reply : Type 0 where
  revoked : List Json → Reply
  issued : String → ℤ → Text → Reply
  ignored : Json → Reply
  error : ℕ → Reply
  crash : Reply

abbrev to_fields : Option Json → Option Fields
to_fields none = some end
to_fields (some (obj d)) = some d
to_fields (some _) = none

-- `d.get(k, {})` on which `get` is called next; none is the AttributeError.
unfoldable pub sub_object : String → Fields → Option Fields
sub_object k d = to_fields (get k d)

abbrev pub with_default : Json → Option Json → Json
with_default v none = v
with_default v (some w) = w

-- `int(v)`; none is an exception.
unfoldable pub to_int : Json → Option ℤ
to_int (str s) = parse_int (codes s)
to_int v = int_of v

pub data FirstItem : Type 0 where
  item : Json → FirstItem
  no_item : FirstItem
  bad_item : FirstItem

abbrev first_of : Option Json → FirstItem
first_of none = no_item
first_of (some (arr nil)) = no_item
first_of (some (arr (cons v vs))) = item v
first_of (some v) = if truthy v then bad_item else no_item

-- `_first_item`; `bad_item` is an exception.
unfoldable pub first_item : Fields → FirstItem
first_item d = elim (sub_object "items" d) [
  | none ↦ bad_item
  | some items ↦ first_of (get "data" items)
]

-- What a request finds: the environment, the clock, the random nonce, and whether each of the two
-- writes of the store succeeds.
pub record Env : Type 0 where
  pub secret : String
  pub mac : Mac
  pub loads : Text → Option Json
  pub prices : Prices
  pub key_id : String
  pub now : ℕ
  pub nonce : String
  pub first_write : Bool
  pub second_write : Bool

-- What `_, _, payload = verify_key(token)` leaves; none is an exception.
abbrev pub payload_in : Verdict → Option Fields
payload_in malformed = some end
payload_in undecodable = some end
payload_in (missing_key_id p) = some p
payload_in (no_public_key p) = some p
payload_in (bad_signature p) = some p
payload_in (expired p) = some p
payload_in (valid p) = some p
payload_in raised = none

-- The price id as the key of a dictionary of texts: a list or an object has no hash.
abbrev price_text : Json → Option String
price_text (str s) = some s
price_text (arr _) = none
price_text (obj _) = none
price_text _ = some ""

abbrev pub recorded : LicenceRequest → Text → Bool × LicenceStore → Reply × LicenceStore
recorded req token (true, s) = (issued req.tier req.sites token, s)
recorded req token (false, s) = (crash, s)

abbrev pub store_payload :
    Env → LicenceRequest → Text → Option Fields → LicenceStore → Reply × LicenceStore
store_payload e req token none s = (crash, s)
store_payload e req token (some p) s =
    recorded req token (record_issue e.second_write p token e.now s)

module _ {Public Private Signature : Type 0} (ops : Ops Public Private Signature) where
  abbrev pub store_token : Env → LicenceRequest → Option Text → LicenceStore → Reply × LicenceStore
  store_token e req none s = (crash, s)
  store_token e req (some token) s =
      store_payload e req token (payload_in (verify_key ops e.now token)) s

  abbrev pub after_revoke :
      Env → LicenceRequest → Option (List Json) × LicenceStore → Reply × LicenceStore
  after_revoke e req (none, s) = (crash, s)
  after_revoke e req (some _, s) =
      store_token e req
        (issue ops req.tier e.key_id req.sub req.sites 365 (some req.exp) e.now e.nonce) s

  -- Revoke the customer's keys, mint a new one and record it.
  unfoldable pub supersede : Env → LicenceRequest → LicenceStore → Reply × LicenceStore
  supersede e req s =
      if req.tier == "free"
      then (error 422, s)
      else after_revoke e req (revoke_subscription e.first_write req.sub s)

  -- The order of the source: the item, its price, the quantity, the end of the period.
  unfoldable pub request_of : Prices → Json → Fields → Fields → Option LicenceRequest
  request_of prices customer d it = elim (sub_object "price" it) [
    | none ↦ none
    | some price ↦ elim (to_int (with_default (num (pos 1)) (get "quantity" it))) [
      | none ↦ none
      | some quantity ↦ elim (to_int (with_default (num (pos 0)) (get "current_period_end" d))) [
        | none ↦ none
        | some period_end ↦ elim (price_text (with_default (str "") (get "id" price))) [
          | none ↦ none
          | some price_id ↦ some (resolve_subscription prices price_id quantity customer period_end)
        ]
      ]
    ]
  ]

  abbrev updated_with : Env → Json → Fields → LicenceStore → FirstItem → Reply × LicenceStore
  updated_with e customer d s no_item = (error 400, s)
  updated_with e customer d s (item (obj it)) = elim (request_of e.prices customer d it) [
    | none ↦ (crash, s)
    | some req ↦ supersede e req s
  ]
  updated_with e customer d s _ = (crash, s)

  abbrev deleted_with : Option (List Json) × LicenceStore → Reply × LicenceStore
  deleted_with (none, s) = (crash, s)
  deleted_with (some nonces, s) = (revoked nonces, s)

  -- `etype` is compared with texts, so a value that is no text is of no known type.
  unfoldable pub handle : Env → Json → Json → Fields → LicenceStore → Reply × LicenceStore
  handle e etype customer d s =
      if etype == str "customer.subscription.deleted"
      then deleted_with (revoke_subscription e.first_write customer s)
      else if etype == str "customer.subscription.created"
          || etype == str "customer.subscription.updated"
      then updated_with e customer d s (first_item d)
      else (ignored etype, s)

  abbrev handle_object : Env → Fields → LicenceStore → Option Fields → Reply × LicenceStore
  handle_object e event s none = (crash, s)
  handle_object e event s (some d) =
      handle e (with_default (str "") (get "type" event)) (with_default (str "") (get "customer" d))
        d s

  abbrev handle_data : Env → Fields → LicenceStore → Option Fields → Reply × LicenceStore
  handle_data e event s none = (crash, s)
  handle_data e event s (some d) = handle_object e event s (sub_object "object" d)

  abbrev pub handle_event : Env → LicenceStore → Option Json → Reply × LicenceStore
  handle_event e s none = (error 400, s)
  handle_event e s (some (obj event)) = handle_data e event s (sub_object "data" event)
  handle_event e s (some _) = (crash, s)

  unfoldable pub stripe_webhook : Env → Text → Text → LicenceStore → Reply × LicenceStore
  stripe_webhook e body signature s =
      if e.secret == ""
      then (error 503, s)
      else elim (verify_stripe_signature e.mac e.now body signature e.secret 300) [
        | none ↦ (crash, s)
        | some false ↦ (error 401, s)
        | some true ↦ handle_event e s (e.loads body)
      ]
