-- ===== src/Feed/Tests.antt =====
-- The store, the gate and the webhook on concrete data.
use tinysocs.Prelude.Core.{
  ◌≡◌, ◌≢◌, refl, true, false, String, none, some, List, [], ◌∷◌, ◌++◌, arith, inr,
}
use tinysocs.Prelude.Equality.{string_eq}
use tinysocs.Prelude.Int.{pos}
use tinysocs.Prelude.Json.{json_eq, Fields, str, num, get}
use tinysocs.Prelude.Strings.{codes}
use tinysocs.Prelude.Text.{Text, text_eq, parse_int}
use tinysocs.Licence.{LicenceRequest, Prices}
use tinysocs.Licence.Token.{IsAuthentic, InGrace}
use tinysocs.Licence.Tests.{some_ops, some_payload, some_token}
use tinysocs.Feed.Store.{
  Issue, Data, LicenceStore, Command, issuing, revoking, cancelling, restarting, is_revoked,
}
use tinysocs.Feed.Gate.{
  Config, PackDir, BlobUrl, Mac, redirect, feed_mint, feed_blob, message, nonce_of, Served,
  canonical, plain, refused,
}
use tinysocs.Feed.Paid.{IsPaid, feed_mint-IsPaid}
use tinysocs.Feed.Urls.{feed_blob-feed_mint}
use tinysocs.Feed.Stripe.{
  verify_stripe_signature, timestamp_of, candidates_of, distance, verify_stripe_signature_sound,
}
use tinysocs.Feed.Webhook.{Env, supersede}
use tinysocs.Feed.Supersede.{feed_mint-supersede}

abbrev some_issue : Issue
some_issue = record {
  sub = str "cus_1";
  tier = str "pro";
  sites = num (pos 5);
  iat = num (pos 100);
  exp = num (pos 1000);
  token = some_token;
  recorded_at = 100;
}

abbrev some_data : Data
some_data = record { issued = (str "n1", some_issue) ∷ []; revoked = str "n0" ∷ [] }

abbrev some_store : LicenceStore
some_store = record { memory = some_data; file = some some_data }

abbrev toy_mac : Mac
toy_mac key text = codes key ++ text

abbrev some_config : Config
some_config = record {
  mac = toy_mac;
  url_secret = some "secret";
  url_ttl = 120;
  grace_days = 14;
  packs = λ p. record { index = none; versions = some ("1.1" ∷ "1.0" ∷ []) };
}

abbrev some_url : BlobUrl
some_url = record {
  pack_id = "base";
  version = "1.1";
  exp = 1020;
  sig = toy_mac "secret" (message "base" "1.1" 1020);
}

minted : feed_mint some_ops some_config some_store 900 "base" "live" some_token ≡ redirect some_url
unfolding feed_mint string_eq tinysocs.Feed.Gate.resolve_tier text_eq tinysocs.Licence.verify_key
    tinysocs.Licence.split_dot tinysocs.Prelude.Text.strip get tinysocs.Licence.payload_of
    tinysocs.Licence.exp_of is_revoked json_eq tinysocs.Licence.can_access
    tinysocs.Licence.entitlement tinysocs.Feed.Gate.resolve_version tinysocs.Feed.Gate.pick
    tinysocs.Prelude.Sort.sort tinysocs.Prelude.Sort.insert_sorted tinysocs.Prelude.Strings.str_le
    tinysocs.Feed.Gate.sign_blob_url
minted = refl

feed_mint-IsPaid_example :
    (s : String) × (p : Fields) × IsPaid s
    × IsAuthentic some_ops some_token p
    × (get "tier" p ≡ some (str s))
    × InGrace some_ops 14 900 p
    × (is_revoked (nonce_of p) some_store ≡ false)
feed_mint-IsPaid_example =
    feed_mint-IsPaid some_ops some_config some_store 900 "base" "live" some_token some_url minted
      (inr refl)

feed_blob-feed_mint_example : feed_blob some_config 1021 some_url (λ f. true) ≡ refused 403
feed_blob-feed_mint_example =
    feed_blob-feed_mint some_ops some_config some_store 900 1021 "base" "live" some_token some_url
      (λ f. true) minted

recorded : tinysocs.Prelude.Dict.lookup (str "n1") some_store.memory.issued ≡ some some_issue
unfolding tinysocs.Prelude.Dict.lookup json_eq string_eq
recorded = refl

dead : is_revoked (str "n0") some_store ≡ true
unfolding is_revoked string_eq json_eq
dead = refl

abbrev some_commands : List Command
some_commands =
    issuing some_payload some_token 5
    ∷ cancelling (str "cus_1")
    ∷ restarting
    ∷ revoking (str "n0")
    ∷ []

abbrev some_header : Text
some_header = codes "t=100,v1=s100.body"

signed : verify_stripe_signature toy_mac 200 (codes "body") some_header "s" 300 ≡ some true
unfolding verify_stripe_signature tinysocs.Prelude.Text.text_eq string_eq timestamp_of
    tinysocs.Feed.Stripe.last_or_empty tinysocs.Feed.Stripe.values_of tinysocs.Feed.Stripe.pairs
    tinysocs.Prelude.Text.split_on tinysocs.Feed.Stripe.split_eq parse_int candidates_of
    tinysocs.Feed.Stripe.any_match
signed = refl

abbrev some_env : Env
some_env = record {
  secret = "s";
  mac = toy_mac;
  loads = λ t. none;
  prices = record { price_pro = some "price_1"; price_msp = none };
  key_id = "k";
  now = 100;
  nonce = "n2";
  first_write = true;
  second_write = true;
}

abbrev some_request : LicenceRequest
some_request = record { tier = "pro"; sites = pos 5; sub = str "cus_1"; exp = pos 2000 }

authentic : IsAuthentic some_ops some_token some_payload
unfolding tinysocs.Licence.split_dot tinysocs.Prelude.Text.strip
authentic = (codes "p", codes "s", "public", "s", refl, refl, refl, refl, refl)

feed_mint-supersede_example :
    feed_mint some_ops some_config
      (supersede some_ops some_env some_request some_store).1
      900
      "base"
      "live"
      some_token
    ≢ redirect some_url
unfolding string_eq get tinysocs.Licence.payload_of
feed_mint-supersede_example =
    feed_mint-supersede some_ops some_config some_env some_request some_store 900 "base" "live"
      some_token some_payload some_issue some_url refl refl authentic recorded refl refl (inr refl)

unsigned : verify_stripe_signature toy_mac 100 [] [] "s" 300 ≡ some false
unfolding verify_stripe_signature tinysocs.Prelude.Text.text_eq
unsigned = refl

not_signed : verify_stripe_signature toy_mac 100 [] [] "s" 300 ≢ some true
not_signed h = ground (arith, unsigned)
