-- ===== src/Dashboard/SiteTests.antt =====
-- The sites of the dashboard on concrete data.
use tinysocs.Prelude.Core.{◌≡◌, refl, true, false, Option, none, some, [], ◌∷◌, arith}
use tinysocs.Prelude.Equality.{contains}
use tinysocs.Prelude.Dict.{lookup}
use tinysocs.Prelude.Strings.{codes}
use tinysocs.Prelude.Text.{
  Text, text_eq, strip, lstrip, rstrip, strip_prefix, rstrip_char, lstrip_char,
}
use tinysocs.Dashboard.Session.{validate_session}
use tinysocs.Dashboard.Sites.{
  Status, pending, rejected, auth_failed, Site, Cert, Pin, Hub, Body, Disk, Reply, said, failed,
  Reason, missing_headers, Check, accepted, refused, node_urls, known_sites, clean_url,
  verify_registration_hmac, api_nodes_register,
}
use tinysocs.Dashboard.Nodes.{
  Parsed, api_nodes_add, api_nodes_remove, api_nodes_approve, verify_site_cert,
}
use tinysocs.Dashboard.NodeList.{IsEntry}
use tinysocs.Dashboard.Approval.{IsApproved, api_nodes_approve_sound}
use tinysocs.Dashboard.Federation
use tinysocs.Dashboard.Federation.{
  Request, approving, registering, HasToken, session_of, serve-nodes,
}
use tinysocs.Dashboard.Takeover.{api_nodes_approve-unauthenticated}
use tinysocs.Dashboard.Proxy.{
  forwarded, is_allowed, get_node_urls, IsKnown, api_site_proxy, api_site_proxy_sound,
}
use tinysocs.Dashboard.Removed.{api_site_proxy-removed}

abbrev some_token : Text
some_token = codes "t1"

abbrev some_cert : Cert
some_cert = record {
  fingerprint = codes "AB";
  subject = codes "a";
  not_after = codes "z";
  pem = codes "p";
}

-- A scheme up to the colon, and a port if it is 8081.
abbrev parse : Text → Parsed
parse url = record {
  scheme = elim (strip_prefix (codes "https") url) [ none ↦ codes "http" | some r ↦ codes "https" ];
  hostname = codes "a";
  port = 8081;
}

abbrev fetch : Text → Option Cert
fetch url = some some_cert

abbrev toy_mac : Text → Text → Text
toy_mac secret msg = codes "aa"

abbrev some_url : Text
some_url = codes "https://a:8081"

abbrev some_site : Site
some_site = record {
  node_id = codes "a";
  url = some_url;
  version = codes "1.0";
  status = pending;
  error = none;
  first_seen = codes "1";
  last_seen = codes "1";
}

abbrev some_hub : Hub
some_hub = record {
  sessions = record { active = (some_token, 1000) ∷ []; gc_counter = 0 };
  nodes = codes "https://b:8081";
  env_file = none;
  sites = some ((codes "a", some_site) ∷ []);
  pins = [];
  url_of = [];
  id_of = [];
  nodes_list = none;
}

abbrev some_body : Body
some_body = record { token = some_token; node_id = codes "a"; url = some_url; version = none }

abbrev disk : Disk
disk = record { env_writes = true; sites_writes = true }

approved :
    (api_nodes_approve parse fetch 20 (codes "2") some_body disk some_hub).0 ≡ said "approved"
unfolding api_nodes_approve validate_session lookup text_eq strip
    tinysocs.Dashboard.Nodes.pin_site_cert strip_prefix
approved = refl

known : lookup (strip some_body.node_id) (known_sites some_hub) ≡ some some_site
unfolding strip lookup text_eq
known = refl

entry : strip some_url ≡ some_url
unfolding strip
entry = refl

some-IsEntry : IsEntry some_url
some-IsEntry = (
  λ e. cc,
  entry,
  (
    refl,
    (
      refl,
      (
        refl,
        (refl, (refl, (refl, (refl, (refl, (refl, (refl, (refl, (refl, (refl, (refl, tt))))))))))),
      ),
    ),
  ),
)

known_site-IsEntry :
    (s : Site) → lookup (strip some_body.node_id) (known_sites some_hub) ≡ some s → IsEntry s.url
known_site-IsEntry s e =
    let same : some_site ≡ s = ground (arith, known, e) in rw (← same) some-IsEntry

api_nodes_approve_sound_example :
    ((validate_session some_token 20 some_hub.sessions).0 ≡ true)
    × ((site : Site) × (lookup (strip (codes "a")) (known_sites some_hub) ≡ some site)
        × IsApproved parse fetch
            (strip (codes "a"))
            (codes "2")
            site
            some_hub.nodes
            (api_nodes_approve parse fetch 20 (codes "2") some_body disk some_hub).1)
api_nodes_approve_sound_example =
    api_nodes_approve_sound parse fetch 20 (codes "2") some_body disk some_hub known_site-IsEntry
      approved

approved_nodes :
    (Federation.serve toy_mac
      (codes "k")
      parse
      fetch
      disk
      (approving 20 (codes "2") some_body)
      some_hub).1.nodes
    ≡ codes "https://b:8081,https://a:8081"
unfolding approved Federation.serve api_nodes_approve validate_session lookup text_eq strip
    tinysocs.Dashboard.Nodes.pin_site_cert strip_prefix node_urls tinysocs.Dashboard.Sites.stripped
    tinysocs.Prelude.Text.split_on tinysocs.Dashboard.Nodes.join_comma
approved_nodes = refl

serve-nodes_example : HasToken (session_of (approving 20 (codes "2") some_body)) some_hub
serve-nodes_example =
    serve-nodes toy_mac (codes "k") parse fetch disk (approving 20 (codes "2") some_body) some_hub
      (λ e. ground (arith, approved_nodes, e))

abbrev evil_body : Body
evil_body = record {
  token = [];
  node_id = codes "a";
  url = codes "https://evil:8081";
  version = none;
}

no_headers : verify_registration_hmac toy_mac (codes "k") [] [] 100 ≡ refused missing_headers
unfolding verify_registration_hmac text_eq
no_headers = refl

same_name : strip (codes "a") ≡ codes "a"
unfolding strip
same_name = refl

session_valid : (validate_session some_token 20 some_hub.sessions).0 ≡ true
unfolding validate_session lookup text_eq
session_valid = refl

api_nodes_approve-unauthenticated_example :
    let h' =
      (api_nodes_register toy_mac
        (codes "k")
        []
        []
        100
        (codes "3")
        (codes "10.9.9.9")
        evil_body
        disk
        some_hub).1 in
    let r = api_nodes_approve parse fetch 20 (codes "4") some_body disk h' in
    (r.0 ≡ said "approved") × (lookup (codes "a") r.1.url_of ≡ some (codes "https://evil:8081"))
unfolding strip_prefix
api_nodes_approve-unauthenticated_example =
    api_nodes_approve-unauthenticated parse fetch toy_mac (codes "k") [] [] 100 (codes "3")
      (codes "10.9.9.9") evil_body disk some_hub missing_headers some_body 20 (codes "4") some_cert
      no_headers refl (λ e. cc) (λ e. cc) (λ e. cc) same_name session_valid refl refl

abbrev known_hub : Hub
known_hub = record some_hub {
  nodes = codes "https://a:8081,https://b:8081";
  url_of = (codes "a", some_url) ∷ [];
}

abbrev meta : Text → Option Text
meta url = none

proxied :
    (api_site_proxy meta fetch (codes "a") (codes "/fleet/health/") known_hub).0
    ≡ forwarded some_url (codes "fleet/health") false
unfolding api_site_proxy is_allowed text_eq rstrip_char lstrip_char lookup verify_site_cert
proxied = refl

api_site_proxy_sound_example :
    (u : Text) × (some_url ≡ rstrip_char b'/' u)
    × (codes "fleet/health" ≡ rstrip_char b'/' (lstrip_char b'/' (codes "/fleet/health/")))
    × (is_allowed (codes "fleet/health") ≡ true)
    × (verify_site_cert fetch u known_hub.pins ≡ false)
    × (false ≡ false)
    × IsKnown meta fetch
        (codes "a")
        (get_node_urls known_hub.nodes_list known_hub.nodes)
        (api_site_proxy meta fetch (codes "a") (codes "/fleet/health/") known_hub).1.url_of
        u
api_site_proxy_sound_example =
    api_site_proxy_sound meta fetch (codes "a") (codes "/fleet/health/") some_url
      (codes "fleet/health") false known_hub proxied

-- The pin is under the URL without the slash, so the check does not find it.
abbrev slash_hub : Hub
slash_hub = record known_hub {
  url_of = (codes "a", codes "https://a:8081/") ∷ [];
  pins =
      (
        some_url,
        record {
          node_id = codes "a";
          cert = record some_cert { fingerprint = codes "CD" };
          pinned_at = codes "1";
        },
      )
      ∷ [];
}

slash_mismatch : verify_site_cert fetch some_url slash_hub.pins ≡ true
unfolding verify_site_cert lookup text_eq
slash_mismatch = refl

slash_forwarded :
    (api_site_proxy meta fetch (codes "a") (codes "/fleet/health/") slash_hub).0
    ≡ forwarded some_url (codes "fleet/health") false
unfolding api_site_proxy is_allowed text_eq rstrip_char lstrip_char lookup verify_site_cert
slash_forwarded = refl

removed : (api_nodes_remove 20 some_body disk known_hub).0 ≡ said "Site removed"
unfolding api_nodes_remove validate_session lookup text_eq rstrip_char strip node_urls
    tinysocs.Dashboard.Sites.stripped tinysocs.Prelude.Text.split_on
removed = refl

known_url : lookup (codes "a") known_hub.url_of ≡ some (clean_url some_body.url)
unfolding lookup text_eq rstrip_char strip
known_url = refl

health_allowed : is_allowed (rstrip_char b'/' (lstrip_char b'/' (codes "/fleet/health/"))) ≡ true
unfolding is_allowed text_eq rstrip_char lstrip_char
health_allowed = refl

unpinned : verify_site_cert fetch (clean_url some_body.url) known_hub.pins ≡ false
unfolding verify_site_cert lookup
unpinned = refl

api_site_proxy-removed_example :
    let h' = (api_nodes_remove 20 some_body disk known_hub).1 in
    (contains (node_urls h'.nodes) (clean_url some_url) ≡ false)
    × ((api_site_proxy meta fetch (codes "a") (codes "/fleet/health/") h').0
        ≡ forwarded
            (rstrip_char b'/' (clean_url some_url))
            (rstrip_char b'/' (lstrip_char b'/' (codes "/fleet/health/")))
            false)
api_site_proxy-removed_example =
    api_site_proxy-removed meta fetch (codes "a") (codes "/fleet/health/") 20 some_body disk
      known_hub removed known_url health_allowed unpinned
