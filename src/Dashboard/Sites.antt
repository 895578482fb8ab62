-- ===== src/Dashboard/Sites.antt =====
-- The sites of the federation in api/dashboard.py and federation_certs.py: the registration of a
-- site, and the pins of certificates. The fields of a body are texts, "" where one is missing. The
-- MAC, the certificate that a site presents and `urlparse` are parameters. The clock in whole
-- seconds is an argument, and times are kept in the form `isoformat` gives them.
use tinysocs.Prelude.Core.{
  ℕ, Bool, true, false, ◌&&◌, ◌||◌, Option, none, some, List, [], ◌∷◌, ◌++◌, String, if◌then◌else◌,
}
use tinysocs.Prelude.Equality.{◌==◌, contains}
use tinysocs.Prelude.Dict.{Dict, lookup, insert}
use tinysocs.Prelude.Int.{ℤ, pos, ◌-ℤ◌, abs, ltb_ℤ}
use tinysocs.Prelude.Strings.{codes}
use tinysocs.Prelude.Text.{
  Text, text_eq, strip, lower, strip_prefix, parse_int, split_on, rstrip_char,
}
use tinysocs.Auth.{is_ascii}
use tinysocs.Dashboard.Session.{Sessions}

pub data Status : Type 0 where
  pending rejected auth_failed : Status

-- The reasons of `_verify_registration_hmac`.
pub data Reason : Type 0 where
  missing_headers invalid_timestamp skew_too_large hmac_mismatch : Reason

pub record Site : Type 0 where
  pub node_id : Text
  pub url : Text
  pub version : Text
  pub status : Status
  pub error : Option Reason
  pub first_seen : Text
  pub last_seen : Text

pub record Cert : Type 0 where
  pub fingerprint : Text
  pub subject : Text
  pub not_after : Text
  pub pem : Text

pub record Pin : Type 0 where
  pub node_id : Text
  pub cert : Cert
  pub pinned_at : Text

-- TINYSOCS_NODES of the environment, assistant.env, the sites of pending_sites.json (none if there
-- is no such file that can be read), pinned_certs.json, `_node_id_to_url`, `_url_to_node_id` and
-- `_NODES_LIST`.
pub record Hub : Type 0 where
  pub sessions : Sessions
  pub nodes : Text
  pub env_file : Option Text
  pub sites : Option (Dict Text Site)
  pub pins : Dict Text Pin
  pub url_of : Dict Text Text
  pub id_of : Dict Text Text
  pub nodes_list : Option (List Text)

pub record Body : Type 0 where
  pub token : Text
  pub node_id : Text
  pub url : Text
  pub version : Option Text

-- Which of the files can be written.
pub record Disk : Type 0 where
  pub env_writes : Bool
  pub sites_writes : Bool

pub data Reply : Type 0 where
  said : String → Reply
  failed : ℕ → String → Reply

pub data Check : Type 0 where
  accepted : Check
  refused : Reason → Check
  type_error : Check

abbrev pub compare_hmac : Text → Text → Check
compare_hmac calc provided =
    if is_ascii calc && is_ascii provided
    then if calc == provided then accepted else refused hmac_mismatch
    else type_error

abbrev pub without_scheme : Text → Text
without_scheme provided = elim (strip_prefix (codes "sha256=") provided) [
  | none ↦ provided
  | some s ↦ s
]

abbrev pub check_skew : (Text → Text → Text) → Text → Text → Text → ℕ → Option ℤ → Check
check_skew mac secret ts sig now none = refused invalid_timestamp
check_skew mac secret ts sig now (some t) =
    if ltb_ℤ (pos 300) (abs (pos now -ℤ t))
    then refused skew_too_large
    else compare_hmac (mac secret ts) (without_scheme (strip (lower sig)))

unfoldable pub verify_registration_hmac : (Text → Text → Text) → Text → Text → Text → ℕ → Check
verify_registration_hmac mac secret ts sig now =
    if ts == [] || sig == []
    then refused missing_headers
    else check_skew mac secret ts sig now (parse_int ts)

unfoldable pub stripped : List Text → List Text
stripped [] = []
stripped (u ∷ us) = let rest = stripped us in elim (strip u) [ [] ↦ rest | c ∷ s ↦ (c ∷ s) ∷ rest ]

-- `[u.strip() for u in raw.split(",") if u.strip()]`
unfoldable pub node_urls : Text → List Text
node_urls raw = stripped (split_on b',' (strip raw))

abbrev pub known_sites : Hub → Dict Text Site
known_sites h = elim h.sites [ none ↦ [] | some d ↦ d ]

abbrev pub or_else : Text → Text → Text
or_else [] other = other
or_else (c ∷ s) other = c ∷ s

abbrev pub or_empty : Option Text → Text
or_empty none = []
or_empty (some s) = s

abbrev pub first_seen_of : Option Site → Text → Text
first_seen_of none now_iso = now_iso
first_seen_of (some site) now_iso = site.first_seen

abbrev pub failed_id : Text → Text → Text
failed_id node_id client_ip =
    let id = or_else node_id (codes "unknown") in
    if id == codes "unknown" then codes "unknown-" ++ client_ip else id

-- A failed attempt is stored, if the file can be written.
abbrev pub store_failure : Reason → Text → Text → Body → Disk → Hub → Hub
store_failure reason client_ip now_iso b disk h =
    let id = failed_id b.node_id client_ip in
    let site : Site = record {
      node_id = id;
      url = or_else b.url client_ip;
      version = or_else (or_empty b.version) (codes "unknown");
      status = auth_failed;
      error = some reason;
      first_seen = first_seen_of (lookup id (known_sites h)) now_iso;
      last_seen = now_iso;
    } in
    if disk.sites_writes then record h { sites = some (insert id site (known_sites h)) } else h

abbrev pub is_rejected : Option Site → Bool
is_rejected none = false
is_rejected (some site) = elim site.status [
  | rejected ↦ true
  | pending ↦ false
  | auth_failed ↦ false
]

abbrev pub upsert : Text → Text → Text → Text → Disk → Hub → Reply × Hub
upsert node_id url version now_iso disk h =
    let site : Site = record {
      node_id = node_id;
      url = url;
      version = version;
      status = pending;
      error = none;
      first_seen = first_seen_of (lookup node_id (known_sites h)) now_iso;
      last_seen = now_iso;
    } in
    if disk.sites_writes
    then (said "pending", record h { sites = some (insert node_id site (known_sites h)) })
    else (failed 500 "Internal Server Error", h)

-- `body.get("version", "unknown")`
abbrev pub version_of : Option Text → Text
version_of none = codes "unknown"
version_of (some v) = v

abbrev pub register_site : Text → Text → Text → Text → Disk → Hub → Reply × Hub
register_site node_id url version now_iso disk h =
    if node_id == [] || url == []
    then (failed 400 "node_id and url are required", h)
    else if contains (node_urls h.nodes) url
    then (said "approved", h)
    else if is_rejected (lookup node_id (known_sites h))
    then (said "rejected", h)
    else upsert node_id url version now_iso disk h

-- `s.strip().rstrip("/")`
abbrev pub clean_url : Text → Text
clean_url url = rstrip_char b'/' (strip url)

abbrev pub register_checked : Check → Text → Text → Body → Disk → Hub → Reply × Hub
register_checked type_error client_ip now_iso b disk h = (failed 500 "Internal Server Error", h)
register_checked (refused reason) client_ip now_iso b disk h =
    (failed 401 "Registration failed", store_failure reason client_ip now_iso b disk h)
register_checked accepted client_ip now_iso b disk h =
    register_site (strip b.node_id) (clean_url b.url) (version_of b.version) now_iso disk h

unfoldable pub api_nodes_register :
    (Text → Text → Text) → Text → Text → Text → ℕ → Text → Text → Body → Disk → Hub → Reply × Hub
api_nodes_register mac secret ts sig now now_iso client_ip b disk h =
    register_checked (verify_registration_hmac mac secret ts sig now) client_ip now_iso b disk h
