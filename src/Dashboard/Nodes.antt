-- ===== src/Dashboard/Nodes.antt =====
-- The handlers of api/dashboard.py by which an operator adds, removes, approves and rejects sites,
-- and `pin_site_cert` and `verify_site_cert` of federation_certs.py.
use tinysocs.Prelude.Core.{
  ℕ, Bool, true, false, not, Option, none, some, List, [], ◌∷◌, ◌++◌, String, eqb, if◌then◌else◌,
}
use tinysocs.Prelude.Equality.{◌==◌, contains}
use tinysocs.Prelude.Lists.{keep}
use tinysocs.Prelude.Dict.{Dict, lookup, insert, erase, values}
use tinysocs.Prelude.Strings.{codes}
use tinysocs.Prelude.Text.{Text, text_eq, strip, strip_prefix}
use tinysocs.Dashboard.Session.{validate_session}
use tinysocs.Dashboard.Gate.{checked_token}
use tinysocs.Dashboard.EnvFile.{write_env_file}
use tinysocs.Dashboard.Sites.{
  pending, rejected, auth_failed, Site, Cert, Pin, Hub, Body, Disk, Reply, said, failed, node_urls,
  known_sites, clean_url,
}

-- `",".join(urls)`
unfoldable pub join_comma : List Text → Text
join_comma [] = []
join_comma (u ∷ []) = u
join_comma (u ∷ v ∷ us) = u ++ (b',' ∷ join_comma (v ∷ us))

-- `_write_env_file`, if there is a file; none is its exception.
abbrev pub write_nodes : Bool → Text → Option Text → Option (Option Text)
write_nodes writes new_val none = some none
write_nodes writes new_val (some text) =
    if writes
    then some (some (write_env_file ((codes "TINYSOCS_NODES", new_val) ∷ []) text))
    else none

-- What `urlparse` finds: the scheme, the host and the port, 0 if there is none.
pub record Parsed : Type 0 where
  pub scheme : Text
  pub hostname : Text
  pub port : ℕ

abbrev pub with_scheme : Text → Text
with_scheme url = elim (strip_prefix (codes "https://") url) [
  | some s ↦ url
  | none ↦ elim (strip_prefix (codes "http://") url) [
    | some s ↦ url
    | none ↦ codes "https://" ++ url
  ]
]

abbrev pub with_port : (Text → Parsed) → Text → Text
with_port urlparse url =
    let parsed = urlparse url in
    if eqb parsed.port 0
    then parsed.scheme ++ (codes "://" ++ (parsed.hostname ++ codes ":8081"))
    else url

abbrev pub set_nodes : String → Option (Option Text) → Text → Hub → Reply × Hub
set_nodes message none new_val h = (failed 500 "Failed to write env file", h)
set_nodes message (some file) new_val h =
    (said message, record h { nodes = new_val; env_file = file; nodes_list = none })

abbrev pub add_url : Text → Disk → Hub → Reply × Hub
add_url url disk h =
    let current = node_urls h.nodes in
    let new_val = join_comma (current ++ url ∷ []) in
    if contains current url
    then (said "Site already configured", h)
    else set_nodes "Site added" (write_nodes disk.env_writes new_val h.env_file) new_val h

abbrev pub remove_url : Text → Disk → Hub → Reply × Hub
remove_url url disk h =
    let current = node_urls h.nodes in
    let new_val = join_comma (keep (λ u. not (u == url)) current) in
    if contains current url
    then set_nodes "Site removed" (write_nodes disk.env_writes new_val h.env_file) new_val h
    else (said "Site not found in list", h)

-- The check of the token of the body, before the rest of a handler.
abbrev pub with_session : Text → ℕ → (Hub → Reply × Hub) → Hub → Reply × Hub
with_session token now rest h =
    let (valid, sessions) = validate_session token now h.sessions in
    let h' = record h { sessions = sessions } in
    if valid then rest h' else (failed 401 "Unauthorized", h')

abbrev pub add_checked : (Text → Parsed) → Text → Disk → Hub → Reply × Hub
add_checked urlparse url disk h =
    if url == []
    then (failed 400 "url is required", h)
    else add_url (with_port urlparse (with_scheme url)) disk h

unfoldable pub api_nodes_add : (Text → Parsed) → ℕ → Body → Disk → Hub → Reply × Hub
api_nodes_add urlparse now b disk h =
    with_session b.token now (add_checked urlparse (clean_url b.url) disk) h

abbrev pub remove_checked : Text → Disk → Hub → Reply × Hub
remove_checked url disk h =
    if url == [] then (failed 400 "url is required", h) else remove_url url disk h

unfoldable pub api_nodes_remove : ℕ → Body → Disk → Hub → Reply × Hub
api_nodes_remove now b disk h = with_session b.token now (remove_checked (clean_url b.url) disk) h

-- `fetch` is `fetch_cert_info`; none is the ValueError.
unfoldable pub pin_site_cert :
    (Text → Parsed)
    → (Text → Option Cert)
    → Text
    → Text
    → Text
    → Dict Text Pin
    → Option (Dict Text Pin)
pin_site_cert urlparse fetch url node_id now_iso pins =
    if (urlparse url).scheme == codes "https"
    then elim (fetch url) [
      | none ↦ none
      | some cert ↦
          some (insert url (record { node_id = node_id; cert = cert; pinned_at = now_iso }) pins)
    ]
    else none

abbrev pub is_mismatch : Pin → Option Cert → Bool
is_mismatch pin none = false
is_mismatch pin (some cert) = not (pin.cert.fingerprint == cert.fingerprint)

-- Whether the certificate that the site presents is another than the pinned one.
unfoldable pub verify_site_cert : (Text → Option Cert) → Text → Dict Text Pin → Bool
verify_site_cert fetch url pins = elim (lookup url pins) [
  | none ↦ false
  | some pin ↦ is_mismatch pin (fetch url)
]

-- A write of assistant.env that fails is passed over here.
abbrev pub or_old : Option Text → Option (Option Text) → Option Text
or_old old none = old
or_old old (some file) = file

abbrev pub list_site : Text → Disk → Hub → Hub
list_site url disk h =
    let current = node_urls h.nodes in
    let new_val = join_comma (current ++ url ∷ []) in
    if contains current url then h else record h {
      nodes = new_val;
      env_file = or_old h.env_file (write_nodes disk.env_writes new_val h.env_file);
      nodes_list = none;
    }

-- The end of the approval, with the pins that were saved.
abbrev pub approve_pinned : Text → Text → Disk → Option (Dict Text Pin) → Hub → Reply × Hub
approve_pinned node_id url disk none h = (failed 400 "not using TLS, or no certificate", h)
approve_pinned node_id url disk (some pins) h =
    let listed = list_site url disk h in
    let noted = record listed {
      pins = pins;
      id_of = insert url node_id listed.id_of;
      url_of = insert node_id url listed.url_of;
    } in
    if disk.sites_writes
    then (said "approved", record noted { sites = some (erase node_id (known_sites h)) })
    else (failed 500 "Internal Server Error", noted)

abbrev pub approve_site :
    (Text → Parsed) → (Text → Option Cert) → Text → Text → Disk → Option Site → Hub → Reply × Hub
approve_site urlparse fetch node_id now_iso disk none h =
    (failed 404 "Site not found in pending list", h)
approve_site urlparse fetch node_id now_iso disk (some site) h =
    approve_pinned node_id site.url disk
      (pin_site_cert urlparse fetch site.url node_id now_iso h.pins) h

abbrev pub approve_checked :
    (Text → Parsed) → (Text → Option Cert) → Text → Text → Disk → Hub → Reply × Hub
approve_checked urlparse fetch node_id now_iso disk h =
    if node_id == []
    then (failed 400 "node_id is required", h)
    else approve_site urlparse fetch node_id now_iso disk (lookup node_id (known_sites h)) h

unfoldable pub api_nodes_approve :
    (Text → Parsed) → (Text → Option Cert) → ℕ → Text → Body → Disk → Hub → Reply × Hub
api_nodes_approve urlparse fetch now now_iso b disk h =
    with_session b.token now (approve_checked urlparse fetch (strip b.node_id) now_iso disk) h

abbrev pub reject_site : Text → Disk → Option Site → Hub → Reply × Hub
reject_site node_id disk none h = (failed 404 "Site not found in pending list", h)
reject_site node_id disk (some site) h =
    if disk.sites_writes
    then (
      said "rejected",
      record h {
        sites = some (insert node_id (record site { status = rejected }) (known_sites h));
      },
    )
    else (failed 500 "Internal Server Error", h)

abbrev pub reject_checked : Text → Disk → Hub → Reply × Hub
reject_checked node_id disk h =
    if node_id == []
    then (failed 400 "node_id is required", h)
    else reject_site node_id disk (lookup node_id (known_sites h)) h

unfoldable pub api_nodes_reject : ℕ → Body → Disk → Hub → Reply × Hub
api_nodes_reject now b disk h = with_session b.token now (reject_checked (strip b.node_id) disk) h

abbrev pub is_listed : Site → Bool
is_listed site = elim site.status [ pending ↦ true | auth_failed ↦ true | rejected ↦ false ]

-- The sites that the operator is shown.
abbrev pub shown_sites : Hub → List Site
shown_sites h = keep is_listed (values (known_sites h))

-- `auth.replace("Bearer ", "") if auth.startswith("Bearer ") else ""`
abbrev pub pending_token : Text → Text
pending_token auth = elim (strip_prefix (codes "Bearer ") auth) [
  | none ↦ []
  | some rest ↦ checked_token auth
]

-- The answer is none for the 401.
unfoldable pub api_nodes_pending : Text → ℕ → Hub → Option (List Site) × Hub
api_nodes_pending auth now h =
    let (valid, sessions) = validate_session (pending_token auth) now h.sessions in
    (if valid then some (shown_sites h) else none, record h { sessions = sessions })
