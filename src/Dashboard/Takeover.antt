-- ===== src/Dashboard/Takeover.antt =====
-- A registration without the secret against the approval of a site.
use tinysocs.Prelude.Core.{◌≡◌, ◌≢◌, refl, ℕ, true, false, Option, some, [], ◌∷◌, arith}
use tinysocs.Prelude.Equality.{◌==◌, contains, beq_refl}
use tinysocs.Prelude.Dict.{lookup, lookup-insert}
use tinysocs.Prelude.Strings.{codes}
use tinysocs.Prelude.Text.{Text, text_eq, strip}
use tinysocs.Dashboard.Session.{validate_session}
use tinysocs.Dashboard.Sites.{
  rejected, auth_failed, Site, Cert, Hub, Body, Disk, said, Reason, accepted, refused, or_else,
  or_empty, first_seen_of, store_failure, clean_url, node_urls, known_sites,
  verify_registration_hmac, api_nodes_register,
}
use tinysocs.Dashboard.Nodes.{Parsed, pin_site_cert, approve_pinned, api_nodes_approve, list_site}

module _ (mac : Text → Text → Text) (secret : Text) where
  -- A site that was rejected stays so: its registration with the secret is answered with
  -- "rejected" and changes nothing, unless its URL is in the list of nodes.
  pub api_nodes_register-rejected :
      (ts sig : Text) (now : ℕ) (now_iso client_ip : Text) (b : Body) (disk : Disk) (h : Hub)
      (site : Site)
      → verify_registration_hmac mac secret ts sig now ≡ accepted
      → lookup (strip b.node_id) (known_sites h) ≡ some site
      → site.status ≡ rejected
      → strip b.node_id ≢ []
      → clean_url b.url ≢ []
      → contains (node_urls h.nodes) (clean_url b.url) ≡ false
      → api_nodes_register mac secret ts sig now now_iso client_ip b disk h ≡ (said "rejected", h)
  unfolding api_nodes_register
  api_nodes_register-rejected ts sig now now_iso client_ip b disk h site ok known status named
        located new =
      rw (ok, known, status, new) (ground arith)

-- The site that a failed registration leaves behind.
abbrev failed_site : Reason → Text → Body → Hub → Site
failed_site reason now_iso b h = record {
  node_id = b.node_id;
  url = b.url;
  version = or_else (or_empty b.version) (codes "unknown");
  status = auth_failed;
  error = some reason;
  first_seen = first_seen_of (lookup b.node_id (known_sites h)) now_iso;
  last_seen = now_iso;
}

or_else-given : (s other : Text) → s ≢ [] → or_else s other ≡ s
or_else-given [] other n = absurd (n refl)
or_else-given (c ∷ s) other n = refl

store_failure-known :
    (reason : Reason) (client_ip now_iso : Text) (b : Body) (disk : Disk) (h : Hub)
    → disk.sites_writes ≡ true
    → b.node_id ≢ []
    → (b.node_id == codes "unknown") ≡ false
    → b.url ≢ []
    → lookup b.node_id (known_sites (store_failure reason client_ip now_iso b disk h))
      ≡ some (failed_site reason now_iso b h)
store_failure-known reason client_ip now_iso b disk h write named other located =
    let id = or_else-given b.node_id (codes "unknown") named in
    let url = or_else-given b.url client_ip located in
    let site = failed_site reason now_iso b h in
    rw
      (
        write,
        id,
        other,
        url,
        lookup-insert b.node_id b.node_id site (known_sites h),
        beq_refl b.node_id,
      )
      refl

module _ (urlparse : Text → Parsed) (fetch : Text → Option Cert) where
  approve_pinned-said :
      (node_id url now_iso : Text) (disk : Disk) (h : Hub) (cert : Cert)
      → (urlparse url).scheme ≡ codes "https"
      → fetch url ≡ some cert
      → disk.sites_writes ≡ true
      → let r =
          approve_pinned node_id url disk
            (pin_site_cert urlparse fetch url node_id now_iso h.pins)
            h in
        (r.0 ≡ said "approved") × (lookup node_id r.1.url_of ≡ some url)
  unfolding pin_site_cert
  approve_pinned-said node_id url now_iso disk h cert https got write =
      let kept = (list_site url disk h).url_of in
      rw
        (
          https,
          beq_refl (codes "https"),
          got,
          write,
          lookup-insert node_id node_id url kept,
          beq_refl node_id,
        )
        (refl, refl)

  -- A registration that does not have the secret is turned away, but it leaves its URL under the
  -- name of the site, whatever was known of the site before. When an operator with a valid session
  -- then approves that site, this URL is approved, if it is https and presents a certificate, and
  -- is where the site's calls go.
  pub api_nodes_approve-unauthenticated :
      (mac : Text → Text → Text) (secret ts sig : Text) (now : ℕ) (now_iso client_ip : Text)
      (b : Body) (disk : Disk) (h : Hub) (reason : Reason) (o : Body) (later : ℕ) (later_iso : Text)
      (cert : Cert)
      → verify_registration_hmac mac secret ts sig now ≡ refused reason
      → disk.sites_writes ≡ true
      → b.node_id ≢ []
      → b.node_id ≢ codes "unknown"
      → b.url ≢ []
      → strip o.node_id ≡ b.node_id
      → (validate_session o.token later h.sessions).0 ≡ true
      → (urlparse b.url).scheme ≡ codes "https"
      → fetch b.url ≡ some cert
      → let h' = (api_nodes_register mac secret ts sig now now_iso client_ip b disk h).1 in
        let r = api_nodes_approve urlparse fetch later later_iso o disk h' in
        (r.0 ≡ said "approved") × (lookup b.node_id r.1.url_of ≡ some b.url)
  unfolding api_nodes_register api_nodes_approve
  api_nodes_approve-unauthenticated mac secret ts sig now now_iso client_ip b disk h reason o later
        later_iso cert wrong write named other located same session https got =
      let h1 = store_failure reason client_ip now_iso b disk h in
      let sessions : h1.sessions ≡ h.sessions = rw write refl in
      let valid : (validate_session o.token later h1.sessions).0 ≡ true = rw sessions session in
      let differs : (b.node_id == codes "unknown") ≡ false = ground arith in
      let present : (b.node_id == []) ≡ false = ground arith in
      let known =
        store_failure-known reason client_ip now_iso b disk h write named differs located in
      let h2 : Hub = record h1 { sessions = (validate_session o.token later h1.sessions).1 } in
      rw (wrong, valid, same, present, known)
        (approve_pinned-said b.node_id b.url later_iso disk h2 cert https got write)
