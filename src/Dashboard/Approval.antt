-- ===== src/Dashboard/Approval.antt =====
-- The approval of a site by api_nodes_approve of api/dashboard.py.
use tinysocs.Prelude.Core.{
  ◌≡◌, refl, ℕ, true, Option, none, some, List, [], ◌∷◌, ◌++◌, arith, if◌then◌else◌, Bool-cases,
  Option-cases, inl, inr,
}
use tinysocs.Prelude.Equality.{◌==◌, contains, beq-cases, beq_refl}
use tinysocs.Prelude.Lists.{All-append}
use tinysocs.Prelude.Dict.{Dict, lookup, insert, lookup-insert, lookup-erase}
use tinysocs.Prelude.Strings.{codes}
use tinysocs.Prelude.Text.{Text, text_eq, strip}
use tinysocs.Dashboard.Session.{validate_session}
use tinysocs.Dashboard.Sites.{Site, Cert, Pin, Hub, Body, Disk, said, node_urls, known_sites}
use tinysocs.Dashboard.Nodes.{
  Parsed, pin_site_cert, list_site, approve_pinned, approve_site, api_nodes_approve,
}
use tinysocs.Dashboard.NodeList.{IsEntry, node_urls-join_comma, node_urls-IsEntry}

abbrev pub pin_of : Text → Text → Cert → Pin
pin_of node_id now_iso cert = record { node_id = node_id; cert = cert; pinned_at = now_iso }

module _ (urlparse : Text → Parsed) (fetch : Text → Option Cert) where
  pin_site_cert-some :
      (url node_id now_iso : Text) (pins pins' : Dict Text Pin)
      → pin_site_cert urlparse fetch url node_id now_iso pins ≡ some pins'
      → ((urlparse url).scheme ≡ codes "https")
        × ((cert : Cert) × (fetch url ≡ some cert)
            × (pins' ≡ insert url (pin_of node_id now_iso cert) pins))
  unfolding pin_site_cert
  pin_site_cert-some url node_id now_iso pins pins' h =
      elim (beq-cases (urlparse url).scheme (codes "https")) [
        | inr (plain, _) ↦ absurd (ground arith)
        | inl (_, https) ↦ elim (Option-cases (fetch url)) [
          | inl missing ↦ absurd (ground arith)
          | inr (cert, got) ↦ (https, (cert, got, ground arith))
        ]
      ]

list_site-nodes :
    (url : Text) (disk : Disk) (h : Hub)
    → IsEntry url
    → node_urls (list_site url disk h).nodes ≡ (
        if contains (node_urls h.nodes) url
        then node_urls h.nodes
        else node_urls h.nodes ++ url ∷ [])
list_site-nodes url disk h entry = elim (Bool-cases (contains (node_urls h.nodes) url)) [
  | inl e ↦ rw e refl
  | inr e ↦ rw e (
      node_urls-join_comma (node_urls h.nodes ++ url ∷ [])
        (All-append IsEntry (node_urls h.nodes) (url ∷ []) (node_urls-IsEntry h.nodes) (entry, tt)))
]

list_site-sites :
    (url : Text) (disk : Disk) (h : Hub)
    → ((list_site url disk h).pins ≡ h.pins) × ((list_site url disk h).sites ≡ h.sites)
list_site-sites url disk h = elim (Bool-cases (contains (node_urls h.nodes) url)) [
  | inl e ↦ rw e (refl, refl)
  | inr e ↦ rw e (refl, refl)
]

-- A list of nodes with an entry, if it lacks it.
abbrev pub with_entry : List Text → Text → List Text
with_entry us url = if contains us url then us else us ++ url ∷ []

-- What has happened once the approval of a site was answered with "approved", with the variable
-- that held the list of nodes before.
pub record IsApproved (urlparse : Text → Parsed) (fetch : Text → Option Cert)
    (node_id now_iso : Text) (site : Site) (before : Text) (h' : Hub) : Type 0 where
  pub secure : (urlparse site.url).scheme ≡ codes "https"
  pub pinned :
      (cert : Cert) × (fetch site.url ≡ some cert)
      × (lookup site.url h'.pins ≡ some (pin_of node_id now_iso cert))
  pub listed : node_urls h'.nodes ≡ with_entry (node_urls before) site.url
  pub taken : lookup node_id (known_sites h') ≡ none

module _ (urlparse : Text → Parsed) (fetch : Text → Option Cert) where
  approve_site-IsApproved :
      (node_id now_iso : Text) (disk : Disk) (site : Site) (h : Hub) (o : Option (Dict Text Pin))
      → pin_site_cert urlparse fetch site.url node_id now_iso h.pins ≡ o
      → IsEntry site.url
      → (approve_pinned node_id site.url disk o h).0 ≡ said "approved"
      → IsApproved urlparse fetch node_id now_iso site h.nodes
          (approve_pinned node_id site.url disk o h).1
  approve_site-IsApproved node_id now_iso disk site h none e entry done = cc
  approve_site-IsApproved node_id now_iso disk site h (some pins) e entry done =
      let (secure, (cert, got, stored)) =
        pin_site_cert-some urlparse fetch site.url node_id now_iso h.pins pins e in
      elim (Bool-cases disk.sites_writes) [
        | inr no_write ↦ absurd (ground arith)
        | inl write ↦ rw write (record {
          secure = secure;
          pinned = (
            cert,
            got,
            rw
                (
                  stored,
                  lookup-insert site.url site.url (pin_of node_id now_iso cert) h.pins,
                  beq_refl site.url,
                )
                refl,
          );
          listed = list_site-nodes site.url disk h entry;
          taken = rw (lookup-erase node_id node_id (known_sites h), beq_refl node_id) refl;
        })
      ]

  approve_site-known :
      (node_id now_iso : Text) (disk : Disk) (o : Option Site) (h : Hub)
      → (approve_site urlparse fetch node_id now_iso disk o h).0 ≡ said "approved"
      → (site : Site) × (o ≡ some site)
  approve_site-known node_id now_iso disk none h done = cc
  approve_site-known node_id now_iso disk (some site) h done = (site, refl)

  -- An approval that is answered with "approved" was asked for with a valid session; the site was
  -- known; its URL is https and the certificate that it presented is pinned; its URL is in the list
  -- of nodes, with those that were there before it; and it is not pending any more. The URL of a
  -- site that is known under the name has no comma, and no white space around it.
  pub api_nodes_approve_sound :
      (now : ℕ) (now_iso : Text) (b : Body) (disk : Disk) (h : Hub)
      → ((s : Site) → lookup (strip b.node_id) (known_sites h) ≡ some s → IsEntry s.url)
      → (api_nodes_approve urlparse fetch now now_iso b disk h).0 ≡ said "approved"
      → ((validate_session b.token now h.sessions).0 ≡ true)
        × ((site : Site) × (lookup (strip b.node_id) (known_sites h) ≡ some site)
            × IsApproved urlparse fetch
                (strip b.node_id)
                now_iso
                site
                h.nodes
                (api_nodes_approve urlparse fetch now now_iso b disk h).1)
  unfolding api_nodes_approve
  api_nodes_approve_sound now now_iso b disk h entries done =
      elim (Bool-cases (validate_session b.token now h.sessions).0) [
        | inr e ↦ absurd (ground arith)
        | inl e ↦ elim (Bool-cases (strip b.node_id == [])) [
          | inl empty ↦ absurd (ground arith)
          | inr named ↦
              let h' : Hub = record h { sessions = (validate_session b.token now h.sessions).1 } in
              let (site, known) =
                approve_site-known (strip b.node_id) now_iso disk
                  (lookup (strip b.node_id) (known_sites h)) h' (rw (e, named) at done) in
              (
                e,
                (
                  site,
                  known,
                  rw (e, named, known)
                      (approve_site-IsApproved (strip b.node_id) now_iso disk site h'
                        (pin_site_cert urlparse fetch site.url (strip b.node_id) now_iso h.pins)
                        refl (entries site known) (rw (e, named, known) at done)),
                ),
              )
        ]
      ]
