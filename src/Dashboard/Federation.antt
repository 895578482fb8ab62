-- ===== src/Dashboard/Federation.antt =====
-- The requests that can move the list of nodes.
use tinysocs.Prelude.Core.{
  ◌≡◌, ◌≢◌, ◌⊎◌, refl, ℕ, true, Option, none, some, [], arith, Bool-cases, inl, inr,
}
use tinysocs.Prelude.Equality.{◌==◌}
use tinysocs.Prelude.Dict.{lookup}
use tinysocs.Prelude.Text.{Text, text_eq, strip}
use tinysocs.Dashboard.Session.{validate_session}
use tinysocs.Dashboard.Sites.{
  Site, Cert, Hub, Body, Disk, Reply, Check, accepted, refused, type_error, known_sites, clean_url,
  verify_registration_hmac, register_checked, api_nodes_register,
}
use tinysocs.Dashboard.Nodes.{
  Parsed, with_session, api_nodes_add, api_nodes_remove, api_nodes_approve, reject_site,
  api_nodes_reject, add_checked, remove_checked, approve_checked, reject_checked,
}

-- What can be asked of the hub about its sites.
pub data Request : Type 0 where
  registering : Text → Text → ℕ → Text → Text → Body → Request
  adding : ℕ → Body → Request
  removing : ℕ → Body → Request
  approving : ℕ → Text → Body → Request
  rejecting : ℕ → Body → Request

-- The token of the body, and the clock, for the requests that an operator makes.
abbrev pub session_of : Request → Option (Text × ℕ)
session_of (registering ts sig now now_iso client_ip b) = none
session_of (adding now b) = some (b.token, now)
session_of (removing now b) = some (b.token, now)
session_of (approving now now_iso b) = some (b.token, now)
session_of (rejecting now b) = none

abbrev pub HasToken : Option (Text × ℕ) → Hub → Type 0
HasToken none h = ⊥
HasToken (some (token, now)) h = (validate_session token now h.sessions).0 ≡ true

with_session-nodes :
    (token : Text) (now : ℕ) (rest : Hub → Reply × Hub) (h : Hub)
    → ((with_session token now rest h).1.nodes ≡ h.nodes)
      ⊎ ((validate_session token now h.sessions).0 ≡ true)
with_session-nodes token now rest h = elim (Bool-cases (validate_session token now h.sessions).0) [
  | inl e ↦ inr e
  | inr e ↦ inl (rw e refl)
]

register_checked-nodes :
    (c : Check) (client_ip now_iso : Text) (b : Body) (disk : Disk) (h : Hub)
    → (register_checked c client_ip now_iso b disk h).1.nodes ≡ h.nodes
register_checked-nodes type_error client_ip now_iso b disk h = refl
register_checked-nodes (refused reason) client_ip now_iso b disk h = ground arith
register_checked-nodes accepted client_ip now_iso b disk h = ground arith

reject_site-nodes :
    (node_id : Text) (disk : Disk) (o : Option Site) (h : Hub)
    → (reject_site node_id disk o h).1.nodes ≡ h.nodes
reject_site-nodes node_id disk none h = refl
reject_site-nodes node_id disk (some site) h = ground arith

with_session-reject :
    (token node_id : Text) (now : ℕ) (disk : Disk) (h : Hub)
    → (with_session token now (reject_checked node_id disk) h).1.nodes ≡ h.nodes
with_session-reject token node_id now disk h =
    elim (Bool-cases (validate_session token now h.sessions).0) [
      | inr e ↦ rw e refl
      | inl e ↦ elim (Bool-cases (node_id == [])) [
        | inl empty ↦ rw (e, empty) refl
        | inr named ↦
            rw (e, named)
              (reject_site-nodes node_id disk (lookup node_id (known_sites h))
                (record h { sessions = (validate_session token now h.sessions).1 }))
      ]
    ]

module _ (mac : Text → Text → Text) (secret : Text) (urlparse : Text → Parsed)
    (fetch : Text → Option Cert) where
  unfoldable pub serve : Disk → Request → Hub → Reply × Hub
  serve disk (registering ts sig now now_iso client_ip b) h =
      api_nodes_register mac secret ts sig now now_iso client_ip b disk h
  serve disk (adding now b) h = api_nodes_add urlparse now b disk h
  serve disk (removing now b) h = api_nodes_remove now b disk h
  serve disk (approving now now_iso b) h = api_nodes_approve urlparse fetch now now_iso b disk h
  serve disk (rejecting now b) h = api_nodes_reject now b disk h

  -- The list of nodes is moved by no request but an addition, a removal or an approval with the
  -- token of a valid session: by no registration, with or without the secret.
  pub serve-nodes :
      (disk : Disk) (r : Request) (h : Hub)
      → (serve disk r h).1.nodes ≢ h.nodes
      → HasToken (session_of r) h
  unfolding serve api_nodes_register api_nodes_add api_nodes_remove api_nodes_approve
      api_nodes_reject
  serve-nodes disk (registering ts sig now now_iso client_ip b) h moved = absurd (
      moved (
        register_checked-nodes (verify_registration_hmac mac secret ts sig now) client_ip now_iso b
          disk h))
  serve-nodes disk (adding now b) h moved =
      elim (with_session-nodes b.token now (add_checked urlparse (clean_url b.url) disk) h) [
        | inl kept ↦ absurd (moved kept)
        | inr e ↦ e
      ]
  serve-nodes disk (removing now b) h moved =
      elim (with_session-nodes b.token now (remove_checked (clean_url b.url) disk) h) [
        | inl kept ↦ absurd (moved kept)
        | inr e ↦ e
      ]
  serve-nodes disk (approving now now_iso b) h moved =
      elim (with_session-nodes b.token now
        (approve_checked urlparse fetch (strip b.node_id) now_iso disk) h) [
          | inl kept ↦ absurd (moved kept)
          | inr e ↦ e
        ]
  serve-nodes disk (rejecting now b) h moved =
      absurd (moved (with_session-reject b.token (strip b.node_id) now disk h))
