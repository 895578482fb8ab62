-- ===== src/Dashboard/Removed.antt =====
-- The removal of a site against the proxy.
use tinysocs.Prelude.Core.{
  ◌≡◌, ◌≢◌, refl, ℕ, String, true, false, not, Option, none, some, List, [], ◌∷◌, arith, Bool-cases,
  inl, inr,
}
use tinysocs.Prelude.Equality.{◌==◌, contains, beq-cases, string_eq, ne_of_beq}
use tinysocs.Prelude.Lists.{keep, All-keep}
use tinysocs.Prelude.Dict.{lookup}
use tinysocs.Prelude.Text.{Text, text_eq, lstrip_char, rstrip_char}
use tinysocs.Dashboard.Session.{validate_session}
use tinysocs.Dashboard.Sites.{Cert, Hub, Body, Disk, said, node_urls, clean_url}
use tinysocs.Dashboard.Nodes.{
  verify_site_cert, write_nodes, set_nodes, join_comma, api_nodes_remove,
}
use tinysocs.Dashboard.NodeList.{IsEntry, node_urls-join_comma, node_urls-IsEntry}
use tinysocs.Dashboard.Proxy.{is_allowed, forwarded, api_site_proxy}

set_nodes-kept :
    (message : String) (o : Option (Option Text)) (new_val : Text) (h : Hub)
    → ((set_nodes message o new_val h).1.url_of ≡ h.url_of)
      × ((set_nodes message o new_val h).1.pins ≡ h.pins)
set_nodes-kept message none new_val h = (refl, refl)
set_nodes-kept message (some file) new_val h = (refl, refl)

api_nodes_remove-kept :
    (now : ℕ) (b : Body) (disk : Disk) (h : Hub)
    → ((api_nodes_remove now b disk h).1.url_of ≡ h.url_of)
      × ((api_nodes_remove now b disk h).1.pins ≡ h.pins)
unfolding api_nodes_remove
api_nodes_remove-kept now b disk h =
    let h' : Hub = record h { sessions = (validate_session b.token now h.sessions).1 } in
    let url = clean_url b.url in
    elim (Bool-cases (validate_session b.token now h.sessions).0) [
      | inr e ↦ rw e (refl, refl)
      | inl e ↦ elim (Bool-cases (url == [])) [
        | inl empty ↦ rw (e, empty) (refl, refl)
        | inr named ↦ elim (Bool-cases (contains (node_urls h.nodes) url)) [
          | inr absent ↦ rw (e, named, absent) (refl, refl)
          | inl present ↦ rw (e, named, present) (set_nodes-kept "Site removed" _ _ h')
        ]
      ]
    ]

contains-keep : (u : Text) (us : List Text) → contains (keep (λ v. not (v == u)) us) u ≡ false
contains-keep u [] = refl
contains-keep u (v ∷ us) = elim (beq-cases v u) [
  | inl (e, _) ↦ rw e (contains-keep u us)
  | inr (e, n) ↦ rw e (ground (arith, contains-keep u us))
]

set_nodes-removed :
    (o : Option (Option Text)) (new_val : Text) (h : Hub)
    → (set_nodes "Site removed" o new_val h).0 ≡ said "Site removed"
    → (set_nodes "Site removed" o new_val h).1.nodes ≡ new_val
set_nodes-removed none new_val h e = cc
set_nodes-removed (some file) new_val h e = refl

not_found : String
not_found = "Site not found in list"

not_found-ne : not_found ≢ "Site removed"
unfolding not_found string_eq
not_found-ne = ne_of_beq not_found "Site removed" refl

api_nodes_remove-absent :
    (now : ℕ) (b : Body) (disk : Disk) (h : Hub)
    → (api_nodes_remove now b disk h).0 ≡ said "Site removed"
    → contains (node_urls (api_nodes_remove now b disk h).1.nodes) (clean_url b.url) ≡ false
unfolding api_nodes_remove not_found
api_nodes_remove-absent now b disk h done =
    let h' : Hub = record h { sessions = (validate_session b.token now h.sessions).1 } in
    let url = clean_url b.url in
    let left = keep (λ v. not (v == url)) (node_urls h.nodes) in
    let entries =
      All-keep IsEntry (λ v. not (v == url)) (node_urls h.nodes) (node_urls-IsEntry h.nodes) in
    elim (Bool-cases (validate_session b.token now h.sessions).0) [
      | inr e ↦ absurd (ground arith)
      | inl e ↦ elim (Bool-cases (url == [])) [
        | inl empty ↦ absurd (ground arith)
        | inr named ↦ elim (Bool-cases (contains (node_urls h.nodes) url)) [
          | inr absent ↦ absurd (ground (arith, not_found-ne))
          | inl present ↦
              let nodes =
                set_nodes-removed (write_nodes disk.env_writes (join_comma left) h.env_file)
                  (join_comma left) h' (rw (e, named, present) at done) in
              rw (e, named, present, nodes, node_urls-join_comma left entries)
                (contains-keep url (node_urls h.nodes))
        ]
      ]
    ]

module _ (meta : Text → Option Text) (fetch : Text → Option Cert) where
  -- The name of a site outlives its removal: after a removal that was answered with "Site
  -- removed" the URL is not in the list of nodes any more, and the proxy still forwards the calls
  -- under a name for which it knew that URL, if the path is allowed and the pin does not differ.
  pub api_site_proxy-removed :
      (node_id path : Text) (now : ℕ) (b : Body) (disk : Disk) (h : Hub)
      → (api_nodes_remove now b disk h).0 ≡ said "Site removed"
      → lookup node_id h.url_of ≡ some (clean_url b.url)
      → is_allowed (rstrip_char b'/' (lstrip_char b'/' path)) ≡ true
      → verify_site_cert fetch (clean_url b.url) h.pins ≡ false
      → let h' = (api_nodes_remove now b disk h).1 in
        (contains (node_urls h'.nodes) (clean_url b.url) ≡ false)
        × ((api_site_proxy meta fetch node_id path h').0
            ≡ forwarded
                (rstrip_char b'/' (clean_url b.url))
                (rstrip_char b'/' (lstrip_char b'/' path))
                false)
  unfolding api_site_proxy
  api_site_proxy-removed node_id path now b disk h done known open_path good =
      let kept = api_nodes_remove-kept now b disk h in
      (api_nodes_remove-absent now b disk h done, rw (open_path, kept.0, known, kept.1, good) refl)
