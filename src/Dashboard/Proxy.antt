-- ===== src/Dashboard/Proxy.antt =====
-- `api_site_proxy` of api/dashboard.py outside the demo mode: which request goes to which site.
-- `meta` is the node_id that a node's /meta answers, none where the call or its parsing fails.
-- `fetch` is what a site presents on the connection of the pin check, which is closed before the
-- request is forwarded on another one.
use tinysocs.Prelude.Core.{
  ◌≡◌, ◌⊎◌, refl, ◌∙◌, ℕ, Bool, true, false, Option, none, some, List, [], ◌∷◌, map, arith,
  if◌then◌else◌, Bool-cases, inl, inr,
}
use tinysocs.Prelude.Equality.{contains, string_eq}
use tinysocs.Prelude.Dict.{Dict, lookup, insert}
use tinysocs.Prelude.Strings.{codes}
use tinysocs.Prelude.Text.{Text, text_eq, strip_prefix, lstrip_char, rstrip_char}
use tinysocs.Dashboard.Sites.{Cert, Hub, node_urls}
use tinysocs.Dashboard.Nodes.{verify_site_cert}

abbrev pub proxy_allowed : List Text
proxy_allowed =
    codes "alerts/summary"
    ∷ codes "alerts/timeline"
    ∷ codes "fleet/summary"
    ∷ codes "fleet/health"
    ∷ codes "detections/fired"
    ∷ codes "events/recent"
    ∷ codes "host/timeline"
    ∷ codes "storage/stats"
    ∷ codes "storage/purge"
    ∷ codes "diagnostics/health"
    ∷ []

-- A request that is sent on has the URL, the path, and whether its own connection verifies the
-- certificate (`verify` of the HTTP client).
pub data Proxied : Type 0 where
  forwarded : Text → Text → Bool → Proxied
  refused : ℕ → Proxied

unfoldable pub is_allowed : Text → Bool
is_allowed path = contains proxy_allowed path

-- `_get_node_urls`, with the list that it keeps.
abbrev pub get_node_urls : Option (List Text) → Text → List Text
get_node_urls none raw = node_urls raw
get_node_urls (some urls) raw = urls

abbrev pub note_meta : Option Text → Text → Dict Text Text → Dict Text Text
note_meta none url d = d
note_meta (some []) url d = d
note_meta (some (c ∷ id)) url d = insert (c ∷ id) url d

unfoldable pub refresh : (Text → Option Text) → List Text → Dict Text Text → Dict Text Text
refresh meta [] d = d
refresh meta (url ∷ urls) d = refresh meta urls (note_meta (meta (rstrip_char b'/' url)) url d)

abbrev pub is_url : Text → Bool
is_url s = elim (strip_prefix (codes "https://") s) [
  | some t ↦ true
  | none ↦ elim (strip_prefix (codes "http://") s) [ some t ↦ true | none ↦ false ]
]

-- The key may be the URL of a node itself.
abbrev pub fallback : Text → List Text → Option Text
fallback node_id urls =
    let url = rstrip_char b'/' node_id in
    if is_url node_id
    then if contains (map (rstrip_char b'/') urls) url then some url else none
    else none

abbrev pub or_fallback : Option Text → Text → List Text → Option Text
or_fallback (some url) node_id urls = some url
or_fallback none node_id urls = fallback node_id urls

abbrev pub forward : (Text → Option Cert) → Text → Option Text → Hub → Proxied × Hub
forward fetch path none h = (refused 404, h)
forward fetch path (some url) h =
    if verify_site_cert fetch url h.pins
    then (refused 403, h)
    else (forwarded (rstrip_char b'/' url) path false, h)

-- The refresh, when the site's URL is not known yet.
abbrev pub look_up :
    (Text → Option Text) → (Text → Option Cert) → Text → Text → Option Text → Hub → Proxied × Hub
look_up meta fetch node_id path (some url) h = forward fetch path (some url) h
look_up meta fetch node_id path none h =
    let urls = get_node_urls h.nodes_list h.nodes in
    let known = refresh meta urls h.url_of in
    forward fetch path (or_fallback (lookup node_id known) node_id urls)
      (record h { url_of = known; nodes_list = some urls })

unfoldable pub api_site_proxy :
    (Text → Option Text) → (Text → Option Cert) → Text → Text → Hub → Proxied × Hub
api_site_proxy meta fetch node_id path h =
    let path' = rstrip_char b'/' (lstrip_char b'/' path) in
    if is_allowed path'
    then look_up meta fetch node_id path' (lookup node_id h.url_of) h
    else (refused 404, h)

module _ (meta : Text → Option Text) (fetch : Text → Option Cert) where
  forward-inv :
      (path url to : Text) (verifies : Bool) (o : Option Text) (h : Hub)
      → (forward fetch path o h).0 ≡ forwarded url to verifies
      → (u : Text) × (o ≡ some u)
        × (url ≡ rstrip_char b'/' u)
        × (to ≡ path)
        × (verify_site_cert fetch u h.pins ≡ false)
        × (verifies ≡ false)
  forward-inv path url to verifies none h e = cc
  forward-inv path url to verifies (some u) h e =
      elim (Bool-cases (verify_site_cert fetch u h.pins)) [
        | inl bad ↦ absurd (ground arith)
        | inr good ↦ (u, refl, ground arith, ground arith, good, ground arith)
      ]

  forward-url_of :
      (path : Text) (o : Option Text) (h : Hub) → (forward fetch path o h).1.url_of ≡ h.url_of
  forward-url_of path none h = refl
  forward-url_of path (some u) h = ground arith

  -- Where the URL of a site comes from.
  abbrev pub IsKnown : Text → List Text → Dict Text Text → Text → Type 0
  IsKnown node_id urls known u =
      (lookup node_id known ≡ some u)
      ⊎ ((u ≡ rstrip_char b'/' node_id) × (contains (map (rstrip_char b'/') urls) u ≡ true))

  fallback-inv :
      (node_id u : Text) (urls : List Text)
      → fallback node_id urls ≡ some u
      → (u ≡ rstrip_char b'/' node_id) × (contains (map (rstrip_char b'/') urls) u ≡ true)
  fallback-inv node_id u urls e = elim (Bool-cases (is_url node_id)) [
    | inr n ↦ absurd (ground arith)
    | inl y ↦
        elim (Bool-cases (contains (map (rstrip_char b'/') urls) (rstrip_char b'/' node_id))) [
          | inr n ↦ absurd (ground arith)
          | inl listed ↦
              let same : u ≡ rstrip_char b'/' node_id = ground arith in (same, rw same listed)
        ]
  ]

  or_fallback-inv :
      (node_id u : Text) (urls : List Text) (known : Dict Text Text) (o : Option Text)
      → lookup node_id known ≡ o
      → or_fallback o node_id urls ≡ some u
      → IsKnown node_id urls known u
  or_fallback-inv node_id u urls known (some v) e h = inl (e ∙ h)
  or_fallback-inv node_id u urls known none e h = inr (fallback-inv node_id u urls h)

  look_up-inv :
      (node_id path url to : Text) (verifies : Bool) (o : Option Text) (h : Hub)
      → lookup node_id h.url_of ≡ o
      → (look_up meta fetch node_id path o h).0 ≡ forwarded url to verifies
      → (u : Text) × (url ≡ rstrip_char b'/' u)
        × (to ≡ path)
        × (verify_site_cert fetch u h.pins ≡ false)
        × (verifies ≡ false)
        × IsKnown node_id
            (get_node_urls h.nodes_list h.nodes)
            (look_up meta fetch node_id path o h).1.url_of
            u
  look_up-inv node_id path url to verifies (some v) h known e =
      let (u, same, where_to, what, good, loose) = forward-inv path url to verifies (some v) h e in
      (u, where_to, what, good, loose, inl (rw (forward-url_of path (some v) h) (known ∙ same)))
  look_up-inv node_id path url to verifies none h known e =
      let urls = get_node_urls h.nodes_list h.nodes in
      let found = refresh meta urls h.url_of in
      let h' : Hub = record h { url_of = found; nodes_list = some urls } in
      let o = or_fallback (lookup node_id found) node_id urls in
      let (u, same, where_to, what, good, loose) = forward-inv path url to verifies o h' e in
      let from = or_fallback-inv node_id u urls found (lookup node_id found) refl same in
      (u, where_to, what, good, loose, rw (forward-url_of path o h') from)

  -- The proxy forwards only to a path of its list, without the slashes around it, and to a URL that
  -- it knows under the name of the site, or that is the name itself and in the list of nodes,
  -- without the slashes at its end. It does so only after a check, on a connection of its own, in
  -- which the site did not present another certificate than the one pinned under that URL as it is
  -- known (none may be pinned under it). The connection of the request itself verifies nothing.
  pub api_site_proxy_sound :
      (node_id path url to : Text) (verifies : Bool) (h : Hub)
      → (api_site_proxy meta fetch node_id path h).0 ≡ forwarded url to verifies
      → (u : Text) × (url ≡ rstrip_char b'/' u)
        × (to ≡ rstrip_char b'/' (lstrip_char b'/' path))
        × (is_allowed to ≡ true)
        × (verify_site_cert fetch u h.pins ≡ false)
        × (verifies ≡ false)
        × IsKnown node_id
            (get_node_urls h.nodes_list h.nodes)
            (api_site_proxy meta fetch node_id path h).1.url_of
            u
  unfolding api_site_proxy
  api_site_proxy_sound node_id path url to verifies h e =
      let path' = rstrip_char b'/' (lstrip_char b'/' path) in
      elim (Bool-cases (is_allowed path')) [
        | inr n ↦ absurd (ground arith)
        | inl y ↦
            let (u, where_to, what, good, loose, from) =
              look_up-inv node_id path' url to verifies (lookup node_id h.url_of) h refl
                (rw y at e) in
            (u, where_to, what, rw what y, good, loose, rw y from)
      ]
