-- ===== src/Dashboard/NodeList.antt =====
-- The list of nodes in TINYSOCS_NODES, joined by commas and read.
use tinysocs.Prelude.Core.{
  ◌≡◌, ◌≢◌, refl, ap, sym, ◌∙◌, false, List, [], ◌∷◌, ◌++◌, arith, eqb, if◌then◌else◌, Bool-cases,
  inl, inr,
}
use tinysocs.Prelude.Lists.{All}
use tinysocs.Prelude.Text.{Text, strip, lstrip, rstrip, split_on}
use tinysocs.Prelude.Text.Strip.{
  strip-strip, lstrip-strip, rstrip-strip, rstrip-append, lstrip-append, All-strip,
}
use tinysocs.Dashboard.Sites.{node_urls, stripped}
use tinysocs.Dashboard.Nodes.{join_comma}

abbrev NoComma : Text → Type 0
NoComma = All (λ c. eqb c b',' ≡ false)

-- What can stand in the list: not empty, with no comma and no white space around it.
abbrev pub IsEntry : Text → Type 0
IsEntry u = (u ≢ []) × (strip u ≡ u) × All (λ c. eqb c b',' ≡ false) u

split_on-one : (u : Text) → NoComma u → split_on b',' u ≡ u ∷ []
unfolding split_on
split_on-one [] h = refl
split_on-one (c ∷ u) h = rw (h.0, split_on-one u h.1) refl

split_on-append :
    (u rest : Text) → NoComma u → split_on b',' (u ++ (b',' ∷ rest)) ≡ u ∷ split_on b',' rest
unfolding split_on
split_on-append [] rest h = refl
split_on-append (c ∷ u) rest h = rw (h.0, split_on-append u rest h.1) refl

split_on-join_comma :
    (u : Text) (us : List Text)
    → All IsEntry (u ∷ us)
    → split_on b',' (join_comma (u ∷ us)) ≡ u ∷ us
unfolding join_comma
split_on-join_comma u [] h = split_on-one u h.0.2
split_on-join_comma u (v ∷ us) h =
    split_on-append u (join_comma (v ∷ us)) h.0.2 ∙ ap (λ ws. u ∷ ws) (split_on-join_comma v us h.1)

stripped-entries : (us : List Text) → All IsEntry us → stripped us ≡ us
unfolding stripped
stripped-entries [] h = refl
stripped-entries ([] ∷ us) h = absurd (h.0.0 refl)
stripped-entries ((c ∷ u) ∷ us) h = ground (arith, h.0.1, stripped-entries us h.1)

-- A joined list has no white space around it.
join_comma-ends :
    (u : Text) (us : List Text)
    → All IsEntry (u ∷ us)
    → (join_comma (u ∷ us) ≢ []) × (rstrip (join_comma (u ∷ us)) ≡ join_comma (u ∷ us))
unfolding join_comma
join_comma-ends u [] h = (h.0.0, sym (ap rstrip h.0.1) ∙ rstrip-strip u ∙ h.0.1)
join_comma-ends [] (v ∷ us) h = absurd (h.0.0 refl)
join_comma-ends (c ∷ u) (v ∷ us) h =
    let rest = join_comma-ends v us h.1 in
    let comma : Text = b',' ∷ [] in
    let inner = rstrip-append comma (join_comma (v ∷ us)) rest.0 rest.1 in
    (λ e. cc, rstrip-append (c ∷ u) (b',' ∷ join_comma (v ∷ us)) (λ e. cc) inner)

join_comma-starts :
    (u : Text) (us : List Text)
    → All IsEntry (u ∷ us)
    → lstrip (join_comma (u ∷ us)) ≡ join_comma (u ∷ us)
unfolding join_comma
join_comma-starts u [] h = sym (ap lstrip h.0.1) ∙ lstrip-strip u ∙ h.0.1
join_comma-starts u (v ∷ us) h = lstrip-append u (b',' ∷ join_comma (v ∷ us)) h.0.0 h.0.1

node_urls-nil : node_urls [] ≡ []
unfolding node_urls stripped split_on strip lstrip rstrip
node_urls-nil = refl

-- What was joined is read back.
pub node_urls-join_comma : (us : List Text) → All IsEntry us → node_urls (join_comma us) ≡ us
unfolding node_urls strip join_comma
node_urls-join_comma [] h = node_urls-nil
node_urls-join_comma (u ∷ us) h =
    rw (join_comma-starts u us h, (join_comma-ends u us h).1, split_on-join_comma u us h)
      (stripped-entries (u ∷ us) h)

stripped-IsEntry : (us : List Text) → All NoComma us → All IsEntry (stripped us)
unfolding stripped
stripped-IsEntry [] h = tt
stripped-IsEntry (u ∷ us) h =
    go (strip u) (strip-strip u) (All-strip _ u h.0) (stripped-IsEntry us h.1)
  where
    go :
        (s : Text)
        → strip s ≡ s
        → NoComma s
        → All IsEntry (stripped us)
        → All IsEntry (elim s [ [] ↦ stripped us | c ∷ t ↦ (c ∷ t) ∷ stripped us ])
    go [] e n rest = rest
    go (c ∷ t) e n rest = ((λ z. cc, e, n), rest)

split_on-NoComma : (s : Text) → All NoComma (split_on b',' s)
unfolding split_on
split_on-NoComma [] = (tt, tt)
split_on-NoComma (c ∷ s) = go (split_on b',' s) (split_on-NoComma s)
  where
    go :
        (ws : List Text)
        → All NoComma ws
        → All NoComma
            (if eqb c b',' then [] ∷ ws else elim ws [ [] ↦ (c ∷ []) ∷ [] | w ∷ vs ↦ (c ∷ w) ∷ vs ])
    go ws h = elim (Bool-cases (eqb c b',')) [ inl e ↦ rw e (tt, h) | inr e ↦ rw e (grow ws h e) ]
      where
        grow :
            (ws : List Text)
            → All NoComma ws
            → eqb c b',' ≡ false
            → All NoComma (elim ws [ [] ↦ (c ∷ []) ∷ [] | w ∷ vs ↦ (c ∷ w) ∷ vs ])
        grow [] h e = ((e, tt), tt)
        grow (w ∷ vs) h e = ((e, h.0), h.1)

-- Whatever the variable holds, what is read of it can stand in a list.
pub node_urls-IsEntry : (raw : Text) → All IsEntry (node_urls raw)
unfolding node_urls
node_urls-IsEntry raw = stripped-IsEntry (split_on b',' (strip raw)) (split_on-NoComma (strip raw))
