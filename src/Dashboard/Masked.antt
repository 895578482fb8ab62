-- ===== src/Dashboard/Masked.antt =====
-- The settings of api/dashboard.py as they are shown, sent back.
use tinysocs.Prelude.Core.{
  ◌≡◌, ◌≢◌, refl, ◌∙◌, ℕ, zero, suc, ◌-◌, Bool, true, Option, none, some, List, [], ◌∷◌, map, arith,
  ltb, Bool-cases, inl, inr,
}
use tinysocs.Prelude.Equality.{nat_eq, beq-cases}
use tinysocs.Prelude.Lists.{length, drop}
use tinysocs.Prelude.Dict.{Dict, lookup, insert, lookup-insert}
use tinysocs.Prelude.Strings.{codes}
use tinysocs.Prelude.Text.{Text, text_eq, strip, lstrip, rstrip, is_space}
use tinysocs.Dashboard.Settings.{
  Config, stars, mask, shown_value, value_in, is_secret, settings_keys, api_settings_get,
  is_kept_back, filter_updates, apply_updates, write_file, apply_written, post_filtered,
  api_settings_post,
}

-- A text that starts with an asterisk.
abbrev IsMasked : Text → Type 0
IsMasked s = (r : Text) × (s ≡ b'*' ∷ r)

stars-IsMasked : (n : ℕ) (rest : Text) → n ≢ 0 → IsMasked (stars n rest)
unfolding stars
stars-IsMasked zero rest h = absurd (h refl)
stars-IsMasked (suc n) rest h = (stars n rest, refl)

mask-IsMasked : (val : Text) → IsMasked (mask val)
unfolding mask
mask-IsMasked val =
    let hidden = length val - 4 in
    elim (Bool-cases (ltb 4 (length val))) [
      | inl long ↦
          rw long (stars-IsMasked hidden (drop hidden val) (λ z. absurd (ground (arith, z, long))))
      | inr short ↦ rw short (codes "***", refl)
    ]

strip-IsMasked : (s : Text) → IsMasked s → IsMasked (strip s)
unfolding strip lstrip rstrip is_space
strip-IsMasked s (r, e) = rw e (go (rstrip r))
  where
    go : (t : Text) → IsMasked (elim t [ [] ↦ b'*' ∷ [] | d ∷ u ↦ b'*' ∷ d ∷ u ])
    go [] = ([], refl)
    go (d ∷ u) = (d ∷ u, refl)

is_kept_back-IsMasked :
    (key v : Text) → is_secret key ≡ true → IsMasked v → is_kept_back key v ≡ true
is_kept_back-IsMasked key v e (r, same) = rw (same, e) (ground arith)

-- What is shown of a secret is kept back.
shown_value-kept :
    (key val : Text) → is_secret key ≡ true → is_kept_back key (strip (shown_value key val)) ≡ true
unfolding strip lstrip rstrip
shown_value-kept key [] e = e
shown_value-kept key (c ∷ val) e = rw e (
    is_kept_back-IsMasked key (strip (mask (c ∷ val))) e
      (strip-IsMasked (mask (c ∷ val)) (mask-IsMasked (c ∷ val))))

lookup-filter_updates :
    (s : Config) (key : Text)
    → is_secret key ≡ true
    → (ks : List Text)
    → lookup key (filter_updates (map (λ k. (k, shown_value k (value_in s k))) ks)) ≡ none
unfolding filter_updates lookup
lookup-filter_updates s key e [] = refl
lookup-filter_updates s key e (k ∷ ks) = elim (beq-cases key k) [
  | inl (b, same) ↦
      let held : is_kept_back k (strip (shown_value k (value_in s k))) ≡ true =
        shown_value-kept k (value_in s k) (rw (← same) e) in
      ground (arith, held, lookup-filter_updates s key e ks)
  | inr (b, n) ↦ ground (arith, b, lookup-filter_updates s key e ks)
]

lookup-apply_updates :
    (key : Text) (updates environ : Dict Text Text)
    → lookup key updates ≡ none
    → lookup key (apply_updates updates environ) ≡ lookup key environ
unfolding apply_updates lookup
lookup-apply_updates key [] environ h = refl
lookup-apply_updates key ((k, v) ∷ updates) environ h = elim (beq-cases key k) [
  | inl (b, same) ↦ absurd (ground (arith, b, h))
  | inr (b, n) ↦
      lookup-apply_updates key updates (insert k v environ) (rw b at h)
      ∙ lookup-insert key k v environ
      ∙ rw b refl
]

post_filtered-keeps :
    (writes : Bool) (updates : Dict Text Text) (s : Config) (key : Text)
    → lookup key updates ≡ none
    → lookup key (post_filtered writes updates s).1.environ ≡ lookup key s.environ
post_filtered-keeps writes [] s key h = refl
post_filtered-keeps writes (u ∷ us) s key h = go (write_file writes (u ∷ us) s.env_file)
  where
    go :
        (o : Option (Option Text))
        → lookup key (apply_written (u ∷ us) s o).1.environ ≡ lookup key s.environ
    go none = refl
    go (some file) = lookup-apply_updates key (u ∷ us) s.environ h

-- The settings as they are shown, sent back, leave the value that each secret has in the process
-- as it was, whether or not the file can be written.
pub api_settings_post-api_settings_get :
    (writes : Bool) (s : Config) (key : Text)
    → is_secret key ≡ true
    → lookup key (api_settings_post writes (api_settings_get s) s).1.environ ≡ lookup key s.environ
unfolding api_settings_post api_settings_get
api_settings_post-api_settings_get writes s key e =
    post_filtered-keeps writes (filter_updates (api_settings_get s)) s key
      (lookup-filter_updates s key e settings_keys)
