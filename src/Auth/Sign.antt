-- ===== src/Auth/Sign.antt =====
-- The headers that `sign_request_headers` makes are accepted.
use tinysocs.Prelude.Core.{
  ◌≡◌, ◌≢◌, refl, ap, ℕ, ◌+◌, ◌≤◌, Bool, true, false, ◌&&◌, ◌||◌, none, some, List, [], ◌∷◌, arith,
  leb, inl, inr,
}
use tinysocs.Prelude.Lists.{All}
use tinysocs.Prelude.Dict
use tinysocs.Prelude.Equality.{◌==◌, contains, beq-cases}
use tinysocs.Prelude.Int.{pos, ◌-ℤ◌, abs, ltb_ℤ}
use tinysocs.Prelude.Strings.{codes}
use tinysocs.Prelude.Text.{
  Text, lstrip, rstrip, strip, lower, strip_prefix, parse_int, show, text_eq,
}
use tinysocs.Prelude.Text.Numbers.{parse_int-show, strip-digits, IsDigits-show}
use tinysocs.Auth.{
  Replay, accepted, gc, check_replay, normalize_sig, candidates, is_ascii, match_message, Style,
  dot, pipe, ts_only, message, sign_request_headers, verify_hmac,
}
use tinysocs.Auth.NoReplay.{lookup-unexpired-none}
use tinysocs.Auth.Accept.{Passed, Passed-verify_hmac}

-- What `hexdigest` returns: digits 0-9 and a-f.
abbrev pub is_hex : ℕ → Bool
is_hex c = (leb b'0' c && leb c b'9') || (leb b'a' c && leb c b'f')

abbrev pub IsHex : Text → Type 0
IsHex s = All (λ c. is_hex c ≡ true) s

lstrip-hex : (s : Text) → IsHex s → lstrip s ≡ s
unfolding lstrip
lstrip-hex [] h = refl
lstrip-hex (c ∷ s) h = ground arith

rstrip-hex : (s : Text) → IsHex s → rstrip s ≡ s
unfolding rstrip
rstrip-hex [] h = refl
rstrip-hex (c ∷ []) h = ground arith
rstrip-hex (c ∷ d ∷ s) h = rw (rstrip-hex (d ∷ s) h.1, rstrip) refl

lower-hex : (s : Text) → IsHex s → lower s ≡ s
unfolding lower
lower-hex [] h = refl
lower-hex (c ∷ s) h = ground (arith, lower-hex s h.1)

strip-hex : (s : Text) → IsHex s → strip s ≡ s
unfolding strip
strip-hex s h = rw (lstrip-hex s h) (rstrip-hex s h)

no_prefix : (s : Text) → IsHex s → strip_prefix (codes "sha256=") s ≡ none
unfolding strip_prefix
no_prefix [] h = refl
no_prefix (c ∷ s) h = ground arith

normalize_sig-hex : (s : Text) → IsHex s → normalize_sig (strip s) ≡ s
unfolding normalize_sig
normalize_sig-hex s h = ground (arith, strip-hex s h, lower-hex s h, no_prefix s h)

is_ascii-hex : (s : Text) → IsHex s → is_ascii s ≡ true
is_ascii-hex [] h = refl
is_ascii-hex (c ∷ s) h = ground (arith, is_ascii-hex s h.1)

check_replay-fresh :
    (protect : Bool) (now : ℕ) (msg : Text) (r : Replay)
    → Dict.lookup msg r.cache ≡ none
    → (check_replay protect now msg r).0 ≡ accepted
unfolding check_replay gc
check_replay-fresh false now msg r e = refl
check_replay-fresh true now msg r e = ground (arith, lookup-unexpired-none now msg r.cache e)

in_range :
    (skew now later : ℕ)
    → now ≤ later + skew
    → later ≤ now + skew
    → ltb_ℤ (pos skew) (abs (pos later -ℤ pos now)) ≡ false
unfolding ◌-ℤ◌ abs
in_range skew now later early late = ground arith

parse_int_nil : parse_int [] ≡ none
unfolding parse_int
parse_int_nil = refl

show-present : (n : ℕ) → (show n == []) ≡ false
show-present n = elim (beq-cases (show n) []) [
  | inl (_, e) ↦ absurd (cc (ap parse_int e, parse_int-show n, parse_int_nil))
  | inr (f, _) ↦ f
]

not_nil : (s : Text) → s ≢ [] → (s == []) ≡ false
not_nil s n = elim (beq-cases s []) [ inl (_, e) ↦ absurd (n e) | inr (f, _) ↦ f ]

message-candidate :
    (style : Style) (ts nonce : Text)
    → (style ≢ ts_only → nonce ≢ [])
    → contains (candidates ts nonce) (message style ts nonce) ≡ true
message-candidate ts_only ts [] n = ground arith
message-candidate ts_only ts (c ∷ nonce) n = ground arith
message-candidate dot ts [] n = absurd (n (λ e. cc) refl)
message-candidate dot ts (c ∷ nonce) n = ground arith
message-candidate pipe ts [] n = absurd (n (λ e. cc) refl)
message-candidate pipe ts (c ∷ nonce) n = ground arith

module _ (calc_mac : Text → Text → Text) (secret : Text) where
  match_message_complete :
      (msgs : List Text) (m : Text)
      → contains msgs m ≡ true
      → (k : Text) × (match_message calc_mac secret (calc_mac secret m) msgs ≡ some k)
        × (contains msgs k ≡ true)
  unfolding match_message
  match_message_complete [] m e = cc
  match_message_complete (x ∷ msgs) m e = elim (beq-cases (calc_mac secret x) (calc_mac secret m)) [
    | inl (t, _) ↦ (x, ground arith, ground arith)
    | inr (f, n) ↦
        let (k, found, inside) = match_message_complete msgs m (ground arith) in
        (k, ground arith, ground arith)
  ]

  -- The headers that `sign_request_headers` makes, in any of the three styles, are accepted by a
  -- verifier with the same secret whose clock is within the skew of the signer's, if its replay
  -- cache holds none of the messages that the headers may stand for. The MAC is a text of
  -- hexadecimal digits, and the nonce has no white space around it and, where it is signed, is not
  -- empty.
  pub verify_hmac-sign_request_headers :
      (style : Style) (nonce : Text) (now later skew : ℕ) (protect : Bool) (r : Replay)
      → ((m : Text) → IsHex (calc_mac secret m) × (calc_mac secret m ≢ []))
      → strip nonce ≡ nonce
      → (style ≢ ts_only → nonce ≢ [])
      → now ≤ later + skew
      → later ≤ now + skew
      → ((m : Text)
          → contains (candidates (show now) nonce) m ≡ true
          → Dict.lookup m r.cache ≡ none)
      → let h = sign_request_headers calc_mac secret style nonce now in
        (verify_hmac calc_mac secret skew protect h later r).0 ≡ accepted
  unfolding sign_request_headers
  verify_hmac-sign_request_headers style nonce now later skew protect r hex tidy signed early late
        fresh =
      let msg = message style (show now) nonce in
      let (k, found, inside) =
        match_message_complete (candidates (show now) nonce) msg
          (message-candidate style (show now) nonce signed) in
      let mac = calc_mac secret msg in
      let stamp_tidy = strip-digits (show now) (IsDigits-show now) in
      let sig_tidy = strip-hex mac (hex msg).0 in
      let sig_normal = normalize_sig-hex mac (hex msg).0 in
      let h = sign_request_headers calc_mac secret style nonce now in
      let p : Passed calc_mac secret skew h later k = record {
        present = (rw stamp_tidy (show-present now), rw sig_tidy (not_nil mac (hex msg).1));
        stamp = pos now;
        parsed = rw stamp_tidy (parse_int-show now);
        in_range = in_range skew now later early late;
        ascii = rw sig_normal (is_ascii-hex mac (hex msg).0);
        found = rw (sig_normal, stamp_tidy, tidy) found;
      } in
      rw (Passed-verify_hmac calc_mac secret skew protect h later r k p)
        (check_replay-fresh protect later k r (fresh k inside))
