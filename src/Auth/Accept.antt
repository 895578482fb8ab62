-- ===== src/Auth/Accept.antt =====
-- When a request is accepted, and what that says about the request.
use tinysocs.Prelude.Core.{
  ◌≡◌, ℕ, Bool, true, false, some, List, [], ◌∷◌, arith, Option-cases, inl, inr,
}
use tinysocs.Prelude.Equality.{◌==◌, contains}
use tinysocs.Prelude.Int.{ℤ, pos, ◌-ℤ◌, abs, ltb_ℤ, ◌≤ℤ◌}
use tinysocs.Prelude.Text.{Text, strip, parse_int, text_eq}
use tinysocs.Auth.{
  Headers, Replay, accepted, normalize_sig, candidates, is_ascii, match_message, check_replay,
  check_signature, check_time, verify_hmac,
}

not_beyond : (a b : ℤ) → ltb_ℤ a b ≡ false → b ≤ℤ a
not_beyond a b h = ground arith

module _ (calc_mac : Text → Text → Text) (secret : Text) where
  -- The message is one that the request may have signed, and the request shows its MAC.
  abbrev pub IsSigned : Headers → Text → Type 0
  IsSigned h msg =
      (contains (candidates (strip h.timestamp) (strip h.nonce)) msg ≡ true)
      × (calc_mac secret msg ≡ normalize_sig (strip h.signature))

  match_message_sound :
      (provided : Text) (msgs : List Text) (msg : Text)
      → match_message calc_mac secret provided msgs ≡ some msg
      → (contains msgs msg ≡ true) × (calc_mac secret msg ≡ provided)
  unfolding match_message
  match_message_sound provided [] msg e = cc
  match_message_sound provided (m ∷ msgs) msg e =
      ground (arith, match_message_sound provided msgs msg)

  -- What `verify_hmac` decides before it looks at the replay cache.
  pub record Passed (skew : ℕ) (h : Headers) (now : ℕ) (msg : Text) : Type 0 where
    pub present : ((strip h.timestamp == []) ≡ false) × ((strip h.signature == []) ≡ false)
    pub stamp : ℤ
    pub parsed : parse_int (strip h.timestamp) ≡ some stamp
    pub in_range : ltb_ℤ (pos skew) (abs (pos now -ℤ stamp)) ≡ false
    pub ascii : is_ascii (normalize_sig (strip h.signature)) ≡ true
    pub found :
        match_message calc_mac secret
          (normalize_sig (strip h.signature))
          (candidates (strip h.timestamp) (strip h.nonce))
        ≡ some msg

  pub verify_hmac-Passed :
      (skew : ℕ) (protect : Bool) (h : Headers) (now : ℕ) (r : Replay)
      → (verify_hmac calc_mac secret skew protect h now r).0 ≡ accepted
      → (msg : Text) × Passed skew h now msg
        × (verify_hmac calc_mac secret skew protect h now r ≡ check_replay protect now msg r)
  unfolding verify_hmac check_time check_signature
  verify_hmac-Passed skew protect h now r e = elim (Option-cases (parse_int (strip h.timestamp))) [
    | inl p ↦ absurd (ground arith)
    | inr (t, p) ↦
        elim (Option-cases (
          match_message calc_mac secret (normalize_sig (strip h.signature))
            (candidates (strip h.timestamp) (strip h.nonce)))) [
              | inl q ↦ absurd (ground arith)
              | inr (msg, q) ↦ (
                msg,
                record {
                  present = (ground arith, ground arith);
                  stamp = t;
                  parsed = p;
                  in_range = ground arith;
                  ascii = ground arith;
                  found = q;
                },
                ground arith,
              )
            ]
  ]

  pub Passed-verify_hmac :
      (skew : ℕ) (protect : Bool) (h : Headers) (now : ℕ) (r : Replay) (msg : Text)
      → Passed skew h now msg
      → verify_hmac calc_mac secret skew protect h now r ≡ check_replay protect now msg r
  unfolding verify_hmac check_time check_signature
  Passed-verify_hmac skew protect h now r msg p =
      ground (arith, p.present, p.parsed, p.in_range, p.ascii, p.found)

  -- An accepted request carries an integer timestamp within the allowed skew of the clock, and its
  -- signature, trimmed, unprefixed and in lower case, is the MAC under the secret of one of the
  -- three messages: the timestamp alone, or joined to the nonce by '|' or by '.'.
  pub verify_hmac_sound :
      (skew : ℕ) (protect : Bool) (h : Headers) (now : ℕ) (r : Replay)
      → (verify_hmac calc_mac secret skew protect h now r).0 ≡ accepted
      → (t : ℤ) × (msg : Text) × (parse_int (strip h.timestamp) ≡ some t)
        × (abs (pos now -ℤ t) ≤ℤ pos skew)
        × IsSigned h msg
  verify_hmac_sound skew protect h now r e =
      let (msg, p, _) = verify_hmac-Passed skew protect h now r e in
      (
        p.stamp,
        msg,
        p.parsed,
        not_beyond (pos skew) (abs (pos now -ℤ p.stamp)) p.in_range,
        match_message_sound _ _ msg p.found,
      )
