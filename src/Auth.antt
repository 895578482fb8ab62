-- ===== src/Auth.antt =====
-- api/auth.py (src/tinysocs): the HMAC check of the API endpoints and the headers of outgoing
-- requests, and the headers of orchestrator/master.py. Header values are lists of code points
-- below 256, as the web server decodes them.
pub mod Accept
pub mod NoReplay
pub mod Sign
mod Tests
use tinysocs.Prelude.Core.{
  ◌≡◌, ℕ, zero, suc, ◌+◌, ◌-◌, Bool, true, false, ◌&&◌, Option, none, some, List, [], ◌∷◌, ◌++◌,
  ltb, leb, eqb, if◌then◌else◌, String,
}
use tinysocs.Prelude.Lists.{any}
use tinysocs.Prelude.Dict
use tinysocs.Prelude.Dict.{Dict}
use tinysocs.Prelude.Equality.{◌==◌}
use tinysocs.Prelude.Int.{ℤ, pos, negsuc, ◌-ℤ◌, abs, ltb_ℤ}
use tinysocs.Prelude.Strings.{codes}
use tinysocs.Prelude.Text.{Text, strip, lower, strip_prefix, parse_int, show, text_eq}

-- The three headers, "" where one is missing.
pub record Headers : Type 0 where
  pub timestamp : Text
  pub signature : Text
  pub nonce : Text

-- `_replay_cache` (signed message to expiry time) and `_last_gc`.
pub record Replay : Type 0 where
  pub cache : Dict Text ℕ
  pub last_gc : ℕ

abbrev pub init : Replay
init = record { cache = []; last_gc = 0 }

abbrev pub replay_ttl_secs : ℕ
replay_ttl_secs = 300

abbrev pub gc_interval_secs : ℕ
gc_interval_secs = 60

-- The entries that have not expired.
unfoldable pub unexpired : ℕ → Dict Text ℕ → Dict Text ℕ
unexpired now [] = []
unexpired now ((msg, exp) ∷ d) =
    let rest = unexpired now d in if leb exp now then rest else (msg, exp) ∷ rest

unfoldable pub gc : ℕ → Replay → Replay
gc now r =
    if ltb now (r.last_gc + gc_interval_secs)
    then r
    else record { cache = unexpired now r.cache; last_gc = now }

-- 'sha256=' in any case is taken off; `split("=", 1)[1]` is what follows the first '='.
unfoldable pub normalize_sig : Text → Text
normalize_sig sig =
    let s = strip sig in
    elim (strip_prefix (codes "sha256=") (lower s)) [ none ↦ lower s | some rest ↦ rest ]

-- What the dependency does: returns, raises HTTPException 401, or lets out the TypeError of
-- `compare_digest` on text that is not ASCII.
pub data Verdict : Type 0 where
  accepted : Verdict
  unauthorized : String → Verdict
  type_error : Verdict

abbrev pub is_ascii : Text → Bool
is_ascii s = if any (leb 128) s then false else true

-- The candidate messages in the order in which they are tried.
abbrev pub candidates : Text → Text → List Text
candidates ts [] = ts ∷ []
candidates ts nonce = ts ∷ (ts ++ (codes "|" ++ nonce)) ∷ (ts ++ (codes "." ++ nonce)) ∷ []

-- `style == "dot"`, `style == "pipe"`, and any other style
pub data Style : Type 0 where
  dot pipe ts_only : Style

abbrev pub message : Style → Text → Text → Text
message dot ts nonce = ts ++ (codes "." ++ nonce)
message pipe ts nonce = ts ++ (codes "|" ++ nonce)
message ts_only ts nonce = ts

-- The replay check of a message that was matched.
unfoldable pub check_replay : Bool → ℕ → Text → Replay → Verdict × Replay
unfolding gc
check_replay false now msg r = (accepted, r)
check_replay true now msg r =
    let r' = gc now r in
    let fresh : Verdict × Replay =
      (accepted, record r' { cache = Dict.insert msg (now + replay_ttl_secs) r'.cache }) in
    elim (Dict.lookup msg r'.cache) [
      | none ↦ fresh
      | some exp ↦ if ltb now exp then (unauthorized "Replay detected", r') else fresh
    ]

-- `_calc_mac`, HMAC-SHA256 as lower-case hexadecimal digits, is a parameter: the theorems need
-- nothing of it, or say what they need.
module _ (calc_mac : Text → Text → Text) where
  unfoldable pub match_message : Text → Text → List Text → Option Text
  match_message secret provided [] = none
  match_message secret provided (msg ∷ rest) =
      if calc_mac secret msg == provided then some msg else match_message secret provided rest

  check_signature : Text → Bool → Text → Text → Text → ℕ → Replay → Verdict × Replay
  unfolding match_message check_replay
  check_signature secret protect ts provided nonce now r =
      if is_ascii provided
      then elim (match_message secret provided (candidates ts nonce)) [
        | none ↦ (unauthorized "Bad signature", r)
        | some msg ↦ check_replay protect now msg r
      ]
      else (type_error, r)

  check_time : Text → ℕ → Bool → Text → Text → Text → ℕ → Replay → Verdict × Replay
  unfolding check_signature
  check_time secret skew protect ts sig nonce now r = elim (parse_int ts) [
    | none ↦ (unauthorized "Invalid timestamp", r)
    | some t ↦
        if ltb_ℤ (pos skew) (abs (pos now -ℤ t))
        then (unauthorized "Timestamp out of range", r)
        else check_signature secret protect ts (normalize_sig sig) nonce now r
  ]

  -- `verify_hmac` of `make_verify_hmac(secret, skew_secs, replay_protect)`, at the time `now`.
  unfoldable pub verify_hmac : Text → ℕ → Bool → Headers → ℕ → Replay → Verdict × Replay
  unfolding check_time
  verify_hmac secret skew protect h now r =
      let ts = strip h.timestamp in
      let sig = strip h.signature in
      if ts == []
      then (unauthorized "Missing HMAC headers", r)
      else if sig == []
      then (unauthorized "Missing HMAC headers", r)
      else check_time secret skew protect ts sig (strip h.nonce) now r

  -- `sign_request_headers` at the time `now`, with the nonce that was given or drawn.
  unfoldable pub sign_request_headers : Text → Style → Text → ℕ → Headers
  sign_request_headers secret style nonce now = record {
    timestamp = show now;
    signature = calc_mac secret (message style (show now) nonce);
    nonce = nonce;
  }

  -- `_headers` of orchestrator/master.py: the timestamp alone is signed, with or without the
  -- prefix that TINYSOCS_SIG_PREFIX asks for.
  unfoldable pub master_headers : Text → Bool → ℕ → Headers
  master_headers secret use_prefix now = record {
    timestamp = show now;
    signature =
        (if use_prefix
          then codes "sha256=" ++ calc_mac secret (show now)
          else calc_mac secret (show now));
    nonce = [];
  }
