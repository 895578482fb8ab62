-- ===== src/Auth/Tests.antt =====
-- Runs of the HMAC check, and its theorems at concrete data.
use tinysocs.Prelude.Core.{◌≡◌, ◌≢◌, refl, ℕ, true, some, [], ◌∷◌, arith}
use tinysocs.Prelude.Dict
use tinysocs.Prelude.Int.{ℤ, pos, ◌-ℤ◌, abs, ◌≤ℤ◌}
use tinysocs.Prelude.Strings.{codes}
use tinysocs.Prelude.Text.{Text, strip, strip_prefix, lower, parse_int, show, text_eq}
use tinysocs.Auth.{
  Headers, Replay, init, Verdict, accepted, unauthorized, pipe, sign_request_headers, verify_hmac,
  check_replay, normalize_sig, unexpired,
}
use tinysocs.Auth.Accept.{IsSigned, verify_hmac_sound}
use tinysocs.Auth.NoReplay.{serve, verify_hmac-no_replay}
use tinysocs.Auth.Sign.{verify_hmac-sign_request_headers}

-- A stand-in for the MAC: one hexadecimal digit.
abbrev mac : Text → Text → Text
mac secret msg = b'a' ∷ []

abbrev secret : Text
secret = codes "s3cret"

abbrev signed : Headers
signed = sign_request_headers mac secret pipe (codes "0f") 1000

abbrev check : ℕ → Replay → Verdict × Replay
check now = verify_hmac mac secret 300 true signed now

first : (check 1000 init).0 ≡ accepted
unfolding verify_hmac sign_request_headers check_replay strip parse_int normalize_sig text_eq show
    abs ◌-ℤ◌ strip_prefix lower Dict.lookup unexpired
first = refl

-- Again at once, and again 300 seconds later.
second : (check 1001 (check 1000 init).1).0 ≡ unauthorized "Replay detected"
unfolding first Dict.insert
second = refl

third : (check 1300 (check 1000 init).1).0 ≡ accepted
unfolding second
third = refl

too_late : (check 1301 init).0 ≡ unauthorized "Timestamp out of range"
unfolding first
too_late = refl

stamp : parse_int (strip signed.timestamp) ≡ some (pos 1000)
unfolding first
stamp = refl

verify_hmac_sound_example :
    (t : ℤ) × (msg : Text) × (parse_int (strip signed.timestamp) ≡ some t)
    × (abs (pos 1000 -ℤ t) ≤ℤ pos 300)
    × IsSigned mac secret signed msg
verify_hmac_sound_example = verify_hmac_sound mac secret 300 true signed 1000 init first

verify_hmac-no_replay_example :
    (verify_hmac mac secret 300 true signed 1299
      (serve mac secret 300 ((signed, 1200) ∷ []) (check 1000 init).1)).0
    ≢ accepted
verify_hmac-no_replay_example =
    verify_hmac-no_replay mac secret 300 signed 1000 1299 init ((signed, 1200) ∷ []) first
      (omega arith) (omega arith, tt)

verify_hmac-sign_request_headers_example : (check 1300 init).0 ≡ accepted
unfolding strip Dict.lookup
verify_hmac-sign_request_headers_example =
    verify_hmac-sign_request_headers mac secret pipe (codes "0f") 1000 1300 300 true init
      (λ m. ((refl, tt), λ e. cc)) refl (λ n e. cc) (omega arith) (omega arith) (λ m h. refl)
