-- ===== src/Licence/Tests.antt =====
-- The licence token on concrete keys.
use tinysocs.Prelude.Core.{◌≡◌, ◌≢◌, refl, true, String, some, ◌∷◌, ◌++◌, if◌then◌else◌}
use tinysocs.Prelude.Equality.{ne_of_beq, string_eq}
use tinysocs.Prelude.Int.{ℤ, pos, ltb_ℤ}
use tinysocs.Prelude.Json.{json_eq, Fields, str, obj, get}
use tinysocs.Prelude.Strings.{codes}
use tinysocs.Prelude.Text.{Text}
use tinysocs.Licence.{
  Ops, expired, valid, expiry, payload_of, issue, verify_key, effective_tier, can_access,
}
use tinysocs.Licence.Issue.{verify_key-issue}

abbrev pub some_payload : Fields
some_payload = payload_of "pro" "k" (str "cus_1") (pos 5) 100 (pos 1000) "n1"

-- Libraries that know one payload, which they write as "p" with the signature "s".
abbrev pub some_ops : Ops String String String
some_ops = record {
  encode_payload = λ p. codes "p";
  decode_payload = λ t. some (obj some_payload);
  encode_signature = λ s. codes "s";
  decode_signature = λ t. some "s";
  load_public = λ k. some "public";
  load_private = λ k. some "private";
  sign = λ k p. "s";
  verify = λ k s p. true;
}

abbrev pub some_token : Text
some_token = codes "p" ++ b'.' ∷ codes "s"

issued :
    issue some_ops "pro" "k" (str "cus_1") (pos 5) 365 (some (pos 1000)) 100 "n1" ≡ some some_token
unfolding issue string_eq
issued = refl

differ : ◌≢◌ {A = String} "k" ""
unfolding string_eq
differ = ne_of_beq "k" "" refl

verify_key-issue_example : verify_key some_ops 1001 some_token ≡ (
    if ltb_ℤ (expiry (some (pos 1000)) 100 365) (pos 1001)
    then expired some_payload
    else valid some_payload)
unfolding tinysocs.Prelude.Text.is_space
verify_key-issue_example =
    verify_key-issue some_ops "pro" "k" (str "cus_1") "n1" (pos 5) 365 100 1001 (some (pos 1000))
      "private" "public" some_token refl refl differ
      ((refl, tt), (refl, tt), (refl, tt), refl, refl, refl) issued

in_grace : effective_tier some_ops 14 5000 some_token ≡ some (str "pro")
unfolding effective_tier tinysocs.Prelude.Text.text_eq verify_key tinysocs.Licence.split_dot
    tinysocs.Prelude.Text.strip get payload_of string_eq tinysocs.Licence.exp_of
    tinysocs.Prelude.Int.◌+ℤ◌
in_grace = refl

not_free : str "pro" ≢ str "free"
unfolding json_eq string_eq
not_free = ne_of_beq (str "pro") (str "free") refl
