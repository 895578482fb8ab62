-- ===== src/Node/Tests.antt =====
-- The node's limits, tokens and ledger on concrete data.
use tinysocs.Prelude.Core.{◌≡◌, refl, true, false, String, ◌<>◌, none, some, List, [], ◌∷◌}
use tinysocs.Node.Rate.{Limits, Request, writing, reading}
use tinysocs.Node.Token.{HecToken, Tokens, create_hec_token, verify_bearer_token, revoke_hec_token}
use tinysocs.Node.Bearer.{verify_bearer_token-lifecycle}

abbrev no_requests : Limits
no_requests = record { counter = 0; write_buckets = []; read_buckets = [] }

abbrev some_requests : List Request
some_requests = writing "10.0.0.1" 5 ∷ reading "10.0.0.1" 6 ∷ writing "10.0.0.2" 7 ∷ []

abbrev sha : String → String
sha s = "#" <> s

abbrev one_token : Tokens
one_token = record {
  loaded = none;
  file = some (
      record { id = "tok_0"; token_hash = "#other"; name = "a"; created = "t0"; last_used = none }
      ∷ []);
}

verify_bearer_token-lifecycle_example :
    ((verify_bearer_token sha true "raw" "t2"
        (create_hec_token sha true "tok_1" "raw" "b" "t1" one_token).1).0
      ≡ true)
    × ((verify_bearer_token sha true "raw" "t2"
          (revoke_hec_token true "tok_1"
            (create_hec_token sha true "tok_1" "raw" "b" "t1" one_token).1).1).0
        ≡ false)
unfolding tinysocs.Node.Token.load_hec_tokens tinysocs.Prelude.Equality.string_eq
verify_bearer_token-lifecycle_example =
    verify_bearer_token-lifecycle sha true true true "tok_1" "raw" "b" "t1" "t2" one_token
      (refl, tt)
