-- ===== src/Node/Token.antt =====
-- The bearer tokens for HTTP event collection. `sha256` is the digest of `hashlib`, a parameter.
-- `writes` is false when the file cannot be written; the answer is then none, for an exception,
-- and the tokens in memory are changed all the same.
use tinysocs.Prelude.Core.{
  Bool, true, false, not, String, Option, none, some, List, [], ◌∷◌, ◌++◌, map, ltb, if◌then◌else◌,
}
use tinysocs.Prelude.Equality.{◌==◌, string_eq}
use tinysocs.Prelude.Lists.{length, keep}

pub record HecToken : Type 0 where
  pub id : String
  pub token_hash : String
  pub name : String
  pub created : String
  pub last_used : Option String

-- The tokens in memory (none before the first load), and in the file (none if there is none or it
-- is not readable).
pub record Tokens : Type 0 where
  pub loaded : Option (List HecToken)
  pub file : Option (List HecToken)

abbrev or_none : Option (List HecToken) → List HecToken
or_none none = []
or_none (some ts) = ts

unfoldable pub load_hec_tokens : Tokens → List HecToken
load_hec_tokens s = elim s.loaded [ some ts ↦ ts | none ↦ or_none s.file ]

abbrev pub save_hec_tokens : Bool → List HecToken → Tokens → Tokens
save_hec_tokens writes ts s = record { loaded = some ts; file = if writes then some ts else s.file }

-- `t["last_used"] = now`
abbrev pub used : String → HecToken → HecToken
used now t = record t { last_used = some now }

module _ (sha256 : String → String) where
  unfoldable pub create_hec_token :
      Bool → String → String → String → String → Tokens → Option (String × String) × Tokens
  create_hec_token writes token_id raw_token name now s =
      let entry : HecToken = record {
        id = token_id;
        token_hash = sha256 raw_token;
        name = name;
        created = now;
        last_used = none;
      } in
      (
        if writes then some (token_id, raw_token) else none,
        save_hec_tokens writes (load_hec_tokens s ++ entry ∷ []) s,
      )

  -- The token whose hash matches first is marked as used; none if there is none.
  unfoldable pub use_token : String → String → List HecToken → Option (List HecToken)
  use_token raw_token now [] = none
  use_token raw_token now (t ∷ ts) =
      let rest = use_token raw_token now ts in
      if sha256 raw_token == t.token_hash
      then some (used now t ∷ ts)
      else elim rest [ none ↦ none | some us ↦ some (t ∷ us) ]

  -- A write that fails is passed over.
  unfoldable pub verify_bearer_token : Bool → String → String → Tokens → Bool × Tokens
  verify_bearer_token writes raw_token now s = elim (use_token raw_token now (load_hec_tokens s)) [
    | none ↦ (false, record { loaded = some (load_hec_tokens s); file = s.file })
    | some ts ↦ (true, save_hec_tokens writes ts s)
  ]

unfoldable pub revoke_hec_token : Bool → String → Tokens → Option Bool × Tokens
revoke_hec_token writes token_id s =
    let before = load_hec_tokens s in
    let after = keep (λ t. not (t.id == token_id)) before in
    if ltb (length after) (length before)
    then (if writes then some true else none, save_hec_tokens writes after s)
    else (some false, record { loaded = some after; file = s.file })

pub record Listed : Type 0 where
  pub id : String
  pub name : String
  pub created : String
  pub last_used : Option String

abbrev pub list_hec_tokens : Tokens → List Listed
list_hec_tokens s =
    map (λ t. record { id = t.id; name = t.name; created = t.created; last_used = t.last_used })
      (load_hec_tokens s)
