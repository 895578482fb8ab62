-- ===== src/Feed/Store.antt =====
-- api/feed_store.py (src/tinysocs): `LicenceStore`. `writes` is false when `_save` raises, which
-- leaves the memory changed and the file as it was; the answer is then none.
use tinysocs.Prelude.Core.{
  ℕ, Bool, true, false, not, ◌&&◌, Option, none, some, List, [], ◌∷◌, ◌++◌, if◌then◌else◌,
}
use tinysocs.Prelude.Equality.{◌==◌, contains, string_eq}
use tinysocs.Prelude.Int.{pos}
use tinysocs.Prelude.Json.{Json, Fields, str, num, get, truthy, json_eq}
use tinysocs.Prelude.Text.{Text}
use tinysocs.Prelude.Dict.{Dict, insert}
use tinysocs.Licence.{or_null}

pub record Issue : Type 0 where
  pub sub : Json
  pub tier : Json
  pub sites : Json
  pub iat : Json
  pub exp : Json
  pub token : Text
  pub recorded_at : ℕ

-- `{"issued": ..., "revoked": ...}`; a nonce is whatever the payload holds.
pub record Data : Type 0 where
  pub issued : Dict Json Issue
  pub revoked : List Json

-- The data in memory, and what the file holds; none is a file that is missing or not readable.
pub record LicenceStore : Type 0 where
  pub memory : Data
  pub file : Option Data

abbrev pub empty : Data
empty = record { issued = []; revoked = [] }

-- `__init__` with `_load`
unfoldable pub load : Option Data → LicenceStore
load none = record { memory = empty; file = none }
load (some d) = record { memory = d; file = some d }

unfoldable pub save : Bool → LicenceStore → Bool × LicenceStore
save writes s =
    if writes then (true, record { memory = s.memory; file = some s.memory }) else (false, s)

abbrev pub with_default : Json → Option Json → Json
with_default v none = v
with_default v (some w) = w

unfoldable pub issue_of : Fields → Text → ℕ → Issue
issue_of payload token now = record {
  sub = with_default (str "") (get "sub" payload);
  tier = with_default (str "free") (get "tier" payload);
  sites = with_default (num (pos 0)) (get "sites" payload);
  iat = with_default (num (pos 0)) (get "iat" payload);
  exp = with_default (num (pos 0)) (get "exp" payload);
  token = token;
  recorded_at = now;
}

-- true when nothing raised
unfoldable pub record_issue : Bool → Fields → Text → ℕ → LicenceStore → Bool × LicenceStore
record_issue writes payload token now s =
    let nonce = or_null (get "nonce" payload) in
    if not (truthy nonce)
    then (true, s)
    else save writes (record {
      memory = record {
        issued = insert nonce (issue_of payload token now) s.memory.issued;
        revoked = s.memory.revoked;
      };
      file = s.file;
    })

abbrev answer {ℓ} : {A : Type ℓ} → A → Bool × LicenceStore → Option A × LicenceStore
answer a (ok, s) = (if ok then some a else none, s)

-- The store with more nonces in its revocation list.
abbrev pub with_revoked : List Json → LicenceStore → LicenceStore
with_revoked nonces s = record {
  memory = record { issued = s.memory.issued; revoked = nonces };
  file = s.file;
}

unfoldable pub revoke : Bool → Json → LicenceStore → Option Bool × LicenceStore
revoke writes nonce s =
    if not (truthy nonce)
    then (some false, s)
    else if contains s.memory.revoked nonce
    then (some false, s)
    else answer true (save writes (with_revoked (s.memory.revoked ++ nonce ∷ []) s))

-- The loop of `revoke_subscription`: the nonces killed and the revocation list after it.
unfoldable pub kill : Json → Dict Json Issue → List Json → List Json × List Json
kill sub [] revoked = ([], revoked)
kill sub ((nonce, rec) ∷ issued) revoked =
    let (killed, after) = kill sub issued (revoked ++ nonce ∷ []) in
    let skipped = kill sub issued revoked in
    if rec.sub == sub && not (contains revoked nonce) then (nonce ∷ killed, after) else skipped

-- With nothing killed the file is not written.
abbrev pub store_killed :
    Bool → LicenceStore → List Json × List Json → Option (List Json) × LicenceStore
store_killed writes s ([], _) = (some [], s)
store_killed writes s (n ∷ ns, revoked) = answer (n ∷ ns) (save writes (with_revoked revoked s))

unfoldable pub revoke_subscription : Bool → Json → LicenceStore → Option (List Json) × LicenceStore
revoke_subscription writes sub s =
    if not (truthy sub)
    then (some [], s)
    else store_killed writes s (kill sub s.memory.issued s.memory.revoked)

unfoldable pub is_revoked : Json → LicenceStore → Bool
is_revoked nonce s = if not (truthy nonce) then false else contains s.memory.revoked nonce

-- What the process does with its store, restarts included, when every write succeeds.
pub data Command : Type 0 where
  issuing : Fields → Text → ℕ → Command
  revoking : Json → Command
  cancelling : Json → Command
  restarting : Command

unfoldable pub perform : Command → LicenceStore → LicenceStore
unfolding record_issue revoke revoke_subscription load
perform (issuing payload token now) s = (record_issue true payload token now s).1
perform (revoking nonce) s = (revoke true nonce s).1
perform (cancelling sub) s = (revoke_subscription true sub s).1
perform restarting s = load s.file

unfoldable pub run : List Command → LicenceStore → LicenceStore
unfolding perform
run [] s = s
run (c ∷ commands) s = run commands (perform c s)
