-- ===== src/Ledger.antt =====
-- agent/models/ledger.py (src/tinysocs): the per-node evidence ledger, a JSON-lines file whose
-- entries are chained by hashes, and its cached head pointer.
pub mod Chain
pub mod Append
pub mod Tamper
pub mod Truncate
mod Tests
use tinysocs.Prelude.Core.{
  ◌≡◌, Bool, true, false, String, Option, none, some, List, [], ◌∷◌, ◌++◌, ltb, if◌then◌else◌,
}
use tinysocs.Prelude.Equality.{◌==◌, string_eq, option_eq}
use tinysocs.Prelude.Int.{ℤ, pos, negsuc, ◌+ℤ◌, ltb_ℤ}
use tinysocs.Prelude.Json.{
  Json, null, num, str, obj, Fields, end, field, get, int_of, opt_str, json_eq, int_eq,
}

-- The dict `core` that is hashed. A verified line may hold any JSON values here.
pub record Core : Type 0 where
  pub node_id : Json
  pub sequence : Json
  pub ts_utc : Json
  pub head_prev : Json
  pub payload_sha256 : Json

abbrev pub core_fields : Core → Fields → Fields
core_fields c rest = field "node_id" c.node_id (
    field "sequence" c.sequence (
      field "ts_utc" c.ts_utc
        (field "head_prev" c.head_prev (field "payload_sha256" c.payload_sha256 rest))))

abbrev pub core_object : Core → Json
core_object c = obj (core_fields c end)

-- One line of the file, after the BOM and the white space are stripped: nothing, text that
-- `json.loads` refuses, or the value that it returns.
pub data Line : Type 0 where
  blank : Line
  garbled : Line
  parsed : Json → Line

-- What `verify_chain` returns, or the KeyError or TypeError that it lets out.
pub data Outcome : Type 0 where
  raised : Outcome
  report : Bool → Json → Option String → Outcome

infixl 10 ◌>>=◌
abbrev pub ◌>>=◌ : Option Json → (Json → Option Core) → Option Core
none >>= f = none
some v >>= f = f v

-- `core = {k: e[k] for k in (...)}`: a missing key, or a value that is no dict, raises.
unfoldable pub core_of : Json → Option Core
core_of (obj e) = do
  n ← get "node_id" e
  s ← get "sequence" e
  t ← get "ts_utc" e
  p ← get "head_prev" e
  d ← get "payload_sha256" e
  some (record { node_id = n; sequence = s; ts_utc = t; head_prev = p; payload_sha256 = d })
core_of _ = none

-- `e.get(k)` on the value of a line, None where the key is missing.
unfoldable pub entry_get : String → Json → Json
unfolding get
entry_get k (obj e) = elim (get k e) [ none ↦ null | some v ↦ v ]
entry_get k _ = null

-- Python's `a != b`.
abbrev differs : Json → Json → Bool
differs a b = if a == b then false else true

-- The two files of a node: the lines of the ledger, and the head pointer as `_read_head`
-- returns it (none for a head file that is missing or malformed).
pub record Ledger : Type 0 where
  pub lines : List Line
  pub head : Option (ℤ × String)

abbrev pub empty : Ledger
empty = record { lines = []; head = none }

-- `canon` is `json.dumps` with sorted keys and compact separators, `sha256_hex` the digest of
-- `hashlib`: parameters, since the theorems need nothing of them.
module _ (canon : Json → String) (sha256_hex : String → String) where
  abbrev pub digest : Core → String
  digest c = sha256_hex (canon (core_object c))

  -- The three checks of one entry, in the order of the code; `continue` goes on with the loop.
  unfoldable pub check_entry : Option String → ℤ → Json → Core → (String → ℤ → Outcome) → Outcome
  check_entry prev_head prev_seq e core continue =
      let calc_head = digest core in
      if differs (entry_get "head_sha256" e) (str calc_head)
      then report false (entry_get "sequence" e) (some "head_mismatch")
      else if differs core.head_prev (opt_str prev_head)
      then report false (entry_get "sequence" e) (some "prev_link_mismatch")
      else if int_of core.sequence == some (prev_seq +ℤ pos 1)
      then continue calc_head (prev_seq +ℤ pos 1)
      else report false (entry_get "sequence" e) (some "sequence_gap")

  -- The loop of `verify_chain` over the lines.
  unfoldable pub verify_from : Option String → ℤ → List Line → Outcome
  verify_from prev_head prev_seq [] = report true (num prev_seq) prev_head
  verify_from prev_head prev_seq (blank ∷ lines) = verify_from prev_head prev_seq lines
  verify_from prev_head prev_seq (garbled ∷ lines) =
      report false (num (if ltb_ℤ prev_seq (pos 0) then pos 0 else prev_seq +ℤ pos 1))
        (some "invalid_json")
  verify_from prev_head prev_seq (parsed e ∷ lines) = elim (core_of e) [
    | none ↦ raised
    | some core ↦
        check_entry prev_head prev_seq e core (λ head seq. verify_from (some head) seq lines)
  ]

  -- `verify_chain` where the file is there. (Where it is missing the code returns
  -- (True, None, None): `verify_node`.)
  unfoldable pub verify_chain : List Line → Outcome
  unfolding verify_from
  verify_chain lines = verify_from none (negsuc 0) lines

  -- `verify_chain` of a node whose file may be missing.
  unfoldable pub verify_node : Option (List Line) → Outcome
  unfolding verify_chain
  verify_node none = report true null none
  verify_node (some lines) = verify_chain lines

  -- The entry that `append_entry` writes, as the line that is read back.
  abbrev pub entry_line : Core → Line
  entry_line c = parsed (obj (core_fields c (field "head_sha256" (str (digest c)) end)))

  -- The core that `append_entry` builds: the sequence and the previous head come from the
  -- cached head pointer.
  abbrev pub next_seq : Option (ℤ × String) → ℤ
  next_seq none = pos 0
  next_seq (some (seq, _)) = seq +ℤ pos 1

  abbrev pub head_text : Option (ℤ × String) → Option String
  head_text none = none
  head_text (some (_, h)) = some h

  abbrev pub next_core : String → String → Json → Ledger → Core
  next_core node_id now payload l = record {
    node_id = str node_id;
    sequence = num (next_seq l.head);
    ts_utc = str now;
    head_prev = opt_str (head_text l.head);
    payload_sha256 = str (sha256_hex (canon payload));
  }

  -- `append_entry`: a line at the end of the file, then the new head pointer.
  unfoldable pub append_entry : String → String → Json → Ledger → Ledger
  append_entry node_id now payload l =
      let core = next_core node_id now payload l in
      record {
        lines = l.lines ++ (entry_line core ∷ []);
        head = some (next_seq l.head, digest core);
      }
