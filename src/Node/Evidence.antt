-- ===== src/Node/Evidence.antt =====
-- `/evidence/head` and `/evidence/append`: the node's own ledger, in files named for the day.
use tinysocs.Prelude.Core.{ℕ, ◌+◌, String, Option, none, some, List, [], ◌∷◌, ◌++◌, if◌then◌else◌}
use tinysocs.Prelude.Equality.{string_eq}
use tinysocs.Prelude.Int.{pos}
use tinysocs.Prelude.Json.{Json, Fields, null, num, str, obj, field, end, get, truthy}
use tinysocs.Prelude.Dict.{Dict, lookup, insert}

-- What `_write_head` wrote last, none before the first entry.
pub record Head : Type 0 where
  pub sequence : ℕ
  pub head_sha256 : String
  pub updated_at : String

pub record NodeLedger : Type 0 where
  pub head : Option Head
  pub files : Dict String (List Json)

abbrev pub or_null : Option Json → Json
or_null none = null
or_null (some v) = v

abbrev pub next_sequence : Option Head → ℕ
next_sequence none = 1
next_sequence (some h) = h.sequence + 1

abbrev prev_hash : Option Head → Json
prev_hash none = null
prev_hash (some h) = str h.head_sha256

-- `body.get("node_id") or NODE_ID`
abbrev node_id_of : String → Fields → Json
node_id_of node_id body =
    let v = or_null (get "node_id" body) in if truthy v then v else str node_id

-- The fields that are hashed, with those that follow.
unfoldable pub entry_of : String → String → Fields → Option Head → Fields → Fields
entry_of node_id now body head more = field "sequence" (num (pos (next_sequence head))) (
    field "timestamp" (str now) (
      field "rule" (or_null (get "rule" body)) (
        field "stable_hash" (or_null (get "stable_hash" body))
          (field "prev_hash" (prev_hash head) (field "node_id" (node_id_of node_id body) more)))))

abbrev or_empty : Option (List Json) → List Json
or_empty none = []
or_empty (some es) = es

-- `_append_jsonl`
abbrev append_jsonl : String → Json → Dict String (List Json) → Dict String (List Json)
append_jsonl day entry files = insert day (or_empty (lookup day files) ++ entry ∷ []) files

-- `canon` and `sha256` are `json.dumps` with sorted keys and the digest of `hashlib`.
module _ (canon : Json → String) (sha256 : String → String) where
  unfoldable pub head_sha_of : String → String → Fields → Option Head → String
  head_sha_of node_id now body head = sha256 (canon (obj (entry_of node_id now body head end)))

  -- The line that is appended.
  unfoldable pub line_of : String → String → Fields → Option Head → Json
  line_of node_id now body head = obj (
      entry_of node_id now body head
        (field "head_sha256" (str (head_sha_of node_id now body head)) end))

  unfoldable pub post_append : String → String → String → Fields → NodeLedger → Head × NodeLedger
  post_append node_id day now body l =
      let head' : Head = record {
        sequence = next_sequence l.head;
        head_sha256 = head_sha_of node_id now body l.head;
        updated_at = now;
      } in
      (
        head',
        record {
          head = some head';
          files = append_jsonl day (line_of node_id now body l.head) l.files;
        },
      )

-- `/evidence/head`; none is the answer that there is no entry yet.
abbrev pub get_head : NodeLedger → Option Head
get_head l = l.head
