-- ===== src/CheckLedger.antt =====
-- orchestrator/check_ledger.py (src/tinysocs): the health probe of the nodes' heads and the
-- `--verify` run against the anchors.
pub mod Verified
pub mod Tests
use tinysocs.Prelude.Core.{
  ◌≡◌, refl, ℕ, Bool, true, false, not, ◌&&◌, ◌||◌, String, ◌<>◌, Option, none, some, List, [], ◌∷◌,
  map, if◌then◌else◌,
}
use tinysocs.Prelude.Equality.{◌==◌, string_eq}
use tinysocs.Prelude.Json.{Json, Fields, null, bool, num, str, obj, end, get, truthy, json_eq}
use tinysocs.Ledger.{Line, Outcome, report, raised, verify_node}

-- What a GET of `/evidence/head` comes to: an exception (also a bad status), a 501, or the JSON
-- object of the answer.
pub data HeadReply : Type 0 where
  failure : String → HeadReply
  not_implemented : HeadReply
  answer : Fields → HeadReply

pub record Head : Type 0 where
  pub ok : Option Bool
  pub sequence : Json
  pub head_sha256 : Json
  pub capability : Json
  pub node_id : Json

abbrev pub or_null : Option Json → Json
or_null none = null
or_null (some v) = v

-- `a or b`
abbrev pub or_else : Json → Json → Json
or_else a b = if truthy a then a else b

-- `derived` is what `_derive_node_id` makes of the node's URL.
unfoldable pub get_head : String → HeadReply → Head
get_head derived (failure e) = record {
  ok = some false;
  sequence = null;
  head_sha256 = null;
  capability = str ("error: " <> e);
  node_id = null;
}
get_head derived not_implemented = record {
  ok = none;
  sequence = null;
  head_sha256 = null;
  capability = str "no-ledger";
  node_id = null;
}
get_head derived (answer d) = record {
  ok = some (truthy (or_null (get "ok" d)));
  sequence = or_null (get "sequence" d);
  head_sha256 = or_null (get "head_sha256" d);
  capability = elim (get "capability" d) [ none ↦ str "ledger" | some c ↦ c ];
  node_id = or_else (or_null (get "node_id" d)) (str derived);
}

-- The row of a node in the report, without the URL, the path of the ledger and the time of the
-- anchor, which are printed for the reader only.
pub record Row : Type 0 where
  pub node_id : Json
  pub ok : Bool
  pub reason : Json
  pub sequence : Json
  pub current_head : Json
  pub anchored_head : Json

-- What the search for the latest anchor comes to.
pub data AnchorReply : Type 0 where
  query_failed : String → AnchorReply
  not_found : AnchorReply
  found : Fields → AnchorReply

abbrev bad : Json → Json → Json → Json → Row
bad node_id reason sequence current = record {
  node_id = node_id;
  ok = false;
  reason = reason;
  sequence = sequence;
  current_head = current;
  anchored_head = null;
}

-- `(current is not None) and (current == anchored)`
abbrev pub same_head : Json → Json → Bool
same_head null anchored = false
same_head current anchored = current == anchored

abbrev pub anchored_of : Fields → Json
anchored_of anchor = or_else (or_null (get "head_sha256" anchor)) (or_null (get "head" anchor))

-- An anchor with no fields counts as none.
unfoldable pub compare_anchor : Json → Head → AnchorReply → Row
compare_anchor node_id head (query_failed e) =
    bad node_id (str ("anchor_query_failed: " <> e)) null null
compare_anchor node_id head not_found = bad node_id (str "no_anchor") head.sequence head.head_sha256
compare_anchor node_id head (found end) =
    bad node_id (str "no_anchor") head.sequence head.head_sha256
compare_anchor node_id head (found (Fields.field k v d)) =
    let anchored = anchored_of (Fields.field k v d) in
    let ok = same_head head.head_sha256 anchored in
    record {
      node_id = node_id;
      ok = ok;
      reason = if ok then null else str "anchor_mismatch";
      sequence = head.sequence;
      current_head = head.head_sha256;
      anchored_head = anchored;
    }

abbrev reason_of : Option String → Json
reason_of none = null
reason_of (some s) = str s

-- The two steps for a node whose head was fetched; none is an exception of `verify_chain`, which
-- ends the whole run.
abbrev pub after_chain : Json → Head → AnchorReply → Outcome → Option Row
after_chain node_id head anchor raised = none
after_chain node_id head anchor (report false seq reason) =
    some (bad node_id (reason_of reason) seq head.head_sha256)
after_chain node_id head anchor (report true seq head_or_reason) =
    some (compare_anchor node_id head anchor)

-- What the run finds for one node: `lines` is the local ledger file of a node id, none if there is
-- no such file, and `search` the latest anchor for a node id.
pub record Node : Type 0 where
  pub derived : String
  pub reply : HeadReply
  pub lines : Json → Option (List Line)
  pub search : Json → AnchorReply

-- `head.get("ok") is False`
abbrev pub is_false : Option Bool → Bool
is_false (some false) = true
is_false _ = false

-- `head.get("node_id") or _derive_node_id(node)`
unfoldable pub node_id_of : Node → Json
node_id_of n = or_else (get_head n.derived n.reply).node_id (str n.derived)

module _ (canon : Json → String) (sha256_hex : String → String) where
  abbrev pub head_row : Node → Json → Head → Option Row
  head_row n node_id head =
      if is_false head.ok
      then some (bad node_id (or_else head.capability (str "head_fetch_failed")) null null)
      else if head.capability == str "no-ledger"
      then some (bad node_id (str "no_ledger_capability") null null)
      else after_chain node_id head (n.search node_id)
          (verify_node canon sha256_hex (n.lines node_id))

  unfoldable pub verify_row : Node → Option Row
  verify_row n = head_row n (node_id_of n) (get_head n.derived n.reply)

  -- `main --verify`: the rows of all nodes; none if an exception ends the run.
  unfoldable pub verify_rows : List Node → Option (List Row)
  verify_rows [] = some []
  verify_rows (n ∷ nodes) = elim (verify_row n) [
    | none ↦ none
    | some row ↦ elim (verify_rows nodes) [ none ↦ none | some rows ↦ some (row ∷ rows) ]
  ]

-- `main` without `--verify`: the heads.
abbrev pub health_rows : List Node → List Head
health_rows [] = []
health_rows (n ∷ nodes) = get_head n.derived n.reply ∷ health_rows nodes
