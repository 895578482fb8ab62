-- ===== src/CheckLedger/Tests.antt =====
-- A run of the check on one node.
use tinysocs.Prelude.Core.{◌≡◌, refl, true, String, none, some, [], ◌∷◌}
use tinysocs.Prelude.Equality.{string_eq}
use tinysocs.Prelude.Int.{pos}
use tinysocs.Prelude.Json.{Json, json_eq, null, bool, num, str, field, end, get}
use tinysocs.Ledger.{blank, verify_node, verify_chain, verify_from}
use tinysocs.CheckLedger.{answer, get_head, Row, found, Node, node_id_of, verify_row}
use tinysocs.CheckLedger.Verified.{IsVerified, with_lines, verify_row-with_lines}

abbrev canon : Json → String
canon j = "c"

abbrev sha : String → String
sha s = "h"

abbrev some_node : Node
some_node = record {
  derived = "node-8081";
  reply = answer (
      field "ok" (bool true) (field "sequence" (num (pos 4)) (field "head_sha256" (str "h4") end)));
  lines = λ node_id. some (blank ∷ []);
  search = λ node_id. found (field "head_sha256" (str "h4") end);
}

abbrev some_row : Row
some_row = record {
  node_id = str "node-8081";
  ok = true;
  reason = null;
  sequence = num (pos 4);
  current_head = str "h4";
  anchored_head = str "h4";
}

checked : verify_row canon sha some_node ≡ some some_row
unfolding verify_row get_head get string_eq json_eq verify_node tinysocs.CheckLedger.compare_anchor
    node_id_of verify_chain verify_from
checked = refl

here : IsVerified (verify_node canon sha (some (blank ∷ [])))
unfolding verify_node verify_chain verify_from
here = (_, _, refl)

missing : IsVerified (verify_node canon sha none)
unfolding verify_node
missing = (_, _, refl)

verify_row-with_lines_example :
    verify_row canon sha (with_lines canon sha some_node none) ≡ verify_row canon sha some_node
verify_row-with_lines_example = verify_row-with_lines canon sha some_node none here missing
