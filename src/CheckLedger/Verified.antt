-- ===== src/CheckLedger/Verified.antt =====
-- What a row of `check_ledger.py --verify` that reports ok has checked, and what it has not.
use tinysocs.Prelude.Core.{
  ◌≡◌, refl, true, false, String, Option, some, List, arith, Bool-cases, inl, inr,
}
use tinysocs.Prelude.Equality.{◌==◌, string_eq, beq_refl}
use tinysocs.Prelude.Json.{Json, Fields, str, end, field, get, truthy, json_eq}
use tinysocs.Ledger.{Line, Outcome, report, raised, verify_node}
use tinysocs.CheckLedger.{
  HeadReply, failure, not_implemented, answer, Head, or_null, get_head, Row, AnchorReply,
  query_failed, not_found, found, same_head, anchored_of, compare_anchor, after_chain, Node,
  node_id_of, is_false, head_row, verify_row,
}

-- The anchor that was found names the head.
abbrev pub IsAnchored : Head → AnchorReply → Type 0
IsAnchored head a =
    (d : Fields) × (a ≡ found d) × (same_head head.head_sha256 (anchored_of d) ≡ true)

compare_anchor-ok :
    (node_id : Json) (head : Head) (a : AnchorReply)
    → (compare_anchor node_id head a).ok ≡ true
    → IsAnchored head a
unfolding compare_anchor
compare_anchor-ok node_id head (query_failed e) h = absurd (ground arith)
compare_anchor-ok node_id head not_found h = absurd (ground arith)
compare_anchor-ok node_id head (found end) h = absurd (ground arith)
compare_anchor-ok node_id head (found (field k v d)) h = (field k v d, refl, h)

abbrev pub IsVerified : Outcome → Type 0
IsVerified o = (seq : Json) × (h : Option String) × (o ≡ report true seq h)

after_chain-ok :
    (node_id : Json) (head : Head) (a : AnchorReply) (o : Outcome) (row : Row)
    → after_chain node_id head a o ≡ some row
    → row.ok ≡ true
    → IsVerified o × IsAnchored head a
after_chain-ok node_id head a raised row e ok = absurd (ground arith)
after_chain-ok node_id head a (report false seq r) row e ok = absurd (ground arith)
after_chain-ok node_id head a (report true seq h) row e ok =
    ((seq, h, refl), compare_anchor-ok node_id head a (ground arith))

-- Only a node without a ledger has an `ok` that is None.
get_head-ok :
    (derived : String) (reply : HeadReply)
    → is_false (get_head derived reply).ok ≡ false
    → ((get_head derived reply).capability == str "no-ledger") ≡ false
    → (get_head derived reply).ok ≡ some true
unfolding get_head
get_head-ok derived (failure e) h c = absurd (ground arith)
get_head-ok derived not_implemented h c = absurd (ground (arith, beq_refl (str "no-ledger")))
get_head-ok derived (answer d) h c = elim (Bool-cases (truthy (or_null (get "ok" d)))) [
  | inl e ↦ rw e refl
  | inr e ↦ absurd (ground arith)
]

module _ (canon : Json → String) (sha256_hex : String → String) where
  head_row-ok :
      (n : Node) (node_id : Json) (head : Head) (row : Row)
      → head_row canon sha256_hex n node_id head ≡ some row
      → row.ok ≡ true
      → (is_false head.ok ≡ false)
        × ((head.capability == str "no-ledger") ≡ false)
        × IsVerified (verify_node canon sha256_hex (n.lines node_id))
        × IsAnchored head (n.search node_id)
  head_row-ok n node_id head row e ok = elim (Bool-cases (is_false head.ok)) [
    | inl f ↦ absurd (ground arith)
    | inr f ↦ elim (Bool-cases (head.capability == str "no-ledger")) [
      | inl g ↦ absurd (ground arith)
      | inr g ↦
          let (verified, anchored) =
            after_chain-ok node_id head (n.search node_id) _ row (rw (f, g) at e) ok in
          (f, g, verified, anchored)
    ]
  ]

  -- A row that reports ok is for a node that answered with `ok` true, whose head is the one in the
  -- latest anchor, and whose local ledger file is missing or accepted by `verify_chain`.
  pub verify_row-ok :
      (n : Node) (row : Row)
      → verify_row canon sha256_hex n ≡ some row
      → row.ok ≡ true
      → ((get_head n.derived n.reply).ok ≡ some true)
        × IsVerified (verify_node canon sha256_hex (n.lines (node_id_of n)))
        × IsAnchored (get_head n.derived n.reply) (n.search (node_id_of n))
  unfolding verify_row
  verify_row-ok n row e ok =
      let (f, g, verified, anchored) =
        head_row-ok n (node_id_of n) (get_head n.derived n.reply) row e ok in
      (get_head-ok n.derived n.reply f g, verified, anchored)

  -- The node with another local ledger file.
  abbrev pub with_lines : Node → Option (List Line) → Node
  with_lines n lines = record {
    derived = n.derived;
    reply = n.reply;
    lines = λ node_id. lines;
    search = n.search;
  }

  -- The head of the local ledger is compared with nothing: in place of a file that `verify_chain`
  -- accepts, any other that it accepts, or none at all, gives the node the same row.
  pub verify_row-with_lines :
      (n : Node) (lines : Option (List Line))
      → IsVerified (verify_node canon sha256_hex (n.lines (node_id_of n)))
      → IsVerified (verify_node canon sha256_hex lines)
      → verify_row canon sha256_hex (with_lines n lines) ≡ verify_row canon sha256_hex n
  unfolding verify_row node_id_of
  verify_row-with_lines n lines (s, h, e) (t, k, f) = rw (e, f) refl
