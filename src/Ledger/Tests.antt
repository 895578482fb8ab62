-- ===== src/Ledger/Tests.antt =====
-- Runs of the ledger, and its theorems at concrete data.
use tinysocs.Prelude.Core.{
  ◌≡◌, ◌↔◌, ◌⊎◌, refl, true, false, String, ◌<>◌, some, List, [], ◌∷◌, ◌++◌,
}
use tinysocs.Prelude.Equality.{string_eq, option_eq}
use native.Mathlib.Decide.{ℕ_discrete}
use tinysocs.Prelude.Int.{pos, ◌+ℤ◌}
use tinysocs.Prelude.Json.{Json, end, field, null, num, str, obj, get, json_eq, int_eq}
use tinysocs.Ledger.{
  Line, blank, garbled, parsed, Ledger, empty, report, verify_chain, verify_from, check_entry,
  core_of, entry_get, append_entry, head_text,
}
use tinysocs.Ledger.Chain.{Records, read_back, verify_chain_iff}
use tinysocs.Ledger.Append.{seq_of, append_all, verify_chain-append_all}
use tinysocs.Ledger.Tamper.{Collision, verify_chain-tamper}

-- A canonical form that keeps the two fields that the runs vary, and a hash that only marks.
abbrev canon : Json → String
canon (obj (field _ _ (field _ _ (field _ (str ts) _)))) = ts
canon (str s) = s
canon _ = "other"

abbrev sha : String → String
sha s = "#" <> s

abbrev two : Ledger
unfolding append_entry
two = append_entry canon sha "n" "t1" (str "b") (append_entry canon sha "n" "t0" (str "a") empty)

two_verifies : verify_chain canon sha two.lines ≡ report true (num (pos 1)) (some "#t1")
unfolding verify_chain verify_from check_entry append_entry core_of entry_get get string_eq json_eq
    int_eq option_eq ℕ_discrete ◌+ℤ◌
two_verifies = refl

-- A line whose payload was changed after the fact.
abbrev forged : Line
forged = parsed (
    obj (
      field "node_id" (str "n") (
        field "sequence" (num (pos 0)) (
          field "ts_utc" (str "t9") (
            field "head_prev" null
              (field "payload_sha256" (str "#a") (field "head_sha256" (str "#t0") end)))))))

forged_refused :
    verify_chain canon sha (blank ∷ forged ∷ []) ≡ report false (num (pos 0)) (some "head_mismatch")
unfolding verify_chain verify_from check_entry core_of entry_get get string_eq json_eq ℕ_discrete
forged_refused = refl

-- After garbled text the failure point is the next sequence number.
garbled_refused :
    verify_chain canon sha (two.lines ++ (garbled ∷ []))
    ≡ report false (num (pos 2)) (some "invalid_json")
unfolding two_verifies
garbled_refused = refl

verify_chain_iff_example :
    (verify_chain canon sha two.lines ≡ report true (num (pos 1)) (some "#t1"))
    ↔ Records canon sha [] two.lines (num (pos 1)) (some "#t1")
verify_chain_iff_example = verify_chain_iff canon sha two.lines (num (pos 1)) (some "#t1")

verify_chain-tamper_example :
    (read_back canon sha [] two.lines ≡ read_back canon sha [] (blank ∷ two.lines))
    ⊎ Collision canon sha
unfolding two_verifies
verify_chain-tamper_example =
    verify_chain-tamper canon sha two.lines (blank ∷ two.lines) (num (pos 1)) (num (pos 1))
      (some "#t1") refl refl

abbrev one : Ledger
one = append_entry canon sha "n" "t0" (str "a") empty

abbrev batch : List (String × Json)
batch = ("t0", str "a") ∷ ("t1", str "b") ∷ []

verify_chain-append_all_example :
    verify_chain canon sha (append_all canon sha "n" batch empty).lines
    ≡ report true
        (num (seq_of canon sha (append_all canon sha "n" batch empty).head))
        (head_text canon sha (append_all canon sha "n" batch empty).head)
verify_chain-append_all_example = verify_chain-append_all canon sha "n" batch
