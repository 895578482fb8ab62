-- ===== src/Master/Tests.antt =====
-- The master's fan-out and merge on concrete data.
use mathlib.Core.List.{Perm}
use tinysocs.Prelude.Core.{◌≡◌, ◌↔◌, refl, ℕ, zero, suc, false, String, none, some, List, [], ◌∷◌}
use tinysocs.Prelude.Equality.{string_eq, nat_eq}
use tinysocs.Prelude.Int.{pos}
use tinysocs.Prelude.Json.{Json, Fields, null, num, str, arr, obj, nil, cons, end, field, get}
use tinysocs.Prelude.Dict.{lookup}
use tinysocs.Master.Retry.{Call, try_call, FirstAnswer, try_call_iff}
use tinysocs.Master.Fanout.{
  Reply, good, bad, crashed, Result, fetched, failed, fanout_agg, result_nodes, fanout_agg-perm,
}
use tinysocs.Master.Merge.{
  DetectionEvidence, Key, key_eq, deep_union, concat, merge_by_key, merge_evidence,
}
use tinysocs.Master.Merged.{counts, maximum, count_of, merge_by_key-count}

-- A call that raises until the world is 2.
abbrev third : Call ℕ String
third zero = (none, 1)
third (suc zero) = (none, 2)
third (suc (suc n)) = (some "answer", 3)

retried : try_call third 5 0 ≡ (some "answer", 3)
unfolding try_call
retried = refl

try_call_iff_example : (try_call third 5 0 ≡ (some "answer", 3)) ↔ FirstAnswer third 5 0 "answer" 3
try_call_iff_example = try_call_iff third 5 0 "answer" 3

abbrev batches : List (List (ℕ × Reply))
batches = ((1, bad "timeout") ∷ []) ∷ ((0, good null) ∷ []) ∷ ((2, good null) ∷ []) ∷ []

-- The first success cancels the task that is left.
short_circuited : fanout_agg false ("a" ∷ "b" ∷ "c" ∷ []) batches ≡ (
    record { node = "a"; outcome = fetched null }
    ∷ record { node = "b"; outcome = failed "timeout" }
    ∷ record { node = "c"; outcome = failed "deadline" }
    ∷ [])
unfolding fanout_agg tinysocs.Master.Fanout.cancel_all tinysocs.Master.Fanout.wait_loop
    tinysocs.Master.Fanout.create_tasks tinysocs.Master.Fanout.finish_all
    tinysocs.Master.Fanout.finish tinysocs.Master.Fanout.finish_in
short_circuited = refl

fanout_agg-perm_example :
    Perm (result_nodes (fanout_agg false ("a" ∷ "b" ∷ "c" ∷ []) batches)) ("a" ∷ "b" ∷ "c" ∷ [])
fanout_agg-perm_example = fanout_agg-perm false ("a" ∷ "b" ∷ "c" ∷ []) batches

abbrev dumps : Json → String
dumps j = "text"

abbrev left : Fields
left = field "users" (arr (cons (str "a") nil)) (field "n" (num (pos 1)) end)

abbrev right : Fields
right = field "users" (arr (cons (str "b") (cons (str "a") nil))) end

joined :
    get "users" (deep_union dumps left right) ≡ some (arr (cons (str "a") (cons (str "b") nil)))
unfolding get deep_union tinysocs.Prelude.Json.put string_eq tinysocs.Master.Merge.unique
    tinysocs.Master.Merge.append_items tinysocs.Prelude.Json.json_eq
joined = refl

abbrev evidence : ℕ → DetectionEvidence
evidence n = record {
  rule = "failed_logon";
  window = "15m";
  host = some "h";
  count = n;
  summary = left;
  exemplars = null ∷ [];
}

abbrev some_batches : List (List DetectionEvidence)
some_batches = (evidence 3 ∷ evidence 7 ∷ []) ∷ [] ∷ (evidence 5 ∷ []) ∷ []

merge_by_key-count_example :
    count_of (lookup ("failed_logon", some "h") (merge_by_key dumps some_batches))
    ≡ maximum (counts ("failed_logon", some "h") (concat some_batches))
merge_by_key-count_example = merge_by_key-count dumps some_batches ("failed_logon", some "h")

seven : maximum (counts ("failed_logon", some "h") (concat some_batches)) ≡ some 7
unfolding key_eq string_eq
seven = refl
