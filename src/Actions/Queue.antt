-- ===== src/Actions/Queue.antt =====
-- agent/actions_queue.py (src/tinysocs): the JSON-lines queue of staged actions. A line is the
-- value that was written to it; `json.loads` of a written line gives that value back.
use tinysocs.Prelude.Core.{
  ◌≡◌, refl, ◌-◌, String, none, some, ℕ, zero, suc, List, [], ◌∷◌, ◌++◌, arith,
}
use tinysocs.Prelude.Lists.{length, drop, length-append, drop-append}
use tinysocs.Prelude.Json.{Json, null, str, obj, Fields, end, field, get}

abbrev get_or : String → Json → Fields → Json
get_or k d a = elim (get k a) [ none ↦ d | some v ↦ v ]

abbrev pub queue_entry : String → Fields → Json
queue_entry ts a = obj (
    field "timestamp" (str ts) (
      field "action" (get_or "action" null a)
        (field "params" (get_or "params" (obj end) a) (field "status" (str "staged") end))))

abbrev pub entries : String → List Fields → List Json
entries ts [] = []
entries ts (a ∷ rest) = queue_entry ts a ∷ entries ts rest

-- `stage_actions`, with the time of the call
unfoldable pub stage_actions : String → List Fields → List Json → List Json
stage_actions ts actions queue = queue ++ entries ts actions

-- `load_queue`: the slice `[-limit:]` is the whole list for 0.
unfoldable pub load_queue : ℕ → List Json → List Json
load_queue zero queue = queue
load_queue (suc n) queue = drop (length queue - suc n) queue

unfoldable pub clear_queue : List Json → List Json
clear_queue queue = []

length-entries :
    (ts : String) (actions : List Fields) → length (entries ts actions) ≡ length actions
length-entries ts [] = refl
length-entries ts (a ∷ rest) = omega (arith, length-entries ts rest)

-- Reading back as many lines as were just staged gives exactly those entries, in order, each with
-- the time of the call and the status "staged"; nothing else of a staged dict is kept than its
-- action and its params.
pub load_queue-stage_actions :
    (ts : String) (a : Fields) (rest : List Fields) (queue : List Json)
    → load_queue (length (a ∷ rest)) (stage_actions ts (a ∷ rest) queue) ≡ entries ts (a ∷ rest)
unfolding load_queue stage_actions
load_queue-stage_actions ts a rest queue =
    let count : length (queue ++ entries ts (a ∷ rest)) - length (a ∷ rest) ≡ length queue =
      omega (arith, length-append queue (entries ts (a ∷ rest)), length-entries ts (a ∷ rest)) in
    rw count (drop-append queue (entries ts (a ∷ rest)))
