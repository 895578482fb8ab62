-- ===== src/Master/Fanout.antt =====
-- `_fanout_agg_async`: one task for each node, the replies in whatever batches they come, a
-- short-circuit after the first success, and the deadline.
use mathlib.Core.List.{Perm, perm_middle, append-nil}
use mathlib.Core.List.Perm
use tinysocs.Prelude.Core.{
  ◌≡◌, refl, sym, subst, ℕ, ◌+◌, Bool, true, false, not, ◌&&◌, String, ◌<>◌, Option, none, some,
  List, [], ◌∷◌, ◌++◌, map, eqb, if◌then◌else◌, Bool-cases, inl, inr,
}
use tinysocs.Prelude.Lists.{keep, any}
use tinysocs.Prelude.Json.{Json}

-- What a finished task holds: evidence, an error that `_fetch_node_agg_async` reports, or an
-- exception.
pub data Reply : Type 0 where
  good : Json → Reply
  bad : String → Reply
  crashed : String → Reply

pub data Outcome : Type 0 where
  fetched : Json → Outcome
  failed : String → Outcome

pub record Result : Type 0 where
  pub node : String
  pub outcome : Outcome

abbrev pub is_ok : Result → Bool
is_ok r = elim r.outcome [ fetched _ ↦ true | failed _ ↦ false ]

-- The tasks that have not finished, numbered, with their nodes.
abbrev pub Tasks : Type 0
Tasks = List (ℕ × String)

-- One task for each node.
unfoldable pub create_tasks : ℕ → List String → Tasks
create_tasks i [] = []
create_tasks i (n ∷ nodes) = (i, n) ∷ create_tasks (i + 1) nodes

abbrev outcome_of : Reply → Outcome
outcome_of (good d) = fetched d
outcome_of (bad e) = failed e
outcome_of (crashed e) = failed ("task_error: " <> e)

pub record Wait : Type 0 where
  pub tasks : Tasks
  pub results : List Result

-- `results.append(d.result())` and `tasks.pop(d, None)`: the loop only ever waits for its own
-- tasks, so another number is passed over.
unfoldable pub finish_in : ℕ → Reply → Tasks → Option String × Tasks
finish_in i r [] = (none, [])
finish_in i r ((j, n) ∷ ts) =
    let (found, rest) = finish_in i r ts in if eqb i j then (some n, ts) else (found, (j, n) ∷ rest)

abbrev settle : Reply → Wait → Option String × Tasks → Wait
settle r s (none, _) = s
settle r s (some n, rest) = record {
  tasks = rest;
  results = s.results ++ (record { node = n; outcome = outcome_of r } ∷ []);
}

unfoldable pub finish : ℕ → Reply → Wait → Wait
finish i r s = settle r s (finish_in i r s.tasks)

unfoldable pub finish_all : List (ℕ × Reply) → Wait → Wait
finish_all [] s = s
finish_all ((i, r) ∷ done) s = finish_all done (finish i r s)

-- Cancel the tasks that are left and report each as an error.
unfoldable pub cancel_tasks : Tasks → List Result
cancel_tasks [] = []
cancel_tasks ((_, n) ∷ ts) = record { node = n; outcome = failed "deadline" } ∷ cancel_tasks ts

unfoldable pub cancel_all : Wait → Wait
unfolding cancel_tasks
cancel_all s = record { tasks = []; results = s.results ++ cancel_tasks s.tasks }

abbrev is_empty : Tasks → Bool
is_empty [] = true
is_empty (_ ∷ _) = false

abbrev short_circuit : Bool → Wait → Wait
short_circuit wait_all s = if not wait_all && any is_ok s.results then cancel_all s else s

-- The loop, for the batches that `asyncio.wait` hands out before the deadline; with no task left
-- it ends before the next wait.
unfoldable pub wait_loop : Bool → List (List (ℕ × Reply)) → Wait → Wait
wait_loop wait_all [] s = s
wait_loop wait_all (done ∷ batches) s =
    if is_empty s.tasks
    then s
    else wait_loop wait_all batches (short_circuit wait_all (finish_all done s))

abbrev pub ok_first : List Result → List Result
ok_first rs = keep is_ok rs ++ keep (λ r. not (is_ok r)) rs

unfoldable pub fanout_agg : Bool → List String → List (List (ℕ × Reply)) → List Result
fanout_agg wait_all nodes batches =
    let s = wait_loop wait_all batches (record { tasks = create_tasks 0 nodes; results = [] }) in
    ok_first (cancel_all s).results

node_names : Tasks → List String
node_names [] = []
node_names ((_, n) ∷ ts) = n ∷ node_names ts

abbrev pub result_nodes : List Result → List String
result_nodes = map (λ r. r.node)

result_nodes-append :
    (rs ss : List Result) → result_nodes (rs ++ ss) ≡ result_nodes rs ++ result_nodes ss
result_nodes-append [] ss = refl
result_nodes-append (r ∷ rs) ss = rw (result_nodes-append rs ss) refl

node_names-create_tasks : (i : ℕ) (nodes : List String) → node_names (create_tasks i nodes) ≡ nodes
unfolding node_names create_tasks
node_names-create_tasks i [] = refl
node_names-create_tasks i (n ∷ nodes) = rw (node_names-create_tasks (i + 1) nodes) refl

result_nodes-cancel_tasks : (ts : Tasks) → result_nodes (cancel_tasks ts) ≡ node_names ts
unfolding node_names cancel_tasks
result_nodes-cancel_tasks [] = refl
result_nodes-cancel_tasks ((_, n) ∷ ts) = rw (result_nodes-cancel_tasks ts) refl

-- A finished task leaves the list with its node; an unknown number changes nothing.
Taken : Option String → Tasks → Tasks → Type 0
Taken none ts rest = Unit
Taken (some n) ts rest = Perm (node_names ts) (n ∷ node_names rest)

Taken-cons :
    (j : ℕ) (m : String) (o : Option String) (ts rest : Tasks)
    → Taken o ts rest
    → Taken o ((j, m) ∷ ts) ((j, m) ∷ rest)
unfolding Taken node_names
Taken-cons j m none ts rest h = tt
Taken-cons j m (some n) ts rest h = Perm.trans (Perm.cons m h) (Perm.swap _ _ _)

Taken-finish_in :
    (i : ℕ) (r : Reply) (ts : Tasks) → Taken (finish_in i r ts).0 ts (finish_in i r ts).1
unfolding finish_in Taken node_names
Taken-finish_in i r [] = tt
Taken-finish_in i r ((j, n) ∷ ts) = elim (Bool-cases (eqb i j)) [
  | inl e ↦ rw e (Perm.refl _)
  | inr e ↦ rw e (Taken-cons j n _ ts _ (Taken-finish_in i r ts))
]

-- All nodes of the state: those answered and those waited for.
nodes_of : Wait → List String
nodes_of s = result_nodes s.results ++ node_names s.tasks

-- Moving a node from one end of the other side.
move-perm : (xs ys : List String) (n : String) → Perm ((xs ++ n ∷ []) ++ ys) (xs ++ n ∷ ys)
move-perm [] ys n = Perm.refl _
move-perm (x ∷ xs) ys n = Perm.cons x (move-perm xs ys n)

nodes_of-settle :
    (r : Reply) (s : Wait) (o : Option String) (rest : Tasks)
    → Taken o s.tasks rest
    → Perm (nodes_of (settle r s (o, rest))) (nodes_of s)
unfolding nodes_of Taken
nodes_of-settle r s none rest h = Perm.refl _
nodes_of-settle r s (some n) rest h =
    rw (result_nodes-append s.results (record { node = n; outcome = outcome_of r } ∷ [])) (
      Perm.trans (move-perm (result_nodes s.results) _ n)
        (Perm.append_left (result_nodes s.results) (Perm.symm h)))

nodes_of-finish : (i : ℕ) (r : Reply) (s : Wait) → Perm (nodes_of (finish i r s)) (nodes_of s)
unfolding finish
nodes_of-finish i r s = nodes_of-settle r s _ _ (Taken-finish_in i r s.tasks)

nodes_of-finish_all :
    (done : List (ℕ × Reply)) (s : Wait) → Perm (nodes_of (finish_all done s)) (nodes_of s)
unfolding finish_all
nodes_of-finish_all [] s = Perm.refl _
nodes_of-finish_all ((i, r) ∷ done) s =
    Perm.trans (nodes_of-finish_all done (finish i r s)) (nodes_of-finish i r s)

nodes_of-cancel_all : (s : Wait) → nodes_of (cancel_all s) ≡ nodes_of s
unfolding nodes_of cancel_all node_names
nodes_of-cancel_all s =
    rw (result_nodes-append s.results (cancel_tasks s.tasks), result_nodes-cancel_tasks s.tasks)
      (append-nil _)

nodes_of-short_circuit :
    (wait_all : Bool) (s : Wait) → Perm (nodes_of (short_circuit wait_all s)) (nodes_of s)
nodes_of-short_circuit wait_all s = elim (Bool-cases (not wait_all && any is_ok s.results)) [
  | inl e ↦ rw (e, nodes_of-cancel_all s) (Perm.refl _)
  | inr e ↦ rw e (Perm.refl _)
]

nodes_of-wait_loop :
    (wait_all : Bool) (batches : List (List (ℕ × Reply))) (s : Wait)
    → Perm (nodes_of (wait_loop wait_all batches s)) (nodes_of s)
unfolding wait_loop
nodes_of-wait_loop wait_all [] s = Perm.refl _
nodes_of-wait_loop wait_all (done ∷ batches) s =
    let s' = finish_all done s in
    elim (Bool-cases (is_empty s.tasks)) [
      | inl e ↦ rw e (Perm.refl _)
      | inr e ↦ rw e (
          Perm.trans (nodes_of-wait_loop wait_all batches (short_circuit wait_all s'))
            (Perm.trans (nodes_of-short_circuit wait_all s') (nodes_of-finish_all done s)))
    ]

ok_first-perm : (rs : List Result) → Perm (ok_first rs) rs
ok_first-perm [] = Perm.refl _
ok_first-perm (r ∷ rs) = elim (Bool-cases (is_ok r)) [
  | inl e ↦ rw e (Perm.cons r (ok_first-perm rs))
  | inr e ↦ rw e (Perm.trans (perm_middle (keep is_ok rs) _) (Perm.cons r (ok_first-perm rs)))
]

-- Whatever the replies, their order and the moment the waiting ends, `_fanout_agg_async` reports
-- every node exactly once.
pub fanout_agg-perm :
    (wait_all : Bool) (nodes : List String) (batches : List (List (ℕ × Reply)))
    → Perm (result_nodes (fanout_agg wait_all nodes batches)) nodes
unfolding fanout_agg node_names nodes_of cancel_all
fanout_agg-perm wait_all nodes batches =
    let s = wait_loop wait_all batches (record { tasks = create_tasks 0 nodes; results = [] }) in
    Perm.trans (Perm.map (λ r. r.node) (ok_first-perm (cancel_all s).results)) (
      subst (λ xs. Perm xs nodes) (append-nil _)
        (subst (λ xs. Perm xs nodes) (sym (nodes_of-cancel_all s))
          (subst (λ xs. Perm (nodes_of s) xs) (node_names-create_tasks 0 nodes)
            (nodes_of-wait_loop wait_all batches _))))
