-- ===== src/LockManager/Deadlock.antt =====
-- src/nodes/lock_manager.py: the search for deadlocks, `find_deadlock_victim` and `_find_cycle`. A set
-- is iterated in an order of its own: `order` gives that order for the names in the set.
pub mod Graph
pub mod Cycle
pub mod Trace
pub mod Dfs
pub mod Find
pub mod Candidates
pub mod Victim
mod Tests
use sinkronisasi_dan_distrib.Base.{
  ℕ, zero, suc, String, Bool, true, false, Option, none, some, List, [], ◌∷◌, ◌++◌, Dict, lookup,
  insert, ite, dec_string, if◌then◌else◌, leb, length, keys, member, set_add, set_discard,
}
use sinkronisasi_dan_distrib.LockManager.{LockRequest, LockState}

abbrev pub names_of : Option (List String) → List String
names_of none = []
names_of (some ns) = ns

-- `s.update(ns)` on a set
unfoldable pub add_all : List String → List String → List String
add_all [] s = s
add_all (n ∷ ns) s = add_all ns (set_add n s)

-- `graph.setdefault(req.client_id, set()).update(holders)` for the requests of a queue
unfoldable pub add_waiters :
    List String → List LockRequest → Dict (List String) → Dict (List String)
unfolding add_all
add_waiters holders [] g = g
add_waiters holders (r ∷ q) g =
    add_waiters holders q (insert r.client_id (add_all holders (names_of (lookup r.client_id g))) g)

-- the graph of `find_deadlock_victim`: who waits for whom
unfoldable pub wait_graph : Dict LockState → Dict (List String) → Dict (List String)
unfolding add_waiters
wait_graph [] g = g
wait_graph ((name, s) ∷ ls) g = wait_graph ls (add_waiters (keys s.holders) s.queue g)

-- The variables of `_find_cycle`; `stack` has its top first.
pub record Search : Type 0 where
  pub visited : List String
  pub stack : List String
  pub in_stack : List String
  pub parent : Dict String

pub data Outcome : Type 0 where
  done : Search → Outcome
  found : List String → Outcome
  out_of_fuel : Outcome

-- `if cycle: return cycle` after a call of `dfs`
abbrev pub proceed : Outcome → (Search → Outcome) → Outcome
proceed (done s) k = k s
proceed (found c) k = found c
proceed out_of_fuel k = out_of_fuel

abbrev pub enter : String → Search → Search
enter node s = record s {
  visited = set_add node s.visited;
  stack = node ∷ s.stack;
  in_stack = set_add node s.in_stack;
}

abbrev pub pop : List String → List String
pop [] = []
pop (x ∷ st) = st

abbrev pub leave : String → Search → Search
leave node s = record s { stack = pop s.stack; in_stack = set_discard node s.in_stack }

abbrev pub name_or : String → Option String → String
name_or n none = n
name_or n (some p) = p

abbrev pub cons? : String → Option (List String) → Option (List String)
cons? x none = none
cons? x (some xs) = some (x ∷ xs)

-- the loop `while cur != neighbor`, with what it appends
unfoldable pub trace : ℕ → Dict String → String → String → Option (List String)
trace zero parent neighbor cur = none
trace (suc f) parent neighbor cur =
    let rest = cons? cur (trace f parent neighbor (name_or neighbor (lookup cur parent))) in
    ite (dec_string cur neighbor) (some []) rest

-- a neighbor that is on the stack closes a cycle
unfoldable pub close : String → String → Search → Outcome
unfolding trace
close node n s = elim (trace (length s.stack) s.parent n node) [
  | none ↦ out_of_fuel
  | some p ↦ found (n ∷ p)
]

-- the loop of `dfs` over the neighbors; `visit` is `dfs` itself
unfoldable pub scan : (String → Search → Outcome) → String → List String → Search → Outcome
unfolding close
scan visit node [] s = done (leave node s)
scan visit node (n ∷ ns) s =
    let rest = scan visit node ns s in
    elim (member n s.visited) [
      | true ↦ elim (member n s.in_stack) [ true ↦ close node n s | false ↦ rest ]
      | false ↦
          proceed (visit n (record s { parent = insert n node s.parent }))
            (λ s'. scan visit node ns s')
    ]

-- every name in the graph
unfoldable pub graph_names : Dict (List String) → List String
graph_names [] = []
graph_names ((n, ns) ∷ g) = n ∷ (ns ++ graph_names g)

module _ (order : List String → List String) (g : Dict (List String)) where
  -- `graph.get(node, [])`
  abbrev pub neighbors : String → List String
  neighbors node = order (names_of (lookup node g))

  unfoldable pub dfs : ℕ → String → Search → Outcome
  unfolding scan
  dfs zero node s = out_of_fuel
  dfs (suc f) node s = scan (dfs f) node (neighbors node) (enter node s)

  -- the loop over the nodes of the graph
  unfoldable pub roots : ℕ → List String → Search → Outcome
  unfolding dfs
  roots f [] s = done s
  roots f (n ∷ ns) s =
      let rest = roots f ns s in
      elim (member n s.visited) [ true ↦ rest | false ↦ proceed (dfs f n s) (λ s'. roots f ns s') ]

  -- `_find_cycle`, with a call of `dfs` for each name as the depth
  unfoldable pub find_cycle : Outcome
  unfolding roots graph_names
  find_cycle =
      roots (length (graph_names g)) (keys g)
        (record { visited = []; stack = []; in_stack = []; parent = [] })

-- the requests of `candidates`, in their order
unfoldable pub waiting_in : List String → List LockRequest → List LockRequest
waiting_in cycle [] = []
waiting_in cycle (r ∷ q) =
    let rest = waiting_in cycle q in if member r.client_id cycle then r ∷ rest else rest

unfoldable pub candidates : List String → Dict LockState → List LockRequest
unfolding waiting_in
candidates cycle [] = []
candidates cycle ((name, s) ∷ ls) = waiting_in cycle s.queue ++ candidates cycle ls

-- `candidates.sort(key=created_at, reverse=True)`, which keeps the order of equal times
unfoldable pub insert_newest : LockRequest → List LockRequest → List LockRequest
insert_newest r [] = r ∷ []
insert_newest r (q ∷ qs) =
    if leb q.created_at r.created_at then r ∷ q ∷ qs else q ∷ insert_newest r qs

unfoldable pub sort_newest : List LockRequest → List LockRequest
unfolding insert_newest
sort_newest [] = []
sort_newest (r ∷ rs) = insert_newest r (sort_newest rs)

abbrev pub first_id : List LockRequest → Option String
first_id [] = none
first_id (r ∷ rs) = some r.request_id

-- How `find_deadlock_victim` ends: `victim none` is its None.
pub data Verdict : Type 0 where
  victim : Option String → Verdict
  no_verdict : Verdict

unfoldable pub find_deadlock_victim : (List String → List String) → Dict LockState → Verdict
unfolding find_cycle wait_graph candidates sort_newest
find_deadlock_victim order ls = elim (find_cycle order (wait_graph ls [])) [
  | done s ↦ victim none
  | found c ↦ victim (first_id (sort_newest (candidates c ls)))
  | out_of_fuel ↦ no_verdict
]
