-- ===== src/LockManager/Deadlock/Tests.antt =====
-- Two locks and three clients, of which two wait for each other: the theorems at concrete inputs.
use sinkronisasi_dan_distrib.Base.{
  ℕ, String, ◌≡◌, refl, none, some, List, [], ◌∷◌, Dict, lookup, insert, member, set_add,
  set_discard, dec_string,
}
use sinkronisasi_dan_distrib.LockManager.{exclusive, LockRequest, LockState}
use sinkronisasi_dan_distrib.LockManager.Deadlock.{
  add_all, add_waiters, wait_graph, trace, close, scan, graph_names, dfs, roots, find_cycle,
  waiting_in, candidates, insert_newest, sort_newest, victim, found, find_deadlock_victim,
}
use sinkronisasi_dan_distrib.LockManager.Deadlock.Graph.{edge}
use sinkronisasi_dan_distrib.LockManager.Deadlock.Find.{Answers, find_cycle-Answers}
use sinkronisasi_dan_distrib.LockManager.Deadlock.Victim.{Judges, find_deadlock_victim-Judges}

program : Unit {0}
unfolding lookup insert member set_add set_discard dec_string add_all add_waiters wait_graph trace
    close scan graph_names dfs roots find_cycle waiting_in candidates insert_newest sort_newest
    find_deadlock_victim
program = tt

abbrev request : String → String → String → ℕ → LockRequest
request id lock client time = record {
  request_id = id;
  lock_name = lock;
  client_id = client;
  mode = exclusive;
  created_at = time;
  ttl_ms = none;
}

abbrev lock : String → List LockRequest → LockState
lock holder queue = record {
  holders = (holder, exclusive) ∷ [];
  holder_expiry = (holder, none) ∷ [];
  queue = queue;
}

-- "a" and "b" wait for each other, and "c" for "a"
abbrev locks : Dict LockState
locks =
    ("l", lock "a" (request "r3" "l" "c" 9 ∷ request "r1" "l" "b" 5 ∷ []))
    ∷ ("m", lock "b" (request "r2" "m" "a" 7 ∷ []))
    ∷ []

abbrev in_order : List String → List String
in_order ns = ns

the_cycle : find_cycle in_order (wait_graph locks []) ≡ found ("a" ∷ "b" ∷ [])
unfolding program
the_cycle = refl

the_victim : find_deadlock_victim in_order locks ≡ victim (some "r2")
unfolding program
the_victim = refl

find_cycle-Answers_example :
    Answers (edge (wait_graph locks [])) (find_cycle in_order (wait_graph locks []))
find_cycle-Answers_example = find_cycle-Answers in_order (wait_graph locks []) (λ x ns. refl)

find_deadlock_victim-Judges_example : Judges locks (find_deadlock_victim in_order locks)
find_deadlock_victim-Judges_example = find_deadlock_victim-Judges in_order locks (λ x ns. refl)
