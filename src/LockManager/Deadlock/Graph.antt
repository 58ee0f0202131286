-- ===== src/LockManager/Deadlock/Graph.antt =====
-- The wait graph: its edges are the clients that wait and the holders of what they wait for.
use sinkronisasi_dan_distrib.Base.{
  String, ◌≡◌, refl, Bool, true, false, ◌&&◌, ◌||◌, List, [], ◌∷◌, Dict, lookup, insert,
  lookup-insert, ite, dec_string, member, set_add, member-set_add, keys, arith, contains,
  member-keys,
}
use sinkronisasi_dan_distrib.LockManager.{LockRequest, LockState}
use sinkronisasi_dan_distrib.LockManager.Deadlock.{names_of, add_all, add_waiters, wait_graph}

-- a client of the queue
abbrev pub queued : String → List LockRequest → Bool
queued a [] = false
queued a (r ∷ q) = let rest = queued a q in ite (dec_string r.client_id a) true rest

-- `a` is in the queue of a lock that `b` holds
abbrev pub waits_for : Dict LockState → String → String → Bool
waits_for [] a b = false
waits_for ((name, s) ∷ ls) a b =
    let rest = waits_for ls a b in (queued a s.queue && contains b s.holders) || rest

abbrev pub edge : Dict (List String) → String → String → Bool
edge g a b = member b (names_of (lookup a g))

member-add_all :
    (x : String) (ns s : List String) → member x (add_all ns s) ≡ (member x ns || member x s)
unfolding add_all member
member-add_all x [] s = refl
member-add_all x (n ∷ ns) s =
    ground (arith, member-add_all x ns (set_add n s), member-set_add n x s)

edge-add_waiters :
    (holders : List String) (q : List LockRequest) (g : Dict (List String)) (a b : String)
    → edge (add_waiters holders q g) a b ≡ ((queued a q && member b holders) || edge g a b)
unfolding add_waiters
edge-add_waiters holders [] g a b = refl
edge-add_waiters holders (r ∷ q) g a b =
    let ns = add_all holders (names_of (lookup r.client_id g)) in
    ground (
      arith,
      edge-add_waiters holders q (insert r.client_id ns g) a b,
      lookup-insert r.client_id a ns g,
      member-add_all b holders (names_of (lookup r.client_id g)),
    )

edge-wait_graph_from :
    (ls : Dict LockState) (g : Dict (List String)) (a b : String)
    → edge (wait_graph ls g) a b ≡ (waits_for ls a b || edge g a b)
unfolding wait_graph
edge-wait_graph_from [] g a b = refl
edge-wait_graph_from ((name, s) ∷ ls) g a b = ground (
  arith,
  edge-wait_graph_from ls (add_waiters (keys s.holders) s.queue g) a b,
  edge-add_waiters (keys s.holders) s.queue g a b,
  member-keys b s.holders,
)

-- the graph has an edge exactly where a client waits for another
pub edge-wait_graph :
    (ls : Dict LockState) (a b : String) → edge (wait_graph ls []) a b ≡ waits_for ls a b
unfolding lookup member
edge-wait_graph ls a b = ground (arith, edge-wait_graph_from ls [] a b)
