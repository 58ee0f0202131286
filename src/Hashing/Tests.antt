-- ===== src/Hashing/Tests.antt =====
-- A ring of three nodes with one replica each: the theorems at concrete inputs.
use sinkronisasi_dan_distrib.Base.{
  ℕ, ℕ_discrete, String, ◌≡◌, refl, some, [], ◌∷◌, ite, dec_string, member, take, ◌++◌,
}
use sinkronisasi_dan_distrib.Hashing.{
  ConsistentHashRing, init, set_nodes, add_nodes, add_replicas, add_key, set_node, node_at,
  sort_asc, insert_asc, bisect_right, wrap, node_of_index, get_node, collect, get_nodes,
}
use sinkronisasi_dan_distrib.Hashing.Lookup.{Owner, get_node-Owner}
use sinkronisasi_dan_distrib.Hashing.Walk.{first_seen, nodes_onto, get_nodes-walk}
use sinkronisasi_dan_distrib.Hashing.Rotation.{above, upto}
use sinkronisasi_dan_distrib.Hashing.Replicas.{IsChoice, get_nodes-IsChoice}

program : Unit {0}
unfolding dec_string ℕ_discrete member init set_nodes add_nodes add_replicas add_key set_node
    node_at sort_asc insert_asc bisect_right wrap node_of_index get_node collect get_nodes
program = tt

abbrev hash : String → ℕ
hash s =
    ite (dec_string s "a") 30
      (ite (dec_string s "b") 10 (ite (dec_string s "c") 20 (ite (dec_string s "jobs") 15 40)))

abbrev label : String → ℕ → String
label node replica = node

abbrev ring : ConsistentHashRing
unfolding program
ring = init hash label ("a" ∷ "b" ∷ "c" ∷ []) 1

jobs_node : get_node hash ring "jobs" ≡ some "c"
unfolding program
jobs_node = refl

last_node : get_node hash ring "mail" ≡ some "b"
unfolding program
last_node = refl

jobs_nodes : get_nodes hash ring "jobs" 2 ≡ "c" ∷ "a" ∷ []
unfolding program
jobs_nodes = refl

get_node-Owner_example :
    Owner hash label ("a" ∷ "b" ∷ "c" ∷ []) (init hash label ("a" ∷ "b" ∷ "c" ∷ []) 1) "jobs"
get_node-Owner_example = get_node-Owner hash label "a" ("b" ∷ "c" ∷ []) 0 "jobs"

get_nodes-IsChoice_example : IsChoice 2 (get_nodes hash ring "jobs" 2)
get_nodes-IsChoice_example = get_nodes-IsChoice hash ring "jobs" 2

get_nodes-walk_example :
    let r = init hash label ("a" ∷ "b" ∷ "c" ∷ []) 1 in
    get_nodes hash r "jobs" 2
    ≡ take 2 (
        first_seen []
          (nodes_onto r (above (hash "jobs") r.sorted_keys ++ upto (hash "jobs") r.sorted_keys) []))
get_nodes-walk_example = get_nodes-walk hash label ("a" ∷ "b" ∷ "c" ∷ []) 1 "jobs" 2
