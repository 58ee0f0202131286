-- ===== src/Hashing.antt =====
-- src/utils/hashing.py: `ConsistentHashRing`. `hash` is `_hash`, the SHA-1 of a string as a number, and
-- `label node replica` is the string that `set_nodes` hashes for a replica of a node.
pub mod Sorted
pub mod Ring
pub mod Lookup
pub mod Replicas
pub mod Rotation
pub mod Walk
mod Tests
use sinkronisasi_dan_distrib.Base.{
  ℕ, zero, suc, ◌+◌, ◌%◌, String, Bool, true, false, Option, none, some, List, [], ◌∷◌, ◌++◌, ite,
  map, if◌then◌else◌, ltb, leb, length, member, ℕ_discrete, get_elem?, is_empty, dec_string,
}

-- `ring` is the dictionary from a key to its node.
pub record ConsistentHashRing : Type 0 where
  pub replicas : ℕ
  pub ring : List (ℕ × String)
  pub sorted_keys : List ℕ

unfoldable pub node_at : ℕ → List (ℕ × String) → Option String
node_at k [] = none
node_at k ((j, n) ∷ r) = ite (ℕ_discrete j k) (some n) (node_at k r)

unfoldable pub set_node : ℕ → String → List (ℕ × String) → List (ℕ × String)
set_node k n [] = (k, n) ∷ []
set_node k n ((j, m) ∷ r) = ite (ℕ_discrete j k) ((j, n) ∷ r) ((j, m) ∷ set_node k n r)

-- `sorted_keys.sort()`
unfoldable pub insert_asc : ℕ → List ℕ → List ℕ
insert_asc k [] = k ∷ []
insert_asc k (j ∷ ks) = if leb k j then k ∷ j ∷ ks else j ∷ insert_asc k ks

unfoldable pub sort_asc : List ℕ → List ℕ
unfolding insert_asc
sort_asc [] = []
sort_asc (k ∷ ks) = insert_asc k (sort_asc ks)

-- `bisect.bisect_right` on a sorted list: the number of keys up to and with the last one that is not
-- greater
unfoldable pub bisect_right : List ℕ → ℕ → ℕ
bisect_right [] h = zero
bisect_right (k ∷ ks) h = let rest = bisect_right ks h in if ltb h k then zero else suc rest

-- `index == len(...)` starts again at 0
unfoldable pub wrap : ℕ → List ℕ → ℕ
wrap index ks = ite (ℕ_discrete index (length ks)) zero index

-- the node of the key at an index
unfoldable pub node_of_index : ConsistentHashRing → ℕ → Option String
node_of_index r i = elim (get_elem? r.sorted_keys i) [ none ↦ none | some k ↦ node_at k r.ring ]

-- the loop of `get_nodes`, for the offsets that are left; `seen` and `result` hold the same nodes
unfoldable pub collect : ConsistentHashRing → ℕ → ℕ → ℕ → ℕ → List String → List String
unfolding node_of_index
collect r index count offset zero result = result
collect r index count offset (suc left) result =
    let next : List String = elim (node_of_index r ((index + offset) % length r.sorted_keys)) [
      | none ↦ result
      | some n ↦ if member n result then result else result ++ n ∷ []
    ] in
    let rest = collect r index count (suc offset) left next in
    if leb count (length next) then next else rest

module _ (hash : String → ℕ) (label : String → ℕ → String) where
  unfoldable pub add_key : String → ℕ → ConsistentHashRing → ConsistentHashRing
  unfolding set_node
  add_key node replica r =
      let key = hash (label node replica) in
      record r { ring = set_node key node r.ring; sorted_keys = r.sorted_keys ++ key ∷ [] }

  -- the loop over the replicas of a node, for those that are left
  unfoldable pub add_replicas : String → ℕ → ℕ → ConsistentHashRing → ConsistentHashRing
  unfolding add_key
  add_replicas node replica zero r = r
  add_replicas node replica (suc left) r =
      add_replicas node (suc replica) left (add_key node replica r)

  unfoldable pub add_nodes : List String → ConsistentHashRing → ConsistentHashRing
  unfolding add_replicas
  add_nodes [] r = r
  add_nodes (n ∷ ns) r = add_nodes ns (add_replicas n 0 r.replicas r)

  unfoldable pub set_nodes : List String → ConsistentHashRing → ConsistentHashRing
  unfolding add_nodes sort_asc
  set_nodes nodes r =
      let full = add_nodes nodes (record r { ring = []; sorted_keys = [] }) in
      record full { sorted_keys = sort_asc full.sorted_keys }

  unfoldable pub init : List String → ℕ → ConsistentHashRing
  unfolding set_nodes
  init nodes replicas =
      set_nodes nodes (record { replicas = replicas; ring = []; sorted_keys = [] })

module _ (hash : String → ℕ) where
  unfoldable pub get_node : ConsistentHashRing → String → Option String
  unfolding wrap bisect_right node_of_index
  get_node r key =
      if is_empty r.sorted_keys
      then none
      else node_of_index r (wrap (bisect_right r.sorted_keys (hash key)) r.sorted_keys)

  -- a count that is not positive gives no node
  unfoldable pub get_nodes : ConsistentHashRing → String → ℕ → List String
  unfolding wrap bisect_right collect
  get_nodes r key zero = []
  get_nodes r key (suc c) =
      if is_empty r.sorted_keys
      then []
      else collect r (wrap (bisect_right r.sorted_keys (hash key)) r.sorted_keys) (suc c) 0
          (length r.sorted_keys) []
