-- ===== src/Hashing/Ring.antt =====
-- `set_nodes`: the keys of a ring and their nodes.
use sinkronisasi_dan_distrib.Base.{
  ℕ, zero, suc, String, ◌≡◌, refl, sym, ◌∙◌, true, is_some, some, List, [], ◌∷◌, ite, member, arith,
  ℕ_discrete,
}
use sinkronisasi_dan_distrib.Hashing.{
  ConsistentHashRing, node_at, set_node, add_key, add_replicas, add_nodes, set_nodes, init,
}
use sinkronisasi_dan_distrib.Hashing.Sorted.{
  has, IsSorted, has-append_one, has-sort_asc, sort_asc-IsSorted,
}

lookup-set_node :
    (k j : ℕ) (n : String) (r : List (ℕ × String))
    → node_at j (set_node k n r) ≡ ite (ℕ_discrete k j) (some n) (node_at j r)
unfolding node_at set_node
lookup-set_node k j n [] = refl
lookup-set_node k j n ((i, m) ∷ r) = ground (arith, lookup-set_node k j n r)

-- Each key has a node, and each node of the ring is one of those given.
pub record IsBacked (ns : List String) (r : ConsistentHashRing) : Type 0 where
  pub backed : (k : ℕ) → has k r.sorted_keys ≡ true → is_some (node_at k r.ring) ≡ true
  pub owners : (k : ℕ) (n : String) → node_at k r.ring ≡ some n → member n ns ≡ true

-- A ring of some nodes: its keys are sorted, each has a node, and each node is one of those given.
pub record IsRing (ns : List String) (r : ConsistentHashRing) : Type 0 where
  pub sorted : IsSorted r.sorted_keys
  pub keyed : IsBacked ns r

module _ (hash : String → ℕ) (label : String → ℕ → String) where
  add_key-IsBacked :
      (ns : List String) (n : String) (i : ℕ) (r : ConsistentHashRing)
      → member n ns ≡ true
      → IsBacked ns r
      → IsBacked ns (add_key hash label n i r)
  unfolding add_key
  add_key-IsBacked ns n i r h b = record {
    backed = λ k e. ground (
      arith,
      has-append_one k (hash (label n i)) r.sorted_keys,
      lookup-set_node (hash (label n i)) k n r.ring,
      b.backed k,
    );
    owners = λ k m e. ground (arith, lookup-set_node (hash (label n i)) k n r.ring, b.owners k m);
  }

  add_replicas-IsBacked :
      (ns : List String) (n : String) (i left : ℕ) (r : ConsistentHashRing)
      → member n ns ≡ true
      → IsBacked ns r
      → IsBacked ns (add_replicas hash label n i left r)
  unfolding add_replicas
  add_replicas-IsBacked ns n i zero r h b = b
  add_replicas-IsBacked ns n i (suc left) r h b =
      add_replicas-IsBacked ns n (suc i) left (add_key hash label n i r) h
        (add_key-IsBacked ns n i r h b)

  add_nodes-IsBacked :
      (ns ms : List String) (r : ConsistentHashRing)
      → ((n : String) → member n ms ≡ true → member n ns ≡ true)
      → IsBacked ns r
      → IsBacked ns (add_nodes hash label ms r)
  unfolding add_nodes member
  add_nodes-IsBacked ns [] r h b = b
  add_nodes-IsBacked ns (m ∷ ms) r h b =
      add_nodes-IsBacked ns ms (add_replicas hash label m 0 r.replicas r)
        (λ n e. h n (ground arith))
        (add_replicas-IsBacked ns m 0 r.replicas r (h m (ground arith)) b)

  start-IsBacked :
      (ns : List String) (replicas : ℕ)
      → IsBacked ns (record { replicas = replicas; ring = []; sorted_keys = [] })
  unfolding node_at
  start-IsBacked ns replicas = record {
    backed = λ k e. absurd (ground arith);
    owners = λ k n e. absurd (ground arith);
  }

  pub init-IsRing : (ns : List String) (replicas : ℕ) → IsRing ns (init hash label ns replicas)
  unfolding init set_nodes
  init-IsRing ns replicas =
      let full =
        add_nodes hash label ns (record { replicas = replicas; ring = []; sorted_keys = [] }) in
      let b = add_nodes-IsBacked ns ns _ (λ n e. e) (start-IsBacked ns replicas) in
      record {
        sorted = sort_asc-IsSorted full.sorted_keys;
        keyed = record {
          backed = λ k e. b.backed k (sym (has-sort_asc k full.sorted_keys) ∙ e);
          owners = b.owners;
        };
      }
