-- ===== src/Hashing/Lookup.antt =====
-- `get_node`: the node of a key.
use sinkronisasi_dan_distrib.Base.{
  ℕ, zero, suc, String, ◌≡◌, refl, sym, subst, ap, ◌∙◌, inl, inr, true, is_some, Option, none, some,
  List, [], ◌∷◌, if◌then◌else◌, member, arith, Option-cases, get_elem?, is_empty,
}
use sinkronisasi_dan_distrib.Hashing.{
  ConsistentHashRing, node_at, bisect_right, wrap, add_key, add_replicas, add_nodes, set_nodes,
  init, node_of_index, get_node,
}
use sinkronisasi_dan_distrib.Hashing.Sorted.{
  Selects, has, IsSorted, has-append_one, has-sort_asc, selected,
}
use sinkronisasi_dan_distrib.Hashing.Ring.{IsRing, init-IsRing}

module _ (hash : String → ℕ) (label : String → ℕ → String) where
  -- The node that a ring gives a key: one of the nodes, at the ring key that the hash selects.
  pub record Owner (ns : List String) (r : ConsistentHashRing) (key : String) : Type 0 where
    pub node : String
    pub at : ℕ
    pub result : get_node hash r key ≡ some node
    pub owns : node_at at r.ring ≡ some node
    pub selects : Selects r.sorted_keys (hash key) at
    pub is_node : member node ns ≡ true

  -- keys stay when others are added
  has-add_replicas :
      (k : ℕ) (n : String) (i left : ℕ) (r : ConsistentHashRing)
      → has k r.sorted_keys ≡ true
      → has k (add_replicas hash label n i left r).sorted_keys ≡ true
  unfolding add_replicas add_key
  has-add_replicas k n i zero r h = h
  has-add_replicas k n i (suc left) r h =
      has-add_replicas k n (suc i) left (add_key hash label n i r)
        (ground (arith, has-append_one k (hash (label n i)) r.sorted_keys))

  has-add_nodes :
      (k : ℕ) (ns : List String) (r : ConsistentHashRing)
      → has k r.sorted_keys ≡ true
      → has k (add_nodes hash label ns r).sorted_keys ≡ true
  unfolding add_nodes
  has-add_nodes k [] r h = h
  has-add_nodes k (n ∷ ns) r h =
      has-add_nodes k ns (add_replicas hash label n 0 r.replicas r)
        (has-add_replicas k n 0 r.replicas r h)

  first_key :
      (n : String) (ns : List String) (replicas : ℕ)
      → has (hash (label n 0)) (init hash label (n ∷ ns) (suc replicas)).sorted_keys ≡ true
  unfolding init set_nodes add_nodes add_replicas add_key
  first_key n ns replicas =
      let r₀ : ConsistentHashRing = record {
        replicas = suc replicas;
        ring = [];
        sorted_keys = [];
      } in
      has-sort_asc (hash (label n 0)) (add_nodes hash label (n ∷ ns) r₀).sorted_keys
      ∙ has-add_nodes (hash (label n 0)) ns (add_replicas hash label n 0 (suc replicas) r₀) (
          has-add_replicas (hash (label n 0)) n 1 replicas (add_key hash label n 0 r₀)
            (ground arith))

  node_found :
      (r : ConsistentHashRing) (key : String) (i : ℕ) (ks : List ℕ) (k : ℕ)
      → r.sorted_keys ≡ i ∷ ks
      → get_elem? (i ∷ ks) (wrap (bisect_right (i ∷ ks) (hash key)) (i ∷ ks)) ≡ some k
      → get_node hash r key ≡ node_at k r.ring
  unfolding get_node node_of_index
  node_found r key i ks k e found =
      ap
        (λ (x : List ℕ).
          if is_empty x
          then none
          else node_of_index (record r { sorted_keys = x }) (wrap (bisect_right x (hash key)) x))
        e
      ∙ ap at_key found
    where
      at_key : Option ℕ → Option String
      at_key none = none
      at_key (some j) = node_at j r.ring

  keyed-Owner :
      (ns : List String) (r : ConsistentHashRing) (key : String) (ks : List ℕ) (k : ℕ)
      → IsRing ns r
      → r.sorted_keys ≡ ks
      → has k ks ≡ true
      → Owner ns r key
  keyed-Owner ns r key [] k v e h = absurd (ground arith)
  keyed-Owner ns r key (i ∷ ks) k v e h =
      let (at, found, there, sel) = selected i ks (hash key) (subst IsSorted e v.sorted) in
      let (n, owns) = node_of at (v.keyed.backed at (ap (has at) e ∙ there)) in
      record {
        node = n;
        at = at;
        result = node_found r key i ks at e found ∙ owns;
        owns = owns;
        selects = subst (λ x. Selects x (hash key) at) (sym e) sel;
        is_node = v.keyed.owners at n owns;
      }
    where
      node_of :
          (at : ℕ)
          → is_some (node_at at r.ring) ≡ true
          → (n : String) × (node_at at r.ring ≡ some n)
      node_of at h = elim (Option-cases (node_at at r.ring)) [
        | inl missing ↦ absurd (ground arith)
        | inr (n, there) ↦ (n, there)
      ]

  -- On a ring of at least one node and replica, a key has a node: one of the nodes given, at the
  -- least ring key above the hash of the key, or where there is none at the least ring key.
  pub get_node-Owner :
      (n : String) (ns : List String) (replicas : ℕ) (key : String)
      → Owner (n ∷ ns) (init hash label (n ∷ ns) (suc replicas)) key
  get_node-Owner n ns replicas key =
      keyed-Owner (n ∷ ns) (init hash label (n ∷ ns) (suc replicas)) key
        (init hash label (n ∷ ns) (suc replicas)).sorted_keys (hash (label n 0))
        (init-IsRing hash label (n ∷ ns) (suc replicas)) refl (first_key n ns replicas)
