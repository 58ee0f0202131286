-- ===== src/MessageBus/Partition.antt =====
-- A partition: who is blocked after it, and what a broadcast gets from whom.
use mathlib.Core.Option
use sinkronisasi_dan_distrib.Base.{
  String, ◌≡◌, refl, ap, ◌∙◌, inl, inr, false, ◌||◌, List, [], ◌∷◌, Dict, lookup, if◌then◌else◌,
  member, set_add, set_discard, member-set_add, member-set_discard, arith, Option-cases,
}
use sinkronisasi_dan_distrib.MessageBus.{
  PeerInfo, MessageBus, Reply, partitioned, block_peer, unblock_peer, is_blocked, block_each,
  unblock_each, handle_partition, send_json, broadcast_to, broadcast,
}

block_each-blocked :
    (p : String) (ps : List String) (b : MessageBus)
    → is_blocked p (block_each ps b) ≡ (member p ps || is_blocked p b)
unfolding is_blocked block_each block_peer member
block_each-blocked p [] b = refl
block_each-blocked p (x ∷ ps) b = ground (
  arith,
  block_each-blocked p ps (record b { blocked_peers = set_add x b.blocked_peers }),
  member-set_add x p b.blocked_peers,
)

unblock_each-blocked :
    (p : String) (ps : List String) (b : MessageBus)
    → is_blocked p (unblock_each ps b) ≡ (if member p ps then false else is_blocked p b)
unfolding is_blocked unblock_each unblock_peer member
unblock_each-blocked p [] b = refl
unblock_each-blocked p (x ∷ ps) b = ground (
  arith,
  unblock_each-blocked p ps (record b { blocked_peers = set_discard x b.blocked_peers }),
  member-set_discard x p b.blocked_peers,
)

peers-block_each : (ps : List String) (b : MessageBus) → (block_each ps b).peers ≡ b.peers
unfolding block_each block_peer
peers-block_each [] b = refl
peers-block_each (x ∷ ps) b = peers-block_each ps (block_peer x b)

peers-unblock_each : (ps : List String) (b : MessageBus) → (unblock_each ps b).peers ≡ b.peers
unfolding unblock_each unblock_peer
peers-unblock_each [] b = refl
peers-unblock_each (x ∷ ps) b = peers-unblock_each ps (unblock_peer x b)

partition-blocked :
    (block unblock : List String) (b : MessageBus) (p : String)
    → is_blocked p (handle_partition block unblock b).0
      ≡ (if member p unblock then false else member p block || is_blocked p b)
unfolding handle_partition
partition-blocked block unblock b p =
    unblock_each-blocked p unblock (block_each block b)
    ∙ ap (λ x. if member p unblock then false else x) (block_each-blocked p block b)

partition-peers :
    (block unblock : List String) (b : MessageBus)
    → (handle_partition block unblock b).0.peers ≡ b.peers
unfolding handle_partition
partition-peers block unblock b =
    peers-unblock_each unblock (block_each block b) ∙ peers-block_each block b

module _ {D : Type 0} where
  broadcast_to-lookup :
      (request : PeerInfo → Reply D) (ps : Dict PeerInfo) (b : MessageBus) (p : String)
      → lookup p (broadcast_to request ps b) ≡ Option.map (λ _. send_json request p b) (lookup p ps)
  unfolding broadcast_to lookup
  broadcast_to-lookup request [] b p = refl
  broadcast_to-lookup request ((q, x) ∷ ps) b p = ground (arith, broadcast_to-lookup request ps b p)

  -- what a broadcast has for a peer
  pub broadcast-lookup :
      (request : PeerInfo → Reply D) (b : MessageBus) (p : String)
      → lookup p (broadcast request b)
        ≡ Option.map
            (λ peer. if is_blocked p b then partitioned else request peer)
            (lookup p b.peers)
  unfolding broadcast send_json
  broadcast-lookup request b p = elim (Option-cases (lookup p b.peers)) [
    | inl missing ↦ broadcast_to-lookup request b.peers b p ∙ rw missing refl
    | inr (x, there) ↦ broadcast_to-lookup request b.peers b p ∙ rw (there, send_json) refl
  ]

  -- After a partition, a broadcast has an entry for each peer of the bus and no other: "partitioned"
  -- where the peer is blocked, that is where the partition does not unblock it and either blocks it
  -- or it was blocked, and else what the request to the peer returned.
  pub partition-broadcast :
      (request : PeerInfo → Reply D) (block unblock : List String) (b : MessageBus) (p : String)
      → lookup p (broadcast request (handle_partition block unblock b).0)
        ≡ Option.map
            (λ peer.
              if (if member p unblock then false else member p block || is_blocked p b)
              then partitioned
              else request peer)
            (lookup p b.peers)
  partition-broadcast request block unblock b p =
      let b' = (handle_partition block unblock b).0 in
      broadcast-lookup request b' p
      ∙ ap (λ x. Option.map (λ peer. if x then partitioned else request peer) (lookup p b'.peers))
          (partition-blocked block unblock b p)
      ∙ ap
          (λ d.
            Option.map
              (λ peer.
                if (if member p unblock then false else member p block || is_blocked p b)
                then partitioned
                else request peer)
              (lookup p d))
          (partition-peers block unblock b)
