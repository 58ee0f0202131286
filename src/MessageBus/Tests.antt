-- ===== src/MessageBus/Tests.antt =====
-- A bus with two peers: the theorem at concrete inputs.
use mathlib.Core.Option
use sinkronisasi_dan_distrib.Base.{ℕ, ◌≡◌, false, ◌||◌, [], ◌∷◌, lookup, member, if◌then◌else◌}
use sinkronisasi_dan_distrib.MessageBus.{
  PeerInfo, MessageBus, Reply, replied, partitioned, is_blocked, init, handle_partition, broadcast,
}
use sinkronisasi_dan_distrib.MessageBus.Partition.{partition-broadcast}

abbrev bus : MessageBus
bus =
    init
      (record { node_id = "a"; url = "http://a" } ∷ record { node_id = "b"; url = "http://b" } ∷ [])

abbrev answer : PeerInfo → Reply ℕ
answer peer = replied 200 7

partition-broadcast_example :
    lookup "a" (broadcast answer (handle_partition ("a" ∷ "b" ∷ []) ("b" ∷ []) bus).0)
    ≡ Option.map
        (λ peer.
          if (if member "a" ("b" ∷ [])
            then false
            else member "a" ("a" ∷ "b" ∷ []) || is_blocked "a" bus)
          then partitioned
          else answer peer)
        (lookup "a" bus.peers)
partition-broadcast_example = partition-broadcast answer ("a" ∷ "b" ∷ []) ("b" ∷ []) bus "a"
