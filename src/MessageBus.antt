-- ===== src/MessageBus.antt =====
-- src/communication/message_passing.py: `MessageBus`, with `handle_partition` of
-- src/nodes/base_node.py. `request` is what `request_json` returns for a peer.
pub mod Partition
mod Tests
use sinkronisasi_dan_distrib.Base.{
  ℕ, String, Bool, true, false, Option, none, some, List, [], ◌∷◌, Dict, lookup, insert,
  if◌then◌else◌, ltb, member, set_add, set_discard,
}

pub record PeerInfo : Type 0 where
  pub node_id : String
  pub url : String

pub record MessageBus : Type 0 where
  pub peers : Dict PeerInfo
  pub blocked_peers : List String

-- A dictionary with the key "ok": the status and the data of an answer, or an error.
pub data Reply (D : Type 0) : Type 0 where
  replied : ℕ → D → Reply D
  failed partitioned unknown_peer : Reply D

unfoldable pub peers_by_id : List PeerInfo → Dict PeerInfo → Dict PeerInfo
peers_by_id [] d = d
peers_by_id (p ∷ ps) d = peers_by_id ps (insert p.node_id p d)

unfoldable pub init : List PeerInfo → MessageBus
unfolding peers_by_id
init ps = record { peers = peers_by_id ps []; blocked_peers = [] }

unfoldable pub set_peers : List PeerInfo → MessageBus → MessageBus
unfolding peers_by_id
set_peers ps b = record b { peers = peers_by_id ps [] }

unfoldable pub block_peer : String → MessageBus → MessageBus
block_peer p b = record b { blocked_peers = set_add p b.blocked_peers }

unfoldable pub unblock_peer : String → MessageBus → MessageBus
unblock_peer p b = record b { blocked_peers = set_discard p b.blocked_peers }

unfoldable pub is_blocked : String → MessageBus → Bool
is_blocked p b = member p b.blocked_peers

unfoldable pub block_each : List String → MessageBus → MessageBus
unfolding block_peer
block_each [] b = b
block_each (p ∷ ps) b = block_each ps (block_peer p b)

unfoldable pub unblock_each : List String → MessageBus → MessageBus
unfolding unblock_peer
unblock_each [] b = b
unblock_each (p ∷ ps) b = unblock_each ps (unblock_peer p b)

-- `handle_partition`, with the set that it returns
unfoldable pub handle_partition : List String → List String → MessageBus → MessageBus × List String
unfolding block_each unblock_each
handle_partition block unblock b =
    let b' = unblock_each unblock (block_each block b) in (b', b'.blocked_peers)

module _ {D : Type 0} where
  -- `res["ok"]`
  unfoldable pub ok : Reply D → Bool
  ok (replied status answer) = ltb status 400
  ok failed = false
  ok partitioned = false
  ok unknown_peer = false

  unfoldable pub send_json : (PeerInfo → Reply D) → String → MessageBus → Reply D
  unfolding is_blocked
  send_json request peer_id b =
      if is_blocked peer_id b
      then partitioned
      else elim (lookup peer_id b.peers) [ none ↦ unknown_peer | some peer ↦ request peer ]

  unfoldable pub broadcast_to : (PeerInfo → Reply D) → Dict PeerInfo → MessageBus → Dict (Reply D)
  unfolding send_json
  broadcast_to request [] b = []
  broadcast_to request ((peer_id, peer) ∷ ps) b =
      (peer_id, send_json request peer_id b) ∷ broadcast_to request ps b

  unfoldable pub broadcast : (PeerInfo → Reply D) → MessageBus → Dict (Reply D)
  unfolding broadcast_to
  broadcast request b = broadcast_to request b.peers b
