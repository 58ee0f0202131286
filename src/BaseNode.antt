-- ===== src/BaseNode.antt =====
-- src/nodes/base_node.py: `BaseNode`, what its endpoints tell; and src/main.py: which node a role
-- starts. The partition endpoint stands with the message bus, and the metrics in a module of their own.
mod Tests
use sinkronisasi_dan_distrib.Base.{
  String, Bool, Option, none, some, List, [], ◌∷◌, Dict, lookup, map, dec_string, ite,
}
use sinkronisasi_dan_distrib.MessageBus.{PeerInfo, MessageBus, peers_by_id, init as bus_init}
use sinkronisasi_dan_distrib.FailureDetector.{FailureDetector, init as detector_init}
use sinkronisasi_dan_distrib.Config.{NodeConfig}

pub record BaseNode : Type 0 where
  pub node_id : String
  pub role : String
  pub peers : List PeerInfo
  pub by_id : Dict PeerInfo
  pub message_bus : MessageBus
  pub failure_detector : FailureDetector

unfoldable pub init : {I : Type 0} → NodeConfig I → BaseNode
unfolding peers_by_id
init config = record {
  node_id = config.node_id;
  role = config.role;
  peers = config.peers;
  by_id = peers_by_id config.peers [];
  message_bus = bus_init config.peers;
  failure_detector = detector_init config.peers;
}

pub record Health : Type 0 where
  pub status : String
  pub node_id : String
  pub role : String

unfoldable pub handle_health : BaseNode → Health
handle_health n = record { status = "ok"; node_id = n.node_id; role = n.role }

-- `alive` is `none` where it is a JSON null
pub record PeerStatus : Type 0 where
  pub id : String
  pub url : String
  pub alive : Option Bool

abbrev pub snapshot : FailureDetector → Dict Bool
snapshot fd = fd.status

unfoldable pub handle_peers : BaseNode → List PeerStatus
handle_peers n =
    map
      (λ p. record {
        id = p.node_id;
        url = p.url;
        alive = lookup p.node_id (snapshot n.failure_detector);
      })
      n.peers

-- the node and its role
unfoldable pub handle_state : BaseNode → String × String
handle_state n = (n.node_id, n.role)

unfoldable pub get_peer : String → BaseNode → Option PeerInfo
get_peer p n = lookup p n.by_id

-- the classes of nodes that `main` starts
pub data NodeClass : Type 0 where
  lock_manager queue_node cache_node : NodeClass

-- `none` is the ValueError of an unknown role
unfoldable pub choose_class : String → Option NodeClass
choose_class role = ite (dec_string role "lock_manager") (some lock_manager) (
    ite (dec_string role "queue_node") (some queue_node)
      (ite (dec_string role "cache_node") (some cache_node) none))
