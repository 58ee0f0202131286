-- ===== src/BaseNode/Tests.antt =====
-- A node read from an environment, and the roles.
use Prim.Native.Char.{Char, code}
use sinkronisasi_dan_distrib.Base.{
  ℕ, String, ◌≡◌, refl, Bool, true, Option, none, some, List, [], ◌∷◌, lookup, insert, dec_string,
  ◌==◌, ite,
}
use sinkronisasi_dan_distrib.MessageBus.{peers_by_id, init as bus_init}
use sinkronisasi_dan_distrib.FailureDetector.{all_true, init as detector_init}
use sinkronisasi_dan_distrib.Config.{
  PeerItem, NodeConfig, split_on, split_once, lstrip, rstrip, strip, part_peer, part_peers,
  parse_stripped, parse_peers, parse_int, getenv, load_config,
}
use sinkronisasi_dan_distrib.BaseNode.{init, PeerStatus, handle_peers, lock_manager, choose_class}

program : Unit {0}
unfolding lookup insert dec_string peers_by_id bus_init all_true detector_init split_on split_once
    lstrip rstrip strip part_peer part_peers parse_stripped parse_peers parse_int getenv load_config
    init handle_peers choose_class
program = tt

abbrev is_space : Char → Bool
is_space c = code c == 32

abbrev environ : String → Option String
unfolding dec_string
environ name = ite (dec_string name "PEERS") (some "n2=http://h:2, n3=http://h:3") none

abbrev no_json : String → Option (List PeerItem)
no_json raw = none

abbrev no_int : String → Option ℕ
no_int value = none

abbrev peers_of : Option (NodeConfig ℕ) → List PeerStatus
unfolding init handle_peers
peers_of none = []
peers_of (some config) = handle_peers (init config)

all_alive :
    peers_of (load_config is_space no_json no_int (λ n. n) environ)
    ≡ record { id = "n2"; url = "http://h:2"; alive = some true }
      ∷ record { id = "n3"; url = "http://h:3"; alive = some true }
      ∷ []
unfolding program
all_alive = refl

default_class : choose_class "lock_manager" ≡ some lock_manager
unfolding program
default_class = refl
