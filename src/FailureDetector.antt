-- ===== src/FailureDetector.antt =====
-- src/communication/failure_detector.py: the status table of `FailureDetector`. `health` is the answer to
-- GET /health: the HTTP status, or nothing where the request raises. The checks of a round
-- run together: `finish` gives the order in which they end.
pub mod Status
mod Tests
use sinkronisasi_dan_distrib.Base.{
  ℕ, String, Bool, true, false, Option, none, some, List, [], ◌∷◌, Dict, lookup, insert, ite,
  ℕ_discrete, contains, if◌then◌else◌, is_some,
}
use sinkronisasi_dan_distrib.MessageBus.{PeerInfo}

pub record FailureDetector : Type 0 where
  pub peers : List PeerInfo
  pub status : Dict Bool

-- `{peer.node_id: True for peer in peers}`, on what the dictionary has
unfoldable pub all_true : List PeerInfo → Dict Bool → Dict Bool
all_true [] d = d
all_true (p ∷ ps) d = all_true ps (insert p.node_id true d)

unfoldable pub init : List PeerInfo → FailureDetector
unfolding all_true
init ps = record { peers = ps; status = all_true ps [] }

-- `status.setdefault(peer.node_id, True)` for each peer
unfoldable pub set_defaults : List PeerInfo → Dict Bool → Dict Bool
set_defaults [] d = d
set_defaults (p ∷ ps) d =
    set_defaults ps (if contains p.node_id d then d else insert p.node_id true d)

unfoldable pub set_peers : List PeerInfo → FailureDetector → FailureDetector
unfolding set_defaults
set_peers ps fd = record { peers = ps; status = set_defaults ps fd.status }

unfoldable pub is_alive : String → FailureDetector → Bool
is_alive p fd = elim (lookup p fd.status) [ none ↦ false | some b ↦ b ]

abbrev pub is_healthy : Option ℕ → Bool
is_healthy none = false
is_healthy (some code) = ite (ℕ_discrete code 200) true false

unfoldable pub check_peer : (PeerInfo → Option ℕ) → PeerInfo → FailureDetector → FailureDetector
check_peer health p fd = record fd { status = insert p.node_id (is_healthy (health p)) fd.status }

unfoldable pub check_peers :
    (PeerInfo → Option ℕ) → List PeerInfo → FailureDetector → FailureDetector
unfolding check_peer
check_peers health [] fd = fd
check_peers health (p ∷ ps) fd = check_peers health ps (check_peer health p fd)

-- one round of `_loop`
unfoldable pub round :
    (List PeerInfo → List PeerInfo) → (PeerInfo → Option ℕ) → FailureDetector → FailureDetector
unfolding check_peers
round finish health fd = check_peers health (finish fd.peers) fd
