-- ===== src/FailureDetector/Tests.antt =====
-- A detector of two peers: the theorem at concrete inputs.
use sinkronisasi_dan_distrib.Base.{
  ℕ, String, ◌≡◌, Option, none, some, List, [], ◌∷◌, ◌++◌, contains, if◌then◌else◌, ite, dec_string,
}
use sinkronisasi_dan_distrib.MessageBus.{PeerInfo}
use sinkronisasi_dan_distrib.FailureDetector.{FailureDetector, init, set_peers, is_alive, round}
use sinkronisasi_dan_distrib.FailureDetector.Status.{listed, last_answer, set_peers-round}

abbrev peer : String → PeerInfo
peer id = record { node_id = id; url = id }

-- "a" answers, and the others do not
abbrev health : PeerInfo → Option ℕ
health p = ite (dec_string p.node_id "a") (some 200) none

-- the checks end in the opposite order
abbrev backwards : List PeerInfo → List PeerInfo
backwards [] = []
backwards (p ∷ ps) = backwards ps ++ p ∷ []

abbrev detector : FailureDetector
detector = init (peer "a" ∷ peer "b" ∷ [])

set_peers-round_example :
    let before =
      (if contains "c" detector.status
        then is_alive "c" detector
        else listed "c" (peer "a" ∷ peer "c" ∷ [])) in
    (is_alive "c" (set_peers (peer "a" ∷ peer "c" ∷ []) detector) ≡ before)
    × (is_alive "c" (round backwards health (set_peers (peer "a" ∷ peer "c" ∷ []) detector))
        ≡ last_answer health "c" (backwards (peer "a" ∷ peer "c" ∷ [])) before)
set_peers-round_example = set_peers-round backwards health (peer "a" ∷ peer "c" ∷ []) detector "c"
