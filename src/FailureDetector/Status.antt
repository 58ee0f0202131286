-- ===== src/FailureDetector/Status.antt =====
-- Who is alive after the peers are set, and after a round.
use sinkronisasi_dan_distrib.Base.{
  ℕ, String, ◌≡◌, refl, ◌∙◌, Bool, true, false, Option, none, some, List, [], ◌∷◌, Dict, lookup,
  insert, lookup-insert, ite, dec_string, if◌then◌else◌, contains, arith, ap,
}
use sinkronisasi_dan_distrib.MessageBus.{PeerInfo}
use sinkronisasi_dan_distrib.FailureDetector.{
  FailureDetector, set_defaults, set_peers, is_alive, is_healthy, check_peer, check_peers, round,
}

abbrev or_default : Bool → Option Bool → Bool
or_default b none = b
or_default b (some x) = x

-- whether a peer of the list has the id
abbrev pub listed : String → List PeerInfo → Bool
listed p [] = false
listed p (x ∷ ps) = let rest = listed p ps in ite (dec_string x.node_id p) true rest

-- the answer of the last peer that has the id, where there is one
abbrev pub last_answer : (PeerInfo → Option ℕ) → String → List PeerInfo → Bool → Bool
last_answer health p [] b = b
last_answer health p (x ∷ ps) b =
    last_answer health p ps (ite (dec_string x.node_id p) (is_healthy (health x)) b)

set_defaults-lookup :
    (p : String) (ps : List PeerInfo) (d : Dict Bool)
    → or_default false (lookup p (set_defaults ps d)) ≡ or_default (listed p ps) (lookup p d)
unfolding set_defaults
set_defaults-lookup p [] d = refl
set_defaults-lookup p (x ∷ ps) d = ground (
  arith,
  set_defaults-lookup p ps (if contains x.node_id d then d else insert x.node_id true d),
  lookup-insert x.node_id p true d,
)

check_peers-is_alive :
    (health : PeerInfo → Option ℕ) (p : String) (ps : List PeerInfo) (fd : FailureDetector)
    → is_alive p (check_peers health ps fd) ≡ last_answer health p ps (is_alive p fd)
unfolding check_peers check_peer is_alive
check_peers-is_alive health p [] fd = refl
check_peers-is_alive health p (x ∷ ps) fd =
    check_peers-is_alive health p ps (check_peer health x fd)
    ∙ ap (last_answer health p ps)
        (ground (arith, lookup-insert x.node_id p (is_healthy (health x)) fd.status))

-- After the peers are set, a peer that has a status keeps it, also one that is no longer listed, and
-- a listed peer without one is alive. A round then gives each peer the answer of its check, and where
-- several entries have its id, of the check that ends last, whatever the order in which the checks
-- end; a peer without a check keeps its status.
pub set_peers-round :
    (finish : List PeerInfo → List PeerInfo) (health : PeerInfo → Option ℕ) (ps : List PeerInfo)
    (fd : FailureDetector) (p : String)
    → let before = (if contains p fd.status then is_alive p fd else listed p ps) in
      (is_alive p (set_peers ps fd) ≡ before)
      × (is_alive p (round finish health (set_peers ps fd))
          ≡ last_answer health p (finish ps) before)
unfolding round set_peers is_alive
set_peers-round finish health ps fd p =
    let before : is_alive p (set_peers ps fd)
        ≡ (if contains p fd.status then is_alive p fd else listed p ps) =
      ground (arith, set_defaults-lookup p ps fd.status) in
    (
      before,
      check_peers-is_alive health p (finish ps) (set_peers ps fd)
          ∙ ap (last_answer health p (finish ps)) before,
    )
