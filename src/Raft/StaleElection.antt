-- ===== src/Raft/StaleElection.antt =====
-- `_start_election` counts its votes after an await and does not look again at the term.
use sinkronisasi_dan_distrib.Base.{
  ℕ, ◌+◌, ◌≤◌, ◌<◌, String, ◌≡◌, refl, ◌∙◌, ap, sym, ◌≢◌, Option, some, List, [], ◌∷◌, arith,
  length,
}
use sinkronisasi_dan_distrib.Raft.{
  RaftNode, leader, follower, AppendRequest, VoteReply, majority, handle_append_entries, follow,
  commit_to,
}
use sinkronisasi_dan_distrib.Raft.Tally.{votes}
use sinkronisasi_dan_distrib.Raft.Leader.{
  append_request, start_election, finish_election, reset_peers,
}

module _ {C : Type 0} where
  reset_peers-keeps :
      (ps : List String) (len : ℕ) (n : RaftNode C)
      → ((reset_peers ps len n).state ≡ n.state)
        × ((reset_peers ps len n).current_term ≡ n.current_term)
        × ((reset_peers ps len n).leader_id ≡ n.leader_id)
        × ((reset_peers ps len n).node_id ≡ n.node_id)
  unfolding reset_peers
  reset_peers-keeps [] len n = (refl, refl, refl, refl)
  reset_peers-keeps (p ∷ ps) len n = reset_peers-keeps ps len _

  won_state :
      (rs : List (Option VoteReply)) (n : RaftNode C)
      → majority n ≤ votes rs
      → ((finish_election rs n).state ≡ leader)
        × ((finish_election rs n).current_term ≡ n.current_term)
        × ((finish_election rs n).leader_id ≡ some n.node_id)
        × ((finish_election rs n).node_id ≡ n.node_id)
  unfolding finish_election
  won_state rs n h = ground (
    arith,
    reset_peers-keeps n.peers (length n.log)
        (record n { state = leader; leader_id = some n.node_id }),
  )

  stepped_down :
      (n : RaftNode C) (q : AppendRequest C) (now now' : ℕ)
      → n.current_term + 1 < q.term
      → let f = (handle_append_entries now' q (start_election now n).0).0 in
        (f.leader_id ≡ q.leader_id)
        × (f.current_term ≡ q.term)
        × (f.node_id ≡ n.node_id)
        × (f.peers ≡ n.peers)
        × (f.state ≡ follower)
  unfolding handle_append_entries follow commit_to start_election
  stepped_down n q now now' late =
      (ground arith, ground arith, ground arith, ground arith, ground arith)

  -- A candidate that, while it waits for its votes, answers an append request of a leader of a later
  -- term turns leader of that later term when the votes of its own, earlier term come in, with any
  -- votes that are a majority: then it and the leader that it answered, which is another node, both
  -- lead that term.
  pub stale_votes_elect :
      (n ld : RaftNode C) (rs : List (Option VoteReply)) (now now' : ℕ)
      → ld.state ≡ leader
      → ld.node_id ≢ n.node_id
      → n.current_term + 1 < ld.current_term
      → majority n ≤ votes rs
      → let f =
          (handle_append_entries now' (append_request n.node_id ld) (start_election now n).0).0 in
        let w = finish_election rs f in
        (f.state ≡ follower)
        × (w.state ≡ ld.state)
        × (w.current_term ≡ ld.current_term)
        × (w.leader_id ≡ some n.node_id)
        × (w.node_id ≢ ld.node_id)
  unfolding append_request
  stale_votes_elect n ld rs now now' leads apart late h =
      let q = append_request n.node_id ld in
      let f = (handle_append_entries now' q (start_election now n).0).0 in
      let (led, term, same, peers, follows) = stepped_down n q now now' late in
      let enough : majority f ≤ votes rs = unfold majority in omega (arith, ap length peers, h) in
      let (state, kept, known, id) = won_state rs f enough in
      (
        follows,
        state ∙ sym leads,
        kept ∙ term,
        known ∙ ap some same,
        λ e. apart (sym e ∙ id ∙ same),
      )
