-- ===== src/Raft/Votes.antt =====
-- Elections: a node votes once in a term, and two majorities share a voter.
use sinkronisasi_dan_distrib.Base.{ℕ, ◌+◌, ◌≤◌, String, ◌≡◌, refl, true, some, arith}
use sinkronisasi_dan_distrib.Raft.{RaftNode, VoteRequest, handle_request_vote}
use sinkronisasi_dan_distrib.Raft.Leader.{start_election}
use sinkronisasi_dan_distrib.Raft.Step.{Reach, Reach-Keeps}

module _ {C : Type 0} where
  -- the node is in the term `t` and has voted for `a` in it
  abbrev pub VotesFor : RaftNode C → ℕ → String → Type 0
  VotesFor n t a = (n.current_term ≡ t) × (n.voted_for ≡ some a)

  granted-VotesFor :
      (now : ℕ) (q : VoteRequest) (n : RaftNode C) (a : String)
      → q.candidate_id ≡ some a
      → (handle_request_vote now q n).1.vote_granted ≡ true
      → VotesFor (handle_request_vote now q n).0 q.term a
  unfolding handle_request_vote
  granted-VotesFor now q n a c h = (ground arith, ground arith)

  voted_before :
      (now : ℕ) (q : VoteRequest) (n : RaftNode C) (a b : String)
      → VotesFor n q.term a
      → q.candidate_id ≡ some b
      → (handle_request_vote now q n).1.vote_granted ≡ true
      → a ≡ b
  unfolding handle_request_vote
  voted_before now q n a b v c h = ground (arith, v.0, v.1)

  stale_vote :
      (now : ℕ) (q : VoteRequest) (n : RaftNode C)
      → (handle_request_vote now q n).1.vote_granted ≡ true
      → n.current_term ≤ q.term
  unfolding handle_request_vote
  stale_vote now q n h = ground arith

  votes_once :
      (t : ℕ) (a b : String) (now : ℕ) (q : VoteRequest) (n m : RaftNode C)
      → VotesFor n t a
      → Reach n m
      → q.term ≡ t
      → q.candidate_id ≡ some b
      → (handle_request_vote now q m).1.vote_granted ≡ true
      → a ≡ b
  votes_once t a b now q n m v r e c h =
      let k = Reach-Keeps r in
      let old = stale_vote now q m h in
      let same : m.current_term ≡ n.current_term = omega (arith, k.terms, v.0) in
      voted_before now q m a b (omega (arith, v.0), k.vote a same v.1) c h

  -- One vote a term: if a node grants its vote to `a`, goes through any further steps, and then
  -- grants its vote to `b` in a request of the same term, then `b` is `a`.
  pub vote_once :
      (n m : RaftNode C) (q q' : VoteRequest) (now now' : ℕ) (a b : String)
      → q.candidate_id ≡ some a
      → q'.candidate_id ≡ some b
      → q'.term ≡ q.term
      → (handle_request_vote now q n).1.vote_granted ≡ true
      → Reach (handle_request_vote now q n).0 m
      → (handle_request_vote now' q' m).1.vote_granted ≡ true
      → a ≡ b
  vote_once n m q q' now now' a b c c' e h r h' =
      votes_once q.term a b now' q' _ m (granted-VotesFor now q n a c h) r e c' h'

  -- A candidate has voted for itself: in the term of its election, whatever it goes through, it
  -- grants no vote to another.
  pub candidate_votes_for_itself :
      (n m : RaftNode C) (q : VoteRequest) (now now' : ℕ) (b : String)
      → q.candidate_id ≡ some b
      → q.term ≡ n.current_term + 1
      → Reach (start_election now n).0 m
      → (handle_request_vote now' q m).1.vote_granted ≡ true
      → n.node_id ≡ b
  candidate_votes_for_itself n m q now now' b c e r h =
      votes_once (n.current_term + 1) n.node_id b now' q (start_election now n).0 m
        (unfold start_election in (refl, refl)) r e c h
