-- ===== src/Raft/Cluster.antt =====
-- A cluster of nodes with the ballots that were cast, and its steps.
use sinkronisasi_dan_distrib.Base.{
  ℕ, ◌+◌, String, ◌≡◌, Bool, true, false, Option, some, List, [], ◌∷◌, ite, dec_string, ℕ_discrete,
  if◌then◌else◌, member,
}
use sinkronisasi_dan_distrib.Raft.{RaftNode, candidate, VoteRequest, VoteReply, handle_request_vote}
use sinkronisasi_dan_distrib.Raft.Leader.{start_election, finish_election}
use sinkronisasi_dan_distrib.Raft.Step.{Step}
use sinkronisasi_dan_distrib.Raft.Roles.{IsOther}

pub record Ballot : Type 0 where
  pub voter : String
  pub term : ℕ
  pub choice : String

unfoldable pub was_cast : List Ballot → String → ℕ → String → Bool
was_cast [] v t c = false
was_cast (b ∷ bs) v t c =
    let rest = was_cast bs v t c in
    ite (dec_string b.voter v)
      (ite (ℕ_discrete b.term t) (ite (dec_string b.choice c) true rest) rest) rest

pub record Cluster (C : Type 0) : Type 0 where
  pub node : String → RaftNode C
  pub ballots : List Ballot

-- the replies to a candidate: one for each peer
unfoldable pub replies : ℕ → (String → Bool) → List String → List (Option VoteReply)
replies t grants [] = []
replies t grants (p ∷ ps) =
    some (record { term = t; vote_granted = grants p }) ∷ replies t grants ps

module _ {C : Type 0} where
  unfoldable pub put_node : (String → RaftNode C) → String → RaftNode C → String → RaftNode C
  put_node f a n j = ite (dec_string a j) n (f j)

  -- The steps of one member of `ms`. A vote that is granted is a ballot, also a candidate's own; an
  -- election ends while its candidate is still one, with the ballots of its term.
  pub data ClusterStep (ms : List String) (s s' : Cluster C) : Type 0 where
    campaign :
        (a : String) (now : ℕ)
        → member a ms ≡ true
        → s' ≡ record {
          node = put_node s.node a (start_election now (s.node a)).0;
          ballots =
              record { voter = a; term = (s.node a).current_term + 1; choice = a } ∷ s.ballots;
        }
        → ClusterStep ms s s'
    vote :
        (v : String) (now : ℕ) (q : VoteRequest) (c : String)
        → member v ms ≡ true
        → q.candidate_id ≡ some c
        → s' ≡ record {
          node = put_node s.node v (handle_request_vote now q (s.node v)).0;
          ballots =
              if (handle_request_vote now q (s.node v)).1.vote_granted
              then record { voter = v; term = q.term; choice = c } ∷ s.ballots
              else s.ballots;
        }
        → ClusterStep ms s s'
    count_votes :
        (a : String) (t : ℕ) (grants : String → Bool)
        → member a ms ≡ true
        → (s.node a).state ≡ candidate
        → ((p : String) → grants p ≡ true → was_cast s.ballots p (s.node a).current_term a ≡ true)
        → s' ≡ record s {
          node = put_node s.node a (finish_election (replies t grants (s.node a).peers) (s.node a));
        }
        → ClusterStep ms s s'
    other :
        (a : String) (n : RaftNode C) (st : Step (s.node a) n)
        → member a ms ≡ true
        → IsOther st
        → s' ≡ record s { node = put_node s.node a n }
        → ClusterStep ms s s'

  pub data ClusterReach (ms : List String) (s : Cluster C) : Cluster C → Type 0 where
    start : ClusterReach ms s s
    onward : {m s' : Cluster C} → ClusterReach ms s m → ClusterStep ms m s' → ClusterReach ms s s'
