-- ===== src/Raft/Tests.antt =====
-- A cluster of three, with numbers for commands: the theorems at concrete inputs.
use mathlib.Core.Bool.{false≢true}
use sinkronisasi_dan_distrib.Base.{
  ap, ℕ, ◌+◌, String, ◌≡◌, ◌≢◌, ◌≤◌, ◌<◌, ◌++◌, refl, true, none, some, [], ◌∷◌, lookup, insert,
  arith, dec_string, sym, subst, List, Bool, false, if◌then◌else◌, ite, member, set_discard,
  IsDistinct, ℕ_discrete, take, values,
}
use sinkronisasi_dan_distrib.Raft.{
  LogEntry, leader, follower, RaftNode, VoteRequest, VoteReply, dict_of, can_vote, init, majority,
  term_at, is_log_up_to_date, see_vote_term, cast_vote, handle_request_vote, follow, prev_matches,
  store_entry, store_entries, commit_to, handle_append_entries,
}
use sinkronisasi_dan_distrib.Raft.Tally.{insert_desc, sort_desc, votes}
use sinkronisasi_dan_distrib.Raft.Leader.{
  applied, apply_next, apply_rounds, apply_committed, append_request, handle_append_reply,
  majority_index, advance_commit_index, start_election, finish_election, become_leader, reset_peers,
}
use sinkronisasi_dan_distrib.Raft.Step.{here}
use sinkronisasi_dan_distrib.Raft.Votes.{vote_once, candidate_votes_for_itself}
use sinkronisasi_dan_distrib.Raft.Replication.{append-replicates}
use sinkronisasi_dan_distrib.Raft.Stored.{Holds}
use sinkronisasi_dan_distrib.Raft.Commit.{count_from, advance_by_majority, apply_committed_lem}
use sinkronisasi_dan_distrib.Raft.StaleElection.{stale_votes_elect}
use sinkronisasi_dan_distrib.Raft.Cluster.{
  Cluster, put_node, replies, was_cast, ClusterReach, start, onward, campaign, vote, count_votes,
}
use sinkronisasi_dan_distrib.Raft.OneLeader.{fresh_cluster, one_leader}

program : Unit {0}
unfolding put_node replies was_cast member set_discard IsDistinct ℕ_discrete lookup insert
    dec_string dict_of can_vote init majority term_at is_log_up_to_date see_vote_term cast_vote
    handle_request_vote follow prev_matches store_entry store_entries commit_to
    handle_append_entries insert_desc sort_desc votes apply_next apply_rounds apply_committed
    append_request handle_append_reply majority_index advance_commit_index start_election
    finish_election become_leader reset_peers count_from
program = tt

abbrev entry : ℕ → ℕ → LogEntry ℕ
entry t c = record { term = t; command = c }

abbrev node_a : RaftNode ℕ
unfolding program
node_a = init "a" ("b" ∷ "c" ∷ []) 0

abbrev node_b : RaftNode ℕ
unfolding program
node_b = init "b" ("a" ∷ "c" ∷ []) 0

-- "a" leads the term 1 with two entries of it; it takes "b" to be up to date, and "c" holds nothing
abbrev leading : RaftNode ℕ
leading = record node_a {
  state = leader;
  current_term = 1;
  voted_for = some "a";
  log = entry 1 10 ∷ entry 1 20 ∷ [];
  next_index = ("b", 2) ∷ ("c", 0) ∷ [];
  match_index = ("b", 2) ∷ ("c", 0) ∷ [];
}

abbrev ask : String → VoteRequest
ask c = record { term = 1; candidate_id = some c; last_log_index = 0; last_log_term = 0 }

abbrev granted : VoteReply
granted = record { term = 1; vote_granted = true }

vote_once_example : ◌≡◌ {A = String} "c" "c"
unfolding program
vote_once_example =
    vote_once node_b (handle_request_vote 5 (ask "c") node_b).0 (ask "c") (ask "c") 5 6 "c" "c" refl
      refl refl refl here refl

candidate_votes_for_itself_example : ◌≡◌ {A = String} "a" "a"
unfolding program
candidate_votes_for_itself_example =
    candidate_votes_for_itself node_a (start_election 5 node_a).0 (ask "a") 5 6 "a" refl refl here
      refl

-- "b" holds the first entry of "a" and a conflicting second one, and "a" sends from the second on
abbrev sending : RaftNode ℕ
sending = record leading { next_index = ("b", 1) ∷ ("c", 0) ∷ [] }

abbrev diverged : RaftNode ℕ
unfolding program
diverged = record node_b { log = entry 1 10 ∷ entry 0 5 ∷ [] }

append-replicates_example :
    let n' = (handle_append_entries 5 (append_request "b" sending) diverged).0 in
    Holds diverged.log n'.log 1 (entry 1 20) × (take 1 n'.log ≡ take 1 diverged.log)
unfolding program
append-replicates_example =
    append-replicates 5 "b" sending diverged 1 (entry 1 20) refl refl (omega arith)

advance_by_majority_example :
    (0 < 2)
    × (majority leading ≤ count_from 2 (values leading.match_index ++ 2 ∷ []))
    × (term_at leading.log 2 ≡ some 1)
unfolding program
advance_by_majority_example =
    advance_by_majority leading (record leading { commit_index = 2 }) refl (omega arith)

apply_committed_lem_example :
    apply_committed (record leading { commit_index = 2 })
    ≡ applied (record leading { commit_index = 2; last_applied = 2 }) (10 ∷ 20 ∷ [])
unfolding program
apply_committed_lem_example =
    apply_committed_lem (record leading { commit_index = 2 }) (omega arith) (omega arith)

-- "c" leads the term 3
abbrev other_leader : RaftNode ℕ
unfolding program
other_leader = record (init "c" ("a" ∷ "b" ∷ []) 0) {
  state = leader;
  current_term = 3;
  voted_for = some "c";
  leader_id = some "c";
}

stale_votes_elect_example :
    let f =
      (handle_append_entries 6 (append_request "a" other_leader) (start_election 5 node_a).0).0 in
    let w = finish_election (some granted ∷ none ∷ []) f in
    (f.state ≡ follower)
    × (w.state ≡ leader)
    × (w.current_term ≡ 3)
    × (w.leader_id ≡ some "a")
    × (w.node_id ≢ "c")
unfolding program
stale_votes_elect_example =
    stale_votes_elect node_a other_leader (some granted ∷ none ∷ []) 5 6 refl
      (λ e. false≢true (ap (λ x. ite (dec_string x "a") true false) e)) (omega arith) (omega arith)

abbrev members : List String
members = "a" ∷ "b" ∷ "c" ∷ []

-- "a" campaigns, "b" votes for it, and "a" counts its own vote and that of "b"
abbrev blank : Cluster ℕ
blank = fresh_cluster members 0

abbrev campaigning : Cluster ℕ
campaigning = record {
  node = put_node blank.node "a" (start_election 5 (blank.node "a")).0;
  ballots = record { voter = "a"; term = (blank.node "a").current_term + 1; choice = "a" } ∷ [];
}

abbrev voted : Cluster ℕ
voted = record {
  node = put_node campaigning.node "b" (handle_request_vote 6 (ask "a") (campaigning.node "b")).0;
  ballots =
      if (handle_request_vote 6 (ask "a") (campaigning.node "b")).1.vote_granted
      then record { voter = "b"; term = (ask "a").term; choice = "a" } ∷ campaigning.ballots
      else campaigning.ballots;
}

abbrev only_b : String → Bool
only_b p = ite (dec_string p "b") true false

abbrev won : Cluster ℕ
won = record voted {
  node =
      put_node voted.node "a"
        (finish_election (replies 1 only_b (voted.node "a").peers) (voted.node "a"));
}

only_b_voted :
    (p : String)
    → only_b p ≡ true
    → was_cast voted.ballots p (voted.node "a").current_term "a" ≡ true
unfolding program
only_b_voted p h = elim (dec_string p "b") [
  | yes e ↦
      subst (λ x. was_cast voted.ballots x (voted.node "a").current_term "a" ≡ true) (sym e) refl
  | no e ↦ absurd (ground arith)
]

won-reached : ClusterReach members blank won
unfolding program
won-reached =
    onward
      (onward (onward {m = blank} {s' = campaigning} start (campaign "a" 5 refl refl))
        (vote "b" 6 (ask "a") "a" refl refl refl))
      (count_votes "a" 1 only_b refl refl only_b_voted refl)

one_leader_example : ◌≡◌ {A = String} "a" "a"
unfolding program
one_leader_example =
    one_leader members 0 won "a" "a" (refl, (refl, (refl, tt))) won-reached refl refl refl refl refl
