-- ===== src/Raft.antt =====
-- src/consensus/raft.py: `RaftNode`. An index, which starts at -1 in the source, is stored plus
-- one, so that it counts entries: `commit_index`, `last_applied`, `match_index`, and the
-- `last_log_index`, `prev_log_index` and `leader_commit` of the messages; `next_index` starts at 0
-- and stands as it is. A handler runs under `_state_lock` and is one function on the state; what
-- stands between two awaits is one function too, so that steps of others may come in between.
pub mod Tally
pub mod Leader
pub mod Step
pub mod Votes
pub mod Roles
pub mod Cluster
pub mod Election
pub mod Ballots
pub mod OneLeader
pub mod Stored
pub mod Replication
pub mod Commit
pub mod StaleElection
mod Tests
use sinkronisasi_dan_distrib.Base.{
  ℕ, zero, suc, ◌+◌, ◌-◌, ◌/◌, String, ◌≡◌, Bool, true, false, not, ◌&&◌, Option, none, some, List,
  [], ◌∷◌, ◌++◌, map, Dict, lookup, insert, keys, values, ite, dec_string, if◌then◌else◌, leb, ltb,
  ◌==◌, length, get_elem?, take, drop, is_empty,
}

pub record LogEntry (C : Type 0) : Type 0 where
  pub term : ℕ
  pub command : C

-- the values of `self.state`
pub data Role : Type 0 where
  follower candidate leader : Role

pub record RaftNode (C : Type 0) : Type 0 where
  pub node_id : String
  pub peers : List String
  pub state : Role
  pub current_term : ℕ
  pub voted_for : Option String
  pub log : List (LogEntry C)
  pub commit_index : ℕ
  pub last_applied : ℕ
  pub next_index : Dict ℕ
  pub match_index : Dict ℕ
  pub leader_id : Option String
  pub last_heartbeat : ℕ

abbrev pub is_leader_role : Role → Bool
is_leader_role leader = true
is_leader_role follower = false
is_leader_role candidate = false

-- `{peer_id: v for peer_id in peers}`
unfoldable pub dict_of : List String → ℕ → Dict ℕ → Dict ℕ
dict_of [] v d = d
dict_of (p ∷ ps) v d = dict_of ps v (insert p v d)

pub record VoteRequest : Type 0 where
  pub term : ℕ
  pub candidate_id : Option String
  pub last_log_index : ℕ
  pub last_log_term : ℕ

pub record VoteReply : Type 0 where
  pub term : ℕ
  pub vote_granted : Bool

pub record AppendRequest (C : Type 0) : Type 0 where
  pub term : ℕ
  pub leader_id : Option String
  pub prev_log_index : ℕ
  pub prev_log_term : ℕ
  pub entries : List (LogEntry C)
  pub leader_commit : ℕ

pub record AppendReply : Type 0 where
  pub term : ℕ
  pub success : Bool

-- `self.voted_for in (None, candidate_id)`
unfoldable pub can_vote : Option String → Option String → Bool
can_vote none c = true
can_vote (some v) none = false
can_vote (some v) (some c) = ite (dec_string v c) true false

-- the term of the last entry, 0 where there is none
abbrev pub or_zero : Option ℕ → ℕ
or_zero none = 0
or_zero (some t) = t

module _ {C : Type 0} where
  unfoldable pub init : String → List String → ℕ → RaftNode C
  unfolding dict_of
  init node_id peers now = record {
    node_id = node_id;
    peers = peers;
    state = follower;
    current_term = 0;
    voted_for = none;
    log = [];
    commit_index = 0;
    last_applied = 0;
    next_index = dict_of peers 0 [];
    match_index = dict_of peers 0 [];
    leader_id = none;
    last_heartbeat = now;
  }

  abbrev pub is_leader : RaftNode C → Bool
  is_leader n = is_leader_role n.state

  unfoldable pub majority : RaftNode C → ℕ
  majority n = (length n.peers + 1) / 2 + 1

  -- the term of `self.log[i - 1]`, if there is such an entry
  unfoldable pub term_at : List (LogEntry C) → ℕ → Option ℕ
  term_at log zero = none
  term_at log (suc i) = elim (get_elem? log i) [ none ↦ none | some e ↦ some e.term ]

  abbrev pub last_term : List (LogEntry C) → ℕ
  last_term log = or_zero (term_at log (length log))

  unfoldable pub is_log_up_to_date : RaftNode C → ℕ → ℕ → Bool
  unfolding term_at
  is_log_up_to_date n last_index last_log_term =
      if is_empty n.log
      then true
      else if not (last_log_term == last_term n.log)
      then ltb (last_term n.log) last_log_term
      else leb (length n.log) last_index

  -- `if term > self.current_term` of `handle_request_vote`
  unfoldable pub see_vote_term : ℕ → RaftNode C → RaftNode C
  see_vote_term term n =
      if ltb n.current_term term
      then record n { current_term = term; voted_for = none; state = follower }
      else n

  -- `handle_request_vote` below its term checks
  unfoldable pub cast_vote : ℕ → VoteRequest → RaftNode C → RaftNode C × VoteReply
  unfolding can_vote is_log_up_to_date
  cast_vote now q n =
      if can_vote n.voted_for q.candidate_id && is_log_up_to_date n q.last_log_index q.last_log_term
      then (
        record n { voted_for = q.candidate_id; last_heartbeat = now },
        record { term = n.current_term; vote_granted = true },
      )
      else (n, record { term = n.current_term; vote_granted = false })

  unfoldable pub handle_request_vote : ℕ → VoteRequest → RaftNode C → RaftNode C × VoteReply
  unfolding see_vote_term cast_vote
  handle_request_vote now q n =
      if ltb q.term n.current_term
      then (n, record { term = n.current_term; vote_granted = false })
      else cast_vote now q (see_vote_term q.term n)

  -- the state below the term check of `handle_append_entries`
  unfoldable pub follow : ℕ → AppendRequest C → RaftNode C → RaftNode C
  follow now q n =
      let heard = record n { leader_id = q.leader_id; last_heartbeat = now; state = follower } in
      if ltb n.current_term q.term
      then record heard { current_term = q.term; voted_for = none }
      else heard

  -- the consistency check at `prev_log_index`
  unfoldable pub prev_matches : List (LogEntry C) → ℕ → ℕ → Bool
  unfolding term_at
  prev_matches log zero term = true
  prev_matches log (suc p) term = elim (term_at log (suc p)) [ none ↦ false | some t ↦ t == term ]

  -- one round of the loop over the entries, at `index`
  unfoldable pub drop_conflict : List (LogEntry C) → ℕ → LogEntry C → List (LogEntry C)
  drop_conflict log index e = elim (get_elem? log index) [
    | none ↦ log
    | some old ↦ if old.term == e.term then log else take index log
  ]

  unfoldable pub store_entry : List (LogEntry C) → ℕ → LogEntry C → List (LogEntry C)
  unfolding drop_conflict
  store_entry log index e =
      let kept = drop_conflict log index e in if index == length kept then kept ++ e ∷ [] else kept

  unfoldable pub store_entries : List (LogEntry C) → ℕ → List (LogEntry C) → List (LogEntry C)
  store_entries log index [] = log
  store_entries log index (e ∷ es) = store_entries (store_entry log index e) (index + 1) es

  -- `min(leader_commit, len(self.log) - 1)` where the leader is ahead
  unfoldable pub commit_to : ℕ → RaftNode C → RaftNode C
  commit_to leader_commit n =
      if ltb n.commit_index leader_commit
      then record n {
        commit_index = if leb leader_commit (length n.log) then leader_commit else length n.log;
      }
      else n

  -- `handle_append_entries` up to the call of `_apply_committed`, which the reply `success` says
  unfoldable pub handle_append_entries : ℕ → AppendRequest C → RaftNode C → RaftNode C × AppendReply
  handle_append_entries now q n =
      if ltb q.term n.current_term
      then (n, record { term = n.current_term; success = false })
      else (let f = follow now q n in
          if prev_matches f.log q.prev_log_index q.prev_log_term
          then (
            commit_to q.leader_commit
                (record f { log = store_entries f.log q.prev_log_index q.entries }),
            record { term = f.current_term; success = true },
          )
          else (f, record { term = f.current_term; success = false }))
