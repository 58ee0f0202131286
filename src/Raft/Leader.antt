-- ===== src/Raft/Leader.antt =====
-- src/consensus/raft.py: application of committed entries, replication and elections.
use mathlib.Core.Option
use sinkronisasi_dan_distrib.Base.{
  not, ℕ, zero, suc, ◌+◌, ◌-◌, String, Bool, true, false, Option, none, some, List, [], ◌∷◌, ◌++◌,
  lookup, insert, values, if◌then◌else◌, leb, ltb, ◌==◌, length, get_elem?, drop,
}
use sinkronisasi_dan_distrib.Raft.Tally.{or_else, successes, sort_desc, votes}
use sinkronisasi_dan_distrib.Raft.{
  Role, is_leader, candidate, leader, RaftNode, VoteRequest, VoteReply, AppendRequest, AppendReply,
  majority, term_at, last_term, or_zero,
}

-- How `_apply_committed` ends: with the commands handed to `apply_callback`, in order, or with an
-- IndexError of `self.log[self.last_applied]`, after the commands before it.
pub data Applied (C : Type 0) : Type 0 where
  applied : RaftNode C → List C → Applied C
  index_error : RaftNode C → List C → Applied C

-- what `get_state` tells
pub record NodeState : Type 0 where
  pub state : Role
  pub term : ℕ
  pub leader_id : Option String
  pub log_size : ℕ
  pub commit_index : ℕ

module _ {C : Type 0} where
  unfoldable pub get_state : RaftNode C → NodeState
  get_state n = record {
    state = n.state;
    term = n.current_term;
    leader_id = n.leader_id;
    log_size = length n.log;
    commit_index = n.commit_index;
  }

  -- the tests of a round of `_election_loop`, after its sleep of `timeout`
  unfoldable pub election_due : ℕ → ℕ → RaftNode C → Bool
  election_due now timeout n =
      if is_leader n then false else not (ltb (now - n.last_heartbeat) timeout)

  abbrev pub and_then : C → Applied C → Applied C
  and_then c (applied n cs) = applied n (c ∷ cs)
  and_then c (index_error n cs) = index_error n (c ∷ cs)

  -- one round: `last_applied` grows first, and stays so if the read fails
  unfoldable pub apply_next : (RaftNode C → Applied C) → RaftNode C → Applied C
  apply_next rest n =
      let n' = record n { last_applied = n.last_applied + 1 } in
      elim (get_elem? n.log n.last_applied) [
        | none ↦ index_error n' []
        | some e ↦ and_then e.command (rest n')
      ]

  -- the loop of `_apply_committed`, with the rounds left as fuel
  unfoldable pub apply_rounds : ℕ → RaftNode C → Applied C
  unfolding apply_next
  apply_rounds zero n = applied n []
  apply_rounds (suc f) n = elim (leb n.commit_index n.last_applied) [
    | true ↦ applied n []
    | false ↦ apply_next (apply_rounds f) n
  ]

  unfoldable pub apply_committed : RaftNode C → Applied C
  unfolding apply_rounds
  apply_committed n = apply_rounds (n.commit_index - n.last_applied) n

  -- the part of `append_entry` under the first lock: the entry, and its index plus one
  unfoldable pub append_local : C → RaftNode C → RaftNode C × ℕ
  append_local c n =
      let log = n.log ++ record { term = n.current_term; command = c } ∷ [] in
      (record n { log = log }, length log)

  -- the part of `append_entry` under the second lock
  unfoldable pub commit_own : ℕ → RaftNode C → RaftNode C
  commit_own entry_index n =
      if ltb n.commit_index entry_index then record n { commit_index = entry_index } else n

  -- `self.next_index.get(peer_id, len(self.log))`
  abbrev pub next_for : String → RaftNode C → ℕ
  next_for peer n = or_else (length n.log) (lookup peer n.next_index)

  -- the payload of `_replicate_to_peer`; `prev_index` plus one is `next_index`
  unfoldable pub append_request : String → RaftNode C → AppendRequest C
  unfolding term_at
  append_request peer n =
      let next = next_for peer n in
      record {
        term = n.current_term;
        leader_id = some n.node_id;
        prev_log_index = next;
        prev_log_term = or_zero (term_at n.log next);
        entries = drop next n.log;
        leader_commit = n.commit_index;
      }

  -- what `_replicate_to_peer` does with the response to the request `q`: none where the bus failed
  unfoldable pub handle_append_reply :
      String → AppendRequest C → Option AppendReply → RaftNode C → RaftNode C × Bool
  handle_append_reply peer q none n = (n, false)
  handle_append_reply peer q (some r) n =
      let next = q.prev_log_index in
      if r.success
      then (
        record n {
          match_index = insert peer (next + length q.entries) n.match_index;
          next_index = insert peer (next + length q.entries) n.next_index;
        },
        true,
      )
      else (record n { next_index = insert peer (next - 1) n.next_index }, false)

  -- `match_indexes[self.majority() - 1]`
  unfoldable pub majority_index : RaftNode C → Option ℕ
  unfolding sort_desc majority
  majority_index n =
      get_elem? (sort_desc (values n.match_index ++ length n.log ∷ [])) (majority n - 1)

  -- `_advance_commit_index` up to `_apply_committed`; `none` is an IndexError
  unfoldable pub advance_commit_index : RaftNode C → Option (RaftNode C)
  advance_commit_index n = elim (majority_index n) [
    | none ↦ none
    | some i ↦
        if ltb n.commit_index i
        then Option.map (λ t. if t == n.current_term then record n { commit_index = i } else n)
            (term_at n.log i)
        else some n
  ]

  -- the end of `_replicate_log`: with a majority it advances the commit index and reports success
  unfoldable pub finish_replication : List (Option Bool) → RaftNode C → Option (RaftNode C × Bool)
  unfolding successes majority advance_commit_index
  finish_replication rs n =
      if leb (majority n) (successes rs)
      then Option.map (λ n'. (n', true)) (advance_commit_index n)
      else some (n, false)

  -- the part of `_start_election` under the lock: the new state and the payload
  unfoldable pub start_election : ℕ → RaftNode C → RaftNode C × VoteRequest
  unfolding term_at
  start_election now n =
      let term = n.current_term + 1 in
      (
        record n {
          state = candidate;
          current_term = term;
          voted_for = some n.node_id;
          last_heartbeat = now;
        },
        record {
          term = term;
          candidate_id = some n.node_id;
          last_log_index = length n.log;
          last_log_term = last_term n.log;
        },
      )

  unfoldable pub reset_peers : List String → ℕ → RaftNode C → RaftNode C
  reset_peers [] len n = n
  reset_peers (p ∷ ps) len n =
      reset_peers ps len (record n {
        next_index = insert p len n.next_index;
        match_index = insert p 0 n.match_index;
      })

  unfoldable pub become_leader : RaftNode C → RaftNode C
  unfolding reset_peers
  become_leader n =
      reset_peers n.peers (length n.log) (record n { state = leader; leader_id = some n.node_id })

  -- the end of `_start_election`, when the responses are in
  unfoldable pub finish_election : List (Option VoteReply) → RaftNode C → RaftNode C
  unfolding votes majority become_leader
  finish_election rs n = if leb (majority n) (votes rs) then become_leader n else n
