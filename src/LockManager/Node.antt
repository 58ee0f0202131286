-- ===== src/LockManager/Node.antt =====
-- src/nodes/lock_manager.py: `DistributedLockManagerNode`, a `RaftNode` with the lock table that its
-- log is applied to. `send_json` of a request to a peer gives `none` where the call raised or was
-- cancelled at the timeout, and `some none` where it gave no answer. A future is its
-- position in the list of those created.
pub mod Forward
pub mod Handlers
pub mod Keyed
pub mod Applies
pub mod Commits
pub mod Appends
pub mod Acquire
pub mod Owns
pub mod Owned
pub mod Rounds
pub mod Proxy
mod Tests
use sinkronisasi_dan_distrib.Base.{
  truthy, ℕ, zero, suc, String, Bool, true, false, Option, none, some, List, [], ◌∷◌, ◌++◌, Dict,
  lookup, insert, erase, ite, dec_string, if◌then◌else◌, leb, length, get_elem?,
}
use sinkronisasi_dan_distrib.Raft.{RaftNode, AppendRequest, AppendReply, is_leader, majority}
use sinkronisasi_dan_distrib.Raft.Leader.{
  Applied, applied, index_error, apply_committed, append_local, commit_own, append_request,
  handle_append_reply, finish_replication,
}
use sinkronisasi_dan_distrib.LockManager.{
  LockStateMachine, Command, Result, granted, waiting, not_held, released, aborted, not_found,
  unknown_op, apply,
}

-- a future that is not done, one with its result, and one that `wait_for` cancelled
pub data Future : Type 0 where
  unset cancelled : Future
  set : Result → Future

pub record DistributedLockManagerNode : Type 0 where
  pub lock_state : LockStateMachine
  pub raft : RaftNode Command
  pub pending_futures : Dict ℕ
  pub futures : List Future

-- `result.get("request_id")`
unfoldable pub request_id_of : Result → Option String
request_id_of (granted id lock client mode) = some id
request_id_of (waiting id lock client mode) = some id
request_id_of (not_held lock client) = none
request_id_of (released lock client) = none
request_id_of (aborted id lock client reason) = some id
request_id_of (not_found id) = some id
request_id_of unknown_op = none

-- `if not future.done(): future.set_result(result)`
unfoldable pub set_result : Result → ℕ → List Future → List Future
set_result r i [] = []
set_result r zero (unset ∷ fs) = set r ∷ fs
set_result r zero (cancelled ∷ fs) = cancelled ∷ fs
set_result r zero (set r' ∷ fs) = set r' ∷ fs
set_result r (suc i) (f ∷ fs) = f ∷ set_result r i fs

unfoldable pub resolve :
    Option String → Result → DistributedLockManagerNode → DistributedLockManagerNode
unfolding set_result
resolve none r n = n
resolve (some id) r n = elim (lookup id n.pending_futures) [
  | none ↦ n
  | some f ↦ record n {
    pending_futures = erase id n.pending_futures;
    futures = set_result r f n.futures;
  }
]

-- `_apply_command`
unfoldable pub apply_command : Command → DistributedLockManagerNode → DistributedLockManagerNode
unfolding resolve truthy request_id_of
apply_command c n =
    let (m, result) = apply n.lock_state c in
    resolve (truthy (request_id_of result)) result (record n { lock_state = m })

-- the callback, on each command that `_apply_committed` hands it
unfoldable pub apply_commands :
    List Command → DistributedLockManagerNode → DistributedLockManagerNode
unfolding apply_command
apply_commands [] n = n
apply_commands (c ∷ cs) n = apply_commands cs (apply_command c n)

-- How `append_entry` and its parts end: with their Boolean, or with an IndexError.
pub data Appended : Type 0 where
  returned : DistributedLockManagerNode → Bool → Appended
  raised : DistributedLockManagerNode → Appended

-- `_apply_committed`, with the callback
unfoldable pub apply_all : DistributedLockManagerNode → Appended
unfolding apply_commands
apply_all n = elim (apply_committed n.raft) [
  | applied r cs ↦ returned (apply_commands cs (record n { raft = r })) true
  | index_error r cs ↦ raised (apply_commands cs (record n { raft = r }))
]

-- `append_entry` below `_replicate_log`
unfoldable pub finish_append : ℕ → Appended → Appended
unfolding apply_all
finish_append entry_index (raised n) = raised n
finish_append entry_index (returned n false) = returned n false
finish_append entry_index (returned n true) =
    apply_all (record n { raft = commit_own entry_index n.raft })

-- What a call of `append_entry` meets: what `send_json` gives for a request to a peer, the order in
-- which the answers come, and what the other tasks do to the node each time the call waits (the
-- number counts the waits that are left). The state lock is never held over a wait, so the call
-- waits for its peers only.
pub record Network : Type 0 where
  pub send : String → AppendRequest Command → Option (Option AppendReply)
  pub arrivals : List String → List String
  pub others : ℕ → DistributedLockManagerNode → DistributedLockManagerNode

-- the end of `_replicate_log`
unfoldable pub conclude : List (Option Bool) → DistributedLockManagerNode → Appended
unfolding apply_all
conclude results n = elim (finish_replication results n.raft) [
  | none ↦ raised n
  | some (r, success) ↦
      if success then apply_all (record n { raft = r }) else returned (record n { raft = r }) false
]

module _ (net : Network) where
  -- `_replicate_to_peer` of each peer, in the order of the answers: the requests are all made from
  -- the node `start`, and each answer meets the node that the other tasks have left by then
  unfoldable pub replicate_each :
      RaftNode Command
      → List String
      → DistributedLockManagerNode
      → DistributedLockManagerNode × List (Option Bool)
  replicate_each start [] n = (net.others zero n, [])
  replicate_each start (p ∷ ps) n =
      let n₀ = net.others (suc (length ps)) n in
      elim (net.send p (append_request p start)) [
        | none ↦ (let (n', results) = replicate_each start ps n₀ in (n', none ∷ results))
        | some reply ↦
            let (r, replied) = handle_append_reply p (append_request p start) reply n₀.raft in
            let (n', results) = replicate_each start ps (record n₀ { raft = r }) in
            (n', some replied ∷ results)
      ]

  -- `_replicate_log`: the tasks start when the call first waits
  unfoldable pub replicate_log : DistributedLockManagerNode → Appended
  unfolding replicate_each conclude
  replicate_log n =
      let n₀ = net.others (suc (length n.raft.peers)) n in
      let (n', results) = replicate_each n₀.raft (net.arrivals n.raft.peers) n₀ in
      conclude results n'

  unfoldable pub append_entry : Command → DistributedLockManagerNode → Appended
  unfolding replicate_log finish_append
  append_entry c n =
      if is_leader n.raft
      then (let (r, entry_index) = append_local c n.raft in
          finish_append entry_index (replicate_log (record n { raft = r })))
      else returned n false
