-- ===== src/LockManager/Node/Forward.antt =====
-- src/nodes/lock_manager.py: the answers of the handlers, and `_proxy_to_leader`. `seen` is
-- `self.raft.leader_id` each time that it is read, and `forward` is the bus's call of the leader, the
-- first and the second.
use sinkronisasi_dan_distrib.Base.{
  truthy, ℕ, zero, suc, ◌+◌, String, Option, none, some, if◌then◌else◌, ltb,
}
use sinkronisasi_dan_distrib.MessageBus.{Reply, replied, failed, partitioned, unknown_peer}
use sinkronisasi_dan_distrib.LockManager.{Result, Snapshot}

-- The answers of the handlers. `proxied` is the leader's own, and `server_error` is aiohttp's 500.
pub data Response (D : Type 0) : Type 0 where
  answered : Result → Response D
  timed_out : String → Response D
  commit_failed leader_unknown leader_unreachable : Response D
  proxied : ℕ → D → Response D
  status_ok unknown_request missing_query server_error : Response D
  snapshot_of : Snapshot → Response D

-- the loop of ten reads
unfoldable pub poll_leader : (ℕ → Option String) → ℕ → ℕ → Option String
unfolding truthy
poll_leader seen zero i = none
poll_leader seen (suc rounds) i = elim (truthy (seen i)) [
  | some leader ↦ some leader
  | none ↦ poll_leader seen rounds (i + 1)
]

-- the leader that `_proxy_to_leader` first sends to
unfoldable pub find_leader : (ℕ → Option String) → Option String
unfolding truthy poll_leader
find_leader seen = elim (truthy (seen 0)) [
  | some leader ↦ some leader
  | none ↦ poll_leader seen 10 1
]

module _ {D : Type 0} where
  unfoldable pub forwarded : Reply D → Option (Response D)
  forwarded (replied status body) = if ltb status 400 then some (proxied status body) else none
  forwarded failed = none
  forwarded partitioned = none
  forwarded unknown_peer = none

  -- `leader_id` is read once more after a send that fails
  unfoldable pub send_again : (ℕ → Option String) → (ℕ → String → Reply D) → Response D
  unfolding truthy forwarded
  send_again seen forward = elim (truthy (seen 11)) [
    | none ↦ leader_unreachable
    | some leader ↦ elim (forwarded (forward 1 leader)) [
      | some response ↦ response
      | none ↦ leader_unreachable
    ]
  ]

  unfoldable pub proxy_to_leader : (ℕ → Option String) → (ℕ → String → Reply D) → Response D
  unfolding find_leader forwarded send_again
  proxy_to_leader seen forward = elim (find_leader seen) [
    | none ↦ leader_unknown
    | some leader ↦ elim (forwarded (forward 0 leader)) [
      | some response ↦ response
      | none ↦ send_again seen forward
    ]
  ]
