-- ===== src/LockManager/Node/Handlers.antt =====
-- src/nodes/lock_manager.py: the HTTP handlers of `DistributedLockManagerNode` and the rounds of its
-- two loops. `meanwhile` is what other tasks do while a handler waits.
use sinkronisasi_dan_distrib.Base.{
  truthy, ℕ, zero, suc, String, true, false, Option, none, some, List, [], ◌∷◌, ◌++◌, insert, erase,
  if◌then◌else◌, length, get_elem?,
}
use sinkronisasi_dan_distrib.MessageBus.{Reply}
use sinkronisasi_dan_distrib.Raft.{is_leader}
use sinkronisasi_dan_distrib.LockManager.{
  Mode, exclusive, Command, acquire, release, abort, Result, get_status, lock_snapshot,
  expired_holders,
}
use sinkronisasi_dan_distrib.LockManager.Deadlock.{
  Verdict, victim, no_verdict, find_deadlock_victim,
}
use sinkronisasi_dan_distrib.LockManager.Node.{
  Future, unset, cancelled, set, DistributedLockManagerNode, Appended, returned, raised, Network,
  append_entry,
}
use sinkronisasi_dan_distrib.LockManager.Node.Forward.{
  Response, answered, timed_out, commit_failed, status_ok, unknown_request, missing_query,
  server_error, snapshot_of, proxy_to_leader,
}

infixl 20 ◌>>=◌
abbrev ◌>>=◌ : {A B : Type 0} → Option A → (A → Option B) → Option B
none >>= f = none
some x >>= f = f x

-- the body of POST /lock/acquire; `none` is a missing key
pub record AcquireData : Type 0 where
  pub request_id : Option String
  pub lock : Option String
  pub client_id : Option String
  pub mode : Option Mode
  pub ttl_ms : Option ℕ

abbrev pub or_mode : Option Mode → Mode
or_mode none = exclusive
or_mode (some m) = m

abbrev pub or_else_string : String → Option String → String
or_else_string s none = s
or_else_string s (some t) = t

-- `data.get("request_id") or str(uuid.uuid4())`
unfoldable pub choose_id : String → AcquireData → String
choose_id uuid d = or_else_string uuid (truthy d.request_id)

-- the command of `handle_acquire`; `none` is a KeyError
unfoldable pub acquire_command : String → ℕ → AcquireData → Option Command
unfolding choose_id
acquire_command uuid now d = do
  lock ← d.lock
  client_id ← d.client_id
  some (
      acquire (record {
        request_id = choose_id uuid d;
        lock_name = lock;
        client_id = client_id;
        mode = or_mode d.mode;
        created_at = now;
        ttl_ms = d.ttl_ms;
      }))

-- `self.pending_futures[request_id] = future`, of a new future
unfoldable pub create_future : String → DistributedLockManagerNode → DistributedLockManagerNode
create_future id n = record n {
  pending_futures = insert id (length n.futures) n.pending_futures;
  futures = n.futures ++ unset ∷ [];
}

-- `wait_for` cancels a future at the timeout
unfoldable pub cancel : ℕ → List Future → List Future
cancel i [] = []
cancel zero (unset ∷ fs) = cancelled ∷ fs
cancel zero (cancelled ∷ fs) = cancelled ∷ fs
cancel zero (set r ∷ fs) = set r ∷ fs
cancel (suc i) (f ∷ fs) = f ∷ cancel i fs

abbrev pub result_of : Option Future → Option Result
result_of none = none
result_of (some unset) = none
result_of (some cancelled) = none
result_of (some (set r)) = some r

abbrev release_command : Option String → Option String → Option Command
release_command lock client_id = do name ← lock; client ← client_id; some (release name client)

module _ {D : Type 0} where
  module _ (meanwhile : DistributedLockManagerNode → DistributedLockManagerNode) where
    -- `wait_for(future, timeout)`: a future that is done is read at once
    unfoldable pub wait_for :
        String → ℕ → DistributedLockManagerNode → DistributedLockManagerNode × Response D
    unfolding cancel
    wait_for id f n = elim (result_of (get_elem? n.futures f)) [
      | some r ↦ (n, answered r)
      | none ↦
          let n' = meanwhile n in
          elim (result_of (get_elem? n'.futures f)) [
            | some r ↦ (n', answered r)
            | none ↦ (record n' { futures = cancel f n'.futures }, timed_out id)
          ]
    ]

    unfoldable pub finish_acquire : String → ℕ → Appended → DistributedLockManagerNode × Response D
    unfolding wait_for
    finish_acquire id f (raised n) = (n, server_error)
    finish_acquire id f (returned n false) =
        (record n { pending_futures = erase id n.pending_futures }, commit_failed)
    finish_acquire id f (returned n true) = wait_for id f n

    unfoldable pub handle_acquire :
        Network
        → String
        → ℕ
        → (ℕ → Option String)
        → (ℕ → String → Reply D)
        → AcquireData
        → DistributedLockManagerNode
        → DistributedLockManagerNode × Response D
    unfolding acquire_command create_future proxy_to_leader finish_acquire choose_id
    handle_acquire net uuid now seen forward d n =
        if is_leader n.raft
        then elim (acquire_command uuid now d) [
          | none ↦ (n, server_error)
          | some command ↦
              let id = choose_id uuid d in
              finish_acquire id (length n.futures) (append_entry net command (create_future id n))
        ]
        else (n, proxy_to_leader seen forward)

  unfoldable pub finish_release : Appended → DistributedLockManagerNode × Response D
  finish_release (raised n) = (n, server_error)
  finish_release (returned n false) = (n, commit_failed)
  finish_release (returned n true) = (n, status_ok)

  -- the body of POST /lock/release is the lock and the client; `none` is a missing key
  unfoldable pub handle_release :
      Network
      → (ℕ → Option String)
      → (ℕ → String → Reply D)
      → Option String × Option String
      → DistributedLockManagerNode
      → DistributedLockManagerNode × Response D
  unfolding proxy_to_leader finish_release
  handle_release net seen forward (lock, client_id) n =
      if is_leader n.raft
      then elim (release_command lock client_id) [
        | none ↦ (n, server_error)
        | some command ↦ finish_release (append_entry net command n)
      ]
      else (n, proxy_to_leader seen forward)

  unfoldable pub handle_status :
      Option String → Option String → DistributedLockManagerNode → Response D
  unfolding truthy
  handle_status request_id lock_name n = elim (truthy request_id) [
    | some id ↦ elim (get_status n.lock_state id) [ some r ↦ answered r | none ↦ unknown_request ]
    | none ↦ elim (truthy lock_name) [
      | some name ↦ snapshot_of (lock_snapshot n.lock_state name)
      | none ↦ missing_query
    ]
  ]

unfoldable pub handle_leader : DistributedLockManagerNode → Option String
handle_leader n = n.raft.leader_id

module _ (net : Network) where
  -- `if victim`, and then its abort
  unfoldable pub abort_victim : Verdict → DistributedLockManagerNode → Appended
  unfolding truthy
  abort_victim no_verdict n = raised n
  abort_victim (victim v) n = elim (truthy v) [
    | none ↦ returned n false
    | some id ↦ append_entry net (abort id (some "deadlock")) n
  ]

  -- a round of `_deadlock_loop`
  unfoldable pub deadlock_round :
      (List String → List String) → DistributedLockManagerNode → Appended
  unfolding abort_victim
  deadlock_round order n =
      if is_leader n.raft
      then abort_victim (find_deadlock_victim order n.lock_state.locks) n
      else returned n false

  -- the loop over `expired`: an IndexError ends it
  unfoldable pub release_each : List (String × String) → DistributedLockManagerNode → Appended
  release_each [] n = returned n true
  release_each ((lock, client_id) ∷ items) n = elim (append_entry net (release lock client_id) n) [
    | returned n' success ↦ release_each items n'
    | raised n' ↦ raised n'
  ]

  -- a round of `_expiry_loop`
  unfoldable pub expiry_round : ℕ → DistributedLockManagerNode → Appended
  unfolding release_each
  expiry_round now n =
      if is_leader n.raft
      then release_each (expired_holders now n.lock_state.locks) n
      else returned n false
