-- ===== src/LockManager/Node/Tests.antt =====
-- Runs of a lock manager node.
use sinkronisasi_dan_distrib.Base.{
  truthy, ℕ, zero, suc, String, ◌≡◌, refl, true, Option, none, some, List, [], ◌∷◌, Dict, lookup,
  insert, erase, ite, dec_string, member, set_add, set_discard, arith,
}
use sinkronisasi_dan_distrib.MessageBus.{Reply, replied, failed}
use sinkronisasi_dan_distrib.Raft.{leader, AppendRequest, AppendReply, majority, term_at}
use sinkronisasi_dan_distrib.Raft.Leader.{
  apply_next, apply_rounds, apply_committed, append_local, commit_own, append_request,
  handle_append_reply, majority_index, advance_commit_index, finish_replication,
}
use sinkronisasi_dan_distrib.Raft.Tally.{successes, insert_desc, sort_desc}
use sinkronisasi_dan_distrib.LockManager.{
  exclusive, LockRequest, LockState, init, acquire, Command, granted, apply, apply_acquire,
  apply_abort, acquire_new, can_grant, can_grant_free, grant_request, grant_holder, add_held,
  pop_request, pop_from_locks, expiry,
}
use sinkronisasi_dan_distrib.LockManager.Deadlock.{
  add_all, add_waiters, wait_graph, trace, close, scan, graph_names, dfs, roots, find_cycle,
  waiting_in, candidates, insert_newest, sort_newest, find_deadlock_victim,
}
use sinkronisasi_dan_distrib.LockManager.Node.{
  DistributedLockManagerNode, request_id_of, set_result, resolve, apply_command, apply_commands,
  apply_all, replicate_each, replicate_log, finish_append, append_entry, conclude, Network,
}
use sinkronisasi_dan_distrib.LockManager.Node.Forward.{
  answered, timed_out, proxied, poll_leader, find_leader, forwarded, send_again, proxy_to_leader,
}
use sinkronisasi_dan_distrib.LockManager.Node.Handlers.{
  AcquireData, cancel, choose_id, acquire_command, create_future, wait_for, finish_acquire,
  handle_acquire, abort_victim, deadlock_round,
}
use sinkronisasi_dan_distrib.LockManager.Node.Keyed.{IsKeyed}
use sinkronisasi_dan_distrib.LockManager.Node.Acquire.{
  Created, IsSound, AcquireEnds, handle_acquire-AcquireEnds,
}
use sinkronisasi_dan_distrib.LockManager.Node.Owns.{create_future-KeepsOwn}
use sinkronisasi_dan_distrib.LockManager.Node.Owned.{node_after, handle_acquire-own}
use sinkronisasi_dan_distrib.LockManager.Node.Rounds.{Aborts, deadlock_round-Aborts}
use sinkronisasi_dan_distrib.LockManager.Node.Proxy.{ProxyEnds, proxy_to_leader-ProxyEnds}

program : Unit {0}
unfolding lookup insert erase member set_add set_discard dec_string majority term_at apply_next
    apply_rounds apply_committed append_local commit_own append_request handle_append_reply
    majority_index advance_commit_index finish_replication successes insert_desc sort_desc apply
    apply_acquire apply_abort acquire_new can_grant can_grant_free grant_request grant_holder
    add_held expiry pop_request pop_from_locks add_all add_waiters wait_graph trace close scan
    graph_names dfs roots find_cycle waiting_in candidates insert_newest sort_newest
    find_deadlock_victim truthy request_id_of set_result resolve apply_command apply_commands
    apply_all replicate_each replicate_log conclude finish_append append_entry choose_id
    acquire_command create_future wait_for finish_acquire handle_acquire abort_victim deadlock_round
    poll_leader find_leader forwarded send_again proxy_to_leader
program = tt

abbrev request : String → String → String → ℕ → LockRequest
request id lock client time = record {
  request_id = id;
  lock_name = lock;
  client_id = client;
  mode = exclusive;
  created_at = time;
  ttl_ms = none;
}

abbrev lock : String → List LockRequest → LockState
lock holder queue = record {
  holders = (holder, exclusive) ∷ [];
  holder_expiry = (holder, none) ∷ [];
  queue = queue;
}

-- "a" and "b" wait for each other
abbrev locks : Dict LockState
locks =
    ("l", lock "a" (request "r1" "l" "b" 5 ∷ []))
    ∷ ("m", lock "b" (request "r2" "m" "a" 7 ∷ []))
    ∷ []

-- the leader of two others, with an empty log
abbrev leader_node : DistributedLockManagerNode
leader_node = record {
  lock_state = record init { locks = locks };
  raft = record {
    node_id = "n1";
    peers = "n2" ∷ "n3" ∷ [];
    state = leader;
    current_term = 2;
    voted_for = some "n1";
    log = [];
    commit_index = 0;
    last_applied = 0;
    next_index = ("n2", 0) ∷ ("n3", 0) ∷ [];
    match_index = ("n2", 0) ∷ ("n3", 0) ∷ [];
    leader_id = some "n1";
    last_heartbeat = 0;
  };
  pending_futures = [];
  futures = [];
}

-- "n2" stores what it is sent, and "n3" does not answer
abbrev send : String → AppendRequest Command → Option (Option AppendReply)
send peer q = ite (dec_string peer "n2") (some (some (record { term = 2; success = true }))) none

abbrev untouched : ℕ → DistributedLockManagerNode → DistributedLockManagerNode
untouched k n = n

abbrev network : Network
network = record { send = send; arrivals = λ ps. ps; others = untouched }

abbrev in_order : List String → List String
in_order s = s

abbrev no_others : DistributedLockManagerNode → DistributedLockManagerNode
no_others n = n

abbrev body : AcquireData
body = record {
  request_id = some "r9";
  lock = some "k";
  client_id = some "x";
  mode = none;
  ttl_ms = none;
}

-- the leader is known from the third read on, and its second answer is good
abbrev reads : ℕ → Option String
reads zero = none
reads (suc zero) = some ""
reads (suc (suc n)) = some "n2"

abbrev answers : ℕ → String → Reply ℕ
answers zero peer = failed
answers (suc n) peer = replied 200 42

granted_now :
    (handle_acquire {D = ℕ} no_others network "u" 1 reads answers body leader_node).1
    ≡ answered (granted "r9" "k" "x" exclusive)
unfolding program
granted_now = refl

proxied_second : proxy_to_leader reads answers ≡ proxied 200 42
unfolding program
proxied_second = refl

-- a request with the same id comes in while the first one waits for its peers
abbrev retried : ℕ → DistributedLockManagerNode → DistributedLockManagerNode
unfolding create_future
retried (suc zero) n = create_future "r9" n
retried zero n = n
retried (suc (suc k)) n = n

overwritten :
    (handle_acquire {D = ℕ} no_others
      (record network { others = retried })
      "u"
      1
      reads
      answers
      body
      leader_node).1
    ≡ timed_out "r9"
unfolding program retried cancel
overwritten = refl

leader_node-IsSound : IsSound leader_node
unfolding program IsKeyed Created
leader_node-IsSound = record {
  leads = refl;
  fits = record { before = omega arith; within = omega arith };
  keyed = λ k r h. cc;
  created = λ j g h. cc;
}

handle_acquire-AcquireEnds_example :
    let (n', response) =
      handle_acquire {D = ℕ} no_others network "u" 1 reads answers body leader_node in
    AcquireEnds (acquire (request "r9" "k" "x" 1)) (choose_id "u" body) leader_node n' response
unfolding program
handle_acquire-AcquireEnds_example =
    handle_acquire-AcquireEnds network no_others "u" 1 reads answers body
      (acquire (request "r9" "k" "x" 1)) leader_node (λ k n. refl) (λ e. cc) refl
      leader_node-IsSound

abbrev after_round : DistributedLockManagerNode
after_round = node_after (deadlock_round network in_order leader_node)

deadlock_round-Aborts_example : Aborts "r2" leader_node.lock_state after_round.lock_state
unfolding program
deadlock_round-Aborts_example =
    deadlock_round-Aborts network in_order leader_node after_round "r2" (λ k n. refl) (λ x ns. refl)
      refl leader_node-IsSound.fits refl refl (λ e. cc) refl

proxy_to_leader-ProxyEnds_example : ProxyEnds reads answers (proxy_to_leader reads answers)
proxy_to_leader-ProxyEnds_example = proxy_to_leader-ProxyEnds reads answers

-- another request comes in at every wait
abbrev busy : Network
busy = record network { others = λ k n. create_future "r8" n }

handle_acquire-own_example :
    request_id_of (granted "r9" "k" "x" exclusive) ≡ some (choose_id "u" body)
unfolding program
handle_acquire-own_example =
    handle_acquire-own {D = ℕ} busy (create_future "r8") "u" 1 reads answers body leader_node
      (granted "r9" "k" "x" exclusive) (λ k id f n v. create_future-KeepsOwn "r8" id f n v)
      (λ id f n v. create_future-KeepsOwn "r8" id f n v) refl leader_node-IsSound.created refl
