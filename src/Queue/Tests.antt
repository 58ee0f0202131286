-- ===== src/Queue/Tests.antt =====
-- A queue node with numbers for messages: the theorems at concrete inputs.
use sinkronisasi_dan_distrib.Base.{
  ℕ, ◌+◌, String, ◌≡◌, refl, true, false, none, some, List, [], ◌∷◌, lookup, insert, erase, ite,
  dec_string, Option, ◌≢◌, ap, if◌then◌else◌, contains, member, set_add,
}
use sinkronisasi_dan_distrib.Queue.{
  Message, enqueue, ack, blank, QueueNode, queue_of, processing_of, init, append_to_wal, push,
  local_publish, deliver, local_dequeue, local_ack, expired_ids, requeue_one, requeue_each,
  requeue_queues, requeue_round, read_wal, restore_queue, restore, recover_from_wal,
}
use sinkronisasi_dan_distrib.Queue.Copies.{copies, count, one_if, IsValid}
use sinkronisasi_dan_distrib.Queue.Exchange.{local_publish-adds, local_ack-removes}
use sinkronisasi_dan_distrib.Queue.Redelivery.{local_dequeue-keeps, requeue_round-keeps}
use sinkronisasi_dan_distrib.Queue.Recovery.{published, acked, recover_from_wal-unacked}
use sinkronisasi_dan_distrib.Queue.Restart.{
  Op, publishes, dequeues, acks, timeouts, restarts, restart, step, run, init-IsDurable,
  run_from-IsDurable, run-held,
}
use sinkronisasi_dan_distrib.Queue.Handlers.{enqueued}
use sinkronisasi_dan_distrib.Queue.Routing.{publish_at, consume_at}
use sinkronisasi_dan_distrib.Queue.Owner.{Publishes, Consumes, publish_at-owner, consume_at-owner}
use mathlib.Core.Bool.{false≢true}

program : Unit {0}
unfolding lookup insert erase dec_string member set_add init append_to_wal push local_publish
    deliver local_dequeue local_ack expired_ids requeue_one requeue_each requeue_queues
    requeue_round read_wal restore_queue restore recover_from_wal restart step run
program = tt

-- two messages, of which the first was dequeued
abbrev history : List (Op ℕ)
history = publishes "n-1" 5 "jobs" 7 ∷ publishes "n-2" 6 "jobs" 8 ∷ dequeues 10 "jobs" ∷ []

abbrev node : QueueNode ℕ
unfolding program
node = run (init 30) history

node-IsValid : IsValid node
unfolding program
node-IsValid = (run_from-IsDurable (init 30) history (refl, (refl, tt)) (init-IsDurable 30)).valid

-- the first message is delivered once more after its time
delivered_again :
    (local_dequeue 52 "jobs" (local_dequeue 51 "jobs" (requeue_round 50 node)).0).1
    ≡ some (record { id = "n-1"; body = 7; ts = 5 })
unfolding program
delivered_again = refl

requeue_round-keeps_example :
    ((q id : String) → copies q id (requeue_round 50 node) ≡ copies q id node)
    × IsValid (requeue_round 50 node)
requeue_round-keeps_example = requeue_round-keeps 50 node node-IsValid

local_dequeue-keeps_example :
    ((q id : String) → copies q id (local_dequeue 11 "jobs" node).0 ≡ copies q id node)
    × IsValid (local_dequeue 11 "jobs" node).0
local_dequeue-keeps_example = local_dequeue-keeps 11 "jobs" node node-IsValid

local_publish-adds_example :
    ((q id : String)
      → copies q id (local_publish false "n-3" 12 "jobs" 9 node)
        ≡ copies q id node + ite (dec_string "jobs" q) (ite (dec_string "n-3" id) 1 0) 0)
    × IsValid (local_publish false "n-3" 12 "jobs" 9 node)
unfolding program
local_publish-adds_example = local_publish-adds false "n-3" 12 "jobs" 9 node node-IsValid refl

local_ack-removes_example :
    ((local_ack true "jobs" "n-1" node).1 ≡ contains "n-1" (processing_of "jobs" node))
    × ((q id : String)
        → copies q id (local_ack true "jobs" "n-1" node).0 ≡ (
            if contains "n-1" (processing_of "jobs" node)
            then ite
                (dec_string "jobs" q)
                (ite (dec_string "n-1" id) 0 (copies q id node))
                (copies q id node)
            else copies q id node))
    × IsValid (local_ack true "jobs" "n-1" node).0
local_ack-removes_example = local_ack-removes true "jobs" "n-1" node node-IsValid

abbrev restarted : QueueNode ℕ
restarted = record {
  visibility_timeout = 30;
  queues = [];
  processing = [];
  wal =
      enqueue
        (record { id = "n-1"; queue = "jobs"; payload = 7; ts = 5; visibility_timeout = none })
      ∷ blank
      ∷ enqueue
          (record { id = "n-2"; queue = "jobs"; payload = 8; ts = 6; visibility_timeout = none })
      ∷ ack "n-1"
      ∷ [];
}

recover_from_wal-unacked_example :
    count "n-2" (queue_of "jobs" (recover_from_wal restarted))
    ≡ count "n-2" (queue_of "jobs" restarted)
      + (if acked "n-2" restarted.wal then 0 else one_if (published "jobs" "n-2" restarted.wal))
recover_from_wal-unacked_example = recover_from_wal-unacked restarted "jobs" "n-2" refl

run-held_example :
    let s = run {V = ℕ} (init 30) (
      publishes "n-1" 5 "jobs" 7
      ∷ dequeues 6 "jobs"
      ∷ restarts
      ∷ timeouts 90
      ∷ acks "jobs" "n-1"
      ∷ []) in
    copies "jobs" "n-1" s ≡ (if acked "n-1" s.wal then 0 else one_if (published "jobs" "n-1" s.wal))
unfolding program
run-held_example =
    run-held {V = ℕ} 30
      (publishes "n-1" 5 "jobs" 7
        ∷ dequeues 6 "jobs"
        ∷ restarts
        ∷ timeouts 90
        ∷ acks "jobs" "n-1"
        ∷ [])
      "jobs" "n-1" (refl, tt)

-- "a" owns each queue, and the two nodes are alike
abbrev owner : String → Option String
owner q = some "a"

jobs_named : ◌≢◌ {A = String} "jobs" ""
unfolding program
jobs_named e = false≢true (ap (λ x. ite (dec_string x "") true false) e)

abbrev third : Message ℕ
third = record { id = "n-9"; queue = "jobs"; payload = 9; ts = 20; visibility_timeout = none }

publish_at-owner_example :
    let (cl', response) =
      publish_at owner (λ _. true) (λ _. node) "b" true (λ j. "n-9") 20 "jobs" 9 in
    Publishes true third "a" (λ _. node) cl' × (response ≡ enqueued "n-9")
publish_at-owner_example =
    publish_at-owner owner (λ _. true) (λ _. node) "b" "a" true (λ j. "n-9") 20 "jobs" 9 jobs_named
      refl refl

consume_at-owner_example :
    let (cl', response) = consume_at owner (λ _. true) (λ _. node) "b" 20 "jobs" in
    Consumes 20 "jobs" "b" "a" (λ _. node) cl' response
consume_at-owner_example =
    consume_at-owner owner (λ _. true) (λ _. node) "b" "a" 20 "jobs" jobs_named refl refl
