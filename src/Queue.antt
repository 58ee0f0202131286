-- ===== src/Queue.antt =====
-- src/nodes/queue_node.py: the state of a `DistributedQueueNode` and what its operations do to it. The
-- time, the fresh id of a message and whether the write to the log succeeded are arguments.
pub mod Copies
pub mod Redelivery
pub mod Exchange
pub mod Recovery
pub mod Log
pub mod Durable
pub mod Restart
pub mod Handlers
pub mod Routing
pub mod Owner
mod Tests
use mathlib.Core.Option
use sinkronisasi_dan_distrib.Base.{
  ℕ, zero, ◌+◌, String, Bool, true, false, Option, none, some, List, [], ◌∷◌, ◌++◌, Dict, lookup,
  insert, erase, ite, dec_string, if◌then◌else◌, ltb, length, member, set_add, contains, keys,
}

-- `msg_data`; `visibility_timeout` is there while the message is processed.
pub record Message (V : Type 0) : Type 0 where
  pub id : String
  pub queue : String
  pub payload : V
  pub ts : ℕ
  pub visibility_timeout : Option ℕ

-- A line of the log: blank, an ENQUEUE, an ACK, or one that the recovery cannot read.
pub data Line (V : Type 0) : Type 0 where
  blank malformed : Line V
  enqueue : Message V → Line V
  ack : String → Line V

pub record QueueNode (V : Type 0) : Type 0 where
  pub visibility_timeout : ℕ
  pub queues : Dict (List (Message V))
  pub processing : Dict (Dict (Message V))
  pub wal : List (Line V)

-- what `_local_dequeue` returns of a message
pub record Delivery (V : Type 0) : Type 0 where
  pub id : String
  pub body : V
  pub ts : ℕ

-- an access to a `defaultdict`
abbrev pub or_empty {ℓ} : {A : Type ℓ} → Option (List A) → List A
or_empty none = []
or_empty (some xs) = xs

module _ {V : Type 0} where
  abbrev pub queue_of : String → QueueNode V → List (Message V)
  queue_of q s = or_empty (lookup q s.queues)

  abbrev pub processing_of : String → QueueNode V → Dict (Message V)
  processing_of q s = or_empty (lookup q s.processing)

  unfoldable pub init : ℕ → QueueNode V
  init timeout = record { visibility_timeout = timeout; queues = []; processing = []; wal = [] }

  -- `_append_to_wal`: a write that fails is logged and passed over
  unfoldable pub append_to_wal : Bool → Line V → QueueNode V → QueueNode V
  append_to_wal true line s = record s { wal = s.wal ++ line ∷ [] }
  append_to_wal false line s = s

  unfoldable pub push : String → Message V → QueueNode V → QueueNode V
  push q msg s = record s { queues = insert q (queue_of q s ++ msg ∷ []) s.queues }

  -- the local branch of `handle_publish`
  unfoldable pub local_publish : Bool → String → ℕ → String → V → QueueNode V → QueueNode V
  unfolding append_to_wal push
  local_publish written id now q payload s =
      let msg : Message V = record {
        id = id;
        queue = q;
        payload = payload;
        ts = now;
        visibility_timeout = none;
      } in
      push q msg (append_to_wal written (enqueue msg) s)

  -- `_local_dequeue` for what the queue holds
  unfoldable pub deliver :
      ℕ → String → List (Message V) → QueueNode V → QueueNode V × Option (Delivery V)
  deliver now q [] s = (record s { queues = insert q [] s.queues }, none)
  deliver now q (msg ∷ rest) s = (
    record s {
      queues = insert q rest s.queues;
      processing =
          insert q
            (insert msg.id (record msg { visibility_timeout = some (now + s.visibility_timeout) })
              (processing_of q s))
            s.processing;
    },
    some (record { id = msg.id; body = msg.payload; ts = msg.ts }),
  )

  unfoldable pub local_dequeue : ℕ → String → QueueNode V → QueueNode V × Option (Delivery V)
  unfolding deliver
  local_dequeue now q s = deliver now q (queue_of q s) s

  unfoldable pub local_ack : Bool → String → String → QueueNode V → QueueNode V × Bool
  unfolding append_to_wal
  local_ack written q id s =
      let touched = record s { processing = insert q (processing_of q s) s.processing } in
      if contains id (processing_of q s)
      then (
        append_to_wal written (ack id)
            (record s { processing = insert q (erase id (processing_of q s)) s.processing }),
        true,
      )
      else (touched, false)

  abbrev pub deadline : Message V → ℕ
  deadline msg = elim msg.visibility_timeout [ none ↦ 0 | some t ↦ t ]

  -- `expired`: the ids in processing whose time is over
  unfoldable pub expired_ids : ℕ → Dict (Message V) → List String
  expired_ids now [] = []
  expired_ids now ((id, msg) ∷ d) =
      let rest = expired_ids now d in if ltb (deadline msg) now then id ∷ rest else rest

  -- a message that goes back to its queue
  unfoldable pub requeue_one : String → String → QueueNode V → QueueNode V
  unfolding push
  requeue_one q id s = elim (lookup id (processing_of q s)) [
    | none ↦ s
    | some msg ↦
        push q (record msg { visibility_timeout = none })
          (record s { processing = insert q (erase id (processing_of q s)) s.processing })
  ]

  unfoldable pub requeue_each : String → List String → QueueNode V → QueueNode V
  requeue_each q [] s = s
  requeue_each q (id ∷ ids) s = requeue_each q ids (requeue_one q id s)

  unfoldable pub requeue_queues : ℕ → List String → QueueNode V → QueueNode V
  unfolding requeue_each
  requeue_queues now [] s = s
  requeue_queues now (q ∷ qs) s =
      requeue_queues now qs (requeue_each q (expired_ids now (processing_of q s)) s)

  -- one round of `_requeue_loop`
  unfoldable pub requeue_round : ℕ → QueueNode V → QueueNode V
  unfolding requeue_queues
  requeue_round now s = requeue_queues now (keys s.processing) s

  -- `_recover_from_wal`: the messages by queue and id, and the ids that were acknowledged
  unfoldable pub read_wal :
      List (Line V)
      → Dict (Dict (Message V))
      → List String
      → Option (Dict (Dict (Message V)) × List String)
  read_wal [] temp acked = some (temp, acked)
  read_wal (blank ∷ w) temp acked = read_wal w temp acked
  read_wal (malformed ∷ w) temp acked = none
  read_wal (enqueue msg ∷ w) temp acked =
      read_wal w (insert msg.queue (insert msg.id msg (or_empty (lookup msg.queue temp))) temp)
        acked
  read_wal (ack id ∷ w) temp acked = read_wal w temp (set_add id acked)

  unfoldable pub restore_queue : List String → String → Dict (Message V) → QueueNode V → QueueNode V
  unfolding push
  restore_queue acked q [] s = s
  restore_queue acked q ((id, msg) ∷ d) s =
      restore_queue acked q d (if member id acked then s else push q msg s)

  unfoldable pub restore : List String → Dict (Dict (Message V)) → QueueNode V → QueueNode V
  unfolding restore_queue
  restore acked [] s = s
  restore acked ((q, d) ∷ temp) s = restore acked temp (restore_queue acked q d s)

  -- A line that cannot be read stops the recovery before it restores a message.
  unfoldable pub recover_from_wal : QueueNode V → QueueNode V
  unfolding restore read_wal
  recover_from_wal s = elim (read_wal s.wal [] []) [
    | none ↦ s
    | some (temp, acked) ↦ restore acked temp s
  ]
