-- ===== src/Queue/Handlers.antt =====
-- src/nodes/queue_node.py: the HTTP handlers of a queue node. `owner` is `self.ring.get_node`. A handler
-- answers itself, or sends the request to the node that the ring names. A field that is absent is the
-- empty string.
use sinkronisasi_dan_distrib.Base.{
  ℕ, String, Bool, true, false, Option, none, some, Dict, ite, dec_string, if◌then◌else◌, length,
  lookup, insert,
}
use sinkronisasi_dan_distrib.Queue.{
  QueueNode, Delivery, queue_of, processing_of, local_publish, local_dequeue, local_ack,
}
use sinkronisasi_dan_distrib.MessageBus.{PeerInfo}

pub data Response (V : Type 0) : Type 0 where
  missing_fields missing_queue queue_empty acked not_found_or_expired : Response V
  forward_failed peer_not_found : Response V
  enqueued : String → Response V
  delivered : Delivery V → Response V
  stats : String → ℕ → ℕ → Response V

-- The handler's own answer with the node after it, or the node to forward to.
pub data Outcome (V : Type 0) : Type 0 where
  done : QueueNode V → Response V → Outcome V
  forward : Option String → Outcome V

abbrev pub is_some_me : String → Option String → Bool
is_some_me me none = false
is_some_me me (some t) = ite (dec_string t me) true false

module _ {V : Type 0} where
  -- an HTTP status below 400
  abbrev pub is_ok : Response V → Bool
  is_ok missing_fields = false
  is_ok missing_queue = false
  is_ok queue_empty = false
  is_ok acked = true
  is_ok not_found_or_expired = false
  is_ok forward_failed = false
  is_ok peer_not_found = false
  is_ok (enqueued id) = true
  is_ok (delivered d) = true
  is_ok (stats q p n) = true

  -- what a handler makes of the answer to what it forwarded; no answer is `none`
  unfoldable pub forward_reply : Option (Response V) → Response V
  forward_reply none = forward_failed
  forward_reply (some r) = if is_ok r then r else forward_failed

  module _ (owner : String → Option String) (me : String) where
    -- `handle_publish`, also behind `handle_internal_enqueue`; `id` is the new message's
    unfoldable pub handle_publish : Bool → String → ℕ → String → Option V → QueueNode V → Outcome V
    handle_publish written id now q none s = done s missing_fields
    handle_publish written id now q (some x) s = ite (dec_string q "") (done s missing_fields) (
        if is_some_me me (owner q)
        then done (local_publish written id now q x s) (enqueued id)
        else forward (owner q))

    -- what a dequeue answers
    unfoldable pub dequeued : Option (Delivery V) → Response V
    dequeued none = queue_empty
    dequeued (some d) = delivered d

    unfoldable pub handle_consume : ℕ → String → QueueNode V → Outcome V
    unfolding dequeued
    handle_consume now q s = ite (dec_string q "") (done s missing_queue) (
        if is_some_me me (owner q)
        then (let (s', d) = local_dequeue now q s in done s' (dequeued d))
        else forward (owner q))

    unfoldable pub handle_internal_dequeue : ℕ → String → QueueNode V → Outcome V
    unfolding dequeued
    handle_internal_dequeue now q s = let (s', d) = local_dequeue now q s in done s' (dequeued d)

    -- `handle_ack`, also behind `handle_internal_ack`
    unfoldable pub handle_ack : Bool → String → String → QueueNode V → Outcome V
    handle_ack written q id s = ite (dec_string q "") (done s missing_fields) (
        ite (dec_string id "") (done s missing_fields) (
          if is_some_me me (owner q)
          then (let (s', found) = local_ack written q id s in
              done s' (if found then acked else not_found_or_expired))
          else forward (owner q)))

    -- the branch of `handle_stats` for another node: `ask` is the answer of the peer's /queue/stats
    unfoldable pub peer_stats :
        Dict PeerInfo → (PeerInfo → Option (Response V)) → Option String → Response V
    unfolding forward_reply
    peer_stats peers ask none = peer_not_found
    peer_stats peers ask (some t) = elim (lookup t peers) [
      | none ↦ peer_not_found
      | some peer ↦ forward_reply (ask peer)
    ]

    -- `handle_stats`; both tables get an entry for the queue
    unfoldable pub handle_stats :
        Dict PeerInfo
        → (PeerInfo → Option (Response V))
        → String
        → QueueNode V
        → QueueNode V × Response V
    unfolding peer_stats
    handle_stats peers ask q s =
        ite (dec_string q "") (s, missing_queue)
          (if is_some_me me (owner q)
            then (
              record s {
                queues = insert q (queue_of q s) s.queues;
                processing = insert q (processing_of q s) s.processing;
              },
              stats q (length (queue_of q s)) (length (processing_of q s)),
            )
            else (s, peer_stats peers ask (owner q)))
