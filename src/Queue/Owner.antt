-- ===== src/Queue/Owner.antt =====
-- What a publish or a consume at any node of the cluster does to the node that owns the queue.
use sinkronisasi_dan_distrib.Base.{
  ℕ, ◌+◌, String, ◌≡◌, ◌≢◌, refl, sym, ap, Bool, true, false, Option, none, some, List, [], ◌∷◌,
  ◌++◌, lookup, lookup-insert_self, lookup-insert_beside, ite, dec_string, if◌then◌else◌, if_pos,
  if_neg, arith,
}
use sinkronisasi_dan_distrib.Queue.{
  Message, enqueue, QueueNode, or_empty, queue_of, processing_of, append_to_wal, push,
  local_publish, deliver, local_dequeue,
}
use sinkronisasi_dan_distrib.Queue.Handlers.{
  Response, enqueued, delivered, queue_empty, forward_failed,
}
use sinkronisasi_dan_distrib.Queue.Routing.{
  Cluster, put_node, publish_at, consume_at, heard, publish_at-routes, consume_at-routes,
}

module _ {V : Type 0} where
  put_node-at : (cl : Cluster V) (t : String) (n : QueueNode V) → put_node cl t n t ≡ n
  unfolding put_node
  put_node-at cl t n = if_pos (dec_string t t) refl n (cl t)

  put_node-beside :
      (cl : Cluster V) (t j : String) (n : QueueNode V) → j ≢ t → put_node cl t n j ≡ cl j
  unfolding put_node
  put_node-beside cl t j n h = if_neg (dec_string t j) (λ e. h (sym e)) n (cl j)

  -- The one message more that a publish leaves: last in its queue at the node `t`, and in the log if
  -- the write succeeds. All else is as before, at this node and at the others.
  pub record Publishes (written : Bool) (msg : Message V) (t : String) (cl cl' : Cluster V)
      : Type 0 where
    pub queued : queue_of msg.queue (cl' t) ≡ queue_of msg.queue (cl t) ++ msg ∷ []
    pub beside : (p : String) → p ≢ msg.queue → queue_of p (cl' t) ≡ queue_of p (cl t)
    pub in_work : (cl' t).processing ≡ (cl t).processing
    pub logged : (cl' t).wal ≡ (if written then (cl t).wal ++ enqueue msg ∷ [] else (cl t).wal)
    pub others : (j : String) → j ≢ t → cl' j ≡ cl j

  local_publish-Publishes :
      (written : Bool) (id : String) (now : ℕ) (q : String) (x : V) (t : String) (cl : Cluster V)
      → let msg : Message V = record {
        id = id;
        queue = q;
        payload = x;
        ts = now;
        visibility_timeout = none;
      } in
        Publishes written msg t cl (put_node cl t (local_publish written id now q x (cl t)))
  unfolding local_publish append_to_wal push
  local_publish-Publishes true id now q x t cl = record {
    queued = rw (put_node-at cl t _) (ap or_empty (lookup-insert_self q _ (cl t).queues));
    beside = λ p h. rw (put_node-at cl t _) (ap or_empty (lookup-insert_beside p q _ _ h));
    in_work = rw (put_node-at cl t _) refl;
    logged = rw (put_node-at cl t _) refl;
    others = λ j h. put_node-beside cl t j _ h;
  }
  local_publish-Publishes false id now q x t cl = record {
    queued = rw (put_node-at cl t _) (ap or_empty (lookup-insert_self q _ (cl t).queues));
    beside = λ p h. rw (put_node-at cl t _) (ap or_empty (lookup-insert_beside p q _ _ h));
    in_work = rw (put_node-at cl t _) refl;
    logged = rw (put_node-at cl t _) refl;
    others = λ j h. put_node-beside cl t j _ h;
  }

  -- What a consume at the node `me` leaves and answers, for what the queue held at its owner `t`: of
  -- an empty queue only the owner itself says that it is empty; the first message of a queue goes to
  -- the messages in processing, with its deadline, and to the consumer.
  abbrev pub Takes :
      ℕ
      → String
      → String
      → String
      → QueueNode V
      → QueueNode V
      → Response V
      → List (Message V)
      → Type 0
  Takes now q me t n n' r [] =
      (queue_of q n' ≡ [])
      × (n'.processing ≡ n.processing)
      × (r ≡ ite (dec_string t me) queue_empty forward_failed)
  Takes now q me t n n' r (msg ∷ rest) =
      (queue_of q n' ≡ rest)
      × (lookup msg.id (processing_of q n')
          ≡ some (record msg { visibility_timeout = some (now + n.visibility_timeout) }))
      × ((id : String)
          → id ≢ msg.id
          → lookup id (processing_of q n') ≡ lookup id (processing_of q n))
      × (r ≡ delivered (record { id = msg.id; body = msg.payload; ts = msg.ts }))

  pub record Consumes (now : ℕ) (q me t : String) (cl cl' : Cluster V) (r : Response V)
      : Type 0 where
    pub takes : Takes now q me t (cl t) (cl' t) r (queue_of q (cl t))
    pub beside :
        (p : String)
        → p ≢ q
        → (queue_of p (cl' t) ≡ queue_of p (cl t))
          × (processing_of p (cl' t) ≡ processing_of p (cl t))
    pub same_log : (cl' t).wal ≡ (cl t).wal
    pub others : (j : String) → j ≢ t → cl' j ≡ cl j

  deliver-Takes :
      (owner : String → Option String) (up : String → Bool) (cl : Cluster V) (now : ℕ)
      (q me t : String) (ms : List (Message V)) (n : QueueNode V)
      → let (n', d) = deliver now q ms n in Takes now q me t n n' (heard owner up cl me t d) ms
  unfolding deliver
  deliver-Takes owner up cl now q me t [] n =
      (ap or_empty (lookup-insert_self q [] n.queues), refl, ground arith)
  deliver-Takes owner up cl now q me t (msg ∷ rest) n = (
    ap or_empty (lookup-insert_self q rest n.queues),
    rw (lookup-insert_self q _ n.processing) (lookup-insert_self msg.id _ (processing_of q n)),
    λ id h.
        rw (lookup-insert_self q _ n.processing)
          (lookup-insert_beside id msg.id _ (processing_of q n) h),
    refl,
  )

  deliver-beside :
      (now : ℕ) (p q : String) (ms : List (Message V)) (n : QueueNode V)
      → p ≢ q
      → let n' = (deliver now q ms n).0 in
        (queue_of p n' ≡ queue_of p n) × (processing_of p n' ≡ processing_of p n)
  unfolding deliver
  deliver-beside now p q [] n h = (ap or_empty (lookup-insert_beside p q _ _ h), refl)
  deliver-beside now p q (msg ∷ rest) n h =
      (ap or_empty (lookup-insert_beside p q _ _ h), ap or_empty (lookup-insert_beside p q _ _ h))

  wal-deliver :
      (now : ℕ) (q : String) (ms : List (Message V)) (n : QueueNode V)
      → (deliver now q ms n).0.wal ≡ n.wal
  unfolding deliver
  wal-deliver now q [] n = refl
  wal-deliver now q (msg ∷ rest) n = refl

  module _ (owner : String → Option String) (up : String → Bool) (cl : Cluster V) where
    local_dequeue-Consumes :
        (now : ℕ) (q me t : String)
        → let (n, d) = local_dequeue now q (cl t) in
          Consumes now q me t cl (put_node cl t n) (heard owner up cl me t d)
    unfolding local_dequeue
    local_dequeue-Consumes now q me t =
        let n = (deliver now q (queue_of q (cl t)) (cl t)).0 in
        record {
          takes =
              rw (put_node-at cl t n)
                (deliver-Takes owner up cl now q me t (queue_of q (cl t)) (cl t));
          beside =
              λ p h. rw (put_node-at cl t n) (deliver-beside now p q (queue_of q (cl t)) (cl t) h);
          same_log = rw (put_node-at cl t n) (wal-deliver now q (queue_of q (cl t)) (cl t));
          others = λ j h. put_node-beside cl t j n h;
        }

    -- Where the ring gives a queue with a name to a node that answers, a publish at any node puts the
    -- message at the end of that queue at that node, and in its log if the write succeeds, changes
    -- nothing else there and no other node, and answers "enqueued" with the message's id.
    pub publish_at-owner :
        (me t : String) (written : Bool) (fresh : String → String) (now : ℕ) (q : String) (x : V)
        → q ≢ ""
        → owner q ≡ some t
        → up t ≡ true
        → let msg : Message V = record {
          id = fresh t;
          queue = q;
          payload = x;
          ts = now;
          visibility_timeout = none;
        } in
          let (cl', response) = publish_at owner up cl me written fresh now q x in
          Publishes written msg t cl cl' × (response ≡ enqueued (fresh t))
    publish_at-owner me t written fresh now q x ne own live =
        rw (publish_at-routes owner up cl me t written fresh now q x ne own live)
          (local_publish-Publishes written (fresh t) now q x t cl, refl)

    -- Where the ring gives a queue with a name to a node that answers, a consume at any node takes the
    -- first message of that queue at that node, keeps it there as in processing with its deadline,
    -- and delivers it; of an empty queue only the owner itself says that it is empty, and the other
    -- nodes say that the forward failed. The other queues and nodes and the log are as before.
    pub consume_at-owner :
        (me t : String) (now : ℕ) (q : String)
        → q ≢ ""
        → owner q ≡ some t
        → up t ≡ true
        → let (cl', response) = consume_at owner up cl me now q in
          Consumes now q me t cl cl' response
    consume_at-owner me t now q ne own live =
        rw (consume_at-routes owner up cl me t now q ne own live)
          (local_dequeue-Consumes now q me t)
