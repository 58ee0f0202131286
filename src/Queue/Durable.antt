-- ===== src/Queue/Durable.antt =====
-- A queue node whose writes to the log succeed: what its operations keep.
use sinkronisasi_dan_distrib.Base.{
  ℕ, String, ◌≡◌, refl, sym, ap, ◌∙◌, inl, inr, true, false, none, List, [], ◌∷◌, ◌++◌,
  if◌then◌else◌, contains, keys, arith, Bool-cases,
}
use sinkronisasi_dan_distrib.Queue.{
  Message, enqueue, ack, QueueNode, queue_of, processing_of, append_to_wal, push, local_publish,
  deliver, local_dequeue, local_ack, expired_ids, requeue_one, requeue_each, requeue_queues,
  requeue_round,
}
use sinkronisasi_dan_distrib.Queue.Copies.{copies, IsValid}
use sinkronisasi_dan_distrib.Queue.Exchange.{local_publish-adds, local_ack-removes}
use sinkronisasi_dan_distrib.Queue.Redelivery.{local_dequeue-keeps, requeue_round-keeps}
use sinkronisasi_dan_distrib.Queue.Recovery.{is_readable, published}
use sinkronisasi_dan_distrib.Queue.Log.{
  mentions, unmentioned-published, unmentioned-acked, published-enqueue, published-ack,
  acked-enqueue, acked-ack, readable-append, logged,
}

module _ {V : Type 0} where
  -- The node holds what its log says, and the log names one queue for each id.
  pub record IsDurable (s : QueueNode V) : Type 0 where
    pub valid : IsValid s
    pub readable : is_readable s.wal ≡ true
    pub held : (q id : String) → copies q id s ≡ logged q id s.wal
    pub one_queue :
        (q q' id : String) → published q id s.wal ≡ true → published q' id s.wal ≡ true → q ≡ q'

  wal-requeue_one : (q id : String) (s : QueueNode V) → (requeue_one q id s).wal ≡ s.wal
  unfolding requeue_one push
  wal-requeue_one q id s = ground arith

  wal-requeue_each :
      (q : String) (ids : List String) (s : QueueNode V) → (requeue_each q ids s).wal ≡ s.wal
  unfolding requeue_each
  wal-requeue_each q [] s = refl
  wal-requeue_each q (id ∷ ids) s =
      wal-requeue_each q ids (requeue_one q id s) ∙ wal-requeue_one q id s

  wal-requeue_queues :
      (now : ℕ) (qs : List String) (s : QueueNode V) → (requeue_queues now qs s).wal ≡ s.wal
  unfolding requeue_queues
  wal-requeue_queues now [] s = refl
  wal-requeue_queues now (q ∷ qs) s =
      wal-requeue_queues now qs (requeue_each q (expired_ids now (processing_of q s)) s)
      ∙ wal-requeue_each q (expired_ids now (processing_of q s)) s

  wal-requeue_round : (now : ℕ) (s : QueueNode V) → (requeue_round now s).wal ≡ s.wal
  unfolding requeue_round
  wal-requeue_round now s = wal-requeue_queues now (keys s.processing) s

  wal-deliver :
      (now : ℕ) (q : String) (ms : List (Message V)) (s : QueueNode V)
      → (deliver now q ms s).0.wal ≡ s.wal
  unfolding deliver
  wal-deliver now q [] s = refl
  wal-deliver now q (m ∷ ms) s = refl

  wal-local_dequeue :
      (now : ℕ) (q : String) (s : QueueNode V) → (local_dequeue now q s).0.wal ≡ s.wal
  unfolding local_dequeue
  wal-local_dequeue now q s = wal-deliver now q (queue_of q s) s

  same_log-IsDurable :
      (s s' : QueueNode V)
      → s'.wal ≡ s.wal
      → ((q id : String) → copies q id s' ≡ copies q id s)
      → IsValid s'
      → IsDurable s
      → IsDurable s'
  same_log-IsDurable s s' w c v d = record {
    valid = v;
    readable = ap is_readable w ∙ d.readable;
    held = λ q id. c q id ∙ d.held q id ∙ ap (logged q id) (sym w);
    one_queue = λ q q' id h h'.
        d.one_queue q q' id (ap (published q id) (sym w) ∙ h) (ap (published q' id) (sym w) ∙ h');
  }

  pub local_dequeue-IsDurable :
      (now : ℕ) (q : String) (s : QueueNode V) → IsDurable s → IsDurable (local_dequeue now q s).0
  local_dequeue-IsDurable now q s d =
      let k = local_dequeue-keeps now q s d.valid in
      same_log-IsDurable s (local_dequeue now q s).0 (wal-local_dequeue now q s) k.0 k.1 d

  pub requeue_round-IsDurable :
      (now : ℕ) (s : QueueNode V) → IsDurable s → IsDurable (requeue_round now s)
  requeue_round-IsDurable now s d =
      let k = requeue_round-keeps now s d.valid in
      same_log-IsDurable s (requeue_round now s) (wal-requeue_round now s) k.0 k.1 d

  wal-local_publish :
      (id : String) (now : ℕ) (q : String) (x : V) (s : QueueNode V)
      → (local_publish true id now q x s).wal
        ≡ s.wal
          ++ enqueue
              (record { id = id; queue = q; payload = x; ts = now; visibility_timeout = none })
            ∷ []
  unfolding local_publish append_to_wal push
  wal-local_publish id now q x s = refl

  pub local_publish-IsDurable :
      (id : String) (now : ℕ) (q : String) (x : V) (s : QueueNode V)
      → mentions id s.wal ≡ false
      → IsDurable s
      → IsDurable (local_publish true id now q x s)
  local_publish-IsDurable id now q x s new d =
      let m : Message V = record {
        id = id;
        queue = q;
        payload = x;
        ts = now;
        visibility_timeout = none;
      } in
      let w = wal-local_publish id now q x s in
      let unused : (p : String) → published p id s.wal ≡ false =
        λ p. unmentioned-published p id s.wal new in
      let unacked = unmentioned-acked id s.wal new in
      let k =
        local_publish-adds true id now q x s d.valid (ground (arith, d.held q id, unused q)) in
      record {
        valid = k.1;
        readable = ap is_readable w ∙ readable-append s.wal (enqueue m) d.readable refl;
        held = λ p j. rw w (
            ground (
              arith,
              k.0 p j,
              d.held p j,
              published-enqueue p j s.wal m,
              acked-enqueue j s.wal m,
              unused p,
            ));
        one_queue = λ p p' j h h'. ground (
          arith,
          ap (published p j) w,
          ap (published p' j) w,
          published-enqueue p j s.wal m,
          published-enqueue p' j s.wal m,
          unused p,
          unused p',
          d.one_queue p p' j,
        );
      }

  wal-local_ack :
      (q id : String) (s : QueueNode V)
      → (local_ack true q id s).0.wal
        ≡ (if contains id (processing_of q s) then s.wal ++ ack id ∷ [] else s.wal)
  unfolding local_ack append_to_wal
  wal-local_ack q id s = ground arith

  processed-published :
      (q id : String) (s : QueueNode V)
      → IsDurable s
      → contains id (processing_of q s) ≡ true
      → published q id s.wal ≡ true
  processed-published q id s d h = ground (arith, d.held q id)

  pub local_ack-IsDurable :
      (q id : String) (s : QueueNode V) → IsDurable s → IsDurable (local_ack true q id s).0
  local_ack-IsDurable q id s d =
      let (r, c, v) = local_ack-removes true q id s d.valid in
      elim (Bool-cases (contains id (processing_of q s))) [
        | inr absent ↦
            same_log-IsDurable s (local_ack true q id s).0 (wal-local_ack q id s ∙ ground arith)
              (λ p j. ground (arith, c p j)) v d
        | inl there ↦
            let w : (local_ack true q id s).0.wal ≡ s.wal ++ ack id ∷ [] =
              wal-local_ack q id s ∙ ground arith in
            let here = processed-published q id s d there in
            record {
              valid = v;
              readable = ap is_readable w ∙ readable-append s.wal (ack id) d.readable refl;
              held = λ p j. rw w (
                  ground (
                    arith,
                    c p j,
                    d.held p j,
                    published-ack p j s.wal id,
                    acked-ack j s.wal id,
                    d.one_queue p q j,
                  ));
              one_queue = λ p p' j h h'.
                  d.one_queue p p' j
                    (sym (published-ack p j s.wal id) ∙ ap (published p j) (sym w) ∙ h)
                    (sym (published-ack p' j s.wal id) ∙ ap (published p' j) (sym w) ∙ h');
            }
      ]
