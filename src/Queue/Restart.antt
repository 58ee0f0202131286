-- ===== src/Queue/Restart.antt =====
-- A queue node whose writes to the log succeed: its operations and its restarts, in any order.
use sinkronisasi_dan_distrib.Base.{
  ℕ, String, ◌≡◌, refl, sym, ap, ◌∙◌, inl, inr, true, false, List, [], ◌∷◌, Dict, lookup,
  if◌then◌else◌, member, arith, Option-cases,
}
use sinkronisasi_dan_distrib.Queue.{
  Message, QueueNode, or_empty, init, push, local_publish, local_dequeue, local_ack, requeue_round,
  read_wal, restore_queue, restore, recover_from_wal,
}
use sinkronisasi_dan_distrib.Queue.Copies.{copies, one_if}
use sinkronisasi_dan_distrib.Queue.Recovery.{
  is_readable, published, acked, recover_from_wal-unacked,
}
use sinkronisasi_dan_distrib.Queue.Log.{mentions, logged}
use sinkronisasi_dan_distrib.Queue.Durable.{
  IsDurable, local_dequeue-IsDurable, requeue_round-IsDurable, local_publish-IsDurable,
  local_ack-IsDurable,
}

pub data Op (V : Type 0) : Type 0 where
  publishes : String → ℕ → String → V → Op V
  dequeues : ℕ → String → Op V
  acks : String → String → Op V
  timeouts : ℕ → Op V
  restarts : Op V

module _ {V : Type 0} where
  -- a new process on the same log
  unfoldable pub restart : QueueNode V → QueueNode V
  restart s = recover_from_wal (record (init s.visibility_timeout) { wal = s.wal })

  record SameLog (s s' : QueueNode V) : Type 0 where
    wal : s'.wal ≡ s.wal
    processing : s'.processing ≡ s.processing

  restore_queue-SameLog :
      (a : List String) (q : String) (d : Dict (Message V)) (s : QueueNode V)
      → SameLog s (restore_queue a q d s)
  unfolding restore_queue push
  restore_queue-SameLog a q [] s = record { wal = refl; processing = refl }
  restore_queue-SameLog a q ((id, m) ∷ d) s =
      let k = restore_queue-SameLog a q d (if member id a then s else push q m s) in
      record { wal = k.wal ∙ ground arith; processing = k.processing ∙ ground arith }

  restore-SameLog :
      (a : List String) (t : Dict (Dict (Message V))) (s : QueueNode V) → SameLog s (restore a t s)
  unfolding restore
  restore-SameLog a [] s = record { wal = refl; processing = refl }
  restore-SameLog a ((q, d) ∷ t) s =
      let k = restore_queue-SameLog a q d s in
      let k' = restore-SameLog a t (restore_queue a q d s) in
      record { wal = k'.wal ∙ k.wal; processing = k'.processing ∙ k.processing }

  recover_from_wal-SameLog : (s : QueueNode V) → SameLog s (recover_from_wal s)
  unfolding recover_from_wal
  recover_from_wal-SameLog s = elim (Option-cases (read_wal s.wal [] [])) [
    | inl stuck ↦ rw (stuck, recover_from_wal) (record { wal = refl; processing = refl })
    | inr ((t, a), done) ↦ rw (done, recover_from_wal) (restore-SameLog a t s)
  ]

  restart-IsDurable : (s : QueueNode V) → IsDurable s → IsDurable (restart s)
  unfolding restart init lookup
  restart-IsDurable s d =
      let s₀ : QueueNode V = record (init s.visibility_timeout) { wal = s.wal } in
      let k = recover_from_wal-SameLog s₀ in
      let held : (q id : String) → copies q id (recover_from_wal s₀) ≡ logged q id s.wal = λ q id.
        ground (
          arith,
          recover_from_wal-unacked s₀ q id d.readable,
          ap (λ x. or_empty (lookup q x)) k.processing,
        ) in
      record {
        valid = record {
          single = λ q id. ground (arith, held q id);
          keyed = λ q id m h. absurd (ground (arith, ap (λ x. or_empty (lookup q x)) k.processing));
        };
        readable = ap is_readable k.wal ∙ d.readable;
        held = λ q id. held q id ∙ ap (logged q id) (sym k.wal);
        one_queue = λ q q' id h h'.
            d.one_queue q q' id (ap (published q id) (sym k.wal) ∙ h)
              (ap (published q' id) (sym k.wal) ∙ h');
      }

  unfoldable pub step : QueueNode V → Op V → QueueNode V
  step s (publishes id now q x) = local_publish true id now q x s
  step s (dequeues now q) = (local_dequeue now q s).0
  step s (acks q id) = (local_ack true q id s).0
  step s (timeouts now) = requeue_round now s
  step s restarts = restart s

  unfoldable pub run : QueueNode V → List (Op V) → QueueNode V
  run s [] = s
  run s (o ∷ os) = run (step s o) os

  -- a publish takes an id that the log has not
  abbrev pub FreshIds : QueueNode V → List (Op V) → Type 0
  FreshIds s [] = Unit
  FreshIds s (publishes id now q x ∷ os) =
      (mentions id s.wal ≡ false) × FreshIds (step s (publishes id now q x)) os
  FreshIds s (dequeues now q ∷ os) = FreshIds (step s (dequeues now q)) os
  FreshIds s (acks q id ∷ os) = FreshIds (step s (acks q id)) os
  FreshIds s (timeouts now ∷ os) = FreshIds (step s (timeouts now)) os
  FreshIds s (restarts ∷ os) = FreshIds (step s restarts) os

  pub run_from-IsDurable :
      (s : QueueNode V) (os : List (Op V)) → FreshIds s os → IsDurable s → IsDurable (run s os)
  unfolding run step
  run_from-IsDurable s [] f d = d
  run_from-IsDurable s (publishes id now q x ∷ os) f d =
      run_from-IsDurable (local_publish true id now q x s) os f.1
        (local_publish-IsDurable id now q x s f.0 d)
  run_from-IsDurable s (dequeues now q ∷ os) f d =
      run_from-IsDurable (local_dequeue now q s).0 os f (local_dequeue-IsDurable now q s d)
  run_from-IsDurable s (acks q id ∷ os) f d =
      run_from-IsDurable (local_ack true q id s).0 os f (local_ack-IsDurable q id s d)
  run_from-IsDurable s (timeouts now ∷ os) f d =
      run_from-IsDurable (requeue_round now s) os f (requeue_round-IsDurable now s d)
  run_from-IsDurable s (restarts ∷ os) f d =
      run_from-IsDurable (restart s) os f (restart-IsDurable s d)

  pub init-IsDurable : (timeout : ℕ) → IsDurable {V = V} (init timeout)
  unfolding init lookup
  init-IsDurable timeout = record {
    valid = record { single = λ q id. ground arith; keyed = λ q id m h. absurd (ground arith) };
    readable = refl;
    held = λ q id. refl;
    one_queue = λ q q' id h h'. absurd (ground arith);
  }

  -- After any publishes, dequeues, acknowledgements, timeouts and restarts of a new node, where each
  -- write to the log succeeds and each publish takes an id that the log has not, the node holds one
  -- copy of each message that its log publishes and does not acknowledge, in its queue or in
  -- processing, and no other message.
  pub run-held :
      (timeout : ℕ) (os : List (Op V)) (q id : String)
      → FreshIds (init timeout) os
      → let s = run (init timeout) os in
        copies q id s ≡ (if acked id s.wal then 0 else one_if (published q id s.wal))
  run-held timeout os q id f =
      (run_from-IsDurable (init timeout) os f (init-IsDurable timeout)).held q id
