-- ===== src/Queue/Redelivery.antt =====
-- The requeue loop and the dequeue: they keep the copies of each message.
use mathlib.Core.Option
use sinkronisasi_dan_distrib.Base.{
  ℕ, ◌+◌, ◌≤◌, String, ◌≡◌, refl, sym, subst, ap, ◌∙◌, inl, inr, none, some, List, [], ◌∷◌, lookup,
  insert, erase, lookup-insert, lookup-erase, dec_string, keys, arith, Option-cases,
}
use sinkronisasi_dan_distrib.Queue.{
  Message, QueueNode, queue_of, processing_of, push, deliver, local_dequeue, expired_ids,
  requeue_one, requeue_each, requeue_queues, requeue_round,
}
use sinkronisasi_dan_distrib.Queue.Copies.{
  copies, IsValid, queue_of-insert, processing_of-insert, copies-push, unprocess, copies-unprocess,
}

module _ {V : Type 0} where
  requeue_one-copies :
      (q id q' id' : String) (s : QueueNode V)
      → IsValid s
      → copies q id (requeue_one q' id' s) ≡ copies q id s
  unfolding requeue_one
  requeue_one-copies q id q' id' s v = elim (Option-cases (lookup id' (processing_of q' s))) [
    | inl missing ↦ ground arith
    | inr (m, there) ↦
        rw (there, requeue_one)
          (ground (
            arith,
            copies-push q id q' (record m { visibility_timeout = none }) (unprocess q' id' s),
            copies-unprocess q id q' id' s,
            v.keyed q' id' m there,
          ))
  ]

  requeue_one-keyed :
      (q id q' id' : String) (m : Message V) (s : QueueNode V)
      → IsValid s
      → lookup id (processing_of q (requeue_one q' id' s)) ≡ some m
      → m.id ≡ id
  unfolding requeue_one push
  requeue_one-keyed q id q' id' m s v h = elim (Option-cases (lookup id' (processing_of q' s))) [
    | inl missing ↦ v.keyed q id m (ground (arith, v.keyed q id m))
    | inr (x, there) ↦ v.keyed q id m (
        ground (
          arith,
          processing_of-insert q q' (erase id' (processing_of q' s)) s.processing,
          lookup-erase id' id (processing_of q' s),
        ))
  ]

  requeue_one-IsValid : (q id : String) (s : QueueNode V) → IsValid s → IsValid (requeue_one q id s)
  requeue_one-IsValid q id s v = record {
    single =
        λ q' id'. subst (λ x. x ≤ 1) (sym (requeue_one-copies q' id' q id s v)) (v.single q' id');
    keyed = λ q' id' m h. requeue_one-keyed q' id' q id m s v h;
  }

  -- The copies stay, and the state is valid.
  record Keeps (s s' : QueueNode V) : Type 0 where
    pub same : (q id : String) → copies q id s' ≡ copies q id s
    pub valid : IsValid s'

  requeue_each-Keeps :
      (q : String) (ids : List String) (s : QueueNode V)
      → IsValid s
      → Keeps s (requeue_each q ids s)
  unfolding requeue_each
  requeue_each-Keeps q [] s v = record { same = λ q' id. refl; valid = v }
  requeue_each-Keeps q (id ∷ ids) s v =
      let k = requeue_each-Keeps q ids (requeue_one q id s) (requeue_one-IsValid q id s v) in
      record {
        same = λ q' id'. k.same q' id' ∙ requeue_one-copies q' id' q id s v;
        valid = k.valid;
      }

  requeue_queues-Keeps :
      (now : ℕ) (qs : List String) (s : QueueNode V) → IsValid s → Keeps s (requeue_queues now qs s)
  unfolding requeue_queues
  requeue_queues-Keeps now [] s v = record { same = λ q' id. refl; valid = v }
  requeue_queues-Keeps now (q ∷ qs) s v =
      let k = requeue_each-Keeps q (expired_ids now (processing_of q s)) s v in
      let r =
        requeue_queues-Keeps now qs (requeue_each q (expired_ids now (processing_of q s)) s)
          k.valid in
      record { same = λ q' id'. r.same q' id' ∙ k.same q' id'; valid = r.valid }

  -- From a valid state, a round of the requeue loop keeps the number of copies of each message, in its
  -- queue or in processing, and the state stays valid.
  pub requeue_round-keeps :
      (now : ℕ) (s : QueueNode V)
      → IsValid s
      → ((q id : String) → copies q id (requeue_round now s) ≡ copies q id s)
        × IsValid (requeue_round now s)
  unfolding requeue_round
  requeue_round-keeps now s v =
      let k = requeue_queues-Keeps now (keys s.processing) s v in (k.same, k.valid)

  deliver-copies :
      (now : ℕ) (q id q' : String) (ms : List (Message V)) (s : QueueNode V)
      → IsValid s
      → queue_of q' s ≡ ms
      → copies q id (deliver now q' ms s).0 ≡ copies q id s
  unfolding deliver
  deliver-copies now q id q' [] s v h = ground (arith, queue_of-insert q q' [] s.queues)
  deliver-copies now q id q' (m ∷ rest) s v h =
      let m' : Message V = record m { visibility_timeout = some (now + s.visibility_timeout) } in
      ground (
        arith,
        v.single q' m.id,
        queue_of-insert q q' rest s.queues,
        processing_of-insert q q' (insert m.id m' (processing_of q' s)) s.processing,
        lookup-insert m.id id m' (processing_of q' s),
      )

  deliver-keyed :
      (now : ℕ) (q id q' : String) (ms : List (Message V)) (m : Message V) (s : QueueNode V)
      → IsValid s
      → lookup id (processing_of q (deliver now q' ms s).0) ≡ some m
      → m.id ≡ id
  unfolding deliver
  deliver-keyed now q id q' [] m s v h = v.keyed q id m h
  deliver-keyed now q id q' (x ∷ rest) m s v h =
      let x' : Message V = record x { visibility_timeout = some (now + s.visibility_timeout) } in
      elim (dec_string q' q) [
        | no other ↦ v.keyed q id m (
            ground
              (arith, processing_of-insert q q' (insert x.id x' (processing_of q' s)) s.processing))
        | yes same ↦ elim (dec_string x.id id) [
          | yes e ↦
              ap (λ (y : Message V). y.id)
                (sym (
                  Option.some-injective x' m (
                    ground (
                      arith,
                      processing_of-insert q q' (insert x.id x' (processing_of q' s)) s.processing,
                      lookup-insert x.id id x' (processing_of q' s),
                    ))))
              ∙ e
          | no e ↦ v.keyed q id m (
              ground (
                arith,
                processing_of-insert q q' (insert x.id x' (processing_of q' s)) s.processing,
                lookup-insert x.id id x' (processing_of q' s),
              ))
        ]
      ]

  -- From a valid state, a dequeue keeps the number of copies of each message, in its queue or in
  -- processing, and the state stays valid.
  pub local_dequeue-keeps :
      (now : ℕ) (q : String) (s : QueueNode V)
      → IsValid s
      → ((q' id : String) → copies q' id (local_dequeue now q s).0 ≡ copies q' id s)
        × IsValid (local_dequeue now q s).0
  unfolding local_dequeue
  local_dequeue-keeps now q s v =
      let same : (q' id : String)
          → copies q' id (deliver now q (queue_of q s) s).0 ≡ copies q' id s =
        λ q' id. deliver-copies now q' id q (queue_of q s) s v refl in
      (
        same,
        record {
          single = λ q' id. subst (λ x. x ≤ 1) (sym (same q' id)) (v.single q' id);
          keyed = λ q' id m h. deliver-keyed now q' id q (queue_of q s) m s v h;
        },
      )
