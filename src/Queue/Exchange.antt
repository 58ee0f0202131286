-- ===== src/Queue/Exchange.antt =====
-- The publish and the acknowledgement: they add and remove a copy of a message.
use sinkronisasi_dan_distrib.Base.{
  ℕ, ◌+◌, String, ◌≡◌, refl, sym, ap, ◌∙◌, inl, inr, Bool, true, false, none, some, lookup, erase,
  lookup-erase, ite, dec_string, if◌then◌else◌, contains, arith, Bool-cases,
}
use sinkronisasi_dan_distrib.Queue.{
  Message, Line, enqueue, ack, QueueNode, processing_of, append_to_wal, push, local_publish,
  local_ack,
}
use sinkronisasi_dan_distrib.Queue.Copies.{
  copies, IsValid, processing_of-insert, copies-push, unprocess, copies-unprocess,
}

module _ {V : Type 0} where
  copies-append_to_wal :
      (q id : String) (written : Bool) (line : Line V) (s : QueueNode V)
      → copies q id (append_to_wal written line s) ≡ copies q id s
  unfolding append_to_wal
  copies-append_to_wal q id true line s = refl
  copies-append_to_wal q id false line s = refl

  processing_of-append_to_wal :
      (q : String) (written : Bool) (line : Line V) (s : QueueNode V)
      → processing_of q (append_to_wal written line s) ≡ processing_of q s
  unfolding append_to_wal
  processing_of-append_to_wal q true line s = refl
  processing_of-append_to_wal q false line s = refl

  publish-copies :
      (written : Bool) (id : String) (now : ℕ) (q : String) (x : V) (s : QueueNode V)
      (q' id' : String)
      → copies q' id' (local_publish written id now q x s)
        ≡ copies q' id' s + ite (dec_string q q') (ite (dec_string id id') 1 0) 0
  unfolding local_publish
  publish-copies written id now q x s q' id' =
      let m : Message V = record {
        id = id;
        queue = q;
        payload = x;
        ts = now;
        visibility_timeout = none;
      } in
      copies-push q' id' q m (append_to_wal written (enqueue m) s)
      ∙ ap (λ n. n + ite (dec_string q q') (ite (dec_string id id') 1 0) 0)
          (copies-append_to_wal q' id' written (enqueue m) s)

  -- From a valid state, a publish under an id that the queue does not hold adds one copy of the new
  -- message, leaves the copies of the others, and the state stays valid; the write to the log may fail.
  pub local_publish-adds :
      (written : Bool) (id : String) (now : ℕ) (q : String) (x : V) (s : QueueNode V)
      → IsValid s
      → copies q id s ≡ 0
      → ((q' id' : String)
          → copies q' id' (local_publish written id now q x s)
            ≡ copies q' id' s + ite (dec_string q q') (ite (dec_string id id') 1 0) 0)
        × IsValid (local_publish written id now q x s)
  unfolding local_publish push
  local_publish-adds written id now q x s v new = (
    publish-copies written id now q x s,
    record {
      single =
          λ q' id'. ground (arith, publish-copies written id now q x s q' id', v.single q' id');
      keyed = λ q' id' m h. v.keyed q' id' m (
          ap (lookup id') (
            sym (
              processing_of-append_to_wal q' written
                (enqueue
                  (record { id = id; queue = q; payload = x; ts = now; visibility_timeout = none }))
                s))
          ∙ h);
    },
  )

  ack-copies :
      (written : Bool) (q id : String) (s : QueueNode V) (q' id' : String)
      → IsValid s
      → copies q' id' (local_ack written q id s).0 ≡ (
          if contains id (processing_of q s)
          then ite (dec_string q q') (ite (dec_string id id') 0 (copies q' id' s)) (copies q' id' s)
          else copies q' id' s)
  unfolding local_ack
  ack-copies written q id s q' id' v = elim (Bool-cases (contains id (processing_of q s))) [
    | inl there ↦ rw there (
        copies-append_to_wal q' id' written (ack id) (unprocess q id s)
        ∙ ground (arith, copies-unprocess q' id' q id s, v.single q' id'))
    | inr absent ↦
        rw absent (ground (arith, processing_of-insert q' q (processing_of q s) s.processing))
  ]

  ack-result :
      (written : Bool) (q id : String) (s : QueueNode V)
      → (local_ack written q id s).1 ≡ contains id (processing_of q s)
  unfolding local_ack
  ack-result written q id s = ground arith

  ack-keyed :
      (written : Bool) (q id q' id' : String) (m : Message V) (s : QueueNode V)
      → IsValid s
      → lookup id' (processing_of q' (local_ack written q id s).0) ≡ some m
      → m.id ≡ id'
  unfolding local_ack
  ack-keyed written q id q' id' m s v h = elim (Bool-cases (contains id (processing_of q s))) [
    | inl there ↦ v.keyed q' id' m (
        ground (
          arith,
          processing_of-append_to_wal q' written (ack id) (unprocess q id s),
          processing_of-insert q' q (erase id (processing_of q s)) s.processing,
          lookup-erase id id' (processing_of q s),
        ))
    | inr absent ↦
        v.keyed q' id' m
          (ground (arith, processing_of-insert q' q (processing_of q s) s.processing))
  ]

  -- From a valid state, an acknowledgement succeeds exactly where the message is processed; then it
  -- removes the one copy of that message and leaves the others, and else it leaves all copies. The state
  -- stays valid, and the write to the log may fail.
  pub local_ack-removes :
      (written : Bool) (q id : String) (s : QueueNode V)
      → IsValid s
      → ((local_ack written q id s).1 ≡ contains id (processing_of q s))
        × ((q' id' : String)
            → copies q' id' (local_ack written q id s).0 ≡ (
                if contains id (processing_of q s)
                then ite
                    (dec_string q q')
                    (ite (dec_string id id') 0 (copies q' id' s))
                    (copies q' id' s)
                else copies q' id' s))
        × IsValid (local_ack written q id s).0
  local_ack-removes written q id s v = (
    ack-result written q id s,
    λ q' id'. ack-copies written q id s q' id' v,
    record {
      single = λ q' id'. ground (arith, ack-copies written q id s q' id' v, v.single q' id');
      keyed = λ q' id' m h. ack-keyed written q id q' id' m s v h;
    },
  )
