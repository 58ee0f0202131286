-- ===== src/Queue/Copies.antt =====
-- The copies of a message that a queue node holds, in its queue or in processing.
use sinkronisasi_dan_distrib.Base.{
  ℕ, suc, ◌+◌, ◌≤◌, String, ◌≡◌, Bool, true, false, some, List, [], ◌∷◌, ◌++◌, Dict, lookup, insert,
  erase, lookup-insert, lookup-erase, ite, dec_string, contains, arith,
}
use sinkronisasi_dan_distrib.Queue.{Message, QueueNode, or_empty, queue_of, processing_of, push}

abbrev pub one_if : Bool → ℕ
one_if true = 1
one_if false = 0

module _ {V : Type 0} where
  abbrev pub count : String → List (Message V) → ℕ
  count id [] = 0
  count id (m ∷ ms) = let rest = count id ms in ite (dec_string m.id id) (suc rest) rest

  -- the copies of a message that wait in a queue or are processed
  abbrev pub copies : String → String → QueueNode V → ℕ
  copies q id s = count id (queue_of q s) + one_if (contains id (processing_of q s))

  -- No message is there twice, and a message that is processed stands under its own id.
  pub record IsValid (s : QueueNode V) : Type 0 where
    pub single : (q id : String) → copies q id s ≤ 1
    pub keyed : (q id : String) (m : Message V) → lookup id (processing_of q s) ≡ some m → m.id ≡ id

  pub count-append :
      (id : String) (ms : List (Message V)) (m : Message V)
      → count id (ms ++ m ∷ []) ≡ count id ms + ite (dec_string m.id id) 1 0
  count-append id [] m = ground arith
  count-append id (x ∷ ms) m = ground (arith, count-append id ms m)

  pub queue_of-insert :
      (q q' : String) (ms : List (Message V)) (d : Dict (List (Message V)))
      → or_empty (lookup q (insert q' ms d)) ≡ ite (dec_string q' q) ms (or_empty (lookup q d))
  queue_of-insert q q' ms d = ground (arith, lookup-insert q' q ms d)

  pub processing_of-insert :
      (q q' : String) (ms : Dict (Message V)) (d : Dict (Dict (Message V)))
      → or_empty (lookup q (insert q' ms d)) ≡ ite (dec_string q' q) ms (or_empty (lookup q d))
  processing_of-insert q q' ms d = ground (arith, lookup-insert q' q ms d)

  pub copies-push :
      (q id q' : String) (m : Message V) (s : QueueNode V)
      → copies q id (push q' m s)
        ≡ copies q id s + ite (dec_string q' q) (ite (dec_string m.id id) 1 0) 0
  unfolding push
  copies-push q id q' m s = ground (
    arith,
    queue_of-insert q q' (queue_of q' s ++ m ∷ []) s.queues,
    count-append id (queue_of q' s) m,
  )

  -- the processing of a queue without a message
  abbrev pub unprocess : String → String → QueueNode V → QueueNode V
  unprocess q id s = record s { processing = insert q (erase id (processing_of q s)) s.processing }

  pub copies-unprocess :
      (q id q' id' : String) (s : QueueNode V)
      → copies q id (unprocess q' id' s)
        ≡ ite
            (dec_string q' q)
            (ite (dec_string id' id) (count id (queue_of q s)) (copies q id s))
            (copies q id s)
  copies-unprocess q id q' id' s = ground (
    arith,
    processing_of-insert q q' (erase id' (processing_of q' s)) s.processing,
    lookup-erase id' id (processing_of q' s),
  )
