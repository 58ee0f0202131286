-- ===== src/Queue/Recovery.antt =====
-- `_recover_from_wal`: which messages a restart restores.
use sinkronisasi_dan_distrib.Base.{
  ite_case, ◌+◌, String, ◌≡◌, refl, sym, ◌∙◌, Bool, true, false, ◌||◌, some, List, [], ◌∷◌, ◌++◌,
  Dict, lookup, insert, lookup-insert, ite, dec_string, if◌then◌else◌, contains, keys, values,
  member, member-set_add, set_add, arith, All, IsDistinct, member-keys, insert-IsDistinct,
}
use sinkronisasi_dan_distrib.Queue.{
  Message, Line, blank, malformed, enqueue, ack, QueueNode, or_empty, queue_of, push, read_wal,
  restore_queue, restore, recover_from_wal,
}
use sinkronisasi_dan_distrib.Queue.Copies.{count, one_if, count-append, queue_of-insert}

insert-All {ℓ} :
    {A : Type ℓ} (P : A → Type 0) (k : String) (v : A) (d : Dict A)
    → P v
    → All (λ (e : String × A). P e.1) d
    → All (λ (e : String × A). P e.1) (insert k v d)
unfolding insert
insert-All P k v [] p h = (p, tt)
insert-All {A = A} P k v ((j, w) ∷ d) p h =
    ite_case (λ d. All (λ (e : String × A). P e.1) d) (dec_string j k) (λ _. (p, h.1))
      (λ _. (h.0, insert-All P k v d p h.1))

module _ {V : Type 0} where
  abbrev pub is_readable : List (Line V) → Bool
  is_readable [] = true
  is_readable (malformed ∷ w) = false
  is_readable (blank ∷ w) = is_readable w
  is_readable (enqueue m ∷ w) = is_readable w
  is_readable (ack id ∷ w) = is_readable w

  -- the log says that the message was put in the queue
  abbrev pub published : String → String → List (Line V) → Bool
  published q id [] = false
  published q id (enqueue m ∷ w) =
      let rest = published q id w in
      ite (dec_string m.queue q) (ite (dec_string m.id id) true rest) rest
  published q id (blank ∷ w) = published q id w
  published q id (malformed ∷ w) = published q id w
  published q id (ack i ∷ w) = published q id w

  abbrev pub acked : String → List (Line V) → Bool
  acked id [] = false
  acked id (ack i ∷ w) = let rest = acked id w in ite (dec_string i id) true rest
  acked id (blank ∷ w) = acked id w
  acked id (malformed ∷ w) = acked id w
  acked id (enqueue m ∷ w) = acked id w

  -- The table of one queue: each message under its own id, no id twice.
  record Table (d : Dict (Message V)) : Type 0 where
    distinct : IsDistinct (keys d)
    own : All (λ (e : String × Message V). e.1.id ≡ e.0) d

  record Tables (t : Dict (Dict (Message V))) : Type 0 where
    distinct : IsDistinct (keys t)
    each : All (λ (e : String × Dict (Message V)). Table e.1) t

  count-values :
      (id : String) (d : Dict (Message V))
      → IsDistinct (keys d)
      → All (λ (e : String × Message V). e.1.id ≡ e.0) d
      → count id (values d) ≡ one_if (contains id d)
  unfolding lookup IsDistinct
  count-values id [] h o = refl
  count-values id ((k, m) ∷ d) h o =
      ground (arith, count-values id d h.1 o.1, member-keys k d, h.0, o.0)

  insert-own :
      (m : Message V) (d : Dict (Message V))
      → All (λ (e : String × Message V). e.1.id ≡ e.0) d
      → All (λ (e : String × Message V). e.1.id ≡ e.0) (insert m.id m d)
  unfolding insert
  insert-own m [] h = (refl, tt)
  insert-own m ((j, w) ∷ d) h =
      ite_case (λ d. All (λ (e : String × Message V). e.1.id ≡ e.0) d) (dec_string j m.id)
        (λ e. (sym e, h.1)) (λ _. (h.0, insert-own m d h.1))

  insert-Table : (m : Message V) (d : Dict (Message V)) → Table d → Table (insert m.id m d)
  insert-Table m d t = record {
    distinct = insert-IsDistinct m.id m d t.distinct;
    own = insert-own m d t.own;
  }

  lookup-Table :
      (q : String) (t : Dict (Dict (Message V)))
      → All (λ (e : String × Dict (Message V)). Table e.1) t
      → Table (or_empty (lookup q t))
  unfolding lookup IsDistinct
  lookup-Table q [] h = record { distinct = tt; own = tt }
  lookup-Table q ((p, d) ∷ t) h =
      ite_case (λ d. Table (or_empty d)) (dec_string p q) (λ _. h.0) (λ _. lookup-Table q t h.1)

  restore_queue-count :
      (a : List String) (q : String) (d : Dict (Message V)) (s : QueueNode V) (q' id : String)
      → All (λ (e : String × Message V). e.1.id ≡ e.0) d
      → count id (queue_of q' (restore_queue a q d s))
        ≡ count id (queue_of q' s)
          + ite (dec_string q q') (if member id a then 0 else count id (values d)) 0
  unfolding restore_queue push
  restore_queue-count a q [] s q' id o = ground arith
  restore_queue-count a q ((k, m) ∷ d) s q' id o =
      let s' = if member k a then s else push q m s in
      ground (
        arith,
        restore_queue-count a q d s' q' id o.1,
        queue_of-insert q' q (queue_of q s ++ m ∷ []) s.queues,
        count-append id (queue_of q s) m,
        o.0,
      )

  restore-count :
      (a : List String) (t : Dict (Dict (Message V))) (s : QueueNode V) (q id : String)
      → IsDistinct (keys t)
      → All (λ (e : String × Dict (Message V)). Table e.1) t
      → count id (queue_of q (restore a t s))
        ≡ count id (queue_of q s)
          + (if member id a then 0 else one_if (contains id (or_empty (lookup q t))))
  unfolding restore IsDistinct lookup
  restore-count a [] s q id h o = ground arith
  restore-count a ((p, d) ∷ t) s q id h o = ground (
    arith,
    restore-count a t (restore_queue a p d s) q id h.1 o.1,
    restore_queue-count a p d s q id (o.0).own,
    count-values id d (o.0).distinct (o.0).own,
    member-keys p t,
    h.0,
  )

  -- what the first pass returns, for the rest of the log and what was read before
  record Read (w : List (Line V)) (temp : Dict (Dict (Message V))) (a : List String)
      (temp' : Dict (Dict (Message V))) (a' : List String) : Type 0 where
    result : read_wal w temp a ≡ some (temp', a')
    tables : Tables temp'
    messages :
        (q id : String)
        → contains id (or_empty (lookup q temp'))
          ≡ (contains id (or_empty (lookup q temp)) || published q id w)
    acks : (id : String) → member id a' ≡ (member id a || acked id w)

  insert-Tables :
      (m : Message V) (t : Dict (Dict (Message V)))
      → Tables t
      → Tables (insert m.queue (insert m.id m (or_empty (lookup m.queue t))) t)
  insert-Tables m t h = record {
    distinct = insert-IsDistinct m.queue (insert m.id m (or_empty (lookup m.queue t))) t h.distinct;
    each =
        insert-All Table m.queue (insert m.id m (or_empty (lookup m.queue t))) t
          (insert-Table m (or_empty (lookup m.queue t)) (lookup-Table m.queue t h.each)) h.each;
  }

  contains-insert_message :
      (m : Message V) (t : Dict (Dict (Message V))) (q id : String)
      → contains id
          (or_empty (lookup q (insert m.queue (insert m.id m (or_empty (lookup m.queue t))) t)))
        ≡ ite
            (dec_string m.queue q)
            (ite (dec_string m.id id) true (contains id (or_empty (lookup q t))))
            (contains id (or_empty (lookup q t)))
  contains-insert_message m t q id = ground (
    arith,
    lookup-insert m.queue q (insert m.id m (or_empty (lookup m.queue t))) t,
    lookup-insert m.id id m (or_empty (lookup m.queue t)),
  )

  read :
      (w : List (Line V)) (temp : Dict (Dict (Message V))) (a : List String)
      → is_readable w ≡ true
      → Tables temp
      → (temp' : Dict (Dict (Message V))) × (a' : List String) × Read w temp a temp' a'
  unfolding read_wal
  read [] temp a r h = (
    temp,
    a,
    record {
      result = refl;
      tables = h;
      messages = λ q id. ground arith;
      acks = λ id. ground arith;
    },
  )
  read (malformed ∷ w) temp a r h = absurd (ground arith)
  read (blank ∷ w) temp a r h =
      let (temp', a', p) = read w temp a r h in
      (
        temp',
        a',
        record { result = p.result; tables = p.tables; messages = p.messages; acks = p.acks },
      )
  read (enqueue m ∷ w) temp a r h =
      let next = insert m.queue (insert m.id m (or_empty (lookup m.queue temp))) temp in
      let (temp', a', p) = read w next a r (insert-Tables m temp h) in
      (
        temp',
        a',
        record {
          result = p.result;
          tables = p.tables;
          messages = λ q id. ground (arith, p.messages q id, contains-insert_message m temp q id);
          acks = p.acks;
        },
      )
  read (ack i ∷ w) temp a r h =
      let (temp', a', p) = read w temp (set_add i a) r h in
      (
        temp',
        a',
        record {
          result = p.result;
          tables = p.tables;
          messages = p.messages;
          acks = λ id. ground (arith, p.acks id, member-set_add i id a);
        },
      )

  -- Where each line of the log can be read, the recovery adds to a queue one copy of each message
  -- that was put in that queue and that no acknowledgement names, and no other message.
  pub recover_from_wal-unacked :
      (s : QueueNode V) (q id : String)
      → is_readable s.wal ≡ true
      → count id (queue_of q (recover_from_wal s))
        ≡ count id (queue_of q s) + (if acked id s.wal then 0 else one_if (published q id s.wal))
  unfolding recover_from_wal lookup IsDistinct member
  recover_from_wal-unacked s q id r =
      let (temp, a, p) = read s.wal [] [] r (record { distinct = tt; each = tt }) in
      rw (p.result, recover_from_wal)
        (restore-count a temp s q id (p.tables).distinct (p.tables).each
          ∙ ground (arith, p.messages q id, p.acks id))
