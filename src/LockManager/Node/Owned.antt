-- ===== src/LockManager/Node/Owned.antt =====
-- `handle_acquire` while other tasks change the node: whose result it answers.
use sinkronisasi_dan_distrib.Base.{
  ℕ, suc, String, ◌≡◌, refl, inl, inr, true, false, Bool, Option, some, List, [], ◌∷◌, arith,
  Option-cases, Bool-cases, length, get_elem?,
}
use sinkronisasi_dan_distrib.MessageBus.{Reply}
use sinkronisasi_dan_distrib.Raft.{RaftNode, is_leader}
use sinkronisasi_dan_distrib.Raft.Leader.{
  Applied, applied, index_error, apply_committed, append_local, append_request, commit_own,
  finish_replication,
}
use sinkronisasi_dan_distrib.LockManager.{Command, Result}
use sinkronisasi_dan_distrib.LockManager.Node.{
  DistributedLockManagerNode, request_id_of, Appended, returned, raised, apply_all, finish_append,
  Network, conclude, replicate_each, replicate_log, append_entry,
}
use sinkronisasi_dan_distrib.LockManager.Node.Acquire.{Created}
use sinkronisasi_dan_distrib.LockManager.Node.Forward.{answered}
use sinkronisasi_dan_distrib.LockManager.Node.Handlers.{
  AcquireData, choose_id, acquire_command, create_future, result_of, wait_for, finish_acquire,
  handle_acquire,
}
use sinkronisasi_dan_distrib.LockManager.Node.Owns.{
  Owns, KeepsOwn, create_future-Owns, apply_commands-Owns,
}

abbrev pub node_after : Appended → DistributedLockManagerNode
node_after (returned n success) = n
node_after (raised n) = n

apply_all-Owns :
    (id : String) (f : ℕ) (n : DistributedLockManagerNode)
    → Owns id f n
    → Owns id f (node_after (apply_all n))
unfolding apply_all
apply_all-Owns id f n v = go (apply_committed n.raft) refl
  where
    go : (o : Applied Command) → apply_committed n.raft ≡ o → Owns id f (node_after (apply_all n))
    go (applied r cs) e = rw (e, apply_all) (apply_commands-Owns id f cs (record n { raft = r }) v)
    go (index_error r cs) e =
        rw (e, apply_all) (apply_commands-Owns id f cs (record n { raft = r }) v)

conclude-Owns :
    (id : String) (f : ℕ) (results : List (Option Bool)) (n : DistributedLockManagerNode)
    → Owns id f n
    → Owns id f (node_after (conclude results n))
unfolding conclude
conclude-Owns id f results n v = elim (Option-cases (finish_replication results n.raft)) [
  | inl failed ↦ rw (failed, conclude) v
  | inr ((r, b), done) ↦ elim (Bool-cases b) [
    | inl yes_b ↦ rw (done, conclude, yes_b) (apply_all-Owns id f (record n { raft = r }) v)
    | inr no_b ↦ rw (done, conclude, no_b) v
  ]
]

finish_append-Owns :
    (id : String) (f i : ℕ) (o : Appended)
    → Owns id f (node_after o)
    → Owns id f (node_after (finish_append i o))
unfolding finish_append
finish_append-Owns id f i (raised n) v = v
finish_append-Owns id f i (returned n false) v = v
finish_append-Owns id f i (returned n true) v =
    apply_all-Owns id f (record n { raft = commit_own i n.raft }) v

module _ (net : Network) (own : (k : ℕ) → KeepsOwn (net.others k)) where
  replicate_each-Owns :
      (id : String) (f : ℕ) (start : RaftNode Command) (ps : List String)
      (n : DistributedLockManagerNode)
      → Owns id f n
      → Owns id f (replicate_each net start ps n).0
  unfolding replicate_each
  replicate_each-Owns id f start [] n v = own 0 id f n v
  replicate_each-Owns id f start (p ∷ ps) n v =
      let w = own (suc (length ps)) id f n v in
      elim (Option-cases (net.send p (append_request p start))) [
        | inl e ↦ rw (e, replicate_each) (replicate_each-Owns id f start ps _ w)
        | inr (reply, e) ↦ rw (e, replicate_each) (replicate_each-Owns id f start ps _ w)
      ]

  append_entry-Owns :
      (id : String) (f : ℕ) (c : Command) (n : DistributedLockManagerNode)
      → Owns id f n
      → Owns id f (node_after (append_entry net c n))
  unfolding append_entry replicate_log
  append_entry-Owns id f c n v = elim (Bool-cases (is_leader n.raft)) [
    | inr follows ↦ rw (follows, append_entry) v
    | inl leads ↦
        let n₁ = record n { raft = (append_local c n.raft).0 } in
        let n₀ = net.others (suc (length n₁.raft.peers)) n₁ in
        rw (leads, append_entry)
          (finish_append-Owns id f _ (replicate_log net n₁) (
            conclude-Owns id f _ _ (
              replicate_each-Owns id f n₀.raft (net.arrivals n₁.raft.peers) n₀
                (own (suc (length n₁.raft.peers)) id f n₁ v))))
  ]

module _ {D : Type 0} (net : Network)
    (meanwhile : DistributedLockManagerNode → DistributedLockManagerNode) where
  wait_for-own :
      (id : String) (f : ℕ) (n : DistributedLockManagerNode) (r : Result)
      → KeepsOwn meanwhile
      → Owns id f n
      → (wait_for {D = D} meanwhile id f n).1 ≡ answered r
      → request_id_of r ≡ some id
  unfolding wait_for
  wait_for-own id f n r own v h = elim (Option-cases (result_of (get_elem? n.futures f))) [
    | inr (s, done) ↦ v.2 r (ground arith)
    | inl waits ↦
        let w = own id f n v in
        elim (Option-cases (result_of (get_elem? (meanwhile n).futures f))) [
          | inr (s, done) ↦ w.2 r (ground arith)
          | inl late ↦ absurd (ground arith)
        ]
  ]

  finish_acquire-own :
      (id : String) (f : ℕ) (o : Appended) (r : Result)
      → KeepsOwn meanwhile
      → Owns id f (node_after o)
      → (finish_acquire {D = D} meanwhile id f o).1 ≡ answered r
      → request_id_of r ≡ some id
  unfolding finish_acquire
  finish_acquire-own id f (raised n) r own v h = cc
  finish_acquire-own id f (returned n false) r own v h = cc
  finish_acquire-own id f (returned n true) r own v h = wait_for-own id f n r own v h

  -- On a leader whose pending futures were created, where the other tasks may change the node at
  -- every wait of the call, but so that every future stays its request's (new requests, also with
  -- the same id, keep that), an acquire request that is answered with a result is answered with one
  -- of its own id.
  pub handle_acquire-own :
      (uuid : String) (now : ℕ) (seen : ℕ → Option String) (forward : ℕ → String → Reply D)
      (d : AcquireData) (n : DistributedLockManagerNode) (r : Result)
      → ((k : ℕ) → KeepsOwn (net.others k))
      → KeepsOwn meanwhile
      → is_leader n.raft ≡ true
      → Created n
      → (handle_acquire meanwhile net uuid now seen forward d n).1 ≡ answered r
      → request_id_of r ≡ some (choose_id uuid d)
  unfolding handle_acquire
  handle_acquire-own uuid now seen forward d n r own own_later leads v h =
      elim (Option-cases (acquire_command uuid now d)) [
        | inl missing ↦ absurd (ground arith)
        | inr (c, command) ↦
            let id = choose_id uuid d in
            finish_acquire-own id (length n.futures) (append_entry net c (create_future id n)) r
              own_later
              (append_entry-Owns net own id (length n.futures) c (create_future id n)
                (create_future-Owns id n v))
              (ground arith)
      ]
