-- ===== src/LockManager/Node/Acquire.antt =====
-- `handle_acquire` of a leader: the future of its request is done when `append_entry` returns.
use sinkronisasi_dan_distrib.Base.{
  truthy, ℕ, ◌<◌, String, ◌≡◌, ◌≢◌, refl, inl, inr, true, false, Option, none, some, List, [], ◌∷◌,
  ◌++◌, ◌∙◌, sym, ap, subst, lookup, lookup-insert, lookup-erase, lookup-insert_self, dec_string,
  arith, Option-cases, length, get_elem?, drop,
}
use sinkronisasi_dan_distrib.MessageBus.{Reply}
use sinkronisasi_dan_distrib.Raft.{is_leader}
use sinkronisasi_dan_distrib.Raft.Commit.{commands}
use sinkronisasi_dan_distrib.LockManager.{LockRequest, Command, acquire, Result, run, apply}
use sinkronisasi_dan_distrib.LockManager.Node.{
  Future, unset, DistributedLockManagerNode, request_id_of, Appended, returned, raised, Network,
  apply_commands,
}
use sinkronisasi_dan_distrib.LockManager.Node.Forward.{
  Response, answered, timed_out, commit_failed, leader_unknown, leader_unreachable, proxied,
  status_ok, unknown_request, missing_query, server_error, snapshot_of,
}
use sinkronisasi_dan_distrib.LockManager.Node.Handlers.{
  AcquireData, choose_id, acquire_command, create_future, result_of, wait_for, finish_acquire,
  handle_acquire, or_else_string, or_mode,
}
use sinkronisasi_dan_distrib.LockManager.Node.Keyed.{IsKeyed, apply_acquire-IsKeyed}
use sinkronisasi_dan_distrib.LockManager.Node.Applies.{
  Tracks, awaits, settled, apply_command-settles, apply_command-Tracks, apply_commands-Tracks,
  apply_commands-append, apply_commands-lock_state, run-IsKeyed,
}
use sinkronisasi_dan_distrib.LockManager.Node.Commits.{Fits, Quiet}
use sinkronisasi_dan_distrib.LockManager.Node.Appends.{
  AppendEnds, Committed, append_entry-AppendEnds,
}

-- every pending future is one that was created
unfoldable pub Created : DistributedLockManagerNode → Type 0
Created n = (j : String) (g : ℕ) → lookup j n.pending_futures ≡ some g → g < length n.futures

-- a node in order: its log, its results and its futures
pub record IsSound (n : DistributedLockManagerNode) : Type 0 where
  pub leads : is_leader n.raft ≡ true
  pub fits : Fits n.raft
  pub keyed : IsKeyed n.lock_state.requests
  pub created : Created n

last_of_append : (fs : List Future) (x : Future) → get_elem? (fs ++ x ∷ []) (length fs) ≡ some x
last_of_append [] x = refl
last_of_append (f ∷ fs) x = last_of_append fs x

create_future-Tracks :
    (id : String) (n : DistributedLockManagerNode)
    → Created n
    → Tracks id (length n.futures) (create_future id n)
unfolding create_future Created
create_future-Tracks id n v =
    awaits (lookup-insert_self id (length n.futures) n.pending_futures)
      (last_of_append n.futures unset)
      (λ j e. elim (dec_string id j) [
        | yes same ↦ sym same
        | no other ↦ absurd (
            omega (
              arith,
              v j (length n.futures)
                  (ground (arith, lookup-insert id j (length n.futures) n.pending_futures)),
            ))
      ])

choose_id-nonempty : (uuid : String) (d : AcquireData) → uuid ≢ "" → choose_id uuid d ≢ ""
unfolding choose_id truthy
choose_id-nonempty uuid d v = chosen d.request_id
  where
    chosen : (o : Option String) → or_else_string uuid (truthy o) ≢ ""
    chosen none = v
    chosen (some s) = λ q. ground arith

acquire_command_lem :
    (uuid : String) (now : ℕ) (d : AcquireData) (c : Command)
    → acquire_command uuid now d ≡ some c
    → (q : LockRequest) × (c ≡ acquire q) × (q.request_id ≡ choose_id uuid d)
unfolding acquire_command
acquire_command_lem uuid now d c e = elim (Option-cases d.lock) [
  | inl missing ↦ absurd (ground arith)
  | inr (lock, l) ↦ elim (Option-cases d.client_id) [
    | inl missing ↦ absurd (ground arith)
    | inr (client, k) ↦ (
      record {
        request_id = choose_id uuid d;
        lock_name = lock;
        client_id = client;
        mode = or_mode d.mode;
        created_at = now;
        ttl_ms = d.ttl_ms;
      },
      ground arith,
      refl,
    )
  ]
]

wait_for-Tracks :
    (D : Type 0) (meanwhile : DistributedLockManagerNode → DistributedLockManagerNode) (id : String)
    (f : ℕ) (n : DistributedLockManagerNode)
    → lookup id n.pending_futures ≡ none
    → Tracks id f n
    → (r : Result) × (wait_for {D = D} meanwhile id f n ≡ (n, answered r))
      × (request_id_of r ≡ some id)
unfolding wait_for
wait_for-Tracks D meanwhile id f n gone (awaits a b c) = absurd (ground arith)
wait_for-Tracks D meanwhile id f n gone (settled r e named h) =
    (r, rw (ap result_of e, wait_for) refl, named)

-- the command is applied last, and its result, or an earlier one of its id, ends the future
Committed-settles :
    (q : LockRequest) (f : ℕ) (n n' : DistributedLockManagerNode)
    → q.request_id ≢ ""
    → IsKeyed n.lock_state.requests
    → Tracks q.request_id f n
    → Committed (acquire q) n n'
    → Tracks q.request_id f n' × (lookup q.request_id n'.pending_futures ≡ none)
unfolding apply apply_commands
Committed-settles q f n n' v keyed t x =
    let before = commands (drop n.raft.last_applied n.raft.log) in
    let m = apply_commands before (record n { raft = x.raft }) in
    let moved : Tracks q.request_id f m =
      apply_commands-Tracks q.request_id f before (record n { raft = x.raft }) (same_futures t) in
    let named =
      (apply_acquire-IsKeyed m.lock_state q
        (run-IsKeyed before (record n { raft = x.raft }) keyed)).1 in
    subst (λ k. Tracks q.request_id f k × (lookup q.request_id k.pending_futures ≡ none))
      (apply_commands-append before (acquire q ∷ []) (record n { raft = x.raft }) ∙ sym x.after)
      (
        apply_command-Tracks q.request_id f (acquire q) m moved,
        apply_command-settles q.request_id f (acquire q) m v named moved,
      )
  where
    same_futures : Tracks q.request_id f n → Tracks q.request_id f (record n { raft = x.raft })
    same_futures (awaits a b c) = awaits a b c
    same_futures (settled r a b c) = settled r a b c

-- How `handle_acquire` of the command `c` may end. With a result of the request's own id: then the
-- lock table is the old one with every command of the log that was not applied, and `c`, applied to
-- it. With "commit_failed": then the lock table is the old one, and `c` is in the log. In both the id
-- is no longer pending. Or with an IndexError of the commit index: then the lock table is the old one,
-- `c` is in the log, and the id stays pending.
abbrev pub AcquireEnds :
    {D : Type 0}
    → Command
    → String
    → DistributedLockManagerNode
    → DistributedLockManagerNode
    → Response D
    → Type 0
AcquireEnds c id n n' (answered r) =
    (request_id_of r ≡ some id)
    × (lookup id n'.pending_futures ≡ none)
    × (n'.lock_state ≡ run n.lock_state (commands (drop n.raft.last_applied n.raft.log) ++ c ∷ []))
AcquireEnds c id n n' commit_failed =
    (n'.lock_state ≡ n.lock_state)
    × (lookup id n'.pending_futures ≡ none)
    × (n'.raft.log ≡ n.raft.log ++ record { term = n.raft.current_term; command = c } ∷ [])
AcquireEnds c id n n' server_error =
    (n'.lock_state ≡ n.lock_state)
    × (lookup id n'.pending_futures ≡ some (length n.futures))
    × (n'.raft.log ≡ n.raft.log ++ record { term = n.raft.current_term; command = c } ∷ [])
AcquireEnds c id n n' (timed_out i) = ⊥
AcquireEnds c id n n' leader_unknown = ⊥
AcquireEnds c id n n' leader_unreachable = ⊥
AcquireEnds c id n n' (proxied status body) = ⊥
AcquireEnds c id n n' status_ok = ⊥
AcquireEnds c id n n' unknown_request = ⊥
AcquireEnds c id n n' missing_query = ⊥
AcquireEnds c id n n' (snapshot_of s) = ⊥

finish_acquire-AcquireEnds :
    (D : Type 0) (meanwhile : DistributedLockManagerNode → DistributedLockManagerNode)
    (q : LockRequest) (n : DistributedLockManagerNode) (o : Appended)
    → q.request_id ≢ ""
    → IsSound n
    → AppendEnds (acquire q) (create_future q.request_id n) o
    → let (n', response) = finish_acquire {D = D} meanwhile q.request_id (length n.futures) o in
      AcquireEnds (acquire q) q.request_id n n' response
unfolding finish_acquire create_future
finish_acquire-AcquireEnds D meanwhile q n (raised n') v s (r, same, logged) = (
  ap (λ (k : DistributedLockManagerNode). k.lock_state) same,
  ap (λ (k : DistributedLockManagerNode). lookup q.request_id k.pending_futures) same
      ∙ lookup-insert_self q.request_id (length n.futures) n.pending_futures,
  ap (λ (k : DistributedLockManagerNode). k.raft.log) same ∙ logged,
)
finish_acquire-AcquireEnds D meanwhile q n (returned n' false) v s (r, same, logged) = (
  ap (λ (k : DistributedLockManagerNode). k.lock_state) same,
  ground (arith, lookup-erase q.request_id q.request_id n'.pending_futures),
  ap (λ (k : DistributedLockManagerNode). k.raft.log) same ∙ logged,
)
finish_acquire-AcquireEnds D meanwhile q n (returned n' true) v s x =
    let (t, gone) =
      Committed-settles q (length n.futures) (create_future q.request_id n) n' v s.keyed
        (create_future-Tracks q.request_id n s.created) x in
    let (r, answer, named) =
      wait_for-Tracks D meanwhile q.request_id (length n.futures) n' gone t in
    rw answer (
      named,
      gone,
      ap (λ (k : DistributedLockManagerNode). k.lock_state) x.after
          ∙ apply_commands-lock_state _ (record (create_future q.request_id n) { raft = x.raft }),
    )

module _ {D : Type 0} (net : Network)
    (meanwhile : DistributedLockManagerNode → DistributedLockManagerNode) where
  -- On a leader whose commit index is between what it has applied and the length of its log, whose
  -- results stand under their own ids and whose pending futures were created, and where no other task
  -- changes the node while `append_entry` waits for the peers, an acquire request with a lock and a
  -- client never times out, whatever the peers answer and the other tasks do after that: the answer
  -- is a result of the request's own id, the id is no longer pending, and every command of the log up
  -- to its own has been applied to the lock table once and in order; or the answer is
  -- "commit_failed", the lock table is unchanged, the id no longer pending, and the command in the
  -- log; or it is an IndexError of the commit index, which differs from that only in that the id
  -- stays pending.
  pub handle_acquire-AcquireEnds :
      (uuid : String) (now : ℕ) (seen : ℕ → Option String) (forward : ℕ → String → Reply D)
      (d : AcquireData) (c : Command) (n : DistributedLockManagerNode)
      → Quiet net
      → uuid ≢ ""
      → acquire_command uuid now d ≡ some c
      → IsSound n
      → let (n', response) = handle_acquire meanwhile net uuid now seen forward d n in
        AcquireEnds c (choose_id uuid d) n n' response
  unfolding handle_acquire create_future
  handle_acquire-AcquireEnds uuid now seen forward d c n quiet v command s =
      let (q, is_q, named) = acquire_command_lem uuid now d c command in
      rw (s.leads, handle_acquire, command, is_q, sym named)
        (finish_acquire-AcquireEnds D meanwhile q n _ (rw named (choose_id-nonempty uuid d v)) s (
          append_entry-AppendEnds net quiet (acquire q) (create_future q.request_id n) s.leads
            s.fits))
