-- ===== src/LockManager/Node/Rounds.antt =====
-- `_deadlock_loop`: what a round of it does to the lock table.
use sinkronisasi_dan_distrib.Base.{
  String, ◌≡◌, ◌≢◌, refl, inl, inr, ◌⊎◌, true, none, some, List, [], ◌∷◌, ◌++◌, ◌∙◌, sym, ap, subst,
  Dict, lookup, lookup-insert_self, arith, Option-cases, length, drop, member,
}
use sinkronisasi_dan_distrib.Raft.{LogEntry, is_leader}
use sinkronisasi_dan_distrib.Raft.Commit.{commands}
use sinkronisasi_dan_distrib.LockManager.{
  LockRequest, LockState, LockStateMachine, Command, abort, aborted, run, apply, apply_abort,
  pop_request, pop_from_locks,
}
use sinkronisasi_dan_distrib.LockManager.Abort.{pop_request-split}
use sinkronisasi_dan_distrib.LockManager.Deadlock.{victim, find_deadlock_victim}
use sinkronisasi_dan_distrib.LockManager.Deadlock.Candidates.{In, Waits}
use sinkronisasi_dan_distrib.LockManager.Deadlock.Victim.{
  Judges, IsVictim, find_deadlock_victim-Judges,
}
use sinkronisasi_dan_distrib.LockManager.Node.{
  DistributedLockManagerNode, returned, append_entry, Network,
}
use sinkronisasi_dan_distrib.LockManager.Node.Handlers.{abort_victim, deadlock_round}
use sinkronisasi_dan_distrib.LockManager.Node.Applies.{truthy-of, apply_commands-lock_state}
use sinkronisasi_dan_distrib.LockManager.Node.Commits.{Fits, Quiet}
use sinkronisasi_dan_distrib.LockManager.Node.Appends.{
  AppendEnds, Committed, append_entry-AppendEnds,
}

pop_request-finds :
    (id : String) (r : LockRequest) (q : List LockRequest)
    → In r q
    → r.request_id ≡ id
    → pop_request id q ≢ none
unfolding pop_request
pop_request-finds id r [] h e = absurd h
pop_request-finds id r (x ∷ q) (inl same) e =
    λ h. ground (arith, ap (λ (y : LockRequest). y.request_id) same)
pop_request-finds id r (x ∷ q) (inr h) e =
    let rest = pop_request-finds id r q h e in λ k. ground arith

pop_from_locks-finds :
    (id : String) (r : LockRequest) (ls : Dict LockState)
    → Waits r ls
    → r.request_id ≡ id
    → pop_from_locks id ls ≢ none
unfolding pop_from_locks
pop_from_locks-finds id r [] h e = absurd h
pop_from_locks-finds id r ((name, s) ∷ ls) (inl h) e =
    let here = pop_request-finds id r s.queue h e in λ k. ground arith
pop_from_locks-finds id r ((name, s) ∷ ls) (inr h) e =
    let rest = pop_from_locks-finds id r ls h e in λ k. ground arith

-- `ls'` is `ls` less one occurrence of the request in a queue.
pub Removed : LockRequest → Dict LockState → Dict LockState → Type 0
Removed r [] ls' = ⊥
Removed r ((name, s) ∷ ls) ls' =
    ((xs : List LockRequest) × (ys : List LockRequest) × (s.queue ≡ xs ++ r ∷ ys)
      × (ls' ≡ (name, record s { queue = xs ++ ys }) ∷ ls))
    ⊎ ((rest : Dict LockState) × Removed r ls rest × (ls' ≡ (name, s) ∷ rest))

pop_from_locks-Removed :
    (id : String) (r : LockRequest) (ls ls' : Dict LockState)
    → pop_from_locks id ls ≡ some (r, ls')
    → Removed r ls ls' × (r.request_id ≡ id)
unfolding pop_from_locks Removed
pop_from_locks-Removed id r [] ls' e = cc
pop_from_locks-Removed id r ((name, s) ∷ ls) ls' e = elim (Option-cases (pop_request id s.queue)) [
  | inr ((f, q), found) ↦
      let (xs, ys, before, after, named) = pop_request-split id s.queue f q found in
      (inl (xs, ys, ground arith, ground arith), ground arith)
  | inl absent ↦ elim (Option-cases (pop_from_locks id ls)) [
    | inl missing ↦ absurd (ground arith)
    | inr ((f, rest), found) ↦
        let (there, named) = pop_from_locks-Removed id f ls rest found in
        (
          inr (rest, subst (λ x. Removed x ls rest) (ground arith) there, ground arith),
          ground arith,
        )
  ]
]

drop_all : (l : List (LogEntry Command)) → drop (length l) l ≡ []
drop_all [] = refl
drop_all (x ∷ l) = drop_all l

-- The lock table after the abort of `id`: a waiting request with that id is out of its queue, the
-- locks are otherwise as they were, and the request's result says that it was aborted.
pub record Aborts (id : String) (m m' : LockStateMachine) : Type 0 where
  pub request : LockRequest
  pub named : request.request_id ≡ id
  pub removed : Removed request m.locks m'.locks
  pub told :
      lookup id m'.requests ≡ some (aborted id request.lock_name request.client_id "deadlock")

apply_abort-Aborts :
    (id : String) (m : LockStateMachine)
    → pop_from_locks id m.locks ≢ none
    → Aborts id m (apply_abort m id (some "deadlock")).0
unfolding apply_abort
apply_abort-Aborts id m h = elim (Option-cases (pop_from_locks id m.locks)) [
  | inl e ↦ absurd (h e)
  | inr ((r, ls), e) ↦
      let (removed, named) = pop_from_locks-Removed id r m.locks ls e in
      rw (e, apply_abort)
        (record {
          request = r;
          named = named;
          removed = removed;
          told = lookup-insert_self id _ m.requests;
        })
]

Committed-lock_state :
    (c : Command) (n n' : DistributedLockManagerNode)
    → n.raft.last_applied ≡ length n.raft.log
    → Committed c n n'
    → n'.lock_state ≡ (apply n.lock_state c).0
unfolding run
Committed-lock_state c n n' all x =
    ap (λ (k : DistributedLockManagerNode). k.lock_state) x.after
    ∙ apply_commands-lock_state _ (record n { raft = x.raft })
    ∙ ap (λ l. run n.lock_state (commands l ++ c ∷ []))
        (ap (λ i. drop i n.raft.log) all ∙ drop_all n.raft.log)

module _ (net : Network) where
  -- On a leader that has applied and committed its whole log, where no other task changes the node
  -- while `append_entry` waits and the search for a deadlock finds a victim, a round of the deadlock
  -- loop whose append succeeds has taken a request with the victim's id out of the queue it waits in,
  -- has changed nothing else of the locks, and the request's status then says that it was aborted for
  -- the deadlock. The order in which a set is iterated is any that keeps its members.
  pub deadlock_round-Aborts :
      (order : List String → List String) (n n' : DistributedLockManagerNode) (id : String)
      → Quiet net
      → ((x : String) (ns : List String) → member x (order ns) ≡ member x ns)
      → is_leader n.raft ≡ true
      → Fits n.raft
      → n.raft.last_applied ≡ length n.raft.log
      → find_deadlock_victim order n.lock_state.locks ≡ victim (some id)
      → id ≢ ""
      → deadlock_round net order n ≡ returned n' true
      → Aborts id n.lock_state n'.lock_state
  unfolding deadlock_round abort_victim apply
  deadlock_round-Aborts order n n' id quiet same lead fits all found named done =
      let v : IsVictim n.lock_state.locks id =
        subst (Judges n.lock_state.locks) found
          (find_deadlock_victim-Judges order n.lock_state.locks same) in
      let round : append_entry net (abort id (some "deadlock")) n ≡ returned n' true =
        sym (rw (lead, deadlock_round, found, abort_victim, truthy-of (some id) id refl named) refl)
        ∙ done in
      let x =
        subst (AppendEnds (abort id (some "deadlock")) n) round
          (append_entry-AppendEnds net quiet (abort id (some "deadlock")) n lead fits) in
      subst (Aborts id n.lock_state)
        (sym (Committed-lock_state (abort id (some "deadlock")) n n' all x))
        (apply_abort-Aborts id n.lock_state
          (pop_from_locks-finds id v.request n.lock_state.locks v.waits v.named))
