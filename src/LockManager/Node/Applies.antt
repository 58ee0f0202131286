-- ===== src/LockManager/Node/Applies.antt =====
-- `_apply_command`: the futures that are pending, over the commands applied.
use sinkronisasi_dan_distrib.Base.{
  truthy, ℕ, zero, suc, String, ◌≡◌, ◌≢◌, refl, inl, inr, Option, none, some, List, [], ◌∷◌, ◌++◌,
  ◌∙◌, sym, ap, subst, lookup, erase, lookup-erase, dec_string, arith, Option-cases, get_elem?,
  if_neg,
}
use sinkronisasi_dan_distrib.Raft.{RaftNode}
use sinkronisasi_dan_distrib.LockManager.{Result, Command, apply, run}
use sinkronisasi_dan_distrib.LockManager.Node.{
  Future, unset, cancelled, set, DistributedLockManagerNode, request_id_of, set_result, resolve,
  apply_command, apply_commands,
}
use sinkronisasi_dan_distrib.LockManager.Node.Keyed.{IsKeyed, apply-IsKeyed}

-- The future `f` of the request `id`: it is pending under that id alone and is not done, or it is
-- done with a result of that id, and the id is not pending.
pub data Tracks (id : String) (f : ℕ) (n : DistributedLockManagerNode) : Type 0 where
  awaits :
      lookup id n.pending_futures ≡ some f
      → get_elem? n.futures f ≡ some unset
      → ((j : String) → lookup j n.pending_futures ≡ some f → j ≡ id)
      → Tracks id f n
  settled :
      (r : Result)
      → get_elem? n.futures f ≡ some (set r)
      → request_id_of r ≡ some id
      → lookup id n.pending_futures ≡ none
      → Tracks id f n

set_result-set :
    (r s : Result) (g f : ℕ) (fs : List Future)
    → get_elem? fs f ≡ some (set s)
    → get_elem? (set_result r g fs) f ≡ some (set s)
unfolding set_result
set_result-set r s g f [] h = h
set_result-set r s zero zero (unset ∷ fs) h = cc
set_result-set r s zero (suc f) (unset ∷ fs) h = h
set_result-set r s zero f (cancelled ∷ fs) h = h
set_result-set r s zero f (set x ∷ fs) h = h
set_result-set r s (suc g) zero (x ∷ fs) h = h
set_result-set r s (suc g) (suc f) (x ∷ fs) h = set_result-set r s g f fs h

set_result-unset :
    (r : Result) (f : ℕ) (fs : List Future)
    → get_elem? fs f ≡ some unset
    → get_elem? (set_result r f fs) f ≡ some (set r)
unfolding set_result
set_result-unset r f [] h = cc
set_result-unset r zero (unset ∷ fs) h = refl
set_result-unset r zero (cancelled ∷ fs) h = cc
set_result-unset r zero (set x ∷ fs) h = cc
set_result-unset r (suc f) (x ∷ fs) h = set_result-unset r f fs h

set_result-other :
    (r : Result) (g f : ℕ) (fs : List Future)
    → g ≢ f
    → get_elem? (set_result r g fs) f ≡ get_elem? fs f
unfolding set_result
set_result-other r g f [] h = refl
set_result-other r zero zero (x ∷ fs) h = absurd (h refl)
set_result-other r zero (suc f) (unset ∷ fs) h = refl
set_result-other r zero (suc f) (cancelled ∷ fs) h = refl
set_result-other r zero (suc f) (set x ∷ fs) h = refl
set_result-other r (suc g) zero (x ∷ fs) h = refl
set_result-other r (suc g) (suc f) (x ∷ fs) h = set_result-other r g f fs (λ e. h (ap suc e))

-- `pop` of the id `j`, which is pending with the future `g`, and `set_result` of that
take_out : String → ℕ → Result → DistributedLockManagerNode → DistributedLockManagerNode
take_out j g r n = record n {
  pending_futures = erase j n.pending_futures;
  futures = set_result r g n.futures;
}

take_out-Tracks :
    (id : String) (f : ℕ) (j : String) (g : ℕ) (r : Result) (n : DistributedLockManagerNode)
    → lookup j n.pending_futures ≡ some g
    → request_id_of r ≡ some j
    → Tracks id f n
    → Tracks id f (take_out j g r n)
unfolding take_out
take_out-Tracks id f j g r n e h (settled s done named gone) =
    settled s (set_result-set r s g f n.futures done) named
      (ground (arith, lookup-erase j id n.pending_futures))
take_out-Tracks id f j g r n e h (awaits mine undone alone) = elim (dec_string j id) [
  | yes same ↦
      settled r
        (subst (λ x. get_elem? (set_result r x n.futures) f ≡ some (set r)) (ground arith)
          (set_result-unset r f n.futures undone))
        (h ∙ ap some same) (ground (arith, lookup-erase j id n.pending_futures))
  | no other ↦
      awaits (lookup-erase j id n.pending_futures ∙ if_neg (dec_string j id) other none _ ∙ mine)
        (set_result-other r g f n.futures (λ q. other (alone j (e ∙ ap some q))) ∙ undone)
        (λ k q. alone k (ground (arith, lookup-erase j k n.pending_futures)))
]

resolve-Tracks :
    (id : String) (f : ℕ) (o : Option String) (r : Result) (n : DistributedLockManagerNode)
    → ((j : String) → o ≡ some j → request_id_of r ≡ some j)
    → Tracks id f n
    → Tracks id f (resolve o r n)
unfolding resolve
resolve-Tracks id f none r n h t = t
resolve-Tracks id f (some j) r n h t = elim (Option-cases (lookup j n.pending_futures)) [
  | inl e ↦ rw (e, resolve) t
  | inr (g, e) ↦ rw (e, resolve) (unfold take_out in take_out-Tracks id f j g r n e (h j refl) t)
]

pub truthy-some : (o : Option String) (j : String) → truthy o ≡ some j → o ≡ some j
unfolding truthy
truthy-some none j h = h
truthy-some (some s) j h = ground arith

pub truthy-of : (o : Option String) (j : String) → o ≡ some j → j ≢ "" → truthy o ≡ some j
unfolding truthy
truthy-of none j h v = cc
truthy-of (some s) j h v = ground arith

pub apply_command-Tracks :
    (id : String) (f : ℕ) (c : Command) (n : DistributedLockManagerNode)
    → Tracks id f n
    → Tracks id f (apply_command c n)
unfolding apply_command
apply_command-Tracks id f c n t =
    let result = (apply n.lock_state c).1 in
    resolve-Tracks id f (truthy (request_id_of result)) result
      (record n { lock_state = (apply n.lock_state c).0 })
      (λ j h. truthy-some (request_id_of result) j h) (moved t)
  where
    moved : Tracks id f n → Tracks id f (record n { lock_state = (apply n.lock_state c).0 })
    moved (awaits a b d) = awaits a b d
    moved (settled r a b d) = settled r a b d

-- a result of the id, not empty, leaves it settled
pub apply_command-settles :
    (id : String) (f : ℕ) (c : Command) (n : DistributedLockManagerNode)
    → id ≢ ""
    → request_id_of (apply n.lock_state c).1 ≡ some id
    → Tracks id f n
    → lookup id (apply_command c n).pending_futures ≡ none
unfolding apply_command resolve
apply_command-settles id f c n v h t = elim (Option-cases (lookup id n.pending_futures)) [
  | inl e ↦ rw (truthy-of _ id h v, e, apply_command, resolve) e
  | inr (g, e) ↦
      rw (truthy-of _ id h v, e, apply_command, resolve)
        (ground (arith, lookup-erase id id n.pending_futures))
]

pub apply_commands-Tracks :
    (id : String) (f : ℕ) (cs : List Command) (n : DistributedLockManagerNode)
    → Tracks id f n
    → Tracks id f (apply_commands cs n)
unfolding apply_commands
apply_commands-Tracks id f [] n t = t
apply_commands-Tracks id f (c ∷ cs) n t =
    apply_commands-Tracks id f cs (apply_command c n) (apply_command-Tracks id f c n t)

-- What a command does not change, and what it does to the lock table.
apply_command-lock_state :
    (c : Command) (n : DistributedLockManagerNode)
    → (apply_command c n).lock_state ≡ (apply n.lock_state c).0
unfolding apply_command resolve
apply_command-lock_state c n = resolve-lock_state _ _ _
  where
    resolve-lock_state :
        (o : Option String) (r : Result) (n : DistributedLockManagerNode)
        → (resolve o r n).lock_state ≡ n.lock_state
    resolve-lock_state none r n = refl
    resolve-lock_state (some j) r n = elim (Option-cases (lookup j n.pending_futures)) [
      | inl e ↦ rw (e, resolve) refl
      | inr (g, e) ↦ rw (e, resolve) refl
    ]

pub apply_commands-lock_state :
    (cs : List Command) (n : DistributedLockManagerNode)
    → (apply_commands cs n).lock_state ≡ run n.lock_state cs
unfolding apply_commands run
apply_commands-lock_state [] n = refl
apply_commands-lock_state (c ∷ cs) n =
    apply_commands-lock_state cs (apply_command c n)
    ∙ ap (λ m. run m cs) (apply_command-lock_state c n)

with_raft : RaftNode Command → DistributedLockManagerNode → DistributedLockManagerNode
with_raft r n = record n { raft = r }

apply_command-raft :
    (c : Command) (r : RaftNode Command) (n : DistributedLockManagerNode)
    → apply_command c (record n { raft = r }) ≡ record (apply_command c n) { raft = r }
unfolding apply_command resolve
apply_command-raft c r n =
    let (m, result) = apply n.lock_state c in
    resolve-raft (truthy (request_id_of result)) result (record n { lock_state = m })
  where
    resolve-raft :
        (o : Option String) (s : Result) (n : DistributedLockManagerNode)
        → resolve o s (record n { raft = r }) ≡ record (resolve o s n) { raft = r }
    resolve-raft none s n = refl
    resolve-raft (some j) s n = elim (Option-cases (lookup j n.pending_futures)) [
      | inl e ↦ rw (e, resolve) refl
      | inr (g, e) ↦ rw (e, resolve) refl
    ]

pub apply_commands-raft :
    (cs : List Command) (r : RaftNode Command) (n : DistributedLockManagerNode)
    → apply_commands cs (record n { raft = r }) ≡ record (apply_commands cs n) { raft = r }
unfolding apply_commands
apply_commands-raft [] r n = refl
apply_commands-raft (c ∷ cs) r n =
    ap (apply_commands cs) (apply_command-raft c r n) ∙ apply_commands-raft cs r (apply_command c n)

pub apply_commands-append :
    (cs ds : List Command) (n : DistributedLockManagerNode)
    → apply_commands ds (apply_commands cs n) ≡ apply_commands (cs ++ ds) n
unfolding apply_commands
apply_commands-append [] ds n = refl
apply_commands-append (c ∷ cs) ds n = apply_commands-append cs ds (apply_command c n)

pub run-IsKeyed :
    (cs : List Command) (n : DistributedLockManagerNode)
    → IsKeyed n.lock_state.requests
    → IsKeyed (apply_commands cs n).lock_state.requests
unfolding apply_commands
run-IsKeyed [] n v = v
run-IsKeyed (c ∷ cs) n v = run-IsKeyed cs (apply_command c n) (
    subst (λ m. IsKeyed m.requests) (sym (apply_command-lock_state c n))
      (apply-IsKeyed n.lock_state c v))
