-- ===== src/LockManager/Invariant.antt =====
-- The invariant of `LockStateMachine`, kept by every command.
use sinkronisasi_dan_distrib.LockManager.Abort.{
  pop_request-split, Popped, untouched, popped, pop_from_locks_lem,
}
use sinkronisasi_dan_distrib.Base.{
  String, ◌≡◌, refl, sym, subst, ap, inl, inr, Option, some, List, [], ◌∷◌, ◌++◌, Dict, lookup,
  lookup-erase, contains, arith, Bool-cases, Option-cases, All-append, All-append_left,
  All-append_right, ◌∙◌,
}
use sinkronisasi_dan_distrib.LockManager.{
  LockRequest, LockState, LockStateMachine, Result, Command, acquire, release, abort, unknown,
  get_lock, can_grant, grant_holder, grant_request, take_granted, grant_waiting, drop_holder,
  discard_held, acquire_new, apply_acquire, release_holder, apply_release, pop_request,
  pop_from_locks, apply_abort, apply, run,
}
use sinkronisasi_dan_distrib.LockManager.Exclusion.{can_grant-Admits}
use sinkronisasi_dan_distrib.LockManager.Grants.{
  holds-discard_held, holds-add_held, locks-grant_each, AreNamed, Books, Books-insert,
}
use sinkronisasi_dan_distrib.LockManager.Consistency.{
  IsConsistent, IsValid, or_empty, get_lock-or_empty, get_lock-IsConsistent, write_back,
  grant_holder-IsConsistent, drop_holder-IsConsistent, enqueue-IsConsistent,
  grant_waiting-IsConsistent, Books-grant_waiting, holds-grant_waiting_ne,
}

locks-grant_waiting : (m : LockStateMachine) (s : LockState) → (grant_waiting m s).0.locks ≡ m.locks
unfolding grant_waiting
locks-grant_waiting m s = (locks-grant_each (take_granted s).0 m _).0

Books-discard_held :
    (c n : String) (held : Dict (List String)) (s : LockState)
    → Books held n s.holders
    → Books (discard_held c n held) n (drop_holder s c).holders
unfolding drop_holder
Books-discard_held c n held s b =
    λ j. ground (arith, holds-discard_held c n j n held, lookup-erase c j s.holders, b j)

acquire_new-IsValid :
    (m : LockStateMachine) (r : LockRequest) → IsValid m → IsValid (acquire_new m r).0
unfolding acquire_new grant_request
acquire_new-IsValid m r v = elim (Bool-cases (can_grant s r)) [
  | inl grants ↦
      rw (grants, acquire_new)
        (write_back m r.lock_name (grant_holder s r) _ _ v
          (grant_holder-IsConsistent r.lock_name s k r (can_grant-Admits s r grants))
          (unfold grant_holder in
            Books-insert r.lock_name r m.held_by_client s.holders refl (v.books r.lock_name))
          (λ j c h. ground (arith, holds-add_held r.client_id r.lock_name c j m.held_by_client)))
  | inr waits ↦
      rw (waits, acquire_new)
        (write_back m r.lock_name (record s { queue = s.queue ++ r ∷ [] }) m.held_by_client _ v
          (enqueue-IsConsistent r.lock_name s k r refl) (v.books r.lock_name) (λ j c h. refl))
]
  where
    s : LockState
    s = get_lock m r.lock_name

    k : IsConsistent r.lock_name s
    k = get_lock-IsConsistent m r.lock_name v

apply_acquire-IsValid :
    (m : LockStateMachine) (r : LockRequest) → IsValid m → IsValid (apply_acquire m r).0
unfolding apply_acquire
apply_acquire-IsValid m r v = elim (Option-cases (lookup r.request_id m.requests)) [
  | inl new ↦ rw (new, apply_acquire) (acquire_new-IsValid m r v)
  | inr (result, known) ↦ rw (known, apply_acquire) v
]

release_holder-IsValid :
    (m : LockStateMachine) (n c : String) (s : LockState)
    → IsValid m
    → lookup n m.locks ≡ some s
    → IsValid (release_holder m n c s)
unfolding release_holder
release_holder-IsValid m n c s v e = rw (locks-grant_waiting m₁ s₁) (
    write_back m n (grant_waiting m₁ s₁).1 _ _ v (grant_waiting-IsConsistent n s₁ k m₁)
      (Books-grant_waiting n s₁ k m₁ b)
      (λ j d h.
        holds-grant_waiting_ne n s₁ k m₁ d j h
        ∙ ground (arith, holds-discard_held c n d j m.held_by_client)))
  where
    m₁ : LockStateMachine
    m₁ = record m { held_by_client = discard_held c n m.held_by_client }

    s₁ : LockState
    s₁ = drop_holder s c

    k : IsConsistent n s₁
    k = drop_holder-IsConsistent n s (v.each n s e) c

    b : Books m₁.held_by_client n s₁.holders
    b = Books-discard_held c n m.held_by_client s (
        subst (λ (x : LockState). Books m.held_by_client n x.holders)
          (get_lock-or_empty m n ∙ ap or_empty e) (v.books n))

apply_release-IsValid :
    (m : LockStateMachine) (n c : String) → IsValid m → IsValid (apply_release m n c).0
unfolding apply_release
apply_release-IsValid m n c v = elim (Option-cases (lookup n m.locks)) [
  | inl absent ↦ rw (absent, apply_release) v
  | inr (s, found) ↦ elim (Bool-cases (contains c s.holders)) [
    | inl held ↦ rw (found, apply_release, held) (release_holder-IsValid m n c s v found)
    | inr idle ↦ rw (found, apply_release, idle) v
  ]
]

abort-IsConsistent :
    (n id : String) (s : LockState) (r : LockRequest) (q : List LockRequest)
    → IsConsistent n s
    → pop_request id s.queue ≡ some (r, q)
    → IsConsistent n (record s { queue = q })
abort-IsConsistent n id s r q k e =
    let (xs, ys, before, after, same_id) = pop_request-split id s.queue r q e in
    let named = subst (AreNamed n) before k.named in
    record {
      exclusion = k.exclusion;
      expiries = k.expiries;
      named = subst (AreNamed n) (sym after) (
          All-append (λ (x : LockRequest). x.lock_name ≡ n) xs ys
            (All-append_left (λ (x : LockRequest). x.lock_name ≡ n) xs (r ∷ ys) named)
            (All-append_right (λ (x : LockRequest). x.lock_name ≡ n) xs (r ∷ ys) named).1);
    }

abort_locks-IsValid :
    (m : LockStateMachine) (id : String) (r : LockRequest) (ls : Dict LockState) (rq : Dict Result)
    → IsValid m
    → pop_from_locks id m.locks ≡ some (r, ls)
    → IsValid (record m { locks = ls; requests = rq })
abort_locks-IsValid m id r ls rq v e = record {
  each = λ n t found. at_each n t found (pop_from_locks_lem id m.locks r ls n e);
  books = λ n. at_books n (pop_from_locks_lem id m.locks r ls n e);
}
  where
    at_each :
        (n : String) (t : LockState)
        → lookup n ls ≡ some t
        → Popped id r (lookup n m.locks) (lookup n ls)
        → IsConsistent n t
    at_each n t found (untouched same) = v.each n t (sym same ∙ found)
    at_each n t found (popped s q was now took) =
        let same_lock : record s { queue = q } ≡ t = ground arith in
        subst (IsConsistent n) same_lock (abort-IsConsistent n id s r q (v.each n s was) took)

    at_books :
        (n : String)
        → Popped id r (lookup n m.locks) (lookup n ls)
        → Books m.held_by_client n (get_lock (record m { locks = ls; requests = rq }) n).holders
    at_books n (untouched same) = λ c. ground (arith, v.books n c)
    at_books n (popped s q was now took) = λ c. ground (arith, v.books n c)

apply_abort-IsValid :
    (m : LockStateMachine) (id : String) (why : Option String)
    → IsValid m
    → IsValid (apply_abort m id why).0
unfolding apply_abort
apply_abort-IsValid m id why v = elim (Option-cases (pop_from_locks id m.locks)) [
  | inl absent ↦ rw (absent, apply_abort) v
  | inr ((r, ls), found) ↦ rw (found, apply_abort) (abort_locks-IsValid m id r ls _ v found)
]

pub apply-IsValid : (m : LockStateMachine) (c : Command) → IsValid m → IsValid (apply m c).0
unfolding apply
apply-IsValid m (acquire r) v = apply_acquire-IsValid m r v
apply-IsValid m (release n c) v = apply_release-IsValid m n c v
apply-IsValid m (abort id why) v = apply_abort-IsValid m id why v
apply-IsValid m (unknown op) v = v

pub run-IsValid : (m : LockStateMachine) (cs : List Command) → IsValid m → IsValid (run m cs)
unfolding run
run-IsValid m [] v = v
run-IsValid m (c ∷ cs) v = run-IsValid (apply m c).0 cs (apply-IsValid m c v)
