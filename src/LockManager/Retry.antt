-- ===== src/LockManager/Retry.antt =====
-- A request id that was answered: no command forgets its result, and no acquire acts on it again.
use sinkronisasi_dan_distrib.Base.{
  String, ◌≡◌, refl, inl, inr, true, some, List, [], ◌∷◌, Dict, insert, lookup, lookup-insert,
  contains, arith, Option-cases, Bool-cases,
}
use sinkronisasi_dan_distrib.LockManager.{
  LockRequest, LockState, LockStateMachine, Result, Command, acquire, release, abort, unknown,
  can_grant, get_lock, grant_request, grant_each, grant_waiting, acquire_new, apply_acquire,
  apply_release, release_holder, pop_from_locks, apply_abort, apply, run, granted_result,
  waiting_result, get_status,
}

-- the id has a result
Known : String → Dict Result → Type 0
Known id d = contains id d ≡ true

insert-Known : (id k : String) (r : Result) (d : Dict Result) → Known id d → Known id (insert k r d)
unfolding Known
insert-Known id k r d h = ground (arith, lookup-insert k id r d)

insert_self-Known : (id : String) (r : Result) (d : Dict Result) → Known id (insert id r d)
unfolding Known
insert_self-Known id r d = ground (arith, lookup-insert id id r d)

grant_each-Known :
    (id : String) (rs : List LockRequest) (m : LockStateMachine) (s : LockState)
    → Known id m.requests
    → Known id (grant_each rs m s).0.requests
unfolding grant_each grant_request
grant_each-Known id [] m s h = h
grant_each-Known id (r ∷ rs) m s h =
    grant_each-Known id rs _ _ (insert-Known id r.request_id (granted_result r) m.requests h)

acquire_new-Known :
    (id : String) (m : LockStateMachine) (r : LockRequest)
    → Known id m.requests
    → Known id (acquire_new m r).0.requests
unfolding acquire_new grant_request
acquire_new-Known id m r h = elim (Bool-cases (can_grant (get_lock m r.lock_name) r)) [
  | inl e ↦ rw (e, acquire_new) (insert-Known id r.request_id (granted_result r) m.requests h)
  | inr e ↦ rw (e, acquire_new) (insert-Known id r.request_id (waiting_result r) m.requests h)
]

apply_release-Known :
    (id : String) (m : LockStateMachine) (name client : String)
    → Known id m.requests
    → Known id (apply_release m name client).0.requests
unfolding apply_release release_holder grant_waiting
apply_release-Known id m name client h = elim (Option-cases (lookup name m.locks)) [
  | inl e ↦ rw (e, apply_release) h
  | inr (s, e) ↦ elim (Bool-cases (contains client s.holders)) [
    | inl held ↦ rw (e, apply_release, held) (grant_each-Known id _ _ _ h)
    | inr free ↦ rw (e, apply_release, free) h
  ]
]

apply-Known :
    (id : String) (m : LockStateMachine) (c : Command)
    → Known id m.requests
    → Known id (apply m c).0.requests
unfolding apply apply_acquire apply_abort
apply-Known id m (acquire r) h = elim (Option-cases (lookup r.request_id m.requests)) [
  | inl e ↦ rw (e, apply_acquire) (acquire_new-Known id m r h)
  | inr (s, e) ↦ rw (e, apply_acquire) h
]
apply-Known id m (release name client) h = apply_release-Known id m name client h
apply-Known id m (abort k reason) h = elim (Option-cases (pop_from_locks k m.locks)) [
  | inl e ↦ rw (e, apply_abort) h
  | inr ((r, ls), e) ↦ rw (e, apply_abort) (insert-Known id k _ m.requests h)
]
apply-Known id m (unknown op) h = h

run-Known :
    (id : String) (cs : List Command) (m : LockStateMachine)
    → Known id m.requests
    → Known id (run m cs).requests
unfolding run
run-Known id [] m h = h
run-Known id (c ∷ cs) m h = run-Known id cs (apply m c).0 (apply-Known id m c h)

acquired-Known :
    (m : LockStateMachine) (r : LockRequest) → Known r.request_id (apply m (acquire r)).0.requests
unfolding apply apply_acquire acquire_new grant_request
acquired-Known m r = elim (Option-cases (lookup r.request_id m.requests)) [
  | inr (s, e) ↦ rw (e, apply_acquire) (unfold Known in ground arith)
  | inl e ↦ elim (Bool-cases (can_grant (get_lock m r.lock_name) r)) [
    | inl b ↦
        rw (e, apply_acquire, b, acquire_new)
          (insert_self-Known r.request_id (granted_result r) m.requests)
    | inr b ↦
        rw (e, apply_acquire, b, acquire_new)
          (insert_self-Known r.request_id (waiting_result r) m.requests)
  ]
]

-- At any time after an acquire, whatever commands came between, another acquire with its request id
-- changes nothing and answers with the status that the id has by then; and the id has one.
pub acquire_retry :
    (m : LockStateMachine) (r r' : LockRequest) (cs : List Command)
    → r'.request_id ≡ r.request_id
    → let m' = run (apply m (acquire r)).0 cs in
      (result : Result) × (get_status m' r.request_id ≡ some result)
      × (apply m' (acquire r') ≡ (m', result))
unfolding apply apply_acquire get_status
acquire_retry m r r' cs e =
    let m' = run (apply m (acquire r)).0 cs in
    let known = run-Known r.request_id cs (apply m (acquire r)).0 (acquired-Known m r) in
    elim (Option-cases (lookup r.request_id m'.requests)) [
      | inl missing ↦ absurd (unfold Known in ground arith)
      | inr (result, found) ↦ (result, found, rw (e, found, apply_acquire) refl)
    ]
