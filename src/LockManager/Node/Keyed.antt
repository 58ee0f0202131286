-- ===== src/LockManager/Node/Keyed.antt =====
-- `LockStateMachine`: `requests` keeps every result under its own request id.
use sinkronisasi_dan_distrib.Base.{
  String, ◌≡◌, refl, inl, inr, Option, some, List, [], ◌∷◌, Dict, lookup, insert, lookup-insert,
  dec_string, arith, Bool-cases, Option-cases, contains,
}
use sinkronisasi_dan_distrib.LockManager.{
  LockRequest, LockState, Result, Command, acquire, release, abort, unknown, LockStateMachine,
  granted_result, waiting_result, can_grant, get_lock, grant_request, grant_each, grant_waiting,
  acquire_new, apply_acquire, release_holder, apply_release, pop_from_locks, apply_abort, apply,
}
use sinkronisasi_dan_distrib.LockManager.Node.{request_id_of}

unfoldable pub IsKeyed : Dict Result → Type 0
IsKeyed d = (k : String) (r : Result) → lookup k d ≡ some r → request_id_of r ≡ some k

insert-IsKeyed :
    (k : String) (r : Result) (d : Dict Result)
    → request_id_of r ≡ some k
    → IsKeyed d
    → IsKeyed (insert k r d)
unfolding IsKeyed
insert-IsKeyed k r d h v = λ j s found. elim (dec_string k j) [
  | yes e ↦ ground (arith, lookup-insert k j r d)
  | no e ↦ v j s (ground (arith, lookup-insert k j r d))
]

grant_each-IsKeyed :
    (rs : List LockRequest) (m : LockStateMachine) (s : LockState)
    → IsKeyed m.requests
    → IsKeyed (grant_each rs m s).0.requests
unfolding grant_each grant_request
grant_each-IsKeyed [] m s v = v
grant_each-IsKeyed (r ∷ rs) m s v =
    grant_each-IsKeyed rs _ _
      (insert-IsKeyed r.request_id (granted_result r) m.requests (unfold request_id_of in refl) v)

acquire_new-IsKeyed :
    (m : LockStateMachine) (r : LockRequest)
    → IsKeyed m.requests
    → IsKeyed (acquire_new m r).0.requests × (request_id_of (acquire_new m r).1 ≡ some r.request_id)
unfolding acquire_new grant_request request_id_of
acquire_new-IsKeyed m r v = elim (Bool-cases (can_grant (get_lock m r.lock_name) r)) [
  | inl e ↦
      rw (e, acquire_new) (insert-IsKeyed r.request_id (granted_result r) m.requests refl v, refl)
  | inr e ↦
      rw (e, acquire_new) (insert-IsKeyed r.request_id (waiting_result r) m.requests refl v, refl)
]

pub apply_acquire-IsKeyed :
    (m : LockStateMachine) (r : LockRequest)
    → IsKeyed m.requests
    → IsKeyed (apply_acquire m r).0.requests
      × (request_id_of (apply_acquire m r).1 ≡ some r.request_id)
unfolding apply_acquire
apply_acquire-IsKeyed m r v = elim (Option-cases (lookup r.request_id m.requests)) [
  | inl e ↦ rw (e, apply_acquire) (acquire_new-IsKeyed m r v)
  | inr (s, e) ↦ rw (e, apply_acquire) (v, unfold IsKeyed in v r.request_id s e)
]

apply_release-IsKeyed :
    (m : LockStateMachine) (name client : String)
    → IsKeyed m.requests
    → IsKeyed (apply_release m name client).0.requests
unfolding apply_release release_holder grant_waiting
apply_release-IsKeyed m name client v = elim (Option-cases (lookup name m.locks)) [
  | inl e ↦ rw (e, apply_release) v
  | inr (s, e) ↦ elim (Bool-cases (contains client s.holders)) [
    | inl h ↦ rw (e, apply_release, h) (grant_each-IsKeyed _ _ _ v)
    | inr h ↦ rw (e, apply_release, h) v
  ]
]

apply_abort-IsKeyed :
    (m : LockStateMachine) (id : String) (reason : Option String)
    → IsKeyed m.requests
    → IsKeyed (apply_abort m id reason).0.requests
unfolding apply_abort
apply_abort-IsKeyed m id reason v = elim (Option-cases (pop_from_locks id m.locks)) [
  | inl e ↦ rw (e, apply_abort) v
  | inr ((r, ls), e) ↦
      rw (e, apply_abort) (insert-IsKeyed id _ m.requests (unfold request_id_of in refl) v)
]

pub apply-IsKeyed :
    (m : LockStateMachine) (c : Command) → IsKeyed m.requests → IsKeyed (apply m c).0.requests
unfolding apply
apply-IsKeyed m (acquire r) v = (apply_acquire-IsKeyed m r v).0
apply-IsKeyed m (release name client) v = apply_release-IsKeyed m name client v
apply-IsKeyed m (abort id reason) v = apply_abort-IsKeyed m id reason v
apply-IsKeyed m (unknown op) v = v
