-- ===== src/LockManager/Safety.antt =====
-- What the lock table promises, after any commands in any order.
use sinkronisasi_dan_distrib.Base.{
  subst, String, ◌≡◌, refl, sym, ap, ◌∙◌, Bool, true, false, Option, some, List, [], ◌∷◌, ◌++◌,
  lookup, lookup-insert, contains, dec_string, arith, All, if_pos, erase,
}
use sinkronisasi_dan_distrib.LockManager.{
  Mode, exclusive, LockRequest, LockState, LockStateMachine, Result, Command, release, init,
  released, get_lock, grant_request, grant_waiting, grant_each, take_granted, drop_holder,
  discard_held, apply_release, release_holder, apply, run, granted_result, granted, grant_holder,
}
use sinkronisasi_dan_distrib.LockManager.Grants.{holds, take_granted-append, locks-grant_each}
use sinkronisasi_dan_distrib.LockManager.Exclusion.{
  Grantable, holders_after, holders-grant_each, take_granted-Grantable,
}
use sinkronisasi_dan_distrib.LockManager.Consistency.{
  init-IsValid, get_lock-IsConsistent, or_empty, get_lock-or_empty,
}
use sinkronisasi_dan_distrib.LockManager.Served.{IsBlocked, take_granted-IsBlocked}
use sinkronisasi_dan_distrib.LockManager.Invariant.{run-IsValid}

-- Mutual exclusion: after any commands from the empty table, a client that holds a lock
-- exclusively is the only holder of that lock.
pub mutual_exclusion :
    (cs : List Command) (lock c c' : String) (m : Mode)
    → lookup c (get_lock (run init cs) lock).holders ≡ some exclusive
    → lookup c' (get_lock (run init cs) lock).holders ≡ some m
    → c ≡ c'
mutual_exclusion cs lock =
    (get_lock-IsConsistent (run init cs) lock (run-IsValid init cs init-IsValid)).exclusion

-- After any commands from the empty table, `held_by_client` lists a lock under a client exactly
-- when the client is among the lock's holders, and then also has an entry in `holder_expiry`.
pub held_by_client_agrees :
    (cs : List Command) (lock c : String)
    → let m = run init cs in
      let s = get_lock m lock in
      (holds m.held_by_client c lock ≡ contains c s.holders)
      × (contains c s.holder_expiry ≡ contains c s.holders)
held_by_client_agrees cs lock c =
    let v = run-IsValid init cs init-IsValid in
    (v.books lock c, (get_lock-IsConsistent (run init cs) lock v).expiries c)

abbrev pub is_granted : Option Result → Bool
is_granted (some (granted _ _ _ _)) = true
is_granted _ = false

grant_each-keeps_granted :
    (rs : List LockRequest) (m : LockStateMachine) (s : LockState) (id : String)
    → is_granted (lookup id m.requests) ≡ true
    → is_granted (lookup id (grant_each rs m s).0.requests) ≡ true
unfolding grant_each grant_request
grant_each-keeps_granted [] m s id h = h
grant_each-keeps_granted (r ∷ rs) m s id h =
    grant_each-keeps_granted rs _ (grant_holder s r) id
      (ground (arith, lookup-insert r.request_id id (granted_result r) m.requests))

grant_each-grants :
    (rs : List LockRequest) (m : LockStateMachine) (s : LockState)
    → All (λ r. is_granted (lookup r.request_id (grant_each rs m s).0.requests) ≡ true) rs
unfolding grant_each grant_request
grant_each-grants [] m s = tt
grant_each-grants (r ∷ rs) m s = (
  grant_each-keeps_granted rs _ (grant_holder s r) r.request_id
      (ground (arith, lookup-insert r.request_id r.request_id (granted_result r) m.requests)),
  grant_each-grants rs _ (grant_holder s r),
)

release_held :
    (m : LockStateMachine) (lock c : String) (s : LockState)
    → lookup lock m.locks ≡ some s
    → contains c s.holders ≡ true
    → apply m (release lock c) ≡ (release_holder m lock c s, released lock c)
unfolding apply apply_release
release_held m lock c s found held = ground arith

-- How a release by the holder `c` leaves the lock in the machine `m'`: the requests `taken` from
-- the front of the queue, which may be held together, are the new holders beside those who stay,
-- and their status is granted; the rest of the queue waits on in its order, and is empty or starts
-- with a request that cannot join the new holders.
pub record Released (m' : LockStateMachine) (lock c : String) (s : LockState) : Type 0 where
  pub taken : List LockRequest
  pub left : List LockRequest
  pub in_order : s.queue ≡ taken ++ left
  pub waits : (get_lock m' lock).queue ≡ left
  pub compatible : Grantable (erase c s.holders) taken
  pub joined : (get_lock m' lock).holders ≡ holders_after taken (erase c s.holders)
  pub told : All (λ r. is_granted (lookup r.request_id m'.requests) ≡ true) taken
  pub blocked : IsBlocked (get_lock m' lock).holders left

release_holder-Released :
    (m : LockStateMachine) (lock c : String) (s : LockState)
    → Released (release_holder m lock c s) lock c s
unfolding release_holder grant_waiting drop_holder
release_holder-Released m lock c s = record {
  taken = taken;
  left = left;
  in_order = sym (take_granted-append s₁);
  waits = at_lock (λ t. t.queue) ∙ (locks-grant_each taken m₁ s₂).1;
  compatible = take_granted-Grantable s₁;
  joined = at_lock (λ t. t.holders) ∙ holders-grant_each taken m₁ s₂;
  told = grant_each-grants taken m₁ s₂;
  blocked =
      subst (λ d. IsBlocked d left)
        (sym (at_lock (λ t. t.holders) ∙ holders-grant_each taken m₁ s₂))
        (take_granted-IsBlocked s₁);
}
  where
    s₁ : LockState
    s₁ = drop_holder s c

    m₁ : LockStateMachine
    m₁ = record m { held_by_client = discard_held c lock m.held_by_client }

    taken : List LockRequest
    taken = (take_granted s₁).0

    left : List LockRequest
    left = (take_granted s₁).1

    s₂ : LockState
    s₂ = record s₁ { queue = left }

    at_lock :
        {A : Type 0} (f : LockState → A)
        → f (get_lock (release_holder m lock c s) lock) ≡ f (grant_each taken m₁ s₂).1
    at_lock f = ap f (
        get_lock-or_empty (release_holder m lock c s) lock
        ∙ ap or_empty (
            lookup-insert lock lock (grant_each taken m₁ s₂).1 (grant_each taken m₁ s₂).0.locks
            ∙ if_pos (dec_string lock lock) refl _ _))

-- A release by a holder answers `released`, and serves the front of the queue in order: it grants
-- requests from there until the queue is empty or its first request cannot join the holders (an
-- exclusive one beside any holder, a shared one beside one that is not shared).
pub release-Released :
    (m : LockStateMachine) (lock c : String) (s : LockState)
    → lookup lock m.locks ≡ some s
    → contains c s.holders ≡ true
    → Released (apply m (release lock c)).0 lock c s
      × ((apply m (release lock c)).1 ≡ released lock c)
release-Released m lock c s found held =
    rw (release_held m lock c s found held) (release_holder-Released m lock c s, refl)
