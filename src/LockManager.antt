-- ===== src/LockManager.antt =====
-- src/nodes/lock_manager.py: `LockStateMachine`, the replicated lock table. A method returns the
-- new machine and its result. Times are milliseconds.

pub mod Exclusion
mod Abort
pub mod Grants
pub mod Consistency
pub mod Invariant
pub mod Served
pub mod Safety
pub mod Retry
pub mod Deadlock
pub mod Node
mod Tests
use mathlib.Core.Option
use sinkronisasi_dan_distrib.Base.{
  ℕ, zero, suc, ◌+◌, String, Bool, true, false, not, ◌&&◌, ◌||◌, Option, none, some, List, [], ◌∷◌,
  ◌++◌, map, Dict, lookup, insert, erase, contains, keys, values, any, all, is_empty, ite,
  dec_string, if◌then◌else◌, leb, set_add, set_discard,
}

-- The mode of a request is a string of the client: any other text is kept, and never granted.
pub data Mode : Type 0 where
  exclusive shared : Mode
  other : String → Mode

abbrev pub is_exclusive : Mode → Bool
is_exclusive exclusive = true
is_exclusive shared = false
is_exclusive (other m) = false

abbrev pub is_shared : Mode → Bool
is_shared exclusive = false
is_shared shared = true
is_shared (other m) = false

pub record LockRequest : Type 0 where
  pub request_id : String
  pub lock_name : String
  pub client_id : String
  pub mode : Mode
  pub created_at : ℕ
  pub ttl_ms : Option ℕ

pub record LockState : Type 0 where
  pub holders : Dict Mode
  pub holder_expiry : Dict (Option ℕ)
  pub queue : List LockRequest

abbrev pub empty_lock : LockState
empty_lock = record { holders = []; holder_expiry = []; queue = [] }

-- The results: one constructor for each value of "status", with the keys beside it.
pub data Result : Type 0 where
  granted : String → String → String → Mode → Result
  waiting : String → String → String → Mode → Result
  not_held : String → String → Result
  released : String → String → Result
  aborted : String → String → String → String → Result
  not_found : String → Result
  unknown_op : Result

pub data Command : Type 0 where
  acquire : LockRequest → Command
  release : String → String → Command
  abort : String → Option String → Command
  unknown : String → Command

pub record LockStateMachine : Type 0 where
  pub locks : Dict LockState
  pub requests : Dict Result
  pub held_by_client : Dict (List String)

abbrev pub init : LockStateMachine
init = record { locks = []; requests = []; held_by_client = [] }

abbrev pub granted_result : LockRequest → Result
granted_result r = granted r.request_id r.lock_name r.client_id r.mode

abbrev pub waiting_result : LockRequest → Result
waiting_result r = waiting r.request_id r.lock_name r.client_id r.mode

-- the tests of `_can_grant` below `if not state.holders`
unfoldable pub can_join : LockState → Mode → Bool
can_join s exclusive = false
can_join s shared =
    if any is_exclusive (values s.holders)
    then false
    else if any (λ q. is_exclusive q.mode) s.queue
    then false
    else true
can_join s (other m) = false

unfoldable pub can_grant_free : LockState → Mode → Bool
unfolding can_join
can_grant_free s exclusive = true
can_grant_free s shared = not (any (λ q. is_exclusive q.mode) s.queue)
can_grant_free s (other m) = can_join s (other m)

unfoldable pub can_grant : LockState → LockRequest → Bool
unfolding can_join can_grant_free
can_grant s r = if is_empty s.holders then can_grant_free s r.mode else can_join s r.mode

-- `if request.ttl_ms` is false of None and of 0
unfoldable pub expiry : LockRequest → Option ℕ → Option ℕ
expiry r none = none
expiry r (some zero) = none
expiry r (some (suc t)) = some (r.created_at + suc t)

abbrev pub held_locks : Option (List String) → List String
held_locks none = []
held_locks (some ls) = ls

-- `held_by_client.setdefault(c, set()).add(l)`
unfoldable pub add_held : String → String → Dict (List String) → Dict (List String)
add_held c l held = insert c (set_add l (held_locks (lookup c held))) held

-- `held_by_client.get(c, set()).discard(l)`: the default set is thrown away
unfoldable pub discard_held : String → String → Dict (List String) → Dict (List String)
discard_held c l held = elim (lookup c held) [
  | none ↦ held
  | some ls ↦ insert c (set_discard l ls) held
]

unfoldable pub grant_holder : LockState → LockRequest → LockState
unfolding expiry
grant_holder s r = record s {
  holders = insert r.client_id r.mode s.holders;
  holder_expiry = insert r.client_id (expiry r r.ttl_ms) s.holder_expiry;
}

unfoldable pub grant_request :
    LockStateMachine → LockState → LockRequest → LockStateMachine × LockState
unfolding grant_holder add_held
grant_request m s r = (
  record m { held_by_client = add_held r.client_id r.lock_name m.held_by_client },
  grant_holder s r,
)

-- `while state.queue and state.queue[0].mode == "shared"`: the requests taken, and the queue left
unfoldable pub take_shared : List LockRequest → List LockRequest × List LockRequest
take_shared [] = ([], [])
take_shared (r ∷ q) =
    let (taken, left) = take_shared q in if is_shared r.mode then (r ∷ taken, left) else ([], r ∷ q)

unfoldable pub take_free : List LockRequest → List LockRequest × List LockRequest
unfolding take_shared
take_free [] = ([], [])
take_free (r ∷ q) = if is_exclusive r.mode then (r ∷ [], q) else take_shared (r ∷ q)

-- the first half of `_grant_waiting`: which requests are granted, and the queue left
unfoldable pub take_granted : LockState → List LockRequest × List LockRequest
unfolding take_free take_shared
take_granted s =
    if is_empty s.queue
    then ([], s.queue)
    else if is_empty s.holders
    then take_free s.queue
    else if all is_shared (values s.holders)
    then take_shared s.queue
    else ([], s.queue)

-- `for request in granted`
unfoldable pub grant_each :
    List LockRequest → LockStateMachine → LockState → LockStateMachine × LockState
grant_each [] m s = (m, s)
grant_each (r ∷ rs) m s =
    let (m', s') = grant_request m s r in
    grant_each rs (record m' { requests = insert r.request_id (granted_result r) m'.requests }) s'

unfoldable pub grant_waiting : LockStateMachine → LockState → LockStateMachine × LockState
grant_waiting m s =
    let (taken, left) = take_granted s in grant_each taken m (record s { queue = left })

abbrev pub get_lock : LockStateMachine → String → LockState
get_lock m name = elim (lookup name m.locks) [ none ↦ empty_lock | some s ↦ s ]

-- what `_apply_acquire` does with a request id that it has not seen
unfoldable pub acquire_new : LockStateMachine → LockRequest → LockStateMachine × Result
acquire_new m r =
    let s = get_lock m r.lock_name in
    if can_grant s r
    then (let (m', s') = grant_request m s r in
        let result = granted_result r in
        (
          record m' {
            locks = insert r.lock_name s' m'.locks;
            requests = insert r.request_id result m'.requests;
          },
          result,
        ))
    else (let result = waiting_result r in
        (
          record m {
            locks = insert r.lock_name (record s { queue = s.queue ++ r ∷ [] }) m.locks;
            requests = insert r.request_id result m.requests;
          },
          result,
        ))

unfoldable pub apply_acquire : LockStateMachine → LockRequest → LockStateMachine × Result
apply_acquire m r = elim (lookup r.request_id m.requests) [
  | some result ↦ (m, result)
  | none ↦ acquire_new m r
]

-- the two `pop`s of `_apply_release`
unfoldable pub drop_holder : LockState → String → LockState
drop_holder s client = record s {
  holders = erase client s.holders;
  holder_expiry = erase client s.holder_expiry;
}

-- `_apply_release` behind its guard, for the state `s` of the lock
unfoldable pub release_holder : LockStateMachine → String → String → LockState → LockStateMachine
release_holder m name client s =
    let m₁ = record m { held_by_client = discard_held client name m.held_by_client } in
    let (m₂, s₂) = grant_waiting m₁ (drop_holder s client) in
    record m₂ { locks = insert name s₂ m₂.locks }

unfoldable pub apply_release : LockStateMachine → String → String → LockStateMachine × Result
apply_release m name client = elim (lookup name m.locks) [
  | none ↦ (m, not_held name client)
  | some s ↦
      if contains client s.holders
      then (release_holder m name client s, released name client)
      else (m, not_held name client)
]

-- the inner loop of `_apply_abort`: the first request with the id, and the queue without it
unfoldable pub pop_request : String → List LockRequest → Option (LockRequest × List LockRequest)
pop_request id [] = none
pop_request id (r ∷ q) =
    ite (dec_string r.request_id id) (some (r, q))
      (Option.map (λ (f, rest). (f, r ∷ rest)) (pop_request id q))

-- the outer loop, over `self.locks.values()`
unfoldable pub pop_from_locks : String → Dict LockState → Option (LockRequest × Dict LockState)
pop_from_locks id [] = none
pop_from_locks id ((name, s) ∷ ls) = elim (pop_request id s.queue) [
  | some (r, q) ↦ some (r, (name, record s { queue = q }) ∷ ls)
  | none ↦ Option.map (λ (r, rest). (r, (name, s) ∷ rest)) (pop_from_locks id ls)
]

-- `command.get("reason", "deadlock")`
abbrev pub reason_or_default : Option String → String
reason_or_default none = "deadlock"
reason_or_default (some why) = why

unfoldable pub apply_abort : LockStateMachine → String → Option String → LockStateMachine × Result
apply_abort m id reason = elim (pop_from_locks id m.locks) [
  | none ↦ (m, not_found id)
  | some (r, ls) ↦
      let result = aborted id r.lock_name r.client_id (reason_or_default reason) in
      (record m { locks = ls; requests = insert id result m.requests }, result)
]

unfoldable pub apply : LockStateMachine → Command → LockStateMachine × Result
apply m (acquire r) = apply_acquire m r
apply m (release name client) = apply_release m name client
apply m (abort id reason) = apply_abort m id reason
apply m (unknown op) = (m, unknown_op)

-- the committed commands, applied in order
unfoldable pub run : LockStateMachine → List Command → LockStateMachine
run m [] = m
run m (c ∷ cs) = run (apply m c).0 cs

unfoldable pub get_status : LockStateMachine → String → Option Result
get_status m id = lookup id m.requests

-- one item of the queue in `lock_snapshot`
pub record Waiter : Type 0 where
  pub request_id : String
  pub client_id : String
  pub mode : Mode
  pub created_at : ℕ

pub record Snapshot : Type 0 where
  pub lock : String
  pub holders : Dict Mode
  pub queue : List Waiter

abbrev pub waiter : LockRequest → Waiter
waiter r = record {
  request_id = r.request_id;
  client_id = r.client_id;
  mode = r.mode;
  created_at = r.created_at;
}

unfoldable pub lock_snapshot : LockStateMachine → String → Snapshot
lock_snapshot m name = elim (lookup name m.locks) [
  | none ↦ record { lock = name; holders = []; queue = [] }
  | some s ↦ record { lock = name; holders = s.holders; queue = map waiter s.queue }
]

abbrev pub is_expired : ℕ → Option ℕ → Bool
is_expired now none = false
is_expired now (some t) = leb t now

unfoldable pub expired_in : ℕ → String → Dict (Option ℕ) → List (String × String)
expired_in now name [] = []
expired_in now name ((client, t) ∷ d) =
    let rest = expired_in now name d in if is_expired now t then (name, client) ∷ rest else rest

-- the locks and clients whose lease has run out
unfoldable pub expired_holders : ℕ → Dict LockState → List (String × String)
expired_holders now [] = []
expired_holders now ((name, s) ∷ ls) = expired_in now name s.holder_expiry ++ expired_holders now ls
