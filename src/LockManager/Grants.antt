-- ===== src/LockManager/Grants.antt =====
-- `_grant_waiting` of one lock: the queue it leaves, and the books it keeps.
use sinkronisasi_dan_distrib.Base.{
  String, ◌≡◌, ◌≢◌, refl, Bool, true, false, Option, none, some, List, [], ◌∷◌, ◌++◌, Dict, lookup,
  lookup-insert, insert, contains, ite, dec_string, arith, All, member, set_add, set_discard,
  member-set_add, member-set_discard, ◌∙◌,
}
use sinkronisasi_dan_distrib.LockManager.{
  Mode, LockRequest, LockState, LockStateMachine, expiry, grant_holder, grant_request, take_shared,
  take_free, take_granted, grant_each, add_held, discard_held, held_locks,
}

-- `n in held_by_client[c]`
abbrev pub holds : Dict (List String) → String → String → Bool
holds held c n = member n (held_locks (lookup c held))

pub holds-add_held :
    (c l c' n : String) (held : Dict (List String))
    → holds (add_held c l held) c' n
      ≡ ite (dec_string c c') (ite (dec_string l n) true (holds held c n)) (holds held c' n)
unfolding add_held
holds-add_held c l c' n held = ground (
  arith,
  lookup-insert c c' (set_add l (held_locks (lookup c held))) held,
  member-set_add l n (held_locks (lookup c held)),
)

pub holds-discard_held :
    (c l c' n : String) (held : Dict (List String))
    → holds (discard_held c l held) c' n
      ≡ ite (dec_string c c') (ite (dec_string l n) false (holds held c n)) (holds held c' n)
unfolding discard_held member
holds-discard_held c l c' n held = go (lookup c held) refl
  where
    go :
        (o : Option (List String))
        → lookup c held ≡ o
        → holds (discard_held c l held) c' n
          ≡ ite (dec_string c c') (ite (dec_string l n) false (holds held c n)) (holds held c' n)
    go none e = ground arith
    go (some ls) e =
        ground (arith, lookup-insert c c' (set_discard l ls) held, member-set_discard l n ls)

take_shared-append : (q : List LockRequest) → (take_shared q).0 ++ (take_shared q).1 ≡ q
unfolding take_shared
take_shared-append [] = refl
take_shared-append (r ∷ q) = ground (arith, take_shared-append q)

take_free-append : (q : List LockRequest) → (take_free q).0 ++ (take_free q).1 ≡ q
unfolding take_free
take_free-append [] = refl
take_free-append (r ∷ q) = ground (arith, take_shared-append (r ∷ q))

-- What is taken is a prefix of the queue, and what is left is the rest of it.
pub take_granted-append : (s : LockState) → (take_granted s).0 ++ (take_granted s).1 ≡ s.queue
unfolding take_granted
take_granted-append s = ground (arith, take_shared-append s.queue, take_free-append s.queue)

pub locks-grant_each :
    (rs : List LockRequest) (m : LockStateMachine) (s : LockState)
    → ((grant_each rs m s).0.locks ≡ m.locks) × ((grant_each rs m s).1.queue ≡ s.queue)
unfolding grant_each grant_request
locks-grant_each [] m s = (refl, refl)
locks-grant_each (r ∷ rs) m s = locks-grant_each rs _ (grant_holder s r)

abbrev pub AreNamed : String → List LockRequest → Type 0
AreNamed n rs = All (λ r. r.lock_name ≡ n) rs

-- The entries of `held_by_client` for one lock are its holders.
abbrev pub Books : Dict (List String) → String → Dict Mode → Type 0
Books held n d = (c : String) → holds held c n ≡ contains c d

abbrev pub SameKeys : LockState → Type 0
SameKeys s = (c : String) → contains c s.holder_expiry ≡ contains c s.holders

pub Books-insert :
    (n : String) (r : LockRequest) (held : Dict (List String)) (d : Dict Mode)
    → r.lock_name ≡ n
    → Books held n d
    → Books (add_held r.client_id r.lock_name held) n (insert r.client_id r.mode d)
Books-insert n r held d e b = λ c. ground (
  arith,
  holds-add_held r.client_id r.lock_name c n held,
  lookup-insert r.client_id c r.mode d,
  b c,
  e,
)

pub Books-grant_each :
    (n : String) (rs : List LockRequest) (m : LockStateMachine) (s : LockState)
    → AreNamed n rs
    → Books m.held_by_client n s.holders
    → Books (grant_each rs m s).0.held_by_client n (grant_each rs m s).1.holders
unfolding grant_each grant_request
Books-grant_each n [] m s a b = b
Books-grant_each n (r ∷ rs) m s a b =
    Books-grant_each n rs _ (grant_holder s r) a.1
      (Books-insert n r m.held_by_client s.holders a.0 b)

pub holds-grant_each_ne :
    (n : String) (rs : List LockRequest) (m : LockStateMachine) (s : LockState) (c j : String)
    → AreNamed n rs
    → j ≢ n
    → holds (grant_each rs m s).0.held_by_client c j ≡ holds m.held_by_client c j
unfolding grant_each grant_request
holds-grant_each_ne n [] m s c j a h = refl
holds-grant_each_ne n (r ∷ rs) m s c j a h =
    holds-grant_each_ne n rs _ (grant_holder s r) c j a.1 h
    ∙ ground (arith, holds-add_held r.client_id r.lock_name c j m.held_by_client, a.0)

pub SameKeys-grant_each :
    (rs : List LockRequest) (m : LockStateMachine) (s : LockState)
    → SameKeys s
    → SameKeys (grant_each rs m s).1
unfolding grant_each grant_request grant_holder
SameKeys-grant_each [] m s k = k
SameKeys-grant_each (r ∷ rs) m s k = SameKeys-grant_each rs _ (grant_holder s r) λ c. ground (
  arith,
  k c,
  lookup-insert r.client_id c (expiry r r.ttl_ms) s.holder_expiry,
  lookup-insert r.client_id c r.mode s.holders,
)
