-- ===== src/LockManager/Consistency.antt =====
-- The invariant of `LockStateMachine`, and what a lock that is written back must keep.
use sinkronisasi_dan_distrib.Base.{
  String, ◌≡◌, ◌≢◌, refl, sym, subst, ap, Option, none, some, List, [], ◌∷◌, ◌++◌, Dict, lookup,
  lookup-insert, lookup-erase, insert, dec_string, arith, All-append, member, All-append_left,
  All-append_right, ◌∙◌,
}
use sinkronisasi_dan_distrib.LockManager.{
  LockRequest, LockState, LockStateMachine, Result, init, empty_lock, get_lock, grant_holder,
  take_granted, grant_waiting, drop_holder, expiry,
}
use sinkronisasi_dan_distrib.LockManager.Exclusion.{
  IsExclusive, Admits, insert-IsExclusive, erase-IsExclusive, grant_waiting-IsExclusive,
}
use sinkronisasi_dan_distrib.LockManager.Grants.{
  holds, take_granted-append, locks-grant_each, AreNamed, Books, SameKeys, Books-grant_each,
  holds-grant_each_ne, SameKeys-grant_each,
}

-- One lock, under its name: an exclusive holder is alone, the holders are the keys of
-- `holder_expiry`, and the queue holds requests for this lock.
pub record IsConsistent (n : String) (s : LockState) : Type 0 where
  pub exclusion : IsExclusive s.holders
  pub expiries : SameKeys s
  pub named : AreNamed n s.queue

-- The machine: every lock is consistent, and `held_by_client` lists each lock under its holders.
pub record IsValid (m : LockStateMachine) : Type 0 where
  pub each : (n : String) (s : LockState) → lookup n m.locks ≡ some s → IsConsistent n s
  pub books : (n : String) → Books m.held_by_client n (get_lock m n).holders

pub init-IsValid : IsValid init
unfolding lookup member
init-IsValid = record { each = λ n s e. cc; books = λ n c. refl }

empty_lock-IsConsistent : (n : String) → IsConsistent n empty_lock
unfolding lookup
empty_lock-IsConsistent n = record {
  exclusion = λ c c' m h h'. cc;
  expiries = λ c. refl;
  named = tt;
}

abbrev pub or_empty : Option LockState → LockState
or_empty none = empty_lock
or_empty (some s) = s

pub get_lock-or_empty :
    (m : LockStateMachine) (n : String) → get_lock m n ≡ or_empty (lookup n m.locks)
get_lock-or_empty m n = ground arith

pub get_lock-IsConsistent :
    (m : LockStateMachine) (n : String) → IsValid m → IsConsistent n (get_lock m n)
get_lock-IsConsistent m n v = go (lookup n m.locks) refl
  where
    go : (o : Option LockState) → lookup n m.locks ≡ o → IsConsistent n (get_lock m n)
    go none e =
        subst (IsConsistent n) (sym (get_lock-or_empty m n ∙ ap or_empty e))
          (empty_lock-IsConsistent n)
    go (some s) e =
        subst (IsConsistent n) (sym (get_lock-or_empty m n ∙ ap or_empty e)) (v.each n s e)

-- To write a lock back: its new state is consistent and agrees with the new books, which leave
-- the other locks alone.
pub write_back :
    (m : LockStateMachine) (n : String) (s : LockState) (held : Dict (List String))
    (rq : Dict Result)
    → IsValid m
    → IsConsistent n s
    → Books held n s.holders
    → ((j c : String) → j ≢ n → holds held c j ≡ holds m.held_by_client c j)
    → IsValid (record { locks = insert n s m.locks; requests = rq; held_by_client = held })
write_back m n s held rq v k b same = record {
  each = λ j t e. elim (dec_string n j) [
    | yes p ↦
        let same_lock : s ≡ t = ground (arith, lookup-insert n j s m.locks) in
        subst (IsConsistent j) same_lock (subst (λ x. IsConsistent x s) p k)
    | no p ↦ v.each j t (ground (arith, lookup-insert n j s m.locks))
  ];
  books = λ j c. elim (dec_string n j) [
    | yes p ↦ ground (arith, lookup-insert n j s m.locks, b c)
    | no p ↦ ground (arith, lookup-insert n j s m.locks, v.books j c, same j c (λ e. p (sym e)))
  ];
}

module _ (n : String) (s : LockState) (k : IsConsistent n s) where
  pub grant_holder-IsConsistent :
      (r : LockRequest) → Admits s.holders r.mode → IsConsistent n (grant_holder s r)
  unfolding grant_holder
  grant_holder-IsConsistent r a = record {
    exclusion = insert-IsExclusive r.client_id r.mode s.holders a k.exclusion;
    expiries = λ c. ground (
      arith,
      k.expiries c,
      lookup-insert r.client_id c (expiry r r.ttl_ms) s.holder_expiry,
      lookup-insert r.client_id c r.mode s.holders,
    );
    named = k.named;
  }

  pub drop_holder-IsConsistent : (c : String) → IsConsistent n (drop_holder s c)
  unfolding drop_holder
  drop_holder-IsConsistent c = record {
    exclusion = erase-IsExclusive c s.holders k.exclusion;
    expiries = λ j.
        ground (arith, k.expiries j, lookup-erase c j s.holder_expiry, lookup-erase c j s.holders);
    named = k.named;
  }

  pub enqueue-IsConsistent :
      (r : LockRequest) → r.lock_name ≡ n → IsConsistent n (record s { queue = s.queue ++ r ∷ [] })
  enqueue-IsConsistent r e = record {
    exclusion = k.exclusion;
    expiries = k.expiries;
    named = All-append (λ (q : LockRequest). q.lock_name ≡ n) s.queue (r ∷ []) k.named (e, tt);
  }

  taken_named : AreNamed n (take_granted s).0 × AreNamed n (take_granted s).1
  taken_named =
      let split = subst (AreNamed n) (sym (take_granted-append s)) k.named in
      (
        All-append_left (λ (q : LockRequest). q.lock_name ≡ n) (take_granted s).0 _ split,
        All-append_right (λ (q : LockRequest). q.lock_name ≡ n) (take_granted s).0 _ split,
      )

  pub grant_waiting-IsConsistent : (m : LockStateMachine) → IsConsistent n (grant_waiting m s).1
  unfolding grant_waiting
  grant_waiting-IsConsistent m = record {
    exclusion = unfold grant_waiting in grant_waiting-IsExclusive m s k.exclusion;
    expiries =
        SameKeys-grant_each (take_granted s).0 m (record s { queue = (take_granted s).1 })
          k.expiries;
    named = subst (AreNamed n) (sym (locks-grant_each (take_granted s).0 m _).1) taken_named.1;
  }

  pub Books-grant_waiting :
      (m : LockStateMachine)
      → Books m.held_by_client n s.holders
      → Books (grant_waiting m s).0.held_by_client n (grant_waiting m s).1.holders
  unfolding grant_waiting
  Books-grant_waiting m b = Books-grant_each n (take_granted s).0 m _ taken_named.0 b

  pub holds-grant_waiting_ne :
      (m : LockStateMachine) (c j : String)
      → j ≢ n
      → holds (grant_waiting m s).0.held_by_client c j ≡ holds m.held_by_client c j
  unfolding grant_waiting
  holds-grant_waiting_ne m c j h = holds-grant_each_ne n (take_granted s).0 m _ c j taken_named.0 h
