-- ===== src/LockManager/Served.antt =====
-- `_grant_waiting` of one lock: whoever is left at the front of the queue cannot be let in.
use sinkronisasi_dan_distrib.Base.{
  String, ◌≡◌, refl, inl, inr, Bool, true, false, List, [], ◌∷◌, Dict, insert, values, all,
  is_empty, arith, Bool-cases,
}
use sinkronisasi_dan_distrib.LockManager.{
  Mode, exclusive, shared, other, is_shared, LockRequest, LockState, take_shared, take_free,
  take_granted,
}
use sinkronisasi_dan_distrib.LockManager.Exclusion.{holders_after}

-- whether the holders leave room for one more of the mode
pub may_join : Dict Mode → Mode → Bool
may_join d exclusive = is_empty d
may_join d shared = all is_shared (values d)
may_join d (other m) = false

-- the queue is empty, or its first request cannot join the holders
pub IsBlocked : Dict Mode → List LockRequest → Type 0
IsBlocked d [] = Unit
IsBlocked d (r ∷ q) = may_join d r.mode ≡ false

insert-some : (c : String) (m : Mode) (d : Dict Mode) → is_empty (insert c m d) ≡ false
unfolding insert
insert-some c m [] = refl
insert-some c m ((k, x) ∷ d) = ground arith

holders_after-some :
    (rs : List LockRequest) (d : Dict Mode)
    → is_empty d ≡ false
    → is_empty (holders_after rs d) ≡ false
unfolding holders_after
holders_after-some [] d h = h
holders_after-some (r ∷ rs) d h =
    holders_after-some rs (insert r.client_id r.mode d) (insert-some r.client_id r.mode d)

StartsUnshared : List LockRequest → Type 0
StartsUnshared [] = Unit
StartsUnshared (r ∷ q) = is_shared r.mode ≡ false

take_shared-StartsUnshared : (q : List LockRequest) → StartsUnshared (take_shared q).1
unfolding take_shared StartsUnshared
take_shared-StartsUnshared [] = tt
take_shared-StartsUnshared (r ∷ q) = elim (Bool-cases (is_shared r.mode)) [
  | inl e ↦ rw (e, take_shared) (take_shared-StartsUnshared q)
  | inr e ↦ rw (e, take_shared) e
]

unshared-IsBlocked :
    (d : Dict Mode) (q : List LockRequest) → is_empty d ≡ false → StartsUnshared q → IsBlocked d q
unfolding StartsUnshared IsBlocked may_join
unshared-IsBlocked d [] h u = tt
unshared-IsBlocked d (r ∷ q) h u = go r.mode u
  where
    go : (m : Mode) → is_shared m ≡ false → may_join d m ≡ false
    go exclusive e = h
    go shared e = cc
    go (other m) e = refl

taken-IsBlocked :
    (q : List LockRequest) (d : Dict Mode)
    → is_empty d ≡ false
    → IsBlocked (holders_after (take_shared q).0 d) (take_shared q).1
taken-IsBlocked q d h =
    unshared-IsBlocked _ (take_shared q).1 (holders_after-some (take_shared q).0 d h)
      (take_shared-StartsUnshared q)

mixed-IsBlocked :
    (d : Dict Mode) (q : List LockRequest)
    → is_empty d ≡ false
    → all is_shared (values d) ≡ false
    → IsBlocked d q
unfolding IsBlocked may_join
mixed-IsBlocked d [] h a = tt
mixed-IsBlocked d (r ∷ q) h a = go r.mode
  where
    go : (m : Mode) → may_join d m ≡ false
    go exclusive = h
    go shared = a
    go (other m) = refl

-- the first of a lock that nobody holds
free-IsBlocked :
    (r : LockRequest) (q : List LockRequest) (d : Dict Mode)
    → is_empty d ≡ true
    → IsBlocked (holders_after (take_free (r ∷ q)).0 d) (take_free (r ∷ q)).1
unfolding take_free take_shared holders_after insert
free-IsBlocked r q ((k, x) ∷ d) h = cc
free-IsBlocked r q [] h = go r.mode refl
  where
    go :
        (m : Mode)
        → r.mode ≡ m
        → IsBlocked (holders_after (take_free (r ∷ q)).0 []) (take_free (r ∷ q)).1
    go exclusive e =
        rw (e, take_free, holders_after, insert)
          (mixed-IsBlocked ((r.client_id, exclusive) ∷ []) q refl refl)
    go shared e =
        rw (e, take_free, take_shared, holders_after)
          (taken-IsBlocked q (insert r.client_id shared []) (insert-some r.client_id shared []))
    go (other x) e = rw (e, take_free, take_shared) (unfold IsBlocked in unfold may_join in refl)

pub take_granted-IsBlocked :
    (s : LockState) → IsBlocked (holders_after (take_granted s).0 s.holders) (take_granted s).1
unfolding take_granted
take_granted-IsBlocked s = go s.queue refl
  where
    go :
        (q : List LockRequest)
        → s.queue ≡ q
        → IsBlocked (holders_after (take_granted s).0 s.holders) (take_granted s).1
    go [] e = rw (e, take_granted) (unfold IsBlocked in tt)
    go (r ∷ q) e = elim (Bool-cases (is_empty s.holders)) [
      | inl free ↦ rw (e, take_granted, free) (free-IsBlocked r q s.holders free)
      | inr held ↦ elim (Bool-cases (all is_shared (values s.holders))) [
        | inl joint ↦ rw (e, take_granted, held, joint) (taken-IsBlocked (r ∷ q) s.holders held)
        | inr mixed ↦
            rw (e, take_granted, held, mixed)
              (unfold holders_after in mixed-IsBlocked s.holders (r ∷ q) held mixed)
      ]
    ]
