-- ===== src/LockManager/Exclusion.antt =====
-- `_can_grant`, `_grant_request` and `_grant_waiting` of one lock: what may be granted together.
use sinkronisasi_dan_distrib.Base.{
  String, ◌≡◌, ◌≢◌, refl, inl, inr, true, false, none, some, List, [], ◌∷◌, Dict, lookup,
  lookup-insert, lookup-erase, insert, erase, subst, sym, values, any, all, is_empty, arith, All,
  Bool-cases,
}
use sinkronisasi_dan_distrib.LockManager.{
  Mode, exclusive, shared, other, is_exclusive, is_shared, LockRequest, LockState, LockStateMachine,
  can_grant, grant_holder, grant_request, take_shared, take_granted, grant_each, grant_waiting,
}

lookup_of_empty {ℓ} : {V : Type ℓ} (k : String) (d : Dict V) → is_empty d ≡ true → lookup k d ≡ none
unfolding lookup
lookup_of_empty k [] h = refl
lookup_of_empty k (e ∷ d) h = cc

not-exclusive_of_any :
    (k : String) (d : Dict Mode) → any is_exclusive (values d) ≡ false → lookup k d ≢ some exclusive
unfolding lookup
not-exclusive_of_any k [] h e = cc
not-exclusive_of_any k ((j, m) ∷ d) h e = ground (arith, not-exclusive_of_any k d)

not-exclusive_of_all :
    (k : String) (d : Dict Mode) → all is_shared (values d) ≡ true → lookup k d ≢ some exclusive
unfolding lookup
not-exclusive_of_all k [] h e = cc
not-exclusive_of_all k ((j, m) ∷ d) h e = ground (arith, not-exclusive_of_all k d)

-- An exclusive holder is the only holder.
abbrev pub IsExclusive : Dict Mode → Type 0
IsExclusive d =
    (c c' : String) (m : Mode) → lookup c d ≡ some exclusive → lookup c' d ≡ some m → c ≡ c'

-- What may be granted beside the holders: an exclusive request where nobody holds the lock, a
-- shared one where nobody holds it exclusively.
abbrev pub Admits : Dict Mode → Mode → Type 0
Admits d exclusive = (c : String) → lookup c d ≡ none
Admits d shared = (c : String) → lookup c d ≢ some exclusive
Admits d (other m) = ⊥

pub can_grant-Admits :
    (s : LockState) (r : LockRequest) → can_grant s r ≡ true → Admits s.holders r.mode
unfolding can_grant
can_grant-Admits s r h = go r.mode refl
  where
    go : (m : Mode) → r.mode ≡ m → Admits s.holders m
    go exclusive e = λ c. lookup_of_empty c s.holders (ground arith)
    go shared e =
        λ c l. ground (arith, lookup_of_empty c s.holders, not-exclusive_of_any c s.holders)
    go (other m) e = ground arith

pub insert-IsExclusive :
    (k : String) (m : Mode) (d : Dict Mode)
    → Admits d m
    → IsExclusive d
    → IsExclusive (insert k m d)
insert-IsExclusive k exclusive d a v = λ c c' m h h'.
    ground (arith, lookup-insert k c exclusive d, lookup-insert k c' exclusive d, a c, a c')
insert-IsExclusive k shared d a v = λ c c' m h h'.
    ground (arith, lookup-insert k c shared d, lookup-insert k c' shared d, a c, v c c' m)
insert-IsExclusive k (other m) d a v = absurd a

pub erase-IsExclusive : (k : String) (d : Dict Mode) → IsExclusive d → IsExclusive (erase k d)
erase-IsExclusive k d v =
    λ c c' m h h'. ground (arith, lookup-erase k c d, lookup-erase k c' d, v c c' m)

-- The requests that `_grant_waiting` takes together: one exclusive request where nobody holds the
-- lock, or shared ones where nobody holds it exclusively.
pub data Grantable (d : Dict Mode) (rs : List LockRequest) : Type 0 where
  nothing : rs ≡ [] → Grantable d rs
  alone :
      (r : LockRequest)
      → rs ≡ r ∷ []
      → r.mode ≡ exclusive
      → ((c : String) → lookup c d ≡ none)
      → Grantable d rs
  together :
      All (λ r. r.mode ≡ shared) rs → ((c : String) → lookup c d ≢ some exclusive) → Grantable d rs

take_shared-shared : (q : List LockRequest) → All (λ r. r.mode ≡ shared) (take_shared q).0
unfolding take_shared
take_shared-shared [] = tt
take_shared-shared (r ∷ q) = ground (arith, take_shared-shared q)

abbrev AreShared : List LockRequest → Type 0
AreShared rs = All (λ r. r.mode ≡ shared) rs

together_of_eq :
    (d : Dict Mode) (rs : List LockRequest) (q : List LockRequest)
    → (take_shared q).0 ≡ rs
    → ((c : String) → lookup c d ≢ some exclusive)
    → Grantable d rs
together_of_eq d rs q e h = together (subst AreShared e (take_shared-shared q)) h

pub take_granted-Grantable : (s : LockState) → Grantable s.holders (take_granted s).0
unfolding take_granted
take_granted-Grantable s = go s.queue refl
  where
    free_case :
        (r : LockRequest) (q : List LockRequest)
        → s.queue ≡ r ∷ q
        → is_empty s.holders ≡ true
        → Grantable s.holders (take_granted s).0
    free_case r q e free = elim (Bool-cases (is_exclusive r.mode)) [
      | inl x ↦ alone r (ground arith) (ground arith) (λ c. lookup_of_empty c s.holders free)
      | inr y ↦
          together_of_eq s.holders _ (r ∷ q) (ground arith)
            (λ c l. ground (arith, lookup_of_empty c s.holders free))
    ]

    go : (q : List LockRequest) → s.queue ≡ q → Grantable s.holders (take_granted s).0
    go [] e = nothing (ground arith)
    go (r ∷ q) e = elim (Bool-cases (is_empty s.holders)) [
      | inl free ↦ free_case r q e free
      | inr held ↦ elim (Bool-cases (all is_shared (values s.holders))) [
        | inl x ↦
            together_of_eq s.holders _ (r ∷ q) (ground arith)
              (λ c. not-exclusive_of_all c s.holders x)
        | inr y ↦ nothing (ground arith)
      ]
    ]

-- `grant_each` at the holders of the lock.
unfoldable pub holders_after : List LockRequest → Dict Mode → Dict Mode
holders_after [] d = d
holders_after (r ∷ rs) d = holders_after rs (insert r.client_id r.mode d)

pub holders-grant_each :
    (rs : List LockRequest) (m : LockStateMachine) (s : LockState)
    → (grant_each rs m s).1.holders ≡ holders_after rs s.holders
unfolding grant_each holders_after grant_request
holders-grant_each [] m s = refl
holders-grant_each (r ∷ rs) m s = holders-grant_each rs _ (grant_holder s r)

shared_after-IsExclusive :
    (rs : List LockRequest) (d : Dict Mode)
    → AreShared rs
    → ((c : String) → lookup c d ≢ some exclusive)
    → IsExclusive (holders_after rs d)
unfolding holders_after
shared_after-IsExclusive [] d a h = λ c c' m l l'. absurd (h c l)
shared_after-IsExclusive (r ∷ rs) d a h =
    shared_after-IsExclusive rs _ a.1
      (λ c l. ground (arith, lookup-insert r.client_id c r.mode d, h c, a.0))

pub holders_after-IsExclusive :
    (rs : List LockRequest) (d : Dict Mode)
    → Grantable d rs
    → IsExclusive d
    → IsExclusive (holders_after rs d)
unfolding holders_after
holders_after-IsExclusive rs d (nothing e) v = rw (e, holders_after) v
holders_after-IsExclusive rs d (alone r e x h) v =
    rw (e, holders_after, x) (insert-IsExclusive r.client_id exclusive d h v)
holders_after-IsExclusive rs d (together a h) v = shared_after-IsExclusive rs d a h

-- Whoever `_grant_waiting` lets in, an exclusive holder stays the only holder.
pub grant_waiting-IsExclusive :
    (m : LockStateMachine) (s : LockState)
    → IsExclusive s.holders
    → IsExclusive (grant_waiting m s).1.holders
unfolding grant_waiting
grant_waiting-IsExclusive m s v =
    subst IsExclusive (sym (holders-grant_each (take_granted s).0 m _))
      (holders_after-IsExclusive _ s.holders (take_granted-Grantable s) v)
