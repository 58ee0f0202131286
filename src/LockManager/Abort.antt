-- ===== src/LockManager/Abort.antt =====
-- `_apply_abort`: the search for the request, and what it takes out.
use sinkronisasi_dan_distrib.Base.{
  String, ◌≡◌, inl, inr, Option, some, List, [], ◌∷◌, ◌++◌, Dict, lookup, dec_string, arith,
  Option-cases,
}
use sinkronisasi_dan_distrib.LockManager.{LockRequest, LockState, pop_request, pop_from_locks}

-- The request found is the first with the id, and the others keep their order.
pub pop_request-split :
    (id : String) (q : List LockRequest) (r : LockRequest) (rest : List LockRequest)
    → pop_request id q ≡ some (r, rest)
    → (xs : List LockRequest) × (ys : List LockRequest) × (q ≡ xs ++ r ∷ ys)
      × (rest ≡ xs ++ ys)
      × (r.request_id ≡ id)
unfolding pop_request
pop_request-split id [] r rest e = cc
pop_request-split id (x ∷ q) r rest e = elim (dec_string x.request_id id) [
  | yes p ↦ ([], q, ground arith, ground arith, ground arith)
  | no p ↦ elim (Option-cases (pop_request id q)) [
    | inl absent ↦ absurd (ground arith)
    | inr ((r', rest'), found) ↦
        let (xs, ys, before, after, same) = pop_request-split id q r' rest' found in
        (x ∷ xs, ys, ground arith, ground arith, ground arith)
  ]
]

-- What the abort does to one lock: nothing, or it takes the request out of its queue.
pub data Popped (id : String) (r : LockRequest) (o o' : Option LockState) : Type 0 where
  untouched : o' ≡ o → Popped id r o o'
  popped :
      (s : LockState) (q : List LockRequest)
      → o ≡ some s
      → o' ≡ some (record s { queue = q })
      → pop_request id s.queue ≡ some (r, q)
      → Popped id r o o'

Popped-eq :
    {id : String} {f r : LockRequest} {a a' b b' : Option LockState}
    → Popped id f a b
    → f ≡ r
    → a ≡ a'
    → b ≡ b'
    → Popped id r a' b'
Popped-eq (untouched same) e p q = untouched (cc)
Popped-eq (popped s l was now took) e p q = popped s l (cc) (cc) (cc)

pub pop_from_locks_lem :
    (id : String) (ls : Dict LockState) (r : LockRequest) (ls' : Dict LockState) (n : String)
    → pop_from_locks id ls ≡ some (r, ls')
    → Popped id r (lookup n ls) (lookup n ls')
unfolding pop_from_locks lookup
pop_from_locks_lem id [] r ls' n e = cc
pop_from_locks_lem id ((k, s) ∷ ls) r ls' n e = elim (Option-cases (pop_request id s.queue)) [
  | inr ((f, q), found) ↦ elim (dec_string k n) [
    | yes p ↦ popped s q (ground arith) (ground arith) (ground arith)
    | no p ↦ untouched (ground arith)
  ]
  | inl absent ↦ elim (Option-cases (pop_from_locks id ls)) [
    | inl missing ↦ absurd (ground arith)
    | inr ((f, rest), found) ↦ elim (dec_string k n) [
      | yes p ↦ untouched (ground arith)
      | no p ↦
          Popped-eq (pop_from_locks_lem id ls f rest n found) (ground arith) (ground arith)
            (ground arith)
    ]
  ]
]
