-- ===== src/LockManager/Deadlock/Candidates.antt =====
-- The candidates of `find_deadlock_victim`: the waiting requests on a cycle, the newest first.
use sinkronisasi_dan_distrib.Base.{
  ◌≤◌, String, ◌≡◌, refl, sym, ◌∙◌, ap, subst, true, ◌⊎◌, List, [], ◌∷◌, ◌++◌, Dict, dec_string,
  member, arith, Bool-cases, inl, inr, leb,
}
use sinkronisasi_dan_distrib.LockManager.{LockRequest, LockState}
use sinkronisasi_dan_distrib.LockManager.Deadlock.{
  waiting_in, candidates, insert_newest, sort_newest,
}
use sinkronisasi_dan_distrib.LockManager.Deadlock.Graph.{queued, waits_for}

abbrev pub In : LockRequest → List LockRequest → Type 0
In r [] = ⊥
In r (q ∷ qs) = (r ≡ q) ⊎ In r qs

-- the request is in the queue of a lock
abbrev pub Waits : LockRequest → Dict LockState → Type 0
Waits r [] = ⊥
Waits r ((name, s) ∷ ls) = In r s.queue ⊎ Waits r ls

In-append_left : (r : LockRequest) (xs ys : List LockRequest) → In r xs → In r (xs ++ ys)
In-append_left r [] ys h = absurd h
In-append_left r (x ∷ xs) ys (inl e) = inl e
In-append_left r (x ∷ xs) ys (inr h) = inr (In-append_left r xs ys h)

In-append_right : (r : LockRequest) (xs ys : List LockRequest) → In r ys → In r (xs ++ ys)
In-append_right r [] ys h = h
In-append_right r (x ∷ xs) ys h = inr (In-append_right r xs ys h)

In-append_cases : (r : LockRequest) (xs ys : List LockRequest) → In r (xs ++ ys) → In r xs ⊎ In r ys
In-append_cases r [] ys h = inr h
In-append_cases r (x ∷ xs) ys (inl e) = inl (inl e)
In-append_cases r (x ∷ xs) ys (inr h) = elim (In-append_cases r xs ys h) [
  | inl p ↦ inl (inr p)
  | inr p ↦ inr p
]

waiting_in-of :
    (c : List String) (r : LockRequest) (q : List LockRequest)
    → In r (waiting_in c q)
    → In r q × (member r.client_id c ≡ true)
unfolding waiting_in
waiting_in-of c r [] h = absurd h
waiting_in-of c r (x ∷ q) h = elim (Bool-cases (member x.client_id c)) [
  | inl on ↦ first (waiting_in-of c r q) on (rw on at h)
  | inr off ↦ let (p, m) = waiting_in-of c r q (rw off at h) in (inr p, m)
]
  where
    first :
        (In r (waiting_in c q) → In r q × (member r.client_id c ≡ true))
        → member x.client_id c ≡ true
        → In r (x ∷ waiting_in c q)
        → In r (x ∷ q) × (member r.client_id c ≡ true)
    first rec on (inl e) =
        (inl e, subst (λ (y : LockRequest). member y.client_id c ≡ true) (sym e) on)
    first rec on (inr p) = let (p', m) = rec p in (inr p', m)

In-waiting_in :
    (c : List String) (r : LockRequest) (q : List LockRequest)
    → In r q
    → member r.client_id c ≡ true
    → In r (waiting_in c q)
unfolding waiting_in
In-waiting_in c r [] h m = absurd h
In-waiting_in c r (x ∷ q) (inl e) m =
    let on : member x.client_id c ≡ true =
      ap (λ (y : LockRequest). member y.client_id c) (sym e) ∙ m in
    rw on (inl e)
In-waiting_in c r (x ∷ q) (inr h) m = elim (Bool-cases (member x.client_id c)) [
  | inl on ↦ rw on (inr (In-waiting_in c r q h m))
  | inr off ↦ rw off (In-waiting_in c r q h m)
]

pub candidates-of :
    (c : List String) (r : LockRequest) (ls : Dict LockState)
    → In r (candidates c ls)
    → Waits r ls × (member r.client_id c ≡ true)
unfolding candidates
candidates-of c r [] h = absurd h
candidates-of c r ((name, s) ∷ ls) h =
    elim (In-append_cases r (waiting_in c s.queue) (candidates c ls) h) [
      | inl p ↦ let (w, m) = waiting_in-of c r s.queue p in (inl w, m)
      | inr p ↦ let (w, m) = candidates-of c r ls p in (inr w, m)
    ]

pub In-candidates :
    (c : List String) (r : LockRequest) (ls : Dict LockState)
    → Waits r ls
    → member r.client_id c ≡ true
    → In r (candidates c ls)
unfolding candidates
In-candidates c r [] h m = absurd h
In-candidates c r ((name, s) ∷ ls) (inl h) m =
    In-append_left r (waiting_in c s.queue) (candidates c ls) (In-waiting_in c r s.queue h m)
In-candidates c r ((name, s) ∷ ls) (inr h) m =
    In-append_right r (waiting_in c s.queue) (candidates c ls) (In-candidates c r ls h m)

queued-In :
    (a : String) (q : List LockRequest)
    → queued a q ≡ true
    → (r : LockRequest) × In r q × (r.client_id ≡ a)
queued-In a [] h = cc
queued-In a (x ∷ q) h = elim (dec_string x.client_id a) [
  | yes e ↦ (x, inl refl, e)
  | no e ↦ let (r, p, e') = queued-In a q (ground arith) in (r, inr p, e')
]

pub waits_for-Waits :
    (ls : Dict LockState) (a b : String)
    → waits_for ls a b ≡ true
    → (r : LockRequest) × Waits r ls × (r.client_id ≡ a)
waits_for-Waits [] a b h = cc
waits_for-Waits ((name, s) ∷ ls) a b h = elim (Bool-cases (queued a s.queue)) [
  | inl here ↦ let (r, p, e) = queued-In a s.queue here in (r, inl p, e)
  | inr off ↦ let (r, p, e) = waits_for-Waits ls a b (ground arith) in (r, inr p, e)
]

-- the head of the sorted list: none is newer
pub record First (rs : List LockRequest) : Type 0 where
  pub head : LockRequest
  pub rest : List LockRequest
  pub result : sort_newest rs ≡ head ∷ rest
  pub is_in : In head rs
  pub newest : (q : LockRequest) → In q rs → q.created_at ≤ head.created_at

pub sort_newest-First : (r : LockRequest) (rs : List LockRequest) → First (r ∷ rs)
unfolding sort_newest
sort_newest-First r [] = record {
  head = r;
  rest = [];
  result = refl;
  is_in = inl refl;
  newest = λ q h. only q h;
}
  where
    only : (q : LockRequest) → In q (r ∷ []) → q.created_at ≤ r.created_at
    only q (inl e) = omega (arith, ap (λ (x : LockRequest). x.created_at) e)
    only q (inr h) = absurd h
sort_newest-First r (x ∷ rs) =
    let f = sort_newest-First x rs in
    elim (Bool-cases (leb f.head.created_at r.created_at)) [
      | inl older ↦ record {
        head = r;
        rest = f.head ∷ f.rest;
        result = ap (insert_newest r) f.result ∙ rw (older, insert_newest) refl;
        is_in = inl refl;
        newest = λ q h. newer f q r h (ground arith) (omega arith);
      }
      | inr newer_head ↦ record {
        head = f.head;
        rest = insert_newest r f.rest;
        result = ap (insert_newest r) f.result ∙ rw (newer_head, insert_newest) refl;
        is_in = inr f.is_in;
        newest = λ q h. newer f q f.head h (omega arith) (ground arith);
      }
    ]
  where
    newer :
        (f : First (x ∷ rs)) (q top : LockRequest)
        → In q (r ∷ x ∷ rs)
        → f.head.created_at ≤ top.created_at
        → r.created_at ≤ top.created_at
        → q.created_at ≤ top.created_at
    newer f q top (inl e) h h' = omega (arith, ap (λ (y : LockRequest). y.created_at) e)
    newer f q top (inr p) h h' = omega (arith, f.newest q p)
