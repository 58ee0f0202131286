-- ===== src/LockManager/Deadlock/Dfs.antt =====
-- `dfs` and `_find_cycle`: the search ends with a cycle, or ranks what it visits.
use sinkronisasi_dan_distrib.Base.{
  ℕ, suc, ◌≤◌, ◌<◌, String, ◌≡◌, sym, ◌∙◌, ap, Bool, true, false, ◌||◌, List, [], ◌∷◌, Dict, insert,
  lookup-insert, lookup-insert_self, if◌then◌else◌, member, member-set_add, member-set_discard,
  set_add, arith, length, Bool-cases, inl, inr,
}
use sinkronisasi_dan_distrib.LockManager.Deadlock.{
  Search, Outcome, done, found, out_of_fuel, proceed, enter, leave, pop, trace, close, scan,
}
use sinkronisasi_dan_distrib.LockManager.Deadlock.Cycle.{IsCycle, Ranked}
use sinkronisasi_dan_distrib.LockManager.Deadlock.Trace.{Linked, trace-Traced}

-- how many names of a list are not visited
abbrev pub unseen : List String → List String → ℕ
unseen [] v = 0
unseen (x ∷ u) v = let rest = unseen u v in if member x v then rest else suc rest

pub unseen-le-length : (u v : List String) → unseen u v ≤ length u
unseen-le-length [] v = omega arith
unseen-le-length (x ∷ u) v = ground (arith, unseen-le-length u v)

pub unseen_mono :
    (u v w : List String)
    → ((x : String) → member x v ≡ true → member x w ≡ true)
    → unseen u w ≤ unseen u v
unseen_mono [] v w h = omega arith
unseen_mono (x ∷ u) v w h = ground (arith, unseen_mono u v w h, h x)

pub unseen-set_add :
    (u v : List String) (n : String)
    → member n u ≡ true
    → member n v ≡ false
    → unseen u (set_add n v) < unseen u v
unfolding member
unseen-set_add [] v n h h' = cc
unseen-set_add (x ∷ u) v n h h' = ground (
  arith,
  member-set_add n x v,
  unseen-set_add u v n,
  unseen_mono u v (set_add n v) (λ y p. ground (arith, member-set_add n y v)),
)

module _ (e : String → String → Bool) where
  Linked-insert :
      (n v : String) (parent : Dict String) (st : List String)
      → member n st ≡ false
      → Linked e parent st
      → Linked e (insert n v parent) st
  unfolding member
  Linked-insert n v parent [] h l = tt
  Linked-insert n v parent (x ∷ []) h l = tt
  Linked-insert n v parent (x ∷ y ∷ st) h l = (
    ground (arith, lookup-insert n x v parent, l.0),
    l.1,
    Linked-insert n v parent (y ∷ st) (ground arith) l.2,
  )

  Linked-tail :
      (parent : Dict String) (x : String) (st : List String)
      → Linked e parent (x ∷ st)
      → Linked e parent st
  Linked-tail parent x [] l = tt
  Linked-tail parent x (y ∷ st) l = l.2

  -- The search with the stack `st` and the finished names `f`.
  pub record Inv (s : Search) (st f : List String) : Type 0 where
    pub stack : s.stack ≡ st
    pub linked : Linked e s.parent st
    pub on_stack : (x : String) → member x s.in_stack ≡ member x st
    pub seen : (x : String) → member x s.visited ≡ (member x f || member x st)
    pub ranked : Ranked e f

  -- the search goes on, or has a cycle
  abbrev pub Ensures : (Search → Type 0) → Outcome → Type 0
  Ensures P (done s) = P s
  Ensures P (found c) = IsCycle e c
  Ensures P out_of_fuel = ⊥

  pub proceed-Ensures :
      (P Q : Search → Type 0) (o : Outcome) (k : Search → Outcome)
      → Ensures P o
      → ((s : Search) → P s → Ensures Q (k s))
      → Ensures Q (proceed o k)
  proceed-Ensures P Q (done s) k h h' = h' s h
  proceed-Ensures P Q (found c) k h h' = h
  proceed-Ensures P Q out_of_fuel k h h' = h

  -- After the visit of a name: the stack is as before, and the name is finished.
  pub record Finished (n : String) (s : Search) (st f : List String) (s' : Search) : Type 0 where
    pub finished : List String
    pub inv : Inv s' st finished
    pub holds : member n finished ≡ true
    pub grown : (x : String) → member x s.visited ≡ true → member x s'.visited ≡ true
    pub kept : (x : String) → member x f ≡ true → member x finished ≡ true

  leave-Inv :
      (node : String) (s : Search) (st f : List String)
      → Inv s (node ∷ st) f
      → member node st ≡ false
      → ((b : String) → e node b ≡ true → member b f ≡ true)
      → Inv (leave node s) st (node ∷ f)
  unfolding member
  leave-Inv node s st f v fresh all = record {
    stack = ap pop v.stack;
    linked = Linked-tail s.parent node st v.linked;
    on_stack = λ x. ground (arith, member-set_discard node x s.in_stack, v.on_stack x);
    seen = λ x. ground (arith, v.seen x);
    ranked = (all, v.ranked);
  }

  pub enter-Inv :
      (n : String) (s : Search) (st f : List String)
      → Inv s st f
      → Linked e s.parent (n ∷ st)
      → Inv (enter n s) (n ∷ st) f
  unfolding member
  enter-Inv n s st f v l = record {
    stack = ap (λ x. n ∷ x) v.stack;
    linked = l;
    on_stack = λ x. ground (arith, member-set_add n x s.in_stack, v.on_stack x);
    seen = λ x. ground (arith, member-set_add n x s.visited, v.seen x);
    ranked = v.ranked;
  }

  parent-Inv :
      (n node : String) (s : Search) (st f : List String)
      → Inv s st f
      → member n st ≡ false
      → Inv (record s { parent = insert n node s.parent }) st f
  parent-Inv n node s st f v h = record {
    stack = v.stack;
    linked = Linked-insert n node s.parent st h v.linked;
    on_stack = v.on_stack;
    seen = v.seen;
    ranked = v.ranked;
  }

  close-IsCycle :
      (node n : String) (s : Search) (st f : List String) (P : Search → Type 0)
      → Inv s (node ∷ st) f
      → e node n ≡ true
      → member n s.in_stack ≡ true
      → Ensures P (close node n s)
  unfolding close
  close-IsCycle node n s st f P v h here =
      let t = trace-Traced e s.parent n n node st v.linked (sym (v.on_stack n) ∙ here) h in
      rw (ap (λ x. trace (length x) s.parent n node) v.stack ∙ t.result, close) (t.chain, t.closed)

  -- What a visit of a name that is not visited does, with fuel for the names of `u` left to see.
  abbrev pub Visits : List String → ℕ → (String → Search → Outcome) → Type 0
  Visits u fuel visit =
      (n : String) (s : Search) (st f : List String)
      → Inv s st f
      → member n s.visited ≡ false
      → Linked e s.parent (n ∷ st)
      → member n u ≡ true
      → unseen u s.visited ≤ fuel
      → Ensures (Finished n s st f) (visit n s)

  pub not_stacked :
      (n : String) (s : Search) (st f : List String)
      → Inv s st f
      → member n s.visited ≡ false
      → member n st ≡ false
  not_stacked n s st f v h = ground (arith, v.seen n)

  pub scan-Ensures :
      (u : List String) (fuel : ℕ) (visit : String → Search → Outcome)
      → Visits u fuel visit
      → (node : String) (ns : List String) (s : Search) (st f : List String) → Inv s (node ∷ st) f
      → member node st ≡ false
      → ((n : String) → member n ns ≡ true → (e node n ≡ true) × (member n u ≡ true))
      → ((b : String) → e node b ≡ true → (member b ns || member b f) ≡ true)
      → unseen u s.visited ≤ fuel
      → Ensures (Finished node s st f) (scan visit node ns s)
  unfolding scan member
  scan-Ensures u fuel visit V node [] s st f v fresh es all enough = record {
    finished = node ∷ f;
    inv = leave-Inv node s st f v fresh (λ b p. all b p);
    holds = ground arith;
    grown = λ x p. p;
    kept = λ x p. ground arith;
  }
  scan-Ensures u fuel visit V node (n ∷ ns) s st f v fresh es all enough =
      elim (Bool-cases (member n s.visited)) [
        | inl seen ↦ elim (Bool-cases (member n s.in_stack)) [
          | inl here ↦
              rw (seen, here, scan)
                (close-IsCycle node n s st f (Finished node s st f) v (es n (ground arith)).0 here)
          | inr over ↦
              rw (seen, over, scan)
                (scan-Ensures u fuel visit V node ns s st f v fresh (λ m p. es m (ground arith))
                  (λ b p. ground (arith, all b p, v.seen n, v.on_stack n)) enough)
        ]
        | inr new ↦
            let s₁ = record s { parent = insert n node s.parent } in
            let off = not_stacked n s (node ∷ st) f v new in
            rw (new, scan)
              (proceed-Ensures (Finished n s₁ (node ∷ st) f) (Finished node s st f) (visit n s₁)
                (λ s'. scan visit node ns s')
                (V n s₁ (node ∷ st) f (parent-Inv n node s (node ∷ st) f v off) new
                  (
                    lookup-insert_self n node s.parent,
                    (es n (ground arith)).0,
                    Linked-insert n node s.parent (node ∷ st) off v.linked,
                  )
                  (es n (ground arith)).1 enough)
                (λ s' r. back s' r (
                  scan-Ensures u fuel visit V node ns s' st r.finished r.inv fresh
                    (λ m p. es m (ground arith)) (λ b p. ground (arith, all b p, r.kept b, r.holds))
                    (omega (arith, unseen_mono u s.visited s'.visited r.grown)))))
      ]
    where
      later :
          (s' : Search)
          (r : Finished n (record s { parent = insert n node s.parent }) (node ∷ st) f s')
          (o : Outcome)
          → Ensures (Finished node s' st r.finished) o
          → Ensures (Finished node s st f) o
      later s' r (done s'') q = record {
        finished = q.finished;
        inv = q.inv;
        holds = q.holds;
        grown = λ x p. q.grown x (r.grown x p);
        kept = λ x p. q.kept x (r.kept x p);
      }
      later s' r (found c) q = q
      later s' r out_of_fuel q = q

      back :
          (s' : Search)
          (r : Finished n (record s { parent = insert n node s.parent }) (node ∷ st) f s')
          → Ensures (Finished node s' st r.finished) (scan visit node ns s')
          → Ensures (Finished node s st f) (scan visit node ns s')
      back s' r q = later s' r (scan visit node ns s') q
