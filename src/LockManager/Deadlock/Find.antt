-- ===== src/LockManager/Deadlock/Find.antt =====
-- `_find_cycle`: with a call of `dfs` for each name as the depth, it finds a cycle exactly where there
-- is one.
use sinkronisasi_dan_distrib.Base.{
  ℕ, zero, suc, ◌≤◌, String, ◌≡◌, refl, sym, ◌∙◌, Bool, true, ◌||◌, List, [], ◌∷◌, ◌++◌, Dict,
  lookup, member, member-set_add, arith, length, Bool-cases, inl, inr, keys, contains, member-keys,
}
use sinkronisasi_dan_distrib.LockManager.Deadlock.{
  names_of, Search, Outcome, done, found, out_of_fuel, enter, scan, graph_names, neighbors, dfs,
  roots, find_cycle,
}
use sinkronisasi_dan_distrib.LockManager.Deadlock.Graph.{edge}
use sinkronisasi_dan_distrib.LockManager.Deadlock.Cycle.{IsCycle, Ranked-acyclic}
use sinkronisasi_dan_distrib.LockManager.Deadlock.Dfs.{
  unseen-le-length, unseen-set_add, Inv, Ensures, proceed-Ensures, Finished, enter-Inv, Visits,
  scan-Ensures, not_stacked,
}

member-append : (x : String) (s t : List String) → member x (s ++ t) ≡ (member x s || member x t)
unfolding member
member-append x [] t = refl
member-append x (y ∷ s) t = ground (arith, member-append x s t)

-- the ends of an edge are names of the graph
edge-graph_names :
    (g : Dict (List String)) (a b : String)
    → edge g a b ≡ true
    → (contains a g ≡ true) × (member b (graph_names g) ≡ true)
unfolding lookup graph_names member
edge-graph_names [] a b h = cc
edge-graph_names ((n, ns) ∷ g) a b h =
    ground (arith, edge-graph_names g a b, member-append b ns (graph_names g))

key-graph_names :
    (g : Dict (List String)) (n : String)
    → member n (keys g) ≡ true
    → member n (graph_names g) ≡ true
unfolding graph_names member
key-graph_names [] n h = h
key-graph_names ((m, ns) ∷ g) n h =
    ground (arith, key-graph_names g n, member-append n ns (graph_names g))

module _ (order : List String → List String) (g : Dict (List String))
    (same : (x : String) (ns : List String) → member x (order ns) ≡ member x ns) where
  dfs-Visits : (fuel : ℕ) → Visits (edge g) (graph_names g) fuel (dfs order g fuel)
  unfolding dfs
  dfs-Visits zero n s st f v new l here enough =
      absurd (omega (arith, unseen-set_add (graph_names g) s.visited n here new))
  dfs-Visits (suc fuel) n s st f v new l here enough =
      back (scan (dfs order g fuel) n (neighbors order g n) (enter n s)) (
        scan-Ensures (edge g) (graph_names g) fuel (dfs order g fuel) (dfs-Visits fuel) n
          (neighbors order g n) (enter n s) st f (enter-Inv (edge g) n s st f v l)
          (not_stacked (edge g) n s st f v new)
          (λ m p.
            let is_edge : edge g n m ≡ true = sym (same m (names_of (lookup n g))) ∙ p in
            (is_edge, (edge-graph_names g n m is_edge).1))
          (λ b p. ground (arith, same b (names_of (lookup n g))))
          (omega (arith, unseen-set_add (graph_names g) s.visited n here new)))
    where
      back :
          (o : Outcome)
          → Ensures (edge g) (Finished (edge g) n (enter n s) st f) o
          → Ensures (edge g) (Finished (edge g) n s st f) o
      back (done s') q = record {
        finished = q.finished;
        inv = q.inv;
        holds = q.holds;
        grown = λ x p. q.grown x (ground (arith, member-set_add n x s.visited));
        kept = q.kept;
      }
      back (found c) q = q
      back out_of_fuel q = q

  -- all of the names are finished, and those that were stay so
  record AllFinished (ns f : List String) (s' : Search) : Type 0 where
    finished : List String
    inv : Inv (edge g) s' [] finished
    holds : (n : String) → member n ns ≡ true → member n finished ≡ true
    kept : (n : String) → member n f ≡ true → member n finished ≡ true

  roots-Ensures :
      (fuel : ℕ) (ns : List String) (s : Search) (f : List String)
      → length (graph_names g) ≤ fuel
      → ((n : String) → member n ns ≡ true → member n (graph_names g) ≡ true)
      → Inv (edge g) s [] f
      → Ensures (edge g) (AllFinished ns f) (roots order g fuel ns s)
  unfolding roots member
  roots-Ensures fuel [] s f enough all v = record {
    finished = f;
    inv = v;
    holds = λ n p. cc;
    kept = λ n p. p;
  }
  roots-Ensures fuel (n ∷ ns) s f enough all v = elim (Bool-cases (member n s.visited)) [
    | inl seen ↦
        rw (seen, roots)
          (more s f (λ x p. p) (ground (arith, v.seen n)) (roots order g fuel ns s)
            (roots-Ensures fuel ns s f enough (λ m p. all m (ground arith)) v))
    | inr new ↦
        rw (new, roots)
          (proceed-Ensures (edge g) (Finished (edge g) n s [] f) (AllFinished (n ∷ ns) f)
            (dfs order g fuel n s) (λ s'. roots order g fuel ns s')
            (dfs-Visits fuel n s [] f v new tt (all n (ground arith))
              (omega (arith, unseen-le-length (graph_names g) s.visited)))
            (λ s' r.
              more s' r.finished r.kept r.holds (roots order g fuel ns s')
                (roots-Ensures fuel ns s' r.finished enough (λ m p. all m (ground arith)) r.inv)))
  ]
    where
      more :
          (s' : Search) (f' : List String)
          → ((x : String) → member x f ≡ true → member x f' ≡ true)
          → member n f' ≡ true
          → (o : Outcome) → Ensures (edge g) (AllFinished ns f') o
          → Ensures (edge g) (AllFinished (n ∷ ns) f) o
      more s' f' grow here (done s'') q = record {
        finished = q.finished;
        inv = q.inv;
        holds = λ m p. ground (arith, q.kept n here, q.holds m);
        kept = λ m p. q.kept m (grow m p);
      }
      more s' f' grow here (found c) q = q
      more s' f' grow here out_of_fuel q = q

-- What the search answers of a relation: a cycle of it, or that there is none.
abbrev pub Answers : (String → String → Bool) → Outcome → Type 0
Answers e (done s) = (c : List String) → ¬ IsCycle e c
Answers e (found c) = IsCycle e c
Answers e out_of_fuel = ⊥

module _ (order : List String → List String) (g : Dict (List String)) where
  -- `_find_cycle` never runs out of the depth that it is given: it ends with a cycle of the graph, or
  -- without one, and then the graph has no cycle. The order in which a set is iterated is any that
  -- keeps its members.
  pub find_cycle-Answers :
      ((x : String) (ns : List String) → member x (order ns) ≡ member x ns)
      → Answers (edge g) (find_cycle order g)
  unfolding find_cycle member
  find_cycle-Answers same = answers (roots order g (length (graph_names g)) (keys g) blank) (
      roots-Ensures order g same (length (graph_names g)) (keys g) blank [] (omega arith)
        (key-graph_names g)
        (record { stack = refl; linked = tt; on_stack = λ x. refl; seen = λ x. refl; ranked = tt }))
    where
      blank : Search
      blank = record { visited = []; stack = []; in_stack = []; parent = [] }

      answers :
          (o : Outcome)
          → Ensures (edge g) (AllFinished order g same (keys g) []) o
          → Answers (edge g) o
      answers (done s) q =
          Ranked-acyclic (edge g) q.finished
            (λ x b p. q.holds x (member-keys x g ∙ (edge-graph_names g x b p).0)) q.inv.ranked
      answers (found c) q = q
      answers out_of_fuel q = q
