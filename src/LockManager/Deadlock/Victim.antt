-- ===== src/LockManager/Deadlock/Victim.antt =====
-- `find_deadlock_victim`: the newest request that waits on a cycle.
use mathlib.Core.Path.{fun_ext}
use sinkronisasi_dan_distrib.Base.{
  ◌≤◌, String, ◌≡◌, refl, sym, ◌∙◌, ap, subst, true, none, some, List, [], ◌∷◌, Dict, member, arith,
}
use sinkronisasi_dan_distrib.LockManager.{LockRequest, LockState}
use sinkronisasi_dan_distrib.LockManager.Deadlock.{
  Outcome, done, found, out_of_fuel, find_cycle, wait_graph, candidates, sort_newest, first_id,
  Verdict, victim, no_verdict, find_deadlock_victim,
}
use sinkronisasi_dan_distrib.LockManager.Deadlock.Graph.{waits_for, edge, edge-wait_graph}
use sinkronisasi_dan_distrib.LockManager.Deadlock.Cycle.{IsCycle, last_of}
use sinkronisasi_dan_distrib.LockManager.Deadlock.Find.{Answers, find_cycle-Answers}
use sinkronisasi_dan_distrib.LockManager.Deadlock.Candidates.{
  In, Waits, candidates-of, In-candidates, waits_for-Waits, sort_newest-First,
}

-- A waiting request of a client on a cycle of clients that wait for each other; no waiting request
-- of a client on it is newer.
pub record IsVictim (ls : Dict LockState) (id : String) : Type 0 where
  pub cycle : List String
  pub is_cycle : IsCycle (waits_for ls) cycle
  pub request : LockRequest
  pub named : request.request_id ≡ id
  pub waits : Waits request ls
  pub on_cycle : member request.client_id cycle ≡ true
  pub newest :
      (q : LockRequest)
      → Waits q ls
      → member q.client_id cycle ≡ true
      → q.created_at ≤ request.created_at

-- what the search for a victim says of the locks
abbrev pub Judges : Dict LockState → Verdict → Type 0
Judges ls (victim none) = (c : List String) → ¬ IsCycle (waits_for ls) c
Judges ls (victim (some id)) = IsVictim ls id
Judges ls no_verdict = ⊥

edges_are_waits : (ls : Dict LockState) → edge (wait_graph ls []) ≡ waits_for ls
edges_are_waits ls = fun_ext λ a. fun_ext λ b. edge-wait_graph ls a b

first_candidate :
    (ls : Dict LockState) (c : List String) (rs : List LockRequest) (r : LockRequest)
    → candidates c ls ≡ rs
    → In r rs
    → IsCycle (waits_for ls) c
    → Judges ls (victim (first_id (sort_newest (candidates c ls))))
first_candidate ls c [] r e h k = absurd h
first_candidate ls c (x ∷ rs) r e h k =
    let f = sort_newest-First x rs in
    let (w, m) = candidates-of c f.head ls (subst (In f.head) (sym e) f.is_in) in
    rw (ap sort_newest e ∙ f.result) (record {
      cycle = c;
      is_cycle = k;
      request = f.head;
      named = refl;
      waits = w;
      on_cycle = m;
      newest = λ q wq mq. f.newest q (subst (In q) e (In-candidates c q ls wq mq));
    })

cycle-Judges :
    (ls : Dict LockState) (c : List String)
    → IsCycle (waits_for ls) c
    → Judges ls (victim (first_id (sort_newest (candidates c ls))))
unfolding member
cycle-Judges ls [] k = absurd k
cycle-Judges ls (a ∷ c) k =
    let (r, w, named) = waits_for-Waits ls a (last_of (waits_for ls) a c) k.1 in
    first_candidate ls (a ∷ c) (candidates (a ∷ c) ls) r refl
      (In-candidates (a ∷ c) r ls w (ground arith)) k

-- `find_deadlock_victim` always ends. Where it names a request, that request waits, its client is on
-- a cycle of clients each of which waits for a lock that another holds, and no waiting request of a
-- client on that cycle is newer; where it names none, there is no such cycle. The order in which a
-- set is iterated is any that keeps its members.
pub find_deadlock_victim-Judges :
    (order : List String → List String) (ls : Dict LockState)
    → ((x : String) (ns : List String) → member x (order ns) ≡ member x ns)
    → Judges ls (find_deadlock_victim order ls)
unfolding find_deadlock_victim
find_deadlock_victim-Judges order ls same = judge (find_cycle order (wait_graph ls [])) (
    subst (λ e. Answers e (find_cycle order (wait_graph ls []))) (edges_are_waits ls)
      (find_cycle-Answers order (wait_graph ls []) same))
  where
    judge :
        (o : Outcome)
        → Answers (waits_for ls) o
        → Judges ls (elim o [
          | done s ↦ victim none
          | found c ↦ victim (first_id (sort_newest (candidates c ls)))
          | out_of_fuel ↦ no_verdict
        ])
    judge (done s) q = q
    judge (found c) q = cycle-Judges ls c q
    judge out_of_fuel q = q
