-- ===== src/LockManager/Deadlock/Trace.antt =====
-- The loop that walks up the parents from the top of the stack.
use sinkronisasi_dan_distrib.Base.{
  ℕ, String, ◌≡◌, ◌∙◌, ap, subst, Bool, true, some, List, [], ◌∷◌, Dict, lookup, dec_string, member,
  arith, if_pos, if_neg, length,
}
use sinkronisasi_dan_distrib.LockManager.Deadlock.{cons?, name_or, trace}
use sinkronisasi_dan_distrib.LockManager.Deadlock.Cycle.{Chain, last_of}

module _ (e : String → String → Bool) where
  -- each name on the stack is the parent of the one above it, and has an edge to it
  abbrev pub Linked : Dict String → List String → Type 0
  Linked parent [] = Unit
  Linked parent (x ∷ []) = Unit
  Linked parent (x ∷ y ∷ st) = (lookup x parent ≡ some y) × (e y x ≡ true) × Linked parent (y ∷ st)

  pub record Traced (f : ℕ) (parent : Dict String) (n a x : String) : Type 0 where
    pub path : List String
    pub result : trace f parent n x ≡ some path
    pub chain : Chain e a path
    pub closed : e n (last_of e a path) ≡ true

  -- From a stack that holds `n`, the walk ends, with a chain that `n` closes.
  pub trace-Traced :
      (parent : Dict String) (n a x : String) (st : List String)
      → Linked parent (x ∷ st)
      → member n (x ∷ st) ≡ true
      → e x a ≡ true
      → Traced (length (x ∷ st)) parent n a x
  unfolding trace member
  trace-Traced parent n a x [] l h h' =
      let same : x ≡ n = ground arith in
      record {
        path = [];
        result = if_pos (dec_string x n) same _ _;
        chain = tt;
        closed = subst (λ z. e z a ≡ true) same h';
      }
  trace-Traced parent n a x (y ∷ st) l h h' = elim (dec_string x n) [
    | yes same ↦ record {
      path = [];
      result = if_pos (dec_string x n) same _ _;
      chain = tt;
      closed = subst (λ z. e z a ≡ true) same h';
    }
    | no other ↦
        let t = trace-Traced parent n x y st l.2 (ground arith) l.1 in
        record {
          path = x ∷ t.path;
          result =
              if_neg (dec_string x n) other _ _
              ∙ ap (λ p. cons? x (trace (length (y ∷ st)) parent n (name_or n p))) l.0
              ∙ ap (cons? x) t.result;
          chain = (h', t.chain);
          closed = t.closed;
        }
  ]
