-- ===== src/LockManager/Deadlock/Cycle.antt =====
-- Cycles of a relation on names, and a ranking that rules them out.
use sinkronisasi_dan_distrib.Base.{
  ℕ, suc, ◌≤◌, ◌<◌, String, ◌≡◌, sym, subst, Bool, true, List, [], ◌∷◌, ite, if◌then◌else◌,
  dec_string, member, arith, inl, inr, Bool-cases,
}

abbrev height : List String → ℕ
height [] = 0
height (x ∷ f) = suc (height f)

-- how many names stand at and below the last occurrence
abbrev rank : String → List String → ℕ
rank x [] = 0
rank x (y ∷ f) =
    let rest = rank x f in if member x f then rest else ite (dec_string y x) (suc (height f)) 0

rank-le-height : (x : String) (f : List String) → rank x f ≤ height f
unfolding member
rank-le-height x [] = omega arith
rank-le-height x (y ∷ f) = ground (arith, rank-le-height x f)

module _ (e : String → String → Bool) where
  -- each name has an edge to the one before it
  abbrev pub Chain : String → List String → Type 0
  Chain a [] = Unit
  Chain a (b ∷ r) = (e b a ≡ true) × Chain b r

  abbrev pub last_of : String → List String → String
  last_of a [] = a
  last_of a (b ∷ r) = last_of b r

  -- each name has an edge to the one before it, and the first to the last
  abbrev pub IsCycle : List String → Type 0
  IsCycle [] = ⊥
  IsCycle (a ∷ r) = Chain a r × (e a (last_of a r) ≡ true)

  -- each name's edges go to names further down, which have no edges up
  abbrev pub Ranked : List String → Type 0
  Ranked [] = Unit
  Ranked (x ∷ f) = ((b : String) → e x b ≡ true → member b f ≡ true) × Ranked f

  rank-edge :
      (x b : String) (f : List String)
      → Ranked f
      → member x f ≡ true
      → e x b ≡ true
      → (member b f ≡ true) × (rank b f < rank x f)
  unfolding member
  rank-edge x b [] r h h' = cc
  rank-edge x b (y ∷ f) r h h' = elim (Bool-cases (member x f)) [
    | inl below ↦ ground (arith, rank-edge x b f r.1 below h')
    | inr here ↦
        let same : y ≡ x = ground arith in
        let in_f : member b f ≡ true = r.0 b (subst (λ z. e z b ≡ true) (sym same) h') in
        ground (arith, rank-le-height b f)
  ]

  Chain-rank :
      (a : String) (r f : List String)
      → ((x b : String) → e x b ≡ true → member x f ≡ true)
      → Ranked f
      → Chain a r
      → rank a f ≤ rank (last_of a r) f
  Chain-rank a [] f all k c = omega arith
  Chain-rank a (b ∷ r) f all k c =
      omega (arith, Chain-rank b r f all k c.1, (rank-edge b a f k (all b a c.0) c.0).1)

  -- where the names with an edge are ranked, there is no cycle
  pub Ranked-acyclic :
      (f : List String)
      → ((x b : String) → e x b ≡ true → member x f ≡ true)
      → Ranked f
      → (c : List String) → ¬ IsCycle c
  Ranked-acyclic f all k [] h = h
  Ranked-acyclic f all k (a ∷ r) h = omega (
    arith,
    Chain-rank a r f all k h.0,
    (rank-edge a (last_of a r) f k (all a (last_of a r) h.1) h.1).1,
  )
