-- ===== src/Raft/Stored.antt =====
-- The loop of `handle_append_entries` that stores the entries: what is then where in the log.
use sinkronisasi_dan_distrib.Base.{
  ℕ, zero, suc, ◌+◌, ◌≤◌, ◌<◌, ◌≡◌, refl, ◌∙◌, sym, ap, subst, inl, inr, none, some, ◌⊎◌, List, [],
  ◌∷◌, ◌++◌, arith, ◌==◌, Bool-cases, Option-cases, length, get_elem?, take, lt_of_some,
  length-take, take-take, take-append, get_elem?-take, take_of_none,
}
use sinkronisasi_dan_distrib.Raft.{LogEntry, drop_conflict, store_entry, store_entries}

module _ {C : Type 0} where
  -- the log has an entry of the term `t` at the position `j`
  unfoldable pub HasTerm : List (LogEntry C) → ℕ → ℕ → Type 0
  HasTerm l j t = (e : LogEntry C) × (get_elem? l j ≡ some e) × (e.term ≡ t)

  -- At the position `j` the new log `g` has the entry `e`, or still the one of the old log `f`, which
  -- is of the same term.
  unfoldable pub Holds : List (LogEntry C) → List (LogEntry C) → ℕ → LogEntry C → Type 0
  Holds f g j e = (get_elem? g j ≡ some e) ⊎ ((get_elem? g j ≡ get_elem? f j) × HasTerm g j e.term)

  Holds-HasTerm :
      (f g : List (LogEntry C)) (j : ℕ) (e : LogEntry C) → Holds f g j e → HasTerm g j e.term
  unfolding Holds HasTerm
  Holds-HasTerm f g j e (inl at) = (e, at, refl)
  Holds-HasTerm f g j e (inr (kept, there)) = there

  pub get_elem?_of_take :
      (f g : List (LogEntry C)) (k j : ℕ)
      → j < k
      → take k g ≡ take k f
      → get_elem? g j ≡ get_elem? f j
  get_elem?_of_take f g k j lt same =
      sym (get_elem?-take j k g lt) ∙ ap (λ l. get_elem? l j) same ∙ get_elem?-take j k f lt

  last_elem : (f : List (LogEntry C)) (e : LogEntry C) → get_elem? (f ++ e ∷ []) (length f) ≡ some e
  last_elem [] e = refl
  last_elem (x ∷ f) e = last_elem f e

  past_last :
      (f : List (LogEntry C)) (e : LogEntry C) (j : ℕ)
      → length f < j
      → get_elem? (f ++ e ∷ []) j ≡ none
  past_last [] e zero h = absurd (omega (arith, h))
  past_last [] e (suc j) h = refl
  past_last (x ∷ f) e zero h = absurd (omega (arith, h))
  past_last (x ∷ f) e (suc j) h = past_last f e j (omega (arith, h))

  -- What one entry at the position `k`, at the end of the log or inside it, leaves.
  record Stores (f g : List (LogEntry C)) (k : ℕ) (e : LogEntry C) : Type 0 where
    before : take k g ≡ take k f
    there : Holds f g k e
    beyond : (j : ℕ) → k < j → (get_elem? g j ≡ get_elem? f j) ⊎ (get_elem? g j ≡ none)

  -- the entry at the end of what is left of the log `f`
  Stores-end :
      (f kept : List (LogEntry C)) (k : ℕ) (e : LogEntry C)
      → length kept ≡ k
      → take k kept ≡ take k f
      → Stores f (kept ++ e ∷ []) k e
  unfolding Holds
  Stores-end f kept k e size same = record {
    before = take-append k kept (e ∷ []) (omega arith) ∙ same;
    there = inl (ap (get_elem? (kept ++ e ∷ [])) (sym size) ∙ last_elem kept e);
    beyond = λ j h. inr (past_last kept e j (omega (arith, size, h)));
  }

  store_entry-Stores :
      (f : List (LogEntry C)) (k : ℕ) (e : LogEntry C)
      → k ≤ length f
      → Stores f (store_entry f k e) k e
  unfolding store_entry drop_conflict HasTerm Holds
  store_entry-Stores f k e h = elim (Option-cases (get_elem? f k)) [
    | inl missing ↦
        let size : length f ≡ k = omega (arith, (take_of_none k f missing).1) in
        let stored : store_entry f k e ≡ f ++ e ∷ [] = ground arith in
        subst (λ g. Stores f g k e) (sym stored) (Stores-end f f k e size refl)
    | inr (old, found) ↦ elim (Bool-cases (old.term == e.term)) [
      | inl same ↦
          let inside = lt_of_some k f old found in
          let stored : store_entry f k e ≡ f = ground arith in
          subst (λ g. Stores f g k e) (sym stored)
            (record {
              before = refl;
              there = inr (refl, (old, found, ground arith));
              beyond = λ j h. inl refl;
            })
      | inr differs ↦
          let size : length (take k f) ≡ k = omega (arith, length-take k f) in
          let stored : store_entry f k e ≡ take k f ++ e ∷ [] = ground arith in
          subst (λ g. Stores f g k e) (sym stored)
            (Stores-end f (take k f) k e size (take-take k k f (omega arith)))
    ]
  ]

  stored_length :
      (f : List (LogEntry C)) (k : ℕ) (e : LogEntry C)
      → k ≤ length f
      → k + 1 ≤ length (store_entry f k e)
  unfolding HasTerm
  stored_length f k e h =
      let (old, found, same) =
        Holds-HasTerm f (store_entry f k e) k e (store_entry-Stores f k e h).there in
      omega (arith, lt_of_some k (store_entry f k e) old found)

  pub store_entries-before :
      (es f : List (LogEntry C)) (k : ℕ) → k ≤ length f → take k (store_entries f k es) ≡ take k f
  unfolding store_entries
  store_entries-before [] f k h = refl
  store_entries-before (e ∷ es) f k h =
      let g = store_entry f k e in
      let s = store_entry-Stores f k e h in
      let rest = store_entries-before es g (k + 1) (stored_length f k e h) in
      sym (take-take k (k + 1) (store_entries g (k + 1) es) (omega arith))
      ∙ ap (take k) rest
      ∙ take-take k (k + 1) g (omega arith)
      ∙ s.before

  -- what holds over the log with one entry stored holds over the log before that
  Holds-stored :
      (f g l : List (LogEntry C)) (k j : ℕ) (x e : LogEntry C)
      → k < j
      → Stores f g k x
      → Holds g l j e
      → Holds f l j e
  unfolding Holds HasTerm
  Holds-stored f g l k j x e lt s (inl at) = inl at
  Holds-stored f g l k j x e lt s (inr (kept, (old, found, same))) = elim (s.beyond j lt) [
    | inl still ↦ inr (kept ∙ still, (old, found, same))
    | inr gone ↦ absurd (ground (arith, kept, gone, found))
  ]

  Holds-below :
      (f g l : List (LogEntry C)) (k : ℕ) (e : LogEntry C)
      → take (k + 1) l ≡ take (k + 1) g
      → Holds f g k e
      → Holds f l k e
  unfolding Holds HasTerm
  Holds-below f g l k e below (inl at) =
      inl (get_elem?_of_take g l (k + 1) k (omega arith) below ∙ at)
  Holds-below f g l k e below (inr (kept, (old, found, same))) =
      let here = get_elem?_of_take g l (k + 1) k (omega arith) below in
      inr (here ∙ kept, (old, here ∙ found, same))

  pub store_entries-Holds :
      (es f : List (LogEntry C)) (k i : ℕ) (e : LogEntry C)
      → k ≤ length f
      → get_elem? es i ≡ some e
      → Holds f (store_entries f k es) (k + i) e
  unfolding store_entries
  store_entries-Holds [] f k i e h at = cc
  store_entries-Holds (x ∷ es) f k zero e h at =
      let g = store_entry f k x in
      let rest = store_entries-before es g (k + 1) (stored_length f k x h) in
      subst (λ j. Holds f (store_entries g (k + 1) es) j e) (plus_zero k)
        (subst (Holds f (store_entries g (k + 1) es) k) (cc) (
          Holds-below f g (store_entries g (k + 1) es) k x rest (store_entry-Stores f k x h).there))
    where
      plus_zero : (k : ℕ) → k ≡ k + 0
      plus_zero k = omega arith
  store_entries-Holds (x ∷ es) f k (suc i) e h at =
      let g = store_entry f k x in
      subst (λ j. Holds f (store_entries g (k + 1) es) j e) (shift k i)
        (Holds-stored f g (store_entries g (k + 1) es) k ((k + 1) + i) x e (omega arith)
          (store_entry-Stores f k x h)
          (store_entries-Holds es g (k + 1) i e (stored_length f k x h) at))
    where
      shift : (k i : ℕ) → (k + 1) + i ≡ k + suc i
      shift k i = omega arith
