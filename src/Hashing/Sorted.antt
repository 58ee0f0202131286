-- ===== src/Hashing/Sorted.antt =====
-- The sorted keys of a ring: the key that a hash selects.
use sinkronisasi_dan_distrib.Base.{
  ℕ, zero, suc, ◌≤◌, ◌<◌, ◌≡◌, refl, ap, inl, inr, ◌⊎◌, Bool, true, false, ◌||◌, none, some, List,
  [], ◌∷◌, ◌++◌, ite, ltb, leb, length, arith, Bool-cases, ℕ_discrete, get_elem?, if_pos, if_neg,
}
use sinkronisasi_dan_distrib.Hashing.{insert_asc, sort_asc, bisect_right, wrap}

abbrev pub has : ℕ → List ℕ → Bool
has k [] = false
has k (j ∷ ks) = let rest = has k ks in ite (ℕ_discrete j k) true rest

abbrev pub IsSorted : List ℕ → Type 0
IsSorted [] = Unit
IsSorted (k ∷ ks) = ((j : ℕ) → has j ks ≡ true → k ≤ j) × IsSorted ks

pub has-append_one :
    (k j : ℕ) (ks : List ℕ) → has k (ks ++ j ∷ []) ≡ (has k ks || ite (ℕ_discrete j k) true false)
has-append_one k j [] = ground arith
has-append_one k j (i ∷ ks) = ground (arith, has-append_one k j ks)

has-insert_asc :
    (k j : ℕ) (ks : List ℕ) → has k (insert_asc j ks) ≡ ite (ℕ_discrete j k) true (has k ks)
unfolding insert_asc
has-insert_asc k j [] = refl
has-insert_asc k j (i ∷ ks) = ground (arith, has-insert_asc k j ks)

pub has-sort_asc : (k : ℕ) (ks : List ℕ) → has k (sort_asc ks) ≡ has k ks
unfolding sort_asc
has-sort_asc k [] = refl
has-sort_asc k (i ∷ ks) = ground (arith, has-sort_asc k ks, has-insert_asc k i (sort_asc ks))

insert_asc-IsSorted : (k : ℕ) (ks : List ℕ) → IsSorted ks → IsSorted (insert_asc k ks)
unfolding insert_asc
insert_asc-IsSorted k [] s = (λ j h. ground arith, tt)
insert_asc-IsSorted k (i ∷ ks) s = elim (Bool-cases (leb k i)) [
  | inl le ↦ rw le (λ j h. ground (arith, s.0 j), s)
  | inr gt ↦
      rw gt (λ j h. ground (arith, s.0 j, has-insert_asc j k ks), insert_asc-IsSorted k ks s.1)
]

pub sort_asc-IsSorted : (ks : List ℕ) → IsSorted (sort_asc ks)
unfolding sort_asc
sort_asc-IsSorted [] = tt
sort_asc-IsSorted (k ∷ ks) = insert_asc-IsSorted k (sort_asc ks) (sort_asc-IsSorted ks)

-- The key that a hash selects: the least key that is greater, and where there is none the least key.
pub data Selects (ks : List ℕ) (h : ℕ) (k : ℕ) : Type 0 where
  above : h < k → ((j : ℕ) → has j ks ≡ true → h < j → k ≤ j) → Selects ks h k
  around :
      ((j : ℕ) → has j ks ≡ true → j ≤ h) → ((j : ℕ) → has j ks ≡ true → k ≤ j) → Selects ks h k

-- a key of the list that the hash selects, at an index
abbrev Found : List ℕ → ℕ → ℕ → Type 0
Found ks h i = (k : ℕ) × (get_elem? ks i ≡ some k) × (has k ks ≡ true) × Selects ks h k

abbrev LeastAbove : List ℕ → ℕ → ℕ → ℕ → Type 0
LeastAbove ks h i k =
    (get_elem? ks i ≡ some k)
    × (has k ks ≡ true)
    × (h < k)
    × ((j : ℕ) → has j ks ≡ true → h < j → k ≤ j)

bisect_right-cases :
    (ks : List ℕ) (h : ℕ)
    → IsSorted ks
    → ((k : ℕ) × LeastAbove ks h (bisect_right ks h) k)
      ⊎ ((bisect_right ks h ≡ length ks) × ((j : ℕ) → has j ks ≡ true → j ≤ h))
unfolding bisect_right
bisect_right-cases [] h s = inr (refl, λ j e. absurd (ground arith))
bisect_right-cases (i ∷ ks) h s = elim (Bool-cases (ltb h i)) [
  | inl lt ↦ inl (i, rw lt (refl, ground arith, ground arith, λ j e l. ground (arith, s.0 j)))
  | inr ge ↦ elim (bisect_right-cases ks h s.1) [
    | inl (k, (at, there, lt, least)) ↦
        inl (k, rw ge (at, ground arith, lt, λ j e l. ground (arith, least j)))
    | inr (full, below) ↦ inr (rw ge (ap suc full), λ j e. ground (arith, below j))
  ]
]

pub selected :
    (i : ℕ) (ks : List ℕ) (h : ℕ)
    → IsSorted (i ∷ ks)
    → Found (i ∷ ks) h (wrap (bisect_right (i ∷ ks) h) (i ∷ ks))
unfolding wrap
selected i ks h s = elim (bisect_right-cases (i ∷ ks) h s) [
  | inl (k, (at, there, lt, least)) ↦
      (k, in_range k (bisect_right (i ∷ ks) h) at, there, above lt least)
  | inr (full, below) ↦ (
    i,
    ap (get_elem? (i ∷ ks)) (
        if_pos (ℕ_discrete (bisect_right (i ∷ ks) h) (length (i ∷ ks))) full zero
          (bisect_right (i ∷ ks) h)),
    ground arith,
    around below (λ j e. ground (arith, s.0 j)),
  )
]
  where
    past_end : (xs : List ℕ) → get_elem? xs (length xs) ≡ none
    past_end [] = refl
    past_end (x ∷ xs) = past_end xs

    in_range :
        (k n : ℕ)
        → get_elem? (i ∷ ks) n ≡ some k
        → get_elem? (i ∷ ks) (ite (ℕ_discrete n (length (i ∷ ks))) zero n) ≡ some k
    in_range k n at = elim (ℕ_discrete n (length (i ∷ ks))) [
      | no short ↦ rw (if_neg (ℕ_discrete n (length (i ∷ ks))) short zero n) at
      | yes full ↦ absurd (ground (arith, at, ap (get_elem? (i ∷ ks)) full, past_end (i ∷ ks)))
    ]
