-- ===== src/Base/Slices.antt =====
-- How `take`, `drop` and `get_elem?` fit together.
use Prim.Native.Nat.{ℕ, zero, suc, ◌-◌, ◌≤◌, ◌<◌, min}
use mathlib.Core.Path.{◌≡◌, refl, ap}
use mathlib.Core.List.{List, [], ◌∷◌, ◌++◌}
use mathlib.Core.Option.{none, some}
use native.Mathlib.Omega.{arith}
use sinkronisasi_dan_distrib.Base.Lists.{length, get_elem?, take, drop}

module _ {ℓ} {A : Type ℓ} where
  pub take-suc :
      (k : ℕ) (xs : List A) (x : A)
      → get_elem? xs k ≡ some x
      → take (suc k) xs ≡ take k xs ++ x ∷ []
  take-suc k [] x h = cc
  take-suc zero (y ∷ xs) x h = ground arith
  take-suc (suc k) (y ∷ xs) x h = ap (◌∷◌ y) (take-suc k xs x h)

  pub get_elem?-drop :
      (k : ℕ) (xs : List A) (x : A) (rest : List A)
      → drop k xs ≡ x ∷ rest
      → (get_elem? xs k ≡ some x) × (drop (suc k) xs ≡ rest)
  get_elem?-drop zero [] x rest h = (cc, cc)
  get_elem?-drop (suc k) [] x rest h = (cc, cc)
  get_elem?-drop zero (y ∷ xs) x rest h = (cc, cc)
  get_elem?-drop (suc k) (y ∷ xs) x rest h = get_elem?-drop k xs x rest h

  pub take_of_none :
      (k : ℕ) (xs : List A) → get_elem? xs k ≡ none → (take k xs ≡ xs) × (length xs ≤ k)
  take_of_none zero [] h = (refl, omega arith)
  take_of_none (suc k) [] h = (refl, omega arith)
  take_of_none zero (y ∷ xs) h = (cc, cc)
  take_of_none (suc k) (y ∷ xs) h =
      let r = take_of_none k xs h in (ap (◌∷◌ y) r.0, omega (arith, r.1))

  pub lt_of_some : (k : ℕ) (xs : List A) (x : A) → get_elem? xs k ≡ some x → k < length xs
  lt_of_some k [] x h = cc
  lt_of_some zero (y ∷ xs) x h = omega arith
  lt_of_some (suc k) (y ∷ xs) x h = omega (arith, lt_of_some k xs x h)

  pub some_of_lt : (k : ℕ) (xs : List A) → k < length xs → (x : A) × (get_elem? xs k ≡ some x)
  some_of_lt k [] h = absurd (omega arith)
  some_of_lt zero (y ∷ xs) h = (y, refl)
  some_of_lt (suc k) (y ∷ xs) h = some_of_lt k xs (omega arith)

  pub length-take : (n : ℕ) (xs : List A) → length (take n xs) ≡ min n (length xs)
  length-take zero xs = omega arith
  length-take (suc n) [] = omega arith
  length-take (suc n) (x ∷ xs) = omega (arith, length-take n xs)

  pub take-take : (i k : ℕ) (xs : List A) → i ≤ k → take i (take k xs) ≡ take i xs
  take-take zero k xs h = refl
  take-take (suc i) zero xs h = absurd (omega arith)
  take-take (suc i) (suc k) [] h = refl
  take-take (suc i) (suc k) (x ∷ xs) h = ap (◌∷◌ x) (take-take i k xs (omega arith))

  pub take_all : (k : ℕ) (xs : List A) → length xs ≤ k → take k xs ≡ xs
  take_all zero [] h = refl
  take_all zero (x ∷ xs) h = absurd (omega arith)
  take_all (suc k) [] h = refl
  take_all (suc k) (x ∷ xs) h = ap (◌∷◌ x) (take_all k xs (omega arith))

  pub get_elem?-take : (i k : ℕ) (xs : List A) → i < k → get_elem? (take k xs) i ≡ get_elem? xs i
  get_elem?-take i zero xs h = absurd (omega arith)
  get_elem?-take i (suc k) [] h = refl
  get_elem?-take zero (suc k) (x ∷ xs) h = refl
  get_elem?-take (suc i) (suc k) (x ∷ xs) h = get_elem?-take i k xs (omega arith)

  pub take-append : (k : ℕ) (xs ys : List A) → k ≤ length xs → take k (xs ++ ys) ≡ take k xs
  take-append zero xs ys h = refl
  take-append (suc k) [] ys h = absurd (omega arith)
  take-append (suc k) (x ∷ xs) ys h = ap (◌∷◌ x) (take-append k xs ys (omega arith))

  pub take-append-drop : (n : ℕ) (xs : List A) → take n xs ++ drop n xs ≡ xs
  take-append-drop zero xs = refl
  take-append-drop (suc n) [] = refl
  take-append-drop (suc n) (x ∷ xs) = ap (◌∷◌ x) (take-append-drop n xs)

  pub drop_all : (n : ℕ) (xs : List A) → drop n xs ≡ [] → length xs ≤ n
  drop_all zero [] h = omega arith
  drop_all zero (x ∷ xs) h = cc
  drop_all (suc n) [] h = omega arith
  drop_all (suc n) (x ∷ xs) h = omega (arith, drop_all n xs h)

  pub length-drop : (n : ℕ) (xs : List A) → length (drop n xs) ≡ length xs - n
  length-drop zero xs = omega arith
  length-drop (suc n) [] = omega arith
  length-drop (suc n) (x ∷ xs) = omega (arith, length-drop n xs)

  pub drop_of_some :
      (k : ℕ) (xs : List A) (x : A) → get_elem? xs k ≡ some x → drop k xs ≡ x ∷ drop (suc k) xs
  drop_of_some k [] x h = cc
  drop_of_some zero (y ∷ xs) x h = cc
  drop_of_some (suc k) (y ∷ xs) x h = drop_of_some k xs x h
