-- ===== src/Hashing/Rotation.antt =====
-- Where `bisect_right` splits the sorted keys of a ring, and the order of the keys from there.
use mathlib.Core.List.{append-nil}
use sinkronisasi_dan_distrib.Base.{
  inl, inr, ℕ, ◌≤◌, ◌<◌, ◌≡◌, refl, ◌∙◌, sym, ap, true, List, [], ◌∷◌, ◌++◌, if◌then◌else◌, length,
  take, drop, take_all, ltb, ℕ_discrete, if_pos, if_neg, arith, Bool-cases,
}
use sinkronisasi_dan_distrib.Hashing.{wrap, bisect_right}
use sinkronisasi_dan_distrib.Hashing.Sorted.{has, IsSorted}

-- the keys that are greater than a hash, and the others
abbrev pub above : ℕ → List ℕ → List ℕ
above h [] = []
above h (k ∷ ks) = let rest = above h ks in if ltb h k then k ∷ rest else rest

abbrev pub upto : ℕ → List ℕ → List ℕ
upto h [] = []
upto h (k ∷ ks) = let rest = upto h ks in if ltb h k then rest else k ∷ rest

all_above :
    (ks : List ℕ) (h : ℕ)
    → ((j : ℕ) → has j ks ≡ true → h < j)
    → (above h ks ≡ ks) × (upto h ks ≡ [])
all_above [] h v = (refl, refl)
all_above (k ∷ ks) h v =
    let (a, b) = all_above ks h (λ j e. v j (ground arith)) in
    let less : h < k = v k (ground arith) in (ground arith, ground arith)

bisect_right-splits :
    (ks : List ℕ) (h : ℕ)
    → IsSorted ks
    → (drop (bisect_right ks h) ks ≡ above h ks)
      × (take (bisect_right ks h) ks ≡ upto h ks)
      × (bisect_right ks h ≤ length ks)
unfolding bisect_right
bisect_right-splits [] h v = (refl, refl, omega arith)
bisect_right-splits (k ∷ ks) h v = elim (Bool-cases (ltb h k)) [
  | inl less ↦
      let (a, b) = all_above ks h (λ j e. ground (arith, v.0 j e)) in
      rw less (ap (◌∷◌ k) (sym a), sym b, omega arith)
  | inr more ↦
      let (a, b, c) = bisect_right-splits ks h v.1 in rw more (a, ap (◌∷◌ k) b, omega (arith, c))
]

-- where the walk starts, and the order of the keys from there
pub wrap-splits :
    (ks : List ℕ) (h : ℕ)
    → IsSorted ks
    → 0 < length ks
    → let i = wrap (bisect_right ks h) ks in
      (i < length ks) × (drop i ks ++ take i ks ≡ above h ks ++ upto h ks)
unfolding wrap
wrap-splits ks h v some_key =
    let b = bisect_right ks h in
    let (behind, before, within) = bisect_right-splits ks h v in
    elim (ℕ_discrete b (length ks)) [
      | yes e ↦ rw (if_pos (ℕ_discrete b (length ks)) e 0 b) (
        some_key,
        append-nil ks
            ∙ sym (take_all b ks (omega (arith, e)))
            ∙ before
            ∙ ap (λ l. l ++ upto h ks) (sym (none_behind e) ∙ behind),
      )
      | no n ↦
          rw (if_neg (ℕ_discrete b (length ks)) n 0 b)
            (ground (arith, within), rw (behind, before) refl)
    ]
  where
    drop_full : (l : List ℕ) → drop (length l) l ≡ []
    drop_full [] = refl
    drop_full (x ∷ l) = drop_full l

    none_behind : bisect_right ks h ≡ length ks → drop (bisect_right ks h) ks ≡ []
    none_behind e = ap (λ i. drop i ks) e ∙ drop_full ks
