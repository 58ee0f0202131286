-- ===== src/Hashing/Walk.antt =====
-- `get_nodes`, whose loop stops early, against one full walk around the ring.
use mathlib.Core.List.{append_assoc, append-nil}
use sinkronisasi_dan_distrib.Base.{
  inl, inr, ℕ, zero, suc, ◌+◌, ◌%◌, ◌≤◌, ◌<◌, String, ◌≡◌, refl, ◌∙◌, sym, ap, true, Option, none,
  some, List, [], ◌∷◌, ◌++◌, if◌then◌else◌, leb, length, length-append, length-drop, take, drop,
  take-append-drop, get_elem?-drop, get_elem?, take_all, ◌-◌, false, member, arith, Bool-cases,
  is_empty,
}
use sinkronisasi_dan_distrib.Hashing.{
  ConsistentHashRing, init, node_at, node_of_index, collect, get_nodes, wrap, bisect_right,
}
use native.Mathlib.Nat.{mod-eq_of_lt, add-mod_right}
use sinkronisasi_dan_distrib.Hashing.Sorted.{IsSorted}
use sinkronisasi_dan_distrib.Hashing.Rotation.{above, upto, wrap-splits}
use sinkronisasi_dan_distrib.Hashing.Ring.{init-IsRing}
use sinkronisasi_dan_distrib.Hashing.Replicas.{add_new, collect-step}

-- put in front, if it is there
abbrev pub with_node : Option String → List String → List String
with_node none ns = ns
with_node (some n) ns = n ∷ ns

-- the nodes of `left` keys, from an offset on
unfoldable pub walk : ConsistentHashRing → ℕ → ℕ → ℕ → List String
walk r index offset zero = []
walk r index offset (suc left) =
    with_node (node_of_index r ((index + offset) % length r.sorted_keys))
      (walk r index (suc offset) left)

-- each node where it stands first, without those that were seen before
unfoldable pub first_seen : List String → List String → List String
first_seen seen [] = []
first_seen seen (n ∷ ns) =
    if member n seen then first_seen seen ns else n ∷ first_seen (seen ++ n ∷ []) ns

take_exact : (s t : List String) (k : ℕ) → length s ≡ k → take k (s ++ t) ≡ s
take_exact [] t zero h = refl
take_exact [] t (suc k) h = absurd (omega arith)
take_exact (x ∷ s) t zero h = absurd (omega arith)
take_exact (x ∷ s) t (suc k) h = ap (λ l. x ∷ l) (take_exact s t k (omega arith))

first_seen-with_node :
    (o : Option String) (s ns : List String)
    → s ++ first_seen s (with_node o ns) ≡ add_new o s ++ first_seen (add_new o s) ns
unfolding first_seen
first_seen-with_node none s ns = refl
first_seen-with_node (some n) s ns = elim (Bool-cases (member n s)) [
  | inl seen ↦ rw (seen, first_seen) refl
  | inr new ↦ rw (new, first_seen) (sym (append_assoc s (n ∷ []) (first_seen (s ++ n ∷ []) ns)))
]

length-add_new : (o : Option String) (s : List String) → length (add_new o s) ≤ length s + 1
length-add_new none s = omega arith
length-add_new (some n) s = ground (arith, length-append s (n ∷ []))

collect-walk :
    (r : ConsistentHashRing) (index count offset left : ℕ) (s : List String)
    → length s < count
    → collect r index count offset left s
      ≡ take count (s ++ first_seen s (walk r index offset left))
unfolding walk
collect-walk r index count offset zero s l =
    unfold collect in
    unfold first_seen in sym (ap (take count) (append-nil s) ∙ take_all count s (omega arith))
collect-walk r index count offset (suc left) s l =
    let o = node_of_index r ((index + offset) % length r.sorted_keys) in
    let next = add_new o s in
    collect-step r index count offset left s ∙ elim (Bool-cases (leb count (length next))) [
      | inl full ↦ rw full (
          sym (take_exact next _ count (ground (arith, length-add_new o s)))
          ∙ ap (take count) (sym (first_seen-with_node o s (walk r index (suc offset) left))))
      | inr more ↦ rw more (
          collect-walk r index count (suc offset) left next (ground arith)
          ∙ ap (take count) (sym (first_seen-with_node o s (walk r index (suc offset) left))))
    ]

-- the nodes of the keys, in front of a list
abbrev pub nodes_onto : ConsistentHashRing → List ℕ → List String → List String
nodes_onto r [] ns = ns
nodes_onto r (k ∷ ks) ns = with_node (node_at k r.ring) (nodes_onto r ks ns)

node_of_index-at :
    (r : ConsistentHashRing) (i k : ℕ)
    → get_elem? r.sorted_keys i ≡ some k
    → node_of_index r i ≡ node_at k r.ring
unfolding node_of_index
node_of_index-at r i k e = ap at_key e
  where
    at_key : Option ℕ → Option String
    at_key none = none
    at_key (some j) = node_at j r.ring

-- as long as the offsets run through a segment of the keys, the walk meets its nodes
walk-along :
    (r : ConsistentHashRing) (index : ℕ) (seg tail : List ℕ) (at offset more left last : ℕ)
    → drop at r.sorted_keys ≡ seg ++ tail
    → ((j : ℕ) → j < length seg → (index + (offset + j)) % length r.sorted_keys ≡ at + j)
    → left ≡ length seg + more
    → last ≡ offset + length seg
    → walk r index offset left ≡ nodes_onto r seg (walk r index last more)
unfolding walk
walk-along r index [] tail at offset more left last d w e f =
    ap (walk r index offset) (omega (arith, e)) ∙ ap (λ i. walk r index i more) (omega (arith, f))
walk-along r index (k ∷ seg) tail at offset more zero last d w e f = absurd (omega (arith, e))
walk-along r index (k ∷ seg) tail at offset more (suc left) last d w e f =
    let (here, rest) = get_elem?-drop at r.sorted_keys k (seg ++ tail) d in
    let first : (index + offset) % length r.sorted_keys ≡ at =
      ap (λ i. (index + i) % length r.sorted_keys) (right_zero offset)
      ∙ w 0 (omega arith)
      ∙ sym (right_zero at) in
    let next =
      walk-along r index seg tail (suc at) (suc offset) more left last rest
        (λ j h.
          ap (λ i. (index + i) % length r.sorted_keys) (shift offset j)
          ∙ w (suc j) (omega (arith, h))
          ∙ sym (shift at j))
        (omega (arith, e)) (omega (arith, f)) in
    ap (λ o. with_node o (walk r index (suc offset) left))
      (ap (node_of_index r) first ∙ node_of_index-at r at k here)
    ∙ ap (with_node (node_at k r.ring)) next
  where
    right_zero : (i : ℕ) → i ≡ i + 0
    right_zero i = omega arith

    shift : (i j : ℕ) → suc i + j ≡ i + suc j
    shift i j = omega arith

-- a full walk, from an index on: the keys from there, and then those before
walk-full :
    (r : ConsistentHashRing) (index : ℕ)
    → index < length r.sorted_keys
    → walk r index 0 (length r.sorted_keys)
      ≡ nodes_onto r (drop index r.sorted_keys ++ take index r.sorted_keys) []
unfolding walk
walk-full r index h =
    let ks = r.sorted_keys in
    let d = drop index ks in
    let t = take index ks in
    let all : length t + length d ≡ length ks =
      sym (length-append t d) ∙ ap length (take-append-drop index ks) in
    let front : length d ≡ length ks - index = length-drop index ks in
    let back : length t ≡ index = omega (arith, all, front, h) in
    walk-along r index d [] index 0 (length t) (length ks) (length d) (sym (append-nil d))
      (λ j b. mod-eq_of_lt (omega (arith, b, front, h)) ∙ omega arith) (omega (arith, all))
      (omega arith)
    ∙ ap (nodes_onto r d) (
        walk-along r index t d 0 (length d) 0 (length t) (length d + length t)
          (sym (take-append-drop index ks))
          (λ j b.
            ap (λ i. i % length ks)
              (around_again j (length d) (length ks) (omega (arith, front, h)))
            ∙ add-mod_right j (length ks)
            ∙ mod-eq_of_lt (omega (arith, b, back, h))
            ∙ omega arith)
          (omega arith) refl)
    ∙ joined d t
  where
    around_again : (j d l : ℕ) → index + d ≡ l → index + (d + j) ≡ j + l
    around_again j d l e = omega (arith, e)

    joined : (a b : List ℕ) → nodes_onto r a (nodes_onto r b []) ≡ nodes_onto r (a ++ b) []
    joined [] b = refl
    joined (k ∷ a) b = ap (with_node (node_at k r.ring)) (joined a b)

sorted-walk :
    (r : ConsistentHashRing) (h : ℕ)
    → IsSorted r.sorted_keys
    → is_empty r.sorted_keys ≡ false
    → walk r (wrap (bisect_right r.sorted_keys h) r.sorted_keys) 0 (length r.sorted_keys)
      ≡ nodes_onto r (above h r.sorted_keys ++ upto h r.sorted_keys) []
sorted-walk r h v filled =
    let (within, rotated) = wrap-splits r.sorted_keys h v (positive r.sorted_keys filled) in
    walk-full r (wrap (bisect_right r.sorted_keys h) r.sorted_keys) within
    ∙ ap (λ ks. nodes_onto r ks []) rotated
  where
    positive : (ks : List ℕ) → is_empty ks ≡ false → 0 < length ks
    positive [] e = cc
    positive (k ∷ ks) e = omega arith

module _ (hash : String → ℕ) where
  sorted-get_nodes :
      (r : ConsistentHashRing) (key : String) (count : ℕ)
      → IsSorted r.sorted_keys
      → get_nodes hash r key count
        ≡ take count (
            first_seen []
              (nodes_onto r (above (hash key) r.sorted_keys ++ upto (hash key) r.sorted_keys) []))
  unfolding get_nodes
  sorted-get_nodes r key zero v = refl
  sorted-get_nodes r key (suc c) v = elim (Bool-cases (is_empty r.sorted_keys)) [
    | inl empty ↦ rw empty (sym (nothing r.sorted_keys empty))
    | inr filled ↦ rw filled (
        collect-walk r (wrap (bisect_right r.sorted_keys (hash key)) r.sorted_keys) (suc c) 0
          (length r.sorted_keys) [] (omega arith)
        ∙ ap (λ ns. take (suc c) (first_seen [] ns)) (sorted-walk r (hash key) v filled))
  ]
    where
      nothing :
          (ks : List ℕ)
          → is_empty ks ≡ true
          → take
              (suc c)
              (first_seen [] (nodes_onto r (above (hash key) ks ++ upto (hash key) ks) []))
            ≡ []
      nothing [] e = unfold first_seen in refl
      nothing (k ∷ ks) e = cc

  -- On the ring that `__init__` builds, `get_nodes` gives the first `count` of the different nodes
  -- met in the order of the ring's keys, those greater than the hash of the asked key first and then
  -- the others.
  pub get_nodes-walk :
      (label : String → ℕ → String) (ns : List String) (replicas : ℕ) (key : String) (count : ℕ)
      → let r = init hash label ns replicas in
        get_nodes hash r key count
        ≡ take count (
            first_seen []
              (nodes_onto r (above (hash key) r.sorted_keys ++ upto (hash key) r.sorted_keys) []))
  get_nodes-walk label ns replicas key count =
      sorted-get_nodes (init hash label ns replicas) key count
        (init-IsRing hash label ns replicas).sorted
