-- ===== src/Hashing/Replicas.antt =====
-- `get_nodes`: the nodes that follow a key on the ring.
use sinkronisasi_dan_distrib.Base.{
  inl, inr, ℕ, zero, suc, ◌+◌, ◌%◌, ◌≤◌, ◌<◌, String, ◌≡◌, refl, true, false, Option, none, some,
  List, [], ◌∷◌, ◌++◌, ite, dec_string, if◌then◌else◌, leb, length, length-append, member, arith,
  Bool-cases, Option-cases, IsDistinct, is_empty, ◌||◌,
}
use sinkronisasi_dan_distrib.Hashing.{
  ConsistentHashRing, node_of_index, collect, get_nodes, wrap, bisect_right,
}

member-append_one :
    (x y : String) (s : List String)
    → member x (s ++ y ∷ []) ≡ (member x s || ite (dec_string y x) true false)
unfolding member
member-append_one x y [] = ground arith
member-append_one x y (z ∷ s) = ground (arith, member-append_one x y s)

append_one-IsDistinct :
    (x : String) (s : List String) → member x s ≡ false → IsDistinct s → IsDistinct (s ++ x ∷ [])
unfolding IsDistinct member
append_one-IsDistinct x [] h d = (refl, tt)
append_one-IsDistinct x (y ∷ s) h d =
    (ground (arith, member-append_one y x s, d.0), append_one-IsDistinct x s (ground arith) d.1)

-- No node twice, and no more than asked for.
pub record IsChoice (count : ℕ) (ns : List String) : Type 0 where
  pub distinct : IsDistinct ns
  pub bounded : length ns ≤ count

abbrev pub add_new : Option String → List String → List String
add_new none s = s
add_new (some n) s = if member n s then s else s ++ n ∷ []

add_new-IsChoice :
    (count : ℕ) (o : Option String) (s : List String)
    → length s < count
    → IsDistinct s
    → IsChoice count (add_new o s)
add_new-IsChoice count none s l d = record { distinct = d; bounded = ground arith }
add_new-IsChoice count (some n) s l d = elim (Bool-cases (member n s)) [
  | inl seen ↦ rw seen (record { distinct = d; bounded = ground arith })
  | inr new ↦ rw new (record {
    distinct = append_one-IsDistinct n s new d;
    bounded = omega (arith, length-append s (n ∷ []));
  })
]

pub collect-step :
    (r : ConsistentHashRing) (index count offset left : ℕ) (s : List String)
    → let next = add_new (node_of_index r ((index + offset) % length r.sorted_keys)) s in
      collect r index count offset (suc left) s
      ≡ (if leb count (length next) then next else collect r index count (suc offset) left next)
unfolding collect
collect-step r index count offset left s =
    elim (Option-cases (node_of_index r ((index + offset) % length r.sorted_keys))) [
      | inl missing ↦ rw missing refl
      | inr (n, there) ↦ rw there refl
    ]

collect-IsChoice :
    (r : ConsistentHashRing) (index count offset left : ℕ) (s : List String)
    → length s < count
    → IsDistinct s
    → IsChoice count (collect r index count offset left s)
unfolding collect
collect-IsChoice r index count offset zero s l d = record { distinct = d; bounded = ground arith }
collect-IsChoice r index count offset (suc left) s l d =
    let o = node_of_index r ((index + offset) % length r.sorted_keys) in
    let c = add_new-IsChoice count o s l d in
    elim (Bool-cases (leb count (length (add_new o s)))) [
      | inl full ↦ rw (collect-step r index count offset left s, full) c
      | inr more ↦
          rw (collect-step r index count offset left s, more)
            (collect-IsChoice r index count (suc offset) left (add_new o s) (ground arith)
              c.distinct)
    ]

module _ (hash : String → ℕ) where
  -- `get_nodes` gives no node twice, and at most as many nodes as it is asked for.
  pub get_nodes-IsChoice :
      (r : ConsistentHashRing) (key : String) (count : ℕ)
      → IsChoice count (get_nodes hash r key count)
  unfolding get_nodes IsDistinct
  get_nodes-IsChoice r key zero = record { distinct = tt; bounded = ground arith }
  get_nodes-IsChoice r key (suc c) = elim (Bool-cases (is_empty r.sorted_keys)) [
    | inl empty ↦ rw empty (record { distinct = tt; bounded = ground arith })
    | inr filled ↦ rw filled (
        collect-IsChoice r (wrap (bisect_right r.sorted_keys (hash key)) r.sorted_keys) (suc c) 0
          (length r.sorted_keys) [] (ground arith) tt)
  ]
