-- ===== src/Cache/Lru/Bounds.antt =====
-- `LruCache`: what its two tables keep.
use sinkronisasi_dan_distrib.Base.{
  IsDistinct, ℕ, ◌+◌, ◌≤◌, ◌<◌, String, ◌≡◌, refl, inl, inr, Bool, true, false, Option, none, some,
  List, [], ◌∷◌, ◌++◌, Dict, lookup, insert, erase, lookup-insert, lookup-erase, ite, dec_string,
  if◌then◌else◌, ltb, length, length-append, set_discard, member, member-set_discard, arith,
  Bool-cases, Option-cases, if_pos, if_neg,
}
use sinkronisasi_dan_distrib.Cache.Lru.{
  invalid, is_invalid, CacheEntry, LruCache, touch, init, get, evict, put, invalidate,
}

module _ {V : Type 0} where
  abbrev pub holds_valid : Option (CacheEntry V) → Bool
  holds_valid none = false
  holds_valid (some e) = if is_invalid e.state then false else true

  -- The order of use lists exactly the keys that hold a valid entry, each once, and is at most as
  -- long as the capacity.
  pub record IsValid (c : LruCache V) : Type 0 where
    pub bounded : length c.lru ≤ c.capacity
    pub distinct : IsDistinct c.lru
    pub listed : (k : String) → member k c.lru ≡ holds_valid (lookup k c.entries)

member-append_one :
    (k x : String) (s : List String)
    → member k (s ++ x ∷ []) ≡ ite (dec_string x k) true (member k s)
unfolding member
member-append_one k x [] = refl
member-append_one k x (y ∷ s) = ground (arith, member-append_one k x s)

member-touch :
    (k x : String) (s : List String) → member k (touch x s) ≡ ite (dec_string x k) true (member k s)
unfolding touch
member-touch k x s =
    ground (arith, member-append_one k x (set_discard x s), member-set_discard x k s)

pub set_discard-IsDistinct :
    (x : String) (s : List String) → IsDistinct s → IsDistinct (set_discard x s)
unfolding IsDistinct set_discard
set_discard-IsDistinct x [] d = tt
set_discard-IsDistinct x (y ∷ s) d = elim (dec_string y x) [
  | yes p ↦ rw (if_pos _ p, set_discard) (set_discard-IsDistinct x s d.1)
  | no p ↦
      rw (if_neg _ p, set_discard)
        (ground (arith, member-set_discard x y s, d.0), set_discard-IsDistinct x s d.1)
]

append_one-IsDistinct :
    (x : String) (s : List String) → member x s ≡ false → IsDistinct s → IsDistinct (s ++ x ∷ [])
unfolding IsDistinct member
append_one-IsDistinct x [] h d = (refl, tt)
append_one-IsDistinct x (y ∷ s) h d =
    (ground (arith, member-append_one y x s, d.0), append_one-IsDistinct x s (ground arith) d.1)

pub touch-IsDistinct : (x : String) (s : List String) → IsDistinct s → IsDistinct (touch x s)
unfolding touch
touch-IsDistinct x s d =
    append_one-IsDistinct x (set_discard x s) (ground (arith, member-set_discard x x s))
      (set_discard-IsDistinct x s d)

length-set_discard-le : (x : String) (s : List String) → length (set_discard x s) ≤ length s
unfolding set_discard
length-set_discard-le x [] = omega arith
length-set_discard-le x (y ∷ s) = ground (arith, length-set_discard-le x s)

-- a key that is there is taken out
length-set_discard-lt :
    (x : String) (s : List String) → member x s ≡ true → length (set_discard x s) + 1 ≤ length s
unfolding set_discard member
length-set_discard-lt x [] h = cc
length-set_discard-lt x (y ∷ s) h =
    ground (arith, length-set_discard-lt x s, length-set_discard-le x s)

length-touch : (x : String) (s : List String) → length (touch x s) ≡ length (set_discard x s) + 1
unfolding touch
length-touch x s = omega (arith, length-append (set_discard x s) (x ∷ []))

module _ {V : Type 0} where
  pub init-IsValid : (cap : ℕ) → IsValid (init {V = V} cap)
  unfolding init lookup member IsDistinct
  init-IsValid cap = record { bounded = omega arith; distinct = tt; listed = λ k. refl }

  pub get-IsValid : (c : LruCache V) (key : String) → IsValid c → IsValid (get c key).0
  unfolding get
  get-IsValid c key v = elim (Option-cases (lookup key c.entries)) [
    | inl missing ↦ rw (missing, get) v
    | inr (e, found) ↦ elim (Bool-cases (is_invalid e.state)) [
      | inl dead ↦ rw (found, get, dead) v
      | inr live ↦
          rw (found, get, live)
            (record {
              bounded = omega (
                arith,
                length-touch key c.lru,
                length-set_discard-lt key c.lru (ground (arith, v.listed key)),
                v.bounded,
              );
              distinct = touch-IsDistinct key c.lru v.distinct;
              listed = λ k. ground (arith, member-touch k key c.lru, v.listed k, v.listed key);
            })
    ]
  ]

  pub invalidate-IsValid : (c : LruCache V) (key : String) → IsValid c → IsValid (invalidate c key)
  unfolding invalidate
  invalidate-IsValid c key v = elim (Option-cases (lookup key c.entries)) [
    | inl missing ↦ rw (missing, invalidate) v
    | inr (e, found) ↦
        rw (found, invalidate)
          (record {
            bounded = omega (arith, length-set_discard-le key c.lru, v.bounded);
            distinct = set_discard-IsDistinct key c.lru v.distinct;
            listed = λ k. ground (
              arith,
              member-set_discard key k c.lru,
              v.listed k,
              lookup-insert key k (record e { state = invalid }) c.entries,
            );
          })
  ]

  Listed : Dict (CacheEntry V) → List String → Type 0
  Listed entries lru = (k : String) → member k lru ≡ holds_valid (lookup k entries)

  Listed-evict :
      (entries : Dict (CacheEntry V)) (old : String) (rest : List String)
      → IsDistinct (old ∷ rest)
      → Listed entries (old ∷ rest)
      → Listed (erase old entries) rest
  unfolding Listed member IsDistinct
  Listed-evict entries old rest d l = λ k. ground (arith, lookup-erase old k entries, l k, d.0)

  Listed-insert :
      (c : LruCache V) (key : String) (e : CacheEntry V)
      → is_invalid e.state ≡ false
      → IsValid c
      → Listed (insert key e c.entries) (touch key c.lru)
  unfolding Listed
  Listed-insert c key e live v =
      λ k. ground (arith, member-touch k key c.lru, v.listed k, lookup-insert key k e c.entries)

  evict-IsValid :
      (c : LruCache V) (lru : List String)
      → c.lru ≡ lru
      → c.capacity < length lru
      → length lru ≤ c.capacity + 1
      → IsDistinct lru
      → Listed c.entries lru
      → IsValid (evict c lru).0
  unfolding evict Listed IsDistinct
  evict-IsValid c [] e over room d l = absurd (omega arith)
  evict-IsValid c (old ∷ rest) e over room d l = record {
    bounded = omega arith;
    distinct = d.1;
    listed = Listed-evict c.entries old rest d l;
  }

  pub put-IsValid :
      (c : LruCache V) (key : String) (e : CacheEntry V)
      → is_invalid e.state ≡ false
      → IsValid c
      → IsValid (put c key e).0
  unfolding put
  put-IsValid c key e live v = elim (Bool-cases (ltb c.capacity (length (touch key c.lru)))) [
    | inl over ↦
        rw (over, put)
          (evict-IsValid _ (touch key c.lru) refl (ground arith) grown
            (touch-IsDistinct key c.lru v.distinct) (Listed-insert c key e live v))
    | inr fits ↦
        rw (fits, put)
          (record {
            bounded = ground arith;
            distinct = touch-IsDistinct key c.lru v.distinct;
            listed = unfold Listed in Listed-insert c key e live v;
          })
  ]
    where
      grown : length (touch key c.lru) ≤ c.capacity + 1
      grown = omega (arith, length-touch key c.lru, length-set_discard-le key c.lru, v.bounded)
