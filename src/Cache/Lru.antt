-- ===== src/Cache/Lru.antt =====
-- src/nodes/cache_node.py: `CacheEntry` and `LruCache`.
pub mod Bounds
pub mod Reads
pub mod Spec
pub mod Refines
use mathlib.Core.Option
use sinkronisasi_dan_distrib.Base.{
  ℕ, String, Bool, true, false, Option, none, some, List, [], ◌∷◌, ◌++◌, Dict, lookup, insert,
  erase, ite, dec_string, if◌then◌else◌, ltb, length, set_discard,
}

-- the states 'M', 'E', 'S' and 'I'
pub data Mesi : Type 0 where
  modified exclusive shared invalid : Mesi

-- A value is `none` where it is a JSON null.
pub record CacheEntry (V : Type 0) : Type 0 where
  pub value : Option V
  pub state : Mesi
  pub updated_at : ℕ

-- `lru` is the list of the keys of the `OrderedDict`, the least recently used first.
pub record LruCache (V : Type 0) : Type 0 where
  pub capacity : ℕ
  pub entries : Dict (CacheEntry V)
  pub lru : List String

abbrev pub is_invalid : Mesi → Bool
is_invalid modified = false
is_invalid exclusive = false
is_invalid shared = false
is_invalid invalid = true

-- `lru.pop(key, None)` and then `lru[key] = True`
unfoldable pub touch : String → List String → List String
touch key lru = set_discard key lru ++ key ∷ []

module _ {V : Type 0} where
  unfoldable pub init : ℕ → LruCache V
  init capacity = record { capacity = capacity; entries = []; lru = [] }

  unfoldable pub get : LruCache V → String → LruCache V × Option (CacheEntry V)
  get c key = elim (lookup key c.entries) [
    | none ↦ (c, none)
    | some e ↦
        if is_invalid e.state then (c, none) else (record c { lru = touch key c.lru }, some e)
  ]

  -- `popitem(last=False)` of a cache that is over its capacity, and the entry that goes with it
  unfoldable pub evict : LruCache V → List String → LruCache V × Option (String × CacheEntry V)
  evict c [] = (c, none)
  evict c (old ∷ rest) = (
    record c { entries = erase old c.entries; lru = rest },
    Option.map (λ e. (old, e)) (lookup old c.entries),
  )

  unfoldable pub put :
      LruCache V → String → CacheEntry V → LruCache V × Option (String × CacheEntry V)
  unfolding evict touch
  put c key e =
      let c' = record c { entries = insert key e c.entries; lru = touch key c.lru } in
      if ltb c.capacity (length c'.lru) then evict c' c'.lru else (c', none)

  unfoldable pub invalidate : LruCache V → String → LruCache V
  invalidate c key = elim (lookup key c.entries) [
    | none ↦ c
    | some e ↦ record c {
      entries = insert key (record e { state = invalid }) c.entries;
      lru = set_discard key c.lru;
    }
  ]
