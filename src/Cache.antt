-- ===== src/Cache.antt =====
-- src/nodes/cache_node.py: the handlers of `DistributedCacheNode`, on a cluster that gives each node
-- id its node. A handler asks its peers in turn; which peers answer is an argument, `up`, and the
-- time too. `handle_get` writes the key into a URL as it is: `in_url` gives the key that a peer's
-- server reads there, which is another one where the key has a "&" or a "%", say.
pub mod Lru
pub mod Ownership
pub mod Peers
pub mod Coherence
pub mod ReadBack
mod Tests
use sinkronisasi_dan_distrib.Base.{
  ℕ, String, Bool, true, false, Option, none, some, List, [], ◌∷◌, ◌++◌, Dict, lookup, insert, ite,
  dec_string, if◌then◌else◌,
}
use sinkronisasi_dan_distrib.Cache.Lru.{
  Mesi, modified, exclusive, shared, invalid, CacheEntry, LruCache, get, put, invalidate,
}

pub record CacheNode (V : Type 0) : Type 0 where
  pub cache : LruCache V
  pub memory_db : Dict (Option V)

abbrev pub Cluster : Type 0 → Type 0
Cluster V = String → CacheNode V

pub data Response (V : Type 0) : Type 0 where
  missing_key not_found : Response V
  value_of : String → Option V → Mesi → Response V
  stored : String → Response V

abbrev pub is_modified : Mesi → Bool
is_modified modified = true
is_modified exclusive = false
is_modified shared = false
is_modified invalid = false

-- the state that a peer's read leaves: M and E become S
abbrev pub downgraded : Mesi → Mesi
downgraded modified = shared
downgraded exclusive = shared
downgraded shared = shared
downgraded invalid = invalid

module _ {V : Type 0} where
  unfoldable pub update : Cluster V → String → CacheNode V → Cluster V
  update cl id n j = ite (dec_string id j) n (cl j)

  -- `memory_db.get(key)`: an absent key and a stored null read alike
  unfoldable pub fetch_from_memory : CacheNode V → String → Option V
  fetch_from_memory n key = elim (lookup key n.memory_db) [ none ↦ none | some v ↦ v ]

  unfoldable pub write_back_to_memory : String → Option V → CacheNode V → CacheNode V
  write_back_to_memory key v n = record n { memory_db = insert key v n.memory_db }

  unfoldable pub writeback_if_needed : Option (String × CacheEntry V) → CacheNode V → CacheNode V
  unfolding write_back_to_memory
  writeback_if_needed none n = n
  writeback_if_needed (some (key, e)) n =
      if is_modified e.state then write_back_to_memory key e.value n else n

  -- `self.cache.put` and the write-back of what it evicts
  unfoldable pub put_entry : String → CacheEntry V → CacheNode V → CacheNode V
  unfolding writeback_if_needed
  put_entry key e n =
      let (c, evicted) = put n.cache key e in writeback_if_needed evicted (record n { cache = c })

  -- the write-back of a modified entry, and its new state
  unfoldable pub share_entry : String → CacheEntry V → CacheNode V → CacheNode V
  unfolding write_back_to_memory
  share_entry key e n =
      let n' = if is_modified e.state then write_back_to_memory key e.value n else n in
      record n' {
        cache = record n'.cache {
          entries = insert key (record e { state = downgraded e.state }) n'.cache.entries;
        };
      }

  -- `handle_internal_read`: the node after it, and the value where the node has one
  unfoldable pub handle_internal_read : String → CacheNode V → CacheNode V × Option (Option V)
  unfolding share_entry
  handle_internal_read key n =
      let (c, found) = get n.cache key in
      elim found [
        | none ↦ (record n { cache = c }, none)
        | some e ↦ (share_entry key e (record n { cache = c }), some e.value)
      ]

  -- `handle_internal_invalidate`; an empty key is ignored
  unfoldable pub handle_internal_invalidate : String → CacheNode V → CacheNode V
  handle_internal_invalidate key n =
      ite (dec_string key "") n (record n { cache = invalidate n.cache key })

  -- the broadcast of a read, of the key that the peers see: each peer that answers, with its value if it has one, in their order
  unfoldable pub read_peers :
      (String → Bool) → String → List String → Cluster V → Cluster V × List (Option (Option V))
  read_peers up key [] cl = (cl, [])
  read_peers up key (p ∷ ps) cl =
      let (n, found) = handle_internal_read key (cl p) in
      let cl' = if up p then update cl p n else cl in
      let (cl₂, rest) = read_peers up key ps cl' in (cl₂, (if up p then found else none) ∷ rest)

  -- `peer_data`: the value of the first peer that found one
  unfoldable pub first_found : List (Option (Option V)) → Option V
  first_found [] = none
  first_found (none ∷ rs) = first_found rs
  first_found (some v ∷ rs) = v

  unfoldable pub invalidate_peers : (String → Bool) → String → List String → Cluster V → Cluster V
  invalidate_peers up key [] cl = cl
  invalidate_peers up key (p ∷ ps) cl =
      invalidate_peers up key ps
        (if up p then update cl p (handle_internal_invalidate key (cl p)) else cl)

  -- the third step of `handle_get`, for what `fetch_from_memory` returned
  unfoldable pub load_memory : ℕ → String → String → Cluster V → Option V → Cluster V × Response V
  load_memory now me key cl none = (cl, not_found)
  load_memory now me key cl (some v) = (
    update cl me
        (put_entry key (record { value = some v; state = exclusive; updated_at = now }) (cl me)),
    value_of key (some v) exclusive,
  )

  -- `handle_get` after the answers of the peers
  unfoldable pub take_answer : ℕ → String → String → Cluster V → Option V → Cluster V × Response V
  unfolding load_memory
  take_answer now me key cl none = load_memory now me key cl (fetch_from_memory (cl me) key)
  take_answer now me key cl (some v) = (
    update cl me
        (put_entry key (record { value = some v; state = shared; updated_at = now }) (cl me)),
    value_of key (some v) shared,
  )

  -- `handle_get` on a local miss
  unfoldable pub get_remote :
      (String → String)
      → ℕ
      → (String → Bool)
      → List String
      → String
      → String
      → Cluster V
      → Cluster V × Response V
  unfolding take_answer
  get_remote in_url now up peers me key cl =
      let (cl', answers) = read_peers up (in_url key) peers cl in
      take_answer now me key cl' (first_found answers)

  unfoldable pub handle_get :
      (String → String)
      → ℕ
      → (String → Bool)
      → List String
      → String
      → String
      → Cluster V
      → Cluster V × Response V
  handle_get in_url now up peers me key cl =
      ite (dec_string key "") (cl, missing_key)
        (let (c, found) = get (cl me).cache key in
          elim found [
            | some e ↦ (update cl me (record (cl me) { cache = c }), value_of key e.value e.state)
            | none ↦ get_remote in_url now up peers me key cl
          ])

  unfoldable pub handle_put :
      ℕ
      → (String → Bool)
      → List String
      → String
      → String
      → Option V
      → Cluster V
      → Cluster V × Response V
  unfolding write_back_to_memory put_entry
  handle_put now up peers me key v cl =
      ite (dec_string key "") (cl, missing_key)
        (let cl' = invalidate_peers up key peers cl in
          let entry : CacheEntry V = record { value = v; state = modified; updated_at = now } in
          (update cl' me (put_entry key entry (write_back_to_memory key v (cl' me))), stored key))
