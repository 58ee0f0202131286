-- ===== src/Cache/ReadBack.antt =====
-- A get after a put at one node.
use sinkronisasi_dan_distrib.Base.{
  ℕ, ◌≤◌, ◌<◌, String, ◌≡◌, ◌≢◌, refl, sym, subst, ap, ◌∙◌, inl, inr, Bool, false, Option, none,
  some, List, [], ◌∷◌, ◌++◌, lookup, insert, lookup-insert_self, lookup-erase, ite_case, dec_string,
  if◌then◌else◌, ltb, length, member, member-set_discard, set_discard, arith, Bool-cases, if_neg,
}
use sinkronisasi_dan_distrib.Cache.Lru.{
  modified, is_invalid, CacheEntry, LruCache, get, evict, put, touch, invalidate,
}
use sinkronisasi_dan_distrib.Cache.{
  CacheNode, Cluster, Response, value_of, update, write_back_to_memory, writeback_if_needed,
  put_entry, invalidate_peers, handle_internal_invalidate, handle_get, handle_put,
}
use sinkronisasi_dan_distrib.Cache.Ownership.{cache-writeback_if_needed}
use sinkronisasi_dan_distrib.Cache.Peers.{update_at}

-- the list of use is not just the key, unless it is as long as one
kept_apart :
    (key old : String) (s rest : List String)
    → member key s ≡ false
    → s ++ key ∷ [] ≡ old ∷ rest
    → 1 < length (old ∷ rest)
    → old ≢ key
unfolding member
kept_apart key old [] rest h e l = absurd (ground (arith, ap length e))
kept_apart key old (x ∷ s) rest h e l = λ same. ground (arith, h, e, same)

touch-member : (key : String) (s : List String) → member key (set_discard key s) ≡ false
touch-member key s = ground (arith, member-set_discard key key s)

module _ {V : Type 0} where
  lookup-evict :
      (c : LruCache V) (key : String) (lru : List String)
      → ((old : String) (rest : List String) → lru ≡ old ∷ rest → old ≢ key)
      → lookup key (evict c lru).0.entries ≡ lookup key c.entries
  unfolding evict
  lookup-evict c key [] h = refl
  lookup-evict c key (old ∷ rest) h =
      lookup-erase old key c.entries
      ∙ if_neg (dec_string old key) (h old rest refl) none (lookup key c.entries)

  lookup-put :
      (c : LruCache V) (key : String) (e : CacheEntry V)
      → 1 ≤ c.capacity
      → lookup key (put c key e).0.entries ≡ some e
  unfolding put touch
  lookup-put c key e room =
      elim (Bool-cases (ltb c.capacity (length (set_discard key c.lru ++ key ∷ [])))) [
        | inr fits ↦ rw (fits, put) (lookup-insert_self key e c.entries)
        | inl over ↦
            rw (over, put)
              (lookup-evict (record c { entries = insert key e c.entries; lru = touch key c.lru })
                  key (set_discard key c.lru ++ key ∷ [])
                  (λ old rest same.
                    kept_apart key old (set_discard key c.lru) rest (touch-member key c.lru) same
                      (ground (arith, ap length same)))
                ∙ lookup-insert_self key e c.entries)
      ]

  get_hit :
      (in_url : String → String) (now : ℕ) (up : String → Bool) (peers : List String)
      (me key : String) (cl : Cluster V) (e : CacheEntry V)
      → key ≢ ""
      → lookup key (cl me).cache.entries ≡ some e
      → is_invalid e.state ≡ false
      → (handle_get in_url now up peers me key cl).1 ≡ value_of key e.value e.state
  unfolding handle_get get
  get_hit in_url now up peers me key cl e ne hit valid =
      ite_case (λ (r : Cluster V × Response V). r.1 ≡ value_of key e.value e.state)
        (dec_string key "") (λ q. absurd (ne q)) (λ _. rw (hit, valid) refl)

  capacity-invalidate :
      (up : String → Bool) (key : String) (ps : List String) (cl : Cluster V) (b : String)
      → (invalidate_peers up key ps cl b).cache.capacity ≡ (cl b).cache.capacity
  unfolding invalidate_peers update handle_internal_invalidate invalidate
  capacity-invalidate up key [] cl b = refl
  capacity-invalidate up key (p ∷ ps) cl b =
      let cl' = (if up p then update cl p (handle_internal_invalidate key (cl p)) else cl) in
      capacity-invalidate up key ps cl' b ∙ ground arith

  -- Where the cache of a node has room for an entry, a get of a key that is not empty right after a put
  -- of it at that node answers the value of the put, in the state M, whichever peers answer either
  -- request.
  pub handle_get-handle_put :
      (in_url : String → String) (now now' : ℕ) (up up' : String → Bool) (peers : List String)
      (me key : String) (v : Option V) (cl : Cluster V)
      → key ≢ ""
      → 1 ≤ (cl me).cache.capacity
      → (handle_get in_url now' up' peers me key (handle_put now up peers me key v cl).0).1
        ≡ value_of key v modified
  unfolding write_back_to_memory invalidate_peers put_entry writeback_if_needed handle_put
  handle_get-handle_put in_url now now' up up' peers me key v cl ne room =
      get_hit in_url now' up' peers me key (handle_put now up peers me key v cl).0 e ne
        (ite_case (λ (r : Cluster V × Response V). lookup key (r.0 me).cache.entries ≡ some e)
          (dec_string key "") (λ q. absurd (ne q))
          (λ _.
            ap (λ (n : CacheNode V). lookup key n.cache.entries)
              (update_at cl' me (put_entry key e n) me refl)
            ∙ ap (λ (c : LruCache V). lookup key c.entries)
                (cache-writeback_if_needed (put n.cache key e).1
                  (record n { cache = (put n.cache key e).0 }))
            ∙ lookup-put n.cache key e
                (subst (λ x. 1 ≤ x) (sym (capacity-invalidate up key peers cl me)) room)))
        refl
    where
      cl' : Cluster V
      cl' = invalidate_peers up key peers cl

      e : CacheEntry V
      e = record { value = v; state = modified; updated_at = now }

      n : CacheNode V
      n = write_back_to_memory key v (cl' me)
