-- ===== src/Cache/Ownership.antt =====
-- The MESI invariant of the cluster: a node with an entry in the state M or E is the only node with a
-- valid entry for the key. What the operations of one node do to its entries.
use sinkronisasi_dan_distrib.Base.{
  String, ◌≡◌, ◌≢◌, refl, sym, subst, ◌∙◌, inl, inr, ◌⊎◌, Bool, true, false, Option, none, some,
  List, [], ◌∷◌, lookup, insert, lookup-insert, lookup-erase, ite, if_pos, if_neg, dec_string, ltb,
  length, member, arith, Bool-cases, Option-cases,
}
use sinkronisasi_dan_distrib.Cache.Lru.{
  Mesi, modified, exclusive, shared, invalid, CacheEntry, LruCache, get, evict, put, invalidate,
  touch,
}
use sinkronisasi_dan_distrib.Cache.Lru.Bounds.{holds_valid}
use sinkronisasi_dan_distrib.Cache.{
  CacheNode, Cluster, downgraded, update, writeback_if_needed, put_entry, handle_internal_read,
  handle_internal_invalidate,
}

abbrev pub is_owner : Mesi → Bool
is_owner modified = true
is_owner exclusive = true
is_owner shared = false
is_owner invalid = false

module _ {V : Type 0} where
  abbrev pub owned : Option (CacheEntry V) → Bool
  owned none = false
  owned (some e) = is_owner e.state

  abbrev pub entry : CacheNode V → String → Option (CacheEntry V)
  entry n k = lookup k n.cache.entries

  -- Among the members of the cluster an owner of a key is the only one with a valid entry for it.
  pub record IsCoherent (ms : List String) (cl : Cluster V) : Type 0 where
    pub single_owner :
        (k a b : String)
        → member a ms ≡ true
        → member b ms ≡ true
        → a ≢ b
        → owned (entry (cl a) k) ≡ true
        → holds_valid (entry (cl b) k) ≡ false

  -- The node gained no entry and no ownership.
  pub record Weaker (n n' : CacheNode V) : Type 0 where
    pub gone : (k : String) → holds_valid (entry n k) ≡ false → holds_valid (entry n' k) ≡ false
    pub owners : (k : String) → owned (entry n' k) ≡ true → owned (entry n k) ≡ true

  pub Weaker-refl : (n : CacheNode V) → Weaker n n
  Weaker-refl n = record { gone = λ k h. h; owners = λ k h. h }

  pub Weaker-trans : {n m l : CacheNode V} → Weaker n m → Weaker m l → Weaker n l
  Weaker-trans a b = record {
    gone = λ k h. b.gone k (a.gone k h);
    owners = λ k h. a.owners k (b.owners k h);
  }

  pub Weaker-IsCoherent :
      (ms : List String) (cl cl' : Cluster V)
      → ((b : String) → Weaker (cl b) (cl' b))
      → IsCoherent ms cl
      → IsCoherent ms cl'
  Weaker-IsCoherent ms cl cl' w c = record {
    single_owner =
        λ k a b ha hb ne own. (w b).gone k (c.single_owner k a b ha hb ne ((w a).owners k own));
  }

  abbrev downgrade : Option (CacheEntry V) → Option (CacheEntry V)
  downgrade none = none
  downgrade (some e) = some (record e { state = downgraded e.state })

  abbrev kill : Option (CacheEntry V) → Option (CacheEntry V)
  kill none = none
  kill (some e) = some (record e { state = invalid })

  pub entry-handle_internal_read :
      (key k : String) (n : CacheNode V)
      → entry (handle_internal_read key n).0 k
        ≡ ite (dec_string key k) (downgrade (entry n k)) (entry n k)
  unfolding handle_internal_read get
  entry-handle_internal_read key k n = elim (Option-cases (lookup key n.cache.entries)) [
    | inl missing ↦ ground arith
    | inr (e, found) ↦
        ground
          (arith, lookup-insert key k (record e { state = downgraded e.state }) n.cache.entries)
  ]

  pub found-handle_internal_read :
      (key : String) (n : CacheNode V)
      → (handle_internal_read key n).1 ≡ none
      → holds_valid (entry n key) ≡ false
  unfolding handle_internal_read get
  found-handle_internal_read key n h = ground arith

  pub entry-handle_internal_invalidate :
      (key k : String) (n : CacheNode V)
      → key ≢ ""
      → entry (handle_internal_invalidate key n) k
        ≡ ite (dec_string key k) (kill (entry n k)) (entry n k)
  unfolding handle_internal_invalidate invalidate
  entry-handle_internal_invalidate key k n h = elim (Option-cases (lookup key n.cache.entries)) [
    | inl missing ↦ ground arith
    | inr (e, found) ↦
        ground (arith, lookup-insert key k (record e { state = invalid }) n.cache.entries)
  ]

  pub cache-writeback_if_needed :
      (o : Option (String × CacheEntry V)) (n : CacheNode V)
      → (writeback_if_needed o n).cache ≡ n.cache
  unfolding writeback_if_needed
  cache-writeback_if_needed none n = refl
  cache-writeback_if_needed (some (key, e)) n = ground arith

  entries-evict :
      (c : LruCache V) (lru : List String) (k : String)
      → (lookup k (evict c lru).0.entries ≡ lookup k c.entries)
        ⊎ (lookup k (evict c lru).0.entries ≡ none)
  unfolding evict
  entries-evict c [] k = inl refl
  entries-evict c (old ∷ rest) k = elim (dec_string old k) [
    | yes p ↦ inr (ground (arith, lookup-erase old k c.entries))
    | no p ↦ inl (ground (arith, lookup-erase old k c.entries))
  ]

  filled : LruCache V → String → CacheEntry V → LruCache V
  filled c key e = record c { entries = insert key e c.entries; lru = touch key c.lru }

  entries-put :
      (c : LruCache V) (key k : String) (e : CacheEntry V)
      → (lookup k (put c key e).0.entries ≡ ite (dec_string key k) (some e) (lookup k c.entries))
        ⊎ (lookup k (put c key e).0.entries ≡ none)
  unfolding put filled
  entries-put c key k e = elim (Bool-cases (ltb c.capacity (length (touch key c.lru)))) [
    | inr fits ↦ rw (fits, put) (inl (lookup-insert key k e c.entries))
    | inl over ↦ elim (entries-evict (filled c key e) (touch key c.lru) k) [
      | inl same ↦ rw (over, put) (inl (same ∙ lookup-insert key k e c.entries))
      | inr gone ↦ rw (over, put) (inr gone)
    ]
  ]

  pub entry-put_entry :
      (key k : String) (e : CacheEntry V) (n : CacheNode V)
      → (entry (put_entry key e n) k ≡ ite (dec_string key k) (some e) (entry n k))
        ⊎ (entry (put_entry key e n) k ≡ none)
  unfolding put_entry
  entry-put_entry key k e n =
      subst
        (λ (c : LruCache V).
          (lookup k c.entries ≡ ite (dec_string key k) (some e) (entry n k))
          ⊎ (lookup k c.entries ≡ none))
        (sym (
          cache-writeback_if_needed (put n.cache key e).1
            (record n { cache = (put n.cache key e).0 })))
        (entries-put n.cache key k e)

  pub read-Weaker : (key : String) (n : CacheNode V) → Weaker n (handle_internal_read key n).0
  read-Weaker key n = record {
    gone = λ k h. ground (arith, entry-handle_internal_read key k n);
    owners = λ k h. ground (arith, entry-handle_internal_read key k n);
  }

  pub invalidate-Weaker :
      (key : String) (n : CacheNode V) → key ≢ "" → Weaker n (handle_internal_invalidate key n)
  invalidate-Weaker key n ne = record {
    gone = λ k h. ground (arith, entry-handle_internal_invalidate key k n ne);
    owners = λ k h. ground (arith, entry-handle_internal_invalidate key k n ne);
  }

  pub update-Weaker :
      (cl : Cluster V) (p : String) (n : CacheNode V)
      → Weaker (cl p) n
      → (b : String) → Weaker (cl b) (update cl p n b)
  unfolding update
  update-Weaker cl p n w b = elim (dec_string p b) [
    | yes e ↦ rw (if_pos _ e) (subst (λ x. Weaker (cl x) n) e w)
    | no e ↦ rw (if_neg _ e) (Weaker-refl (cl b))
  ]
