-- ===== src/Cache/Lru/Reads.antt =====
-- `LruCache`: what a `put` evicts, and what can be read after any calls.
use mathlib.Core.Option
use sinkronisasi_dan_distrib.Base.{
  ℕ, ◌<◌, String, ◌≡◌, ◌≢◌, refl, sym, ap, ◌∙◌, true, false, none, some, List, [], ◌∷◌, ◌++◌,
  lookup, insert, erase, lookup-insert, lookup-erase, ite, dec_string, ltb, length, length-append,
  set_discard, member, arith, if_neg,
}
use sinkronisasi_dan_distrib.Cache.Lru.{
  is_invalid, CacheEntry, LruCache, touch, init, get, evict, put, invalidate,
}
use sinkronisasi_dan_distrib.Cache.Lru.Bounds.{
  IsValid, holds_valid, init-IsValid, get-IsValid, put-IsValid, invalidate-IsValid,
}

set_discard_absent : (x : String) (s : List String) → member x s ≡ false → set_discard x s ≡ s
unfolding member set_discard
set_discard_absent x [] h = refl
set_discard_absent x (y ∷ s) h = ground (arith, set_discard_absent x s)

touch_new : (x : String) (s : List String) → member x s ≡ false → touch x s ≡ s ++ x ∷ []
unfolding touch
touch_new x s h = ap (λ l. l ++ x ∷ []) (set_discard_absent x s h)

not-first : (k x : String) (s : List String) → member k (x ∷ s) ≡ false → k ≢ x
unfolding member
not-first k x s h e = ground arith

first : (x : String) (s : List String) → member x (x ∷ s) ≡ true
unfolding member
first x s = ground arith

pub data Call (V : Type 0) : Type 0 where
  gets : String → Call V
  puts : String → CacheEntry V → Call V
  invalidates : String → Call V

module _ {V : Type 0} where
  unfoldable pub call : LruCache V → Call V → LruCache V
  call c (gets k) = (get c k).0
  call c (puts k e) = (put c k e).0
  call c (invalidates k) = invalidate c k

  unfoldable pub calls : LruCache V → List (Call V) → LruCache V
  calls c [] = c
  calls c (x ∷ xs) = calls (call c x) xs

  -- the entries that the node puts are never in the state I
  abbrev pub PutsValid : List (Call V) → Type 0
  PutsValid [] = Unit
  PutsValid (puts k e ∷ xs) = (is_invalid e.state ≡ false) × PutsValid xs
  PutsValid (gets k ∷ xs) = PutsValid xs
  PutsValid (invalidates k ∷ xs) = PutsValid xs

  calls_from-IsValid :
      (c : LruCache V) (xs : List (Call V)) → PutsValid xs → IsValid c → IsValid (calls c xs)
  unfolding calls call
  calls_from-IsValid c [] p v = v
  calls_from-IsValid c (gets k ∷ xs) p v = calls_from-IsValid (get c k).0 xs p (get-IsValid c k v)
  calls_from-IsValid c (puts k e ∷ xs) p v =
      calls_from-IsValid (put c k e).0 xs p.1 (put-IsValid c k e p.0 v)
  calls_from-IsValid c (invalidates k ∷ xs) p v =
      calls_from-IsValid (invalidate c k) xs p (invalidate-IsValid c k v)

  -- After any calls on a new cache, where no entry is put in the state I, the order of use lists
  -- exactly the keys with a valid entry, each once, and is no longer than the capacity.
  pub calls-IsValid : (cap : ℕ) (xs : List (Call V)) → PutsValid xs → IsValid (calls (init cap) xs)
  calls-IsValid cap xs p = calls_from-IsValid (init cap) xs p (init-IsValid cap)

  filled : LruCache V → String → CacheEntry V → LruCache V
  filled c key e = record c { entries = insert key e c.entries; lru = touch key c.lru }

  put_over :
      (c : LruCache V) (key old : String) (r : List String) (e : CacheEntry V)
      → touch key c.lru ≡ old ∷ r
      → c.capacity < length (old ∷ r)
      → put c key e ≡ (
        record c { entries = erase old (insert key e c.entries); lru = r },
        Option.map (λ x. (old, x)) (lookup old (insert key e c.entries)),
      )
  unfolding put evict filled
  put_over c key old r e order over =
      let more : ltb c.capacity (length (touch key c.lru)) ≡ true =
        ground (arith, ap length order) in
      rw more (ap (evict (filled c key e)) order)

  -- In a valid cache that is full and not empty, the put of a key that the order of use does not list
  -- drives out the least recently used key with its entry and puts the new key last; the new key then
  -- has what was put, and every other key what it had.
  pub put_full :
      (c : LruCache V) (key old : String) (rest : List String) (e : CacheEntry V)
      → IsValid c
      → c.lru ≡ old ∷ rest
      → length c.lru ≡ c.capacity
      → member key c.lru ≡ false
      → let (c', evicted) = put c key e in
        (c'.lru ≡ rest ++ key ∷ [])
        × (holds_valid (lookup old c.entries) ≡ true)
        × (evicted ≡ Option.map (λ x. (old, x)) (lookup old c.entries))
        × ((j : String)
            → lookup j c'.entries
              ≡ ite (dec_string old j) none (ite (dec_string key j) (some e) (lookup j c.entries)))
  put_full c key old rest e v order full new =
      let kept : touch key c.lru ≡ old ∷ (rest ++ key ∷ []) =
        touch_new key c.lru new ∙ ap (λ s. s ++ key ∷ []) order in
      let other : key ≢ old = not-first key old rest (ap (member key) (sym order) ∙ new) in
      let room : c.capacity < length (old ∷ (rest ++ key ∷ [])) =
        omega (arith, ap length order, length-append rest (key ∷ [])) in
      rw (put_over c key old (rest ++ key ∷ []) e kept room) (
        refl,
        sym (v.listed old) ∙ ap (member old) order ∙ first old rest,
        ap (Option.map (λ x. (old, x))) (
            lookup-insert key old e c.entries
            ∙ if_neg (dec_string key old) other (some e) (lookup old c.entries)),
        λ j.
            ground
              (arith, lookup-erase old j (insert key e c.entries), lookup-insert key j e c.entries),
      )
