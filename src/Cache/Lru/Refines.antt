-- ===== src/Cache/Lru/Refines.antt =====
-- `LruCache`: what its calls return is what one list of entries in their order of use would return.
use mathlib.Core.Option
use sinkronisasi_dan_distrib.Base.{
  ℕ, suc, String, ◌≡◌, refl, inl, inr, ◌∙◌, sym, ap, subst, false, Option, none, some, List, [],
  ◌∷◌, Dict, lookup, insert, erase, lookup-insert, lookup-erase, ite, dec_string, if◌then◌else◌,
  ltb, length, keys, arith, IsDistinct, member-keys, set_discard, Bool-cases, Option-cases,
}
use sinkronisasi_dan_distrib.Cache.Lru.{
  invalid, is_invalid, CacheEntry, LruCache, touch, init, get, evict, put, invalidate,
}
use sinkronisasi_dan_distrib.Cache.Lru.Bounds.{set_discard-IsDistinct, touch-IsDistinct}
use sinkronisasi_dan_distrib.Cache.Lru.Reads.{Call, gets, puts, invalidates, call, PutsValid}
use sinkronisasi_dan_distrib.Cache.Lru.Spec.{
  Seen, read, evicted, nothing, renew, drop_first, spec_call, spec_run, trim, keys-erase,
  keys-renew, lookup-renew,
}

IsDistinct-rest : (k : String) (s : List String) → IsDistinct (k ∷ s) → IsDistinct s
unfolding IsDistinct
IsDistinct-rest k s d = d.1

module _ {V : Type 0} where
  -- an entry in the state I reads as none
  abbrev live : Option (CacheEntry V) → Option (CacheEntry V)
  live none = none
  live (some e) = if is_invalid e.state then none else some e

  live-some : (o : Option (CacheEntry V)) (e : CacheEntry V) → live o ≡ some e → o ≡ some e
  live-some none e h = h
  live-some (some x) e h = ground arith

  -- what a call on the cache lets its caller see
  abbrev call_seen : LruCache V → Call V → Seen V
  call_seen c (gets k) = read (get c k).1
  call_seen c (puts k e) = evicted (put c k e).1
  call_seen c (invalidates k) = nothing

  unfoldable pub run_seen : LruCache V → List (Call V) → List (Seen V)
  run_seen c [] = []
  run_seen c (x ∷ xs) = call_seen c x ∷ run_seen (call c x) xs

  record Refines (cap : ℕ) (c : LruCache V) (l : Dict (CacheEntry V)) : Type 0 where
    sized : c.capacity ≡ cap
    order : c.lru ≡ keys l
    distinct : IsDistinct (keys l)
    readable : (k : String) → live (lookup k c.entries) ≡ lookup k l

  -- the two results are the same, and the two states stay together
  Agrees :
      ℕ
      → LruCache V × Option (String × CacheEntry V)
      → Dict (CacheEntry V) × Option (String × CacheEntry V)
      → Type 0
  Agrees cap x y = Refines cap x.0 y.0 × (x.1 ≡ y.1)

  used : LruCache V → String → Option (CacheEntry V) → LruCache V × Option (CacheEntry V)
  used c k none = (c, none)
  used c k (some e) = (record c { lru = touch k c.lru }, some e)

  get-used : (c : LruCache V) (k : String) → get c k ≡ used c k (live (lookup k c.entries))
  unfolding get used
  get-used c k = elim (Option-cases (lookup k c.entries)) [
    | inl missing ↦ rw (missing, get) refl
    | inr (e, found) ↦ elim (Bool-cases (is_invalid e.state)) [
      | inl dead ↦ rw (found, get, dead) refl
      | inr alive ↦ rw (found, get, alive) refl
    ]
  ]

  lookup_renewed :
      (k j : String) (e : CacheEntry V) (l : Dict (CacheEntry V))
      → lookup k l ≡ some e
      → lookup j l ≡ lookup j (renew k e l)
  lookup_renewed k j e l found = ground (arith, lookup-renew k j e l)

  renew-IsDistinct :
      (k : String) (e : CacheEntry V) (l : Dict (CacheEntry V))
      → IsDistinct (keys l)
      → IsDistinct (keys (renew k e l))
  renew-IsDistinct k e l d = rw (keys-renew k e l) (touch-IsDistinct k (keys l) d)

  get-Refines :
      (cap : ℕ) (c : LruCache V) (l : Dict (CacheEntry V)) (k : String)
      → Refines cap c l
      → Refines cap (get c k).0 (spec_call cap l (gets k)).0 × ((get c k).1 ≡ lookup k l)
  unfolding used spec_call
  get-Refines cap c l k r = elim (Option-cases (lookup k l)) [
    | inl missing ↦ rw (get-used c k ∙ ap (used c k) (r.readable k ∙ missing), missing) (r, refl)
    | inr (e, found) ↦
        rw (get-used c k ∙ ap (used c k) (r.readable k ∙ found), found)
          (
            record {
              sized = r.sized;
              order = ap (touch k) r.order ∙ sym (keys-renew k e l);
              distinct = renew-IsDistinct k e l r.distinct;
              readable = λ j. r.readable j ∙ lookup_renewed k j e l found;
            },
            refl,
          )
  ]

  put_in-Refines :
      (cap : ℕ) (c : LruCache V) (l : Dict (CacheEntry V)) (k : String) (e : CacheEntry V)
      → is_invalid e.state ≡ false
      → Refines cap c l
      → Refines cap (record c { entries = insert k e c.entries; lru = touch k c.lru }) (renew k e l)
  put_in-Refines cap c l k e alive r = record {
    sized = r.sized;
    order = ap (touch k) r.order ∙ sym (keys-renew k e l);
    distinct = renew-IsDistinct k e l r.distinct;
    readable =
        λ j. ground (arith, lookup-insert k j e c.entries, lookup-renew k j e l, r.readable j);
  }

  lookup-first :
      (k : String) (e : CacheEntry V) (l : Dict (CacheEntry V)) → lookup k ((k, e) ∷ l) ≡ some e
  unfolding lookup
  lookup-first k e l = ground arith

  lookup_rest :
      (k j : String) (e : CacheEntry V) (l : Dict (CacheEntry V))
      → IsDistinct (keys ((k, e) ∷ l))
      → lookup j l ≡ ite (dec_string k j) none (lookup j ((k, e) ∷ l))
  unfolding lookup IsDistinct
  lookup_rest k j e l d = ground (arith, d.0, member-keys k l)

  evict-Agrees :
      (cap : ℕ) (c : LruCache V) (l : Dict (CacheEntry V))
      → Refines cap c l
      → Agrees cap (evict c (keys l)) (drop_first l)
  unfolding Agrees evict
  evict-Agrees cap c [] r = (r, refl)
  evict-Agrees cap c ((old, e) ∷ l) r =
      let first : lookup old c.entries ≡ some e =
        live-some (lookup old c.entries) e (r.readable old ∙ lookup-first old e l) in
      (
        record {
          sized = r.sized;
          order = refl;
          distinct = IsDistinct-rest old (keys l) r.distinct;
          readable = λ j.
              ground (
                arith,
                r.readable j,
                lookup-erase old j c.entries,
                lookup_rest old j e l r.distinct,
              );
        },
        ap (Option.map (λ x. (old, x))) first,
      )

  length-keys : (l : Dict (CacheEntry V)) → length (keys l) ≡ length l
  length-keys [] = refl
  length-keys (x ∷ l) = ap suc (length-keys l)

  erase_absent : (k : String) (l : Dict (CacheEntry V)) → lookup k l ≡ none → erase k l ≡ l
  unfolding lookup erase
  erase_absent k [] h = refl
  erase_absent k ((j, e) ∷ l) h = ground (arith, erase_absent k l)

  invalidate-Refines :
      (cap : ℕ) (c : LruCache V) (l : Dict (CacheEntry V)) (k : String)
      → Refines cap c l
      → Refines cap (invalidate c k) (erase k l)
  unfolding invalidate
  invalidate-Refines cap c l k r = elim (Option-cases (lookup k c.entries)) [
    | inl missing ↦
        rw (missing, invalidate, erase_absent k l (sym (r.readable k) ∙ ap live missing)) r
    | inr (e, found) ↦
        rw (found, invalidate)
          (record {
            sized = r.sized;
            order = ap (set_discard k) r.order ∙ sym (keys-erase k l);
            distinct = rw (keys-erase k l) (set_discard-IsDistinct k (keys l) r.distinct);
            readable = λ j. ground (
              arith,
              r.readable j,
              lookup-erase k j l,
              lookup-insert k j (record e { state = invalid }) c.entries,
            );
          })
  ]

  put-Agrees :
      (cap : ℕ) (c : LruCache V) (l : Dict (CacheEntry V)) (k : String) (e : CacheEntry V)
      → is_invalid e.state ≡ false
      → Refines cap c l
      → Agrees cap (put c k e) (trim cap (renew k e l))
  unfolding put
  put-Agrees cap c l k e alive r =
      let c' : LruCache V = record c { entries = insert k e c.entries; lru = touch k c.lru } in
      let r' : Refines cap c' (renew k e l) = put_in-Refines cap c l k e alive r in
      let same : ltb c.capacity (length (touch k c.lru)) ≡ ltb cap (length (renew k e l)) =
        ground (arith, r.sized, ap length r'.order, length-keys (renew k e l)) in
      elim (Bool-cases (ltb cap (length (renew k e l)))) [
        | inl over ↦
            rw (same ∙ over, over, put)
              (subst (λ s. Agrees cap (evict c' s) (drop_first (renew k e l))) (sym r'.order)
                (evict-Agrees cap c' (renew k e l) r'))
        | inr fits ↦ rw (same ∙ fits, fits, put) (unfold Agrees in (r', refl))
      ]

  call-Refines :
      (cap : ℕ) (c : LruCache V) (l : Dict (CacheEntry V)) (x : Call V) (xs : List (Call V))
      → PutsValid (x ∷ xs)
      → Refines cap c l
      → Refines cap (call c x) (spec_call cap l x).0
        × (call_seen c x ≡ (spec_call cap l x).1)
        × PutsValid xs
  unfolding call spec_call Agrees
  call-Refines cap c l (gets k) xs p r =
      let (r', same) = get-Refines cap c l k r in (r', ap read same, p)
  call-Refines cap c l (puts k e) xs p r =
      let (r', same) = put-Agrees cap c l k e p.0 r in (r', ap evicted same, p.1)
  call-Refines cap c l (invalidates k) xs p r = (invalidate-Refines cap c l k r, refl, p)

  run-Refines :
      (cap : ℕ) (c : LruCache V) (l : Dict (CacheEntry V)) (xs : List (Call V))
      → PutsValid xs
      → Refines cap c l
      → run_seen c xs ≡ spec_run cap l xs
  unfolding run_seen spec_run
  run-Refines cap c l [] p r = refl
  run-Refines cap c l (x ∷ xs) p r =
      let (r', same, p') = call-Refines cap c l x xs p r in
      ap (λ s. s ∷ run_seen (call c x) xs) same
      ∙ ap (λ s. (spec_call cap l x).1 ∷ s)
          (run-Refines cap (call c x) (spec_call cap l x).0 xs p' r')

  -- On any calls, where no entry is put in the state I, a new cache returns at each call what one
  -- list of entries in their order of use returns: a read, the entry of that key, which it moves to
  -- the end; a put, when the list becomes longer than the capacity, the first of the list, which
  -- leaves it; an invalidation takes the key out.
  pub cache-refines_list :
      (cap : ℕ) (xs : List (Call V)) → PutsValid xs → run_seen (init cap) xs ≡ spec_run cap [] xs
  unfolding init lookup IsDistinct
  cache-refines_list cap xs p =
      run-Refines cap (init cap) [] xs p
        (record { sized = refl; order = refl; distinct = tt; readable = λ k. refl })
