-- ===== src/Cache/Lru/Spec.antt =====
-- What an LRU cache promises, as one list: the keys with their entries, the least recently used first.
use sinkronisasi_dan_distrib.Base.{
  ℕ, String, ◌≡◌, refl, ◌∙◌, ap, false, Option, none, some, List, [], ◌∷◌, ◌++◌, Dict, lookup,
  erase, ite, dec_string, if◌then◌else◌, ltb, length, keys, set_discard, arith, contains,
  lookup-erase,
}
use sinkronisasi_dan_distrib.Cache.Lru.{CacheEntry, touch}
use sinkronisasi_dan_distrib.Cache.Lru.Reads.{Call, gets, puts, invalidates}

-- what a call lets its caller see
pub data Seen (V : Type 0) : Type 0 where
  read : Option (CacheEntry V) → Seen V
  evicted : Option (String × CacheEntry V) → Seen V
  nothing : Seen V

module _ {V : Type 0} where
  -- the key with its entry, as the most recently used
  abbrev pub renew : String → CacheEntry V → Dict (CacheEntry V) → Dict (CacheEntry V)
  renew k e l = erase k l ++ (k, e) ∷ []

  abbrev pub spec_get : Dict (CacheEntry V) → String → Option (CacheEntry V) → Dict (CacheEntry V)
  spec_get l k none = l
  spec_get l k (some e) = renew k e l

  abbrev pub drop_first : Dict (CacheEntry V) → Dict (CacheEntry V) × Option (String × CacheEntry V)
  drop_first [] = ([], none)
  drop_first (x ∷ l) = (l, some x)

  abbrev pub trim : ℕ → Dict (CacheEntry V) → Dict (CacheEntry V) × Option (String × CacheEntry V)
  trim cap l = if ltb cap (length l) then drop_first l else (l, none)

  unfoldable pub spec_call : ℕ → Dict (CacheEntry V) → Call V → Dict (CacheEntry V) × Seen V
  spec_call cap l (gets k) = (spec_get l k (lookup k l), read (lookup k l))
  spec_call cap l (puts k e) = let (l', out) = trim cap (renew k e l) in (l', evicted out)
  spec_call cap l (invalidates k) = (erase k l, nothing)

  unfoldable pub spec_run : ℕ → Dict (CacheEntry V) → List (Call V) → List (Seen V)
  spec_run cap l [] = []
  spec_run cap l (x ∷ xs) = let (l', seen) = spec_call cap l x in seen ∷ spec_run cap l' xs

  pub keys-erase :
      (k : String) (l : Dict (CacheEntry V)) → keys (erase k l) ≡ set_discard k (keys l)
  unfolding erase set_discard
  keys-erase k [] = refl
  keys-erase k ((j, e) ∷ l) = ground (arith, keys-erase k l)

  keys-append_one :
      (k : String) (e : CacheEntry V) (l : Dict (CacheEntry V))
      → keys (l ++ (k, e) ∷ []) ≡ keys l ++ k ∷ []
  keys-append_one k e [] = refl
  keys-append_one k e ((j, x) ∷ l) = ap (λ s. j ∷ s) (keys-append_one k e l)

  pub keys-renew :
      (k : String) (e : CacheEntry V) (l : Dict (CacheEntry V))
      → keys (renew k e l) ≡ touch k (keys l)
  unfolding touch
  keys-renew k e l = keys-append_one k e (erase k l) ∙ ap (λ s. s ++ k ∷ []) (keys-erase k l)

  lookup-append_one :
      (k j : String) (e : CacheEntry V) (l : Dict (CacheEntry V))
      → contains k l ≡ false
      → lookup j (l ++ (k, e) ∷ []) ≡ ite (dec_string k j) (some e) (lookup j l)
  unfolding lookup
  lookup-append_one k j e [] h = refl
  lookup-append_one k j e ((i, x) ∷ l) h = ground (arith, lookup-append_one k j e l)

  pub lookup-renew :
      (k j : String) (e : CacheEntry V) (l : Dict (CacheEntry V))
      → lookup j (renew k e l) ≡ ite (dec_string k j) (some e) (lookup j l)
  lookup-renew k j e l =
      ground (arith, lookup-append_one k j e (erase k l), lookup-erase k k l, lookup-erase k j l)
